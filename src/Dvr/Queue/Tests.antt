-- ===== src/Dvr/Queue/Tests.antt =====
-- The queue of the recorder (src/dvr/dvr.cpp): runs, and the theorems at concrete inputs.
use pixel_pilot_rk.Common.{◌≡◌, ◌⊎◌, refl, some, true, [], ◌∷◌, arith}
use pixel_pilot_rk.Dvr.Queue.{
  Shared, rpc_start, rpc_stop, request, new_dvr, idle, disabled, enqueue, begin_recording,
  set_armed, on_access_unit, end_recording, rpc_shutdown,
}
use pixel_pilot_rk.Dvr.Queue.Steps.{Run, here, next, posted, began, armed, delivered, ended}
use pixel_pilot_rk.Dvr.Queue.Bounded.{IsQueue, Run-IsQueue}
use pixel_pilot_rk.Dvr.Queue.Watchdog.{Watched, IsStuck, GivenUp, on_tick, on_tick-GivesUp}
use pixel_pilot_rk.Dvr.Queue.Senders.{disable, stop_recording, shutdown, Refuses, disable-Refuses}

-- A start, an access unit of 3 bytes, and a stop.
abbrev recorded : Shared
recorded = enqueue (request rpc_stop) (
    on_access_unit true (1 ∷ 2 ∷ 3 ∷ []) 40 true
      (set_armed true (begin_recording (enqueue (request rpc_start) new_dvr))))

recorded-Run : Run new_dvr recorded
recorded-Run =
    next
      (next (next (next (next here (posted _ rpc_start)) (began _)) (armed _ true))
        (delivered _ true (1 ∷ 2 ∷ 3 ∷ []) 40 true (omega arith)))
      (posted _ rpc_stop)

queue_run : recorded.queue_bytes ≡ 3
unfolding enqueue on_access_unit set_armed begin_recording new_dvr
queue_run = refl

Run-IsQueue_example : IsQueue recorded
Run-IsQueue_example = Run-IsQueue recorded-Run

-- A start and the end of a recording, after the recorder is disabled.
abbrev off : Shared
off = (disable new_dvr).0

off-Run : Run off (end_recording (begin_recording (enqueue (request rpc_start) off)))
off-Run = next (next (next here (posted off rpc_start)) (began _)) (ended _)

disable-Refuses_example :
    let t : Shared = end_recording (begin_recording (enqueue (request rpc_start) off)) in
    (t.dvr_state ≡ disabled)
    × Refuses t
    × ((stop_recording t).1 ≡ some (request rpc_stop))
    × ((shutdown t).1 ≡ some (request rpc_shutdown))
disable-Refuses_example = disable-Refuses new_dvr off-Run

-- The recorder's thread has worked since the first second, on a queue with a command.
abbrev at_work : Watched
at_work = record { busy_since_ms = 1000; shared = enqueue (request rpc_stop) new_dvr; notices = [] }

on_tick-GivesUp_example :
    (IsStuck 6000 at_work × GivenUp at_work.shared (on_tick 6000 at_work).shared)
    ⊎ ((¬ IsStuck 6000 at_work) × (on_tick 6000 at_work ≡ at_work))
on_tick-GivesUp_example = on_tick-GivesUp 6000 at_work

tick_runs :
    ((on_tick 6000 at_work).shared.dvr_state ≡ disabled)
    × ((on_tick 5999 at_work).shared.dvr_state ≡ idle)
unfolding on_tick enqueue new_dvr
tick_runs = (refl, refl)
