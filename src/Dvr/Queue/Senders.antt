-- ===== src/Dvr/Queue/Senders.antt =====
-- The calls by which the other threads command the recorder: `start_recording`, `stop_recording`,
-- `toggle_recording`, `disable` and `shutdown` of src/dvr/dvr.cpp. Each returns what it leaves of the shared
-- state, and the command, if any, that it posts to the encoder's thread, which drains and then queues it.
use pixel_pilot_rk.Common.{
  ◌≡◌, refl, ap, inl, inr, Bool, true, false, ◌&&◌, Bool-cases, Option, none, some, if◌then◌else◌,
}
use pixel_pilot_rk.Dvr.Queue.{
  Command, Rpc, Shared, rpc_au, rpc_start, rpc_stop, rpc_toggle, rpc_disable, rpc_rotate, rpc_fail,
  rpc_shutdown, request, enqueue, end_recording, disabled,
}
use pixel_pilot_rk.Dvr.Queue
use pixel_pilot_rk.Dvr.Queue.Steps.{Run}
use pixel_pilot_rk.Dvr.Queue.Latched.{Run-latched}
use pixel_pilot_rk.Dvr.Recorder.{is_disabled}

abbrev pub wants_start : Command → Bool
wants_start rpc_start = true
wants_start rpc_toggle = true
wants_start _ = false

pub enqueue_dvr_command : Command → Shared → Option Rpc
enqueue_dvr_command c s =
    if wants_start c && is_disabled s.dvr_state then none else some (request c)

pub start_recording : Shared → Shared × Option Rpc
start_recording s = (s, enqueue_dvr_command rpc_start s)

pub stop_recording : Shared → Shared × Option Rpc
stop_recording s = (end_recording s, enqueue_dvr_command rpc_stop (end_recording s))

pub toggle_recording : Shared → Shared × Option Rpc
toggle_recording s = (s, enqueue_dvr_command rpc_toggle s)

-- `exchange`, and an early return if it was so already.
pub disable : Shared → Shared × Option Rpc
disable s =
    if is_disabled s.dvr_state
    then (Queue.disable s, none)
    else (Queue.disable s, enqueue_dvr_command rpc_disable (Queue.disable s))

pub shutdown : Shared → Shared × Option Rpc
shutdown s = (end_recording s, enqueue_dvr_command rpc_shutdown (end_recording s))

-- The function that is posted, behind `drain_pending`.
pub posted_command : Option Rpc → Shared → Shared
posted_command none s = s
posted_command (some rpc) s = enqueue rpc s

-- A start or a toggle posts nothing to a recorder that is disabled, nor does another disable.
abbrev pub Refuses : Shared → Type 0
Refuses t =
    (start_recording t ≡ (t, none)) × (toggle_recording t ≡ (t, none)) × ((disable t).1 ≡ none)

latched-Refuses : (t : Shared) → t.dvr_state ≡ disabled → Refuses t
unfolding start_recording toggle_recording disable enqueue_dvr_command
latched-Refuses t h =
    let e : is_disabled t.dvr_state ≡ true = ap is_disabled h in
    (
      ap (λ off. (t, (if off then none else some (request rpc_start)))) e,
      ap (λ off. (t, (if off then none else some (request rpc_toggle)))) e,
      ap
          (λ (off : Bool).
            let r : Shared × Option Rpc =
              (if off
                then (Queue.disable t, none)
                else (Queue.disable t, enqueue_dvr_command rpc_disable (Queue.disable t))) in
            r.1)
          e,
    )

disable-latches : (s : Shared) → (disable s).0.dvr_state ≡ disabled
unfolding disable Queue.disable
disable-latches s = elim (Bool-cases (is_disabled s.dvr_state)) [
  | inl e ↦ rw e refl
  | inr e ↦ rw e refl
]

-- Behind `disable`, whatever the recorder's threads do and in whatever order, the recorder stays disabled;
-- `start_recording` and `toggle_recording` change nothing and post no command, and `disable` posts none
-- again, while `stop_recording` and `shutdown` always post theirs.
pub disable-Refuses :
    {t : Shared} (s : Shared)
    → Run (disable s).0 t
    → (t.dvr_state ≡ disabled)
      × Refuses t
      × ((stop_recording t).1 ≡ some (request rpc_stop))
      × ((shutdown t).1 ≡ some (request rpc_shutdown))
unfolding stop_recording shutdown enqueue_dvr_command
disable-Refuses {t} s r =
    let h = Run-latched r (disable-latches s) in (h, latched-Refuses t h, refl, refl)
