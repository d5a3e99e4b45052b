-- ===== src/Dvr/Recorder/Turns/Named.antt =====
-- The name of the recorder's open file (src/dvr/dvr.cpp) through a turn of its thread.
use pixel_pilot_rk.Common.{refl, Bool, true, false, not, ◌&&◌, Option, none, some, List, [], ◌∷◌}
use pixel_pilot_rk.Dvr.Files.{World, M, Leaves, Leaves-if}
use pixel_pilot_rk.Dvr.Status.{
  Report, no_longer_mounted, was_removed, low_free_space, storage_available_bytes, storage_status,
}
use pixel_pilot_rk.Dvr.Queue.{
  Rpc, Command, rpc_au, rpc_start, rpc_stop, rpc_toggle, rpc_disable, rpc_rotate, rpc_fail,
  rpc_shutdown,
}
use pixel_pilot_rk.Dvr.Recorder.{Recorder, Host, is_disabled, fail}
use pixel_pilot_rk.Dvr.Recorder.Turns.{
  Outside, asked_to_stop, latched, overflowed, stuck, Input, waited, took, outside, meddled, act,
  check_status, finish_storage_work, stop_if_armed, perform, is_shutdown, is_disable, finish_turn,
  turn, wind_up, end_or, loop,
}
use pixel_pilot_rk.Dvr.Recorder.Named.{
  IsNamed, renamed, if-IsNamed, stop-IsNamed, fail-IsNamed, rotate-IsNamed,
  handle_access_unit-IsNamed, start-IsNamed,
}

meddled-IsNamed : (o : Outside) (r : Recorder) (w : World) → IsNamed r w → IsNamed (meddled o r) w
unfolding meddled
meddled-IsNamed asked_to_stop r w n = renamed r _ w refl refl n
meddled-IsNamed latched r w n = renamed r _ w refl refl n
meddled-IsNamed overflowed r w n = renamed r _ w refl refl n
meddled-IsNamed stuck r w n = renamed r _ w refl refl n

module _ (h : Host) where
  act-IsNamed :
      (reports : List Report) (r : Recorder) (w : World)
      → IsNamed r w
      → Leaves (act h reports r w) IsNamed
  unfolding act
  act-IsNamed [] r w n = n
  act-IsNamed (no_longer_mounted ∷ rest) r w n =
      let m = fail h true r w in act-IsNamed rest m.0 m.1 (fail-IsNamed h true r w n)
  act-IsNamed (was_removed ∷ rest) r w n =
      let m = fail h true r w in act-IsNamed rest m.0 m.1 (fail-IsNamed h true r w n)
  act-IsNamed (low_free_space ∷ rest) r w n =
      let m = fail h false r w in act-IsNamed rest m.0 m.1 (fail-IsNamed h false r w n)
  act-IsNamed (storage_available_bytes x ∷ rest) r w n =
      act-IsNamed rest _ w (renamed r _ w refl refl n)
  act-IsNamed (storage_status x ∷ rest) r w n = act-IsNamed rest _ w (renamed r _ w refl refl n)

  check_status-IsNamed :
      (force_update : Bool) (r : Recorder) (w : World)
      → IsNamed r w
      → Leaves (check_status h force_update r w) IsNamed
  unfolding check_status
  check_status-IsNamed force_update r w n = act-IsNamed _ _ w (renamed r _ w refl refl n)

  stop_if_armed-IsNamed :
      (r : Recorder) (w : World) → IsNamed r w → Leaves (stop_if_armed h r w) IsNamed
  stop_if_armed-IsNamed r w n =
      Leaves-if r.recording_armed _ _ w IsNamed (λ _. stop-IsNamed h r w n) (λ _. n)

  finish_storage_work-IsNamed :
      (r : Recorder) (w : World)
      → IsNamed r w
      → Leaves (finish_storage_work h r w) (λ x w'. IsNamed x.1 w')
  unfolding finish_storage_work
  finish_storage_work-IsNamed r w n =
      Leaves-if {A = Bool × Recorder} (not r.stalled) _ _ w (λ x w'. IsNamed x.1 w') (λ _. n)
        (λ _. stop-IsNamed h _ w (renamed r (record r { stalled = false }) w refl refl n))

  perform-IsNamed :
      (rpc : Rpc) (c : Command) (r : Recorder) (w : World)
      → IsNamed r w
      → Leaves (perform h rpc c r w) IsNamed
  unfolding perform
  perform-IsNamed rpc rpc_au r w n = handle_access_unit-IsNamed h rpc r w n
  perform-IsNamed rpc rpc_start r w n =
      Leaves-if (not r.recording_armed) _ _ w IsNamed (λ _. start-IsNamed h r w n) (λ _. n)
  perform-IsNamed rpc rpc_stop r w n = stop_if_armed-IsNamed r w n
  perform-IsNamed rpc rpc_toggle r w n =
      Leaves-if r.recording_armed _ _ w IsNamed (λ _. stop-IsNamed h r w n)
        (λ _. start-IsNamed h r w n)
  perform-IsNamed rpc rpc_disable r w n =
      let m = stop_if_armed h r w in renamed m.0 _ m.1 refl refl (stop_if_armed-IsNamed r w n)
  perform-IsNamed rpc rpc_rotate r w n =
      if-IsNamed r.recording_armed _ _ w (rotate-IsNamed h r w n) n
  perform-IsNamed rpc rpc_fail r w n =
      Leaves-if r.recording_armed _ _ w IsNamed (λ _. fail-IsNamed h true r w n) (λ _. n)
  perform-IsNamed rpc rpc_shutdown r w n = n

  finish_turn-IsNamed :
      (r : Recorder) (w : World) → IsNamed r w → Leaves (finish_turn h r w) (λ x w'. IsNamed x.1 w')
  unfolding finish_turn
  finish_turn-IsNamed r w n = finish_storage_work-IsNamed r w n

  turn-IsNamed :
      (rpc : Option Rpc) (r : Recorder) (w : World)
      → IsNamed r w
      → Leaves (turn h rpc r w) (λ x w'. IsNamed x.1 w')
  unfolding turn
  turn-IsNamed none r w n =
      let m = check_status h true r w in
      finish_turn-IsNamed m.0 m.1 (check_status-IsNamed true r w n)
  turn-IsNamed (some rpc) r w n =
      let m = check_status h false r w in
      let n' = check_status-IsNamed false r w n in
      Leaves-if {A = Bool × Recorder}
        (is_disabled m.0.dvr_state
          && not (is_shutdown h rpc.command)
          && not (is_disable h rpc.command))
        _ _ m.1 (λ x w'. IsNamed x.1 w') (λ _. finish_storage_work-IsNamed m.0 m.1 n')
        (λ _.
          Leaves-if {A = Bool × Recorder} (is_shutdown h rpc.command) _ _ m.1
            (λ x w'. IsNamed x.1 w') (λ _. n')
            (λ _.
              let p = perform h rpc rpc.command m.0 m.1 in
              finish_turn-IsNamed p.0 p.1 (perform-IsNamed rpc rpc.command m.0 m.1 n')))

  wind_up-IsNamed : (r : Recorder) (w : World) → IsNamed r w → Leaves (wind_up h r w) IsNamed
  unfolding wind_up
  wind_up-IsNamed r w n =
      let m = stop_if_armed h r w in
      finish_storage_work-IsNamed m.0 m.1 (stop_if_armed-IsNamed r w n)

  end_or-IsNamed :
      (over : Bool) (r : Recorder) (next : Recorder → M (Bool × Recorder)) (w : World)
      → IsNamed r w
      → ((r : Recorder) (w : World) → IsNamed r w → Leaves (next r w) (λ x w'. IsNamed x.1 w'))
      → Leaves (end_or h over r next w) (λ x w'. IsNamed x.1 w')
  unfolding end_or
  end_or-IsNamed true r next w n f = wind_up-IsNamed r w n
  end_or-IsNamed false r next w n f = f r w n

  pub loop-IsNamed :
      (inputs : List Input) (r : Recorder) (w : World)
      → IsNamed r w
      → Leaves (loop h inputs r w) (λ x w'. IsNamed x.1 w')
  unfolding loop
  loop-IsNamed [] r w n = n
  loop-IsNamed (waited ∷ rest) r w n =
      let m = turn h none r w in
      end_or-IsNamed m.0.0 m.0.1 (loop h rest) m.1 (turn-IsNamed none r w n) (loop-IsNamed rest)
  loop-IsNamed (took rpc ∷ rest) r w n =
      let m = turn h (some rpc) r w in
      end_or-IsNamed m.0.0 m.0.1 (loop h rest) m.1 (turn-IsNamed (some rpc) r w n)
        (loop-IsNamed rest)
  loop-IsNamed (outside o ∷ rest) r w n =
      loop-IsNamed rest (meddled o r) w (meddled-IsNamed o r w n)
