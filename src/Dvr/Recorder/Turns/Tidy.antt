-- ===== src/Dvr/Recorder/Turns/Tidy.antt =====
-- The files of the recorder (src/dvr/dvr.cpp) through a turn of its thread.
use pixel_pilot_rk.Common.{
  ◌≡◌, ◌⊎◌, inl, inr, refl, Bool, true, false, not, ◌&&◌, Option, none, some, List, [], ◌∷◌,
}
use pixel_pilot_rk.Dvr.Files.{World, Leaves, Leaves-if}
use pixel_pilot_rk.Dvr.Status.{
  Report, no_longer_mounted, was_removed, low_free_space, storage_available_bytes, storage_status,
}
use pixel_pilot_rk.Dvr.Queue.{
  Rpc, Command, rpc_au, rpc_start, rpc_stop, rpc_toggle, rpc_disable, rpc_rotate, rpc_fail,
  rpc_shutdown,
}
use pixel_pilot_rk.Dvr.Recorder.{Recorder, Host, is_disabled, stop, fail}
use pixel_pilot_rk.Dvr.Recorder.Turns.{
  act, check_status, finish_storage_work, stop_if_armed, perform, is_shutdown, is_disable,
  finish_turn, turn,
}
use pixel_pilot_rk.Dvr.Recorder.Stopped.{
  IsTidy, stop-Stopped, Stopped-IsTidy, fail-Failed, Failed-IsTidy, refuted,
}
use pixel_pilot_rk.Dvr.Recorder.Tidy.{
  start-IsTidy, handle_access_unit-IsTidy, rotate-IsTidy, if-IsTidy,
}

and_true : (b : Bool) → (b && true && true) ≡ false → b ≡ false
and_true true e = e
and_true false e = e

module _ (h : Host) where
  act-IsTidy :
      (reports : List Report) (r : Recorder) (w : World)
      → IsTidy r
      → Leaves (act h reports r w) (λ r' _. IsTidy r')
  unfolding act
  act-IsTidy [] r w t = t
  act-IsTidy (no_longer_mounted ∷ rest) r w t =
      let m = fail h true r w in
      act-IsTidy rest m.0 m.1 (Failed-IsTidy h true r m.0 t (fail-Failed h true r w))
  act-IsTidy (was_removed ∷ rest) r w t =
      let m = fail h true r w in
      act-IsTidy rest m.0 m.1 (Failed-IsTidy h true r m.0 t (fail-Failed h true r w))
  act-IsTidy (low_free_space ∷ rest) r w t =
      let m = fail h false r w in
      act-IsTidy rest m.0 m.1 (Failed-IsTidy h false r m.0 t (fail-Failed h false r w))
  act-IsTidy (storage_available_bytes n ∷ rest) r w t =
      act-IsTidy rest _ w (record { named = t.named; closed = t.closed; attempts = t.attempts })
  act-IsTidy (storage_status n ∷ rest) r w t =
      act-IsTidy rest _ w (record { named = t.named; closed = t.closed; attempts = t.attempts })

  pub check_status-IsTidy :
      (force_update : Bool) (r : Recorder) (w : World)
      → IsTidy r
      → Leaves (check_status h force_update r w) (λ r' _. IsTidy r')
  unfolding check_status
  check_status-IsTidy force_update r w t =
      act-IsTidy _ _ w (record { named = t.named; closed = t.closed; attempts = t.attempts })

  stop-IsTidy : (r : Recorder) (w : World) → IsTidy r → Leaves (stop h r w) (λ r' _. IsTidy r')
  stop-IsTidy r w t = Stopped-IsTidy h r _ t.attempts (stop-Stopped h r w)

  pub stop_if_armed-IsTidy :
      (r : Recorder) (w : World)
      → IsTidy r
      → Leaves (stop_if_armed h r w) (λ r' _. IsTidy r' × (r'.recording_armed ≡ false))
  stop_if_armed-IsTidy r w t =
      Leaves-if r.recording_armed _ _ w (λ r' _. IsTidy r' × (r'.recording_armed ≡ false))
        (λ _. (stop-IsTidy r w t, (stop-Stopped h r w).0)) (λ a. (t, a))

  pub finish_storage_work-IsTidy :
      (r : Recorder) (w : World)
      → IsTidy r
      → Leaves (finish_storage_work h r w) (λ x _.
        IsTidy x.1
        × ((x.1.recording_armed ≡ r.recording_armed) × (x.1.stalled ≡ false)
            ⊎ (x.1.recording_armed ≡ false) × (x.1.writer.is_open ≡ false)))
  unfolding finish_storage_work
  finish_storage_work-IsTidy r w t =
      let calm : Recorder = record r { stalled = false } in
      Leaves-if {A = Bool × Recorder} (not r.stalled) _ _ w
        (λ x _.
          IsTidy x.1
          × ((x.1.recording_armed ≡ r.recording_armed) × (x.1.stalled ≡ false)
              ⊎ (x.1.recording_armed ≡ false) × (x.1.writer.is_open ≡ false)))
        (λ e. (t, inl (refl, refuted r.stalled e)))
        (λ _.
          let s = stop-Stopped h calm w in (Stopped-IsTidy h calm _ t.attempts s, inr (s.0, s.1)))

  perform-IsTidy :
      (rpc : Rpc) (c : Command) (r : Recorder) (w : World)
      → IsTidy r
      → (is_disabled r.dvr_state && not (is_shutdown h c) && not (is_disable h c)) ≡ false
      → Leaves (perform h rpc c r w) (λ r' _. IsTidy r')
  unfolding perform
  perform-IsTidy rpc rpc_au r w t d =
      handle_access_unit-IsTidy h rpc r w t (and_true (is_disabled r.dvr_state) d)
  perform-IsTidy rpc rpc_start r w t d =
      Leaves-if (not r.recording_armed) _ _ w (λ r' _. IsTidy r') (λ _. start-IsTidy h r w t)
        (λ _. t)
  perform-IsTidy rpc rpc_stop r w t d = (stop_if_armed-IsTidy r w t).0
  perform-IsTidy rpc rpc_toggle r w t d =
      Leaves-if r.recording_armed _ _ w (λ r' _. IsTidy r') (λ _. stop-IsTidy r w t)
        (λ _. start-IsTidy h r w t)
  perform-IsTidy rpc rpc_disable r w t d =
      let t' = (stop_if_armed-IsTidy r w t).0 in
      record { named = t'.named; closed = t'.closed; attempts = t'.attempts }
  perform-IsTidy rpc rpc_rotate r w t d = if-IsTidy h r.recording_armed _ _ (rotate-IsTidy h r t) t
  perform-IsTidy rpc rpc_fail r w t d =
      Leaves-if r.recording_armed _ _ w (λ r' _. IsTidy r')
        (λ _. Failed-IsTidy h true r _ t (fail-Failed h true r w)) (λ _. t)
  perform-IsTidy rpc rpc_shutdown r w t d = t

  finish_turn-IsTidy :
      (r : Recorder) (w : World) → IsTidy r → Leaves (finish_turn h r w) (λ x _. IsTidy x.1)
  unfolding finish_turn
  finish_turn-IsTidy r w t = (finish_storage_work-IsTidy r w t).0

  pub turn-IsTidy :
      (rpc : Option Rpc) (r : Recorder) (w : World)
      → IsTidy r
      → Leaves (turn h rpc r w) (λ x _. IsTidy x.1)
  unfolding turn
  turn-IsTidy none r w t =
      let m = check_status h true r w in finish_turn-IsTidy m.0 m.1 (check_status-IsTidy true r w t)
  turn-IsTidy (some rpc) r w t =
      let m = check_status h false r w in
      let t' = check_status-IsTidy false r w t in
      Leaves-if {A = Bool × Recorder}
        (is_disabled m.0.dvr_state
          && not (is_shutdown h rpc.command)
          && not (is_disable h rpc.command))
        _ _ m.1 (λ x _. IsTidy x.1) (λ _. (finish_storage_work-IsTidy m.0 m.1 t').0)
        (λ d.
          Leaves-if {A = Bool × Recorder} (is_shutdown h rpc.command) _ _ m.1 (λ x _. IsTidy x.1)
            (λ _. t')
            (λ _.
              let n = perform h rpc rpc.command m.0 m.1 in
              finish_turn-IsTidy n.0 n.1 (perform-IsTidy rpc rpc.command m.0 m.1 t' d)))
