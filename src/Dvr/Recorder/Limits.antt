-- ===== src/Dvr/Recorder/Limits.antt =====
-- The limits of a segment and of failed writes in `handle_access_unit` (src/dvr/dvr.cpp).
use pixel_pilot_rk.Common.{
  ◌≡◌, ◌<◌, ◌⊎◌, inl, inr, refl, ap, ◌∙◌, Bool, true, false, not, leb, if◌then◌else◌, arith,
}
use pixel_pilot_rk.Dvr.Files.{World, Leaves, Leaves-if}
use pixel_pilot_rk.Dvr.Writer.{write_nal, next32}
use pixel_pilot_rk.Dvr.Timing.{next_frame_duration}
use pixel_pilot_rk.Dvr.Queue.{Rpc}
use pixel_pilot_rk.Dvr.Recorder.{
  Recorder, Host, is_disabled, request_rotate, fail, open_next_file, is_full, check_limits,
  write_unit, handle_access_unit, max_consecutive_write_failures,
}
use pixel_pilot_rk.Dvr.Recorder.Stopped.{IsTidy, fail-Failed, refuted, affirmed, opposed}
use pixel_pilot_rk.Dvr.Recorder.Tidy.{open_next_file-NextOpened}

if-cases :
    {A : Type 0} (b : Bool) (x y : A) (P : A → Type 0)
    → (b ≡ true → P x)
    → (b ≡ false → P y)
    → P (if b then x else y)
if-cases true x y P h g = h refl
if-cases false x y P h g = g refl

module _ (h : Host) where
  -- While a file is recorded, the next one is asked for or no limit of the segment is reached, and the
  -- writes that failed in a row are fewer than those that end the recording.
  abbrev pub WithinLimits : Recorder → Type 0
  WithinLimits r =
      r.recording_armed ≡ true
      → r.writer.is_open ≡ true
      → ((r.pending_open ≡ true) ⊎ (is_full h r ≡ false))
        × (r.writer.write_fail_streak < max_consecutive_write_failures)

  unarmed : (r : Recorder) → r.recording_armed ≡ false → WithinLimits r
  unarmed r a b _ = absurd (opposed r.recording_armed b a)

  fail-WithinLimits :
      (r : Recorder) (w : World)
      → is_disabled r.dvr_state ≡ false
      → Leaves (fail h true r w) (λ r' _. WithinLimits r')
  fail-WithinLimits r w d = elim (fail-Failed h true r w) [
    | inl (_, e, _) ↦ absurd (opposed (is_disabled r.dvr_state) e d)
    | inr (a, _, _, _) ↦ unarmed (fail h true r w).0 a
  ]

  -- A request leaves the writer and the state alone.
  rotate-requested :
      (r : Recorder)
      → ((request_rotate r).pending_open ≡ true)
        × ((request_rotate r).writer ≡ r.writer)
        × ((request_rotate r).dvr_state ≡ r.dvr_state)
  unfolding request_rotate
  rotate-requested r =
      if-cases r.pending_open _ _
        (λ (q : Recorder).
          (q.pending_open ≡ true) × (q.writer ≡ r.writer) × (q.dvr_state ≡ r.dvr_state))
        (λ p. (p, refl, refl)) (λ _. (refl, refl, refl))

  check_limits-WithinLimits :
      (r : Recorder) (w : World)
      → is_disabled r.dvr_state ≡ false
      → Leaves (check_limits h r w) (λ r' _. WithinLimits r')
  unfolding check_limits
  check_limits-WithinLimits r w d =
      let limited : Recorder = if is_full h r then request_rotate r else r in
      let (p, e) : ((limited.pending_open ≡ true) ⊎ (is_full h limited ≡ false))
          × (limited.dvr_state ≡ r.dvr_state) =
        if-cases (is_full h r) (request_rotate r) r
          (λ q. ((q.pending_open ≡ true) ⊎ (is_full h q ≡ false)) × (q.dvr_state ≡ r.dvr_state))
          (λ _. let (p, _, s) = rotate-requested r in (inl p, s)) (λ room. (inr room, refl)) in
      Leaves-if (leb max_consecutive_write_failures limited.writer.write_fail_streak) _ _ w
        (λ r' _. WithinLimits r') (λ _. fail-WithinLimits limited w (ap (λ x. is_disabled x) e ∙ d))
        (λ f _ _. (p, ground (arith, f)))

  write_unit-WithinLimits :
      (au : Rpc) (r : Recorder) (w : World)
      → is_disabled r.dvr_state ≡ false
      → Leaves (write_unit h au r w) (λ r' _. WithinLimits r')
  unfolding write_unit
  write_unit-WithinLimits au r w d =
      Leaves-if (not r.writer.is_open) _ _ w (λ r' _. WithinLimits r')
        (λ shut _ o. absurd (opposed r.writer.is_open o (refuted r.writer.is_open shut)))
        (λ _.
          let (duration, timing) = next_frame_duration r.timing au.pts_ms in
          let m = write_nal h.files au.bytes duration r.writer w in
          check_limits-WithinLimits
            (record r {
              timing = timing;
              writer = m.0.1;
              frames_written = if m.0.0 then next32 r.frames_written else r.frames_written;
            })
            m.1 d)

  -- Behind an access unit, while a file is recorded, either the next file is asked for or the file is below
  -- its size limit and its time limit; and fewer than `max_consecutive_write_failures` writes in a row
  -- have failed, if both are so before it, the recorder is not disabled, and its files are as `IsTidy` says.
  pub handle_access_unit-WithinLimits :
      (au : Rpc) (r : Recorder) (w : World)
      → IsTidy r
      → is_disabled r.dvr_state ≡ false
      → WithinLimits r
      → Leaves (handle_access_unit h au r w) (λ r' _. WithinLimits r')
  unfolding handle_access_unit
  handle_access_unit-WithinLimits au r w t d l =
      Leaves-if (not r.recording_armed) _ _ w (λ r' _. WithinLimits r') (λ _. l)
        (λ a.
          Leaves-if r.queue_overflow _ _ w (λ r' _. WithinLimits r')
            (λ _. fail-WithinLimits (record r { queue_overflow = false }) w d)
            (λ _.
              Leaves-if (not r.pending_open) _ _ w (λ r' _. WithinLimits r')
                (λ _. write_unit-WithinLimits au r w d)
                (λ _.
                  Leaves-if (not au.keyframe) _ _ w (λ r' _. WithinLimits r') (λ _. l)
                    (λ _.
                      let m = open_next_file h r w in
                      let (_, x) =
                        open_next_file-NextOpened h r w t (affirmed r.recording_armed a) d in
                      elim x [
                        | inl (o, _, _, d') ↦ rw o (
                            write_unit-WithinLimits au (record m.0.1 { pending_open = false }) m.1
                              d')
                        | inr (o, shut) ↦
                            rw o (λ _ there. absurd (opposed m.0.1.writer.is_open there shut))
                      ]))))
