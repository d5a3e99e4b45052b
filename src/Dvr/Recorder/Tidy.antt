-- ===== src/Dvr/Recorder/Tidy.antt =====
-- The files of the recorder (src/dvr/dvr.cpp): open under a name while it records, closed else.
use pixel_pilot_rk.Common.{
  ◌+◌, ◌≡◌, ◌⊎◌, inl, inr, refl, sym, ap, ◌∙◌, Bool, true, false, not, Option, none, some, String,
  leb, if◌then◌else◌, arith,
}
use pixel_pilot_rk.Dvr.Files.{World, Leaves, Leaves-if}
use pixel_pilot_rk.Dvr.Writer.{open_file, begin_video, write_nal, next32}
use pixel_pilot_rk.Dvr.Writer.Opened.{
  begin_video-open, write_nal-open, close_file-open, open_file-open,
}
use pixel_pilot_rk.Dvr.Timing.{next_frame_duration, next_segment}
use pixel_pilot_rk.Dvr.Storage.{Reason, is_ready}
use pixel_pilot_rk.Dvr.Queue.{Rpc}
use pixel_pilot_rk.Dvr.Recorder.{
  Recorder, Host, is_some, is_disabled, is_idle, request_rotate, finalize_current_file, begin_file,
  open_named, open_output_file, open_failed, open_next_file, start_with, start, is_full,
  check_limits, write_unit, handle_access_unit, max_open_attempts, max_consecutive_write_failures,
}
use pixel_pilot_rk.Dvr.Recorder.Stopped.{
  IsTidy, finalize_current_file-Finalized, fail-Failed, Failed-IsTidy, refuted, affirmed, opposed,
}

module _ (h : Host) where
  -- A file that was opened has a name; else none is open.
  abbrev pub OpenedOut : Recorder → Bool × Recorder → Type 0
  OpenedOut r (ok, r') =
      (r'.writer.is_open ≡ ok)
      × (is_some r'.current_filename ≡ ok)
      × (r'.recording_armed ≡ r.recording_armed)
      × (r'.dvr_state ≡ r.dvr_state)
      × (r'.open_attempts ≡ r.open_attempts)

  begin_file-OpenedOut :
      (name : String) (r : Recorder) (w : World)
      → r.writer.is_open ≡ true
      → Leaves (begin_file h name r w) (λ x _. OpenedOut r x)
  unfolding begin_file
  begin_file-OpenedOut name r w o =
      let (_, there) = begin_video-open r.writer in
      Leaves-if (not (begin_video r.writer).0) _ _ w (λ x _. OpenedOut r x)
        (λ _. (close_file-open h.files (begin_video r.writer).1 w, refl, refl, refl, refl))
        (λ _. (there ∙ o, refl, refl, refl, refl))

  open_named-OpenedOut :
      (name : Option String) (r : Recorder) (w : World)
      → r.writer.is_open ≡ false
      → is_some r.current_filename ≡ false
      → Leaves (open_named h name r w) (λ x _. OpenedOut r x)
  unfolding open_named
  open_named-OpenedOut none r w s n = (s, n, refl, refl, refl)
  open_named-OpenedOut (some name) r w s n =
      let m = open_file h.files name r.writer w in
      let e = open_file-open h.files name r.writer w in
      Leaves-if (not m.0.0) _ _ m.1 (λ x _. OpenedOut r x)
        (λ f. (e ∙ refuted m.0.0 f, n, refl, refl, refl))
        (λ f. begin_file-OpenedOut name (record r { writer = m.0.1 }) m.1 (e ∙ affirmed m.0.0 f))

  -- Behind `open_next_file` of an armed recorder that is not disabled: a file is open, or the recorder is
  -- tidy without one.
  abbrev pub NextOpened : Recorder → Bool × Recorder → Type 0
  NextOpened r (ok, r') =
      IsTidy r'
      × ((ok ≡ true)
            × (r'.writer.is_open ≡ true)
            × (r'.recording_armed ≡ true)
            × (is_disabled r'.dvr_state ≡ false)
          ⊎ (ok ≡ false) × (r'.writer.is_open ≡ false))

  open_failed-NextOpened :
      (r before : Recorder) (w : World)
      → r.writer.is_open ≡ false
      → is_some r.current_filename ≡ false
      → is_disabled r.dvr_state ≡ false
      → Leaves (open_failed h r w) (λ x _. NextOpened before x)
  unfolding open_failed
  open_failed-NextOpened r before w s n d =
      let counted : Recorder = record r { open_attempts = r.open_attempts + 1 } in
      Leaves-if (leb max_open_attempts counted.open_attempts) _ _ w (λ x _. NextOpened before x)
        (λ _. elim (fail-Failed h true counted w) [
          | inl (_, e, _) ↦ absurd (opposed (is_disabled r.dvr_state) e d)
          | inr (a, s', n', inl (_, e)) ↦
              (record { named = n' ∙ sym s'; closed = λ _ _. s'; attempts = inl e }, inr (refl, s'))
          | inr (a, s', n', inr (e, _, _)) ↦ absurd (cc)
        ])
        (λ l. (
          record { named = n ∙ sym s; closed = λ _ _. s; attempts = inr (ground (arith, l)) },
          inr (refl, s),
        ))

  pub open_next_file-NextOpened :
      (r : Recorder) (w : World)
      → IsTidy r
      → r.recording_armed ≡ true
      → is_disabled r.dvr_state ≡ false
      → Leaves (open_next_file h r w) (λ x _. NextOpened r x)
  unfolding open_next_file open_output_file
  open_next_file-NextOpened r w t a d =
      let m = finalize_current_file h r w in
      let f = finalize_current_file-Finalized h r w in
      let ready : Recorder = record m.0 { frames_written = 0; timing = next_segment m.0.timing } in
      let n = open_named h (h.generate_filename m.1) ready m.1 in
      let (o, nm, ar, st, at) =
        open_named-OpenedOut (h.generate_filename m.1) ready m.1 f.shut f.unnamed in
      let d' : is_disabled n.0.1.dvr_state ≡ false = ap (λ x. is_disabled x) (st ∙ f.state) ∙ d in
      Leaves-if (not n.0.0) _ _ n.1 (λ x _. NextOpened r x)
        (λ e. let no = refuted n.0.0 e in open_failed-NextOpened n.0.1 r n.1 (o ∙ no) (nm ∙ no) d')
        (λ e.
          let yes' = affirmed n.0.0 e in
          (
            record {
              named = nm ∙ sym o;
              closed = λ x _. absurd (opposed n.0.1.recording_armed (ar ∙ f.armed ∙ a) x);
              attempts = inr (omega arith);
            },
            inl (refl, o ∙ yes', ar ∙ f.armed ∙ a, d'),
          ))

  pub if-IsTidy : (b : Bool) (r s : Recorder) → IsTidy r → IsTidy s → IsTidy (if b then r else s)
  if-IsTidy true r s t u = t
  if-IsTidy false r s t u = u

  pub rotate-IsTidy : (r : Recorder) → IsTidy r → IsTidy (request_rotate r)
  unfolding request_rotate
  rotate-IsTidy r t =
      if-IsTidy r.pending_open _ _ t
        (record { named = t.named; closed = t.closed; attempts = t.attempts })

  check_limits-IsTidy :
      (r : Recorder) (w : World) → IsTidy r → Leaves (check_limits h r w) (λ r' _. IsTidy r')
  unfolding check_limits
  check_limits-IsTidy r w t =
      let limited : Recorder = if is_full h r then request_rotate r else r in
      let t' : IsTidy limited = if-IsTidy (is_full h r) _ _ (rotate-IsTidy r t) t in
      Leaves-if (leb max_consecutive_write_failures limited.writer.write_fail_streak) _ _ w
        (λ r' _. IsTidy r') (λ _. Failed-IsTidy h true limited _ t' (fail-Failed h true limited w))
        (λ _. t')

  write_unit-IsTidy :
      (au : Rpc) (r : Recorder) (w : World)
      → IsTidy r
      → Leaves (write_unit h au r w) (λ r' _. IsTidy r')
  unfolding write_unit
  write_unit-IsTidy au r w t =
      Leaves-if (not r.writer.is_open) _ _ w (λ r' _. IsTidy r') (λ _. t)
        (λ _.
          let (d, timing) = next_frame_duration r.timing au.pts_ms in
          let m = write_nal h.files au.bytes d r.writer w in
          let o = write_nal-open h.files au.bytes d r.writer w in
          check_limits-IsTidy
            (record r {
              timing = timing;
              writer = m.0.1;
              frames_written = if m.0.0 then next32 r.frames_written else r.frames_written;
            })
            m.1
            (record {
              named = t.named ∙ sym o;
              closed = λ a s. o ∙ t.closed a s;
              attempts = t.attempts;
            }))

  pub handle_access_unit-IsTidy :
      (au : Rpc) (r : Recorder) (w : World)
      → IsTidy r
      → is_disabled r.dvr_state ≡ false
      → Leaves (handle_access_unit h au r w) (λ r' _. IsTidy r')
  unfolding handle_access_unit
  handle_access_unit-IsTidy au r w t d =
      Leaves-if (not r.recording_armed) _ _ w (λ r' _. IsTidy r') (λ _. t)
        (λ a.
          Leaves-if r.queue_overflow _ _ w (λ r' _. IsTidy r')
            (λ _.
              let q : Recorder = record r { queue_overflow = false } in
              Failed-IsTidy h true q _
                (record { named = t.named; closed = t.closed; attempts = t.attempts })
                (fail-Failed h true q w))
            (λ _.
              Leaves-if (not r.pending_open) _ _ w (λ r' _. IsTidy r')
                (λ _. write_unit-IsTidy au r w t)
                (λ _.
                  Leaves-if (not au.keyframe) _ _ w (λ r' _. IsTidy r') (λ _. t)
                    (λ _.
                      let m = open_next_file h r w in
                      let (t', _) =
                        open_next_file-NextOpened r w t (affirmed r.recording_armed a) d in
                      Leaves-if (not m.0.0) _ _ m.1 (λ r' _. IsTidy r') (λ _. t')
                        (λ _.
                          write_unit-IsTidy au (record m.0.1 { pending_open = false }) m.1
                            (record {
                              named = t'.named;
                              closed = t'.closed;
                              attempts = t'.attempts;
                            }))))))

  start_with-IsTidy :
      (reason : Option Reason) (r : Recorder) → IsTidy r → IsTidy (start_with h reason r)
  start_with-IsTidy (some x) r t = record {
    named = t.named;
    closed = t.closed;
    attempts = t.attempts;
  }
  start_with-IsTidy none r t =
      if-IsTidy (not (is_idle r.dvr_state)) _ _
        (record { named = t.named; closed = t.closed; attempts = t.attempts })
        (record { named = t.named; closed = λ e. cc; attempts = inr (omega arith) })

  pub start-IsTidy :
      (r : Recorder) (w : World) → IsTidy r → Leaves (start h r w) (λ r' _. IsTidy r')
  unfolding start
  start-IsTidy r w t = start_with-IsTidy (is_ready (h.mounts w) h.storage) r t
