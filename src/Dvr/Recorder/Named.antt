-- ===== src/Dvr/Recorder/Named.antt =====
-- The name that the recorder (src/dvr/dvr.cpp) keeps, and the file that is open.
use pixel_pilot_rk.Common.{
  ◌+◌, ◌≡◌, inl, inr, refl, sym, ap, ◌∙◌, Bool, true, false, not, ◌&&◌, Option, none, some, String,
  leb, if◌then◌else◌,
}
use pixel_pilot_rk.Dvr.Files.{World, Leaves, Leaves-if, open_path}
use pixel_pilot_rk.Dvr.Writer.{open_file, begin_video, write_nal, next32}
use pixel_pilot_rk.Dvr.Writer.Opened.{
  begin_video-open, write_nal-open, close_file-open, open_file-open,
}
use pixel_pilot_rk.Dvr.Writer.Path.{write_nal-path, close_file-path, open_file-path}
use pixel_pilot_rk.Dvr.Timing.{next_frame_duration, next_segment}
use pixel_pilot_rk.Dvr.Storage.{Reason, is_ready}
use pixel_pilot_rk.Dvr.Queue.{Rpc}
use pixel_pilot_rk.Dvr.Recorder.{
  Recorder, Host, is_some, is_disabled, is_idle, request_rotate, finalize_current_file, stopping,
  stop, fail, begin_file, open_named, open_output_file, open_failed, open_next_file, start_with,
  start, is_full, check_limits, write_unit, handle_access_unit, max_open_attempts,
  max_consecutive_write_failures,
}
use pixel_pilot_rk.Dvr.Recorder.Stopped.{neither, refuted, affirmed, opposed}

-- The name that the recorder keeps is the path of the file that is open, if one is; else it keeps none.
pub record IsNamed (r : Recorder) (w : World) : Type 0 where
  pub there : r.writer.is_open ≡ is_some r.current_filename
  pub name : r.current_filename ≡ open_path w

unnamed : (name : Option String) → is_some name ≡ false → name ≡ none
unnamed none e = refl
unnamed (some name) e = cc

either_open : (a b : Bool) → a ≡ b → (not a && not b) ≡ false → a ≡ true
either_open true b e f = refl
either_open false true e f = cc
either_open false false e f = cc

-- With another state of the rest.
pub renamed :
    (r s : Recorder) (w : World)
    → s.writer.is_open ≡ r.writer.is_open
    → s.current_filename ≡ r.current_filename
    → IsNamed r w
    → IsNamed s w
renamed r s w e f n = record {
  there = e ∙ n.there ∙ ap (λ x. is_some x) (sym f);
  name = f ∙ n.name;
}

pub if-IsNamed :
    (b : Bool) (r s : Recorder) (w : World)
    → IsNamed r w
    → IsNamed s w
    → IsNamed (if b then r else s) w
if-IsNamed true r s w n m = n
if-IsNamed false r s w n m = m

module _ (h : Host) where
  abbrev pub NoneOpen : Recorder → World → Type 0
  NoneOpen r w = (r.writer.is_open ≡ false) × (r.current_filename ≡ none) × (open_path w ≡ none)

  pub NoneOpen-IsNamed : (r : Recorder) (w : World) → NoneOpen r w → IsNamed r w
  NoneOpen-IsNamed r w (s, n, p) = record {
    there = s ∙ ap (λ x. is_some x) (sym n);
    name = n ∙ sym p;
  }

  finalize_current_file-NoneOpen :
      (r : Recorder) (w : World) → IsNamed r w → Leaves (finalize_current_file h r w) NoneOpen
  unfolding finalize_current_file
  finalize_current_file-NoneOpen r w n =
      Leaves-if (not r.writer.is_open && not (is_some r.current_filename)) _ _ w NoneOpen
        (λ e.
          let (a, b) = neither r.writer.is_open (is_some r.current_filename) e in
          let none_kept = unnamed r.current_filename b in (a, none_kept, sym n.name ∙ none_kept))
        (λ e. (
          close_file-open h.files r.writer w,
          refl,
          close_file-path h.files r.writer w
              (either_open r.writer.is_open (is_some r.current_filename) n.there e),
        ))

  pub stop-NoneOpen : (r : Recorder) (w : World) → IsNamed r w → Leaves (stop h r w) NoneOpen
  unfolding stop
  stop-NoneOpen r w n = finalize_current_file-NoneOpen (stopping h r) w (renamed r _ w refl refl n)

  pub stop-IsNamed : (r : Recorder) (w : World) → IsNamed r w → Leaves (stop h r w) IsNamed
  stop-IsNamed r w n = NoneOpen-IsNamed (stop h r w).0 (stop h r w).1 (stop-NoneOpen r w n)

  pub fail-IsNamed :
      (fatal : Bool) (r : Recorder) (w : World) → IsNamed r w → Leaves (fail h fatal r w) IsNamed
  unfolding fail
  fail-IsNamed true r w n =
      Leaves-if (is_disabled r.dvr_state) _ _ w IsNamed (λ _. n)
        (λ _. renamed (stop h r w).0 _ (stop h r w).1 refl refl (stop-IsNamed r w n))
  fail-IsNamed false r w n = stop-IsNamed r w n

  begin_file-IsNamed :
      (name : String) (r : Recorder) (w : World)
      → r.writer.is_open ≡ true
      → open_path w ≡ some name
      → Leaves (begin_file h name r w) (λ x w'. IsNamed x.1 w')
  unfolding begin_file
  begin_file-IsNamed name r w o p =
      let (begun, there) = begin_video-open r.writer in
      Leaves-if {A = Bool × Recorder} (not (begin_video r.writer).0) _ _ w (λ x w'. IsNamed x.1 w')
        (λ e. absurd (opposed (begin_video r.writer).0 (begun ∙ o) (refuted _ e)))
        (λ _. record { there = there ∙ o; name = sym p })

  open_named-IsNamed :
      (name : Option String) (r : Recorder) (w : World)
      → NoneOpen r w
      → Leaves (open_named h name r w) (λ x w'. IsNamed x.1 w')
  unfolding open_named
  open_named-IsNamed none r w n = NoneOpen-IsNamed r w n
  open_named-IsNamed (some name) r w (s, u, p) =
      let m = open_file h.files name r.writer w in
      let e = open_file-open h.files name r.writer w in
      Leaves-if {A = Bool × Recorder} (not m.0.0) _ _ m.1 (λ x w'. IsNamed x.1 w')
        (λ f. elim (open_file-path h.files name r.writer w) [
          | inl (ok, _) ↦ absurd (opposed m.0.0 ok (refuted m.0.0 f))
          | inr (_, same) ↦
              NoneOpen-IsNamed (record r { writer = m.0.1 }) m.1
                (e ∙ refuted m.0.0 f, u, ap open_path same ∙ p)
        ])
        (λ f. elim (open_file-path h.files name r.writer w) [
          | inl (ok, q) ↦ begin_file-IsNamed name (record r { writer = m.0.1 }) m.1 (e ∙ ok) q
          | inr (failed, _) ↦ absurd (opposed m.0.0 (affirmed m.0.0 f) failed)
        ])

  open_failed-IsNamed :
      (r : Recorder) (w : World) → IsNamed r w → Leaves (open_failed h r w) (λ x w'. IsNamed x.1 w')
  unfolding open_failed
  open_failed-IsNamed r w n =
      let counted : Recorder = record r { open_attempts = r.open_attempts + 1 } in
      Leaves-if {A = Bool × Recorder} (leb max_open_attempts counted.open_attempts) _ _ w
        (λ x w'. IsNamed x.1 w')
        (λ _. fail-IsNamed true counted w (renamed r counted w refl refl n))
        (λ _. renamed r counted w refl refl n)

  open_next_file-IsNamed :
      (r : Recorder) (w : World)
      → IsNamed r w
      → Leaves (open_next_file h r w) (λ x w'. IsNamed x.1 w')
  unfolding open_next_file open_output_file
  open_next_file-IsNamed r w n =
      let m = finalize_current_file h r w in
      let ready : Recorder = record m.0 { frames_written = 0; timing = next_segment m.0.timing } in
      let o = open_named h (h.generate_filename m.1) ready m.1 in
      let n' =
        open_named-IsNamed (h.generate_filename m.1) ready m.1
          (finalize_current_file-NoneOpen r w n) in
      Leaves-if {A = Bool × Recorder} (not o.0.0) _ _ o.1 (λ x w'. IsNamed x.1 w')
        (λ _. open_failed-IsNamed o.0.1 o.1 n') (λ _. renamed o.0.1 _ o.1 refl refl n')

  pub rotate-IsNamed : (r : Recorder) (w : World) → IsNamed r w → IsNamed (request_rotate r) w
  unfolding request_rotate
  rotate-IsNamed r w n = if-IsNamed r.pending_open _ _ w n (renamed r _ w refl refl n)

  check_limits-IsNamed :
      (r : Recorder) (w : World) → IsNamed r w → Leaves (check_limits h r w) IsNamed
  unfolding check_limits
  check_limits-IsNamed r w n =
      let limited : Recorder = if is_full h r then request_rotate r else r in
      let n' : IsNamed limited w = if-IsNamed (is_full h r) _ _ w (rotate-IsNamed r w n) n in
      Leaves-if (leb max_consecutive_write_failures limited.writer.write_fail_streak) _ _ w IsNamed
        (λ _. fail-IsNamed true limited w n') (λ _. n')

  write_unit-IsNamed :
      (au : Rpc) (r : Recorder) (w : World) → IsNamed r w → Leaves (write_unit h au r w) IsNamed
  unfolding write_unit
  write_unit-IsNamed au r w n =
      Leaves-if (not r.writer.is_open) _ _ w IsNamed (λ _. n)
        (λ _.
          let (d, timing) = next_frame_duration r.timing au.pts_ms in
          let m = write_nal h.files au.bytes d r.writer w in
          let o = write_nal-open h.files au.bytes d r.writer w in
          check_limits-IsNamed
            (record r {
              timing = timing;
              writer = m.0.1;
              frames_written = if m.0.0 then next32 r.frames_written else r.frames_written;
            })
            m.1
            (record {
              there = o ∙ n.there;
              name = n.name ∙ sym (write_nal-path h.files au.bytes d r.writer w);
            }))

  pub handle_access_unit-IsNamed :
      (au : Rpc) (r : Recorder) (w : World)
      → IsNamed r w
      → Leaves (handle_access_unit h au r w) IsNamed
  unfolding handle_access_unit
  handle_access_unit-IsNamed au r w n =
      Leaves-if (not r.recording_armed) _ _ w IsNamed (λ _. n)
        (λ _.
          Leaves-if r.queue_overflow _ _ w IsNamed
            (λ _.
              fail-IsNamed true _ w (renamed r (record r { queue_overflow = false }) w refl refl n))
            (λ _.
              Leaves-if (not r.pending_open) _ _ w IsNamed (λ _. write_unit-IsNamed au r w n)
                (λ _.
                  Leaves-if (not au.keyframe) _ _ w IsNamed (λ _. n)
                    (λ _.
                      let m = open_next_file h r w in
                      let n' = open_next_file-IsNamed r w n in
                      Leaves-if (not m.0.0) _ _ m.1 IsNamed (λ _. n')
                        (λ _.
                          write_unit-IsNamed au (record m.0.1 { pending_open = false }) m.1
                            (renamed m.0.1 _ m.1 refl refl n'))))))

  start_with-IsNamed :
      (reason : Option Reason) (r : Recorder) (w : World)
      → IsNamed r w
      → IsNamed (start_with h reason r) w
  start_with-IsNamed (some x) r w n = renamed r _ w refl refl n
  start_with-IsNamed none r w n =
      if-IsNamed (not (is_idle r.dvr_state)) _ _ w (renamed r _ w refl refl n)
        (renamed r _ w refl refl n)

  pub start-IsNamed : (r : Recorder) (w : World) → IsNamed r w → Leaves (start h r w) IsNamed
  unfolding start
  start-IsNamed r w n = start_with-IsNamed (is_ready (h.mounts w) h.storage) r w n
