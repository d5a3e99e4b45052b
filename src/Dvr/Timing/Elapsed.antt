-- ===== src/Dvr/Timing/Elapsed.antt =====
-- What the durations of src/dvr/dvr.cpp add up to.
use pixel_pilot_rk.Common.{
  ℕ, ◌+◌, ◌-◌, ◌*◌, ◌<◌, ◌≤◌, ◌≡◌, refl, ap, ◌∙◌, false, some, List, [], ◌∷◌, ltb, arith,
}
use pixel_pilot_rk.Dvr.Timing.{
  Timing, next_frame_duration, next_segment, close_drift, anchor, max_frame_duration_90k, ms_to_90k,
}

-- The durations of the access units of a file.
unfoldable pub durations : Timing → List ℕ → List ℕ
unfolding next_frame_duration
durations t [] = []
durations t (pts ∷ rest) =
    let (duration, t') = next_frame_duration t pts in duration ∷ durations t' rest

-- The times at which access units of these durations are presented, less the preroll.
unfoldable pub times : ℕ → List ℕ → List ℕ
times ticks [] = []
times ticks (d ∷ ds) = ticks ∷ times (ticks + d) ds

-- Frames that follow each other by a millisecond at least, and at most by `max_frame_duration_90k`.
unfoldable pub IsSteady : ℕ → List ℕ → Type 0
IsSteady prev [] = Unit
IsSteady prev (pts ∷ rest) =
    (prev < pts × (pts - prev) * ms_to_90k ≤ max_frame_duration_90k) × IsSteady pts rest

-- The time of each frame from the second on is the capture time of the frame before it.
pub late : ℕ → ℕ → List ℕ → List ℕ
late start prev [] = []
late start prev (pts ∷ rest) = ((prev - start) * ms_to_90k) ∷ late start pts rest

close_drift-closes :
    (t : Timing) (target : ℕ)
    → t.segment_video_ticks < target
    → target - t.segment_video_ticks ≤ max_frame_duration_90k
    → close_drift t target ≡ (
      target - t.segment_video_ticks,
      record t {
        last_good_duration = target - t.segment_video_ticks;
        segment_video_ticks = target;
      },
    )
close_drift-closes t target h p =
    let drift : ltb (target - t.segment_video_ticks) 1 ≡ false = ground arith in
    let fits : ltb max_frame_duration_90k (target - t.segment_video_ticks) ≡ false = ground arith in
    let sum : t.segment_video_ticks + (target - t.segment_video_ticks) ≡ target = omega arith in
    rw (drift, fits, sum) refl

abbrev closed : Timing → ℕ → ℕ → Timing
closed t start target = record t {
  rec_start_pts = some start;
  last_good_duration = target - t.segment_video_ticks;
  segment_video_ticks = target;
}

next_frame_duration-steady :
    (t : Timing) (start prev pts : ℕ)
    → t.rec_start_pts ≡ some start
    → t.segment_video_ticks ≤ (prev - start) * ms_to_90k + 1
    → (prev - start) * ms_to_90k ≤ t.segment_video_ticks
    → start ≤ prev
    → prev < pts
    → (pts - prev) * ms_to_90k ≤ max_frame_duration_90k
    → next_frame_duration t pts ≡ (
      (pts - start) * ms_to_90k - t.segment_video_ticks,
      closed t start ((pts - start) * ms_to_90k),
    )
unfolding next_frame_duration
next_frame_duration-steady t start prev pts e f g h l s =
    ap
      (λ r.
        close_drift (record t { rec_start_pts = some (anchor r pts) })
          ((pts - anchor r pts) * ms_to_90k))
      e
    ∙ close_drift-closes (record t { rec_start_pts = some start }) ((pts - start) * ms_to_90k)
        (omega arith) (omega arith)

times-steady :
    (t : Timing) (start prev : ℕ) (rest : List ℕ)
    → t.rec_start_pts ≡ some start
    → t.segment_video_ticks ≡ (prev - start) * ms_to_90k
    → start ≤ prev
    → IsSteady prev rest
    → times t.segment_video_ticks (durations t rest) ≡ late start prev rest
unfolding times durations late IsSteady
times-steady t start prev [] e f h s = refl
times-steady t start prev (pts ∷ rest) e f h s =
    let target : ℕ = (pts - start) * ms_to_90k in
    let sum : t.segment_video_ticks + (target - t.segment_video_ticks) ≡ target =
      omega (arith, s.0) in
    rw
      (
        next_frame_duration-steady t start prev pts e (omega arith) (omega arith) h s.0.0 s.0.1,
        sum,
        times-steady (closed t start target) start pts rest refl refl (omega (arith, s.0)) s.1,
      )
      (ap (λ n. n ∷ late start pts rest) f)

abbrev begun : Timing → ℕ → Timing
begun t start = record t {
  rec_start_pts = some start;
  last_good_duration = 1;
  segment_video_ticks = 1;
}

next_frame_duration-first :
    (t : Timing) (start : ℕ) → next_frame_duration (next_segment t) start ≡ (1, begun t start)
unfolding next_frame_duration next_segment
next_frame_duration-first t start = let zero : start - start ≡ 0 = omega arith in rw zero refl

-- In a segment whose frames follow each other steadily, the first access unit is presented at 0, the
-- second at 1 tick of 90 kHz, and each later one at the time that passed, by their `pts`, from the
-- first frame to the frame before it.
pub times-durations :
    (t : Timing) (start next : ℕ) (rest : List ℕ)
    → IsSteady start (next ∷ rest)
    → times 0 (durations (next_segment t) (start ∷ next ∷ rest)) ≡ 0 ∷ 1 ∷ late start next rest
unfolding times durations IsSteady
times-durations t start next rest s =
    let target : ℕ = (next - start) * ms_to_90k in
    let sum : 0 + 1 + (target - 1) ≡ target = omega (arith, s.0) in
    rw
      (
        next_frame_duration-first t start,
        next_frame_duration-steady (begun t start) start start next refl (omega arith) (omega arith)
            (omega arith) s.0.0 s.0.1,
        sum,
        times-steady (closed (begun t start) start target) start next rest refl refl
            (omega (arith, s.0)) s.1,
      )
      refl
