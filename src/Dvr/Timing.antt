-- ===== src/Dvr/Timing.antt =====
-- The durations of the access units: `Dvr::next_frame_duration` (src/dvr/dvr.cpp). `pts` is in
-- milliseconds of a clock, not negative; `rec_start_pts` below 0 is `none`. A `target` below
-- `segment_video_ticks`, also one below 0, gives a difference of 0 here, which is below 1 as the
-- negative one is.
pub mod Elapsed
use pixel_pilot_rk.Common.{
  ℕ, ◌+◌, ◌-◌, ◌*◌, ◌/◌, Bool, true, false, Option, none, some, List, [], ◌∷◌, ltb, if◌then◌else◌,
}

-- TS_TIMEBASE_90K, MS_TO_90K, MAX_FRAME_DURATION_90K
abbrev pub ts_timebase_90k : ℕ
ts_timebase_90k = 90000

abbrev pub ms_to_90k : ℕ
ms_to_90k = 90

abbrev pub max_frame_duration_90k : ℕ
max_frame_duration_90k = ts_timebase_90k / 4

-- The fields of `Dvr` that the function uses.
pub record Timing : Type 0 where
  pub nominal_fps : ℕ
  pub rec_start_pts : Option ℕ
  pub segment_video_ticks : ℕ
  pub last_good_duration : ℕ

-- The constructor: `fps > 0 ? fps : 60`, and what `open_next_file` sets for each file.
unfoldable pub new_timing : ℕ → Timing
new_timing fps = record {
  nominal_fps = if ltb 0 fps then fps else 60;
  rec_start_pts = none;
  segment_video_ticks = 0;
  last_good_duration = 0;
}

unfoldable pub next_segment : Timing → Timing
next_segment t = record t { rec_start_pts = none; segment_video_ticks = 0 }

abbrev pub anchor : Option ℕ → ℕ → ℕ
anchor none pts = pts
anchor (some start) pts = start

abbrev pub advance : Timing → ℕ → ℕ × Timing
advance t duration = (
  duration,
  record t {
    last_good_duration = duration;
    segment_video_ticks = t.segment_video_ticks + duration;
  },
)

-- The part behind `target`.
abbrev pub close_drift : Timing → ℕ → ℕ × Timing
close_drift t target =
    let drift : ℕ = target - t.segment_video_ticks in
    let duration : ℕ = if ltb drift 1 then 1 else drift in
    let default_duration : ℕ = ts_timebase_90k / t.nominal_fps in
    if ltb max_frame_duration_90k duration
    then advance (record t { segment_video_ticks = target })
        (if ltb 0 t.last_good_duration then t.last_good_duration else default_duration)
    else advance t duration

unfoldable pub next_frame_duration : Timing → ℕ → ℕ × Timing
next_frame_duration t pts =
    let start : ℕ = anchor t.rec_start_pts pts in
    close_drift (record t { rec_start_pts = some start }) ((pts - start) * ms_to_90k)
