-- ===== src/Encoder/Tests.antt =====
-- The encoder's theorems at concrete inputs.
use pixel_pilot_rk.Common.{
  ltb, ◌==◌, length, ℕ, ◌+◌, ◌*◌, ◌≡◌, ◌≤◌, ◌<◌, refl, pos, true, false, some, List, [], ◌∷◌, arith,
  All,
}
use pixel_pilot_rk.Encoder.Calls.{Calls, Resource, Leaves, packet}
use pixel_pilot_rk.Encoder.Calls.Ledger.{Moves}
use pixel_pilot_rk.Encoder.Queue.{Frame}
use pixel_pilot_rk.Encoder.Queue.Held.{queue_held}
use pixel_pilot_rk.Encoder.Stream.{
  VideoEncoder, video_with_osd_writeback, new_writeback, drain_to_consumers, pushed,
  maybe_request_idr, keyframe_interval_ms,
}
use pixel_pilot_rk.Encoder.Stream.Held.{held}
use pixel_pilot_rk.Encoder.Stream.Cadence.{Requested, maybe_request_idr-Requested}
use pixel_pilot_rk.Encoder.Stream.Paired.{Paired, drain_to_consumers-Paired}
use pixel_pilot_rk.Encoder.Loop.{System, Step, captured, commanding, shutting, turn, run}
use pixel_pilot_rk.Encoder.Loop.Owned.{StepFits, Stepped, system_held, arrivals, run-Stepped}
use pixel_pilot_rk.Encoder.Loop.Stopped.{begun, new_writeback-IsSound, run-Stopped}
use pixel_pilot_rk.Encoder.Loop.Pending.{IsShort, run-Short}
use pixel_pilot_rk.Encoder.Capture.{Screen, Capturing, Act, shown, threads, pipeline}
use pixel_pilot_rk.Encoder.Capture.Balanced.{ActFits, Acted, act_arrivals, pipeline-Acted}

-- MPP takes all and has two packets; one consumer is active, and its commands drain.
abbrev io : Calls
io = record {
  mpp_create = λ w. pos 0;
  mpp_init = λ w. pos 0;
  mpp_enc_cfg_init = λ w. pos 0;
  get_cfg = λ w. pos 0;
  set_cfg = λ w. pos 0;
  set_header_mode = λ w. pos 0;
  set_output_timeout = λ w. pos 0;
  encode_put_frame = λ w pts. pos 0;
  answers = λ w. packet (0 ∷ 0 ∷ 1 ∷ 38 ∷ []) false ∷ packet [] false ∷ packet (7 ∷ []) false ∷ [];
  mpp_buffer_import = λ w fd size. true;
  poll = λ w fd. pos 1;
  consumers = 1 ∷ [];
  active = λ w c. true;
  stops = λ w c. true;
  consumers_changed = λ w. some true;
  request_keyframe = λ w. false;
}

abbrev captured_frame : ℕ → Frame
captured_frame n = record {
  prime_fd = 30 + n;
  hor_stride = 0;
  ver_stride = 0;
  width = 0;
  height = 0;
  buf_size = 3110400;
  pts = 100 * n;
  fence_fd = pos (50 + n);
  wb_index = pos n;
}

abbrev start : System
start = begun (new_writeback 60 8000000 1920 1080 1920 1088)

abbrev steps : List Step
steps =
    captured (captured_frame 0)
    ∷ turn
    ∷ captured (captured_frame 1)
    ∷ captured (captured_frame 2)
    ∷ turn
    ∷ commanding 1
    ∷ turn
    ∷ turn
    ∷ []

steps-Fit : All (StepFits video_with_osd_writeback) steps
steps-Fit = (tt, (tt, (tt, (tt, (tt, (tt, (tt, (tt, tt))))))))

run-Stepped_example :
    Leaves (run io steps start []) (Stepped io video_with_osd_writeback start (arrivals steps) [])
run-Stepped_example =
    run-Stepped io video_with_osd_writeback steps start [] steps-Fit
      (new_writeback-IsSound 60 8000000 1920 1080 1920 1088)

run-Stopped_example : Leaves (run io (shutting ∷ steps) start []) (λ y' w'.
    (y'.ended ≡ true)
    × ((r : Resource) → held y'.venc r ≡ 0)
    × Moves [] (λ r. system_held start r + arrivals steps r) w' (queue_held y'.queue))
run-Stopped_example =
    run-Stopped io video_with_osd_writeback steps start [] steps-Fit
      (new_writeback-IsSound 60 8000000 1920 1080 1920 1088) (omega arith)

run-Short_example : Leaves (run io steps start []) (λ y' _. IsShort y')
run-Short_example = run-Short io steps start [] (omega arith)

maybe_request_idr-Requested_example : Leaves (maybe_request_idr io 600 start.venc []) (λ s' w'.
    (s'.last_idr_pts_ms ≤ 600)
    × (600 < s'.last_idr_pts_ms + keyframe_interval_ms)
    × Requested false 600 start.venc [] s' w')
maybe_request_idr-Requested_example = maybe_request_idr-Requested io 600 start.venc []

-- Three frames are submitted, and two packets have bytes.
abbrev submitted_frames : VideoEncoder
submitted_frames = pushed io 50 (pushed io 33 (pushed io 17 start.venc))

drain_to_consumers-Paired_example :
    Leaves
      (drain_to_consumers io submitted_frames [])
      (λ s' w'. (s'.draining ≡ false) × Paired io (io.answers []) (17 ∷ 33 ∷ 50 ∷ []) [] s' w')
unfolding new_writeback
drain_to_consumers-Paired_example =
    drain_to_consumers-Paired io submitted_frames [] (λ w c. refl) refl (omega arith)

-- The first slot is in use; the request can be armed, and the commits succeed until the log is long.
abbrev screen : Screen
screen = record {
  wb_busy = λ w i. i == 0;
  arm = λ w i. true;
  commit = λ w. (ltb (length w) 12, pos 70);
  prime_fd = λ i. 30 + i;
  size = λ i. 3110400;
}

abbrev capturing : Capturing
capturing = record { dvr_wb_mode = true; wb_commit_fails = 0; dvr_disabled = false }

abbrev acts : List Act
acts =
    shown 17 true
    ∷ threads turn
    ∷ shown 33 true
    ∷ shown 50 false
    ∷ threads turn
    ∷ shown 67 true
    ∷ shown 83 true
    ∷ shown 100 true
    ∷ threads shutting
    ∷ threads turn
    ∷ []

acts-Fit : All ActFits acts
acts-Fit = (tt, (tt, (tt, (tt, (tt, (tt, (tt, (tt, (tt, (tt, tt))))))))))

pipeline-Acted_example :
    Leaves
      (pipeline io screen acts capturing start [])
      (Acted io screen capturing start [] (act_arrivals acts))
pipeline-Acted_example =
    pipeline-Acted io screen acts capturing start [] acts-Fit (λ _. omega arith)
      (new_writeback-IsSound 60 8000000 1920 1080 1920 1088)
