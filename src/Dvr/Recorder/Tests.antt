-- ===== src/Dvr/Recorder/Tests.antt =====
-- The recorder's theorems at concrete inputs.
use pixel_pilot_rk.Common.{
  ◌++◌, ◌≡◌, refl, inr, Bool, true, false, none, some, List, [], ◌∷◌, length, arith,
}
use pixel_pilot_rk.Dvr.Files.{Leaves}
use pixel_pilot_rk.Dvr.Writer.{Writer}
use pixel_pilot_rk.Dvr.Queue.{
  Rpc, rpc_au, rpc_start, rpc_shutdown, DvrState, idle, recording, request,
}
use pixel_pilot_rk.Dvr.Recorder.{Recorder, Host, handle_access_unit}
use pixel_pilot_rk.Dvr.Recorder.Turns.{overflowed, stuck, Input, waited, took, outside, loop}
use pixel_pilot_rk.Dvr.Recorder.Stopped.{IsTidy}
use pixel_pilot_rk.Dvr.Recorder.Turns.Ended.{LoopTidy, loop-LoopTidy, IsOver, loop-shutdown}
use pixel_pilot_rk.Dvr.Recorder.Limits.{WithinLimits, handle_access_unit-WithinLimits}

-- A card that takes all, and the clock of the log's length.
abbrev host : Host
host = record {
  files = record {
    fopen = λ w path. true;
    open_dir = λ w path. true;
    fwrite = λ w bytes. length bytes;
    fflush = λ w. true;
    fdatasync = λ w. true;
    fclose = λ w. true;
    monotonic_ms = λ w. length w;
  };
  mounts = λ w. record {
    stat = λ path. some 7;
    statvfs = λ path. some (record { f_frsize = 4096; f_bavail = 1000000; f_blocks = 8000000 });
    statfs = λ path. some 0x4d44;
  };
  generate_filename = λ w. some "/media/dvr/0001.ts";
  storage = record {
    recording_dir = "/media/dvr";
    min_free_bytes = 1000000;
    require_mount = false;
  };
  segment_limit_ms = 60000;
}

abbrev new_writer : Writer
new_writer = record {
  is_open = false;
  video_started = false;
  file_size_bytes = 0;
  discard_count = 0;
  write_fail_count = 0;
  write_fail_streak = 0;
  bytes_since_sync = 0;
  last_sync_ms = 0;
  media_ticks = 0;
  last_psi_ticks = 0;
  psi_pending = true;
  cc_video = 0;
  cc_pat = 0;
  cc_pmt = 0;
}

-- A recorder that has been asked to record, or not.
abbrev recorder : Bool → DvrState → Recorder
recorder armed state = record {
  recording_armed = armed;
  dvr_state = state;
  stalled = false;
  queue_overflow = false;
  pending_open = armed;
  open_attempts = 0;
  writer = new_writer;
  current_filename = none;
  frames_written = 0;
  timing = record {
    nominal_fps = 60;
    rec_start_pts = none;
    segment_video_ticks = 0;
    last_good_duration = 0;
  };
  max_file_bytes = 0;
  session_dev = none;
  session_free = none;
  status = record {
    last_storage_check_ms = 0;
    storage_status_dev = 0;
    storage_status_dev_known = false;
    storage_total_bytes = 0;
    storage_total_known = false;
  };
  notices = [];
}

abbrev idr : Rpc
idr = record { command = rpc_au; bytes = 0 ∷ 0 ∷ 1 ∷ 38 ∷ []; pts_ms = 40; keyframe = true }

recorder-IsTidy : (armed : Bool) (state : DvrState) → IsTidy (recorder armed state)
recorder-IsTidy armed state = record {
  named = refl;
  closed = λ _ _. refl;
  attempts = inr (omega arith);
}

abbrev inputs : List Input
inputs =
    took (request rpc_start)
    ∷ took idr
    ∷ waited
    ∷ outside overflowed
    ∷ took idr
    ∷ outside stuck
    ∷ took (request rpc_shutdown)
    ∷ []

loop-LoopTidy_example : Leaves (loop host inputs (recorder false idle) []) (LoopTidy host)
loop-LoopTidy_example =
    loop-LoopTidy host inputs (recorder false idle) [] (recorder-IsTidy false idle)
      (record { there = refl; name = refl })

handle_access_unit-WithinLimits_example :
    Leaves (handle_access_unit host idr (recorder true recording) []) (λ r' _. WithinLimits host r')
handle_access_unit-WithinLimits_example =
    handle_access_unit-WithinLimits host idr (recorder true recording) []
      (recorder-IsTidy true recording) refl (λ _ e. cc)

loop-shutdown_example :
    Leaves
      (loop host (inputs ++ (took (request rpc_shutdown) ∷ waited ∷ [])) (recorder false idle) [])
      (λ x _. (x.0 ≡ true) × IsOver x.1)
loop-shutdown_example =
    loop-shutdown host inputs (waited ∷ []) (request rpc_shutdown) (recorder false idle) [] refl
      (recorder-IsTidy false idle)
