-- ===== src/Dvr/Recorder.antt =====
-- The recorder's own thread: `Dvr` (src/dvr/dvr.cpp, dvr.h), from the commands of its queue to the files.
-- The sections that other threads share with it are Dvr/Queue; here the other threads act between the
-- turns of `loop`. `generate_filename` (Dvr/Naming) depends on the directory and the date; it is
-- a parameter here, and has no result where it returns "".
pub mod Stopped
pub mod Tidy
pub mod Limits
pub mod Named
mod Tests
pub mod Turns
use pixel_pilot_rk.Common.{
  ℕ, ◌+◌, ◌*◌, ◌%◌, ◌^◌, Bool, true, false, not, ◌&&◌, ◌||◌, Option, none, some, List, [], ◌∷◌,
  String, ltb, leb, ◌==◌, if◌then◌else◌,
}
use pixel_pilot_rk.Dvr.Files.{Files, World, M, pure, ◌>>=◌, ◌>>◌, ask}
use pixel_pilot_rk.Dvr.Writer.{Writer, open_file, begin_video, write_nal, close_file, next32}
use pixel_pilot_rk.Dvr.Timing.{Timing, next_frame_duration, next_segment, ms_to_90k}
use pixel_pilot_rk.Dvr.Storage.{
  Mounts, Guard, Reason, is_ready, file_size_cap, device_id, free_bytes,
}
use pixel_pilot_rk.Dvr.Status.{
  Session, Status, Report, no_longer_mounted, was_removed, low_free_space, storage_available_bytes,
  storage_status, update_storage_status,
}
use pixel_pilot_rk.Dvr.Queue.{
  Rpc, Command, rpc_au, rpc_start, rpc_stop, rpc_toggle, rpc_disable, rpc_rotate, rpc_fail,
  rpc_shutdown, DvrState, idle, recording, disabled, to_recording, to_idle,
}

-- MAX_CONSECUTIVE_WRITE_FAILURES, MAX_OPEN_ATTEMPTS
abbrev pub max_consecutive_write_failures : ℕ
max_consecutive_write_failures = 5

abbrev pub max_open_attempts : ℕ
max_open_attempts = 3

-- What the thread does to the encoder, the disk and the OSD besides.
pub data Notice : Type 0 where
  keyframe_requested consumers_changed : Notice
  recording_fact : Bool → Notice
  space_fact status_fact : ℕ → Notice
  file_removed : String → Notice

-- Newest notice first; `current_filename` is `none` where it is empty.
pub record Recorder : Type 0 where
  pub recording_armed : Bool
  pub dvr_state : DvrState
  pub stalled : Bool
  pub queue_overflow : Bool
  pub pending_open : Bool
  pub open_attempts : ℕ
  pub writer : Writer
  pub current_filename : Option String
  pub frames_written : ℕ
  pub timing : Timing
  pub max_file_bytes : ℕ
  pub session_dev : Option ℕ
  pub session_free : Option ℕ
  pub status : Status
  pub notices : List Notice

-- The libraries, and the settings of the constructor.
pub record Host : Type 0 where
  pub files : Files
  pub mounts : World → Mounts
  pub generate_filename : World → Option String
  pub storage : Guard
  pub segment_limit_ms : ℕ

abbrev pub noticed : Notice → Recorder → Recorder
noticed n r = record r { notices = n ∷ r.notices }

abbrev pub removed : Option String → List Notice → List Notice
removed none notices = notices
removed (some name) notices = file_removed name ∷ notices

abbrev pub is_some : Option String → Bool
is_some none = false
is_some (some name) = true

abbrev pub is_disabled : DvrState → Bool
is_disabled disabled = true
is_disabled _ = false

abbrev pub is_idle : DvrState → Bool
is_idle idle = true
is_idle _ = false

abbrev pub value_or_zero : Option ℕ → ℕ
value_or_zero none = 0
value_or_zero (some n) = n

abbrev pub is_known : Option ℕ → Bool
is_known none = false
is_known (some n) = true

-- `file_active`
pub file_active : Recorder → Bool
file_active r = r.recording_armed && r.writer.is_open

-- What `update_storage_status` reads of the recording.
pub session : Recorder → Session
session r = record {
  file_active = file_active r;
  session_dev = value_or_zero r.session_dev;
  session_dev_known = is_known r.session_dev;
  session_free_at_start = value_or_zero r.session_free;
  session_free_known = is_known r.session_free;
  written = r.writer.file_size_bytes;
}

-- The end of `finalize_current_file`, behind `writer.close`: a file without a frame is removed.
abbrev pub finalized : Recorder → Writer → Recorder
finalized r writer = record r {
  writer = writer;
  notices = if r.frames_written == 0 then removed r.current_filename r.notices else r.notices;
  current_filename = none;
  timing = record r.timing { segment_video_ticks = 0 };
}

pub request_rotate : Recorder → Recorder
request_rotate r =
    if r.pending_open then r else noticed keyframe_requested (record r { pending_open = true })

module _ (h : Host) where
  pub finalize_current_file : Recorder → M Recorder
  finalize_current_file r =
      if not r.writer.is_open && not (is_some r.current_filename)
      then pure r
      else (do (ok, writer) ← close_file h.files r.writer; pure (finalized r writer))

  -- `stop` before it finalizes.
  abbrev pub stopping : Recorder → Recorder
  stopping r = record r {
    recording_armed = false;
    pending_open = false;
    queue_overflow = false;
    dvr_state = to_idle r.dvr_state;
    notices = recording_fact false ∷ consumers_changed ∷ r.notices;
  }

  pub stop : Recorder → M Recorder
  stop r = finalize_current_file (stopping r)

  pub fail : Bool → Recorder → M Recorder
  fail fatal r =
      if fatal && is_disabled r.dvr_state
      then pure r
      else (do r' ← stop r; pure (if fatal then record r' { dvr_state = disabled } else r'))

  -- The end of `open_output_file`.
  abbrev pub opened : Mounts → ℕ → Recorder → Recorder
  opened m now_ms r = record r {
    max_file_bytes = file_size_cap m h.storage;
    session_dev = device_id m h.storage;
    session_free = free_bytes m h.storage;
    status = record r.status { last_storage_check_ms = now_ms };
  }

  -- `open_output_file` behind `writer.open`.
  pub begin_file : String → Recorder → M (Bool × Recorder)
  begin_file name r =
      let (begun, writer) = begin_video r.writer in
      if not begun
      then (do
        (ok, closed) ← close_file h.files writer
        pure (
          false,
          record r {
            writer = closed;
            current_filename = none;
            notices = file_removed name ∷ r.notices;
          },
        ))
      else (do
        m ← ask h.mounts
        now_ms ← ask h.files.monotonic_ms
        pure (true, opened m now_ms (record r { writer = writer; current_filename = some name })))

  pub open_named : Option String → Recorder → M (Bool × Recorder)
  open_named none r = pure (false, r)
  open_named (some name) r = do
    (ok, writer) ← open_file h.files name r.writer
    (if not ok
        then pure (false, record r { writer = writer })
        else begin_file name (record r { writer = writer }))

  pub open_output_file : Recorder → M (Bool × Recorder)
  open_output_file r = do name ← ask h.generate_filename; open_named name r

  -- `open_next_file` behind a failed `open_output_file`.
  pub open_failed : Recorder → M (Bool × Recorder)
  open_failed r =
      let counted : Recorder = record r { open_attempts = r.open_attempts + 1 } in
      if leb max_open_attempts counted.open_attempts
      then (do r' ← fail true counted; pure (false, r'))
      else pure (false, counted)

  pub open_next_file : Recorder → M (Bool × Recorder)
  open_next_file r = do
    r' ← finalize_current_file r
    (ok, r'') ← open_output_file (record r' { frames_written = 0; timing = next_segment r'.timing })
    (if not ok then open_failed r'' else pure (true, record r'' { open_attempts = 0 }))

  -- `start` with the reason of `is_ready`.
  abbrev pub start_with : Option Reason → Recorder → Recorder
  start_with (some reason) r = noticed (recording_fact false) r
  start_with none r =
      if not (is_idle r.dvr_state) then noticed (recording_fact false) r else record r {
        dvr_state = recording;
        frames_written = 0;
        timing = next_segment r.timing;
        open_attempts = 0;
        pending_open = true;
        recording_armed = true;
        notices = keyframe_requested ∷ consumers_changed ∷ recording_fact true ∷ r.notices;
      }

  pub start : Recorder → M Recorder
  start r = do m ← ask h.mounts; pure (start_with (is_ready m h.storage) r)

  -- A size or time limit of a segment.
  abbrev pub is_full : Recorder → Bool
  is_full r =
      ltb 0 r.max_file_bytes && leb r.max_file_bytes r.writer.file_size_bytes
      || ltb 0 h.segment_limit_ms
        && leb (h.segment_limit_ms * ms_to_90k) r.timing.segment_video_ticks

  -- `handle_access_unit` behind `write_nal`.
  pub check_limits : Recorder → M Recorder
  check_limits r =
      let r' = if is_full r then request_rotate r else r in
      if leb max_consecutive_write_failures r'.writer.write_fail_streak
      then fail true r'
      else pure r'

  -- From `write_nal` on.
  pub write_unit : Rpc → Recorder → M Recorder
  write_unit au r =
      if not r.writer.is_open
      then pure r
      else (let (duration, timing) = next_frame_duration r.timing au.pts_ms in
          do
            (ok, writer) ← write_nal h.files au.bytes duration r.writer
            check_limits (record r {
              timing = timing;
              writer = writer;
              frames_written = if ok then next32 r.frames_written else r.frames_written;
            }))

  pub handle_access_unit : Rpc → Recorder → M Recorder
  handle_access_unit au r =
      if not r.recording_armed
      then pure r
      else if r.queue_overflow
      then fail true (record r { queue_overflow = false })
      else if not r.pending_open
      then write_unit au r
      else if not au.keyframe
      then pure r
      else (do
        (ok, r') ← open_next_file r
        (if not ok then pure r' else write_unit au (record r' { pending_open = false })))
