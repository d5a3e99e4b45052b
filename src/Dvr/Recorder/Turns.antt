-- ===== src/Dvr/Recorder/Turns.antt =====
-- The turns of the recorder's thread: `Dvr::loop` (src/dvr/dvr.cpp) with its commands and the watch on the
-- storage, and what the other threads do between two turns.
pub mod Tidy
pub mod Named
pub mod Ended
use pixel_pilot_rk.Common.{
  ℕ, ◌+◌, ◌*◌, ◌%◌, ◌^◌, Bool, true, false, not, ◌&&◌, ◌||◌, Option, none, some, List, [], ◌∷◌,
  String, ltb, leb, ◌==◌, if◌then◌else◌,
}
use pixel_pilot_rk.Dvr.Files.{Files, World, M, pure, ◌>>=◌, ◌>>◌, ask}
use pixel_pilot_rk.Dvr.Writer.{Writer, open_file, begin_video, write_nal, close_file, next32}
use pixel_pilot_rk.Dvr.Timing.{Timing, next_frame_duration, next_segment, ms_to_90k}
use pixel_pilot_rk.Dvr.Storage.{
  Mounts, Guard, Reason, is_ready, file_size_cap, device_id, free_bytes,
}
use pixel_pilot_rk.Dvr.Status.{
  Session, Status, Report, no_longer_mounted, was_removed, low_free_space, storage_available_bytes,
  storage_status, update_storage_status,
}
use pixel_pilot_rk.Dvr.Queue.{
  Rpc, Command, rpc_au, rpc_start, rpc_stop, rpc_toggle, rpc_disable, rpc_rotate, rpc_fail,
  rpc_shutdown, DvrState, idle, recording, disabled, to_recording, to_idle,
}
use pixel_pilot_rk.Dvr.Recorder.{
  Notice, keyframe_requested, consumers_changed, recording_fact, space_fact, status_fact,
  file_removed, Recorder, Host, noticed, is_disabled, session, request_rotate, stop, fail, start,
  handle_access_unit, file_active,
}

-- What the other threads do between two turns: `stop_recording` and `shutdown` at once, `disable`,
-- `on_access_unit` of a full queue, and the watchdog `on_tick` when the storage is stuck.
pub data Outside : Type 0 where
  asked_to_stop latched overflowed stuck : Outside

pub meddled : Outside → Recorder → Recorder
meddled asked_to_stop r = record r { dvr_state = to_idle r.dvr_state }
meddled latched r = record r { dvr_state = disabled }
meddled overflowed r = record r { queue_overflow = true }
meddled stuck r = record r {
  stalled = true;
  dvr_state = disabled;
  recording_armed = false;
  queue_overflow = false;
  notices = status_fact 0 ∷ recording_fact false ∷ consumers_changed ∷ r.notices;
}

-- What happens next: a wait that timed out, a command that was taken from the queue, or another thread.
pub data Input : Type 0 where
  waited : Input
  took : Rpc → Input
  outside : Outside → Input

module _ (h : Host) where
  -- What `update_storage_status` asks for, in order: the calls of `fail`, and the facts.
  pub act : List Report → Recorder → M Recorder
  act [] r = pure r
  act (no_longer_mounted ∷ rest) r = do r' ← fail h true r; act rest r'
  act (was_removed ∷ rest) r = do r' ← fail h true r; act rest r'
  act (low_free_space ∷ rest) r = do r' ← fail h false r; act rest r'
  act (storage_available_bytes n ∷ rest) r = act rest (noticed (space_fact n) r)
  act (storage_status n ∷ rest) r = act rest (noticed (status_fact n) r)

  abbrev pub checked : Mounts → Bool → ℕ → Recorder → Status × List Report
  checked m force_update now_ms r =
      update_storage_status m h.storage (session r) force_update now_ms r.status

  pub check_status : Bool → Recorder → M Recorder
  check_status force_update r = do
    now_ms ← ask h.files.monotonic_ms
    m ← ask h.mounts
    act (checked m force_update now_ms r).1
        (record r { status = (checked m force_update now_ms r).0 })

  -- True ends the thread.
  pub finish_storage_work : Recorder → M (Bool × Recorder)
  finish_storage_work r =
      if not r.stalled
      then pure (false, r)
      else (do r' ← stop h (record r { stalled = false }); pure (true, r'))

  abbrev pub stop_if_armed : Recorder → M Recorder
  stop_if_armed r = if r.recording_armed then stop h r else pure r

  -- The `switch` of `loop`, all but the shutdown.
  pub perform : Rpc → Command → Recorder → M Recorder
  perform rpc rpc_au r = handle_access_unit h rpc r
  perform rpc rpc_start r = if not r.recording_armed then start h r else pure r
  perform rpc rpc_stop r = stop_if_armed r
  perform rpc rpc_toggle r = if r.recording_armed then stop h r else start h r
  perform rpc rpc_disable r = do r' ← stop_if_armed r; pure (noticed (recording_fact false) r')
  perform rpc rpc_rotate r = pure (if r.recording_armed then request_rotate r else r)
  perform rpc rpc_fail r = if r.recording_armed then fail h true r else pure r
  perform rpc rpc_shutdown r = pure r

  abbrev pub is_shutdown : Command → Bool
  is_shutdown rpc_shutdown = true
  is_shutdown _ = false

  abbrev pub is_disable : Command → Bool
  is_disable rpc_disable = true
  is_disable _ = false

  -- The end of a turn: whether the thread breaks out of its loop.
  pub finish_turn : Recorder → M (Bool × Recorder)
  finish_turn r = do (over, r') ← finish_storage_work r; pure (over || is_disabled r'.dvr_state, r')

  -- A turn of `loop` with what it took from the queue, if anything.
  pub turn : Option Rpc → Recorder → M (Bool × Recorder)
  turn none r = do r' ← check_status true r; finish_turn r'
  turn (some rpc) r = do
    r' ← check_status false r
    (if is_disabled r'.dvr_state && not (is_shutdown rpc.command) && not (is_disable rpc.command)
        then (do (over, r'') ← finish_storage_work r'; pure (true, r''))
        else if is_shutdown rpc.command
        then pure (true, r')
        else (do r'' ← perform rpc rpc.command r'; finish_turn r''))

  -- Behind the label `end`, but the queue.
  pub wind_up : Recorder → M Recorder
  wind_up r = do r' ← stop_if_armed r; (over, r'') ← finish_storage_work r'; pure r''

  -- True behind the label `end`.
  pub end_or : Bool → Recorder → (Recorder → M (Bool × Recorder)) → M (Bool × Recorder)
  end_or true r next = do r' ← wind_up r; pure (true, r')
  end_or false r next = next r

  pub loop : List Input → Recorder → M (Bool × Recorder)
  loop [] r = pure (false, r)
  loop (waited ∷ rest) r = do (over, r') ← turn none r; end_or over r' (loop rest)
  loop (took rpc ∷ rest) r = do (over, r') ← turn (some rpc) r; end_or over r' (loop rest)
  loop (outside o ∷ rest) r = loop rest (meddled o r)
