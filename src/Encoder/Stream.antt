-- ===== src/Encoder/Stream.antt =====
-- The stream that `VideoEncoder` (src/encoder/video_encoder.cpp, video_encoder.h) hands to its
-- consumers: the time stamps of the access units, the keyframes, and the frames that are submitted.
pub mod Kept
pub mod Held
pub mod Streak
pub mod Cadence
pub mod Paired
use pixel_pilot_rk.Common.{
  ℕ, ◌+◌, ◌-◌, ◌%◌, ◌^◌, ℤ, pos, negsuc, is_neg, is_zero, is_pos, Bool, true, false, not, ◌&&◌,
  ◌||◌, List, [], ◌∷◌, ◌++◌, Option, none, some, ltb, leb, ◌==◌, if◌then◌else◌,
}
use pixel_pilot_rk.Dvr.Keyframe.{au_is_keyframe}
use pixel_pilot_rk.Encoder.Calls.{
  Calls, World, M, pure, ◌>>=◌, ◌>>◌, ask, note, acquire, release, buffer, access_unit,
}
use pixel_pilot_rk.Encoder.Mpp.{Mpp, no_mpp, drain, request_idr, submit, sync_strides}
use pixel_pilot_rk.Encoder.Queue.{Frame, close_fence, pp_wb_release}

pub data RecordingMode : Type 0 where
  video_only video_with_osd_writeback : RecordingMode

-- `VideoEncoder` but its queue. Time stamps are below 2^63, so `int64_t` has them as they are.
pub record VideoEncoder : Type 0 where
  pub mode : RecordingMode
  pub bitrate : ℕ
  pub enc_fps : ℕ
  pub wants_frames : Bool
  pub video_frm_width : ℕ
  pub video_frm_height : ℕ
  pub wb_enc_width : ℕ
  pub wb_enc_height : ℕ
  pub wb_enc_hor_stride : ℕ
  pub wb_enc_ver_stride : ℕ
  pub wb_pending_index : ℤ
  pub cur_width : ℕ
  pub cur_height : ℕ
  pub draining : Bool
  pub geometry_dirty : Bool
  pub init_attempts : ℕ
  pub frame_error_streak : ℕ
  pub last_idr_pts_ms : ℕ
  pub idr_requested : Bool
  pub encoder : Mpp
  pub submitted_pts : List ℕ
  pub frames_submitted : ℕ
  pub frames_emitted : ℕ
  pub last_emitted_pts_ms : ℕ

-- KEYFRAME_INTERVAL_MS
abbrev pub keyframe_interval_ms : ℕ
keyframe_interval_ms = 500

-- What both constructors leave at the values of the header.
abbrev pub fresh : RecordingMode → ℕ → ℕ → VideoEncoder
fresh mode fps bitrate_bps = record {
  mode = mode;
  bitrate = bitrate_bps;
  enc_fps = if ltb 0 fps then fps else 60;
  wants_frames = false;
  video_frm_width = 0;
  video_frm_height = 0;
  wb_enc_width = 0;
  wb_enc_height = 0;
  wb_enc_hor_stride = 0;
  wb_enc_ver_stride = 0;
  wb_pending_index = negsuc 0;
  cur_width = 0;
  cur_height = 0;
  draining = false;
  geometry_dirty = true;
  init_attempts = 0;
  frame_error_streak = 0;
  last_idr_pts_ms = 0;
  idr_requested = true;
  encoder = no_mpp;
  submitted_pts = [];
  frames_submitted = 0;
  frames_emitted = 0;
  last_emitted_pts_ms = 0;
}

unfoldable pub new_tap : ℕ → ℕ → ℕ → ℕ → VideoEncoder
new_tap fps bitrate_bps video_width video_height = record (fresh video_only fps bitrate_bps) {
  video_frm_width = video_width;
  video_frm_height = video_height;
}

unfoldable pub new_writeback : ℕ → ℕ → ℕ → ℕ → ℕ → ℕ → VideoEncoder
new_writeback fps bitrate_bps wb_width wb_height wb_hor_stride wb_ver_stride =
    record (fresh video_with_osd_writeback fps bitrate_bps) {
      wb_enc_width = wb_width;
      wb_enc_height = wb_height;
      wb_enc_hor_stride = wb_hor_stride;
      wb_enc_ver_stride = wb_ver_stride;
    }

-- The time stamp of the next access unit.
pub next_pts : VideoEncoder → ℕ
next_pts s = elim s.submitted_pts [ [] ↦ s.last_emitted_pts_ms | pts_ms ∷ _ ↦ pts_ms ]

abbrev pub tail_pts : List ℕ → List ℕ
tail_pts [] = []
tail_pts (_ ∷ rest) = rest

-- The beginning of `emit`; `frames_emitted` has 32 bits.
pub popped : VideoEncoder → VideoEncoder
popped s = record s {
  submitted_pts = tail_pts s.submitted_pts;
  last_emitted_pts_ms = next_pts s;
  frames_emitted = (s.frames_emitted + 1) % 2 ^ 32;
}

-- `wants_frames_` as the other threads leave it.
unfoldable pub load_wants_frames : Calls → VideoEncoder → M Bool
load_wants_frames io s = do
  stored ← ask io.consumers_changed
  pure (elim stored [ none ↦ s.wants_frames | some any ↦ any ])

module _ (io : Calls) where
  -- The loop of `recompute_wants_frames`.
  any_active : List ℕ → M Bool
  any_active [] = pure false
  any_active (c ∷ rest) = do
    on ← ask (λ w. io.active w c)
    (if on then pure true else any_active rest)

  pub recompute_wants_frames : VideoEncoder → M VideoEncoder
  recompute_wants_frames s = do
    any ← any_active io.consumers
    pure (record s { wants_frames = any })

  -- The loop of `emit`. A consumer may call `drain_pending` from `on_access_unit`.
  pub deliver :
      (VideoEncoder → M VideoEncoder) → List ℕ → ℕ → List ℕ → VideoEncoder → M VideoEncoder
  deliver drain_pending bytes pts_ms [] s = pure s
  deliver drain_pending bytes pts_ms (c ∷ rest) s = do
    on ← ask (λ w. io.active w c)
    (if not on then deliver drain_pending bytes pts_ms rest s else (do
      note (access_unit c bytes pts_ms (au_is_keyframe bytes))
      stopping ← ask (λ w. io.stops w c)
      s' ← (if stopping then drain_pending s else pure s)
      deliver drain_pending bytes pts_ms rest s'))

  pub emit : (VideoEncoder → M VideoEncoder) → VideoEncoder → List ℕ → M VideoEncoder
  emit drain_pending s bytes = deliver drain_pending bytes (next_pts s) io.consumers (popped s)

  -- Where `draining_` is set, a nested `drain_pending` returns at once.
  pub drain_to_consumers : VideoEncoder → M VideoEncoder
  drain_to_consumers s = if s.draining then pure s else (do
    s' ← drain io (emit pure) (record s { draining = true })
    pure (record s' { draining = false }))

  pub drain_pending : VideoEncoder → M VideoEncoder
  drain_pending s = if s.encoder.ctx then drain_to_consumers s else pure s

  -- Whether an IDR frame is due, with what the other threads stored.
  abbrev pub is_due : Bool → ℕ → VideoEncoder → Bool
  is_due asked pts_ms s =
      s.idr_requested
      || asked
      || ltb pts_ms s.last_idr_pts_ms
      || leb keyframe_interval_ms (pts_ms - s.last_idr_pts_ms)

  pub maybe_request_idr : ℕ → VideoEncoder → M VideoEncoder
  maybe_request_idr pts_ms s = do
    asked ← ask io.request_keyframe
    (if is_due asked pts_ms s
        then (do
          request_idr io s.encoder
          pure (record s { last_idr_pts_ms = pts_ms; idr_requested = false }))
        else pure s)

  -- True is a buffer.
  pub import_frame : Frame → M Bool
  import_frame info = do
    imported ← ask (λ w. io.mpp_buffer_import w info.prime_fd info.buf_size)
    (if imported then (do note (acquire (buffer info.prime_fd)); pure true) else pure false)

  -- `frame_error_streak++`
  abbrev pub lost : VideoEncoder → VideoEncoder
  lost s = record s { frame_error_streak = s.frame_error_streak + 1 }

  -- A frame that MPP took.
  abbrev pub pushed : ℕ → VideoEncoder → VideoEncoder
  pushed pts s = record s {
    submitted_pts = s.submitted_pts ++ (pts ∷ []);
    frames_submitted = (s.frames_submitted + 1) % 2 ^ 32;
    frame_error_streak = 0;
  }

  -- Step 3 of `encode_wb`, behind the import.
  pub submit_wb : Frame → VideoEncoder → M VideoEncoder
  submit_wb info s = do
    s' ← maybe_request_idr info.pts s
    ret ← submit io info.pts
    note (release (buffer info.prime_fd))
    (if is_zero ret
        then pure (record (pushed info.pts s') { wb_pending_index = info.wb_index })
        else (do pp_wb_release info.wb_index; pure (lost s')))

  -- Step 3 of `encode_wb`.
  pub import_wb : Frame → VideoEncoder → M VideoEncoder
  import_wb info s = do
    imported ← import_frame info
    (if not imported then (do pp_wb_release info.wb_index; pure (lost s)) else submit_wb info s)

  -- `if (wb_pending_index >= 0) { pp_wb_release(wb_pending_index); wb_pending_index = -1; }`
  pub release_pending : VideoEncoder → M VideoEncoder
  release_pending s =
      if is_neg s.wb_pending_index
      then pure s
      else (do pp_wb_release s.wb_pending_index; pure (record s { wb_pending_index = negsuc 0 }))

  -- Steps 2 and 3 of `encode_wb`.
  pub encode_captured : Frame → VideoEncoder → M VideoEncoder
  encode_captured info s = do
    s' ← drain_to_consumers s
    s'' ← release_pending s'
    import_wb info s''

  -- Step 1 of `encode_wb`.
  abbrev pub wait_fence : ℤ → M Bool
  wait_fence (pos fd) = do pr ← ask (λ w. io.poll w fd); close_fence (pos fd); pure (is_pos pr)
  wait_fence (negsuc n) = pure true

  pub encode_wb : Frame → VideoEncoder → M VideoEncoder
  encode_wb info s = do
    written ← wait_fence info.fence_fd
    (if not written
        then (do pp_wb_release info.wb_index; pure (lost s))
        else encode_captured info s)

  -- The end of `encode` for the decode tap.
  pub submit_tap : Frame → VideoEncoder → M VideoEncoder
  submit_tap info s = do
    s' ← maybe_request_idr info.pts s
    ret ← submit io info.pts
    note (release (buffer info.prime_fd))
    (if is_zero ret then pure (pushed info.pts s') else pure (lost s'))

  pub import_tap : Frame → VideoEncoder → M VideoEncoder
  import_tap info s = do
    imported ← import_frame info
    (if not imported then pure (lost s) else submit_tap info s)

  abbrev pub differs : Frame → VideoEncoder → Bool
  differs info s =
      not (info.hor_stride == s.encoder.cfg_hor_stride)
      || not (info.ver_stride == s.encoder.cfg_ver_stride)

  pub sync_frame : Frame → VideoEncoder → M VideoEncoder
  sync_frame info s =
      if differs info s
      then (do
        mpp ← sync_strides io info.hor_stride info.ver_stride s.encoder
        pure (record s { encoder = mpp }))
      else pure s

  pub encode_tap : Frame → VideoEncoder → M VideoEncoder
  encode_tap info s = do s' ← drain_to_consumers s; s'' ← sync_frame info s'; import_tap info s''

  abbrev pub encode_as : RecordingMode → Frame → VideoEncoder → M VideoEncoder
  encode_as video_with_osd_writeback info s = encode_wb info s
  encode_as video_only info s = encode_tap info s

  pub encode : Frame → VideoEncoder → M VideoEncoder
  encode info s = encode_as s.mode info s
