-- ===== src/Encoder/Session.antt =====
-- How `VideoEncoder` (src/encoder/video_encoder.cpp) sets up MPP, gives it back, and gives up.
pub mod Started
pub mod Held
use pixel_pilot_rk.Common.{
  ℕ, ◌+◌, ◌*◌, ◌/◌, ◌%◌, ◌^◌, Bool, true, false, not, ◌&&◌, ◌||◌, List, [], ◌∷◌, ltb, leb, ◌==◌,
  if◌then◌else◌,
}
use pixel_pilot_rk.Encoder.Calls.{
  Calls, Event, M, pure, ◌>>=◌, ◌>>◌, note, encoder_reset, encoder_failed,
}
use pixel_pilot_rk.Encoder.Mpp.{Mpp, init, flush, cleanup}
use pixel_pilot_rk.Encoder.Stream.{
  VideoEncoder, RecordingMode, video_only, video_with_osd_writeback, emit, drain_to_consumers,
  drain_pending, release_pending, recompute_wants_frames,
}

-- MAX_INIT_ATTEMPTS
abbrev pub max_init_attempts : ℕ
max_init_attempts = 3

-- `(x + 15) & ~15u`
abbrev pub aligned : ℕ → ℕ
aligned x = (x + 15) % 2 ^ 32 / 16 * 16

-- `(int) x > 0`, of 32 bits.
abbrev pub is_positive : ℕ → Bool
is_positive x = ltb 0 x && ltb x (2 ^ 31)

-- A notification to each consumer.
pub tell : (ℕ → Event) → List ℕ → M (Unit {0})
tell event [] = pure tt
tell event (c ∷ rest) = do note (event c); tell event rest

module _ (io : Calls) where
  -- `VideoEncoder::init` with the geometry that it chose.
  pub init_with : ℕ → ℕ → ℕ → ℕ → VideoEncoder → M (Bool × VideoEncoder)
  init_with w h hor ver s =
      if not (is_positive w) || not (is_positive h) || s.enc_fps == 0 then pure (false, s) else (do
        (made, mpp) ← init io w h hor ver s.enc_fps s.bitrate s.encoder
        (if not made
            then pure (false, record s { encoder = mpp })
            else pure (
              true,
              record s { encoder = mpp; cur_width = w; cur_height = h; idr_requested = true },
            )))

  abbrev pub init_as : RecordingMode → VideoEncoder → M (Bool × VideoEncoder)
  init_as video_with_osd_writeback s =
      init_with s.wb_enc_width s.wb_enc_height s.wb_enc_hor_stride s.wb_enc_ver_stride s
  init_as video_only s =
      if s.video_frm_width == 0 || s.video_frm_height == 0
      then pure (false, s)
      else init_with s.video_frm_width s.video_frm_height (aligned s.video_frm_width)
          (aligned s.video_frm_height) s

  pub init_encoder : VideoEncoder → M (Bool × VideoEncoder)
  init_encoder s = init_as s.mode s

  -- The callback of `flush`: it declines what comes behind all submitted frames.
  pub emit_flushed : VideoEncoder → List ℕ → M (Bool × VideoEncoder)
  emit_flushed s bytes =
      if leb s.frames_submitted s.frames_emitted
      then pure (false, s)
      else (do s' ← emit io (drain_pending io) s bytes; pure (true, s'))

  -- The part of `teardown` for an encoder that is ready.
  pub flush_ready : VideoEncoder → M VideoEncoder
  flush_ready s =
      if s.encoder.ctx then (do s' ← drain_to_consumers io s; flush io emit_flushed s') else pure s

  pub teardown : VideoEncoder → M VideoEncoder
  teardown s = do
    s' ← flush_ready s
    s'' ← release_pending io s'
    mpp ← cleanup s''.encoder
    pure (record s'' {
      encoder = mpp;
      submitted_pts = [];
      frames_submitted = 0;
      frames_emitted = 0;
      idr_requested = true;
    })

  -- `ensure_encoder` behind a failed `init`.
  pub init_lost : VideoEncoder → M (Bool × VideoEncoder)
  init_lost s =
      if leb max_init_attempts s.init_attempts
      then (do
        tell (λ c. encoder_failed c) io.consumers
        s' ← recompute_wants_frames io s
        pure (false, s'))
      else pure (false, s)

  -- `ensure_encoder` behind `init`.
  pub init_done : Bool → VideoEncoder → M (Bool × VideoEncoder)
  init_done made s = if not made then init_lost s else (do
    tell (λ c. encoder_reset c s.cur_width s.cur_height) io.consumers
    pure (true, record s { init_attempts = 0 }))

  -- `ensure_encoder` from `init_attempts++` on.
  pub set_up : VideoEncoder → M (Bool × VideoEncoder)
  set_up s = do
    s' ← teardown (record s { init_attempts = s.init_attempts + 1 })
    (made, s'') ← init_encoder (record s' { geometry_dirty = false })
    init_done made s''

  pub ensure_encoder : VideoEncoder → M (Bool × VideoEncoder)
  ensure_encoder s =
      if s.encoder.ctx && not s.geometry_dirty
      then pure (true, s)
      else if leb max_init_attempts s.init_attempts
      then pure (false, s)
      else set_up s
