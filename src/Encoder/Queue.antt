-- ===== src/Encoder/Queue.antt =====
-- The queue of `VideoEncoder` (src/encoder/video_encoder.cpp, video_encoder.h, encoder_common.h): what
-- the decoder's, the display's and the control threads do under the mutex, and `pp_wb_release` of
-- src/main.cpp.
pub mod Held
pub mod Tasks
pub mod Pending
pub mod Due
use pixel_pilot_rk.Common.{
  ℕ, ℤ, pos, negsuc, Bool, true, false, List, [], ◌∷◌, ◌++◌, ltb, leb, if◌then◌else◌, length,
}
use pixel_pilot_rk.Encoder.Calls.{M, pure, ◌>>=◌, ◌>>◌, note, release, slot, fence}

-- `enc_frame_info`.
pub record Frame : Type 0 where
  pub prime_fd : ℕ
  pub hor_stride : ℕ
  pub ver_stride : ℕ
  pub width : ℕ
  pub height : ℕ
  pub buf_size : ℕ
  pub pts : ℕ
  pub fence_fd : ℤ
  pub wb_index : ℤ

-- What a queued function does: those of `set_video_params` and `restart`, and any that is posted.
pub data Action : Type 0 where
  set_params : ℕ → ℕ → Action
  rebuild : Action
  posted : ℕ → Action

-- `Task`, with what each kind of it uses.
pub data Task : Type 0 where
  frame_task : Frame → Task
  run_task : Action → Task
  shutdown_task : Task

-- MAX_PENDING_FRAMES
abbrev pub max_pending_frames : ℕ
max_pending_frames = 3

-- WB_BUF_COUNT
abbrev pub wb_buf_count : ℕ
wb_buf_count = 6

-- An index that is out of range is ignored.
pub pp_wb_release : ℤ → M (Unit {0})
pp_wb_release (pos index) = if ltb index wb_buf_count then note (release (slot index)) else pure tt
pp_wb_release (negsuc n) = pure tt

-- `if (fi.fence_fd >= 0) close(fi.fence_fd)`
pub close_fence : ℤ → M (Unit {0})
close_fence (pos fd) = note (release (fence fd))
close_fence (negsuc n) = pure tt

-- The frame is left behind with -1 in both fields. A negative index is as well ignored by
-- `pp_wb_release`.
pub release_wb_frame : Frame → M (Unit {0})
release_wb_frame fi = do close_fence fi.fence_fd; pp_wb_release fi.wb_index

-- `queue_` has its front first.
pub frame : Frame → List Task → List Task
frame info queue =
    if leb max_pending_frames (length queue) then queue else queue ++ (frame_task info ∷ [])

pub writeback_frame : Frame → List Task → M (List Task)
writeback_frame info queue =
    if leb max_pending_frames (length queue)
    then (do release_wb_frame info; pure queue)
    else pure (queue ++ (frame_task info ∷ []))

pub drop_pending_frames : List Task → M (List Task)
drop_pending_frames [] = pure []
drop_pending_frames (frame_task info ∷ queue) = do release_wb_frame info; drop_pending_frames queue
drop_pending_frames (run_task action ∷ queue) = do
  kept ← drop_pending_frames queue
  pure (run_task action ∷ kept)
drop_pending_frames (shutdown_task ∷ queue) = do
  kept ← drop_pending_frames queue
  pure (shutdown_task ∷ kept)

pub enqueue : Task → Bool → List Task → M (List Task)
enqueue task drop_frames queue = do
  kept ← (if drop_frames then drop_pending_frames queue else pure queue)
  pure (kept ++ (task ∷ []))

unfoldable pub post : ℕ → List Task → M (List Task)
post command = enqueue (run_task (posted command)) false

unfoldable pub set_video_params : ℕ → ℕ → List Task → M (List Task)
set_video_params w h = enqueue (run_task (set_params w h)) true

unfoldable pub restart : List Task → M (List Task)
restart = enqueue (run_task rebuild) true

unfoldable pub shutdown : List Task → M (List Task)
shutdown = enqueue shutdown_task true
