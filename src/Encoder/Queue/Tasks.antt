-- ===== src/Encoder/Queue/Tasks.antt =====
-- What holds of each task stays so through the operations of the queue (src/encoder/video_encoder.cpp).
use pixel_pilot_rk.Common.{
  Bool, true, false, List, [], ◌∷◌, ◌++◌, leb, length, if◌then◌else◌, All, All-append,
}
use pixel_pilot_rk.Encoder.Calls.{World, Leaves, Leaves-if}
use pixel_pilot_rk.Encoder.Queue.{
  Frame, Task, frame_task, run_task, shutdown_task, frame, writeback_frame, drop_pending_frames,
  enqueue, max_pending_frames,
}

module _ (P : Task → Type 0) where
  All-pushed :
      (b : Bool) (q : List Task) (task : Task)
      → All P q
      → P task
      → All P (if b then q else q ++ (task ∷ []))
  All-pushed true q task h f = h
  All-pushed false q task h f = All-append P q (task ∷ []) h (f, tt)

  pub frame-All :
      (info : Frame) (q : List Task) → P (frame_task info) → All P q → All P (frame info q)
  unfolding frame
  frame-All info q f h = All-pushed (leb max_pending_frames (length q)) q (frame_task info) h f

  pub writeback_frame-All :
      (info : Frame) (q : List Task) (w : World)
      → P (frame_task info)
      → All P q
      → Leaves (writeback_frame info q w) (λ q' _. All P q')
  unfolding writeback_frame
  writeback_frame-All info q w f h =
      Leaves-if (leb max_pending_frames (length q)) _ _ w (λ q' _. All P q') (λ _. h)
        (λ _. All-pushed false q (frame_task info) h f)

  drop_pending_frames-All :
      (q : List Task) (w : World) → All P q → Leaves (drop_pending_frames q w) (λ q' _. All P q')
  unfolding drop_pending_frames
  drop_pending_frames-All [] w h = tt
  drop_pending_frames-All (frame_task info ∷ q) w h = drop_pending_frames-All q _ h.1
  drop_pending_frames-All (run_task action ∷ q) w h = (h.0, drop_pending_frames-All q w h.1)
  drop_pending_frames-All (shutdown_task ∷ q) w h = (h.0, drop_pending_frames-All q w h.1)

  pub enqueue-All :
      (task : Task) (drop : Bool) (q : List Task) (w : World)
      → P task
      → All P q
      → Leaves (enqueue task drop q w) (λ q' _. All P q')
  unfolding enqueue
  enqueue-All task true q w f h =
      All-append P (drop_pending_frames q w).0 (task ∷ []) (drop_pending_frames-All q w h) (f, tt)
  enqueue-All task false q w f h = All-append P q (task ∷ []) h (f, tt)
