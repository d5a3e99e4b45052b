-- ===== src/Encoder/Loop/Pending.antt =====
-- The frames that wait in the queue of `VideoEncoder` (src/encoder/video_encoder.cpp).
use pixel_pilot_rk.Common.{◌≤◌, refl, true, false, List, [], ◌∷◌, arith}
use pixel_pilot_rk.Encoder.Calls.{Calls, World, Leaves, Leaves-if}
use pixel_pilot_rk.Encoder.Queue.{
  Task, frame_task, run_task, shutdown_task, post, set_video_params, restart, shutdown, posted,
  set_params, rebuild, max_pending_frames,
}
use pixel_pilot_rk.Encoder.Queue.Pending.{
  frames_in, frames_in-enqueue, frames_in-frame, frames_in-writeback_frame,
}
use pixel_pilot_rk.Encoder.Loop.{
  System, Step, framed, captured, commanding, sizing, restarting, shutting, turn, behind, take_turn,
  step, run,
}

frames_in-behind : (q : List Task) → frames_in (behind q) ≤ frames_in q
frames_in-behind [] = omega arith
frames_in-behind (frame_task info ∷ q) = omega arith
frames_in-behind (run_task action ∷ q) = omega arith
frames_in-behind (shutdown_task ∷ q) = omega arith

abbrev pub IsShort : System → Type 0
IsShort y = frames_in y.queue ≤ max_pending_frames

module _ (io : Calls) where
  step-Short :
      (a : Step) (y : System) (w : World) → IsShort y → Leaves (step io a y w) (λ y' _. IsShort y')
  unfolding step post set_video_params restart shutdown take_turn
  step-Short (framed info) y w h = frames_in-frame info y.queue h
  step-Short (captured info) y w h = frames_in-writeback_frame info y.queue w h
  step-Short (commanding n) y w h = frames_in-enqueue (run_task (posted n)) false y.queue w refl h
  step-Short (sizing a b) y w h =
      frames_in-enqueue (run_task (set_params a b)) true y.queue w refl h
  step-Short restarting y w h = frames_in-enqueue (run_task rebuild) true y.queue w refl h
  step-Short shutting y w h = frames_in-enqueue shutdown_task true y.queue w refl h
  step-Short turn y w h =
      Leaves-if y.ended _ _ w (λ y' _. IsShort y') (λ _. h)
        (λ _. omega (arith, h, frames_in-behind y.queue))

  -- Whatever the threads do, at most `max_pending_frames` frames wait in the queue.
  pub run-Short :
      (steps : List Step) (y : System) (w : World)
      → IsShort y
      → Leaves (run io steps y w) (λ y' _. IsShort y')
  unfolding run
  run-Short [] y w h = h
  run-Short (a ∷ steps) y w h =
      let m = step io a y w in run-Short steps m.0 m.1 (step-Short a y w h)
