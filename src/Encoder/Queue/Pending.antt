-- ===== src/Encoder/Queue/Pending.antt =====
-- How many frames the queue of `VideoEncoder` (src/encoder/video_encoder.cpp) holds.
use pixel_pilot_rk.Common.{
  ℕ, suc, ◌+◌, ◌≡◌, ◌≤◌, ◌<◌, refl, Bool, true, false, List, [], ◌∷◌, ◌++◌, leb, length, arith,
  Bool-cases, inl, inr,
}
use pixel_pilot_rk.Encoder.Calls.{World, Leaves, Leaves-if}
use pixel_pilot_rk.Encoder.Queue.{
  Frame, Task, frame_task, run_task, shutdown_task, frame, writeback_frame, drop_pending_frames,
  enqueue, max_pending_frames,
}

abbrev pub frames_in : List Task → ℕ
frames_in [] = 0
frames_in (frame_task info ∷ q) = suc (frames_in q)
frames_in (run_task action ∷ q) = frames_in q
frames_in (shutdown_task ∷ q) = frames_in q

frames_in-append : (q p : List Task) → frames_in (q ++ p) ≡ frames_in q + frames_in p
frames_in-append [] p = omega arith
frames_in-append (frame_task info ∷ q) p = omega (arith, frames_in-append q p)
frames_in-append (run_task action ∷ q) p = omega (arith, frames_in-append q p)
frames_in-append (shutdown_task ∷ q) p = omega (arith, frames_in-append q p)

frames_in-le_length : (q : List Task) → frames_in q ≤ length q
frames_in-le_length [] = omega arith
frames_in-le_length (frame_task info ∷ q) = omega (arith, frames_in-le_length q)
frames_in-le_length (run_task action ∷ q) = omega (arith, frames_in-le_length q)
frames_in-le_length (shutdown_task ∷ q) = omega (arith, frames_in-le_length q)

frames_in-drop :
    (q : List Task) (w : World) → Leaves (drop_pending_frames q w) (λ q' _. frames_in q' ≡ 0)
unfolding drop_pending_frames
frames_in-drop [] w = refl
frames_in-drop (frame_task info ∷ q) w = frames_in-drop q _
frames_in-drop (run_task action ∷ q) w = frames_in-drop q w
frames_in-drop (shutdown_task ∷ q) w = frames_in-drop q w

pub frames_in-enqueue :
    (task : Task) (drop : Bool) (q : List Task) (w : World)
    → frames_in (task ∷ []) ≡ 0
    → frames_in q ≤ max_pending_frames
    → Leaves (enqueue task drop q w) (λ q' _. frames_in q' ≤ max_pending_frames)
unfolding enqueue
frames_in-enqueue task true q w z h =
    let kept = (drop_pending_frames q w).0 in
    omega (arith, frames_in-append kept (task ∷ []), frames_in-drop q w, z)
frames_in-enqueue task false q w z h = omega (arith, frames_in-append q (task ∷ []), z, h)

-- A queue with room takes one frame more.
frames_in-pushed :
    (info : Frame) (q : List Task)
    → leb max_pending_frames (length q) ≡ false
    → frames_in (q ++ (frame_task info ∷ [])) ≤ max_pending_frames
frames_in-pushed info q e =
    let l : length q < max_pending_frames = ground (arith, e) in
    omega (arith, frames_in-append q (frame_task info ∷ []), frames_in-le_length q, l)

pub frames_in-frame :
    (info : Frame) (q : List Task)
    → frames_in q ≤ max_pending_frames
    → frames_in (frame info q) ≤ max_pending_frames
unfolding frame
frames_in-frame info q h = elim (Bool-cases (leb max_pending_frames (length q))) [
  | inl full ↦ rw full h
  | inr room ↦ rw room (frames_in-pushed info q room)
]

pub frames_in-writeback_frame :
    (info : Frame) (q : List Task) (w : World)
    → frames_in q ≤ max_pending_frames
    → Leaves (writeback_frame info q w) (λ q' _. frames_in q' ≤ max_pending_frames)
unfolding writeback_frame
frames_in-writeback_frame info q w h =
    Leaves-if (leb max_pending_frames (length q)) _ _ w (λ q' _. frames_in q' ≤ max_pending_frames)
      (λ _. h) (λ room. frames_in-pushed info q room)
