-- ===== src/Encoder/Queue/Due.antt =====
-- When a shutdown in the queue of `VideoEncoder` (src/encoder/video_encoder.cpp) has its turn.
use pixel_pilot_rk.Common.{
  ℕ, zero, suc, ◌≤◌, Bool, true, false, List, [], ◌∷◌, ◌++◌, leb, length, arith, Bool-cases, inl,
  inr,
}
use pixel_pilot_rk.Encoder.Calls.{World, Leaves, Leaves-if}
use pixel_pilot_rk.Encoder.Queue.{
  Frame, Task, frame_task, run_task, shutdown_task, frame, writeback_frame, drop_pending_frames,
  enqueue, shutdown, max_pending_frames,
}

-- One of the first `n` tasks is a shutdown.
abbrev pub IsDue : ℕ → List Task → Type 0
IsDue zero q = ⊥
IsDue (suc n) [] = ⊥
IsDue (suc n) (shutdown_task ∷ q) = Unit
IsDue (suc n) (frame_task info ∷ q) = IsDue n q
IsDue (suc n) (run_task action ∷ q) = IsDue n q

pub IsDue-mono : (n m : ℕ) (q : List Task) → n ≤ m → IsDue n q → IsDue m q
IsDue-mono zero m q l d = absurd d
IsDue-mono (suc n) zero q l d = absurd (omega arith)
IsDue-mono (suc n) (suc m) [] l d = absurd d
IsDue-mono (suc n) (suc m) (shutdown_task ∷ q) l d = tt
IsDue-mono (suc n) (suc m) (frame_task info ∷ q) l d = IsDue-mono n m q (omega arith) d
IsDue-mono (suc n) (suc m) (run_task action ∷ q) l d = IsDue-mono n m q (omega arith) d

IsDue-append : (n : ℕ) (q p : List Task) → IsDue n q → IsDue n (q ++ p)
IsDue-append zero q p d = absurd d
IsDue-append (suc n) [] p d = absurd d
IsDue-append (suc n) (shutdown_task ∷ q) p d = tt
IsDue-append (suc n) (frame_task info ∷ q) p d = IsDue-append n q p d
IsDue-append (suc n) (run_task action ∷ q) p d = IsDue-append n q p d

IsDue-drop :
    (n : ℕ) (q : List Task) (w : World)
    → IsDue n q
    → Leaves (drop_pending_frames q w) (λ q' _. IsDue n q')
unfolding drop_pending_frames
IsDue-drop zero q w d = absurd d
IsDue-drop (suc n) [] w d = absurd d
IsDue-drop (suc n) (shutdown_task ∷ q) w d = tt
IsDue-drop (suc n) (frame_task info ∷ q) w d =
    IsDue-mono n (suc n) _ (omega arith) (IsDue-drop n q _ d)
IsDue-drop (suc n) (run_task action ∷ q) w d = IsDue-drop n q w d

pub IsDue-enqueue :
    (n : ℕ) (task : Task) (drop : Bool) (q : List Task) (w : World)
    → IsDue n q
    → Leaves (enqueue task drop q w) (λ q' _. IsDue n q')
unfolding enqueue
IsDue-enqueue n task true q w d = IsDue-append n _ (task ∷ []) (IsDue-drop n q w d)
IsDue-enqueue n task false q w d = IsDue-append n q (task ∷ []) d

pub IsDue-frame : (n : ℕ) (info : Frame) (q : List Task) → IsDue n q → IsDue n (frame info q)
unfolding frame
IsDue-frame n info q d = elim (Bool-cases (leb max_pending_frames (length q))) [
  | inl full ↦ rw full d
  | inr room ↦ rw room (IsDue-append n q (frame_task info ∷ []) d)
]

pub IsDue-writeback_frame :
    (n : ℕ) (info : Frame) (q : List Task) (w : World)
    → IsDue n q
    → Leaves (writeback_frame info q w) (λ q' _. IsDue n q')
unfolding writeback_frame
IsDue-writeback_frame n info q w d =
    Leaves-if (leb max_pending_frames (length q)) _ _ w (λ q' _. IsDue n q') (λ _. d)
      (λ _. IsDue-append n q (frame_task info ∷ []) d)

-- Behind the other tasks, a shutdown is due.
pub IsDue-last : (q : List Task) → IsDue (suc (length q)) (q ++ (shutdown_task ∷ []))
IsDue-last [] = tt
IsDue-last (shutdown_task ∷ q) = tt
IsDue-last (frame_task info ∷ q) = IsDue-last q
IsDue-last (run_task action ∷ q) = IsDue-last q

pub length-drop_pending_frames :
    (q : List Task) (w : World) → Leaves (drop_pending_frames q w) (λ q' _. length q' ≤ length q)
unfolding drop_pending_frames
length-drop_pending_frames [] w = omega arith
length-drop_pending_frames (frame_task info ∷ q) w = omega (arith, length-drop_pending_frames q _)
length-drop_pending_frames (run_task action ∷ q) w = omega (arith, length-drop_pending_frames q w)
length-drop_pending_frames (shutdown_task ∷ q) w = omega (arith, length-drop_pending_frames q w)

-- `shutdown` queues behind what is kept.
pub IsDue-shutdown :
    (q : List Task) (w : World) → Leaves (shutdown q w) (λ q' _. IsDue (suc (length q)) q')
unfolding shutdown enqueue
IsDue-shutdown q w =
    let kept = (drop_pending_frames q w).0 in
    IsDue-mono (suc (length kept)) (suc (length q)) (kept ++ (shutdown_task ∷ []))
      (omega (arith, length-drop_pending_frames q w)) (IsDue-last kept)
