-- ===== src/Encoder/Queue/Held.antt =====
-- The writeback slots and fences that wait in the queue of `VideoEncoder`
-- (src/encoder/video_encoder.cpp): who holds them.
use pixel_pilot_rk.Common.{
  ℕ, ◌+◌, ◌≡◌, refl, ℤ, pos, negsuc, is_neg, Bool, true, false, List, [], ◌∷◌, ◌++◌, ltb, leb,
  if◌then◌else◌, length, arith,
}
use pixel_pilot_rk.Encoder.Calls.{World, slot, fence, Resource, Leaves, Leaves-if}
use pixel_pilot_rk.Encoder.Calls.Ledger.{one, Moves}
use pixel_pilot_rk.Encoder.Mpp.Held.{none_held}
use pixel_pilot_rk.Encoder.Queue.{
  Frame, Task, frame_task, run_task, shutdown_task, wb_buf_count, pp_wb_release, close_fence,
  release_wb_frame, frame, writeback_frame, drop_pending_frames, enqueue, max_pending_frames,
}

-- An index of the pool stands for its slot, any other for nothing.
abbrev pub slot_held : ℤ → Resource → ℕ
slot_held (pos index) r = if ltb index wb_buf_count then one r (slot index) else 0
slot_held (negsuc n) r = 0

abbrev pub fence_held : ℤ → Resource → ℕ
fence_held (pos fd) r = one r (fence fd)
fence_held (negsuc n) r = 0

abbrev pub frame_held : Frame → Resource → ℕ
frame_held info r = fence_held info.fence_fd r + slot_held info.wb_index r

abbrev pub task_held : Task → Resource → ℕ
task_held (frame_task info) r = frame_held info r
task_held (run_task action) r = 0
task_held shutdown_task r = 0

abbrev pub queue_held : List Task → Resource → ℕ
queue_held [] r = 0
queue_held (task ∷ queue) r = task_held task r + queue_held queue r

-- A frame of the decode tap has -1 for its fence and for its slot.
abbrev pub IsTap : Frame → Type 0
IsTap info = (is_neg info.fence_fd ≡ true) × (is_neg info.wb_index ≡ true)

pub pp_wb_release-Moves :
    (z : ℤ) (w : World) → Leaves (pp_wb_release z w) (λ _ w'. Moves w (slot_held z) w' none_held)
unfolding pp_wb_release
pp_wb_release-Moves (pos index) w r = ground arith
pp_wb_release-Moves (negsuc n) w r = omega arith

pub close_fence-Moves :
    (z : ℤ) (w : World) → Leaves (close_fence z w) (λ _ w'. Moves w (fence_held z) w' none_held)
unfolding close_fence
close_fence-Moves (pos fd) w r = omega arith
close_fence-Moves (negsuc n) w r = omega arith

pub release_wb_frame-Moves :
    (info : Frame) (w : World)
    → Leaves (release_wb_frame info w) (λ _ w'. Moves w (frame_held info) w' none_held)
unfolding release_wb_frame
release_wb_frame-Moves info w r =
    omega (arith, close_fence-Moves info.fence_fd w r, pp_wb_release-Moves info.wb_index _ r)

pub queue_held-append :
    (r : Resource) (q p : List Task) → queue_held (q ++ p) r ≡ queue_held q r + queue_held p r
queue_held-append r [] p = omega arith
queue_held-append r (task ∷ q) p = omega (arith, queue_held-append r q p)

pub drop_pending_frames-Moves :
    (q : List Task) (w : World)
    → Leaves (drop_pending_frames q w) (λ q' w'. Moves w (queue_held q) w' (queue_held q'))
unfolding drop_pending_frames
drop_pending_frames-Moves [] w r = omega arith
drop_pending_frames-Moves (frame_task info ∷ q) w r =
    omega (arith, release_wb_frame-Moves info w r, drop_pending_frames-Moves q _ r)
drop_pending_frames-Moves (run_task action ∷ q) w r = omega (arith, drop_pending_frames-Moves q w r)
drop_pending_frames-Moves (shutdown_task ∷ q) w r = omega (arith, drop_pending_frames-Moves q w r)

pub enqueue-Moves :
    (task : Task) (drop : Bool) (q : List Task) (w : World)
    → Leaves
        (enqueue task drop q w)
        (λ q' w'. Moves w (λ r. queue_held q r + task_held task r) w' (queue_held q'))
unfolding enqueue
enqueue-Moves task true q w r = omega (
  arith,
  drop_pending_frames-Moves q w r,
  queue_held-append r (drop_pending_frames q w).0 (task ∷ []),
)
enqueue-Moves task false q w r = omega (arith, queue_held-append r q (task ∷ []))

pub writeback_frame-Moves :
    (info : Frame) (q : List Task) (w : World)
    → Leaves
        (writeback_frame info q w)
        (λ q' w'. Moves w (λ r. queue_held q r + frame_held info r) w' (queue_held q'))
unfolding writeback_frame
writeback_frame-Moves info q w =
    Leaves-if (leb max_pending_frames (length q)) _ _ w
      (λ q' w'. Moves w (λ r. queue_held q r + frame_held info r) w' (queue_held q'))
      (λ _ r. omega (arith, release_wb_frame-Moves info w r))
      (λ _ r. omega (arith, queue_held-append r q (frame_task info ∷ [])))

neg_fence : (z : ℤ) (r : Resource) → is_neg z ≡ true → fence_held z r ≡ 0
neg_fence (pos n) r e = cc
neg_fence (negsuc n) r e = refl

pub neg_slot : (z : ℤ) (r : Resource) → is_neg z ≡ true → slot_held z r ≡ 0
neg_slot (pos n) r e = cc
neg_slot (negsuc n) r e = refl

pub tap_held : (info : Frame) (r : Resource) → IsTap info → frame_held info r ≡ 0
tap_held info r (f, i) = omega (arith, neg_fence info.fence_fd r f, neg_slot info.wb_index r i)

if_held_eq :
    (r : Resource) (b : Bool) (q p : List Task)
    → queue_held p r ≡ queue_held q r
    → queue_held (if b then q else p) r ≡ queue_held q r
if_held_eq r true q p e = refl
if_held_eq r false q p e = e

pub frame-held :
    (info : Frame) (q : List Task) (r : Resource)
    → IsTap info
    → queue_held (frame info q) r ≡ queue_held q r
unfolding frame
frame-held info q r t =
    if_held_eq r (leb max_pending_frames (length q)) q _
      (omega (arith, queue_held-append r q (frame_task info ∷ []), tap_held info r t))
