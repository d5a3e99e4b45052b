-- ===== src/Encoder/Capture.antt =====
-- The writeback capture of the display thread (src/main.cpp): it reserves a slot of the pool, arms it,
-- commits, and hands the frame to the encoder. `modeset_arm_writeback` (Drm/Writeback) and the commit
-- are calls of the kernel, and are parameters here, as are the pool's flags, which all threads store.
pub mod Balanced
use pixel_pilot_rk.Common.{
  ℕ, ◌+◌, ℤ, pos, negsuc, Bool, true, false, not, ◌&&◌, Option, none, some, List, [], ◌∷◌, leb,
  if◌then◌else◌,
}
use pixel_pilot_rk.Encoder.Calls.{
  Calls, World, M, pure, ◌>>=◌, ◌>>◌, ask, note, acquire, release, slot, fence,
}
use pixel_pilot_rk.Encoder.Queue.{Frame, close_fence, writeback_frame}
use pixel_pilot_rk.Encoder.Stream.{load_wants_frames}
use pixel_pilot_rk.Encoder.Loop.{
  System, Step, commanding, sizing, restarting, shutting, turn, with_queue, step,
}

-- The display's side: the flag of a slot before `compare_exchange_strong`, whether the request could be
-- armed, what the commit answers, with the out fence, and the buffers of the pool.
pub record Screen : Type 0 where
  pub wb_busy : World → ℕ → Bool
  pub arm : World → ℕ → Bool
  pub commit : World → Bool × ℤ
  pub prime_fd : ℕ → ℕ
  pub size : ℕ → ℕ

-- `dvr_wb_mode`, `wb_commit_fails`, and whether `dvr->disable` was called.
pub record Capturing : Type 0 where
  pub dvr_wb_mode : Bool
  pub wb_commit_fails : ℕ
  pub dvr_disabled : Bool

abbrev pub max_commit_fails : ℕ
max_commit_fails = 3

abbrev pub slots : List ℕ
slots = 0 ∷ 1 ∷ 2 ∷ 3 ∷ 4 ∷ 5 ∷ []

abbrev pub captured_frame : Screen → ℕ → ℕ → ℤ → Frame
captured_frame d pts index out_fence = record {
  prime_fd = d.prime_fd index;
  hor_stride = 0;
  ver_stride = 0;
  width = 0;
  height = 0;
  buf_size = d.size index;
  pts = pts;
  fence_fd = out_fence;
  wb_index = pos index;
}

-- What happens next: the display shows a frame or nothing new, or a step of the encoder's threads.
pub data Act : Type 0 where
  shown : ℕ → Bool → Act
  threads : Step → Act

module _ (io : Calls) (d : Screen) where
  -- The loop over the pool.
  pub reserve : List ℕ → M (Option ℕ)
  reserve [] = pure none
  reserve (i ∷ rest) = do
    busy ← ask (λ w. d.wb_busy w i)
    (if busy then reserve rest else (do note (acquire (slot i)); pure (some i)))

  pub arm_slot : Option ℕ → M (Option ℕ)
  arm_slot none = pure none
  arm_slot (some i) = do
    armed ← ask (λ w. d.arm w i)
    (if not armed then (do note (release (slot i)); pure none) else pure (some i))

  -- The out fence that a commit with a capture makes.
  abbrev pub take_fence : ℤ → M (Unit {0})
  take_fence (pos fd) = note (acquire (fence fd))
  take_fence (negsuc n) = pure tt

  abbrev pub failed_commit : Capturing → Capturing
  failed_commit s =
      if leb max_commit_fails (s.wb_commit_fails + 1)
      then record {
        dvr_wb_mode = false;
        wb_commit_fails = s.wb_commit_fails + 1;
        dvr_disabled = true;
      }
      else record s { wb_commit_fails = s.wb_commit_fails + 1 }

  -- Behind the commit of a request with the capture of slot `i`.
  pub hand_over : ℕ → ℕ → Bool → ℤ → Capturing → System → M (Capturing × System)
  hand_over pts i done out_fence s y = do
    take_fence out_fence
    (if done
        then (do
          y' ← with_queue y (writeback_frame (captured_frame d pts i out_fence) y.queue)
          pure (record s { wb_commit_fails = 0 }, y'))
        else (do close_fence out_fence; note (release (slot i)); pure (failed_commit s, y)))

  pub commit_slot : ℕ → Option ℕ → Capturing → System → M (Capturing × System)
  commit_slot pts none s y = pure (s, y)
  commit_slot pts (some i) s y = do
    (done, out_fence) ← ask d.commit
    hand_over pts i done out_fence s y

  -- `want_capture`, with whether there is a frame to show.
  pub capture : ℕ → Bool → Capturing → System → M (Capturing × System)
  capture pts has_frame s y = do
    wanted ← load_wants_frames io y.venc
    (if s.dvr_wb_mode && wanted && has_frame
        then (do reserved ← reserve slots; armed ← arm_slot reserved; commit_slot pts armed s y)
        else pure (s, y))

  pub act : Act → Capturing → System → M (Capturing × System)
  act (shown pts has_frame) s y = capture pts has_frame s y
  act (threads a) s y = do y' ← step io a y; pure (s, y')

  pub pipeline : List Act → Capturing → System → M (Capturing × System)
  pipeline [] s y = pure (s, y)
  pipeline (a ∷ rest) s y = do (s', y') ← act a s y; pipeline rest s' y'
