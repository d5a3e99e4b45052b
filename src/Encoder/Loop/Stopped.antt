-- ===== src/Encoder/Loop/Stopped.antt =====
-- What is left when the thread of `VideoEncoder` (src/encoder/video_encoder.cpp) was shut down.
use pixel_pilot_rk.Common.{ℕ, ◌+◌, ◌≡◌, ◌<◌, refl, true, false, List, [], ◌∷◌, length, arith, All}
use pixel_pilot_rk.Encoder.Calls.{Calls, World, Leaves, Resource}
use pixel_pilot_rk.Encoder.Calls.Ledger.{Moves}
use pixel_pilot_rk.Encoder.Queue.Held.{queue_held}
use pixel_pilot_rk.Encoder.Stream.{
  VideoEncoder, RecordingMode, video_only, video_with_osd_writeback, new_tap, new_writeback,
}
use pixel_pilot_rk.Encoder.Stream.Held.{held}
use pixel_pilot_rk.Encoder.Loop.{System, Step, shutting, run}
use pixel_pilot_rk.Encoder.Loop.Owned.{IsSound, StepFits, system_held, arrivals, run-Stepped}
use pixel_pilot_rk.Encoder.Loop.Ended.{turns, run-shutdown}

-- A thread that starts.
abbrev pub begun : VideoEncoder → System
begun s = record { queue = []; venc = s; ended = false }

pub new_tap-IsSound :
    (fps bitrate width height : ℕ) → IsSound video_only (begun (new_tap fps bitrate width height))
unfolding new_tap
new_tap-IsSound fps bitrate width height = record {
  same_mode = refl;
  good = (omega arith, omega arith);
  fitting = tt;
  closed = λ e. cc;
}

pub new_writeback-IsSound :
    (fps bitrate width height hor_stride ver_stride : ℕ)
    → IsSound video_with_osd_writeback
        (begun (new_writeback fps bitrate width height hor_stride ver_stride))
unfolding new_writeback
new_writeback-IsSound fps bitrate width height hor_stride ver_stride = record {
  same_mode = refl;
  good = (omega arith, omega arith);
  fitting = tt;
  closed = λ e. cc;
}

-- Behind `shutdown`, once the thread has had more turns than there were tasks in the queue, and whatever
-- the other threads do meanwhile, it has ended and the encoder holds nothing: all slots, fences and
-- buffers that were there or came, each context and each configuration, were given back exactly once,
-- but those of the frames that are still in the queue.
pub run-Stopped :
    (io : Calls) (mode : RecordingMode) (steps : List Step) (y : System) (w : World)
    → All (StepFits mode) steps
    → IsSound mode y
    → length y.queue < turns steps
    → Leaves (run io (shutting ∷ steps) y w) (λ y' w'.
      (y'.ended ≡ true)
      × ((r : Resource) → held y'.venc r ≡ 0)
      × Moves w (λ r. system_held y r + arrivals steps r) w' (queue_held y'.queue))
run-Stopped io mode steps y w f h l =
    let over = run-shutdown io steps y w l in
    let (sound, g) = run-Stepped io mode (shutting ∷ steps) y w (tt, f) h in
    (over, sound.closed over, λ r. omega (arith, g r, sound.closed over r))
