-- ===== src/Drm/Tests/Buffers.antt =====
-- Runs of the buffer functions (src/drm.c), and their theorems at concrete inputs.
use pixel_pilot_rk.Common.{◌≡◌, refl, negsuc, some, [], ◌∷◌, arith}
use pixel_pilot_rk.Drm.Kernel.{acquire, release, dumb, frame}
use pixel_pilot_rk.Drm.Buffers.{null, failed, create_fb}
use pixel_pilot_rk.Drm.Buffers.Capture.{NumbersFromOne}
use pixel_pilot_rk.Drm.Tests.{sample_kernel, unmappable_kernel, sample_buf}

-- A buffer that cannot be mapped: the framebuffer and the handle are given back, newest first.
unmappable_run :
    create_fb unmappable_kernel (record sample_buf { map = null }) []
    ≡ some (
      (negsuc 11, record sample_buf { map = failed; prime_fd = negsuc 0; stride = 7680 }),
      release (dumb 11) ∷ release (frame 21) ∷ acquire (frame 21) ∷ acquire (dumb 11) ∷ [],
    )
unfolding create_fb
unmappable_run = refl

pub sample_kernel-NumbersFromOne : NumbersFromOne sample_kernel
sample_kernel-NumbersFromOne = record {
  fb_pos = λ w q n e. ground arith;
  handle_pos = λ w a b c d e. ground arith;
}
