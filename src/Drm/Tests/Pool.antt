-- ===== src/Drm/Tests/Pool.antt =====
-- The theorems on the pool of capture buffers (src/main.cpp) at concrete inputs.
use pixel_pilot_rk.Common.{◌≡◌, refl, true, false, [], ◌∷◌, negsuc}
use pixel_pilot_rk.Drm.Kernel.Monad.{Returns}
use pixel_pilot_rk.Drm.Buffers.{null}
use pixel_pilot_rk.Drm.Writeback.Found.{Tried}
use pixel_pilot_rk.Drm.Pool.{Slot, Pool, setup_writeback, cleanup_writeback}
use pixel_pilot_rk.Drm.Pool.Settled.{IsShown, SetUp, setup_writeback-SetUp}
use pixel_pilot_rk.Drm.Pool.Cleaned.{setup_writeback-cleanup_writeback}
use pixel_pilot_rk.Drm.Tests.{
  sample_kernel, sample_kernel-Describes, sample_object-IsRead, sample_output,
}
use pixel_pilot_rk.Drm.Tests.Buffers.{sample_kernel-NumbersFromOne}

abbrev zero_slot : Slot
zero_slot = record {
  buf = record {
    width = 0;
    height = 0;
    stride = 0;
    size = 0;
    handle = 0;
    map = null;
    prime_fd = negsuc 0;
    fb = 0;
  };
  busy = true;
}

abbrev sample_pool : Pool
sample_pool = record {
  slots = zero_slot ∷ zero_slot ∷ zero_slot ∷ zero_slot ∷ zero_slot ∷ zero_slot ∷ [];
  ready = false;
  output = sample_output;
}

sample-IsShown : IsShown sample_output
sample-IsShown = record {
  connector = sample_object-IsRead 60;
  crtc = sample_object-IsRead 41;
  osd_plane = sample_object-IsRead 32;
}

setup_writeback-SetUp_example :
    Returns
      (setup_writeback sample_kernel (λ x. x) false 65536 sample_pool [])
      (SetUp (λ x. x) false 65536 [] sample_pool)
setup_writeback-SetUp_example =
    setup_writeback-SetUp sample_kernel (λ x. x) false 65536 sample_pool [] sample_kernel-Describes
      sample_kernel-NumbersFromOne sample-IsShown

setup_writeback-cleanup_writeback_example :
    Returns (setup_writeback sample_kernel (λ x. x) false 65536 sample_pool []) (λ (done, q) v.
      Returns
        (cleanup_writeback sample_kernel q v)
        (λ p' u. (p'.ready ≡ false) × Tried [] p'.output u))
setup_writeback-cleanup_writeback_example =
    setup_writeback-cleanup_writeback sample_kernel (λ x. x) false 65536 sample_pool []
      sample_kernel-Describes sample_kernel-NumbersFromOne sample-IsShown refl
