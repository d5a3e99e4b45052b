-- ===== src/Drm/Buffers.antt =====
-- The dumb buffers of src/drm.c: `modeset_create_fb` and `modeset_destroy_fb` for the OSD,
-- `modeset_create_wb_fb` and `modeset_destroy_wb_fb` for the writeback capture.
pub mod Balance
pub mod Capture
use pixel_pilot_rk.Common.{
  ℕ, zero, suc, ◌+◌, ◌-◌, ◌*◌, ◌/◌, ◌%◌, ◌^◌, ℤ, pos, negsuc, is_neg, List, [], ◌∷◌, if◌then◌else◌,
  ◌==◌,
}
use pixel_pilot_rk.Drm.Kernel.{
  Kernel, Reply, ok, fail, Dumb, FrameRequest, file, dumb, frame, mapping,
}
use pixel_pilot_rk.Drm.Kernel.Monad.{M, pure, ◌>>=◌, ◌>>◌, give_back, ask, ask_for}

-- `uint8_t *map`: NULL, MAP_FAILED, or an address.
pub data Pointer : Type 0 where
  null failed : Pointer
  at : ℕ → Pointer

-- `struct modeset_buf`.
pub record Buf : Type 0 where
  pub width : ℕ
  pub height : ℕ
  pub stride : ℕ
  pub size : ℕ
  pub handle : ℕ
  pub map : Pointer
  pub prime_fd : ℤ
  pub fb : ℕ

-- DRM_FORMAT_ARGB8888 and DRM_FORMAT_NV12, the fourcc codes "AR24" and "NV12".
abbrev pub format_argb8888 : ℕ
format_argb8888 = 0x34325241

abbrev pub format_nv12 : ℕ
format_nv12 = 0x3231564e

-- `munmap`; at NULL and at MAP_FAILED there is no mapping to give back.
pub unmap : Pointer → ℕ → M (Unit {0})
unmap null size = pure tt
unmap failed size = pure tt
unmap (at a) size = give_back (mapping a size)

-- `if (buf->prime_fd >= 0) { close(buf->prime_fd); buf->prime_fd = -1; }`
close_prime : ℤ → M ℤ
close_prime (pos fd) = do give_back (file fd); pure (negsuc 0)
close_prime (negsuc n) = pure (negsuc n)

-- The labels that the error paths jump to. The result is the error and the buffer as it is left.
pub err_destroy : Buf → ℤ → M (ℤ × Buf)
err_destroy buf ret = do give_back (dumb buf.handle); pure (ret, buf)

pub err_fb : Buf → ℤ → M (ℤ × Buf)
unfolding err_destroy
err_fb buf ret = do give_back (frame buf.fb); err_destroy buf ret

pub err_unmap : Buf → ℤ → M (ℤ × Buf)
unfolding unmap err_fb
err_unmap buf ret = do unmap buf.map buf.size; err_fb (record buf { map = null }) ret

-- What the ioctl answers; `buf->size = creq.size` cuts 64 bits to 32.
abbrev pub with_dumb : Buf → Dumb → Buf
with_dumb buf d = record buf { stride = d.pitch; size = d.size % 2 ^ 32; handle = d.handle }

-- `(buf->height + 15) & ~15u`
pub ver : Buf → ℕ
ver buf = (buf.height + 15) % 2 ^ 32 / 16 * 16

-- `creq.height = ver * 3 / 2`
pub wb_rows : Buf → ℕ
unfolding ver
wb_rows buf = ver buf * 3 % 2 ^ 32 / 2

pub osd_frame : Buf → FrameRequest
osd_frame buf = record {
  width = buf.width;
  height = buf.height;
  format = format_argb8888;
  handles = buf.handle ∷ 0 ∷ 0 ∷ 0 ∷ [];
  pitches = buf.stride ∷ 0 ∷ 0 ∷ 0 ∷ [];
  offsets = 0 ∷ 0 ∷ 0 ∷ 0 ∷ [];
}

pub wb_frame : Buf → FrameRequest
unfolding ver
wb_frame buf = record {
  width = buf.width;
  height = buf.height;
  format = format_nv12;
  handles = buf.handle ∷ buf.handle ∷ 0 ∷ 0 ∷ [];
  pitches = buf.stride ∷ buf.stride ∷ 0 ∷ 0 ∷ [];
  offsets = 0 ∷ (buf.stride * ver buf % 2 ^ 32) ∷ 0 ∷ 0 ∷ [];
}

module _ (k : Kernel) where
  -- `drmPrimeHandleToFD`, the last step of `modeset_create_fb`; then the buffer is cleared.
  create_fb_prime : Buf → M (ℤ × Buf)
  unfolding err_unmap
  create_fb_prime buf = do
    r ← ask_for (λ w. k.prime_handle_to_fd w buf.handle) file
    elim r [
      | ok fd ↦ pure (pos 0, record buf { prime_fd = pos fd })
      | fail e ↦ err_unmap buf (negsuc e)
    ]

  create_fb_mmap : Buf → ℕ → M (ℤ × Buf)
  unfolding create_fb_prime err_fb
  create_fb_mmap buf offset = do
    r ← ask_for (λ w. k.mmap w buf.size offset) (λ a. mapping a buf.size)
    elim r [
      | ok a ↦ create_fb_prime (record buf { map = at a })
      | fail e ↦ err_fb (record buf { map = failed }) (negsuc e)
    ]

  create_fb_map : Buf → M (ℤ × Buf)
  unfolding create_fb_mmap err_fb
  create_fb_map buf = do
    r ← ask (λ w. k.map_dumb w buf.handle)
    elim r [ ok offset ↦ create_fb_mmap buf offset | fail e ↦ err_fb buf (negsuc e) ]

  create_fb_add : Buf → M (ℤ × Buf)
  unfolding create_fb_map err_destroy
  create_fb_add buf = do
    r ← ask_for (λ w. k.add_fb w (osd_frame buf)) frame
    elim r [ ok fb ↦ create_fb_map (record buf { fb = fb }) | fail e ↦ err_destroy buf (negsuc e) ]

  -- The result code and `*buf` after the call.
  unfoldable pub create_fb : Buf → M (ℤ × Buf)
  unfolding create_fb_add
  create_fb buf = do
    r ← ask_for (λ w. k.create_dumb w buf.width buf.height 32) (λ d. dumb d.handle)
    elim r [
      | ok d ↦ create_fb_add (with_dumb (record buf { prime_fd = negsuc 0 }) d)
      | fail e ↦ pure (negsuc e, record buf { prime_fd = negsuc 0 })
    ]

  create_wb_fb_prime : Buf → M (ℤ × Buf)
  unfolding err_fb
  create_wb_fb_prime buf = do
    r ← ask_for (λ w. k.prime_handle_to_fd w buf.handle) file
    elim r [
      | ok fd ↦ pure (pos 0, record buf { prime_fd = pos fd })
      | fail e ↦ err_fb buf (negsuc e)
    ]

  create_wb_fb_add : Buf → M (ℤ × Buf)
  unfolding create_wb_fb_prime err_destroy
  create_wb_fb_add buf = do
    r ← ask_for (λ w. k.add_fb w (wb_frame buf)) frame
    elim r [
      | ok fb ↦ create_wb_fb_prime (record buf { fb = fb })
      | fail e ↦ err_destroy buf (negsuc e)
    ]

  -- The dumb buffer has `wb_rows` rows at 8 bits per pixel.
  pub create_wb_fb : Buf → M (ℤ × Buf)
  unfolding create_wb_fb_add
  create_wb_fb buf = do
    r ← ask_for (λ w. k.create_dumb w buf.width (wb_rows buf) 8) (λ d. dumb d.handle)
    elim r [
      | ok d ↦ create_wb_fb_add (with_dumb (record buf { prime_fd = negsuc 0; map = null }) d)
      | fail e ↦ pure (negsuc e, record buf { prime_fd = negsuc 0; map = null })
    ]

pub destroy_fb : Buf → M Buf
unfolding close_prime unmap
destroy_fb buf = do
  fd ← close_prime buf.prime_fd
  unmap buf.map buf.size
  give_back (frame buf.fb)
  give_back (dumb buf.handle)
  pure (record buf { prime_fd = fd })

give_back_if : ℕ → (ℕ → M (Unit {0})) → M (Unit {0})
give_back_if zero f = pure tt
give_back_if (suc n) f = f (suc n)

-- A framebuffer id or a handle of 0 is no framebuffer and no handle.
pub destroy_wb_fb : Buf → M Buf
unfolding close_prime give_back_if
destroy_wb_fb buf = do
  fd ← close_prime buf.prime_fd
  give_back_if buf.fb (λ n. give_back (frame n))
  give_back_if buf.handle (λ n. give_back (dumb n))
  pure (record buf { prime_fd = fd })
