-- ===== src/Drm/Pool.antt =====
-- The pool of capture buffers (src/main.cpp: `setup_writeback`, `free_wb_bufs`, `cleanup_writeback`): the
-- writeback connector is found, the buffers are made, the connector is attached and the kernel is asked
-- whether it takes a capture.
pub mod Freed
pub mod Held
pub mod Settled
pub mod Cleaned
use pixel_pilot_rk.Common.{ℕ, Bool, true, false, is_zero, List, [], ◌∷◌, ◌++◌, if◌then◌else◌}
use pixel_pilot_rk.Drm.Modes.{ModeInfo}
use pixel_pilot_rk.Drm.Kernel.{Kernel}
use pixel_pilot_rk.Drm.Kernel.Monad.{M, pure, ◌>>=◌}
use pixel_pilot_rk.Drm.Buffers.{Buf, create_wb_fb, destroy_wb_fb}
use pixel_pilot_rk.Drm.State.{Output}
use pixel_pilot_rk.Drm.Fit.{Ratio}
use pixel_pilot_rk.Drm.Writeback.{
  find_writeback, attach_writeback, check_writeback, detach_writeback,
}

-- `wb_bufs[i]` and `wb_busy[i]`.
pub record Slot : Type 0 where
  pub buf : Buf
  pub busy : Bool

-- The pool, `wb_bufs_ready` and `*output_list`.
pub record Pool : Type 0 where
  pub slots : List Slot
  pub ready : Bool
  pub output : Output

abbrev pub of_mode : ModeInfo → Buf → Buf
of_mode mode buf = record buf { width = mode.hdisplay; height = mode.vdisplay }

abbrev pub left_with : Output → List Slot → Pool → Pool
left_with out slots p = record p { slots = slots; output = out }

-- `wb_bufs[0].fb`
abbrev pub first_fb : List Slot → ℕ
first_fb [] = 0
first_fb (s ∷ _) = s.buf.fb

-- Of the slots below the count.
pub free_wb_bufs : List Slot → M (List Slot)
free_wb_bufs [] = pure []
free_wb_bufs (s ∷ rest) = do
  b ← destroy_wb_fb s.buf
  rest' ← free_wb_bufs rest
  pure (record s { buf = b } ∷ rest')

module _ (k : Kernel) where
  -- The loop; the slots before `i` come first. A buffer that cannot be made ends it, and those before
  -- it are freed.
  pub create_bufs : ModeInfo → List Slot → List Slot → M (Bool × List Slot)
  create_bufs mode made [] = pure (true, made)
  create_bufs mode made (s ∷ rest) = do
    (ret, b) ← create_wb_fb k (of_mode mode s.buf)
    if is_zero ret
        then create_bufs mode (made ++ record { buf = b; busy = false } ∷ []) rest
        else (do freed ← free_wb_bufs made; pure (false, freed ++ record s { buf = b } ∷ rest))

  module _ (round : Ratio → Ratio) (stretch : Bool) (fence_ptr : ℕ) where
    -- Behind an attachment.
    pub check_pool : Output → List Slot → Pool → M (Bool × Pool)
    check_pool out slots p = do
      ret ← check_writeback k out (first_fb slots) fence_ptr
      if is_zero ret then pure (true, record { slots = slots; ready = true; output = out }) else (do
        out' ← detach_writeback k out
        freed ← free_wb_bufs slots
        pure (false, left_with out' freed p))

    -- Behind the buffers.
    pub attach_pool : Output → List Slot → Pool → M (Bool × Pool)
    unfolding check_pool
    attach_pool out slots p = do
      (ret, out') ← attach_writeback k round out stretch
      if is_zero ret
          then check_pool out' slots p
          else (do freed ← free_wb_bufs slots; pure (false, left_with out' freed p))

    -- Behind a connector that was found.
    pub create_pool : Output → Pool → M (Bool × Pool)
    unfolding create_bufs attach_pool
    create_pool out p = do
      (made, slots) ← create_bufs out.mode [] p.slots
      if made then attach_pool out slots p else pure (false, left_with out slots p)

    -- `stretch` is `stretch_video`.
    pub setup_writeback : Pool → M (Bool × Pool)
    unfolding create_pool
    setup_writeback p = do
      (ret, out) ← find_writeback k p.output
      if is_zero ret then create_pool out p else pure (false, record p { output = out })

  pub cleanup_writeback : Pool → M Pool
  unfolding free_wb_bufs
  cleanup_writeback p =
      if p.ready
      then (do
        out ← detach_writeback k p.output
        freed ← free_wb_bufs p.slots
        pure (record { slots = freed; ready = false; output = out }))
      else pure p
