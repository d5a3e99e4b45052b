-- ===== src/Drm/Output/Framebuffers.antt =====
-- What `modeset_setup_framebuffers` (src/drm.c) holds when it returns.
use pixel_pilot_rk.Common.{
  ◌≡◌, ◌⊎◌, inl, inr, refl, ℤ, pos, negsuc, is_neg, is_zero, true, false, ◌++◌, arith,
  if◌then◌else◌,
}
use pixel_pilot_rk.Drm.Kernel.{Kernel, World}
use pixel_pilot_rk.Drm.Kernel.Monad.{Returns, Returns-and_then, pure}
use pixel_pilot_rk.Drm.Kernel.Ledger.{Gains, Same, tally-append}
use pixel_pilot_rk.Drm.Buffers.{Buf, create_fb}
use pixel_pilot_rk.Drm.Buffers.Balance.{owned, Created, create_fb-Created}
use pixel_pilot_rk.Drm.State.{Output}
use pixel_pilot_rk.Drm.Output.{sized, second_framebuffer, setup_framebuffers}

-- Success holds both buffers, and the video area is the whole mode. A failure holds nothing, or the
-- first buffer.
abbrev pub SetupFramebuffers : Output → World → ℤ × Output → World → Type 0
SetupFramebuffers out w (c, o) w' =
    ((c ≡ pos 0)
      × Gains w w' (owned o.osd_buf0 ++ owned o.osd_buf1)
      × (o.video_crtc_width ≡ out.mode.hdisplay)
      × (o.video_crtc_height ≡ out.mode.vdisplay))
    ⊎ ((is_neg c ≡ true) × (Same w w' ⊎ Gains w w' (owned o.osd_buf0)))

neg_nonzero : (c : ℤ) → is_neg c ≡ true → is_zero c ≡ false
neg_nonzero (pos n) h = absurd (cc)
neg_nonzero (negsuc n) h = refl

after_second :
    (out : Output) (start w : World) (r : ℤ × Buf) (v : World)
    → Gains start w (owned out.osd_buf0)
    → Created owned w r v
    → Returns
        ((if is_zero r.0
            then pure (
              pos 0,
              record out {
                osd_buf1 = r.1;
                video_crtc_width = out.mode.hdisplay;
                video_crtc_height = out.mode.vdisplay;
              },
            )
            else pure (r.0, record out { osd_buf1 = r.1 }))
          v)
        (SetupFramebuffers out start)
after_second out start w (c, b) v g (inl (e, h)) = rw e (
    inl (
      refl,
      (λ r. omega (arith, g r, h r, tally-append r (owned out.osd_buf0) (owned b))),
      refl,
      refl,
    ))
after_second out start w (c, b) v g (inr (n, h)) =
    rw (neg_nonzero c n) (inr (n, inr (λ r. omega (arith, g r, h r))))

second-Setup :
    (k : Kernel) (out : Output) (start w : World)
    → Gains start w (owned out.osd_buf0)
    → Returns (second_framebuffer k out w) (SetupFramebuffers out start)
unfolding second_framebuffer
second-Setup k out start w g =
    Returns-and_then (create_fb k (sized out out.osd_buf1) w) _ _ _
      (create_fb-Created k (sized out out.osd_buf1) w) (λ r v h. after_second out start w r v g h)

after_first :
    (k : Kernel) (out : Output) (w : World) (r : ℤ × Buf) (v : World)
    → Created owned w r v
    → Returns
        ((if is_zero r.0
            then second_framebuffer k (record out { osd_buf0 = r.1 })
            else pure (r.0, record out { osd_buf0 = r.1 }))
          v)
        (SetupFramebuffers out w)
after_first k out w (c, b) v (inl (e, h)) =
    rw e (second-Setup k (record out { osd_buf0 = b }) w v h)
after_first k out w (c, b) v (inr (n, h)) = rw (neg_nonzero c n) (inr (n, inl h))

-- `modeset_setup_framebuffers` returns 0 holding both buffers, with the video area as large as the
-- mode; or it returns a negative error number and holds what it held before, or that and the first
-- buffer.
pub setup_framebuffers-Setup :
    (k : Kernel) (out : Output) (w : World)
    → Returns (setup_framebuffers k out w) (SetupFramebuffers out w)
unfolding setup_framebuffers
setup_framebuffers-Setup k out w =
    Returns-and_then (create_fb k (sized out out.osd_buf0) w) _ _ _
      (create_fb-Created k (sized out out.osd_buf0) w) (λ r v h. after_first k out w r v h)
