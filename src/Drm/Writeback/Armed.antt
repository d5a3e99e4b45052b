-- ===== src/Drm/Writeback/Armed.antt =====
-- What `modeset_arm_writeback` (src/drm.c) adds to a request.
use pixel_pilot_rk.Common.{
  ℕ, ◌≡◌, ◌⊎◌, inl, inr, refl, ℤ, pos, negsuc, Bool, true, false, not, List, ◌++◌, if◌then◌else◌,
}
use pixel_pilot_rk.Drm.Kernel.{Kernel, World, Request, Item}
use pixel_pilot_rk.Drm.Kernel.Monad.{Returns, Returns-mono, pure}
use pixel_pilot_rk.Drm.State.{Output}
use pixel_pilot_rk.Drm.Commit.{set_all}
use pixel_pilot_rk.Drm.Commit.Prepared.{IsRead, Resolved, set_all-SetAll}
use pixel_pilot_rk.Drm.Writeback.{arm_writeback, capture_settings}

-- A connector that is not enabled is never armed. An enabled one gets both properties of the capture, or
-- the result is -1.
abbrev pub Arms : Output → ℕ → ℕ → Request → ℤ × Request → Type 0
Arms out wb_fb fence_ptr req (c, req') =
    ((out.wb_enabled ≡ false) × (c ≡ negsuc 0) × (req' ≡ req))
    ⊎ ((out.wb_enabled ≡ true)
        × ((c ≡ negsuc 0)
            ⊎ ((c ≡ pos 0)
                × ((is : List Item) × (req' ≡ req ++ is)
                    × Resolved (capture_settings out wb_fb fence_ptr) is))))

arm-cases :
    (k : Kernel) (out : Output) (req : Request) (wb_fb fence_ptr : ℕ) (w : World) (b : Bool)
    → out.wb_enabled ≡ b
    → IsRead out.wb_connector
    → Returns
        ((if not b
            then pure (negsuc 0, req)
            else set_all k (capture_settings out wb_fb fence_ptr) req)
          w)
        (λ r w'. (w' ≡ w) × Arms out wb_fb fence_ptr req r)
arm-cases k out req wb_fb fence_ptr w false e r = (refl, inl (e, refl, refl))
arm-cases k out req wb_fb fence_ptr w true e r =
    Returns-mono (set_all k (capture_settings out wb_fb fence_ptr) req w) _ _
      (set_all-SetAll k (capture_settings out wb_fb fence_ptr) req w (r, (r, tt)))
      λ (c, req') v (same, h).
        (same, elim h [ inl (z, _, _) ↦ inr (e, inl z) | inr (z, f) ↦ inr (e, inr (z, f)) ])

-- `modeset_arm_writeback` commits nothing. It returns -1 and leaves the request alone if the connector
-- is not enabled; if it is, it returns 0 only with the capture's framebuffer and fence both added to
-- the request, in that order, and else -1.
pub arm_writeback-Arms :
    (k : Kernel) (out : Output) (req : Request) (wb_fb fence_ptr : ℕ) (w : World)
    → IsRead out.wb_connector
    → Returns
        (arm_writeback k out req wb_fb fence_ptr w)
        (λ r w'. (w' ≡ w) × Arms out wb_fb fence_ptr req r)
unfolding arm_writeback
arm_writeback-Arms k out req wb_fb fence_ptr w r =
    arm-cases k out req wb_fb fence_ptr w out.wb_enabled refl r
