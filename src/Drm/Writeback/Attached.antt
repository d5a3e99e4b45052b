-- ===== src/Drm/Writeback/Attached.antt =====
-- What `modeset_attach_writeback` (src/drm.c) leaves behind.
use pixel_pilot_rk.Common.{
  ◌≡◌, ◌⊎◌, inl, inr, refl, ℤ, pos, is_neg, Bool, true, false, not, List, [], ◌∷◌, if◌then◌else◌,
  arith,
}
use pixel_pilot_rk.Drm.Kernel.{Kernel, World, Request, Item, acquire, release, committed, request}
use pixel_pilot_rk.Drm.Kernel.Monad.{Returns, Returns-and_then, Returns-mono, pure, allocate-null}
use pixel_pilot_rk.Drm.Kernel.Ledger.{Same, Same-refl}
use pixel_pilot_rk.Drm.Properties.{get_property_value}
use pixel_pilot_rk.Drm.Properties.Balance.{Describes}
use pixel_pilot_rk.Drm.State.{Output}
use pixel_pilot_rk.Drm.Fit.{Ratio}
use pixel_pilot_rk.Drm.Commit.{settings, perform_modeset, flags_test_modeset, flags_allow_modeset}
use pixel_pilot_rk.Drm.Commit.Prepared.{IsRead, Resolved}
use pixel_pilot_rk.Drm.Commit.Performed.{Performs, perform_modeset-Performs}
use pixel_pilot_rk.Drm.Writeback.{
  enodev, enabled, osd_request, attached, attach, attach_writeback, alloc_request,
}
use pixel_pilot_rk.Drm.Writeback.Found.{value-Same}

-- The properties of the objects that the attaching modeset sets were read.
pub record Ready (out : Output) : Type 0 where
  pub connector : IsRead out.connector
  pub crtc : IsRead out.crtc
  pub osd_plane : IsRead out.osd_plane
  pub wb_connector : IsRead out.wb_connector

-- The kernel has just accepted a modeset of the OSD's first buffer with the writeback connector routed
-- to the CRTC, as a test and then for good.
abbrev pub Routed : (Ratio → Ratio) → Output → Bool → World → Type 0
Routed round out stretch w' =
    (zpos : ℤ) × (is : List Item) × (v : World) × Resolved
      (settings round (enabled out true) (osd_request out zpos stretch)) is
    × (w'
        ≡ release request ∷ committed flags_allow_modeset is ∷ committed flags_test_modeset is ∷ v)

-- Enabled exactly if the modeset was done.
abbrev pub AttachedOrNot : (Ratio → Ratio) → Output → Bool → World → ℤ × Output → World → Type 0
AttachedOrNot round out stretch w (c, o) w' =
    Same w w'
    × (((is_neg c ≡ true) × (o ≡ enabled out false))
        ⊎ ((c ≡ pos 0) × (o ≡ enabled out true) × Routed round out stretch w'))

-- An unavailable connector is refused, an enabled one is left alone, and any other is attached.
abbrev pub AttachOutcome : (Ratio → Ratio) → Output → Bool → World → ℤ × Output → World → Type 0
AttachOutcome round out stretch w r w' =
    ((out.wb_available ≡ false) × (r ≡ (enodev, out)) × (w' ≡ w))
    ⊎ ((out.wb_available ≡ true) × (out.wb_enabled ≡ true) × (r ≡ (pos 0, out)) × (w' ≡ w))
    ⊎ ((out.wb_available ≡ true)
        × (out.wb_enabled ≡ false)
        × AttachedOrNot round out stretch w r w')

after_modeset :
    (round : Ratio → Ratio) (out : Output) (stretch : Bool) (w v : World) (zpos c : ℤ)
    (req : Request) (u : World)
    → Same (acquire request ∷ w) v
    → Performs (settings round (enabled out true) (osd_request out zpos stretch)) [] v (c, req) u
    → AttachedOrNot round out stretch w (attached out c) (release request ∷ u)
after_modeset round out stretch w v zpos c req u s (inl (n, inl e)) =
    rw n ((λ r. rw e (omega (arith, s r))), inl (n, refl))
after_modeset round out stretch w v zpos c req u s (inl (n, inr e)) =
    rw n ((λ r. rw e (omega (arith, s r))), inl (n, refl))
after_modeset round out stretch w v zpos c req u s (inr (z, (is, e, f), h)) =
    rw z ((λ r. rw h (omega (arith, s r))), inr (refl, refl, (zpos, is, v, f, rw (h, e))))

attach-AttachedOrNot :
    (k : Kernel) (round : Ratio → Ratio) (out : Output) (stretch : Bool) (w : World)
    → Describes k
    → Ready out
    → Returns (attach k round out stretch w) (AttachedOrNot round out stretch w)
unfolding attach
attach-AttachedOrNot k round out stretch w d ready =
    allocate-null _ w _ _ _ (alloc_request k w) (λ _. (Same-refl w, inl (refl, refl)))
      λ _ _.
        Returns-and_then (get_property_value k out.osd_plane.props "zpos" _) _ _ _
          (value-Same k d out.osd_plane.props "zpos" _ ready.osd_plane.0)
          λ zpos v s.
            Returns-and_then
              (perform_modeset k round (enabled out true) (osd_request out zpos stretch) [] v) _ _ _
              (perform_modeset-Performs k round (enabled out true) (osd_request out zpos stretch) []
                v
                (record {
                  connector = ready.connector;
                  crtc = ready.crtc;
                  plane = ready.osd_plane;
                  writeback = λ _. ready.wb_connector;
                }))
              λ (c, req) u p. after_modeset round out stretch w v zpos c req u s p

attach_writeback-cases :
    (k : Kernel) (round : Ratio → Ratio) (out : Output) (stretch : Bool) (w : World) (a b : Bool)
    → out.wb_available ≡ a
    → out.wb_enabled ≡ b
    → Describes k
    → Ready out
    → Returns
        ((if not a
            then pure (enodev, out)
            else if b
            then pure (pos 0, out)
            else attach k round out stretch)
          w)
        (AttachOutcome round out stretch w)
attach_writeback-cases k round out stretch w false b e e' d r = inl (e, refl, refl)
attach_writeback-cases k round out stretch w true true e e' d r = inr (inl (e, e', refl, refl))
attach_writeback-cases k round out stretch w true false e e' d r =
    Returns-mono (attach k round out stretch w) _ _ (attach-AttachedOrNot k round out stretch w d r)
      (λ q v h. inr (inr (e, e', h)))

-- `modeset_attach_writeback` refuses with -ENODEV if no connector is available, and does nothing if it
-- is enabled. Otherwise the connector ends up enabled exactly if the result is 0, and then the kernel
-- has accepted a modeset that routes the connector to the CRTC; a failure is a negative result and
-- leaves it not enabled. All that was taken is given back.
pub attach_writeback-AttachOutcome :
    (k : Kernel) (round : Ratio → Ratio) (out : Output) (stretch : Bool) (w : World)
    → Describes k
    → Ready out
    → Returns (attach_writeback k round out stretch w) (AttachOutcome round out stretch w)
unfolding attach_writeback
attach_writeback-AttachOutcome k round out stretch w d ready =
    attach_writeback-cases k round out stretch w out.wb_available out.wb_enabled refl refl d ready
