-- ===== src/Drm/Writeback/Detached.antt =====
-- What `modeset_detach_writeback` (src/drm.c) leaves behind.
use pixel_pilot_rk.Common.{
  zero, suc, ◌≡◌, ◌⊎◌, inl, inr, refl, ℤ, pos, negsuc, Bool, true, false, not, [], ◌∷◌,
  if◌then◌else◌,
}
use pixel_pilot_rk.Drm.Kernel.{
  Kernel, World, Request, Reply, ok, fail, acquire, release, committed, request,
}
use pixel_pilot_rk.Drm.Kernel.Monad.{
  Returns, Returns-and_then, allocate-null, and_then, pure, ◌>>=◌, ◌>>◌, give_back,
}
use pixel_pilot_rk.Drm.Properties.{set_drm_object_property}
use pixel_pilot_rk.Drm.Properties.Lookup.{Sets, SetOutcome, set_drm_object_property-SetOutcome}
use pixel_pilot_rk.Drm.State.{Output}
use pixel_pilot_rk.Drm.Commit.{atomic_commit, commit_reply, flags_allow_modeset}
use pixel_pilot_rk.Drm.Commit.Prepared.{IsRead}
use pixel_pilot_rk.Drm.Writeback.{enabled, detach_commit, detach, detach_writeback, alloc_request}

-- Nothing happens; or a request is allocated and freed, and nothing is committed in between, or one
-- state that routes the connector to no CRTC.
abbrev pub Unrouted : Output → World → World → Type 0
Unrouted out w w' =
    (w' ≡ w)
    ⊎ (w' ≡ release request ∷ acquire request ∷ w)
    ⊎ ((req : Request) × Sets out.wb_connector "CRTC_ID" 0 [] req
        × (w' ≡ release request ∷ committed flags_allow_modeset req ∷ acquire request ∷ w))

abbrev pub Detached : Output → World → Output → World → Type 0
Detached out w o w' =
    ((out.wb_available ≡ false) × (o ≡ out) × (w' ≡ w))
    ⊎ ((out.wb_available ≡ true) × (o ≡ enabled out false) × Unrouted out w w')

module _ (out : Output) (w : World) where
  after_commit :
      (req : Request) (x : Reply (Unit {0}))
      → out.wb_available ≡ true
      → Sets out.wb_connector "CRTC_ID" 0 [] req
      → Returns
          (and_then
            (commit_reply flags_allow_modeset req (acquire request ∷ w) x)
            (λ _. give_back request >> pure (enabled out false)))
          (Detached out w)
  after_commit req (ok _) a s = inr (a, refl, inr (inr (req, s, refl)))
  after_commit req (fail e) a s = inr (a, refl, inr (inl refl))

  after_set :
      (k : Kernel) (r : ℤ × Request) (u : World)
      → out.wb_available ≡ true
      → u ≡ acquire request ∷ w
      → SetOutcome out.wb_connector "CRTC_ID" 0 [] r
      → Returns
          ((do _ ← detach_commit k r; give_back request; pure (enabled out false)) u)
          (Detached out w)
  unfolding detach_commit atomic_commit
  after_set k (pos zero, req) u a e s = rw e (inr (a, refl, inr (inl refl)))
  after_set k (pos (suc n), req) u a e (inl (f, _)) = absurd (cc)
  after_set k (pos (suc n), req) u a e (inr (_, s)) =
      rw e (after_commit req (k.atomic_commit _ flags_allow_modeset req) a s)
  after_set k (negsuc n, req) u a e s = rw e (inr (a, refl, inr (inl refl)))

detach-Detached :
    (k : Kernel) (out : Output) (w : World)
    → IsRead out.wb_connector
    → out.wb_available ≡ true
    → Returns (detach k out w) (Detached out w)
unfolding detach
detach-Detached k out w p a =
    allocate-null _ w _ _ _ (alloc_request k w) (λ _. inr (a, refl, inl refl))
      λ _ _.
        Returns-and_then
          (set_drm_object_property k out.wb_connector "CRTC_ID" 0 [] (acquire request ∷ w)) _ _ _
          (set_drm_object_property-SetOutcome k out.wb_connector "CRTC_ID" 0 []
            (acquire request ∷ w) p.0 p.1)
          (λ r u (e, s). after_set out w k r u a e s)

detach_writeback-cases :
    (k : Kernel) (out : Output) (w : World) (a : Bool)
    → out.wb_available ≡ a
    → IsRead out.wb_connector
    → Returns ((if not a then pure out else detach k out) w) (Detached out w)
detach_writeback-cases k out w true a p = detach-Detached k out w p a
detach_writeback-cases k out w false a p = inl (a, refl, refl)

-- `modeset_detach_writeback` does nothing if no connector is available. Otherwise the connector ends up
-- not enabled, whatever the kernel answers; what is committed, if anything, is one state that sets the
-- connector's CRTC to 0, and the request is freed.
pub detach_writeback-Detached :
    (k : Kernel) (out : Output) (w : World)
    → IsRead out.wb_connector
    → Returns (detach_writeback k out w) (Detached out w)
unfolding detach_writeback
detach_writeback-Detached k out w p = detach_writeback-cases k out w out.wb_available refl p
