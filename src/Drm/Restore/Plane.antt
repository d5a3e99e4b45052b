-- ===== src/Drm/Restore/Plane.antt =====
-- What the restoring of one plane (src/drm.c) commits.
use pixel_pilot_rk.Common.{
  ℕ, ◌≡◌, ◌⊎◌, inl, inr, refl, ℤ, is_neg, Bool, true, false, some, [], ◌∷◌, if◌then◌else◌,
}
use pixel_pilot_rk.Drm.Kernel.{Kernel, World, Request, Reply, ok, fail, committed}
use pixel_pilot_rk.Drm.Kernel.Monad.{Returns, Returns-and_then_eq, and_then, pure, ◌>>=◌}
use pixel_pilot_rk.Drm.Kernel.Ledger.{Same}
use pixel_pilot_rk.Drm.Properties.{DrmObject, get_property_value}
use pixel_pilot_rk.Drm.Properties.Balance.{Describes}
use pixel_pilot_rk.Drm.State.{Output}
use pixel_pilot_rk.Drm.Fit.{Ratio}
use pixel_pilot_rk.Drm.Commit.{
  settings, prepare_commit, atomic_commit, commit_reply, flags_allow_modeset,
}
use pixel_pilot_rk.Drm.Commit.Prepared.{IsRead, Readable, Resolved, SetAll, prepare_commit-SetAll}
use pixel_pilot_rk.Drm.Writeback.Found.{value-Same}
use pixel_pilot_rk.Drm.Restore.{restored, restore_plane}

module _ (k : Kernel) (round : Ratio → Ratio) (out : Output) (plane : DrmObject) where
  -- The plane's value of its zpos, as it is read at some log.
  abbrev pub IsZpos : ℤ → Type 0
  IsZpos zpos =
      (v : World) × (v' : World) × (get_property_value k plane.props "zpos" v ≡ some (zpos, v'))

  -- The request has the entries of a modeset of the plane, in order, and no other; it is the last
  -- state that the kernel accepted, or the kernel refuses it.
  abbrev pub Complete : Request → World → Type 0
  Complete req w =
      ((zpos : ℤ) × IsZpos zpos × Resolved (settings round out (restored out plane zpos)) req)
      × (((u : World) × (w ≡ committed flags_allow_modeset req ∷ u))
          ⊎ ((e : ℕ) × (k.atomic_commit w flags_allow_modeset req ≡ fail e)))

  -- The modeset of the plane could not be prepared.
  abbrev pub Unprepared : Request → World → Type 0
  Unprepared req w =
      (zpos : ℤ) × IsZpos zpos
      × (c : ℤ) × (is_neg c ≡ true)
      × (prepare_commit k round out (restored out plane zpos) [] w ≡ some ((c, req), w))

  abbrev pub PlaneRestored : World → Bool × Request → World → Type 0
  PlaneRestored w (b, req) w' =
      Same w w' × (((b ≡ true) × Complete req w') ⊎ ((b ≡ false) × Unprepared req w'))

  after_commit :
      (start w : World) (req : Request) (x : Reply (Unit {0}))
      → k.atomic_commit w flags_allow_modeset req ≡ x
      → Same start w
      → (zpos : ℤ) × IsZpos zpos × Resolved (settings round out (restored out plane zpos)) req
      → Returns
          (and_then (commit_reply flags_allow_modeset req w x) (λ _. pure (true, req)))
          (PlaneRestored start)
  after_commit start w req (ok _) e s h = (s, inl (refl, (h, inl (w, refl))))
  after_commit start w req (fail n) e s h = (s, inl (refl, (h, inr (n, e))))

  after_prepare :
      (start w : World) (zpos : ℤ) (r : ℤ × Request)
      → IsZpos zpos
      → prepare_commit k round out (restored out plane zpos) [] w ≡ some (r, w)
      → Same start w
      → SetAll (settings round out (restored out plane zpos)) [] r
      → Returns
          ((if is_neg r.0
              then pure (false, r.1)
              else (do _ ← atomic_commit k flags_allow_modeset r.1; pure (true, r.1)))
            w)
          (PlaneRestored start)
  unfolding atomic_commit
  after_prepare start w zpos (c, req) z e s (inl (n, _, _)) =
      rw n (s, inr (refl, (zpos, z, c, rw n refl, e)))
  after_prepare start w zpos (c, req) z e s (inr (n, (is, q, h))) =
      rw n (after_commit start w req _ refl s (zpos, z, rw q h))

-- On a kernel that describes its properties and for objects whose properties were read, a plane is
-- restored by a fresh modeset that is offered to the kernel, or its modeset cannot be prepared.
pub restore_plane-PlaneRestored :
    (k : Kernel) (round : Ratio → Ratio) (out : Output) (plane : DrmObject) (w : World)
    → Describes k
    → IsRead plane
    → ((zpos : ℤ) → Readable out (restored out plane zpos))
    → Returns (restore_plane k round out plane w) (PlaneRestored k round out plane w)
unfolding restore_plane
restore_plane-PlaneRestored k round out plane w d read h =
    Returns-and_then_eq (get_property_value k plane.props "zpos" w) _ _ _
      (value-Same k d plane.props "zpos" w read.0)
      λ zpos v z s.
        Returns-and_then_eq (prepare_commit k round out (restored out plane zpos) [] v) _ _ _
          (prepare_commit-SetAll k round out (restored out plane zpos) [] v (h zpos))
          λ r u e (same, set).
            after_prepare k round out plane w u zpos r (w, v, z) (cc) (rw same s) set
