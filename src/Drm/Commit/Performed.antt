-- ===== src/Drm/Commit/Performed.antt =====
-- What `modeset_perform_modeset` (src/drm.c) commits.
use pixel_pilot_rk.Common.{
  ◌≡◌, ◌⊎◌, inl, inr, refl, ℤ, pos, is_neg, true, List, ◌∷◌, ◌++◌, if◌then◌else◌,
}
use pixel_pilot_rk.Drm.Kernel.{Kernel, World, Request, Item, Reply, ok, fail, committed}
use pixel_pilot_rk.Drm.Kernel.Monad.{Returns, Returns-and_then, pure, ◌>>=◌, and_then}
use pixel_pilot_rk.Drm.State.{Output}
use pixel_pilot_rk.Drm.Fit.{Ratio}
use pixel_pilot_rk.Drm.Commit.{
  PlaneRequest, Setting, settings, prepare_commit, perform_modeset, atomic_commit, commit_reply,
  flags_test_modeset, flags_allow_modeset,
}
use pixel_pilot_rk.Drm.Commit.Prepared.{Readable, Resolved, SetAll, prepare_commit-SetAll}

-- It fails, having at most tested the request; or the kernel has accepted all the settings, first as
-- a test and then for good, both times the same.
abbrev pub Performs : List Setting → Request → World → ℤ × Request → World → Type 0
Performs ss req w (c, req') w' =
    ((is_neg c ≡ true) × ((w' ≡ w) ⊎ (w' ≡ committed flags_test_modeset req' ∷ w)))
    ⊎ ((c ≡ pos 0)
        × ((is : List Item) × (req' ≡ req ++ is) × Resolved ss is)
        × (w' ≡ committed flags_allow_modeset req' ∷ committed flags_test_modeset req' ∷ w))

module _ (ss : List Setting) (req req' : Request) (w : World) where
  final_commit :
      (x : Reply (Unit {0}))
      → (is : List Item) × (req' ≡ req ++ is) × Resolved ss is
      → Returns
          (and_then
            (commit_reply flags_allow_modeset req' (committed flags_test_modeset req' ∷ w) x)
            (λ done. pure (done, req')))
          (Performs ss req w)
  final_commit (ok _) h = inr (refl, h, refl)
  final_commit (fail e) h = inl (refl, inr refl)

module _ (k : Kernel) (ss : List Setting) (req req' : Request) (w : World) where
  test_commit :
      (x : Reply (Unit {0}))
      → (is : List Item) × (req' ≡ req ++ is) × Resolved ss is
      → Returns
          (and_then (commit_reply flags_test_modeset req' w x) (λ tested.
            if is_neg tested
            then pure (tested, req')
            else (do done ← atomic_commit k flags_allow_modeset req'; pure (done, req'))))
          (Performs ss req w)
  unfolding atomic_commit
  test_commit (ok _) h = final_commit ss req req' w (k.atomic_commit _ flags_allow_modeset req') h
  test_commit (fail e) h = inl (refl, inl refl)

after_prepare :
    (k : Kernel) (ss : List Setting) (req : Request) (w : World) (r : ℤ × Request)
    → SetAll ss req r
    → Returns
        ((if is_neg r.0 then pure r else (do
          tested ← atomic_commit k flags_test_modeset r.1
          if is_neg tested
              then pure (tested, r.1)
              else (do done ← atomic_commit k flags_allow_modeset r.1; pure (done, r.1))))
          w)
        (Performs ss req w)
unfolding atomic_commit
after_prepare k ss req w (c, req') (inl (e, is, h)) = rw e (inl (refl, inl refl))
after_prepare k ss req w (c, req') (inr (e, h)) =
    rw e (test_commit k ss req req' w (k.atomic_commit w flags_test_modeset req') h)

-- `modeset_perform_modeset` commits a state only after the kernel has accepted the very same one in
-- a test. It returns 0 only if that state is then committed, with everything in it that the modeset
-- sets; on every failure nothing is committed beyond the test.
pub perform_modeset-Performs :
    (k : Kernel) (round : Ratio → Ratio) (out : Output) (p : PlaneRequest) (req : Request)
    (w : World)
    → Readable out p
    → Returns (perform_modeset k round out p req w) (Performs (settings round out p) req w)
unfolding perform_modeset
perform_modeset-Performs k round out p req w h =
    Returns-and_then (prepare_commit k round out p req w) _ _ _
      (prepare_commit-SetAll k round out p req w h)
      λ r w' (e, f). rw e (after_prepare k (settings round out p) req w r f)
