-- ===== src/Drm/Writeback/Checked.antt =====
-- What `modeset_check_writeback` (src/drm.c) finds out.
use pixel_pilot_rk.Common.{
  ℕ, ◌≡◌, ◌⊎◌, inl, inr, refl, ℤ, pos, negsuc, is_neg, true, [], ◌∷◌, arith, if◌then◌else◌,
}
use pixel_pilot_rk.Drm.Kernel.{
  Kernel, World, Request, Reply, ok, fail, acquire, release, committed, request,
}
use pixel_pilot_rk.Drm.Kernel.Monad.{
  Returns, Returns-and_then, Returns-mono, allocate-null, and_then, pure, ◌>>=◌, ◌>>◌, give_back,
}
use pixel_pilot_rk.Drm.Kernel.Ledger.{Same, Same-refl}
use pixel_pilot_rk.Drm.Properties.{set_drm_object_property, einval}
use pixel_pilot_rk.Drm.Properties.Lookup.{Sets, SetOutcome, set_drm_object_property-SetOutcome}
use pixel_pilot_rk.Drm.State.{Output}
use pixel_pilot_rk.Drm.Commit.{atomic_commit, commit_reply}
use pixel_pilot_rk.Drm.Commit.Prepared.{IsRead}
use pixel_pilot_rk.Drm.Writeback.{
  arm_writeback, flags_test, test_request, check_capture, check_writeback, alloc_request,
}
use pixel_pilot_rk.Drm.Writeback.Armed.{Arms, arm_writeback-Arms}

module _ (out : Output) (wb_fb fence_ptr : ℕ) where
  -- A request with the OSD's framebuffer, and one that has a capture besides.
  abbrev pub Idle : Request → Type 0
  Idle req = Sets out.osd_plane "FB_ID" out.osd_buf0.fb [] req

  abbrev pub Capture : Request → Type 0
  Capture req = (head : Request) × Idle head × Arms out wb_fb fence_ptr head (pos 0, req)

  -- The kernel has just accepted the request in a test; it was allocated at the log `w` and is freed.
  abbrev pub Accepted : Request → World → World → Type 0
  Accepted req w w' = w' ≡ release request ∷ committed flags_test req ∷ acquire request ∷ w

  abbrev CaptureChecked : World → ℤ → World → Type 0
  CaptureChecked w c w' =
      Same w w'
      × ((is_neg c ≡ true)
          ⊎ ((c ≡ pos 0) × ((capture : Request) × Capture capture × Accepted capture w w')))

  abbrev pub Checked : World → ℤ → World → Type 0
  Checked w c w' =
      Same w w'
      × ((is_neg c ≡ true)
          ⊎ ((c ≡ pos 0)
              × ((idle : Request) × (v : World) × (capture : Request) × Idle idle
                  × Accepted idle w v
                  × Capture capture
                  × Accepted capture v w')))

tested-cases :
    (req : Request) (w : World) (Q : ℤ → World → Type 0) (x : Reply (Unit {0}))
    → Q (pos 0) (release request ∷ committed flags_test req ∷ w)
    → ((e : ℕ) → Q (negsuc e) (release request ∷ w))
    → Returns (and_then (commit_reply flags_test req w x) (λ ret. give_back request >> pure ret)) Q
tested-cases req w Q (ok _) h g = h
tested-cases req w Q (fail e) h g = g e

tested :
    (k : Kernel) (req : Request) (w : World) (Q : ℤ → World → Type 0)
    → Q (pos 0) (release request ∷ committed flags_test req ∷ w)
    → ((e : ℕ) → Q (negsuc e) (release request ∷ w))
    → Returns (test_request k req w) Q
unfolding test_request atomic_commit
tested k req w Q h g = tested-cases req w Q (k.atomic_commit w flags_test req) h g

module _ (k : Kernel) (out : Output) (wb_fb fence_ptr : ℕ) (w : World) where
  after_arm :
      (head : Request) (r : ℤ × Request) (u : World)
      → Idle out wb_fb fence_ptr head
      → u ≡ acquire request ∷ w
      → Arms out wb_fb fence_ptr head r
      → Returns
          ((if is_neg r.0 then (do give_back request; pure einval) else test_request k r.1) u)
          (CaptureChecked out wb_fb fence_ptr w)
  after_arm head (c, req) u i e (inl (_, z, _)) = rw (e, z) ((λ r. omega arith), inl refl)
  after_arm head (c, req) u i e (inr (_, inl z)) = rw (e, z) ((λ r. omega arith), inl refl)
  after_arm head (c, req) u i e (inr (b, inr (z, f))) =
      rw (e, z)
        (tested k req (acquire request ∷ w) (CaptureChecked out wb_fb fence_ptr w)
          ((λ r. omega arith), inr (refl, (req, (head, i, inr (b, inr (refl, f))), refl)))
          (λ n. ((λ r. omega arith), inl refl)))

  after_set :
      (r : ℤ × Request) (u : World)
      → IsRead out.wb_connector
      → u ≡ acquire request ∷ w
      → SetOutcome out.osd_plane "FB_ID" out.osd_buf0.fb [] r
      → Returns
          ((if is_neg r.0 then (do give_back request; pure einval) else (do
            (b, req2) ← arm_writeback k out r.1 wb_fb fence_ptr
            if is_neg b then (do give_back request; pure einval) else test_request k req2))
            u)
          (CaptureChecked out wb_fb fence_ptr w)
  after_set (c, req) u read e (inl (n, _)) = rw (n, e) ((λ r. omega arith), inl refl)
  after_set (c, req) u read e (inr (n, i)) = rw n (
      Returns-and_then (arm_writeback k out req wb_fb fence_ptr u) _ _ _
        (arm_writeback-Arms k out req wb_fb fence_ptr u read)
        (λ r v (s, a). after_arm req r v i (cc) a))

check_capture-CaptureChecked :
    (k : Kernel) (out : Output) (wb_fb fence_ptr : ℕ) (w : World)
    → IsRead out.osd_plane
    → IsRead out.wb_connector
    → Returns (check_capture k out wb_fb fence_ptr w) (CaptureChecked out wb_fb fence_ptr w)
unfolding check_capture
check_capture-CaptureChecked k out wb_fb fence_ptr w p q =
    allocate-null _ w _ _ _ (alloc_request k w) (λ _. (Same-refl w, inl refl))
      λ _ _.
        Returns-and_then
          (set_drm_object_property k out.osd_plane "FB_ID" out.osd_buf0.fb [] (acquire request ∷ w))
          _ _ _
          (set_drm_object_property-SetOutcome k out.osd_plane "FB_ID" out.osd_buf0.fb []
            (acquire request ∷ w) p.0 p.1)
          (λ r u (e, s). after_set k out wb_fb fence_ptr w r u q e s)

module _ (k : Kernel) (out : Output) (wb_fb fence_ptr : ℕ) (w : World) where
  then_capture :
      (c : ℤ) (req : Request) (u : World)
      → IsRead out.osd_plane
      → IsRead out.wb_connector
      → Idle out wb_fb fence_ptr req
      → ((c ≡ pos 0) × Accepted out wb_fb fence_ptr req w u) ⊎ ((is_neg c ≡ true) × Same w u)
      → Returns
          ((if is_neg c then pure c else check_capture k out wb_fb fence_ptr) u)
          (Checked out wb_fb fence_ptr w)
  then_capture c req u p q i (inr (n, s)) = rw n (s, inl n)
  then_capture c req u p q i (inl (z, e)) =
      rw (z, e)
        (Returns-mono (check_capture k out wb_fb fence_ptr _) _ _
          (check_capture-CaptureChecked k out wb_fb fence_ptr _ p q)
          λ d v (s, h). (
            (λ r. omega (arith, s r)),
            elim h [
              | inl n ↦ inl n
              | inr (y, (capture, f, g)) ↦ inr (y, (req, _, capture, i, refl, f, g))
            ],
          ))

  after_first :
      (r : ℤ × Request) (u : World)
      → IsRead out.osd_plane
      → IsRead out.wb_connector
      → u ≡ acquire request ∷ w
      → SetOutcome out.osd_plane "FB_ID" out.osd_buf0.fb [] r
      → Returns
          ((if is_neg r.0 then (do give_back request; pure einval) else (do
            ret ← test_request k r.1
            if is_neg ret then pure ret else check_capture k out wb_fb fence_ptr))
            u)
          (Checked out wb_fb fence_ptr w)
  after_first (c, req) u p q e (inl (n, _)) = rw (n, e) ((λ r. omega arith), inl refl)
  after_first (c, req) u p q e (inr (n, i)) =
      rw (n, e)
        (Returns-and_then (test_request k req (acquire request ∷ w)) _
          (λ c v.
            ((c ≡ pos 0) × Accepted out wb_fb fence_ptr req w v) ⊎ ((is_neg c ≡ true) × Same w v))
          _
          (tested k req (acquire request ∷ w) _ (inl (refl, refl))
            (λ n. inr (refl, (λ r. omega arith))))
          (λ c v h. then_capture c req v p q i h))

-- `modeset_check_writeback` gives back all that it took. It returns 0 only if the connector is enabled
-- and the kernel has accepted, as tests and in this order, a state with no capture and a state with
-- one, and nothing else was committed; otherwise its result is negative.
pub check_writeback-Checked :
    (k : Kernel) (out : Output) (wb_fb fence_ptr : ℕ) (w : World)
    → IsRead out.osd_plane
    → IsRead out.wb_connector
    → Returns (check_writeback k out wb_fb fence_ptr w) (Checked out wb_fb fence_ptr w)
unfolding check_writeback
check_writeback-Checked k out wb_fb fence_ptr w p q =
    allocate-null _ w _ _ _ (alloc_request k w) (λ _. (Same-refl w, inl refl))
      λ _ _.
        Returns-and_then
          (set_drm_object_property k out.osd_plane "FB_ID" out.osd_buf0.fb [] (acquire request ∷ w))
          _ _ _
          (set_drm_object_property-SetOutcome k out.osd_plane "FB_ID" out.osd_buf0.fb []
            (acquire request ∷ w) p.0 p.1)
          (λ r u (e, s). after_first k out wb_fb fence_ptr w r u p q e s)
