-- ===== src/Drm/Restore/Restored.antt =====
-- What `restore_planes_zpos` (src/drm.c) commits, and the requests that it leaves.
use pixel_pilot_rk.Common.{
  ◌+◌, ◌≡◌, ◌⊎◌, inl, inr, refl, ℤ, Bool, true, false, Option, none, some, List, [], ◌∷◌, ◌++◌,
  arith, if◌then◌else◌,
}
use pixel_pilot_rk.Drm.Kernel.{Kernel, World, Request, Resource, request, acquire, release}
use pixel_pilot_rk.Drm.Kernel.Monad.{
  Returns, Returns-and_then, Returns-and_then_eq, Returns-mono, and_then, acquire_option, M, pure,
  ◌>>=◌,
}
use pixel_pilot_rk.Drm.Kernel.Ledger.{Loses, acquired, released, tally, tally-append}
use pixel_pilot_rk.Drm.Properties.{DrmObject}
use pixel_pilot_rk.Drm.Properties.Balance.{Describes}
use pixel_pilot_rk.Drm.State.{Output}
use pixel_pilot_rk.Drm.Fit.{Ratio}
use pixel_pilot_rk.Drm.Commit.Prepared.{IsRead, Readable}
use pixel_pilot_rk.Drm.Restore.{
  restored, restore_plane, restore_both, restore_planes_zpos, free_request, with_requests, fresh,
}
use pixel_pilot_rk.Drm.Restore.Plane.{
  Complete, Unprepared, PlaneRestored, restore_plane-PlaneRestored,
}

abbrev requests : Option Request → List Resource
requests none = []
requests (some _) = request ∷ []

-- The atomic requests that an output holds.
abbrev pub held : Output → List Resource
held o = requests o.osd_request ++ requests o.video_request

-- The requests that the process holds besides the output's are as they were.
abbrev pub Balanced : Output → World → Output → World → Type 0
Balanced o w o' w' =
    (r : Resource)
    → acquired r w' + released r w + tally r (held o)
      ≡ acquired r w + released r w' + tally r (held o')

-- The log behind `drmModeAtomicFree`.
abbrev pub freed : Option Request → World → World
freed none w = w
freed (some _) w = release request ∷ w

-- Both requests are there. The OSD's plane could not be prepared, and the video's request is empty; or
-- the OSD's is complete when the video's turn comes, at the log `v`, and the video's is complete or could
-- not be prepared.
abbrev pub BothRestored : Kernel → (Ratio → Ratio) → Output → Output → World → Type 0
BothRestored k round out o' w' =
    (osd : Request) × (video : Request) × (o' ≡ with_requests out (some osd) (some video))
    × (((video ≡ []) × Unprepared k round (fresh out) out.osd_plane osd w')
        ⊎ ((v : World) × (go_on : Bool) × (restore_plane k round (fresh out) out.video_plane v
              ≡ some ((go_on, video), w'))
            × Complete k round (fresh out) out.osd_plane osd v
            × (Complete k round (fresh out) out.video_plane video w'
                ⊎ Unprepared k round (fresh out) out.video_plane video w')))

-- By what the kernel answers to the first allocation, at the log `u`: without the OSD's request nothing
-- is offered to the kernel, and the video's is empty or could not be allocated either.
abbrev pub RestoredFrom : Kernel → (Ratio → Ratio) → Output → World → Output → World → Type 0
RestoredFrom k round out u o' w' =
    ((k.atomic_alloc u ≡ false)
      × (let v = freed out.video_request u in
          ((k.atomic_alloc v ≡ false) × (o' ≡ with_requests out none none) × (w' ≡ v))
          ⊎ ((k.atomic_alloc v ≡ true)
              × (o' ≡ with_requests out none (some []))
              × (w' ≡ acquire request ∷ v))))
    ⊎ ((k.atomic_alloc u ≡ true)
        × (let v = freed out.video_request (acquire request ∷ u) in
            ((k.atomic_alloc v ≡ false) × (o' ≡ with_requests out (some []) none) × (w' ≡ v))
            ⊎ ((k.atomic_alloc v ≡ true) × BothRestored k round out o' w')))

abbrev pub Restored : Kernel → (Ratio → Ratio) → Output → World → Output → World → Type 0
Restored k round out w o' w' =
    Balanced out w o' w' × RestoredFrom k round out (freed out.osd_request w) o' w'

-- What the code needs of the objects of both planes.
pub record Restorable (k : Kernel) (out : Output) : Type 0 where
  pub describes : Describes k
  pub connector : IsRead out.connector
  pub crtc : IsRead out.crtc
  pub osd_plane : IsRead out.osd_plane
  pub video_plane : IsRead out.video_plane
  pub wb_connector : out.wb_enabled ≡ true → IsRead out.wb_connector

plane-Readable :
    (k : Kernel) (out : Output) (plane : DrmObject) (zpos : ℤ)
    → Restorable k out
    → IsRead plane
    → Readable (fresh out) (restored (fresh out) plane zpos)
plane-Readable k out plane zpos h read = record {
  connector = h.connector;
  crtc = h.crtc;
  plane = read;
  writeback = h.wb_connector;
}

module _ (k : Kernel) (round : Ratio → Ratio) (out : Output) (w : World) where
  after_osd :
      (v : World)
      → Restorable k out
      → Balanced out w (fresh out) v
      → (r : Bool × Request) (u : World) → PlaneRestored k round (fresh out) out.osd_plane v r u
      → Returns
          ((if r.0
              then (do
                (_, video) ← restore_plane k round (fresh out) out.video_plane
                pure (with_requests out (some r.1) (some video)))
              else pure (with_requests out (some r.1) (some [])))
            u)
          (λ o' w'. Balanced out w o' w' × BothRestored k round out o' w')
  after_osd v h b (go_on, osd) u (s, inr (e, n)) =
      rw e ((λ r. omega (arith, b r, s r)), (osd, [], refl, inl (refl, n)))
  after_osd v h b (go_on, osd) u (s, inl (e, c)) = rw e (
      Returns-and_then_eq (restore_plane k round (fresh out) out.video_plane u) _ _ _
        (restore_plane-PlaneRestored k round (fresh out) out.video_plane u h.describes h.video_plane
          (λ zpos. plane-Readable k out out.video_plane zpos h h.video_plane))
        λ (go, video) x f (t, q). (
          (λ r. omega (arith, b r, s r, t r)),
          (osd, video, refl, inr (u, go, f, c, elim q [ inl (_, p) ↦ inl p | inr (_, p) ↦ inr p ])),
        ))

  both-Restored :
      (v : World)
      → Restorable k out
      → Balanced out w (fresh out) v
      → Returns
          (restore_both k round (fresh out) v)
          (λ o' w'. Balanced out w o' w' × BothRestored k round out o' w')
  unfolding restore_both
  both-Restored v h b =
      Returns-and_then (restore_plane k round (fresh out) out.osd_plane v) _ _ _
        (restore_plane-PlaneRestored k round (fresh out) out.osd_plane v h.describes h.osd_plane
          (λ zpos. plane-Readable k out out.osd_plane zpos h h.osd_plane))
        (λ r u p. after_osd v h b r u p)

freed-Loses : (q : Option Request) (w : World) → Loses w (freed q w) (requests q)
freed-Loses none w r = omega arith
freed-Loses (some q) w r = omega arith

after_free :
    {B : Type 0} (q : Option Request) (w : World) (f : Unit {0} → M B) (Q : B → World → Type 0)
    → Returns (f tt (freed q w)) Q
    → Returns (and_then (free_request q w) f) Q
unfolding free_request
after_free none w f Q h = h
after_free (some q) w f Q h = h

-- What follows an allocation, by whether the kernel can serve it.
after_alloc :
    {B : Type 0} (w : World) (f : Option (Unit {0}) → M B) (Q : B → World → Type 0) (b : Bool)
    → (b ≡ false → Returns (f none w) Q)
    → (b ≡ true → Returns (f (some tt) (acquire request ∷ w)) Q)
    → Returns (and_then (acquire_option (λ _. request) w (if b then some tt else none)) f) Q
after_alloc w f Q true h g = g refl
after_alloc w f Q false h g = h refl

-- On a kernel that describes its properties and for objects whose properties were read,
-- `restore_planes_zpos` returns, and of atomic requests the
-- process holds those that it leaves in the output in place of those that were there. If the kernel
-- cannot allocate one of them behind the free of the old one, no state is offered to it, and the output
-- has no request there and an empty one where it could. Else the OSD's request has exactly the entries of one
-- modeset of the OSD's plane at its own zpos, whatever the old request held, and was accepted by the
-- kernel or is refused by it; and then so has the video's, unless its modeset could not be prepared. If
-- the OSD's could not be prepared, the video's is left empty.
pub restore_planes_zpos-Restored :
    (k : Kernel) (round : Ratio → Ratio) (out : Output) (w : World)
    → Restorable k out
    → Returns (restore_planes_zpos k round out w) (Restored k round out w)
unfolding restore_planes_zpos
restore_planes_zpos-Restored k round out w h = after_free out.osd_request w _ _ (
    after_alloc w1 _ _ (k.atomic_alloc w1)
      (λ no. after_free out.video_request w1 _ _ (
        after_alloc (freed out.video_request w1) _ _ (k.atomic_alloc (freed out.video_request w1))
          (λ no'. ((λ r. omega (arith, l1 r, l2 w1 r, split r)), inl (no, inl (no', refl, refl))))
          (λ yes'.
            ((λ r. omega (arith, l1 r, l2 w1 r, split r)), inl (no, inr (yes', refl, refl))))))
      (λ yes. after_free out.video_request (acquire request ∷ w1) _ _ (
        after_alloc w2 _ _ (k.atomic_alloc w2)
          (λ no'. (
            (λ r. omega (arith, l1 r, l2 (acquire request ∷ w1) r, split r)),
            inr (yes, inl (no', refl, refl)),
          ))
          (λ yes'.
            Returns-mono (restore_both k round (fresh out) _) _ _
              (both-Restored k round out w _ h
                (λ r. omega (arith, l1 r, l2 (acquire request ∷ w1) r, split r)))
              (λ o u (b, p). (b, inr (yes, inr (yes', p))))))))
  where
    w1 : World
    w1 = freed out.osd_request w

    w2 : World
    w2 = freed out.video_request (acquire request ∷ w1)

    l1 : Loses w w1 (requests out.osd_request)
    l1 = freed-Loses out.osd_request w

    l2 : (v : World) → Loses v (freed out.video_request v) (requests out.video_request)
    l2 = freed-Loses out.video_request

    split :
        (r : Resource)
        → tally r (held out)
          ≡ tally r (requests out.osd_request) + tally r (requests out.video_request)
    split r = tally-append r (requests out.osd_request) (requests out.video_request)
