-- ===== src/Drm/Commit/Prepared.antt =====
-- What `modeset_atomic_prepare_commit` (src/drm.c) leaves in the request.
use pixel_pilot_rk.Common.{
  ℕ, ◌<◌, ◌≡◌, ◌≢◌, ◌⊎◌, inl, inr, refl, ℤ, pos, negsuc, is_neg, true, false, none, some, List, [],
  ◌∷◌, ◌++◌, get_elem?, Every, Bool-cases, if◌then◌else◌,
}
use mathlib.Core.List.{append_assoc, append-nil}
use pixel_pilot_rk.Drm.Kernel.{Kernel, World, Request, Item, PropertyRes}
use pixel_pilot_rk.Drm.Kernel.Monad.{Returns, Returns-and_then, Returns-mono, pure}
use pixel_pilot_rk.Drm.Properties.{DrmObject, set_drm_object_property}
use pixel_pilot_rk.Drm.Properties.Lookup.{
  Named, NoNull, SetOutcome, Sets, set_drm_object_property-SetOutcome,
}
use pixel_pilot_rk.Drm.State.{Output}
use pixel_pilot_rk.Drm.Fit.{Ratio}
use pixel_pilot_rk.Drm.Commit.{Setting, PlaneRequest, settings, set_all, prepare_commit}

-- The object's properties were read, and the kernel described each.
abbrev pub IsRead : DrmObject → Type 0
IsRead o = (o.props ≢ none) × NoNull o.props_info

abbrev pub AllRead : List Setting → Type 0
AllRead [] = Unit {0}
AllRead (s ∷ ss) = IsRead s.object × AllRead ss

-- The item sets the first property of that name on that object, to that value.
abbrev pub Resolves : Setting → Item → Type 0
Resolves s i =
    (j : ℕ) × (q : PropertyRes) × (get_elem? s.object.props_info j ≡ some (some q))
    × Named s.name q
    × (q.prop_id ≢ 0)
    × Every (λ n p. n < j → (r : PropertyRes) → p ≡ some r → ¬ Named s.name r) s.object.props_info
    × (i ≡ record { object = s.object.id; prop_id = q.prop_id; value = s.value })

-- Item for setting, in order.
abbrev pub Resolved : List Setting → List Item → Type 0
Resolved [] [] = Unit {0}
Resolved [] (i ∷ is) = ⊥
Resolved (s ∷ ss) [] = ⊥
Resolved (s ∷ ss) (i ∷ is) = Resolves s i × Resolved ss is

-- -1 with some of the settings made, or 0 with all of them made, once each and in order.
abbrev pub SetAll : List Setting → Request → ℤ × Request → Type 0
SetAll ss req (c, req') =
    ((c ≡ negsuc 0) × (is : List Item) × (req' ≡ req ++ is))
    ⊎ ((c ≡ pos 0) × ((is : List Item) × (req' ≡ req ++ is) × Resolved ss is))

set-SetAll :
    (s : Setting) (ss : List Setting) (req : Request) (c : ℤ) (req' : Request) (r : ℤ × Request)
    → is_neg c ≡ false
    → Sets s.object s.name s.value req req'
    → SetAll ss req' r
    → SetAll (s ∷ ss) req r
set-SetAll s ss req c req' (d, r) n (j, q, g, m, z, before, e) (inl (x, is, e')) =
    inl (x, item ∷ is, rw (e', e) (append_assoc req (item ∷ []) is))
  where
    item : Item
    item = record { object = s.object.id; prop_id = q.prop_id; value = s.value }
set-SetAll s ss req c req' (d, r) n (j, q, g, m, z, before, e) (inr (x, (is, e', f))) = inr (
  x,
  (item ∷ is, rw (e', e) (append_assoc req (item ∷ []) is), ((j, q, g, m, z, before, refl), f)),
)
  where
    item : Item
    item = record { object = s.object.id; prop_id = q.prop_id; value = s.value }

module _ (k : Kernel) where
  set_next :
      (s : Setting) (ss : List Setting) (req : Request) (w : World) (r : ℤ × Request)
      → ((q : Request) → Returns (set_all k ss q w) (λ r' w'. (w' ≡ w) × SetAll ss q r'))
      → SetOutcome s.object s.name s.value req r
      → Returns
          ((if is_neg r.0 then pure (negsuc 0, r.1) else set_all k ss r.1) w)
          (λ r' w'. (w' ≡ w) × SetAll (s ∷ ss) req r')
  set_next s ss req w (c, req') ih (inl (n, same)) =
      rw n (refl, inl (refl, [], rw (same, append-nil)))
  set_next s ss req w (c, req') ih (inr (n, sets)) = rw n (
      Returns-mono (set_all k ss req' w) _ _ (ih req')
        (λ r w' (e, f). (e, set-SetAll s ss req c req' r n sets f)))

  pub set_all-SetAll :
      (ss : List Setting) (req : Request) (w : World)
      → AllRead ss
      → Returns (set_all k ss req w) (λ r w'. (w' ≡ w) × SetAll ss req r)
  unfolding set_all
  set_all-SetAll [] req w h = (refl, inr (refl, ([], rw append-nil, tt)))
  set_all-SetAll (s ∷ ss) req w h =
      Returns-and_then (set_drm_object_property k s.object s.name s.value req w) _ _ _
        (set_drm_object_property-SetOutcome k s.object s.name s.value req w h.0.0 h.0.1)
        λ r w' (e, f). rw e (set_next s ss req w r (λ q. set_all-SetAll ss q w h.1) f)

-- The objects of a modeset whose properties were read; the writeback connector's only if it is used.
pub record Readable (out : Output) (p : PlaneRequest) : Type 0 where
  pub connector : IsRead out.connector
  pub crtc : IsRead out.crtc
  pub plane : IsRead p.plane
  pub writeback : out.wb_enabled ≡ true → IsRead out.wb_connector

settings-AllRead :
    (round : Ratio → Ratio) (out : Output) (p : PlaneRequest)
    → Readable out p
    → AllRead (settings round out p)
unfolding settings
settings-AllRead round out p h = elim (Bool-cases out.wb_enabled) [
  | inl e ↦ rw e (
    h.connector,
    (
      h.writeback e,
      (
        h.crtc,
        (
          h.crtc,
          (
            h.plane,
            (
              h.plane,
              (
                h.plane,
                (
                  h.plane,
                  (h.plane, (h.plane, (h.plane, (h.plane, (h.plane, (h.plane, (h.plane, tt))))))),
                ),
              ),
            ),
          ),
        ),
      ),
    ),
  )
  | inr e ↦ rw e (
    h.connector,
    (
      h.crtc,
      (
        h.crtc,
        (
          h.plane,
          (
            h.plane,
            (
              h.plane,
              (
                h.plane,
                (h.plane, (h.plane, (h.plane, (h.plane, (h.plane, (h.plane, (h.plane, tt))))))),
              ),
            ),
          ),
        ),
      ),
    ),
  )
]

-- `modeset_atomic_prepare_commit` returns 0 only with all its properties added to the request, in
-- order and each once; otherwise it returns -1. What the request held before stays at its head.
pub prepare_commit-SetAll :
    (k : Kernel) (round : Ratio → Ratio) (out : Output) (p : PlaneRequest) (req : Request)
    (w : World)
    → Readable out p
    → Returns
        (prepare_commit k round out p req w)
        (λ r w'. (w' ≡ w) × SetAll (settings round out p) req r)
unfolding prepare_commit
prepare_commit-SetAll k round out p req w h =
    set_all-SetAll k (settings round out p) req w (settings-AllRead round out p h)
