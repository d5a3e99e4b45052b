-- ===== src/Drm/Properties/Lookup.antt =====
-- Which property `set_drm_object_property` (src/drm.c) sets.
use pixel_pilot_rk.Common.{
  ℕ, suc, ◌<◌, ◌≡◌, ◌≢◌, ◌⊎◌, inl, inr, refl, Option, none, some, List, [], ◌∷◌, ◌++◌, arith,
  String, str_eq, eq_iff, Bool-cases, get_elem?, Every, Every-nil, Every-cons, ℤ, is_neg, true,
  false, ◌==◌,
}
use pixel_pilot_rk.Drm.Kernel.{Kernel, World, Item, Request, PropertyRes, ok, fail, Reply}
use pixel_pilot_rk.Drm.Kernel.Monad.{Returns, M}
use pixel_pilot_rk.Drm.Properties.{
  DrmObject, Found, null_entry, prop, find_prop, set_drm_object_property, set_found, unless_null,
  added,
}

-- Every entry was described by the kernel.
abbrev pub NoNull : List (Option PropertyRes) → Type 0
NoNull ps = Every (λ _ p. p ≢ none) ps

abbrev pub Named : String → PropertyRes → Type 0
Named name p = p.name ≡ name

-- What the search for a name comes to.
abbrev pub Finds : String → List (Option PropertyRes) → Found → Type 0
Finds name ps null_entry = ⊥
Finds name ps (prop n) =
    ((n ≡ 0) × Every (λ _ p. (q : PropertyRes) → p ≡ some q → ¬ Named name q) ps)
    ⊎ ((j : ℕ) × (q : PropertyRes) × (get_elem? ps j ≡ some (some q))
        × Named name q
        × (q.prop_id ≡ n)
        × Every (λ i p. i < j → (r : PropertyRes) → p ≡ some r → ¬ Named name r) ps)

Finds-later :
    (name : String) (p : PropertyRes) (ps : List (Option PropertyRes)) (f : Found)
    → ¬ Named name p
    → Finds name ps f
    → Finds name (some p ∷ ps) f
Finds-later name p ps null_entry h f = f
Finds-later name p ps (prop n) h (inl (z, all)) =
    inl (z, Every-cons _ (some p) ps (λ q e m. h (differs q e m)) all)
  where
    differs : (q : PropertyRes) → some p ≡ some q → Named name q → Named name p
    differs q e m = ground arith
Finds-later name p ps (prop n) h (inr (j, q, g, m, e, before)) = inr (
  suc j,
  q,
  g,
  m,
  e,
  Every-cons _ (some p) ps (λ _ r e' m'. h (differs r e' m'))
      (λ i r g' lt. before i r g' (omega arith)),
)
  where
    differs : (q : PropertyRes) → some p ≡ some q → Named name q → Named name p
    differs q e m = ground arith

find_prop-Finds :
    (name : String) (ps : List (Option PropertyRes)) → NoNull ps → Finds name ps (find_prop name ps)
unfolding find_prop
find_prop-Finds name [] h = inl (refl, Every-nil _)
find_prop-Finds name (none ∷ ps) h = absurd (h 0 none refl refl)
find_prop-Finds name (some p ∷ ps) h = elim (Bool-cases (str_eq p.name name)) [
  | inl e ↦ rw e (inr (0, p, refl, (eq_iff p.name name).0 e, refl, λ i r g lt. elim lt [ ]))
  | inr e ↦ rw e (
      Finds-later name p ps _ (λ m. absurd (cc ((eq_iff p.name name).1 m)))
        (find_prop-Finds name ps (λ i q g. h (suc i) q g)))
]

-- The request has one more entry: for the object, the first property of the name, and the value.
abbrev pub Sets : DrmObject → String → ℕ → Request → Request → Type 0
Sets o name value req req' =
    (j : ℕ) × (q : PropertyRes) × (get_elem? o.props_info j ≡ some (some q))
    × Named name q
    × (q.prop_id ≢ 0)
    × Every (λ i p. i < j → (r : PropertyRes) → p ≡ some r → ¬ Named name r) o.props_info
    × (req' ≡ req ++ record { object = o.id; prop_id = q.prop_id; value = value } ∷ [])

-- A set either fails with a negative result and leaves the request alone, or sets the property.
abbrev pub SetOutcome : DrmObject → String → ℕ → Request → ℤ × Request → Type 0
SetOutcome o name value req (c, req') =
    ((is_neg c ≡ true) × (req' ≡ req)) ⊎ ((is_neg c ≡ false) × Sets o name value req req')

added-cases :
    (req : Request) (item : Item) (x : Reply ℕ)
    → ((is_neg (added req item x).0 ≡ true) × ((added req item x).1 ≡ req))
      ⊎ ((is_neg (added req item x).0 ≡ false) × ((added req item x).1 ≡ req ++ item ∷ []))
added-cases req item (ok n) = inr (refl, refl)
added-cases req item (fail e) = inl (refl, refl)

unless_null-some :
    {A B : Type 0} (x : Option A) (m : M B) (P : M B → Type 0)
    → x ≢ none
    → P m
    → P (unless_null x m)
unless_null-some none m P h p = absurd (h refl)
unless_null-some (some x) m P h p = p

module _ (k : Kernel) (o : DrmObject) (name : String) (value : ℕ) (req : Request) (w : World) where
  set_item-Sets :
      (n j : ℕ) (q : PropertyRes)
      → get_elem? o.props_info j ≡ some (some q)
      → Named name q
      → q.prop_id ≡ n
      → (n == 0) ≡ false
      → Every (λ i p. i < j → (r : PropertyRes) → p ≡ some r → ¬ Named name r) o.props_info
      → let item : Item = record { object = o.id; prop_id = n; value = value } in
        SetOutcome o name value req (added req item (k.add_property w req item))
  set_item-Sets n j q g m e z before =
      let item : Item = record { object = o.id; prop_id = n; value = value } in
      elim (added-cases req item (k.add_property w req item)) [
        | inl (neg, same) ↦ inl (neg, same)
        | inr (nn, more) ↦ inr (nn, (j, q, g, m, ground arith, before, rw e more))
      ]

  set_found-Sets :
      (f : Found)
      → Finds name o.props_info f
      → Returns (set_found k o.id value req f w) (λ r w'. (w' ≡ w) × SetOutcome o name value req r)
  unfolding set_found
  set_found-Sets null_entry f = absurd f
  set_found-Sets (prop n) (inl (z, all)) = rw z (refl, inl (refl, refl))
  set_found-Sets (prop n) (inr (j, q, g, m, e, before)) = elim (Bool-cases (n == 0)) [
    | inl z ↦ rw z (refl, inl (refl, refl))
    | inr z ↦ rw z (refl, set_item-Sets n j q g m e z before)
  ]

-- On an object whose properties were read and described, `set_drm_object_property` returns. A
-- negative result leaves the request as it was; any other adds exactly one entry to its end, which
-- sets the first property of that name, with an id that is not 0, to the value.
pub set_drm_object_property-SetOutcome :
    (k : Kernel) (o : DrmObject) (name : String) (value : ℕ) (req : Request) (w : World)
    → o.props ≢ none
    → NoNull o.props_info
    → Returns
        (set_drm_object_property k o name value req w)
        (λ r w'. (w' ≡ w) × SetOutcome o name value req r)
unfolding set_drm_object_property
set_drm_object_property-SetOutcome k o name value req w h nn =
    unless_null-some o.props _
      (λ m. Returns (m w) (λ r w'. (w' ≡ w) × SetOutcome o name value req r)) h
      (set_found-Sets k o name value req w (find_prop name o.props_info)
        (find_prop-Finds name o.props_info nn))
