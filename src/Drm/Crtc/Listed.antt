-- ===== src/Drm/Crtc/Listed.antt =====
-- The positions that `modeset_find_crtc` (src/drm.c) finds in the device's list of CRTCs.
use pixel_pilot_rk.Common.{
  ℕ, suc, ◌+◌, ◌<◌, ◌≡◌, ◌≢◌, ◌⊎◌, inl, inr, refl, true, false, none, some, List, [], ◌∷◌, ◌==◌,
  ltb, ◌&&◌, arith, get_elem?, Every, Every-nil, Every-cons, Bool-cases,
}
use pixel_pilot_rk.Drm.Modes.{bit}
use pixel_pilot_rk.Drm.Crtc.{index_of, first_possible}

-- The entry of an id in the list, counted from `i`, or no entry and the old value.
pub index_of-cases :
    (c i : ℕ) (xs : List ℕ) (old : ℕ)
    → ((j : ℕ) × (get_elem? xs j ≡ some c) × (index_of c i xs old ≡ i + j))
      ⊎ (Every (λ _ x. x ≢ c) xs × (index_of c i xs old ≡ old))
unfolding index_of
index_of-cases c i [] old = inr (Every-nil _, refl)
index_of-cases c i (x ∷ xs) old = elim (Bool-cases (x == c)) [
  | inl e ↦ rw e (inl (0, ground arith, omega arith))
  | inr e ↦ rw e (elim (index_of-cases c (i + 1) xs old) [
    | inl (j, g, h) ↦ inl (suc j, g, omega arith)
    | inr (all, h) ↦ inr (Every-cons _ x xs (λ p. ground arith) all, h)
  ])
]

pub first_possible-found :
    (mask j : ℕ) (xs : List ℕ) (c n : ℕ)
    → first_possible mask j xs ≡ some (c, n)
    → (m : ℕ) × (n ≡ j + m) × (get_elem? xs m ≡ some c) × (0 < c) × (bit n mask ≡ true)
unfolding first_possible
first_possible-found mask j [] c n e = absurd (cc)
first_possible-found mask j (x ∷ xs) c n e = elim (Bool-cases (bit j mask && ltb 0 x)) [
  | inl t ↦ (0, ground arith, ground arith, ground arith, ground arith)
  | inr f ↦
      let e' : first_possible mask (j + 1) xs ≡ some (c, n) = rw f at e in
      let (m, a, b, d, g) = first_possible-found mask (j + 1) xs c n e' in
      (suc m, omega arith, b, d, g)
]

pub first_possible-none :
    (mask j : ℕ) (xs : List ℕ)
    → first_possible mask j xs ≡ none
    → Every (λ i x. (bit (j + i) mask && ltb 0 x) ≡ false) xs
unfolding first_possible
first_possible-none mask j [] e = Every-nil _
first_possible-none mask j (x ∷ xs) e = elim (Bool-cases (bit j mask && ltb 0 x)) [
  | inl t ↦ absurd (cc)
  | inr f ↦
      let e' : first_possible mask (j + 1) xs ≡ none = rw f at e in
      let at_j : j + 0 ≡ j = omega arith in
      Every-cons _ x xs (rw at_j f) (λ i y g.
        let s : j + suc i ≡ j + 1 + i = omega arith in
        rw s (first_possible-none mask (j + 1) xs e' i y g))
]
