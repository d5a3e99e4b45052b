-- ===== src/Dvr/Keyframe/Scan.antt =====
-- What `au_is_keyframe` (src/dvr/ts_writer.cpp) finds, whatever it skips.
use pixel_pilot_rk.Common.{
  ℕ, zero, suc, ◌<◌, ◌≡◌, ◌↔◌, inl, inr, refl, true, false, ◌&&◌, ◌==◌, List, [], ◌∷◌, arith,
  Bool-cases, length,
}
use pixel_pilot_rk.Dvr.Keyframe.{au_is_keyframe, scan, is_irap}

-- At position `i` stands a start code, 00 00 01, before a NAL unit of an IRAP type.
abbrev pub IrapAt : ℕ → List ℕ → Type 0
IrapAt zero (a ∷ b ∷ c ∷ n ∷ rest) = (a ≡ 0) × (b ≡ 0) × (c ≡ 1) × (is_irap n ≡ true)
IrapAt zero _ = ⊥
IrapAt (suc i) [] = ⊥
IrapAt (suc i) (a ∷ d) = IrapAt i d

abbrev pub HasIrap : List ℕ → Type 0
HasIrap d = (i : ℕ) × IrapAt i d

scan-HasIrap : (d : List ℕ) → scan d ≡ true → HasIrap d
unfolding scan
scan-HasIrap [] h = absurd (cc)
scan-HasIrap (a ∷ []) h = absurd (cc)
scan-HasIrap (a ∷ b ∷ []) h = absurd (cc)
scan-HasIrap (a ∷ b ∷ c ∷ []) h = absurd (cc)
scan-HasIrap (a ∷ b ∷ c ∷ n ∷ rest) h = elim (Bool-cases (a == 0 && b == 0 && c == 1)) [
  | inr t ↦ let (i, p) = scan-HasIrap (b ∷ c ∷ n ∷ rest) (rw t at h) in (suc i, p)
  | inl t ↦ elim (Bool-cases (is_irap n)) [
    | inl y ↦ (0, (ground arith, ground arith, ground arith, y))
    | inr z ↦ let (i, p) = scan-HasIrap (n ∷ rest) (rw (t, z) at h) in (suc (suc (suc i)), p)
  ]
]

IrapAt-ge_four : (i : ℕ) (d : List ℕ) → length d < 4 → IrapAt i d → ⊥
IrapAt-ge_four zero [] h p = p
IrapAt-ge_four zero (a ∷ []) h p = p
IrapAt-ge_four zero (a ∷ b ∷ []) h p = p
IrapAt-ge_four zero (a ∷ b ∷ c ∷ []) h p = p
IrapAt-ge_four zero (a ∷ b ∷ c ∷ n ∷ rest) h p = absurd (omega arith)
IrapAt-ge_four (suc i) [] h p = p
IrapAt-ge_four (suc i) (a ∷ d) h p = IrapAt-ge_four i d (omega arith) p

IrapAt-head : (a b : ℕ) (d : List ℕ) → IrapAt 0 (a ∷ b ∷ d) → (a ≡ 0) × (b ≡ 0)
IrapAt-head a b [] h = absurd h
IrapAt-head a b (c ∷ []) h = absurd h
IrapAt-head a b (c ∷ n ∷ d) (p, q, r, y) = (p, q)

no_start : (a b c : ℕ) → c ≡ 0 → (a == 0 && b == 0 && c == 1) ≡ false
no_start a b c h = ground arith

-- Two start codes do not overlap, so the skip behind one misses none.
IrapAt-scan : (i : ℕ) (d : List ℕ) → IrapAt i d → scan d ≡ true
unfolding scan
IrapAt-scan i [] h = absurd (IrapAt-ge_four i [] (omega arith) h)
IrapAt-scan i (a ∷ []) h = absurd (IrapAt-ge_four i (a ∷ []) (omega arith) h)
IrapAt-scan i (a ∷ b ∷ []) h = absurd (IrapAt-ge_four i (a ∷ b ∷ []) (omega arith) h)
IrapAt-scan i (a ∷ b ∷ c ∷ []) h = absurd (IrapAt-ge_four i (a ∷ b ∷ c ∷ []) (omega arith) h)
IrapAt-scan zero (a ∷ b ∷ c ∷ n ∷ rest) (p, q, r, y) = rw (p, q, r, y) refl
IrapAt-scan (suc zero) (a ∷ b ∷ c ∷ n ∷ rest) h =
    rw (no_start a b c (IrapAt-head b c (n ∷ rest) h).1) (IrapAt-scan zero (b ∷ c ∷ n ∷ rest) h)
IrapAt-scan (suc (suc zero)) (a ∷ b ∷ c ∷ n ∷ rest) h =
    rw (no_start a b c (IrapAt-head c n rest h).0) (IrapAt-scan (suc zero) (b ∷ c ∷ n ∷ rest) h)
IrapAt-scan (suc (suc (suc i))) (a ∷ b ∷ c ∷ n ∷ rest) h =
    elim (Bool-cases (a == 0 && b == 0 && c == 1)) [
      | inr t ↦ rw t (IrapAt-scan (suc (suc i)) (b ∷ c ∷ n ∷ rest) h)
      | inl t ↦ elim (Bool-cases (is_irap n)) [
        | inl y ↦ rw (t, y) refl
        | inr z ↦ rw (t, z) (IrapAt-scan i (n ∷ rest) h)
      ]
    ]

-- An access unit is taken for a keyframe exactly if an IRAP NAL unit starts somewhere in it: what the
-- scan skips behind a start code cannot start another.
pub au_is_keyframe_iff : (d : List ℕ) → (au_is_keyframe d ≡ true) ↔ HasIrap d
unfolding au_is_keyframe
au_is_keyframe_iff d = (scan-HasIrap d, λ (i, h). IrapAt-scan i d h)
