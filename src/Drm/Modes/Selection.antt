-- ===== src/Drm/Modes/Selection.antt =====
-- `select_best_mode` (src/drm.c) against what it is meant to choose.
use native.Mathlib.Nat.{zero-add}
use pixel_pilot_rk.Common.{
  ℕ, zero, suc, ◌+◌, ◌*◌, ◌%◌, ◌≤◌, ◌<◌, ◌≡◌, refl, ◌≢◌, ◌⊎◌, inl, inr, Option, none, some, List,
  [], ◌∷◌, arith, get_elem?, Every, Every-nil, Every-cons,
}
use pixel_pilot_rk.Drm.Modes.{
  ModeInfo, Best, consider, select_loop, select_best_mode, nothing_yet, area,
}

-- The modes that the selection may take: at most 1920x1080, at the desired rate, or with no desired
-- rate at a multiple of 60.
pub record Eligible (desired : ℕ) (m : ModeInfo) : Type 0 where
  pub narrow : m.hdisplay ≤ 1920
  pub low : m.vdisplay ≤ 1080
  pub rate : ((desired ≡ 0) × (m.vrefresh % 60 ≡ 0)) ⊎ ((desired ≢ 0) × (m.vrefresh ≡ desired))

abbrev pub pixels : ModeInfo → ℕ
pixels m = m.hdisplay * m.vdisplay

-- Fewer pixels, or as many at a lower rate.
abbrev pub Below : ModeInfo → ℕ → ℕ → Type 0
Below m p r = (pixels m < p) ⊎ ((pixels m ≡ p) × (m.vrefresh < r))

abbrev pub AtMost : ModeInfo → ℕ → ℕ → Type 0
AtMost m p r = (pixels m < p) ⊎ ((pixels m ≡ p) × (m.vrefresh ≤ r))

record Small (b : Best) : Type 0 where
  w : b.width ≤ 1920
  h : b.height ≤ 1080

mul_le : (w h : ℕ) → w ≤ 1920 → h ≤ 1080 → w * h ≤ 1920 * 1080
mul_le w h p q = grind arith

area-eq : (w h : ℕ) → w ≤ 1920 → h ≤ 1080 → area w h ≡ w * h
area-eq w h p q = omega (arith, mul_le w h p q)

-- A round takes the mode exactly when it is eligible and outranks the best so far.
consider_cases :
    (d i : ℕ) (m : ModeInfo) (b : Best)
    → Small b
    → ((consider d i m b ≡ b) × (Eligible d m → AtMost m (b.width * b.height) b.refresh))
      ⊎ ((consider d i m b ≡ record {
        index = some i;
        width = m.hdisplay;
        height = m.vdisplay;
        refresh = m.vrefresh;
      })
          × Eligible d m
          × ((b.width * b.height < pixels m)
              ⊎ ((b.width * b.height ≡ pixels m) × (b.refresh < m.vrefresh))))
unfolding consider
consider_cases d i m b s =
    ground (arith, area-eq b.width b.height s.w s.h, area-eq m.hdisplay m.vdisplay)

abbrev entry : ℕ → ModeInfo → Best
entry i m = record { index = some i; width = m.hdisplay; height = m.vdisplay; refresh = m.vrefresh }

-- The best so far is outranked.
abbrev Above : ModeInfo → ℕ → ℕ → Type 0
Above m p r = (p < pixels m) ⊎ ((p ≡ pixels m) × (r < m.vrefresh))

abbrev Bounded : ℕ → ℕ → ℕ → ℕ → ModeInfo → Type 0
Bounded d p r k m = Eligible d m → AtMost m p r

-- `i` is the position of the list's head in the whole array.
data Outcome (d i : ℕ) (ms : List ModeInfo) (b r : Best) : Type 0 where
  kept : r ≡ b → Every (Bounded d (b.width * b.height) b.refresh) ms → Outcome d i ms b r
  took :
      (j : ℕ) (m : ModeInfo)
      → get_elem? ms j ≡ some m
      → r ≡ entry (i + j) m
      → Eligible d m
      → Above m (b.width * b.height) b.refresh
      → Every (Bounded d (pixels m) m.vrefresh) ms
      → Every (λ k n. k < j → Eligible d n → Below n (pixels m) m.vrefresh) ms
      → Outcome d i ms b r

Outcome-kept :
    (d i : ℕ) (m : ModeInfo) (ms : List ModeInfo) (b r : Best)
    → (Eligible d m → AtMost m (b.width * b.height) b.refresh)
    → Outcome d (i + 1) ms b r
    → Outcome d i (m ∷ ms) b r
Outcome-kept d i m ms b r h (kept e all) = kept e (Every-cons _ m ms h all)
Outcome-kept d i m ms b r h (took j n g e el up all first) =
    took (suc j) n g (ground arith) el up (Every-cons _ m ms (λ q. omega (arith, h q)) all)
      (Every-cons _ m ms (λ _ q. omega (arith, h q)) (λ k y g' lt. first k y g' (omega arith)))

Outcome-took :
    (d i : ℕ) (m : ModeInfo) (ms : List ModeInfo) (b r : Best)
    → Eligible d m
    → Above m (b.width * b.height) b.refresh
    → Outcome d (i + 1) ms (entry i m) r
    → Outcome d i (m ∷ ms) b r
Outcome-took d i m ms b r el up (kept e all) =
    took zero m refl (ground arith) el up (Every-cons _ m ms (λ _. omega arith) all)
      (λ k y g lt. elim lt [ ])
Outcome-took d i m ms b r el up (took j n g e el' up' all first) =
    took (suc j) n g (ground arith) el' omega arith (Every-cons _ m ms (λ q. omega arith) all)
      (Every-cons _ m ms (λ _ q. omega arith) (λ k y g' lt. first k y g' (omega arith)))

select_loop-Outcome :
    (d i : ℕ) (ms : List ModeInfo) (b : Best) → Small b → Outcome d i ms b (select_loop d i ms b)
unfolding select_loop
select_loop-Outcome d i [] b s = kept refl (Every-nil _)
select_loop-Outcome d i (m ∷ ms) b s = elim (consider_cases d i m b s) [
  | inl (e, h) ↦ Outcome-kept d i m ms b _ h (rw e (select_loop-Outcome d (i + 1) ms b s))
  | inr (e, el, up) ↦
      Outcome-took d i m ms b _ el up
        (rw e (select_loop-Outcome d (i + 1) ms (entry i m) (record { w = el.narrow; h = el.low })))
]

-- What a result of the selection means.
abbrev pub Selects : ℕ → List ModeInfo → Option ℕ → Type 0
Selects d modes none = Every (λ k n. Eligible d n → (pixels n ≡ 0) × (n.vrefresh ≡ 0)) modes
Selects d modes (some i) =
    (m : ModeInfo) × (get_elem? modes i ≡ some m)
    × Eligible d m
    × Every (λ k n. Eligible d n → AtMost n (pixels m) m.vrefresh) modes
    × Every (λ k n. k < i → Eligible d n → Below n (pixels m) m.vrefresh) modes

Outcome-Selects :
    (d : ℕ) (modes : List ModeInfo) (r : Best)
    → Outcome d 0 modes nothing_yet r
    → Selects d modes r.index
Outcome-Selects d modes r (kept e all) = rw e (λ k n g el. omega (arith, all k n g el))
Outcome-Selects d modes r (took j m g e el up all first) = rw (e, zero-add) (m, g, el, all, first)

-- `select_best_mode` returns the index of a mode of at most 1920x1080 at the desired rate (at a
-- multiple of 60 if none is desired) with the most pixels, at the highest rate among those with as
-- many, and the first of these. It returns -1 only if each such mode has no pixels and the rate 0.
pub select_best_mode-Selects :
    (modes : List ModeInfo) (d : ℕ) → Selects d modes (select_best_mode modes d)
unfolding select_best_mode
select_best_mode-Selects modes d =
    Outcome-Selects d modes _
      (select_loop-Outcome d 0 modes nothing_yet (record { w = omega arith; h = omega arith }))
