-- ===== src/Drm/Modes/Requested.antt =====
-- The scan for a requested mode in `modeset_output_create` (src/drm.c) against its meaning.
use native.Mathlib.Nat.{zero-add}
use pixel_pilot_rk.Common.{
  ℕ, zero, suc, ◌+◌, ◌<◌, ◌≡◌, refl, ◌⊎◌, inl, inr, true, false, Option, none, some, List, [], ◌∷◌,
  arith, get_elem?, Every, Every-nil, Every-cons, Bool-cases, Option-cases,
}
use pixel_pilot_rk.Drm.Modes.{
  ModeInfo, Request, Scan, matches, is_interlaced, is_preferred, scan_step, scan_loop, nothing_seen,
  requested_mode,
}

-- The mode has the requested size and rate.
pub record Matches (r : Request) (m : ModeInfo) : Type 0 where
  pub width : m.hdisplay ≡ r.width
  pub height : m.vdisplay ≡ r.height
  pub rate : m.vrefresh ≡ r.refresh

matches→Matches : (r : Request) (m : ModeInfo) → matches r m ≡ true → Matches r m
matches→Matches r m h = ground arith

not-Matches : (r : Request) (m : ModeInfo) → matches r m ≡ false → ¬ Matches r m
not-Matches r m h q = ground arith

-- Which mode `fc` names after the scan of `ms`, whose head stands at `i`, with `fc = s` before.
data FcOutcome (r : Request) (i : ℕ) (ms : List ModeInfo) (s t : Option ℕ) : Type 0 where
  progressive :
      (j : ℕ) (m : ModeInfo)
      → get_elem? ms j ≡ some m
      → t ≡ some (i + j)
      → Matches r m
      → is_interlaced m ≡ false
      → Every (λ k n. j < k → Matches r n → is_interlaced n ≡ true) ms
      → FcOutcome r i ms s t
  kept :
      (x : ℕ)
      → s ≡ some x
      → t ≡ some x
      → Every (λ _ n. Matches r n → is_interlaced n ≡ true) ms
      → FcOutcome r i ms s t
  first :
      (j : ℕ) (m : ModeInfo)
      → s ≡ none
      → get_elem? ms j ≡ some m
      → t ≡ some (i + j)
      → Matches r m
      → Every (λ k n. k < j → ¬ Matches r n) ms
      → Every (λ _ n. Matches r n → is_interlaced n ≡ true) ms
      → FcOutcome r i ms s t
  missing : s ≡ none → t ≡ none → Every (λ _ n. ¬ Matches r n) ms → FcOutcome r i ms s t

-- A matching interlaced mode at the head.
fc-interlaced :
    (r : Request) (i : ℕ) (m : ModeInfo) (ms : List ModeInfo) (s s' t : Option ℕ)
    → Matches r m
    → is_interlaced m ≡ true
    → ((x : ℕ) → s ≡ some x → s' ≡ some x)
    → (s ≡ none → s' ≡ some i)
    → FcOutcome r (i + 1) ms s' t
    → FcOutcome r i (m ∷ ms) s t
fc-interlaced r i m ms s s' t q il old new (progressive j n g e qn pn after) =
    progressive (suc j) n g (ground arith) qn pn
      (Every-cons _ m ms (λ _ _. il) (λ k y g' lt. after k y g' (omega arith)))
fc-interlaced r i m ms s s' t q il old new (kept x e e' all) = elim (Option-cases s) [
  | inl z ↦
      first zero m z refl (ground (arith, new z)) q (λ k y g lt. elim lt [ ])
        (Every-cons _ m ms (λ _. il) all)
  | inr (y, z) ↦ kept y z (ground (arith, old y z)) (Every-cons _ m ms (λ _. il) all)
]
fc-interlaced r i m ms s s' t q il old new (first j n z g e qn before all) =
    absurd (elim (Option-cases s) [ inl y ↦ cc (new y) | inr (x, y) ↦ cc (old x y) ])
fc-interlaced r i m ms s s' t q il old new (missing z e all) =
    absurd (elim (Option-cases s) [ inl y ↦ cc (new y) | inr (x, y) ↦ cc (old x y) ])

-- A head that does not match.
fc-other :
    (r : Request) (i : ℕ) (m : ModeInfo) (ms : List ModeInfo) (s t : Option ℕ)
    → ¬ Matches r m
    → FcOutcome r (i + 1) ms s t
    → FcOutcome r i (m ∷ ms) s t
fc-other r i m ms s t nq (progressive j n g e qn pn after) =
    progressive (suc j) n g (ground arith) qn pn
      (Every-cons _ m ms (λ _ q. absurd (nq q)) (λ k y g' lt. after k y g' (omega arith)))
fc-other r i m ms s t nq (kept x e e' all) =
    kept x e e' (Every-cons _ m ms (λ q. absurd (nq q)) all)
fc-other r i m ms s t nq (first j n z g e qn before all) =
    first (suc j) n z g (ground arith) qn
      (Every-cons _ m ms (λ _. nq) (λ k y g' lt. before k y g' (omega arith)))
      (Every-cons _ m ms (λ q. absurd (nq q)) all)
fc-other r i m ms s t nq (missing z e all) = missing z e (Every-cons _ m ms nq all)

-- A matching progressive mode at the head.
fc-progressive :
    (r : Request) (i : ℕ) (m : ModeInfo) (ms : List ModeInfo) (s t : Option ℕ)
    → Matches r m
    → is_interlaced m ≡ false
    → FcOutcome r (i + 1) ms (some i) t
    → FcOutcome r i (m ∷ ms) s t
fc-progressive r i m ms s t q pr (progressive j n g e qn pn after) =
    progressive (suc j) n g (ground arith) qn pn
      (Every-cons _ m ms (λ lt. elim lt [ ]) (λ k y g' lt. after k y g' (omega arith)))
fc-progressive r i m ms s t q pr (kept x e e' all) =
    progressive zero m refl (ground arith) q pr
      (Every-cons _ m ms (λ lt. elim lt [ ]) (λ k y g' lt. all k y g'))
fc-progressive r i m ms s t q pr (first j n z g e qn before all) = absurd (cc)
fc-progressive r i m ms s t q pr (missing z e all) = absurd (cc)

-- The scan of the tail starts with another value of the variable.
from_fc :
    (r : Request) (i : ℕ) (ms : List ModeInfo) (s s' t : Option ℕ)
    → s ≡ s'
    → FcOutcome r i ms s t
    → FcOutcome r i ms s' t
from_fc r i ms s s' t e h = rw e at h

module _ (r : Request) where
  step-progressive :
      (i : ℕ) (m : ModeInfo) (s : Scan)
      → matches r m ≡ true
      → is_interlaced m ≡ false
      → (scan_step r i m s).fc ≡ some i
  unfolding scan_step
  step-progressive i m s h p = rw (h, p)

  step-interlaced :
      (i : ℕ) (m : ModeInfo) (s : Scan)
      → matches r m ≡ true
      → is_interlaced m ≡ true
      → ((x : ℕ) → s.fc ≡ some x → (scan_step r i m s).fc ≡ some x)
        × (s.fc ≡ none → (scan_step r i m s).fc ≡ some i)
  unfolding scan_step
  step-interlaced i m s h p = (λ x e. rw (h, p, e), λ e. rw (h, p, e))

  step-other :
      (i : ℕ) (m : ModeInfo) (s : Scan) → matches r m ≡ false → (scan_step r i m s).fc ≡ s.fc
  unfolding scan_step
  step-other i m s h = ground arith

  scan_loop-fc :
      (i : ℕ) (ms : List ModeInfo) (s : Scan) → FcOutcome r i ms s.fc (scan_loop r i ms s).fc
  unfolding scan_loop
  scan_loop-fc i [] s = elim (Option-cases s.fc) [
    | inl e ↦ missing e e (Every-nil _)
    | inr (x, e) ↦ kept x e e (Every-nil _)
  ]
  scan_loop-fc i (m ∷ ms) s = elim (Bool-cases (matches r m)) [
    | inr h ↦ fc-other r i m ms _ _ (not-Matches r m h) (
        from_fc r (i + 1) ms _ _ _ (step-other i m s h)
          (scan_loop-fc (i + 1) ms (scan_step r i m s)))
    | inl h ↦ elim (Bool-cases (is_interlaced m)) [
      | inl p ↦
          fc-interlaced r i m ms _ _ _ (matches→Matches r m h) p (step-interlaced i m s h p).0
            (step-interlaced i m s h p).1 (scan_loop-fc (i + 1) ms (scan_step r i m s))
      | inr p ↦ fc-progressive r i m ms _ _ (matches→Matches r m h) p (
          from_fc r (i + 1) ms _ _ _ (step-progressive i m s h p)
            (scan_loop-fc (i + 1) ms (scan_step r i m s)))
    ]
  ]

-- Which mode `preferred_fc` names after the scan: the last preferred one that does not match.
data PreferredOutcome (r : Request) (i : ℕ) (ms : List ModeInfo) (s t : Option ℕ) : Type 0 where
  last :
      (j : ℕ) (m : ModeInfo)
      → get_elem? ms j ≡ some m
      → t ≡ some (i + j)
      → is_preferred m ≡ true
      → Every (λ k n. j < k → ¬ Matches r n → is_preferred n ≡ false) ms
      → PreferredOutcome r i ms s t
  unchanged :
      t ≡ s → Every (λ _ n. ¬ Matches r n → is_preferred n ≡ false) ms → PreferredOutcome r i ms s t

preferred-head :
    (r : Request) (i : ℕ) (m : ModeInfo) (ms : List ModeInfo) (s t : Option ℕ)
    → is_preferred m ≡ true
    → PreferredOutcome r (i + 1) ms (some i) t
    → PreferredOutcome r i (m ∷ ms) s t
preferred-head r i m ms s t p (last j n g e pn after) =
    last (suc j) n g (ground arith) pn
      (Every-cons _ m ms (λ lt. elim lt [ ]) (λ k y g' lt. after k y g' (omega arith)))
preferred-head r i m ms s t p (unchanged e all) =
    last zero m refl (ground arith) p
      (Every-cons _ m ms (λ lt. elim lt [ ]) (λ k y g' lt. all k y g'))

preferred-other :
    (r : Request) (i : ℕ) (m : ModeInfo) (ms : List ModeInfo) (s t : Option ℕ)
    → (¬ Matches r m → is_preferred m ≡ false)
    → PreferredOutcome r (i + 1) ms s t
    → PreferredOutcome r i (m ∷ ms) s t
preferred-other r i m ms s t p (last j n g e pn after) =
    last (suc j) n g (ground arith) pn
      (Every-cons _ m ms (λ _. p) (λ k y g' lt. after k y g' (omega arith)))
preferred-other r i m ms s t p (unchanged e all) = unchanged e (Every-cons _ m ms p all)

from_preferred :
    (r : Request) (i : ℕ) (ms : List ModeInfo) (s s' t : Option ℕ)
    → s ≡ s'
    → PreferredOutcome r i ms s t
    → PreferredOutcome r i ms s' t
from_preferred r i ms s s' t e h = rw e at h

module _ (r : Request) where
  step-preferred :
      (i : ℕ) (m : ModeInfo) (s : Scan)
      → ((is_preferred m ≡ true) × ((scan_step r i m s).preferred_fc ≡ some i))
        ⊎ ((¬ Matches r m → is_preferred m ≡ false)
            × ((scan_step r i m s).preferred_fc ≡ s.preferred_fc))
  unfolding scan_step
  step-preferred i m s = elim (Bool-cases (matches r m)) [
    | inl h ↦ inr (λ nq. absurd (nq (matches→Matches r m h)), rw h)
    | inr h ↦ elim (Bool-cases (is_preferred m)) [
      | inl p ↦ inl (p, rw (h, p))
      | inr p ↦ inr (λ _. p, rw (h, p))
    ]
  ]

  scan_loop-preferred :
      (i : ℕ) (ms : List ModeInfo) (s : Scan)
      → PreferredOutcome r i ms s.preferred_fc (scan_loop r i ms s).preferred_fc
  unfolding scan_loop
  scan_loop-preferred i [] s = unchanged refl (Every-nil _)
  scan_loop-preferred i (m ∷ ms) s = elim (step-preferred i m s) [
    | inl (p, e) ↦
        preferred-head r i m ms _ _ p
          (from_preferred r (i + 1) ms _ _ _ e (scan_loop-preferred (i + 1) ms (scan_step r i m s)))
    | inr (p, e) ↦
        preferred-other r i m ms _ _ p
          (from_preferred r (i + 1) ms _ _ _ e (scan_loop-preferred (i + 1) ms (scan_step r i m s)))
  ]

-- What the index of a requested mode means.
abbrev pub Chooses : Request → List ModeInfo → Option ℕ → Type 0
Chooses r modes none = Every (λ _ n. ¬ Matches r n × (is_preferred n ≡ false)) modes
Chooses r modes (some i) =
    (m : ModeInfo) × (get_elem? modes i ≡ some m)
    × ((Matches r m
          × (is_interlaced m ≡ false)
          × Every (λ k n. i < k → Matches r n → is_interlaced n ≡ true) modes)
        ⊎ (Matches r m
            × Every (λ k n. k < i → ¬ Matches r n) modes
            × Every (λ _ n. Matches r n → is_interlaced n ≡ true) modes)
        ⊎ ((is_preferred m ≡ true)
            × Every (λ _ n. ¬ Matches r n) modes
            × Every (λ k n. i < k → is_preferred n ≡ false) modes))

preferred-Chooses :
    (r : Request) (modes : List ModeInfo) (t : Option ℕ)
    → Every (λ _ n. ¬ Matches r n) modes
    → PreferredOutcome r 0 modes none t
    → Chooses r modes t
preferred-Chooses r modes t no_match (last j m g e p after) =
    rw (e, zero-add) (m, g, inr (inr (p, no_match, λ k n g' lt. after k n g' lt (no_match k n g'))))
preferred-Chooses r modes t no_match (unchanged e all) =
    rw e (λ k n g. (no_match k n g, all k n g (no_match k n g)))

-- `fc < 0` falls back on `preferred_fc`.
abbrev or_preferred : Option ℕ → Option ℕ → Option ℕ
or_preferred fc p = elim fc [ some i ↦ some i | none ↦ p ]

fc-Chooses :
    (r : Request) (modes : List ModeInfo) (t p : Option ℕ)
    → FcOutcome r 0 modes none t
    → PreferredOutcome r 0 modes none p
    → Chooses r modes (or_preferred t p)
fc-Chooses r modes t p (progressive j m g e q pr after) pref =
    rw (e, zero-add) (m, g, inl (q, pr, after))
fc-Chooses r modes t p (kept x e e' all) pref = absurd (cc)
fc-Chooses r modes t p (first j m z g e q before all) pref =
    rw (e, zero-add) (m, g, inr (inl (q, before, all)))
fc-Chooses r modes t p (missing z e all) pref = rw e (preferred-Chooses r modes p all pref)

-- For a requested size and rate the scan names the last progressive mode that has them; if all
-- modes that have them are interlaced, the first of these; if none has them, the last preferred
-- mode; and it gives up only if no mode has them and none is preferred.
pub requested_mode-Chooses :
    (r : Request) (modes : List ModeInfo) → Chooses r modes (requested_mode r modes)
unfolding requested_mode
requested_mode-Chooses r modes =
    fc-Chooses r modes _ _ (scan_loop-fc r 0 modes nothing_seen)
      (scan_loop-preferred r 0 modes nothing_seen)
