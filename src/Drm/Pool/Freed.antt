-- ===== src/Drm/Pool/Freed.antt =====
-- What the buffers of the pool (src/main.cpp) hold, and that they are freed.
use pixel_pilot_rk.Common.{
  ℕ, ◌+◌, ℤ, pos, negsuc, is_neg, length, length-append, ◌<◌, ◌≡◌, ◌⊎◌, inl, inr, refl, Bool, true,
  false, List, [], ◌∷◌, ◌++◌, All, All-append, arith, is_zero,
}
use pixel_pilot_rk.Drm.Modes.{ModeInfo}
use pixel_pilot_rk.Drm.Kernel.{Kernel, World, Resource}
use pixel_pilot_rk.Drm.Kernel.Monad.{Returns, Returns-mono, pure, ◌>>=◌, Returns-and_then}
use pixel_pilot_rk.Drm.Kernel.Ledger.{Gains, Loses, tally, Same, Same-refl, tally-append}
use pixel_pilot_rk.Drm.Buffers.{create_wb_fb, destroy_wb_fb}
use pixel_pilot_rk.Drm.Buffers.Capture.{
  NumbersFromOne, wb_owned, create_wb_fb-Created, destroy_wb_fb-Loses,
}
use pixel_pilot_rk.Drm.Pool.{Slot, free_wb_bufs, create_bufs, of_mode}

-- A buffer that was made.
abbrev pub IsMade : Slot → Type 0
IsMade s = (0 < s.buf.fb) × (0 < s.buf.handle)

abbrev pub pool_owned : List Slot → List Resource
pool_owned [] = []
pool_owned (s ∷ rest) = wb_owned s.buf ++ pool_owned rest

pub free_wb_bufs-Loses :
    (ss : List Slot) (w : World)
    → All IsMade ss
    → Returns (free_wb_bufs ss w) (λ _ w'. Loses w w' (pool_owned ss))
unfolding free_wb_bufs
free_wb_bufs-Loses [] w h = Same-refl w
free_wb_bufs-Loses (s ∷ rest) w h =
    Returns-and_then (destroy_wb_fb s.buf w) _ _ _ (destroy_wb_fb-Loses s.buf w h.0.0 h.0.1)
      λ b v l.
        Returns-and_then (free_wb_bufs rest v) _ _ _ (free_wb_bufs-Loses rest v h.1)
          λ _ v' l' r. omega (arith, l r, l' r, tally-append r (wb_owned s.buf) (pool_owned rest))

pub pool_owned-append :
    (r : Resource) (xs ys : List Slot)
    → tally r (pool_owned (xs ++ ys)) ≡ tally r (pool_owned xs) + tally r (pool_owned ys)
pool_owned-append r [] ys = omega arith
pool_owned-append r (s ∷ xs) ys = omega (
  arith,
  pool_owned-append r xs ys,
  tally-append r (wb_owned s.buf) (pool_owned (xs ++ ys)),
  tally-append r (wb_owned s.buf) (pool_owned xs),
)

-- A buffer that was made, and that nobody uses.
abbrev pub IsFree : Slot → Type 0
IsFree s = IsMade s × (s.busy ≡ false)

pub free-IsMade : (ss : List Slot) → All IsFree ss → All IsMade ss
free-IsMade [] h = tt
free-IsMade (s ∷ ss) h = (h.0.0, free-IsMade ss h.1)

pub is_zero_neg : (c : ℤ) → is_neg c ≡ true → is_zero c ≡ false
is_zero_neg (pos n) h = cc
is_zero_neg (negsuc n) h = refl

-- All `n` buffers are made and held, or none is.
abbrev pub AllMade : ℕ → World → Bool × List Slot → World → Type 0
AllMade n start (done, ss) w' =
    ((done ≡ true) × All IsFree ss × (length ss ≡ n) × Gains start w' (pool_owned ss))
    ⊎ ((done ≡ false) × Same start w')

module _ (k : Kernel) (ids : NumbersFromOne k) (mode : ModeInfo) (start : World) where
  -- Behind a buffer that was not made.
  unmade :
      (made rest : List Slot) (w v : World)
      → All IsFree made
      → Gains start w (pool_owned made)
      → Same w v
      → (n : ℕ)
      → Returns {A = Bool × List Slot}
          ((do freed ← free_wb_bufs made; pure (false, freed ++ rest)) v)
          (AllMade n start)
  unmade made rest w v h g e n =
      Returns-and_then (free_wb_bufs made v) _ _ _ (free_wb_bufs-Loses made v (free-IsMade made h))
        (λ _ u l. inr (refl, λ r. omega (arith, g r, e r, l r)))

  pub create_bufs-AllMade :
      (made rest : List Slot) (w : World)
      → All IsFree made
      → Gains start w (pool_owned made)
      → Returns (create_bufs k mode made rest w) (AllMade (length made + length rest) start)
  unfolding create_bufs
  create_bufs-AllMade made [] w h g = inl (refl, h, omega arith, g)
  create_bufs-AllMade made (s ∷ rest) w h g =
      Returns-and_then (create_wb_fb k (of_mode mode s.buf) w) _ _ _
        (create_wb_fb-Created k (of_mode mode s.buf) w ids)
        λ (c, b) v o. elim o [
          | inl (z, l, p, q) ↦
              let t : Slot = record { buf = b; busy = false } in
              rw z (
                Returns-mono (create_bufs k mode (made ++ t ∷ []) rest v) _ _
                  (create_bufs-AllMade (made ++ t ∷ []) rest v
                    (All-append IsFree made (t ∷ []) h (((p, q), refl), tt))
                    (λ r. omega (
                      arith,
                      g r,
                      l r,
                      pool_owned-append r made (t ∷ []),
                      tally-append r (wb_owned b) [],
                    )))
                  (λ x u a. elim a [
                    | inl (d, f, e, m) ↦
                        inl (d, f, omega (arith, e, length-append made (t ∷ [])), m)
                    | inr y ↦ inr y
                  ]))
          | inr (n, e) ↦
              rw (is_zero_neg c n) (unmade made (record s { buf = b } ∷ rest) w v h g e _)
        ]
