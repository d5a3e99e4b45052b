-- ===== src/Drm/Fit/Inside.antt =====
-- The plane stays inside the CRTC (`modeset_atomic_prepare_commit`, src/drm.c).
use native.Mathlib.Nat.{div-le_of_le-mul}
use pixel_pilot_rk.Common.{
  ℕ, ◌+◌, ◌*◌, ◌/◌, ◌^◌, ◌≤◌, ◌<◌, ◌≡◌, ◌⊎◌, inl, inr, refl, true, false, ltb, arith, Bool-cases,
  ltb→lt, dec_lt,
}
use pixel_pilot_rk.Drm.Fit.{
  Ratio, whole, AtMost, IsRounding, Rect, half_gap, of_u32, div, fit_size, fit,
}

quotient_le : (n d m : ℕ) → n ≤ m * d → n / d ≤ m
quotient_le n d m h = div-le_of_le-mul d (omega arith)

not-ltb→le : (a b : ℕ) → ltb a b ≡ false → b ≤ a
not-ltb→le a b h = ground arith

module _ (round : Ratio → Ratio) (law : IsRounding round) (cw ch : ℕ) (r : Ratio) where
  abbrev exact_height : Ratio
  exact_height = record { num = cw * r.den; den = 1 * r.num }

  abbrev exact_width : Ratio
  exact_width = record { num = ch * r.num; den = 1 * r.den }

  -- The comparison of the rounded height says how the exact one compares.
  too_tall :
      ch ≤ 2 ^ 24
      → 0 < r.num
      → ltb (ch * (round exact_height).den) ((round exact_height).num * 1) ≡ true
      → ch * r.num < cw * r.den
  too_tall hh p t = elim (dec_lt (ch * r.num) (cw * r.den)) [
    | yes lt ↦ lt
    | no le ↦
        let m = law.mono exact_height (whole ch) (omega arith) (omega arith) (omega arith) in
        let m' : AtMost (round exact_height) (whole ch) = rw (law.exact ch hh) at m in
        absurd (omega (arith, ltb→lt _ _ t, m'))
  ]

  width_fits :
      cw ≤ 2 ^ 24
      → 0 < r.den
      → ch * r.num < cw * r.den
      → (round exact_width).num / (round exact_width).den ≤ cw
  width_fits hw q lt =
      let m = law.mono exact_width (whole cw) (omega arith) (omega arith) (omega arith) in
      let m' : AtMost (round exact_width) (whole cw) = rw (law.exact cw hw) at m in
      quotient_le _ _ cw (omega (arith, m'))

  -- Where the width is cut down, the height fills the area; else the width does.
  pub fit_size-le :
      cw ≤ 2 ^ 24
      → ch ≤ 2 ^ 24
      → 0 < r.num
      → 0 < r.den
      → let (w, h) = fit_size round cw ch r in (w ≤ cw) × (h ≤ ch) × ((w ≡ cw) ⊎ (h ≡ ch))
  unfolding fit_size
  fit_size-le hw hh p q =
      rw (law.exact cw hw, law.exact ch hh)
        (elim (Bool-cases (ltb (ch * (round exact_height).den) ((round exact_height).num * 1))) [
          | inl t ↦ rw t (width_fits hw q (too_tall hh p t), omega arith, inr refl)
          | inr f ↦
              rw f (omega arith, quotient_le _ _ ch (omega (arith, not-ltb→le _ _ f)), inl refl)
        ])

half_gap-fits : (a b : ℕ) → b ≤ a → a < 2 ^ 32 → 2 * half_gap a b + b ≤ a
half_gap-fits a b h k = omega arith

half_gap-centred : (a b : ℕ) → b ≤ a → a < 2 ^ 32 → a ≤ 2 * half_gap a b + b + 1
half_gap-centred a b h k = omega arith

-- A rectangle inside the area, centred in it to within a pixel, and as wide or as high as the area.
pub record Inside (cw ch : ℕ) (t : Rect) : Type 0 where
  pub right : 2 * t.x + t.w ≤ cw
  pub bottom : 2 * t.y + t.h ≤ ch
  pub centred_x : cw ≤ 2 * t.x + t.w + 1
  pub centred_y : ch ≤ 2 * t.y + t.h + 1
  pub fills : (t.w ≡ cw) ⊎ (t.h ≡ ch)

Inside-gaps :
    (cw ch w h : ℕ)
    → cw ≤ 2 ^ 24
    → ch ≤ 2 ^ 24
    → w ≤ cw
    → h ≤ ch
    → (w ≡ cw) ⊎ (h ≡ ch)
    → Inside cw ch (record { x = half_gap cw w; y = half_gap ch h; w = w; h = h })
Inside-gaps cw ch w h p q pw ph f = record {
  right = half_gap-fits cw w pw (omega arith);
  bottom = half_gap-fits ch h ph (omega arith);
  centred_x = half_gap-centred cw w pw (omega arith);
  centred_y = half_gap-centred ch h ph (omega arith);
  fills = f;
}

ratio_positive :
    (round : Ratio → Ratio) (width height : ℕ)
    → IsRounding round
    → 0 < width
    → 0 < height
    → width ≤ 2 ^ 24
    → height ≤ 2 ^ 24
    → let r = div round (of_u32 round width) (of_u32 round height) in (0 < r.num) × (0 < r.den)
ratio_positive round width height law pw ph hw hh =
    rw (law.exact width hw, law.exact height hh)
      (law.normal (record { num = width * 1; den = 1 * height }) (omega arith) (omega arith)
        (omega arith))

-- Without stretching, a picture of up to 2^24 by 2^24 pixels in an area of up to 2^24 by 2^24 gets a
-- rectangle that lies inside the area, is centred to within a pixel, and fills the area's width or
-- height, whichever way the float operations round.
pub fit-Inside :
    (round : Ratio → Ratio) (cw ch width height : ℕ)
    → IsRounding round
    → cw ≤ 2 ^ 24
    → ch ≤ 2 ^ 24
    → 0 < width
    → 0 < height
    → width ≤ 2 ^ 24
    → height ≤ 2 ^ 24
    → Inside cw ch (fit round cw ch width height false)
unfolding fit
fit-Inside round cw ch width height law p q pw ph hw hh =
    let r = div round (of_u32 round width) (of_u32 round height) in
    let (n, d) = ratio_positive round width height law pw ph hw hh in
    let (a, b, c) = fit_size-le round law cw ch r p q n d in Inside-gaps cw ch _ _ p q a b c
