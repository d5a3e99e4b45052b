-- ===== src/Drm/Fit.antt =====
-- The rectangle of the CRTC that a plane covers: the aspect-ratio code of
-- `modeset_atomic_prepare_commit` (src/drm.c). It computes in `float`; a float is a ratio of numbers
-- here (n / 0 is infinity and 0 / 0 NaN), and every operation is the exact one followed by a
-- rounding, which is a parameter.
pub mod Inside
use pixel_pilot_rk.Common.{ℕ, ◌+◌, ◌-◌, ◌*◌, ◌/◌, ◌%◌, ◌^◌, ◌≤◌, ◌<◌, ◌≡◌, Bool, if◌then◌else◌, ltb}

pub record Ratio : Type 0 where
  pub num : ℕ
  pub den : ℕ

abbrev pub whole : ℕ → Ratio
whole n = record { num = n; den = 1 }

abbrev pub AtMost : Ratio → Ratio → Type 0
AtMost x y = x.num * y.den ≤ y.num * x.den

-- What IEEE 754 says of rounding to `float`: it is monotone, whole numbers up to 2^24 are floats, and
-- from 2^-64 to 2^64 nothing becomes 0 or infinite.
pub record IsRounding (round : Ratio → Ratio) : Type 0 where
  pub mono : (x y : Ratio) → 0 < x.den → 0 < y.den → AtMost x y → AtMost (round x) (round y)
  pub exact : (n : ℕ) → n ≤ 2 ^ 24 → round (whole n) ≡ whole n
  pub normal :
      (x : Ratio)
      → x.den ≤ 2 ^ 64 * x.num
      → x.num ≤ 2 ^ 64 * x.den
      → 0 < x.den
      → (0 < (round x).num) × (0 < (round x).den)

-- `crtcx`, `crtcy`, `crtcw`, `crtch`.
pub record Rect : Type 0 where
  pub x : ℕ
  pub y : ℕ
  pub w : ℕ
  pub h : ℕ

-- The conversion to `uint32_t` drops the fraction.
abbrev pub to_u32 : Ratio → ℕ
to_u32 x = x.num / x.den

abbrev pub gt : Ratio → Ratio → Bool
gt x y = ltb (y.num * x.den) (x.num * y.den)

-- `(a - b) / 2` in `uint32_t`.
abbrev pub half_gap : ℕ → ℕ → ℕ
half_gap a b = (a + 2 ^ 32 - b) % 2 ^ 32 / 2

module _ (round : Ratio → Ratio) where
  abbrev pub of_u32 : ℕ → Ratio
  of_u32 n = round (whole n)

  abbrev pub div : Ratio → Ratio → Ratio
  div x y = round (record { num = x.num * y.den; den = x.den * y.num })

  abbrev pub mul : Ratio → Ratio → Ratio
  mul x y = round (record { num = x.num * y.num; den = x.den * y.den })

  -- `crtcw` and `crtch` of a picture of that ratio in an area of `cw` by `ch`.
  pub fit_size : ℕ → ℕ → Ratio → ℕ × ℕ
  fit_size cw ch ratio =
      if gt (div (of_u32 cw) ratio) (of_u32 ch)
      then (to_u32 (mul (of_u32 ch) ratio), ch)
      else (cw, to_u32 (div (of_u32 cw) ratio))

  -- `cw` and `ch` are `video_crtc_width` and `video_crtc_height`.
  unfoldable pub fit : ℕ → ℕ → ℕ → ℕ → Bool → Rect
  unfolding fit_size
  fit cw ch width height stretch =
      if stretch
      then record { x = 0; y = 0; w = cw; h = ch }
      else let (w, h) = fit_size cw ch (div (of_u32 width) (of_u32 height)) in
        record { x = half_gap cw w; y = half_gap ch h; w = w; h = h }
