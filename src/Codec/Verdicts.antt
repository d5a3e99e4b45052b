-- ===== src/Codec/Verdicts.antt =====
-- Which NAL units src/rtp_codec_detector.cpp tells apart: RFC 6184, 1.3 and RFC 7798, 1.1.4.
use pixel_pilot_rk.Common.{
  ℕ, ◌+◌, ◌*◌, ◌<◌, ◌≤◌, ◌≡◌, refl, ap, ◌⊎◌, Bool, true, false, ◌||◌, some, List, ◌∷◌, ◌==◌,
  if◌then◌else◌, length, arith,
}
use pixel_pilot_rk.Codec.{
  unknown, h264, h265, h264_found, h265_slice, h265_fragment, verdict, detect_rtp_codec,
}
use pixel_pilot_rk.Codec.Packets.{h265_of, detect-first_bytes}

-- The types of the slices, 0 to 21, and of the parameter sets.
abbrev pub IsH265Unit : ℕ → Type 0
IsH265Unit type = type < 22 ⊎ (31 < type × type < 35)

abbrev pub IsH264Unit : ℕ → Type 0
IsH264Unit type = type ≡ 1 ⊎ type ≡ 5 ⊎ type ≡ 7 ⊎ type ≡ 8

module _ (type tid : ℕ) (layer_0 : tid < 8) (known : IsH265Unit type) where
  h264_found-h265 : (n : ℕ) → h264_found (2 * type) tid n ≡ (type == 4 || type == 20)
  unfolding h264_found
  h264_found-h265 n = ground arith

  h265_of-h265 : 0 < tid → (b2 : ℕ) → h265_of (2 * type) tid b2 ≡ true
  unfolding h265_of h265_slice
  h265_of-h265 p b2 = ground arith

verdict-true : (b : Bool) → verdict b true ≡ (if b then unknown else h265)
verdict-true true = refl
verdict-true false = refl

-- A single NAL unit of H.265, a slice or a parameter set of layer 0 with a temporal id that is not 0, is
-- told to be H.265, if the packet has 64 bytes of payload; but the types 4 and 20, whose first bytes are
-- those of an H.264 picture parameter set, tell nothing.
pub detect-h265 :
    (type tid b2 : ℕ) (rest : List ℕ)
    → IsH265Unit type
    → 0 < tid
    → tid < 8
    → 61 ≤ length rest
    → detect_rtp_codec ((2 * type) ∷ tid ∷ b2 ∷ rest)
      ≡ some (if type == 4 || type == 20 then unknown else h265)
detect-h265 type tid b2 rest u p l h =
    rw
      (
        detect-first_bytes (2 * type) tid b2 rest h,
        h264_found-h265 type tid l u (length ((2 * type) ∷ tid ∷ b2 ∷ rest)),
        h265_of-h265 type tid l u p b2,
      )
      (ap (λ c. some c) (verdict-true (type == 4 || type == 20)))

module _ (type b1 : ℕ) (known : IsH264Unit type) where
  h264_found-h264 : (n : ℕ) → h264_found (96 + type) b1 n ≡ true
  unfolding h264_found
  h264_found-h264 n = ground arith

  h265_of-h264 : (b2 : ℕ) → h265_of (96 + type) b1 b2 ≡ false
  unfolding h265_of h265_slice h265_fragment
  h265_of-h264 b2 = ground arith

-- A single NAL unit of H.264 of the highest reference priority, a slice or a parameter set, is told to be
-- H.264, whatever follows its first byte, if the packet has 64 bytes of payload.
pub detect-h264 :
    (type b1 b2 : ℕ) (rest : List ℕ)
    → IsH264Unit type
    → 61 ≤ length rest
    → detect_rtp_codec ((96 + type) ∷ b1 ∷ b2 ∷ rest) ≡ some h264
detect-h264 type b1 b2 rest u h =
    rw
      (
        detect-first_bytes (96 + type) b1 b2 rest h,
        h264_found-h264 type b1 u (length ((96 + type) ∷ b1 ∷ b2 ∷ rest)),
        h265_of-h264 type b1 u b2,
      )
      refl
