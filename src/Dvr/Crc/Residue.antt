-- ===== src/Dvr/Crc/Residue.antt =====
-- The check that a player makes on a section of src/dvr/ts_writer.cpp.
use pixel_pilot_rk.Common.{
  ℕ, zero, suc, ◌+◌, ◌*◌, ◌/◌, ◌%◌, ◌^◌, ◌<◌, ◌≡◌, refl, ap, ◌∙◌, List, [], ◌∷◌, ◌++◌, ◌==◌,
  bit_xor, bit_xor-high, bit_xor-lt, arith, All, Bool-cases, inl, inr,
}
use pixel_pilot_rk.Dvr.Crc.{crc_bit, crc_bits, crc_bytes, crc32_mpeg, big_endian}

abbrev pub IsByte : ℕ → Type 0
IsByte b = b < 256

crc_bit-low : (crc : ℕ) → crc < 2 ^ 31 → crc_bit crc ≡ crc * 2
unfolding crc_bit
crc_bit-low crc h = ground arith

crc_bit-lt : (crc : ℕ) → crc_bit crc < 2 ^ 32
unfolding crc_bit
crc_bit-lt crc = elim (Bool-cases (crc / 2 ^ 31 % 2 == 1)) [
  | inl t ↦ rw t (bit_xor-lt 32 (crc * 2 % 2 ^ 32) 0x04c11db7 (omega arith) (omega arith))
  | inr f ↦ rw f (omega arith)
]

crc_bits-lt : (n crc : ℕ) → crc < 2 ^ 32 → crc_bits n crc < 2 ^ 32
unfolding crc_bits
crc_bits-lt zero crc h = h
crc_bits-lt (suc n) crc h = crc_bits-lt n (crc_bit crc) (crc_bit-lt crc)

crc_bits-low : (crc : ℕ) → crc < 2 ^ 24 → crc_bits 8 crc ≡ crc * 2 ^ 8
unfolding crc_bits
crc_bits-low crc h = ground (
  arith,
  crc_bit-low crc (omega arith),
  crc_bit-low (crc * 2) (omega arith),
  crc_bit-low (crc * 2 * 2) (omega arith),
  crc_bit-low (crc * 2 * 2 * 2) (omega arith),
  crc_bit-low (crc * 2 * 2 * 2 * 2) (omega arith),
  crc_bit-low (crc * 2 * 2 * 2 * 2 * 2) (omega arith),
  crc_bit-low (crc * 2 * 2 * 2 * 2 * 2 * 2) (omega arith),
  crc_bit-low (crc * 2 * 2 * 2 * 2 * 2 * 2 * 2) (omega arith),
)

pub crc_bytes-lt :
    (crc : ℕ) (ds : List ℕ) → crc < 2 ^ 32 → All IsByte ds → crc_bytes crc ds < 2 ^ 32
unfolding crc_bytes
crc_bytes-lt crc [] h a = h
crc_bytes-lt crc (d ∷ ds) h a =
    crc_bytes-lt (crc_bits 8 (bit_xor crc (d * 2 ^ 24))) ds
      (crc_bits-lt 8 _ (bit_xor-lt 32 crc (d * 2 ^ 24) h (omega (arith, a.0)))) a.1

crc_bytes-append :
    (crc : ℕ) (ds es : List ℕ) → crc_bytes crc (ds ++ es) ≡ crc_bytes (crc_bytes crc ds) es
unfolding crc_bytes
crc_bytes-append crc [] es = refl
crc_bytes-append crc (d ∷ ds) es = crc_bytes-append (crc_bits 8 (bit_xor crc (d * 2 ^ 24))) ds es

-- The byte at the top of the register shifts it by a byte.
shift :
    (top low : ℕ)
    → low < 2 ^ 24
    → crc_bits 8 (bit_xor (top * 2 ^ 24 + low) (top * 2 ^ 24)) ≡ low * 2 ^ 8
shift top low h = rw (bit_xor-high 24 top low h) (crc_bits-low low h)

top_byte :
    (crc d : ℕ) (ds : List ℕ)
    → d ≡ crc / 2 ^ 24
    → crc_bytes crc (d ∷ ds) ≡ crc_bytes (crc % 2 ^ 24 * 2 ^ 8) ds
unfolding crc_bytes
top_byte crc d ds e =
    let parts : crc ≡ d * 2 ^ 24 + crc % 2 ^ 24 = omega arith in
    ap (λ c. crc_bytes c ds)
      (ap (λ x. crc_bits 8 (bit_xor x (d * 2 ^ 24))) parts ∙ shift d (crc % 2 ^ 24) (omega arith))

crc_bytes_self : (crc : ℕ) → crc < 2 ^ 32 → crc_bytes crc (big_endian crc) ≡ 0
unfolding crc_bytes big_endian
crc_bytes_self crc h =
    let second : ℕ = crc % 2 ^ 24 * 2 ^ 8 in
    let third : ℕ = second % 2 ^ 24 * 2 ^ 8 in
    let fourth : ℕ = third % 2 ^ 24 * 2 ^ 8 in
    let done : fourth % 2 ^ 24 * 2 ^ 8 ≡ 0 = omega arith in
    top_byte crc (crc / 2 ^ 24 % 256)
      ((crc / 2 ^ 16 % 256) ∷ (crc / 2 ^ 8 % 256) ∷ (crc % 256) ∷ []) (omega arith)
    ∙ top_byte second (crc / 2 ^ 16 % 256) ((crc / 2 ^ 8 % 256) ∷ (crc % 256) ∷ []) (omega arith)
    ∙ top_byte third (crc / 2 ^ 8 % 256) ((crc % 256) ∷ []) (omega arith)
    ∙ top_byte fourth (crc % 256) [] (omega arith)
    ∙ done

-- A section followed by its CRC, the highest byte first, has the CRC 0.
pub crc32_mpeg-residue :
    (ds : List ℕ) → All IsByte ds → crc32_mpeg (ds ++ big_endian (crc32_mpeg ds)) ≡ 0
unfolding crc32_mpeg
crc32_mpeg-residue ds a =
    crc_bytes-append 0xffffffff ds (big_endian (crc_bytes 0xffffffff ds))
    ∙ crc_bytes_self (crc_bytes 0xffffffff ds) (crc_bytes-lt 0xffffffff ds (omega arith) a)
