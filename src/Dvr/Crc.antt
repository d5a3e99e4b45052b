-- ===== src/Dvr/Crc.antt =====
-- CRC-32/MPEG-2: `crc32_mpeg` (src/dvr/ts_writer.cpp).
pub mod Residue
use pixel_pilot_rk.Common.{
  ℕ, zero, suc, ◌*◌, ◌/◌, ◌%◌, ◌^◌, List, [], ◌∷◌, ◌==◌, if◌then◌else◌, bit_xor,
}

-- One of the eight rounds for a byte.
unfoldable pub crc_bit : ℕ → ℕ
crc_bit crc =
    if crc / 2 ^ 31 % 2 == 1 then bit_xor (crc * 2 % 2 ^ 32) 0x04c11db7 else crc * 2 % 2 ^ 32

unfoldable pub crc_bits : ℕ → ℕ → ℕ
crc_bits zero crc = crc
crc_bits (suc n) crc = crc_bits n (crc_bit crc)

unfoldable pub crc_bytes : ℕ → List ℕ → ℕ
crc_bytes crc [] = crc
crc_bytes crc (d ∷ ds) = crc_bytes (crc_bits 8 (bit_xor crc (d * 2 ^ 24))) ds

unfoldable pub crc32_mpeg : List ℕ → ℕ
crc32_mpeg ds = crc_bytes 0xffffffff ds

-- `p[0]` to `p[3]` of `emit_section`.
unfoldable pub big_endian : ℕ → List ℕ
big_endian crc =
    (crc / 2 ^ 24 % 256) ∷ (crc / 2 ^ 16 % 256) ∷ (crc / 2 ^ 8 % 256) ∷ (crc % 256) ∷ []
