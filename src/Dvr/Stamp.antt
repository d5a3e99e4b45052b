-- ===== src/Dvr/Stamp.antt =====
-- The time stamps of MPEG-TS: `write_timestamp` and `write_pcr` (src/dvr/ts_writer.cpp). A shift is a
-- quotient by a power of two, a mask of low bits a remainder, and `|` of separate fields a sum.
pub mod RoundTrip
use pixel_pilot_rk.Common.{ℕ, ◌+◌, ◌*◌, ◌/◌, ◌%◌, ◌^◌, List, [], ◌∷◌}

-- PTS_PREROLL_90K
abbrev pub pts_preroll_90k : ℕ
pts_preroll_90k = 90000

-- `ticks & TS_TIMESTAMP_MASK`: 33 bits.
abbrev pub stamp : ℕ → ℕ
stamp ticks = ticks % 2 ^ 33

unfoldable pub write_timestamp : ℕ → ℕ → List ℕ
write_timestamp prefix ts =
    (prefix * 16 + ts / 2 ^ 30 % 8 * 2 + 1) % 256
    ∷ (ts / 2 ^ 22 % 256)
    ∷ (ts / 2 ^ 15 % 128 * 2 + 1)
    ∷ (ts / 2 ^ 7 % 256)
    ∷ (ts % 128 * 2 + 1)
    ∷ []

unfoldable pub write_pcr : ℕ → List ℕ
write_pcr base =
    (base / 2 ^ 25 % 256)
    ∷ (base / 2 ^ 17 % 256)
    ∷ (base / 2 ^ 9 % 256)
    ∷ (base / 2 % 256)
    ∷ (base % 2 * 128 + 0x7e)
    ∷ 0
    ∷ []
