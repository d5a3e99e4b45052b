-- ===== src/Dvr/Stamp/RoundTrip.antt =====
-- A player reads back the stamps that src/dvr/ts_writer.cpp writes.
use pixel_pilot_rk.Common.{
  ℕ, ◌+◌, ◌*◌, ◌/◌, ◌%◌, ◌^◌, ◌<◌, ◌≡◌, List, [], ◌∷◌, Option, none, some, arith, if◌then◌else◌,
  ◌==◌, ◌&&◌,
}
use pixel_pilot_rk.Dvr.Stamp.{write_timestamp, write_pcr}

-- ISO/IEC 13818-1, 2.4.3.7: three groups of 3, 15 and 15 bits, each before a marker bit that is 1.
pub read_timestamp : List ℕ → Option (ℕ × ℕ)
read_timestamp (a ∷ b ∷ c ∷ d ∷ e ∷ []) =
    if a % 2 == 1 && c % 2 == 1 && e % 2 == 1
    then some (a / 16, a / 2 % 8 * 2 ^ 30 + (b * 128 + c / 2) * 2 ^ 15 + (d * 128 + e / 2))
    else none
read_timestamp _ = none

-- 2.4.3.5: 33 bits, 6 reserved ones, and a 9-bit extension, in units of 27 MHz.
pub read_pcr : List ℕ → Option (ℕ × ℕ)
read_pcr (a ∷ b ∷ c ∷ d ∷ e ∷ f ∷ []) =
    if e / 2 % 64 == 63
    then some (a * 2 ^ 25 + b * 2 ^ 17 + c * 2 ^ 9 + d * 2 + e / 128, e % 2 * 256 + f)
    else none
read_pcr _ = none

-- A player that reads a time stamp of 33 bits gets it back, with the 4 bits before it, and finds the three
-- marker bits set.
pub read_timestamp-write_timestamp :
    (prefix ts : ℕ)
    → prefix < 16
    → ts < 2 ^ 33
    → read_timestamp (write_timestamp prefix ts) ≡ some (prefix, ts)
unfolding read_timestamp write_timestamp
read_timestamp-write_timestamp prefix ts p h = ground arith

pub read_pcr-write_pcr : (base : ℕ) → base < 2 ^ 33 → read_pcr (write_pcr base) ≡ some (base, 0)
unfolding read_pcr write_pcr
read_pcr-write_pcr base h = ground arith
