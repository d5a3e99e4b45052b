-- ===== src/Dvr/Naming/Decimal.antt =====
-- The numbers in the names of recordings (src/dvr/dvr.cpp) are read back as they were written.
use pixel_pilot_rk.Common.{
  ℕ, zero, suc, ◌+◌, ◌-◌, ◌*◌, ◌/◌, ◌%◌, ◌<◌, ◌≤◌, ◌≡◌, refl, Bool, true, false, some, List, [],
  ◌∷◌, ◌++◌, ltb, arith, length, replicate, ◌∙◌,
}
use pixel_pilot_rk.Dvr.Naming.{value_of, strtol, decimal, sequence, long_max, sequence_padding}

value_of-append :
    (n : ℕ) (text : List ℕ) (c : ℕ)
    → value_of n (text ++ (c ∷ [])) ≡ value_of n text * 10 + (c - b'0')
unfolding value_of
value_of-append n [] c = refl
value_of-append n (d ∷ text) c = value_of-append (n * 10 + (d - b'0')) text c

-- The text of a number by that of its tenth.
last_digit :
    (fuel n : ℕ) (b : Bool)
    → ltb n 10 ≡ b
    → (n / 10 < fuel → value_of 0 (decimal fuel (n / 10)) ≡ n / 10)
    → n < suc fuel
    → value_of 0 (elim b [
      | true ↦ (b'0' + n) ∷ []
      | false ↦ decimal fuel (n / 10) ++ ((b'0' + n % 10) ∷ [])
    ])
      ≡ n
unfolding value_of
last_digit fuel n true e ih l = omega arith
last_digit fuel n false e ih l =
    let more : 10 ≤ n = ground (arith, e) in
    omega (arith, ih (omega arith), value_of-append 0 (decimal fuel (n / 10)) (b'0' + n % 10))

decimal_value : (fuel n : ℕ) → n < fuel → value_of 0 (decimal fuel n) ≡ n
unfolding decimal
decimal_value zero n h = absurd (omega arith)
decimal_value (suc fuel) n h = last_digit fuel n (ltb n 10) refl (decimal_value fuel (n / 10)) h

zeros_value :
    (count : ℕ) (text : List ℕ) → value_of 0 (replicate count b'0' ++ text) ≡ value_of 0 text
unfolding value_of replicate
zeros_value zero text = refl
zeros_value (suc count) text = zeros_value count text

-- A number is read back from its text, with the zeros before it.
pub strtol-sequence : (n : ℕ) → n ≤ long_max → strtol (sequence n) ≡ some n
unfolding strtol sequence
strtol-sequence n h =
    let text = decimal (suc n) n in
    let e : value_of 0 (replicate (sequence_padding - length text) b'0' ++ text) ≡ n =
      zeros_value (sequence_padding - length text) text ∙ decimal_value (suc n) n (omega arith) in
    rw e (ground arith)
