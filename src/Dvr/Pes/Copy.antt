-- ===== src/Dvr/Pes/Copy.antt =====
-- The copying loop of src/dvr/ts_writer.cpp copies a slice of the header and the access unit joined.
use pixel_pilot_rk.Common.{
  ℕ, zero, suc, ◌+◌, ◌-◌, ◌≤◌, ◌<◌, ◌≡◌, refl, sym, inl, inr, List, ◌++◌, ltb, ◌==◌, if◌then◌else◌,
  length, take, drop, arith, Bool-cases, take-zero, length-drop, take-append, drop-append,
  drop-append_right, drop-drop, take_split,
}
use pixel_pilot_rk.Dvr.Pes.{source, copy_loop}

-- A part that is no longer than what the source has left is a part of the stream.
take-source :
    (pes au : List ℕ) (at n : ℕ)
    → n ≤ length (source pes au at)
    → take n (drop at (pes ++ au)) ≡ take n (source pes au at)
take-source pes au at n h = elim (Bool-cases (ltb at (length pes))) [
  | inl lt ↦
      let inside : n ≤ length (drop at pes) = rw lt at h in
      let before : at ≤ length pes = ground arith in
      rw (lt, drop-append at pes au before) (take-append n (drop at pes) au inside)
  | inr ge ↦
      let behind : length pes ≤ at = ground arith in
      rw (ge, drop-append_right at (length pes) pes au refl behind) refl
]

length-source :
    (pes au : List ℕ) (at : ℕ) → at < length pes + length au → 0 < length (source pes au at)
length-source pes au at h = ground (arith, length-drop at pes, length-drop (at - length pes) au)

copy_step :
    (pes au rest : List ℕ) (at left n : ℕ)
    → n ≤ left
    → n ≤ length (source pes au at)
    → rest ≡ take (left - n) (drop (at + n) (pes ++ au))
    → take n (source pes au at) ++ rest ≡ take left (drop at (pes ++ au))
copy_step pes au rest at left n h p e =
    rw
      (
        e,
        take_split n left (drop at (pes ++ au)) h,
        take-source pes au at n p,
        drop-drop at n (pes ++ au),
      )
      refl

-- The loop copies what it is asked for, and needs no more rounds than bytes.
pub copy_loop-take :
    (pes au : List ℕ) (fuel at left : ℕ)
    → left ≤ fuel
    → at + left ≤ length pes + length au
    → copy_loop pes au fuel at left ≡ take left (drop at (pes ++ au))
unfolding copy_loop
copy_loop-take pes au zero at left h p =
    let e : left ≡ 0 = omega arith in rw e (sym (take-zero (drop at (pes ++ au))))
copy_loop-take pes au (suc fuel) at left h p = elim (Bool-cases (left == 0)) [
  | inl z ↦ let e : left ≡ 0 = ground arith in rw (z, e) (sym (take-zero (drop at (pes ++ au))))
  | inr nz ↦
      let room : 0 < left = ground arith in
      let more : 0 < length (source pes au at) = length-source pes au at (omega arith) in
      let n : ℕ =
        if ltb left (length (source pes au at)) then left else length (source pes au at) in
      let pos : 0 < n = ground arith in
      let le : n ≤ left = ground arith in
      let inside : n ≤ length (source pes au at) = ground arith in
      rw nz (
        copy_step pes au (copy_loop pes au fuel (at + n) (left - n)) at left n le inside
          (copy_loop-take pes au fuel (at + n) (left - n) (omega arith) (omega arith)))
]
