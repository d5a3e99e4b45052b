-- ===== src/Dvr/Naming/Fresh.antt =====
-- The name of a new recording (src/dvr/dvr.cpp) is none of those that are there.
use pixel_pilot_rk.Common.{
  ℕ, ◌<◌, ◌≤◌, ◌≡◌, ◌≢◌, refl, ap, true, Option, none, some, List, [], ◌∷◌, ◌++◌, arith, All,
}
use pixel_pilot_rk.Dvr.Naming.{
  Entry, Names, int_max, larger, number_of, scan_loop, next_number, max_number, sequence,
  has_sequence, replace_sequence, numbered_pattern, build_sequence_pattern, generate_filename,
}
use pixel_pilot_rk.Dvr.Naming.Decimal.{strtol-sequence}

larger-ge : (old new : Option ℕ) → next_number old ≤ next_number (larger old new)
unfolding larger
larger-ge none none = omega arith
larger-ge (some m) none = omega arith
larger-ge none (some n) = ground arith
larger-ge (some m) (some n) = ground arith

larger-gt : (old : Option ℕ) (n : ℕ) → n < int_max → n < next_number (larger old (some n))
unfolding larger
larger-gt none n h = ground arith
larger-gt (some m) n h = ground arith

module _ (x : Names) where
  scan_loop-ge :
      (entries : List Entry) (old : Option ℕ)
      → next_number old ≤ next_number (scan_loop x entries old)
  unfolding scan_loop
  scan_loop-ge [] old = omega arith
  scan_loop-ge (e ∷ entries) old =
      omega
        (arith, larger-ge old (number_of x e), scan_loop-ge entries (larger old (number_of x e)))

  scan_loop-gt :
      (entries : List Entry) (old : Option ℕ)
      → All
          (λ e.
            (n : ℕ)
            → number_of x e ≡ some n
            → n < int_max
            → n < next_number (scan_loop x entries old))
          entries
  unfolding scan_loop
  scan_loop-gt [] old = tt
  scan_loop-gt (e ∷ entries) old = (
    (λ n h l.
        let g = larger-gt old n l in
        let k = scan_loop-ge entries (larger old (number_of x e)) in
        let p : next_number (larger old (number_of x e)) ≡ next_number (larger old (some n)) =
          ap (λ o. next_number (larger old o)) h in
        omega (arith, g, k, p)),
    scan_loop-gt entries (larger old (number_of x e)),
  )

  -- An entry of the name that matches with the text of `n` has the number `n`.
  number_of-sequence :
      (e : Entry) (name : List ℕ) (n : ℕ)
      → n < int_max
      → x.regex_match (build_sequence_pattern x.filename_pattern) name ≡ some (sequence n)
      → e.is_regular_file ≡ true
      → e.filename ≡ name
      → number_of x e ≡ some n
  unfolding number_of
  number_of-sequence e name n l m r f = rw (r, f, m) (strtol-sequence n (omega arith))

  none_taken :
      (entries : List Entry) (name : List ℕ) (n : ℕ)
      → n < int_max
      → x.regex_match (build_sequence_pattern x.filename_pattern) name ≡ some (sequence n)
      → All (λ e. (m : ℕ) → number_of x e ≡ some m → m < int_max → m < n) entries
      → All (λ e. e.is_regular_file ≡ true → e.filename ≢ name) entries
  none_taken [] name n l m h = tt
  none_taken (e ∷ entries) name n l m h = (
    (λ r f. let g = h.0 n (number_of-sequence e name n l m r f) l in absurd (omega (arith, g))),
    none_taken entries name n l m h.1,
  )

numbered :
    (x : Names) (entries : List Entry)
    → x.scan ≡ some entries
    → has_sequence x.filename_pattern ≡ true
    → numbered_pattern x
      ≡ replace_sequence (sequence (next_number (max_number x (some entries)))) x.filename_pattern
unfolding numbered_pattern
numbered x entries s h =
    rw h (ap (λ o. replace_sequence (sequence (next_number (max_number x o))) x.filename_pattern) s)

-- With a template that has `%N`, a directory that could be read and a number left below INT_MAX: if the
-- name that is made matches the template's pattern with the number that was put in, then it is the name
-- of no regular file in the directory, so that the recording replaces none.
pub generate_filename-Fresh :
    (x : Names) (entries : List Entry)
    → x.exists ≡ true
    → x.scan ≡ some entries
    → has_sequence x.filename_pattern ≡ true
    → next_number (max_number x (some entries)) < int_max
    → x.regex_match (build_sequence_pattern x.filename_pattern) (x.strftime (numbered_pattern x))
      ≡ some (sequence (next_number (max_number x (some entries))))
    → (generate_filename x ≡ some (x.rec_dir ++ (b'/' ∷ x.strftime (numbered_pattern x))))
      × (numbered_pattern x
          ≡ replace_sequence
              (sequence (next_number (max_number x (some entries))))
              x.filename_pattern)
      × All (λ e. e.is_regular_file ≡ true → e.filename ≢ x.strftime (numbered_pattern x)) entries
unfolding generate_filename
generate_filename-Fresh x entries d s h l m = (
  rw d refl,
  numbered x entries s h,
  none_taken x entries (x.strftime (numbered_pattern x)) (next_number (max_number x (some entries)))
      l m (scan_loop-gt x entries none),
)
