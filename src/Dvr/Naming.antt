-- ===== src/Dvr/Naming.antt =====
-- The names of recordings: `build_sequence_pattern` and `Dvr::generate_filename` of src/dvr/dvr.cpp. A text
-- is its bytes. The C++ library's directory iterator and regular expressions and the C library's
-- `strftime` are the parameter `Names`.
pub mod Decimal
pub mod Fresh
mod Tests
use pixel_pilot_rk.Common.{
  ℕ, zero, suc, ◌+◌, ◌-◌, ◌*◌, ◌/◌, ◌%◌, ◌^◌, Bool, true, false, not, ◌&&◌, ◌||◌, Option, none,
  some, List, [], ◌∷◌, ◌++◌, ltb, leb, ◌==◌, if◌then◌else◌, length, replicate,
}

-- Of the directory: `is_regular_file` and the file's name.
pub record Entry : Type 0 where
  pub is_regular_file : Bool
  pub filename : List ℕ

-- `rec_dir` exists; what the iteration over it yields until its end or an error, and nothing where it or
-- the making of the expression throws; `match[1]` of a name that a pattern matches; and `strftime` of now.
pub record Names : Type 0 where
  pub exists : Bool
  pub scan : Option (List Entry)
  pub regex_match : List ℕ → List ℕ → Option (List ℕ)
  pub strftime : List ℕ → List ℕ
  pub rec_dir : List ℕ
  pub filename_pattern : List ℕ

-- SEQUENCE_PADDING, INT_MAX and LONG_MAX
abbrev pub sequence_padding : ℕ
sequence_padding = 4

abbrev pub int_max : ℕ
int_max = 2 ^ 31 - 1

abbrev pub long_max : ℕ
long_max = 2 ^ 63 - 1

abbrev pub is_digit : ℕ → Bool
is_digit c = leb b'0' c && leb c b'9'

-- The characters of `.^$|()[]{}*+?\`, before which the pattern has a backslash. `strchr` also finds the
-- byte 0, which no name has.
pub is_special : ℕ → Bool
is_special c =
    c == b'.'
    || c == b'^'
    || c == b'$'
    || c == b'|'
    || c == b'('
    || c == b')'
    || c == b'['
    || c == b']'
    || c == b'{'
    || c == b'}'
    || c == b'*'
    || c == b'+'
    || c == b'?'
    || c == 92

-- `\d+`, `\d{4}`, `\d{2}`
abbrev pub some_digits : List ℕ
some_digits = 92 ∷ b'd' ∷ b'+' ∷ []

abbrev pub digits_of : ℕ → List ℕ
digits_of count = 92 ∷ b'd' ∷ b'{' ∷ count ∷ b'}' ∷ []

abbrev pub sequence_group : Bool → List ℕ
sequence_group true = some_digits
sequence_group false = b'(' ∷ (some_digits ++ (b')' ∷ []))

-- What a conversion appends, by whether the group is there.
abbrev pub conversion : Bool → ℕ → List ℕ
conversion added spec =
    if spec == b'N' then sequence_group added else digits_of (if spec == b'Y' then b'4' else b'2')

abbrev pub plain : ℕ → List ℕ
plain c = if is_special c then 92 ∷ c ∷ [] else c ∷ []

-- The loop; the first argument is `sequence_capture_added`.
pub pattern_loop : Bool → List ℕ → List ℕ
unfolding is_special
pattern_loop added [] = []
pattern_loop added (c ∷ []) = plain c
pattern_loop added (c ∷ spec ∷ rest) = elim (c == b'%') [
  | true ↦ conversion added spec ++ pattern_loop (added || spec == b'N') rest
  | false ↦ plain c ++ pattern_loop added (spec ∷ rest)
]

pub build_sequence_pattern : List ℕ → List ℕ
unfolding pattern_loop
build_sequence_pattern filename_pattern =
    b'^' ∷ (pattern_loop false filename_pattern ++ (b'$' ∷ []))

-- `strtol` of a text of digits; no result where it sets `errno`.
pub value_of : ℕ → List ℕ → ℕ
value_of n [] = n
value_of n (c ∷ rest) = value_of (n * 10 + (c - b'0')) rest

pub strtol : List ℕ → Option ℕ
unfolding value_of
strtol text = if ltb long_max (value_of 0 text) then none else some (value_of 0 text)

-- `maxNumber`, with -1 as no number.
pub larger : Option ℕ → Option ℕ → Option ℕ
larger old none = old
larger none (some n) = if ltb n int_max then some n else none
larger (some m) (some n) = if ltb n int_max then some (if ltb m n then n else m) else some m

abbrev pub bind : {A B : Type 0} → Option A → (A → Option B) → Option B
bind none f = none
bind (some a) f = f a

module _ (x : Names) where
  -- The number of an entry, if it is a regular file of the pattern.
  pub number_of : Entry → Option ℕ
  unfolding strtol build_sequence_pattern
  number_of e =
      if not e.is_regular_file
      then none
      else bind (x.regex_match (build_sequence_pattern x.filename_pattern) e.filename) strtol

  pub scan_loop : List Entry → Option ℕ → Option ℕ
  unfolding number_of larger
  scan_loop [] max_number = max_number
  scan_loop (e ∷ rest) max_number = scan_loop rest (larger max_number (number_of e))

-- `nextFileNumber`
abbrev pub next_number : Option ℕ → ℕ
next_number none = 0
next_number (some n) = n + 1

abbrev pub max_number : Names → Option (List Entry) → Option ℕ
unfolding scan_loop
max_number x none = none
max_number x (some entries) = scan_loop x entries none

-- `operator<<` of a number that is not negative: each round has a digit, so a fuel above it is enough.
pub decimal : ℕ → ℕ → List ℕ
decimal zero n = []
decimal (suc fuel) n = elim (ltb n 10) [
  | true ↦ (b'0' + n) ∷ []
  | false ↦ decimal fuel (n / 10) ++ ((b'0' + n % 10) ∷ [])
]

-- `setw`, `setfill('0')`
pub sequence : ℕ → List ℕ
unfolding decimal
sequence n = let text = decimal (suc n) n in replicate (sequence_padding - length text) b'0' ++ text

-- `find("%N") != npos`
pub has_sequence : List ℕ → Bool
has_sequence [] = false
has_sequence (c ∷ []) = false
has_sequence (c ∷ d ∷ rest) = (c == b'%' && d == b'N') || has_sequence (d ∷ rest)

pub replace_sequence : List ℕ → List ℕ → List ℕ
replace_sequence text [] = []
replace_sequence text (c ∷ []) = c ∷ []
replace_sequence text (c ∷ d ∷ rest) = elim (c == b'%' && d == b'N') [
  | true ↦ text ++ replace_sequence text rest
  | false ↦ c ∷ replace_sequence text (d ∷ rest)
]

-- What `strftime` is given.
pub numbered_pattern : Names → List ℕ
unfolding max_number sequence has_sequence replace_sequence
numbered_pattern x =
    if has_sequence x.filename_pattern
    then replace_sequence (sequence (next_number (max_number x x.scan))) x.filename_pattern
    else x.filename_pattern

-- No result is the empty name.
pub generate_filename : Names → Option (List ℕ)
unfolding numbered_pattern
generate_filename x =
    if not x.exists then none else some (x.rec_dir ++ (b'/' ∷ x.strftime (numbered_pattern x)))
