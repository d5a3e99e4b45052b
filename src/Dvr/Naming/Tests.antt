-- ===== src/Dvr/Naming/Tests.antt =====
-- The names of recordings (src/dvr/dvr.cpp): runs, and the theorem at a concrete input.
use Prim.Native.Char.{code}
use pixel_pilot_rk.Common.{
  ℕ, ◌≡◌, ◌≢◌, refl, replicate, true, some, List, [], ◌∷◌, ◌++◌, String, All, arith, drop,
  if◌then◌else◌,
}
use pixel_pilot_rk.Dvr.Naming.{
  Entry, Names, is_digit, build_sequence_pattern, sequence, next_number, max_number,
  generate_filename, numbered_pattern, replace_sequence,
}
use pixel_pilot_rk.Dvr.Naming.Fresh.{generate_filename-Fresh}

abbrev codes : String → List ℕ
codes String.[] = []
codes (String.◌∷◌ c s) = code c ∷ codes s

-- The digits at the beginning.
abbrev leading_digits : List ℕ → List ℕ
leading_digits [] = []
leading_digits (c ∷ rest) = let more = leading_digits rest in if is_digit c then c ∷ more else []

abbrev recordings : List Entry
recordings =
    record { is_regular_file = true; filename = codes "r0007.ts" }
    ∷ record { is_regular_file = true; filename = codes "r0041.ts" }
    ∷ []

-- For a letter and the group, the expression matches the digits behind the letter.
abbrev card : Names
card = record {
  exists = true;
  scan = some recordings;
  regex_match = λ pattern name. some (leading_digits (drop 1 name));
  strftime = λ pattern. pattern;
  rec_dir = codes "/media";
  filename_pattern = codes "r%N.ts";
}

pattern_run : build_sequence_pattern (codes "r%N_%Y.ts") ≡ codes "^r(\\d+)_\\d{4}\\.ts$"
unfolding build_sequence_pattern
pattern_run = refl

name_run : generate_filename card ≡ some (codes "/media/r0042.ts")
unfolding generate_filename replicate drop
name_run = refl

generate_filename-Fresh_example :
    (generate_filename card ≡ some (codes "/media" ++ (b'/' ∷ numbered_pattern card)))
    × (numbered_pattern card
        ≡ replace_sequence (sequence (next_number (max_number card card.scan))) (codes "r%N.ts"))
    × All (λ (e : Entry). e.is_regular_file ≡ true → e.filename ≢ numbered_pattern card) recordings
unfolding numbered_pattern replicate drop
generate_filename-Fresh_example =
    generate_filename-Fresh card recordings refl refl refl (omega arith) refl
