-- ===== src/Dvr/Pes/Demux.antt =====
-- How a player reads transport packets, ISO/IEC 13818-1, 2.4.3. It is written from the standard, and
-- not from src/dvr/ts_writer.cpp.
use pixel_pilot_rk.Common.{
  ℕ, ◌+◌, ◌*◌, ◌/◌, ◌%◌, Bool, false, not, ◌&&◌, Option, none, some, List, [], ◌∷◌, ◌++◌, leb, ◌==◌,
  if◌then◌else◌, length, take, drop,
}

pub record TsPacket : Type 0 where
  -- `payload_unit_start_indicator`
  pub start : Bool
  pub pid : ℕ
  pub continuity : ℕ
  pub adaptation : List ℕ
  pub payload : List ℕ

-- `adaptation_field_control` 1 is payload only, 3 is a field before it.
unfoldable pub split_field : ℕ → List ℕ → Option (List ℕ × List ℕ)
split_field control [] = none
split_field control (l ∷ rest) =
    if control == 1
    then some ([], l ∷ rest)
    else if control == 3 && leb l (length rest)
    then some (take l rest, drop l rest)
    else none

abbrev pub with_parts : ℕ → ℕ → ℕ → Option (List ℕ × List ℕ) → Option TsPacket
with_parts a b c none = none
with_parts a b c (some (field, body)) = some (record {
  start = a / 64 % 2 == 1;
  pid = a % 32 * 256 + b;
  continuity = c % 16;
  adaptation = field;
  payload = body;
})

unfoldable pub parse_packet : List ℕ → Option TsPacket
unfolding split_field
parse_packet (s ∷ a ∷ b ∷ c ∷ rest) =
    if s == 0x47 && length rest == 184
    then with_parts a b c (split_field (c / 16 % 4) rest)
    else none
parse_packet _ = none

-- The stream of a PID, of which `counter` is the next continuity counter: each packet must have the
-- next counter, and exactly the first must start a unit.
abbrev pub accept : ℕ → Bool → ℕ → Option TsPacket → Option (List ℕ × ℕ) → Option (List ℕ × ℕ)
accept pid first counter none rest = none
accept pid first counter (some p) none = none
accept pid first counter (some p) (some (bytes, counter')) =
    if p.pid == pid && p.continuity == counter && (if p.start then first else not first)
    then some (p.payload ++ bytes, counter')
    else none

unfoldable pub reassemble : ℕ → Bool → ℕ → List (List ℕ) → Option (List ℕ × ℕ)
unfolding parse_packet
reassemble pid first counter [] = some ([], counter)
reassemble pid first counter (p ∷ ps) =
    accept pid first counter (parse_packet p) (reassemble pid false ((counter + 1) % 16) ps)
