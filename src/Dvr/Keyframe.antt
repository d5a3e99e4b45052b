-- ===== src/Dvr/Keyframe.antt =====
-- `au_is_keyframe` (src/dvr/ts_writer.cpp).
pub mod Scan
use pixel_pilot_rk.Common.{
  ℕ, ◌/◌, ◌%◌, Bool, true, false, ◌&&◌, List, [], ◌∷◌, ◌==◌, leb, if◌then◌else◌,
}

-- `(b >> 1) & 0x3f` is one of the IRAP types 16 to 21.
abbrev pub is_irap : ℕ → Bool
is_irap b = leb 16 (b / 2 % 64) && leb (b / 2 % 64) 21

-- The loop over `i`, on the bytes from `d[i]` on: it ends where fewer than four are left, and goes on
-- behind a start code that it has met.
unfoldable pub scan : List ℕ → Bool
scan (a ∷ b ∷ c ∷ n ∷ rest) =
    let behind = scan (n ∷ rest) in
    let next = scan (b ∷ c ∷ n ∷ rest) in
    if a == 0 && b == 0 && c == 1 then (if is_irap n then true else behind) else next
scan _ = false

-- The early return for `len < 4` is the scan's own end.
unfoldable pub au_is_keyframe : List ℕ → Bool
unfolding scan
au_is_keyframe d = scan d
