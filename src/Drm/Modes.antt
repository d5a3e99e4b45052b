-- ===== src/Drm/Modes.antt =====
-- The choice of a display mode: `select_best_mode`, and the scan for a requested mode in
-- `modeset_output_create` (src/drm.c).
pub mod Selection
pub mod Requested
pub mod Choice
use pixel_pilot_rk.Common.{
  ℕ, ◌+◌, ◌*◌, ◌/◌, ◌%◌, ◌^◌, Bool, true, false, not, ◌&&◌, ◌||◌, Option, none, some, List, [], ◌∷◌,
  ltb, ◌==◌, if◌then◌else◌,
}

-- The fields of libdrm's `drmModeModeInfo` that the code reads.
pub record ModeInfo : Type 0 where
  pub hdisplay : ℕ
  pub vdisplay : ℕ
  pub vrefresh : ℕ
  pub flags : ℕ
  pub kind : ℕ

-- Bit `k` of a word, `w & (1 << k)`.
abbrev pub bit : ℕ → ℕ → Bool
bit k w = (w / 2 ^ k) % 2 == 1

-- DRM_MODE_FLAG_INTERLACE is bit 4 of `flags`, DRM_MODE_TYPE_PREFERRED bit 3 of `type`.
abbrev pub is_interlaced : ModeInfo → Bool
is_interlaced m = bit 4 m.flags

abbrev pub is_preferred : ModeInfo → Bool
is_preferred m = bit 3 m.kind

abbrev pub max_width : ℕ
max_width = 1920

abbrev pub max_height : ℕ
max_height = 1080

-- The loop variables of `select_best_mode`; the index -1 is `none`.
pub record Best : Type 0 where
  pub index : Option ℕ
  pub width : ℕ
  pub height : ℕ
  pub refresh : ℕ

-- `uint32_t` products.
abbrev pub area : ℕ → ℕ → ℕ
area w h = w * h % 2 ^ 32

-- One round of the loop; a `continue` leaves the variables as they are.
unfoldable pub consider : ℕ → ℕ → ModeInfo → Best → Best
consider desired i m best =
    if ltb max_width m.hdisplay || ltb max_height m.vdisplay
    then best
    else if desired == 0 && not (m.vrefresh % 60 == 0)
    then best
    else if not (desired == 0) && not (m.vrefresh == desired)
    then best
    else if ltb best_pixels pixels || (pixels == best_pixels && ltb best.refresh m.vrefresh)
    then record { index = some i; width = m.hdisplay; height = m.vdisplay; refresh = m.vrefresh }
    else best
  where
    pixels : ℕ
    pixels = area m.hdisplay m.vdisplay

    best_pixels : ℕ
    best_pixels = area best.width best.height

unfoldable pub select_loop : ℕ → ℕ → List ModeInfo → Best → Best
select_loop desired i [] best = best
select_loop desired i (m ∷ ms) best = select_loop desired (i + 1) ms (consider desired i m best)

abbrev pub nothing_yet : Best
nothing_yet = record { index = none; width = 0; height = 0; refresh = 0 }

unfoldable pub select_best_mode : List ModeInfo → ℕ → Option ℕ
select_best_mode modes desired = (select_loop desired 0 modes nothing_yet).index

-- What `modeset_output_create` is asked for: `mode_width`, `mode_height`, `mode_vrefresh`.
pub record Request : Type 0 where
  pub width : ℕ
  pub height : ℕ
  pub refresh : ℕ

abbrev pub matches : Request → ModeInfo → Bool
matches r m = m.hdisplay == r.width && m.vdisplay == r.height && m.vrefresh == r.refresh

-- The variables `fc` and `preferred_fc` of the scan; -1 is `none`.
pub record Scan : Type 0 where
  pub fc : Option ℕ
  pub preferred_fc : Option ℕ

abbrev or_else : Option ℕ → ℕ → Option ℕ
or_else none i = some i
or_else (some j) i = some j

unfoldable pub scan_step : Request → ℕ → ModeInfo → Scan → Scan
scan_step r i m s =
    if matches r m
    then record s { fc = if not (is_interlaced m) then some i else or_else s.fc i }
    else if is_preferred m
    then record s { preferred_fc = some i }
    else s

unfoldable pub scan_loop : Request → ℕ → List ModeInfo → Scan → Scan
scan_loop r i [] s = s
scan_loop r i (m ∷ ms) s = scan_loop r (i + 1) ms (scan_step r i m s)

abbrev pub nothing_seen : Scan
nothing_seen = record { fc = none; preferred_fc = none }

-- `fc`, or `preferred_fc` where no mode matches; `none` is the jump to `out_error`.
unfoldable pub requested_mode : Request → List ModeInfo → Option ℕ
requested_mode r modes =
    let s = scan_loop r 0 modes nothing_seen in
    elim s.fc [ some i ↦ some i | none ↦ s.preferred_fc ]

-- `fc = idx` if `select_best_mode` found one, else the initial 0.
abbrev pub or_first : Option ℕ → ℕ
or_first none = 0
or_first (some i) = i

-- The index of the mode that `modeset_output_create` programs; `none` is the jump to `out_error`.
unfoldable pub choose_mode : Request → ℕ → List ModeInfo → Option ℕ
choose_mode r target modes =
    if ltb 0 r.width && ltb 0 r.height && ltb 0 r.refresh
    then requested_mode r modes
    else if ltb 0 target
    then some (or_first (select_best_mode modes target))
    else if r.width == 0 && r.height == 0 && r.refresh == 0
    then some (or_first (select_best_mode modes 0))
    else some 0
