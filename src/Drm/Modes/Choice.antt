-- ===== src/Drm/Modes/Choice.antt =====
-- The index of the mode that `modeset_output_create` (src/drm.c) copies from `conn->modes`.
use pixel_pilot_rk.Common.{
  ℕ, ◌<◌, ◌≡◌, Option, none, some, List, arith, length, get_elem?-lt_length, Every, false,
}
use pixel_pilot_rk.Drm.Modes.{
  ModeInfo, Request, choose_mode, requested_mode, select_best_mode, or_first, is_preferred,
}
use pixel_pilot_rk.Drm.Modes.Selection.{Selects, select_best_mode-Selects}
use pixel_pilot_rk.Drm.Modes.Requested.{Chooses, Matches, requested_mode-Chooses}

requested_mode-lt :
    (r : Request) (modes : List ModeInfo) (i : ℕ) → Chooses r modes (some i) → i < length modes
requested_mode-lt r modes i (m, g, _) = get_elem?-lt_length modes i m g

selected-lt :
    (d : ℕ) (modes : List ModeInfo) (o : Option ℕ)
    → 0 < length modes
    → Selects d modes o
    → or_first o < length modes
selected-lt d modes none h s = h
selected-lt d modes (some i) h (m, g, _, _, _) = get_elem?-lt_length modes i m g

requested-lt :
    (r : Request) (modes : List ModeInfo) (o : Option ℕ) (i : ℕ)
    → Chooses r modes o
    → o ≡ some i
    → i < length modes
requested-lt r modes none i c e = cc
requested-lt r modes (some j) i c e = ground (arith, requested_mode-lt r modes j c)

-- A connector with modes gets a mode of its own: the index that `modeset_output_create` goes on with
-- is in range, whatever was requested.
pub choose_mode-in_range :
    (r : Request) (target : ℕ) (modes : List ModeInfo) (i : ℕ)
    → 0 < length modes
    → choose_mode r target modes ≡ some i
    → i < length modes
unfolding choose_mode
choose_mode-in_range r target modes i h e = ground (
  arith,
  requested-lt r modes (requested_mode r modes) i (requested_mode-Chooses r modes),
  selected-lt target modes (select_best_mode modes target) h
      (select_best_mode-Selects modes target),
  selected-lt 0 modes (select_best_mode modes 0) h (select_best_mode-Selects modes 0),
)

requested-none :
    (r : Request) (modes : List ModeInfo) (o : Option ℕ)
    → Chooses r modes o
    → o ≡ none
    → Every (λ _ n. ¬ Matches r n × (is_preferred n ≡ false)) modes
requested-none r modes none c e = c
requested-none r modes (some i) c e = cc

Asked : Request → Type 0
Asked r = (0 < r.width) × (0 < r.height) × (0 < r.refresh)

none-Asked :
    (r : Request) (target : ℕ) (modes : List ModeInfo)
    → choose_mode r target modes ≡ none
    → Asked r × (requested_mode r modes ≡ none)
unfolding choose_mode Asked
none-Asked r target modes e = ground arith

-- `modeset_output_create` finds no mode for a connector only if a size and a rate were requested in
-- full, no mode of the connector has them, and no mode is preferred.
pub choose_mode-none :
    (r : Request) (target : ℕ) (modes : List ModeInfo)
    → choose_mode r target modes ≡ none
    → ((0 < r.width) × (0 < r.height) × (0 < r.refresh))
      × Every (λ _ n. ¬ Matches r n × (is_preferred n ≡ false)) modes
unfolding Asked
choose_mode-none r target modes e =
    let (a, o) = none-Asked r target modes e in
    (a, requested-none r modes (requested_mode r modes) (requested_mode-Chooses r modes) o)
