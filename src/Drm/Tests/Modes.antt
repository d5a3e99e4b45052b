-- ===== src/Drm/Tests/Modes.antt =====
-- Runs of the mode selection (src/drm.c), and its theorems at concrete inputs.
use pixel_pilot_rk.Common.{◌≡◌, refl, none, some, List, [], ◌∷◌}
use pixel_pilot_rk.Drm.Modes.{ModeInfo, Request, select_best_mode, requested_mode, choose_mode}
use pixel_pilot_rk.Drm.Modes.{consider, select_loop, scan_step, scan_loop}
use pixel_pilot_rk.Drm.Modes.Selection.{Selects, select_best_mode-Selects}
use pixel_pilot_rk.Drm.Tests.{sample_modes, mode}

abbrev full_hd_60 : Request
full_hd_60 = record { width = 1920; height = 1080; refresh = 60 }

abbrev odd_size : Request
odd_size = record { width = 1366; height = 768; refresh = 60 }

abbrev unspecified : Request
unspecified = record { width = 0; height = 0; refresh = 0 }

abbrev plain_modes : List ModeInfo
plain_modes = mode 3840 2160 60 0 0 ∷ mode 1280 720 50 0 0 ∷ []

-- The first of the two 1080 modes at 60 is interlaced; the best mode is the first of equals.
selected_runs :
    (select_best_mode sample_modes 0 ≡ some 1)
    × (select_best_mode sample_modes 50 ≡ some 2)
    × (select_best_mode sample_modes 144 ≡ none)
unfolding select_best_mode select_loop consider
selected_runs = (refl, refl, refl)

chosen_runs :
    (choose_mode full_hd_60 0 sample_modes ≡ some 3)
    × (choose_mode odd_size 0 sample_modes ≡ some 4)
    × (choose_mode odd_size 0 plain_modes ≡ none)
    × (choose_mode unspecified 50 sample_modes ≡ some 2)
    × (choose_mode unspecified 144 sample_modes ≡ some 0)
unfolding choose_mode requested_mode scan_loop scan_step select_best_mode select_loop consider
chosen_runs = (refl, refl, refl, refl, refl)

select_best_mode-Selects_example : Selects 50 sample_modes (select_best_mode sample_modes 50)
select_best_mode-Selects_example = select_best_mode-Selects sample_modes 50
