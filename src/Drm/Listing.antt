-- ===== src/Drm/Listing.antt =====
-- The list of modes that `modeset_print_modes` (src/drm.c) prints.
pub mod Distinct
use pixel_pilot_rk.Common.{
  ℕ, Bool, true, false, Option, none, some, List, [], ◌∷◌, ◌++◌, if◌then◌else◌, ◌==◌, ◌&&◌,
}
use pixel_pilot_rk.Drm.Modes.{ModeInfo, Request}
use pixel_pilot_rk.Drm.Kernel.{Kernel, Connector, connector, resources}
use pixel_pilot_rk.Drm.Kernel.Monad.{M, pure, ◌>>=◌, ◌>>◌, give_back, allocate}

-- One line of the output, and the variables `prev_h`, `prev_v`, `prev_refresh`.
abbrev pub line : ModeInfo → Request
line m = record { width = m.hdisplay; height = m.vdisplay; refresh = m.vrefresh }

abbrev pub same_line : Request → Request → Bool
same_line a b = a.width == b.width && a.height == b.height && a.refresh == b.refresh

-- The lines printed for the modes of a connector, and the previous line after them.
unfoldable pub print_loop : Request → List ModeInfo → List Request × Request
print_loop prev [] = ([], prev)
print_loop prev (m ∷ ms) = elim (same_line (line m) prev) [
  | true ↦ print_loop prev ms
  | false ↦ let (lines, last) = print_loop (line m) ms in (line m ∷ lines, last)
]

module _ (k : Kernel) where
  -- The lines of all connectors; a NULL connector is passed over.
  pub print_connectors : Request → List ℕ → M (List Request)
  unfolding print_loop
  print_connectors prev [] = pure []
  print_connectors prev (c ∷ cs) = do
    answer ← allocate (λ w. k.get_connector w c) (λ conn. connector conn.connector_id)
    elim answer [
      | none ↦ print_connectors prev cs
      | some conn ↦ (do
        let (lines, last) = print_loop prev conn.modes
        give_back (connector conn.connector_id)
        rest ← print_connectors last cs
        pure (lines ++ rest))
    ]

  -- `start` is what `prev_h` and `prev_v` hold at first, which the code leaves uninitialised;
  -- `prev_refresh` is 0. The result is what is printed.
  pub print_modes : ℕ → ℕ → M (List Request)
  unfolding print_connectors
  print_modes start_h start_v = do
    answer ← allocate k.get_resources (λ _. resources)
    elim answer [
      | none ↦ pure []
      | some res ↦ (do
        lines ←
            print_connectors (record { width = start_h; height = start_v; refresh = 0 })
              res.connectors
        give_back resources
        pure lines)
    ]
