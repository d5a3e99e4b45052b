-- ===== src/Drm/Planes.antt =====
-- The planes of a CRTC: `modeset_find_plane` (src/drm.c).
pub mod First
use pixel_pilot_rk.Common.{
  ℕ, ℤ, pos, Bool, true, false, Option, none, some, List, [], ◌∷◌, if◌then◌else◌, ◌==◌, ◌&&◌, ◌||◌,
}
use pixel_pilot_rk.Drm.Modes.{bit}
use pixel_pilot_rk.Drm.Kernel.{Kernel, Plane, plane, plane_resources}
use pixel_pilot_rk.Drm.Kernel.Monad.{M, pure, ◌>>=◌, ◌>>◌, give_back, allocate}
use pixel_pilot_rk.Drm.Properties.{DrmObject, einval}
use pixel_pilot_rk.Drm.Crtc.{enoent}

pub has_format : ℕ → List ℕ → Bool
has_format f [] = false
has_format f (g ∷ gs) = g == f || has_format f gs

-- The plane may be shown on the CRTC and takes the format.
unfoldable pub is_usable : ℕ → ℕ → Plane → Bool
unfolding has_format
is_usable crtc_index format p = bit crtc_index p.possible_crtcs && has_format format p.formats

-- `ret` and `plane_out` after the loop.
abbrev pub plane_result : DrmObject → Option ℕ → ℤ × DrmObject
plane_result plane_out none = (einval, plane_out)
plane_result plane_out (some id) = (pos 0, record plane_out { id = id })

module _ (k : Kernel) (crtc_index format : ℕ) where
  -- The loop ends at the first usable plane; a NULL plane is passed over.
  pub plane_loop : List ℕ → M (Option ℕ)
  plane_loop [] = pure none
  plane_loop (id ∷ ids) = do
    answer ← allocate (λ w. k.get_plane w id) (λ _. plane id)
    elim answer [
      | none ↦ plane_loop ids
      | some p ↦ (do
        give_back (plane id)
        if is_usable crtc_index format p then pure (some id) else plane_loop ids)
    ]

  pub find_plane : DrmObject → M (ℤ × DrmObject)
  unfolding plane_loop
  find_plane plane_out = do
    planes ← allocate k.get_plane_resources (λ _. plane_resources)
    elim planes [
      | none ↦ pure (enoent, plane_out)
      | some ids ↦ (do
        found ← plane_loop ids
        give_back plane_resources
        pure (plane_result plane_out found))
    ]
