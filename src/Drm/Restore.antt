-- ===== src/Drm/Restore.antt =====
-- Restoring the planes at the end: `restore_planes_zpos` (src/drm.c).
pub mod Plane
pub mod Restored
use pixel_pilot_rk.Common.{
  ℕ, ℤ, pos, is_neg, int32, Bool, true, false, Option, none, some, List, [], if◌then◌else◌,
}
use pixel_pilot_rk.Drm.Kernel.{Kernel, World, Request, request}
use pixel_pilot_rk.Drm.Kernel.Monad.{M, pure, ◌>>=◌, ◌>>◌, give_back, allocate, if_null}
use pixel_pilot_rk.Drm.Properties.{DrmObject, get_property_value}
use pixel_pilot_rk.Drm.State.{Output}
use pixel_pilot_rk.Drm.Fit.{Ratio}
use pixel_pilot_rk.Drm.Commit.{PlaneRequest, prepare_commit, atomic_commit, flags_allow_modeset}

-- `drmModeAtomicFree`, which takes NULL too.
pub free_request : Option Request → M (Unit {0})
free_request none = pure tt
free_request (some _) = give_back request

-- What a modeset of a plane asks for here: the first OSD buffer, on either plane.
abbrev pub restored : Output → DrmObject → ℤ → PlaneRequest
restored out plane zpos = record {
  plane = plane;
  fb_id = int32 (pos out.osd_buf0.fb);
  width = out.osd_buf0.width;
  height = out.osd_buf0.height;
  zpos = int32 zpos;
  stretch = false;
}

abbrev pub empty : Option (Unit {0}) → Option Request
empty none = none
empty (some _) = some []

abbrev pub with_requests : Output → Option Request → Option Request → Output
with_requests out osd video = record out { osd_request = osd; video_request = video }

abbrev pub fresh : Output → Output
fresh out = with_requests out (some []) (some [])

module _ (k : Kernel) where
  abbrev pub alloc_request : World → Option (Unit {0})
  alloc_request w = if k.atomic_alloc w then some tt else none

  module _ (round : Ratio → Ratio) where
    -- Whether the request could be prepared, and the request; a failed commit is only reported.
    pub restore_plane : Output → DrmObject → M (Bool × Request)
    restore_plane out plane = do
      zpos ← get_property_value k plane.props "zpos"
      (ret, req) ← prepare_commit k round out (restored out plane zpos) []
      if is_neg ret
          then pure (false, req)
          else (do _ ← atomic_commit k flags_allow_modeset req; pure (true, req))

    pub restore_both : Output → M Output
    unfolding restore_plane
    restore_both out = do
      (go_on, osd) ← restore_plane out out.osd_plane
      if go_on
          then (do
            (_, video) ← restore_plane out out.video_plane
            pure (with_requests out (some osd) (some video)))
          else pure (with_requests out (some osd) (some []))

    pub restore_planes_zpos : Output → M Output
    unfolding restore_both free_request
    restore_planes_zpos out = do
      free_request out.osd_request
      o ← allocate alloc_request (λ _. request)
      free_request out.video_request
      v ← allocate alloc_request (λ _. request)
      if_null o (pure (with_requests out none (empty v)))
          (if_null v (pure (with_requests out (some []) none)) (restore_both (fresh out)))
