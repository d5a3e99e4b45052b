-- ===== src/Drm/Commit.antt =====
-- Atomic commits of src/drm.c: `modeset_atomic_prepare_commit` and `modeset_perform_modeset`.
pub mod Prepared
pub mod Performed
use pixel_pilot_rk.Common.{
  ℕ, ◌+◌, ◌*◌, ◌%◌, ◌^◌, ℤ, pos, negsuc, is_neg, word64, Bool, true, false, List, [], ◌∷◌, ◌++◌,
  String, Option, some, if◌then◌else◌,
}
use pixel_pilot_rk.Drm.Kernel.{Kernel, World, Reply, ok, fail, Request, committed}
use pixel_pilot_rk.Drm.Kernel.Monad.{M, pure, ◌>>=◌}
use pixel_pilot_rk.Drm.Properties.{DrmObject, set_drm_object_property}
use pixel_pilot_rk.Drm.State.{Output}
use pixel_pilot_rk.Drm.Fit.{Ratio, fit, Rect}

-- One call of `set_drm_object_property`.
pub record Setting : Type 0 where
  pub object : DrmObject
  pub name : String
  pub value : ℕ

abbrev setting : DrmObject → String → ℕ → Setting
setting o n v = record { object = o; name = n; value = v }

-- `x << 16` in `uint32_t`.
abbrev pub fixed16 : ℕ → ℕ
fixed16 x = x * 2 ^ 16 % 2 ^ 32

-- What a modeset of a plane asks for.
pub record PlaneRequest : Type 0 where
  pub plane : DrmObject
  pub fb_id : ℤ
  pub width : ℕ
  pub height : ℕ
  pub zpos : ℤ
  pub stretch : Bool

-- DRM_MODE_ATOMIC_TEST_ONLY | DRM_MODE_ATOMIC_ALLOW_MODESET, and the second alone.
abbrev pub flags_test_modeset : ℕ
flags_test_modeset = 0x500

abbrev pub flags_allow_modeset : ℕ
flags_allow_modeset = 0x400

module _ (round : Ratio → Ratio) where
  abbrev rect : Output → PlaneRequest → Rect
  rect out p = fit round out.video_crtc_width out.video_crtc_height p.width p.height p.stretch

  -- The properties that a modeset sets, in the order of the calls.
  unfoldable pub settings : Output → PlaneRequest → List Setting
  settings out p =
      setting out.connector "CRTC_ID" out.crtc.id
      ∷ ((if out.wb_enabled then setting out.wb_connector "CRTC_ID" out.crtc.id ∷ [] else [])
          ++ (setting out.crtc "MODE_ID" out.mode_blob_id
              ∷ setting out.crtc "ACTIVE" 1
              ∷ setting p.plane "FB_ID" (word64 p.fb_id)
              ∷ setting p.plane "CRTC_ID" out.crtc.id
              ∷ setting p.plane "SRC_X" 0
              ∷ setting p.plane "SRC_Y" 0
              ∷ setting p.plane "SRC_W" (fixed16 p.width)
              ∷ setting p.plane "SRC_H" (fixed16 p.height)
              ∷ setting p.plane "CRTC_X" (rect out p).x
              ∷ setting p.plane "CRTC_Y" (rect out p).y
              ∷ setting p.plane "CRTC_W" (rect out p).w
              ∷ setting p.plane "CRTC_H" (rect out p).h
              ∷ setting p.plane "zpos" (word64 p.zpos)
              ∷ []))

abbrev pub commit_reply : ℕ → Request → World → Reply (Unit {0}) → Option (ℤ × World)
commit_reply flags req w (ok _) = some (pos 0, committed flags req ∷ w)
commit_reply flags req w (fail e) = some (negsuc e, w)

module _ (k : Kernel) where
  -- `if (set_drm_object_property(…) < 0) return -1;` for each in turn.
  unfoldable pub set_all : List Setting → Request → M (ℤ × Request)
  set_all [] req = pure (pos 0, req)
  set_all (s ∷ ss) req = do
    (c, req') ← set_drm_object_property k s.object s.name s.value req
    if is_neg c then pure (negsuc 0, req') else set_all ss req'

  -- `drmModeAtomicCommit`; the log keeps what the kernel accepted.
  unfoldable pub atomic_commit : ℕ → Request → M ℤ
  atomic_commit flags req w = commit_reply flags req w (k.atomic_commit w flags req)

  module _ (round : Ratio → Ratio) where
    -- The result code, and the request.
    unfoldable pub prepare_commit : Output → PlaneRequest → Request → M (ℤ × Request)
    unfolding set_all settings
    prepare_commit out p req = set_all (settings round out p) req

    unfoldable pub perform_modeset : Output → PlaneRequest → Request → M (ℤ × Request)
    perform_modeset out p req = do
      (ret, req') ← prepare_commit out p req
      if is_neg ret then pure (ret, req') else (do
        tested ← atomic_commit flags_test_modeset req'
        if is_neg tested
            then pure (tested, req')
            else (do done ← atomic_commit flags_allow_modeset req'; pure (done, req')))
