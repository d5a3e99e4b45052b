-- ===== src/Drm/Writeback.antt =====
-- The writeback connector of src/drm.c: finding, attaching, arming, checking and detaching it.
pub mod Found
pub mod Kept
pub mod Wired
pub mod Armed
pub mod Attached
pub mod Checked
pub mod Detached
use pixel_pilot_rk.Common.{
  ℕ, ◌%◌, ◌^◌, ℤ, pos, negsuc, is_neg, is_pos, word64, int32, Bool, true, false, not, ◌||◌, ◌&&◌,
  Option, none, some, List, [], ◌∷◌, if◌then◌else◌, ◌==◌,
}
use pixel_pilot_rk.Drm.Modes.{bit}
use pixel_pilot_rk.Drm.Kernel.{
  Kernel, World, Request, Connector, Encoder, connector, encoder, blob_copy, resources, request,
  connector_object,
}
use pixel_pilot_rk.Drm.Kernel.Monad.{M, pure, fault, ◌>>=◌, ◌>>◌, give_back, allocate, if_null}
use pixel_pilot_rk.Drm.Buffers.{Buf, format_nv12}
use pixel_pilot_rk.Drm.Properties.{
  DrmObject, get_property_value, get_object_properties, drm_object_fini, set_drm_object_property,
  einval,
}
use pixel_pilot_rk.Drm.State.{Output}
use pixel_pilot_rk.Drm.Fit.{Ratio}
use pixel_pilot_rk.Drm.Commit.{
  Setting, set_all, PlaneRequest, perform_modeset, atomic_commit, flags_allow_modeset,
}
use pixel_pilot_rk.Drm.Crtc.{enoent}
use pixel_pilot_rk.Drm.Planes.{has_format}
use pixel_pilot_rk.Drm.Output.{enomem, writeback_type}

-- -ENODEV
abbrev pub enodev : ℤ
enodev = negsuc 18

abbrev pub without_props : Output → Output
without_props out = record out { wb_connector = record out.wb_connector { props = none } }

abbrev pub unwired : Output → Output
unwired out = record (without_props out) { wb_available = false; wb_enabled = false }

abbrev pub enabled : Output → Bool → Output
enabled out b = record out { wb_enabled = b }

-- The modeset that an attachment asks for: the first OSD buffer on the OSD plane.
abbrev pub osd_request : Output → ℤ → Bool → PlaneRequest
osd_request out zpos stretch = record {
  plane = out.osd_plane;
  fb_id = int32 (pos out.osd_buf0.fb);
  width = out.osd_buf0.width;
  height = out.osd_buf0.height;
  zpos = int32 zpos;
  stretch = stretch;
}

abbrev pub attached : Output → ℤ → ℤ × Output
attached out ret = if is_neg ret then (ret, enabled out false) else (pos 0, enabled out true)

abbrev pub flags_test : ℕ
flags_test = 0x100

-- The two properties of a capture; `fence_ptr` is the address that the kernel writes the fence to.
abbrev pub capture_settings : Output → ℕ → ℕ → List Setting
capture_settings out wb_fb fence_ptr =
    record { object = out.wb_connector; name = "WRITEBACK_FB_ID"; value = wb_fb }
    ∷ record { object = out.wb_connector; name = "WRITEBACK_OUT_FENCE_PTR"; value = fence_ptr }
    ∷ []

module _ (k : Kernel) where
  -- Some encoder of the connector may drive the CRTC.
  pub drives_crtc : ℕ → List ℕ → M Bool
  drives_crtc crtc_index [] = pure false
  drives_crtc crtc_index (e ∷ es) = do
    answer ← allocate (λ w. k.get_encoder w e) (λ _. encoder e)
    elim answer [
      | none ↦ drives_crtc crtc_index es
      | some enc ↦ (do
        give_back (encoder e)
        if bit crtc_index enc.possible_crtcs then pure true else drives_crtc crtc_index es)
    ]

  -- The formats blob lists NV12.
  pub has_nv12 : ℤ → M Bool
  has_nv12 fmts =
      if is_pos fmts
      then (do
        answer ←
            allocate (λ w. k.get_property_blob w (word64 fmts % 2 ^ 32))
              (λ _. blob_copy (word64 fmts % 2 ^ 32))
        elim answer [
          | none ↦ pure false
          | some formats ↦ (do
            give_back (blob_copy (word64 fmts % 2 ^ 32))
            pure (has_format format_nv12 formats))
        ])
      else pure false

  -- `modeset_drm_object_fini(&out->wb_connector); out->wb_connector.props = NULL;`
  pub drop_connector : Output → M Output
  drop_connector out = do drm_object_fini out.wb_connector; pure (without_props out)

  -- The checks of a connector whose properties were read.
  pub check_properties : Output → M Output
  unfolding has_nv12 drop_connector
  check_properties out = do
    fb_prop ← get_property_value k out.wb_connector.props "WRITEBACK_FB_ID"
    fence_prop ← get_property_value k out.wb_connector.props "WRITEBACK_OUT_FENCE_PTR"
    fmts ← get_property_value k out.wb_connector.props "WRITEBACK_PIXEL_FORMATS"
    if is_neg fb_prop || is_neg fence_prop then drop_connector out else (do
      nv12 ← has_nv12 fmts
      if nv12 then pure (record out { wb_available = true }) else drop_connector out)

  pub read_connector : Connector → Output → M Output
  unfolding check_properties
  read_connector conn out = do
    o ←
        get_object_properties k (record out.wb_connector { id = conn.connector_id })
          connector_object
    if_null o.props (pure (record out { wb_connector = o }))
        (check_properties (record out { wb_connector = o }))

  -- One round of the loop over the connectors; the connector is freed on each path.
  pub try_connector : ℕ → Output → M Output
  unfolding drives_crtc read_connector
  try_connector c out = do
    answer ← allocate (λ w. k.get_connector w c) (λ conn. connector conn.connector_id)
    elim answer [
      | none ↦ pure out
      | some conn ↦
          if not (conn.connector_type == writeback_type)
          then (do give_back (connector conn.connector_id); pure out)
          else (do
            crtc_ok ← drives_crtc out.crtc_index conn.encoders
            out' ← (if crtc_ok then read_connector conn out else pure out)
            give_back (connector conn.connector_id)
            pure out')
    ]

  pub find_loop : List ℕ → Output → M Output
  unfolding try_connector
  find_loop [] out = pure out
  find_loop (c ∷ cs) out = do
    out' ← try_connector c out
    if out'.wb_available then pure out' else find_loop cs out'

  pub find_writeback : Output → M (ℤ × Output)
  unfolding find_loop
  find_writeback out = do
    answer ← allocate k.get_resources (λ _. resources)
    elim answer [
      | none ↦ pure (enoent, unwired out)
      | some res ↦ (do
        out' ← find_loop res.connectors (unwired out)
        give_back resources
        pure (if out'.wb_available then pos 0 else enoent, out'))
    ]

  -- The result code and the request.
  pub arm_writeback : Output → Request → ℕ → ℕ → M (ℤ × Request)
  arm_writeback out req wb_fb fence_ptr =
      if not out.wb_enabled
      then pure (negsuc 0, req)
      else set_all k (capture_settings out wb_fb fence_ptr) req

  abbrev pub alloc_request : World → Option (Unit {0})
  alloc_request w = if k.atomic_alloc w then some tt else none

  -- An attachment of a connector that is available and not enabled.
  pub attach : (Ratio → Ratio) → Output → Bool → M (ℤ × Output)
  attach round out stretch = do
    req ← allocate alloc_request (λ _. request)
    if_null req (pure (enomem, enabled out false)) (do
      zpos ← get_property_value k out.osd_plane.props "zpos"
      (ret, _) ← perform_modeset k round (enabled out true) (osd_request out zpos stretch) []
      give_back request
      pure (attached out ret))

  unfoldable pub attach_writeback : (Ratio → Ratio) → Output → Bool → M (ℤ × Output)
  unfolding attach
  attach_writeback round out stretch =
      if not out.wb_available
      then pure (enodev, out)
      else if out.wb_enabled
      then pure (pos 0, out)
      else attach round out stretch

  pub detach_commit : ℤ × Request → M ℤ
  detach_commit (c, req) = if is_pos c then atomic_commit k flags_allow_modeset req else pure c

  pub detach : Output → M Output
  unfolding detach_commit
  detach out = do
    req ← allocate alloc_request (λ _. request)
    if_null req (pure (enabled out false)) (do
      set ← set_drm_object_property k out.wb_connector "CRTC_ID" 0 []
      _ ← detach_commit set
      give_back request
      pure (enabled out false))

  pub detach_writeback : Output → M Output
  unfolding detach
  detach_writeback out = if not out.wb_available then pure out else detach out

  -- A test commit of a request, which is freed.
  pub test_request : Request → M ℤ
  test_request req = do ret ← atomic_commit k flags_test req; give_back request; pure ret

  -- The second half of the check: a commit with a capture.
  pub check_capture : Output → ℕ → ℕ → M ℤ
  unfolding test_request arm_writeback
  check_capture out wb_fb fence_ptr = do
    req ← allocate alloc_request (λ _. request)
    if_null req (pure enomem) (do
      (a, req1) ← set_drm_object_property k out.osd_plane "FB_ID" out.osd_buf0.fb []
      if is_neg a then (do give_back request; pure einval) else (do
        (b, req2) ← arm_writeback out req1 wb_fb fence_ptr
        if is_neg b then (do give_back request; pure einval) else test_request req2))

  -- First a commit with no capture, then one with. `fence_ptr` is the address of `dummy_fence`.
  pub check_writeback : Output → ℕ → ℕ → M ℤ
  unfolding test_request check_capture
  check_writeback out wb_fb fence_ptr = do
    req ← allocate alloc_request (λ _. request)
    if_null req (pure enomem) (do
      (a, req1) ← set_drm_object_property k out.osd_plane "FB_ID" out.osd_buf0.fb []
      if is_neg a then (do give_back request; pure einval) else (do
        ret ← test_request req1
        if is_neg ret then pure ret else check_capture out wb_fb fence_ptr))
