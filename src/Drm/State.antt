-- ===== src/Drm/State.antt =====
-- `struct modeset_output` (src/drm.h): the fields that src/drm.c reads or writes. Those of the
-- display and decoder threads (`video_frm_*`, `video_fb_*`, `decoding_pts`, `video_poc`, `cleanup`)
-- are not here.
use pixel_pilot_rk.Common.{ℕ, Bool, false, Option, none, pos}
use pixel_pilot_rk.Drm.Modes.{ModeInfo}
use pixel_pilot_rk.Drm.Kernel.{Request}
use pixel_pilot_rk.Drm.Buffers.{Buf, null}
use pixel_pilot_rk.Drm.Properties.{DrmObject, bare}

pub record Output : Type 0 where
  pub connector : DrmObject
  pub crtc : DrmObject
  -- `saved_crtc` is not NULL
  pub saved_crtc : Bool
  pub mode : ModeInfo
  pub mode_blob_id : ℕ
  pub crtc_index : ℕ
  pub video_crtc_width : ℕ
  pub video_crtc_height : ℕ
  pub osd_request : Option Request
  pub osd_buf0 : Buf
  pub osd_buf1 : Buf
  pub osd_plane : DrmObject
  pub video_request : Option Request
  pub video_plane : DrmObject
  pub wb_connector : DrmObject
  pub wb_available : Bool
  pub wb_enabled : Bool

abbrev zero_mode : ModeInfo
zero_mode = record { hdisplay = 0; vdisplay = 0; vrefresh = 0; flags = 0; kind = 0 }

abbrev zero_buf : Buf
zero_buf = record {
  width = 0;
  height = 0;
  stride = 0;
  size = 0;
  handle = 0;
  map = null;
  prime_fd = pos 0;
  fb = 0;
}

-- `memset(out, 0, sizeof(*out)); out->connector.id = conn->connector_id;`
unfoldable pub zeroed : ℕ → Output
zeroed connector_id = record {
  connector = bare connector_id;
  crtc = bare 0;
  saved_crtc = false;
  mode = zero_mode;
  mode_blob_id = 0;
  crtc_index = 0;
  video_crtc_width = 0;
  video_crtc_height = 0;
  osd_request = none;
  osd_buf0 = zero_buf;
  osd_buf1 = zero_buf;
  osd_plane = bare 0;
  video_request = none;
  video_plane = bare 0;
  wb_connector = bare 0;
  wb_available = false;
  wb_enabled = false;
}
