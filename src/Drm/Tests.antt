-- ===== src/Drm/Tests.antt =====
-- Sample data for src/drm.c, runs of the model, and the theorems at concrete inputs.
mod Modes
mod Buffers
mod Objects
mod Display
mod Session
mod Pool
use pixel_pilot_rk.Common.{
  ◌-◌, ◌+◌, get_or, ℕ, ◌≡◌, ◌≢◌, refl, ℤ, pos, negsuc, Bool, true, false, Option, none, some, List,
  [], ◌∷◌, ltb, if◌then◌else◌, ◌==◌, String, Every, Every-nil, Every-cons, arith, ◌<◌, ◌-◌, ◌+◌,
  get_or,
}
use pixel_pilot_rk.Drm.Modes.{ModeInfo}
use pixel_pilot_rk.Drm.Kernel.{
  Kernel, World, Reply, ok, fail, Dumb, PropValue, PropertyRes, Encoder, Plane, Connector,
  Resources,
}
use pixel_pilot_rk.Drm.Buffers.{Buf, at, null, format_nv12, format_argb8888}
use pixel_pilot_rk.Drm.Properties.{DrmObject}
use pixel_pilot_rk.Drm.Properties.Balance.{Describes}
use pixel_pilot_rk.Drm.Properties.Lookup.{NoNull}
use pixel_pilot_rk.Drm.State.{Output, zeroed}
use pixel_pilot_rk.Drm.Commit.Prepared.{IsRead}
use pixel_pilot_rk.Drm.Fit.{Ratio, IsRounding}

abbrev pub mode : ℕ → ℕ → ℕ → ℕ → ℕ → ModeInfo
mode w h r f t = record { hdisplay = w; vdisplay = h; vrefresh = r; flags = f; kind = t }

-- 4K, interlaced 1080, 1080 at two rates, and a preferred 720.
abbrev pub sample_modes : List ModeInfo
sample_modes =
    mode 3840 2160 60 0 0
    ∷ mode 1920 1080 60 16 0
    ∷ mode 1920 1080 50 0 0
    ∷ mode 1920 1080 60 0 0
    ∷ mode 1280 720 60 0 8
    ∷ []

-- The descriptions of the properties of every object, by id from 1 on.
abbrev name_list : List String
name_list =
    "CRTC_ID" ∷ "MODE_ID" ∷ "ACTIVE" ∷ "FB_ID" ∷ "SRC_X" ∷ "SRC_Y" ∷ "SRC_W" ∷ "SRC_H" ∷ "CRTC_X"
    ∷ "CRTC_Y" ∷ "CRTC_W" ∷ "CRTC_H" ∷ "WRITEBACK_FB_ID" ∷ "WRITEBACK_OUT_FENCE_PTR"
    ∷ "WRITEBACK_PIXEL_FORMATS" ∷ "zpos" ∷ []

abbrev sample_names : ℕ → String
sample_names id = get_or name_list (id - 1) ""

abbrev numbered : ℕ → List String → List PropValue
numbered i [] = []
numbered i (n ∷ ns) = record { prop_id = i; value = 2 } ∷ numbered (i + 1) ns

abbrev sample_props : List PropValue
sample_props = numbered 1 name_list

-- Plane 31 takes both formats on CRTC 0, plane 32 the OSD's.
abbrev pub sample_planes : ℕ → Option Plane
sample_planes id =
    if id == 31
    then some (record { possible_crtcs = 1; formats = format_nv12 ∷ format_argb8888 ∷ [] })
    else if id == 32
    then some (record { possible_crtcs = 3; formats = format_argb8888 ∷ [] })
    else none

-- A device on which everything succeeds.
abbrev pub sample_kernel : Kernel
sample_kernel = record {
  open_node = λ _ _. ok 3;
  set_client_cap = λ _ _. ok tt;
  get_cap = λ _ _. ok 1;
  create_dumb = λ _ w h bpp. ok (record { pitch = 7680; size = 8294400; handle = 11 });
  add_fb = λ _ _. ok 21;
  map_dumb = λ _ _. ok 4096;
  mmap = λ _ _ _. ok 65536;
  prime_handle_to_fd = λ _ _. ok 7;
  get_object_properties = λ _ _ _. some sample_props;
  get_property = λ _ id. some (record { prop_id = id; name = sample_names id });
  get_property_blob = λ _ _. some (format_nv12 ∷ []);
  create_property_blob = λ _ _. ok 51;
  get_resources = λ _. some (record { crtcs = 41 ∷ 42 ∷ []; connectors = 61 ∷ [] });
  get_connector = λ _ id. some (record {
    connector_id = id;
    encoder_id = 71;
    connector_type = 18;
    connection = 1;
    encoders = 71 ∷ [];
    modes = sample_modes;
  });
  get_encoder = λ _ _. some (record { crtc_id = 42; possible_crtcs = 1 });
  get_crtc = λ _ _. true;
  get_plane_resources = λ _. some (31 ∷ 32 ∷ []);
  get_plane = λ _ id. sample_planes id;
  atomic_alloc = λ _. true;
  add_property = λ _ _ _. ok 1;
  atomic_commit = λ _ _ _. ok tt;
}

-- A device that cannot map buffers.
abbrev pub unmappable_kernel : Kernel
unmappable_kernel = record sample_kernel { mmap = λ _ _ _. fail 11 }

pub sample_kernel-Describes : Describes sample_kernel
sample_kernel-Describes = record { described = λ w id e. cc }

abbrev pub sample_buf : Buf
sample_buf = record {
  width = 1920;
  height = 1080;
  stride = 1920;
  size = 8294400;
  handle = 11;
  map = at 65536;
  prime_fd = pos 7;
  fb = 21;
}

abbrev described : List PropertyRes → List (Option PropertyRes)
described [] = []
described (p ∷ ps) = some p ∷ described ps

described-NoNull : (ps : List PropertyRes) → NoNull (described ps)
described-NoNull [] = Every-nil _
described-NoNull (p ∷ ps) = Every-cons _ (some p) (described ps) (λ e. cc) (described-NoNull ps)

abbrev infos_from : List PropValue → List PropertyRes
infos_from [] = []
infos_from (p ∷ ps) = record { prop_id = p.prop_id; name = sample_names p.prop_id } ∷ infos_from ps

abbrev pub sample_object : ℕ → DrmObject
sample_object id = record {
  id = id;
  props = some sample_props;
  props_info = described (infos_from sample_props);
}

pub sample_object-IsRead : (id : ℕ) → IsRead (sample_object id)
sample_object-IsRead id = ((λ e. cc), described-NoNull (infos_from sample_props))

-- An output on CRTC 41 with a writeback connector, which is not enabled.
abbrev pub sample_output : Output
sample_output = record {
  connector = sample_object 60;
  crtc = sample_object 41;
  saved_crtc = true;
  mode = mode 1920 1080 60 0 0;
  mode_blob_id = 51;
  crtc_index = 0;
  video_crtc_width = 1920;
  video_crtc_height = 1080;
  osd_request = some [];
  osd_buf0 = sample_buf;
  osd_buf1 = sample_buf;
  osd_plane = sample_object 32;
  video_request = some [];
  video_plane = sample_object 31;
  wb_connector = sample_object 61;
  wb_available = true;
  wb_enabled = false;
}

-- Exact arithmetic is a rounding.
pub exact-IsRounding : IsRounding (λ x. x)
exact-IsRounding = record {
  mono = λ x y p q h. h;
  exact = λ n h. refl;
  normal = λ x p q h. (omega arith, h);
}
