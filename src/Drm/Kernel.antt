-- ===== src/Drm/Kernel.antt =====
-- What src/drm.c asks of the kernel and of libdrm. Neither is part of the repository: each call is a
-- field of the parameter `Kernel`, and may answer as it likes, by all that was called before. The
-- model keeps the log of the calls that acquire or give back something, or that commit a state.
pub mod Monad
pub mod Ledger
pub mod Ensures
use pixel_pilot_rk.Common.{ℕ, ℤ, pos, negsuc, Option, List, String, Bool}
use pixel_pilot_rk.Drm.Modes.{ModeInfo}

-- What the process holds until it gives it back: descriptors, GEM handles, framebuffers, mappings
-- (address and size), property blobs, and libdrm's and the heap's allocations, named by the id of
-- the object that they describe.
pub data Resource : Type 0 where
  file dumb frame blob : ℕ → Resource
  mapping : ℕ → ℕ → Resource
  object_properties infos property crtc encoder plane connector blob_copy : ℕ → Resource
  resources plane_resources request output : Resource

-- One `drmModeAtomicAddProperty`: object, property and value.
pub record Item : Type 0 where
  pub object : ℕ
  pub prop_id : ℕ
  pub value : ℕ

-- The contents of a `drmModeAtomicReq`, oldest first.
abbrev pub Request : Type 0
Request = List Item

pub data Event : Type 0 where
  acquire release : Resource → Event
  -- flags and contents of a `drmModeAtomicCommit` that the kernel accepted
  committed : ℕ → Request → Event

-- Newest first.
abbrev pub World : Type 0
World = List Event

-- `fail e` is a failure with the error number e + 1 (error numbers are positive).
pub data Reply (A : Type 0) : Type 0 where
  ok : A → Reply A
  fail : ℕ → Reply A

pub record Dumb : Type 0 where
  pub pitch : ℕ
  pub size : ℕ
  pub handle : ℕ

-- The arguments of `drmModeAddFB2` that vary: the arrays are written as lists.
pub record FrameRequest : Type 0 where
  pub width : ℕ
  pub height : ℕ
  pub format : ℕ
  pub handles : List ℕ
  pub pitches : List ℕ
  pub offsets : List ℕ

-- An entry of `drmModeObjectProperties`: `props[j]` and `prop_values[j]`.
pub record PropValue : Type 0 where
  pub prop_id : ℕ
  pub value : ℕ

-- The fields of `drmModePropertyRes` that the code reads.
pub record PropertyRes : Type 0 where
  pub prop_id : ℕ
  pub name : String

pub record Encoder : Type 0 where
  pub crtc_id : ℕ
  pub possible_crtcs : ℕ

pub record Plane : Type 0 where
  pub possible_crtcs : ℕ
  pub formats : List ℕ

pub data ObjectKind : Type 0 where
  crtc_object connector_object plane_object : ObjectKind

pub record Connector : Type 0 where
  pub connector_id : ℕ
  pub encoder_id : ℕ
  pub connector_type : ℕ
  pub connection : ℕ
  pub encoders : List ℕ
  pub modes : List ModeInfo

pub record Resources : Type 0 where
  pub crtcs : List ℕ
  pub connectors : List ℕ

-- The device behind the descriptor that the functions of drm.c pass on. `none` is a NULL result.
pub record Kernel : Type 0 where
  pub open_node : World → String → Reply ℕ
  pub set_client_cap : World → ℕ → Reply (Unit {0})
  pub get_cap : World → ℕ → Reply ℕ
  pub create_dumb : World → ℕ → ℕ → ℕ → Reply Dumb
  pub add_fb : World → FrameRequest → Reply ℕ
  pub map_dumb : World → ℕ → Reply ℕ
  pub mmap : World → ℕ → ℕ → Reply ℕ
  pub prime_handle_to_fd : World → ℕ → Reply ℕ
  pub get_object_properties : World → ℕ → ObjectKind → Option (List PropValue)
  pub get_property : World → ℕ → Option PropertyRes
  pub get_property_blob : World → ℕ → Option (List ℕ)
  pub create_property_blob : World → ModeInfo → Reply ℕ
  pub get_resources : World → Option Resources
  pub get_connector : World → ℕ → Option Connector
  pub get_encoder : World → ℕ → Option Encoder
  pub get_crtc : World → ℕ → Bool
  pub get_plane_resources : World → Option (List ℕ)
  pub get_plane : World → ℕ → Option Plane
  pub atomic_alloc : World → Bool
  pub add_property : World → Request → Item → Reply ℕ
  pub atomic_commit : World → ℕ → Request → Reply (Unit {0})
