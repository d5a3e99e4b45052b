-- ===== src/Drm/Output.antt =====
-- The life of a `struct modeset_output` (src/drm.c): its objects, its framebuffers, its creation and
-- its destruction.
pub mod Objects
pub mod Framebuffers
pub mod Shared
use pixel_pilot_rk.Common.{
  ℕ, ℤ, pos, negsuc, is_zero, Bool, true, false, Option, none, some, List, [], ◌∷◌, if◌then◌else◌,
  ◌==◌, get_elem?, not, length,
}
use pixel_pilot_rk.Drm.Modes.{Request, ModeInfo, choose_mode}
use pixel_pilot_rk.Drm.Kernel.{
  Kernel, World, Reply, ok, fail, Connector, Resources, connector_object, crtc_object, plane_object,
  blob, output, request, resources, connector,
}
use pixel_pilot_rk.Drm.Kernel.Monad.{
  M, pure, fault, ◌>>=◌, ◌>>◌, take, give_back, ask_for, allocate, if_null,
}
use pixel_pilot_rk.Drm.Buffers.{Buf, create_fb, destroy_fb, format_nv12, format_argb8888}
use pixel_pilot_rk.Drm.Properties.{DrmObject, get_object_properties, drm_object_fini}
use pixel_pilot_rk.Drm.State.{Output, zeroed}
use pixel_pilot_rk.Drm.Crtc.{find_crtc}
use pixel_pilot_rk.Drm.Planes.{find_plane}

-- -ENOMEM
abbrev pub enomem : ℤ
enomem = negsuc 11

-- The labels `out_crtc` and `out_plane` of `modeset_setup_objects`.
pub out_crtc : Output → M (ℤ × Output)
out_crtc out = do drm_object_fini out.connector; pure (enomem, out)

pub out_plane : Output → M (ℤ × Output)
unfolding out_crtc
out_plane out = do drm_object_fini out.crtc; out_crtc out

module _ (k : Kernel) where
  pub setup_osd_plane : Output → M (ℤ × Output)
  setup_osd_plane out = do
    o ← get_object_properties k out.osd_plane plane_object
    if_null o.props (out_plane (record out { osd_plane = o }))
        (pure (pos 0, record out { osd_plane = o }))

  pub setup_video_plane : Output → M (ℤ × Output)
  setup_video_plane out = do
    o ← get_object_properties k out.video_plane plane_object
    if_null o.props (out_plane (record out { video_plane = o }))
        (setup_osd_plane (record out { video_plane = o }))

  pub setup_crtc : Output → M (ℤ × Output)
  setup_crtc out = do
    o ← get_object_properties k out.crtc crtc_object
    if_null o.props (out_crtc (record out { crtc = o }))
        (setup_video_plane (record out { crtc = o }))

  pub setup_objects : Output → M (ℤ × Output)
  unfolding setup_crtc setup_video_plane setup_osd_plane out_plane out_crtc
  setup_objects out = do
    o ← get_object_properties k out.connector connector_object
    if_null o.props (pure (enomem, record out { connector = o }))
        (setup_crtc (record out { connector = o }))

pub destroy_objects : Output → M (Unit {0})
destroy_objects out = do
  drm_object_fini out.connector
  drm_object_fini out.crtc
  drm_object_fini out.video_plane
  drm_object_fini out.osd_plane
  if_null out.wb_connector.props (pure tt) (drm_object_fini out.wb_connector)

abbrev pub sized : Output → Buf → Buf
sized out b = record b { width = out.mode.hdisplay; height = out.mode.vdisplay }

-- The two rounds of the loop over OSD_BUF_COUNT buffers; a failure ends it.
module _ (k : Kernel) where
  pub second_framebuffer : Output → M (ℤ × Output)
  second_framebuffer out = do
    (ret, b) ← create_fb k (sized out out.osd_buf1)
    if is_zero ret
        then pure (
          pos 0,
          record out {
            osd_buf1 = b;
            video_crtc_width = out.mode.hdisplay;
            video_crtc_height = out.mode.vdisplay;
          },
        )
        else pure (ret, record out { osd_buf1 = b })

  pub setup_framebuffers : Output → M (ℤ × Output)
  unfolding second_framebuffer
  setup_framebuffers out = do
    (ret, b) ← create_fb k (sized out out.osd_buf0)
    if is_zero ret
        then second_framebuffer (record out { osd_buf0 = b })
        else pure (ret, record out { osd_buf0 = b })

pub output_destroy : Output → M (Unit {0})
unfolding destroy_objects
output_destroy out = do
  destroy_objects out
  destroy_fb out.osd_buf0
  destroy_fb out.osd_buf1
  give_back (blob out.mode_blob_id)
  give_back output

pub cleanup : Output → M (Unit {0})
unfolding output_destroy
cleanup out = output_destroy out

-- The labels of `modeset_output_create`; the result is NULL.
out_error : M (Option Output)
out_error = do give_back output; pure none

out_blob : Output → M (Option Output)
unfolding out_error
out_blob out = do give_back (blob out.mode_blob_id); out_error

out_obj : Output → M (Option Output)
unfolding out_blob destroy_objects
out_obj out = do destroy_objects out; out_blob out

-- DRM_MODE_CONNECTOR_WRITEBACK
abbrev pub writeback_type : ℕ
writeback_type = 18

module _ (k : Kernel) where
  abbrev alloc_request : World → Option (Unit {0})
  alloc_request w = if k.atomic_alloc w then some tt else none

  -- Both assertions look at `video_request`; `osd_request` may be NULL.
  create_requests : Output → M (Option Output)
  create_requests out = do
    v ← allocate alloc_request (λ _. request)
    if_null v fault (do
      o ← allocate alloc_request (λ _. request)
      pure (
          some (record out {
            video_request = some [];
            osd_request = elim o [ none ↦ none | some _ ↦ some [] ];
          })))

  create_framebuffers : Output → M (Option Output)
  unfolding create_requests out_obj setup_framebuffers
  create_framebuffers out = do
    (ret, out') ← setup_framebuffers k out
    if is_zero ret then create_requests out' else out_obj out'

  pub create_objects : Output → M (Option Output)
  unfolding create_framebuffers out_blob setup_objects
  create_objects out = do
    (ret, out') ← setup_objects k out
    if is_zero ret then create_framebuffers out' else out_blob out'

  pub create_planes : Output → M (Option Output)
  unfolding create_objects out_blob
  create_planes out = do
    (ret, v) ← find_plane k out.crtc_index format_nv12 out.video_plane
    if not (is_zero ret) then out_blob out else (do
      (ret', o) ← find_plane k out.crtc_index format_argb8888 out.osd_plane
      if not (is_zero ret')
          then out_blob out
          else create_objects (record out { video_plane = v; osd_plane = o }))

  create_crtc : Resources → Connector → Output → M (Option Output)
  unfolding create_planes out_blob
  create_crtc res conn out = do
    (ret, out') ← find_crtc k res conn out
    if is_zero ret then create_planes out' else out_blob out'

  create_mode : Resources → Connector → Output → ModeInfo → M (Option Output)
  unfolding create_crtc out_error
  create_mode res conn out mode = do
    r ← ask_for (λ w. k.create_property_blob w mode) blob
    elim r [
      | fail e ↦ out_error
      | ok id ↦ create_crtc res conn (record out { mode = mode; mode_blob_id = id })
    ]

  -- DRM_MODE_CONNECTED is 1. A read of `conn->modes` out of range is a fault.
  pub output_create : Resources → Connector → Request → ℕ → M (Option Output)
  unfolding create_mode out_error
  output_create res conn r target = do
    take output
    if not (conn.connection == 1)
        then out_error
        else if length conn.modes == 0
        then out_error
        else elim (choose_mode r target conn.modes) [
          | none ↦ out_error
          | some fc ↦ elim (get_elem? conn.modes fc) [
            | none ↦ fault
            | some mode ↦ create_mode res conn (zeroed conn.connector_id) mode
          ]
        ]

  prepare_loop : Resources → Request → ℕ → List ℕ → M (Option Output)
  unfolding output_create
  prepare_loop res r target [] = do give_back resources; pure none
  prepare_loop res r target (c ∷ cs) = do
    answer ← allocate (λ w. k.get_connector w c) (λ conn. connector conn.connector_id)
    elim answer [
      | none ↦ prepare_loop res r target cs
      | some conn ↦
          let rest = (do give_back (connector conn.connector_id); prepare_loop res r target cs) in
          if conn.connector_type == writeback_type then rest else (do
            out ← output_create res conn r target
            elim out [
              | none ↦ rest
              | some o ↦ (do
                give_back (connector conn.connector_id)
                give_back resources
                pure (some o))
            ])
    ]

  pub prepare : Request → ℕ → M (Option Output)
  unfolding prepare_loop
  prepare r target = do
    answer ← allocate k.get_resources (λ _. resources)
    elim answer [ none ↦ pure none | some res ↦ prepare_loop res r target res.connectors ]
