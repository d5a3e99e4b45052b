-- ===== src/Drm/Output/Shared.antt =====
-- The planes that `modeset_output_create` (src/drm.c) picks for the video and for the OSD.
use pixel_pilot_rk.Common.{ℕ, ◌<◌, ◌≡◌, refl, Option, none, some, List, get_elem?, Every, ap, ◌∙◌}
use pixel_pilot_rk.Drm.Kernel.{Kernel, World, Plane}
use pixel_pilot_rk.Drm.Kernel.Monad.{Returns, Returns-mono, M, and_then}
use pixel_pilot_rk.Drm.Kernel.Ledger.{Same, Same-trans}
use pixel_pilot_rk.Drm.Buffers.{format_nv12, format_argb8888}
use pixel_pilot_rk.Drm.Properties.{DrmObject}
use pixel_pilot_rk.Drm.Planes.{find_plane, plane_result}
use pixel_pilot_rk.Drm.Planes.First.{HasPlanes, Usable, find_plane-FirstUsable, FirstUsable-unique}
use pixel_pilot_rk.Drm.State.{Output}
use pixel_pilot_rk.Drm.Output.{create_planes, create_objects}

-- The code goes on with `next` at a log where all that was taken is given back.
abbrev pub GoesOnWith : {A : Type 0} → Option (A × World) → World → M A → Type 0
GoesOnWith x w next = (v : World) × Same w v × (x ≡ next v)

after_found :
    {A B : Type 0} (m : Option (A × World)) (f : A → M B) (next : M B) (r : A) (w : World)
    → Returns m (λ a v. Same w v × (a ≡ r))
    → ((v : World) → Same w v → GoesOnWith (f r v) w next)
    → GoesOnWith (and_then m f) w next
after_found none f next r w h g = absurd h
after_found (some (a, v)) f next r w (s, e) g =
    let (u, t, q) = g v s in (u, t, ap (λ x. f x v) e ∙ q)

module _ (k : Kernel) (out : Output) (ids : List ℕ) (table : ℕ → Option Plane) (j id : ℕ)
    (h : HasPlanes k ids table) (at_j : get_elem? ids j ≡ some id) where
  picked :
      (format : ℕ) (o : DrmObject) (w : World)
      → Usable table out.crtc_index format id
      → Every (λ i n. i < j → ¬ Usable table out.crtc_index format n) ids
      → Returns
          (find_plane k out.crtc_index format o w)
          (λ r v. Same w v × (r ≡ plane_result o (some id)))
  picked format o w u before =
      Returns-mono (find_plane k out.crtc_index format o w) _ _
        (find_plane-FirstUsable k out.crtc_index format ids table h o w)
        (λ r v (s, (found, first, e)). (
          s,
          e
              ∙ ap (plane_result o) (
                  FirstUsable-unique table out.crtc_index format ids found j id at_j u before
                    first),
        ))

  -- The choice of the OSD's plane does not look at the video's: if on a device whose planes do not change
  -- one plane takes NV12 and ARGB8888 and may be shown on the CRTC, and no earlier plane is usable for
  -- either format, `modeset_output_create` goes on to its objects with this plane as the video's and as
  -- the OSD's, and with all that the search took given back.
  pub create_planes-shared :
      (w : World)
      → Usable table out.crtc_index format_nv12 id
      → Usable table out.crtc_index format_argb8888 id
      → Every
          (λ i n.
            i < j
            → ¬ Usable table out.crtc_index format_nv12 n
              × ¬ Usable table out.crtc_index format_argb8888 n)
          ids
      → GoesOnWith (create_planes k out w) w (
          create_objects k (record out {
            video_plane = record out.video_plane { id = id };
            osd_plane = record out.osd_plane { id = id };
          }))
  unfolding create_planes
  create_planes-shared w uf ug before =
      after_found (find_plane k out.crtc_index format_nv12 out.video_plane w) _ _ _ w
        (picked format_nv12 out.video_plane w uf (λ i n g lt. (before i n g lt).0))
        λ v s.
          after_found (find_plane k out.crtc_index format_argb8888 out.osd_plane v) _ _ _ w
            (Returns-mono (find_plane k out.crtc_index format_argb8888 out.osd_plane v) _ _
              (picked format_argb8888 out.osd_plane v ug (λ i n g lt. (before i n g lt).1))
              (λ r u (s', e). (Same-trans w v u s s', e)))
            (λ u t. (u, t, refl))
