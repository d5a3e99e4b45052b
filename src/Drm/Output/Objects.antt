-- ===== src/Drm/Output/Objects.antt =====
-- What `modeset_setup_objects` (src/drm.c) holds when it returns.
use pixel_pilot_rk.Common.{◌≡◌, ◌≢◌, ◌⊎◌, inl, inr, refl, ℤ, pos, none, List, [], ◌++◌, arith}
use pixel_pilot_rk.Drm.Kernel.{
  Kernel, World, Resource, ObjectKind, connector_object, crtc_object, plane_object,
}
use pixel_pilot_rk.Drm.Kernel.Monad.{
  Returns, Returns-and_then, Returns-mono, M, pure, ◌>>=◌, if_null, if_null-cases,
}
use pixel_pilot_rk.Drm.Kernel.Ledger.{Gains, Same, tally-append}
use pixel_pilot_rk.Drm.Properties.{DrmObject, get_object_properties, drm_object_fini}
use pixel_pilot_rk.Drm.Properties.Balance.{
  object_resources, get_object_properties-Gains, drm_object_fini-Loses,
}
use pixel_pilot_rk.Drm.State.{Output}
use pixel_pilot_rk.Drm.Output.{
  enomem, out_crtc, out_plane, setup_osd_plane, setup_video_plane, setup_crtc, setup_objects,
}

-- What belongs to the first objects of an output.
abbrev connector_resources : Output → List Resource
connector_resources o = object_resources o.connector

abbrev crtc_resources : Output → List Resource
crtc_resources o = object_resources o.connector ++ object_resources o.crtc

abbrev video_resources : Output → List Resource
video_resources o = crtc_resources o ++ object_resources o.video_plane

-- What belongs to the connector, the CRTC and the two planes of an output.
abbrev pub objects_resources : Output → List Resource
objects_resources o = video_resources o ++ object_resources o.osd_plane

-- Success holds what belongs to all four objects. Failure holds nothing, unless it was the OSD plane
-- that failed: then what belongs to the video plane is still held.
abbrev pub SetupObjects : World → ℤ × Output → World → Type 0
SetupObjects w (c, o) w' =
    ((c ≡ pos 0) × Gains w w' (objects_resources o))
    ⊎ ((c ≡ enomem) × Same w w')
    ⊎ ((c ≡ enomem) × (o.osd_plane.props ≡ none) × Gains w w' (object_resources o.video_plane))

module _ (start : World) where
  out_crtc-Same :
      (o : Output) (w : World)
      → o.connector.props ≢ none
      → (rest : List Resource) → Gains start w (connector_resources o ++ rest)
      → Returns (out_crtc o w) (λ r w'. (r ≡ (enomem, o)) × Gains start w' rest)
  unfolding out_crtc
  out_crtc-Same o w h rest g =
      Returns-and_then (drm_object_fini o.connector w) _ _ _ (drm_object_fini-Loses o.connector w h)
        λ _ w' l. (refl, λ r. omega (arith, g r, l r, tally-append r (connector_resources o) rest))

  out_plane-Same :
      (o : Output) (w : World)
      → o.connector.props ≢ none
      → o.crtc.props ≢ none
      → (rest : List Resource) → Gains start w (crtc_resources o ++ rest)
      → Returns (out_plane o w) (λ r w'. (r ≡ (enomem, o)) × Gains start w' rest)
  unfolding out_plane
  out_plane-Same o w h h' rest g =
      Returns-and_then (drm_object_fini o.crtc w) _ _ _ (drm_object_fini-Loses o.crtc w h')
        λ _ w' l. out_crtc-Same o w' h rest (λ r. omega (
          arith,
          g r,
          l r,
          tally-append r (crtc_resources o) rest,
          tally-append r (connector_resources o) (object_resources o.crtc),
          tally-append r (connector_resources o) rest,
        ))

-- One object more is read, or its properties are NULL and nothing is.
module _ (k : Kernel) (start : World) where
  read-cases :
      {B : Type 0} (obj : DrmObject) (kind : ObjectKind) (w : World) (held : List Resource)
      (m n : DrmObject → M B) (Q : B → World → Type 0)
      → Gains start w held
      → ((p : DrmObject) (v : World) → p.props ≡ none → Gains start v held → Returns (m p v) Q)
      → ((p : DrmObject) (v : World)
          → p.props ≢ none
          → Gains start v (held ++ object_resources p)
          → Returns (n p v) Q)
      → Returns ((get_object_properties k obj kind >>= λ p. if_null p.props (m p) (n p)) w) Q
  read-cases obj kind w held m n Q g failed read =
      Returns-and_then (get_object_properties k obj kind w) _ _ _
        (get_object_properties-Gains k obj kind w)
        λ p v (_, c).
          if_null-cases p.props _ _ (λ x. Returns (x v) Q)
            (λ e.
              failed p v e
                (elim c [ inl (_, s) ↦ λ r. omega (arith, g r, s r) | inr (h, _) ↦ absurd (h e) ]))
            (λ h. read p v h (elim c [
              | inl (e, _) ↦ absurd (h e)
              | inr (_, s) ↦ λ r. omega (arith, g r, s r, tally-append r held (object_resources p))
            ]))

  setup_osd_plane-Setup :
      (o : Output) (w : World)
      → o.connector.props ≢ none
      → o.crtc.props ≢ none
      → Gains start w (video_resources o)
      → Returns (setup_osd_plane k o w) (SetupObjects start)
  unfolding setup_osd_plane
  setup_osd_plane-Setup o w h h' g =
      read-cases o.osd_plane plane_object w (video_resources o)
        (λ p. out_plane (record o { osd_plane = p }))
        (λ p. pure (pos 0, record o { osd_plane = p })) _ g
        (λ p v e g'.
          Returns-mono (out_plane (record o { osd_plane = p }) v) _ _
            (out_plane-Same start (record o { osd_plane = p }) v h h'
              (object_resources o.video_plane) g')
            (λ r u (q, f). rw q (inr (inr (refl, e, f)))))
        (λ p v h'' g'. inl (refl, g'))

  setup_video_plane-Setup :
      (o : Output) (w : World)
      → o.connector.props ≢ none
      → o.crtc.props ≢ none
      → Gains start w (crtc_resources o)
      → Returns (setup_video_plane k o w) (SetupObjects start)
  unfolding setup_video_plane
  setup_video_plane-Setup o w h h' g =
      read-cases o.video_plane plane_object w (crtc_resources o)
        (λ p. out_plane (record o { video_plane = p }))
        (λ p. setup_osd_plane k (record o { video_plane = p })) _ g
        (λ p v e g'.
          Returns-mono (out_plane (record o { video_plane = p }) v) _ _
            (out_plane-Same start (record o { video_plane = p }) v h h' []
              (λ r. omega (arith, g' r, tally-append r (crtc_resources o) [])))
            (λ r u (q, f). rw q (inr (inl (refl, f)))))
        (λ p v h'' g'. setup_osd_plane-Setup (record o { video_plane = p }) v h h' g')

  setup_crtc-Setup :
      (o : Output) (w : World)
      → o.connector.props ≢ none
      → Gains start w (connector_resources o)
      → Returns (setup_crtc k o w) (SetupObjects start)
  unfolding setup_crtc
  setup_crtc-Setup o w h g =
      read-cases o.crtc crtc_object w (connector_resources o)
        (λ p. out_crtc (record o { crtc = p })) (λ p. setup_video_plane k (record o { crtc = p })) _
        g
        (λ p v e g'.
          Returns-mono (out_crtc (record o { crtc = p }) v) _ _
            (out_crtc-Same start (record o { crtc = p }) v h []
              (λ r. omega (arith, g' r, tally-append r (connector_resources o) [])))
            (λ r u (q, f). rw q (inr (inl (refl, f)))))
        (λ p v h' g'. setup_video_plane-Setup (record o { crtc = p }) v h h' g')

-- `modeset_setup_objects` returns 0 holding what belongs to the connector, the CRTC and both planes.
-- Otherwise it returns -ENOMEM and has given back all of it, but for one case: if the properties of
-- the OSD plane are not to be had, those of the video plane are still held.
pub setup_objects-SetupObjects :
    (k : Kernel) (o : Output) (w : World) → Returns (setup_objects k o w) (SetupObjects w)
unfolding setup_objects
setup_objects-SetupObjects k o w =
    read-cases k w o.connector connector_object w []
      (λ p. pure (enomem, record o { connector = p }))
      (λ p. setup_crtc k (record o { connector = p })) _ (λ r. omega arith)
      (λ p v e g. inr (inl (refl, g)))
      (λ p v h g. setup_crtc-Setup k w (record o { connector = p }) v h g)
