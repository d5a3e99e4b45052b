-- ===== src/Drm/Writeback/Kept.antt =====
-- What `modeset_find_writeback` (src/drm.c) leaves alone, and that the kernel described each property of
-- the connector that it found.
use pixel_pilot_rk.Common.{
  ℕ, inl, inr, ◌≡◌, refl, ℤ, is_neg, Bool, true, false, not, ◌||◌, List, [], ◌∷◌, if◌then◌else◌,
  ◌==◌, Bool-cases,
}
use pixel_pilot_rk.Drm.Kernel.{Kernel, World, Connector, connector, connector_object}
use pixel_pilot_rk.Drm.Kernel.Monad.{pure, ◌>>=◌, ◌>>◌, give_back, if_null-cases}
use pixel_pilot_rk.Drm.Kernel.Ensures.{
  Ensures, Ensures-and_then, Ensures-after, Ensures-bind, Ensures-allocate,
}
use pixel_pilot_rk.Drm.Properties.{
  DrmObject, get_object_properties, get_property_value, drm_object_fini,
}
use pixel_pilot_rk.Drm.Properties.Balance.{Describes}
use pixel_pilot_rk.Drm.Properties.Described.{get_object_properties-NoNull}
use pixel_pilot_rk.Drm.Properties.Lookup.{NoNull}
use pixel_pilot_rk.Drm.State.{Output}
use pixel_pilot_rk.Drm.Output.{writeback_type}
use pixel_pilot_rk.Drm.Writeback.{
  drives_crtc, has_nv12, drop_connector, check_properties, read_connector, try_connector, find_loop,
  find_writeback, unwired,
}

-- The display's objects are as they were, and a connector that is available was described.
abbrev pub Kept : Output → Output → Type 0
Kept out o =
    (o.connector ≡ out.connector)
    × (o.crtc ≡ out.crtc)
    × (o.osd_plane ≡ out.osd_plane)
    × (o.wb_available ≡ true → NoNull o.wb_connector.props_info)

-- A call that leaves what is known of a connector as it is.
module _ (k : Kernel) (start : Output) where
  drop_connector-Kept :
      (out : Output) (w : World) → Kept start out → Ensures (drop_connector k out w) (Kept start)
  unfolding drop_connector
  drop_connector-Kept out w h = Ensures-and_then (drm_object_fini out.wb_connector w) _ _ (λ _ _. h)

  after_values :
      (out : Output) (b : Bool) (fmts : ℤ) (w : World)
      → Kept start out
      → NoNull out.wb_connector.props_info
      → Ensures {A = Output}
          ((if b then drop_connector k out else (do
            nv12 ← has_nv12 k fmts
            if nv12 then pure (record out { wb_available = true }) else drop_connector k out))
            w)
          (Kept start)
  after_values out true fmts w h n = drop_connector-Kept out w h
  after_values out false fmts w h n = Ensures-and_then (has_nv12 k fmts w) _ _ λ c v.
      elim (Bool-cases c) [
        | inl e ↦ rw e (h.0, h.1, h.2, λ _. n)
        | inr e ↦ rw e (drop_connector-Kept out v h)
      ]

  check_properties-Kept :
      (out : Output) (w : World)
      → Kept start out
      → NoNull out.wb_connector.props_info
      → Ensures (check_properties k out w) (Kept start)
  unfolding check_properties
  check_properties-Kept out w h n =
      Ensures-and_then (get_property_value k out.wb_connector.props "WRITEBACK_FB_ID" w) _ _ λ a w1.
        Ensures-and_then (get_property_value k out.wb_connector.props "WRITEBACK_OUT_FENCE_PTR" w1)
          _ _
          λ b w2.
            Ensures-and_then
              (get_property_value k out.wb_connector.props "WRITEBACK_PIXEL_FORMATS" w2) _ _
              λ c w3. after_values out (is_neg a || is_neg b) c w3 h n

  module _ (d : Describes k) where
    read_connector-Kept :
        (conn : Connector) (out : Output) (w : World)
        → out.wb_available ≡ false
        → Kept start out
        → Ensures (read_connector k conn out w) (Kept start)
    unfolding read_connector
    read_connector-Kept conn out w a h =
        let obj : DrmObject = record out.wb_connector { id = conn.connector_id } in
        Ensures-after (get_object_properties k obj connector_object w) _ _ _
          (get_object_properties-NoNull k d obj connector_object w)
          λ o v n.
            if_null-cases o.props _ _ (λ m. Ensures (m v) (Kept start))
              (λ _. (h.0, h.1, h.2, λ e. absurd (cc)))
              (λ p.
                check_properties-Kept (record out { wb_connector = o }) v (h.0, h.1, h.2, λ _. n p)
                  (n p))

    try_encoders :
        (conn : Connector) (out : Output) (b : Bool) (w : World)
        → out.wb_available ≡ false
        → Kept start out
        → Ensures ((if b then read_connector k conn out else pure out) w) (Kept start)
    try_encoders conn out true w a h = read_connector-Kept conn out w a h
    try_encoders conn out false w a h = h

    try_returned :
        (conn : Connector) (out : Output) (b : Bool) (w : World)
        → out.wb_available ≡ false
        → Kept start out
        → Ensures {A = Output}
            ((if b then (give_back (connector conn.connector_id) >> pure out) else (do
              crtc_ok ← drives_crtc k out.crtc_index conn.encoders
              out' ← (if crtc_ok then read_connector k conn out else pure out)
              give_back (connector conn.connector_id)
              pure out'))
              w)
            (Kept start)
    try_returned conn out true w a h = h
    try_returned conn out false w a h =
        Ensures-and_then (drives_crtc k out.crtc_index conn.encoders w) _ _ λ b v.
          Ensures-bind ((if b then read_connector k conn out else pure out) v) _ _ _
            (try_encoders conn out b v a h) (λ o u q. q)

    try_connector-Kept :
        (c : ℕ) (out : Output) (w : World)
        → out.wb_available ≡ false
        → Kept start out
        → Ensures (try_connector k c out w) (Kept start)
    unfolding try_connector
    try_connector-Kept c out w a h =
        Ensures-allocate _ w _ _ _ (k.get_connector w c) h
          (λ conn. try_returned conn out (not (conn.connector_type == writeback_type)) _ a h)

    next_connector :
        (cs : List ℕ) (o : Output) (v : World) (b : Bool)
        → Kept start o
        → (o.wb_available ≡ false → Ensures (find_loop k cs o v) (Kept start))
        → o.wb_available ≡ b
        → Ensures ((if b then pure o else find_loop k cs o) v) (Kept start)
    next_connector cs o v true q ih e = q
    next_connector cs o v false q ih e = ih e

    find_loop-Kept :
        (cs : List ℕ) (out : Output) (w : World)
        → out.wb_available ≡ false
        → Kept start out
        → Ensures (find_loop k cs out w) (Kept start)
    unfolding find_loop
    find_loop-Kept [] out w a h = h
    find_loop-Kept (c ∷ cs) out w a h =
        Ensures-bind (try_connector k c out w) _ _ _ (try_connector-Kept c out w a h)
          λ o v q. next_connector cs o v o.wb_available q (λ e. find_loop-Kept cs o v e q) refl

-- `modeset_find_writeback` leaves the display's objects as they are, and the properties of a connector
-- that it marks available were described.
pub find_writeback-Kept :
    (k : Kernel) (out : Output) (w : World)
    → Describes k
    → Ensures (find_writeback k out w) (λ r. Kept out r.1)
unfolding find_writeback
find_writeback-Kept k out w d =
    Ensures-allocate _ w _ _ _ (k.get_resources w) (refl, refl, refl, λ e. absurd (cc))
      λ res.
        Ensures-bind (find_loop k res.connectors (unwired out) _) _ _ _
          (find_loop-Kept k out d res.connectors (unwired out) _ refl
            (refl, refl, refl, λ e. absurd (cc)))
          (λ o v q. q)
