-- ===== src/Drm/Writeback/Found.antt =====
-- What `modeset_find_writeback` (src/drm.c) finds.
use pixel_pilot_rk.Common.{
  ℕ, ◌%◌, ◌^◌, ◌≡◌, ◌≢◌, ◌⊎◌, inl, inr, refl, ℤ, pos, is_neg, is_pos, word64, Bool, true, false,
  not, ◌||◌, Option, none, some, List, [], ◌∷◌, if◌then◌else◌, ◌==◌, arith, Bool-cases, String,
}
use pixel_pilot_rk.Drm.Modes.{bit}
use pixel_pilot_rk.Drm.Kernel.{
  Kernel, World, Connector, PropValue, acquire, release, connector, resources, connector_object,
}
use pixel_pilot_rk.Drm.Kernel.Monad.{
  Returns, Returns-and_then, Returns-mono, allocate-cases, pure, ◌>>=◌, ◌>>◌, give_back,
  if_null-cases,
}
use pixel_pilot_rk.Drm.Kernel.Ledger.{Gains, Same, Same-refl}
use pixel_pilot_rk.Drm.Properties.{
  DrmObject, get_property_value, get_object_properties, drm_object_fini,
}
use pixel_pilot_rk.Drm.Properties.Balance.{
  Describes, object_resources, get_object_properties-Gains, drm_object_fini-Loses,
  get_property_value-Same,
}
use pixel_pilot_rk.Drm.State.{Output}
use pixel_pilot_rk.Drm.Crtc.{enoent}
use pixel_pilot_rk.Drm.Output.{writeback_type}
use pixel_pilot_rk.Drm.Writeback.{
  drives_crtc, has_nv12, drop_connector, check_properties, read_connector, try_connector, find_loop,
  find_writeback, unwired,
}

-- While no connector is found nothing is held; the one that is found keeps its properties, which are
-- held. Nothing is attached yet.
abbrev pub Tried : World → Output → World → Type 0
Tried start o w =
    (o.wb_enabled ≡ false)
    × (((o.wb_available ≡ true)
          × (o.wb_connector.props ≢ none)
          × Gains start w (object_resources o.wb_connector))
        ⊎ ((o.wb_available ≡ false) × Same start w))

Tried-from : (s w : World) (o : Output) (u : World) → Same s w → Tried w o u → Tried s o u
Tried-from s w o u e (n, inl (a, p, g)) = (n, inl (a, p, λ r. omega (arith, e r, g r)))
Tried-from s w o u e (n, inr (a, g)) = (n, inr (a, λ r. omega (arith, e r, g r)))

Tried-to : (s w : World) (o : Output) (u : World) → Same w u → Tried s o w → Tried s o u
Tried-to s w o u e (n, inl (a, p, g)) = (n, inl (a, p, λ r. omega (arith, e r, g r)))
Tried-to s w o u e (n, inr (a, g)) = (n, inr (a, λ r. omega (arith, e r, g r)))

module _ (k : Kernel) where
  drives_crtc-Same :
      (i : ℕ) (es : List ℕ) (w : World) → Returns (drives_crtc k i es w) (λ _ w'. Same w w')
  unfolding drives_crtc
  drives_crtc-Same i [] w = Same-refl w
  drives_crtc-Same i (e ∷ es) w =
      allocate-cases _ w _ _ _ (k.get_encoder w e) (λ _. drives_crtc-Same i es w)
        λ enc _. elim (Bool-cases (bit i enc.possible_crtcs)) [
          | inl t ↦ rw t (λ r. omega arith)
          | inr f ↦ rw f (
              Returns-mono (drives_crtc k i es _) _ _ (drives_crtc-Same i es _)
                (λ _ v g r. omega (arith, g r)))
        ]

  has_nv12-Same : (fmts : ℤ) (w : World) → Returns (has_nv12 k fmts w) (λ _ w'. Same w w')
  unfolding has_nv12
  has_nv12-Same fmts w = elim (Bool-cases (is_pos fmts)) [
    | inl t ↦ rw t (
        allocate-cases _ w _ _ _ (k.get_property_blob w (word64 fmts % 2 ^ 32)) (λ _. Same-refl w)
          (λ formats _ r. omega arith))
    | inr f ↦ rw f (Same-refl w)
  ]

  drop_connector-Tried :
      (start : World) (out : Output) (w : World)
      → out.wb_enabled ≡ false
      → out.wb_available ≡ false
      → out.wb_connector.props ≢ none
      → Gains start w (object_resources out.wb_connector)
      → Returns (drop_connector k out w) (Tried start)
  unfolding drop_connector
  drop_connector-Tried start out w n a h g =
      Returns-and_then (drm_object_fini out.wb_connector w) _ _ _
        (drm_object_fini-Loses out.wb_connector w h)
        (λ _ w' l. (n, inr (a, λ r. omega (arith, g r, l r))))

pub value-Same :
    (k : Kernel) (d : Describes k) (props : Option (List PropValue)) (name : String) (w : World)
    → props ≢ none
    → Returns (get_property_value k props name w) (λ _ w'. Same w w')
value-Same k d none name w h = absurd (h refl)
value-Same k d (some props) name w h = get_property_value-Same k name props w d

module _ (k : Kernel) (d : Describes k) (start : World) where
  after_values :
      (out : Output) (fb fence fmts : ℤ) (w : World)
      → out.wb_enabled ≡ false
      → out.wb_available ≡ false
      → out.wb_connector.props ≢ none
      → Gains start w (object_resources out.wb_connector)
      → Returns {A = Output}
          ((if is_neg fb || is_neg fence then drop_connector k out else (do
            nv12 ← has_nv12 k fmts
            if nv12 then pure (record out { wb_available = true }) else drop_connector k out))
            w)
          (Tried start)
  after_values out fb fence fmts w n a h g = elim (Bool-cases (is_neg fb || is_neg fence)) [
    | inl t ↦ rw t (drop_connector-Tried k start out w n a h g)
    | inr f ↦ rw f (
        Returns-and_then (has_nv12 k fmts w) _ _ _ (has_nv12-Same k fmts w) λ b v s.
          let g' : Gains start v (object_resources out.wb_connector) =
            λ r. omega (arith, g r, s r) in
          elim (Bool-cases b) [
            | inl t ↦ rw t (n, inl (refl, h, g'))
            | inr u ↦ rw u (drop_connector-Tried k start out v n a h g')
          ])
  ]

  check_properties-Tried :
      (out : Output) (w : World)
      → out.wb_enabled ≡ false
      → out.wb_available ≡ false
      → out.wb_connector.props ≢ none
      → Gains start w (object_resources out.wb_connector)
      → Returns (check_properties k out w) (Tried start)
  unfolding check_properties
  check_properties-Tried out w n a h g =
      Returns-and_then (get_property_value k out.wb_connector.props "WRITEBACK_FB_ID" w) _ _ _
        (value-Same k d out.wb_connector.props "WRITEBACK_FB_ID" w h)
        λ fb w1 s1.
          Returns-and_then
            (get_property_value k out.wb_connector.props "WRITEBACK_OUT_FENCE_PTR" w1) _ _ _
            (value-Same k d out.wb_connector.props "WRITEBACK_OUT_FENCE_PTR" w1 h)
            λ fence w2 s2.
              Returns-and_then
                (get_property_value k out.wb_connector.props "WRITEBACK_PIXEL_FORMATS" w2) _ _ _
                (value-Same k d out.wb_connector.props "WRITEBACK_PIXEL_FORMATS" w2 h)
                λ fmts w3 s3.
                  after_values out fb fence fmts w3 n a h
                    (λ r. omega (arith, g r, s1 r, s2 r, s3 r))

  read_connector-Tried :
      (conn : Connector) (out : Output) (w : World)
      → out.wb_enabled ≡ false
      → out.wb_available ≡ false
      → Same start w
      → Returns (read_connector k conn out w) (Tried start)
  unfolding read_connector
  read_connector-Tried conn out w n a s =
      let obj : DrmObject = record out.wb_connector { id = conn.connector_id } in
      Returns-and_then (get_object_properties k obj connector_object w) _ _ _
        (get_object_properties-Gains k obj connector_object w)
        λ o v (_, c).
          if_null-cases o.props _ _ (λ m. Returns (m v) (Tried start))
            (λ e. (
              n,
              inr (
                a,
                elim c [ inl (_, g) ↦ λ r. omega (arith, s r, g r) | inr (h, _) ↦ absurd (h e) ],
              ),
            ))
            (λ h.
              check_properties-Tried (record out { wb_connector = o }) v n a h
                (elim c [ inl (e, _) ↦ absurd (h e) | inr (_, g) ↦ λ r. omega (arith, s r, g r) ]))

  -- A writeback connector, its encoders looked at.
  try_encoders :
      (conn : Connector) (out : Output) (b : Bool) (w : World)
      → out.wb_enabled ≡ false
      → out.wb_available ≡ false
      → Same start w
      → Returns ((if b then read_connector k conn out else pure out) w) (Tried start)
  try_encoders conn out true w n a s = read_connector-Tried conn out w n a s
  try_encoders conn out false w n a s = (n, inr (a, s))

module _ (k : Kernel) (d : Describes k) where
  -- The body for a connector that libdrm returned.
  try_returned :
      (conn : Connector) (out : Output) (w : World)
      → out.wb_enabled ≡ false
      → out.wb_available ≡ false
      → Returns {A = Output}
          ((if not (conn.connector_type == writeback_type)
              then (give_back (connector conn.connector_id) >> pure out)
              else (do
                crtc_ok ← drives_crtc k out.crtc_index conn.encoders
                out' ← (if crtc_ok then read_connector k conn out else pure out)
                give_back (connector conn.connector_id)
                pure out'))
            (acquire (connector conn.connector_id) ∷ w))
          (Tried w)
  try_returned conn out w n a = elim (Bool-cases (not (conn.connector_type == writeback_type))) [
    | inl t ↦ rw t (n, inr (a, λ r. omega arith))
    | inr f ↦ rw f (
        Returns-and_then (drives_crtc k out.crtc_index conn.encoders _) _ _ _
          (drives_crtc-Same k out.crtc_index conn.encoders _)
          λ b v s.
            Returns-and_then ((if b then read_connector k conn out else pure out) v) _ _ _
              (try_encoders k d (acquire (connector conn.connector_id) ∷ w) conn out b v n a s)
              λ o u t. closed conn w o u t)
  ]
    where
      closed :
          (conn : Connector) (w : World) (o : Output) (u : World)
          → Tried (acquire (connector conn.connector_id) ∷ w) o u
          → Tried w o (release (connector conn.connector_id) ∷ u)
      closed conn w o u (n, inl (a, p, g)) = (n, inl (a, p, λ r. omega (arith, g r)))
      closed conn w o u (n, inr (a, g)) = (n, inr (a, λ r. omega (arith, g r)))

  try_connector-Tried :
      (c : ℕ) (out : Output) (w : World)
      → out.wb_enabled ≡ false
      → out.wb_available ≡ false
      → Returns (try_connector k c out w) (Tried w)
  unfolding try_connector
  try_connector-Tried c out w n a =
      allocate-cases _ w _ _ _ (k.get_connector w c) (λ _. (n, inr (a, Same-refl w)))
        (λ conn _. try_returned conn out w n a)

  -- The loop ends at a connector that was found.
  find_next :
      (cs : List ℕ) (w : World) (o : Output) (v : World) (b : Bool)
      → o.wb_available ≡ b
      → Tried w o v
      → (o.wb_enabled ≡ false → o.wb_available ≡ false → Returns (find_loop k cs o v) (Tried v))
      → Returns ((if b then pure o else find_loop k cs o) v) (Tried w)
  find_next cs w o v true e t ih = t
  find_next cs w o v false e (n, inl (a, p, g)) ih = absurd (cc)
  find_next cs w o v false e (n, inr (a, g)) ih =
      Returns-mono (find_loop k cs o v) _ _ (ih n a) (λ o' u t. Tried-from w v o' u g t)

  find_loop-Tried :
      (cs : List ℕ) (out : Output) (w : World)
      → out.wb_enabled ≡ false
      → out.wb_available ≡ false
      → Returns (find_loop k cs out w) (Tried w)
  unfolding find_loop
  find_loop-Tried [] out w n a = (n, inr (a, Same-refl w))
  find_loop-Tried (c ∷ cs) out w n a =
      Returns-and_then (try_connector k c out w) _ _ _ (try_connector-Tried c out w n a)
        (λ o v t. find_next cs w o v o.wb_available refl t (find_loop-Tried cs o v))

-- The result code says whether a connector is there.
abbrev pub FoundWriteback : World → ℤ × Output → World → Type 0
FoundWriteback w (c, o) w' =
    (o.wb_enabled ≡ false)
    × (((c ≡ pos 0)
          × (o.wb_available ≡ true)
          × (o.wb_connector.props ≢ none)
          × Gains w w' (object_resources o.wb_connector))
        ⊎ ((c ≡ enoent) × (o.wb_available ≡ false) × Same w w'))

found_code :
    (w : World) (o : Output) (v : World) (b : Bool)
    → o.wb_available ≡ b
    → Tried (acquire resources ∷ w) o v
    → FoundWriteback w (if b then pos 0 else enoent, o) (release resources ∷ v)
found_code w o v true e (n, inl (a, p, g)) = (n, inl (refl, a, p, λ r. omega (arith, g r)))
found_code w o v true e (n, inr (a, g)) = absurd (cc)
found_code w o v false e (n, inl (a, p, g)) = absurd (cc)
found_code w o v false e (n, inr (a, g)) = (n, inr (refl, a, λ r. omega (arith, g r)))

-- On a kernel that describes its properties, `modeset_find_writeback` returns 0 with a connector marked
-- available, whose properties are held; or -ENOENT with none available. Everything else that it took it
-- gives back, and the connector is not enabled.
pub find_writeback-FoundWriteback :
    (k : Kernel) (out : Output) (w : World)
    → Describes k
    → Returns (find_writeback k out w) (FoundWriteback w)
unfolding find_writeback
find_writeback-FoundWriteback k out w d =
    allocate-cases _ w _ _ _ (k.get_resources w) (λ _. (refl, inr (refl, refl, Same-refl w)))
      λ res _.
        Returns-and_then (find_loop k res.connectors (unwired out) _) _ _ _
          (find_loop-Tried k d res.connectors (unwired out) _ refl refl)
          (λ o v t. found_code w o v o.wb_available refl t)
