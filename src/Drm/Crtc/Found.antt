-- ===== src/Drm/Crtc/Found.antt =====
-- What `modeset_find_crtc` (src/drm.c) finds.
use pixel_pilot_rk.Common.{
  ℕ, suc, ◌+◌, ◌<◌, ◌≡◌, ◌≢◌, ◌⊎◌, inl, inr, refl, ℤ, pos, Bool, true, false, Option, none, some,
  List, [], ◌∷◌, if◌then◌else◌, ◌==◌, ltb, ltb→lt, ◌∙◌, ◌&&◌, arith, get_elem?, Every, Bool-cases,
  All, sym,
}
use native.Mathlib.Nat.{zero-add}
use pixel_pilot_rk.Drm.Modes.{bit}
use pixel_pilot_rk.Drm.Kernel.{
  Kernel, World, Encoder, Connector, Resources, Resource, encoder, crtc, acquire, release,
}
use pixel_pilot_rk.Drm.Kernel.Monad.{
  Returns, Returns-mono, allocate-cases, M, pure, ◌>>=◌, ◌>>◌, and_then, give_back,
}
use pixel_pilot_rk.Drm.Kernel.Ledger.{Gains, Same, Same-refl}
use pixel_pilot_rk.Drm.State.{Output}
use pixel_pilot_rk.Drm.Crtc.{
  enoent, index_of, first_possible, saved, with_crtc, get_crtc, search_encoders, current_crtc,
  find_crtc,
}
use pixel_pilot_rk.Drm.Crtc.Listed.{index_of-cases, first_possible-found, first_possible-none}

-- The CRTC that the output holds a copy of.
abbrev pub saved_resources : Output → List Resource
saved_resources out = if out.saved_crtc then crtc out.crtc.id ∷ [] else []

-- The log `u`, and the copy of the CRTC where there is one.
abbrev pub with_copy : Output → World → World
with_copy out u = if out.saved_crtc then acquire (crtc out.crtc.id) ∷ u else u

module _ (k : Kernel) (res : Resources) where
  -- The CRTC `x` at the position `i` may be driven by the encoder: the mask allows it, and it has an id.
  abbrev pub Drives : Encoder → ℕ → ℕ → Type 0
  Drives enc i x = (bit i enc.possible_crtcs && ltb 0 x) ≡ true

  -- An encoder that is not there when it is asked for, or that may drive none of the device's CRTCs.
  abbrev pub Unfit : ℕ → Type 0
  Unfit e =
      (v : World) × ((k.get_encoder v e ≡ none)
        ⊎ ((enc : Encoder) × (k.get_encoder v e ≡ some enc)
            × Every (λ i x. ¬ Drives enc i x) res.crtcs))

  -- The output has a CRTC that the encoder `e` of the list, asked for at the log `v`, may drive, at its
  -- place in the device's list; the copy is what the kernel then answers.
  abbrev pub Fits : List ℕ → Output → World → Type 0
  Fits es out' w' =
      (i : ℕ) × (e : ℕ) × (enc : Encoder) × (v : World) × (get_elem? es i ≡ some e)
      × (k.get_encoder v e ≡ some enc)
      × (get_elem? res.crtcs out'.crtc_index ≡ some out'.crtc.id)
      × (bit out'.crtc_index enc.possible_crtcs ≡ true)
      × (out'.saved_crtc ≡ k.get_crtc (acquire (encoder e) ∷ v) out'.crtc.id)
      × (w' ≡ release (encoder e) ∷ with_copy out' (acquire (encoder e) ∷ v))

  abbrev pub Searched : List ℕ → Output → World → ℤ × Output → World → Type 0
  Searched es out w (c, out') w' =
      ((c ≡ pos 0) × (0 < out'.crtc.id) × Fits es out' w' × Gains w w' (saved_resources out'))
      ⊎ ((c ≡ enoent) × (out' ≡ out) × All Unfit es × Same w w')

  module _ (conn : Connector) where
    -- The connector has no current encoder, or it drives no CRTC.
    abbrev pub NoCurrent : World → Type 0
    NoCurrent w =
        (conn.encoder_id ≡ 0)
        ⊎ (k.get_encoder w conn.encoder_id ≡ none)
        ⊎ ((enc : Encoder) × (k.get_encoder w conn.encoder_id ≡ some enc) × (enc.crtc_id ≡ 0))

    -- The CRTC that the connector's encoder drives, at its place in the device's list if it is there; the
    -- copy is what the kernel answers once the encoder is given back.
    abbrev pub Current : Output → World → ℤ × Output → World → Type 0
    Current out w (c, out') w' =
        (c ≡ pos 0)
        × (conn.encoder_id ≢ 0)
        × (0 < out'.crtc.id)
        × ((enc : Encoder) × (k.get_encoder w conn.encoder_id ≡ some enc)
            × (out'.crtc.id ≡ enc.crtc_id))
        × ((get_elem? res.crtcs out'.crtc_index ≡ some out'.crtc.id)
            ⊎ (Every (λ _ x. x ≢ out'.crtc.id) res.crtcs × (out'.crtc_index ≡ out.crtc_index)))
        × (let u = release (encoder conn.encoder_id) ∷ acquire (encoder conn.encoder_id) ∷ w in
            (out'.saved_crtc ≡ k.get_crtc u out'.crtc.id) × (w' ≡ with_copy out' u))
        × Gains w w' (saved_resources out')

    abbrev pub FoundCrtc : Output → World → ℤ × Output → World → Type 0
    FoundCrtc out w r w' = Current out w r w' ⊎ (NoCurrent w × Searched conn.encoders out w r w')

  Searched-from :
      (es : List ℕ) (out : Output) (w v : World) (r : ℤ × Output) (u : World)
      → Same w v
      → Searched es out v r u
      → Searched es out w r u
  Searched-from es out w v (c, o) u s (inl (e, p, f, g)) =
      inl (e, p, f, λ r. omega (arith, s r, g r))
  Searched-from es out w v (c, o) u s (inr (e, p, f, g)) =
      inr (e, p, f, λ r. omega (arith, s r, g r))

  Searched-later :
      (e : ℕ) (es : List ℕ) (out : Output) (w v : World) (r : ℤ × Output) (u : World)
      → Unfit e
      → Same w v
      → Searched es out v r u
      → Searched (e ∷ es) out w r u
  Searched-later e es out w v (c, o) u n s (inl (z, p, (i, d, enc, x, a, h, l, m, c', q), g)) =
      inl (z, p, (suc i, d, enc, x, a, h, l, m, c', q), λ r. omega (arith, s r, g r))
  Searched-later e es out w v (c, o) u n s (inr (z, p, all, g)) =
      inr (z, p, (n, all), λ r. omega (arith, s r, g r))

module _ (k : Kernel) (res : Resources) (out : Output) where
  take_crtc :
      (e c j : ℕ) (es : List ℕ) (w : World) (enc : Encoder) (b : Bool)
      → k.get_encoder w e ≡ some enc
      → k.get_crtc (acquire (encoder e) ∷ w) c ≡ b
      → bit j enc.possible_crtcs ≡ true
      → 0 < c
      → get_elem? res.crtcs j ≡ some c
      → Returns
          (and_then
            (saved b c (acquire (encoder e) ∷ w))
            (λ s. give_back (encoder e) >> pure (pos 0, with_crtc out c j s)))
          (Searched k res (e ∷ es) out w)
  take_crtc e c j es w enc true h s m p g =
      inl (refl, p, (0, e, enc, w, refl, h, g, m, sym s, refl), λ r. omega arith)
  take_crtc e c j es w enc false h s m p g =
      inl (refl, p, (0, e, enc, w, refl, h, g, m, sym s, refl), λ r. omega arith)

  encoder_step :
      (e : ℕ) (es : List ℕ) (w : World) (enc : Encoder) (o : Option (ℕ × ℕ))
      → k.get_encoder w e ≡ some enc
      → first_possible enc.possible_crtcs 0 res.crtcs ≡ o
      → ((v : World) → Returns (search_encoders k res es out v) (Searched k res es out v))
      → Returns {A = ℤ × Output}
          ((elim o as (λ _. M (ℤ × Output)) [
            | none ↦ (give_back (encoder e) >> search_encoders k res es out)
            | some (c, j) ↦ (do
              s ← get_crtc k c
              give_back (encoder e)
              pure (pos 0, with_crtc out c j s))
          ])
            (acquire (encoder e) ∷ w))
          (Searched k res (e ∷ es) out w)
  unfolding get_crtc
  encoder_step e es w enc none h n ih =
      let unfit : Unfit k res e = (
        w,
        inr (
          enc,
          h,
          λ i x g d.
              let z : 0 + i ≡ i = zero-add i in
              let f : (bit i enc.possible_crtcs && ltb 0 x) ≡ false =
                rw z at (first_possible-none enc.possible_crtcs 0 res.crtcs n i x g) in
              absurd (cc),
        ),
      ) in
      Returns-mono (search_encoders k res es out _) _ _ (ih _) (λ r u f.
        Searched-later k res e es out w (release (encoder e) ∷ acquire (encoder e) ∷ w) r u unfit
          (λ s. omega arith) f)
  encoder_step e es w enc (some (c, j)) h n ih =
      let (m, a, g, p, b) = first_possible-found enc.possible_crtcs 0 res.crtcs c j n in
      let at_j : get_elem? res.crtcs j ≡ some c = ground (arith, zero-add m) in
      take_crtc e c j es w enc (k.get_crtc _ c) h refl b p at_j

  search_encoders-Searched :
      (es : List ℕ) (w : World) → Returns (search_encoders k res es out w) (Searched k res es out w)
  unfolding search_encoders
  search_encoders-Searched [] w = inr (refl, refl, tt, Same-refl w)
  search_encoders-Searched (e ∷ es) w =
      allocate-cases _ w _ _ _ (k.get_encoder w e)
        (λ n.
          Returns-mono (search_encoders k res es out w) _ _ (search_encoders-Searched es w)
            (λ r u f. Searched-later k res e es out w w r u (w, inl n) (Same-refl w) f))
        λ enc h.
          encoder_step e es w enc (first_possible enc.possible_crtcs 0 res.crtcs) h refl
            (search_encoders-Searched es)

  module _ (conn : Connector) (w : World) (enc : Encoder) (given : conn.encoder_id ≢ 0)
      (h : k.get_encoder w conn.encoder_id ≡ some enc) where
    abbrev released : World
    released = release (encoder conn.encoder_id) ∷ acquire (encoder conn.encoder_id) ∷ w

    FoundCrtc-current :
        (i : ℕ) (b : Bool) (v : World)
        → 0 < enc.crtc_id
        → i ≡ index_of enc.crtc_id 0 res.crtcs out.crtc_index
        → b ≡ k.get_crtc released enc.crtc_id
        → v ≡ with_copy (with_crtc out enc.crtc_id i b) released
        → Gains w v (if b then crtc enc.crtc_id ∷ [] else [])
        → FoundCrtc k res conn out w (pos 0, with_crtc out enc.crtc_id i b) v
    FoundCrtc-current i b v p e s q g =
        elim (index_of-cases enc.crtc_id 0 res.crtcs out.crtc_index) [
          | inl (j, at_j, h') ↦
              let i_is_j : i ≡ j = e ∙ h' ∙ zero-add j in
              inl (refl, given, p, (enc, h, refl), inl (rw i_is_j at_j), (s, q), g)
          | inr (all, h') ↦ inl (refl, given, p, (enc, h, refl), inr (all, e ∙ h'), (s, q), g)
        ]

    current-cases :
        (b : Bool)
        → 0 < enc.crtc_id
        → b ≡ k.get_crtc released enc.crtc_id
        → Returns
            (and_then (saved b enc.crtc_id released) (λ s. pure (
              pos 0,
              with_crtc out enc.crtc_id (index_of enc.crtc_id 0 res.crtcs out.crtc_index) s,
            )))
            (FoundCrtc k res conn out w)
    current-cases true p s = FoundCrtc-current _ true _ p refl s refl (λ r. omega arith)
    current-cases false p s = FoundCrtc-current _ false _ p refl s refl (λ r. omega arith)

    with_encoder :
        Returns {A = ℤ × Output}
          ((if ltb 0 enc.crtc_id
              then current_crtc k res conn.encoder_id enc.crtc_id out
              else (give_back (encoder conn.encoder_id) >> search_encoders k res conn.encoders out))
            (acquire (encoder conn.encoder_id) ∷ w))
          (FoundCrtc k res conn out w)
    unfolding current_crtc get_crtc
    with_encoder = elim (Bool-cases (ltb 0 enc.crtc_id)) [
      | inl t ↦ rw t (current-cases (k.get_crtc released enc.crtc_id) (ltb→lt 0 enc.crtc_id t) refl)
      | inr f ↦ rw f (
          Returns-mono (search_encoders k res conn.encoders out _) _ _
            (search_encoders-Searched conn.encoders _)
            (λ r u g. inr (
              inr (inr (enc, h, ground arith)),
              Searched-from k res conn.encoders out w released r u (λ s. omega arith) g,
            )))
    ]

-- `modeset_find_crtc` takes the CRTC of the connector's current encoder, with its index in the device's
-- list unless the list lacks it; and only if there is none, it returns 0 with a CRTC of the list that
-- has an id and that some encoder of the connector may drive, or -ENOENT, the output unchanged, if no
-- encoder can be had that may drive one. It keeps the copy that `drmModeGetCrtc` gives of the CRTC, and
-- gives back every encoder.
pub find_crtc-FoundCrtc :
    (k : Kernel) (res : Resources) (conn : Connector) (out : Output) (w : World)
    → Returns (find_crtc k res conn out w) (FoundCrtc k res conn out w)
unfolding find_crtc
find_crtc-FoundCrtc k res conn out w = elim (Bool-cases (conn.encoder_id == 0)) [
  | inl t ↦ rw t (
      Returns-mono (search_encoders k res conn.encoders out w) _ _
        (search_encoders-Searched k res out conn.encoders w) (λ r u g. inr (inl (ground arith), g)))
  | inr f ↦ rw f (
      allocate-cases _ w _ _ _ (k.get_encoder w conn.encoder_id)
        (λ n.
          Returns-mono (search_encoders k res conn.encoders out w) _ _
            (search_encoders-Searched k res out conn.encoders w) (λ r u g. inr (inr (inl n), g)))
        (λ enc h. with_encoder k res out conn w enc (λ e. ground arith) h))
]
