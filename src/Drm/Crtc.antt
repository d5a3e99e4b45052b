-- ===== src/Drm/Crtc.antt =====
-- The CRTC of a connector: `modeset_find_crtc` (src/drm.c).
pub mod Listed
pub mod Found
use pixel_pilot_rk.Common.{
  ℕ, zero, suc, ◌+◌, ◌*◌, ℤ, pos, negsuc, Bool, true, false, Option, none, some, List, [], ◌∷◌,
  if◌then◌else◌, ◌==◌, ltb, ◌&&◌,
}
use pixel_pilot_rk.Drm.Modes.{bit}
use pixel_pilot_rk.Drm.Kernel.{Kernel, Encoder, Connector, Resources, encoder, crtc, acquire}
use pixel_pilot_rk.Drm.Kernel.Monad.{M, pure, ◌>>=◌, ◌>>◌, give_back, allocate}
use pixel_pilot_rk.Drm.Properties.{DrmObject}
use pixel_pilot_rk.Drm.State.{Output}

-- -ENOENT
abbrev pub enoent : ℤ
enoent = negsuc 1

-- The position of an id in `res->crtcs`, or the value that the variable had.
pub index_of : ℕ → ℕ → List ℕ → ℕ → ℕ
index_of c i [] old = old
index_of c i (x ∷ xs) old = if x == c then i else index_of c (i + 1) xs old

-- The first CRTC from position `j` on that the mask allows and that has an id.
pub first_possible : ℕ → ℕ → List ℕ → Option (ℕ × ℕ)
first_possible mask j [] = none
first_possible mask j (x ∷ xs) =
    if bit j mask && ltb 0 x then some (x, j) else first_possible mask (j + 1) xs

-- `saved_crtc` after `drmModeGetCrtc`.
abbrev pub saved : Bool → ℕ → M Bool
saved true c w = some (true, acquire (crtc c) ∷ w)
saved false c w = some (false, w)

abbrev pub with_crtc : Output → ℕ → ℕ → Bool → Output
with_crtc out c i s = record out {
  crtc = record out.crtc { id = c };
  crtc_index = i;
  saved_crtc = s;
}

module _ (k : Kernel) where
  pub get_crtc : ℕ → M Bool
  get_crtc c w = saved (k.get_crtc w c) c w

  -- The loop over `conn->encoders`; a NULL encoder is passed over.
  pub search_encoders : Resources → List ℕ → Output → M (ℤ × Output)
  search_encoders res [] out = pure (enoent, out)
  search_encoders res (e ∷ es) out = do
    answer ← allocate (λ w. k.get_encoder w e) (λ _. encoder e)
    elim answer [
      | none ↦ search_encoders res es out
      | some enc ↦ elim (first_possible enc.possible_crtcs 0 res.crtcs) [
        | none ↦ (do give_back (encoder e); search_encoders res es out)
        | some (c, j) ↦ (do
          s ← get_crtc c
          give_back (encoder e)
          pure (pos 0, with_crtc out c j s))
      ]
    ]

  -- The CRTC that the current encoder drives.
  pub current_crtc : Resources → ℕ → ℕ → Output → M (ℤ × Output)
  current_crtc res e c out = do
    give_back (encoder e)
    s ← get_crtc c
    pure (pos 0, with_crtc out c (index_of c 0 res.crtcs out.crtc_index) s)

  pub find_crtc : Resources → Connector → Output → M (ℤ × Output)
  unfolding search_encoders current_crtc get_crtc
  find_crtc res conn out =
      if conn.encoder_id == 0 then search_encoders res conn.encoders out else (do
        answer ← allocate (λ w. k.get_encoder w conn.encoder_id) (λ _. encoder conn.encoder_id)
        elim answer [
          | none ↦ search_encoders res conn.encoders out
          | some enc ↦
              if ltb 0 enc.crtc_id
              then current_crtc res conn.encoder_id enc.crtc_id out
              else (do give_back (encoder conn.encoder_id); search_encoders res conn.encoders out)
        ])
