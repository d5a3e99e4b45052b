-- ===== src/Drm/Planes/First.antt =====
-- Which plane `modeset_find_plane` (src/drm.c) finds.
use pixel_pilot_rk.Common.{
  ℕ, suc, ◌<◌, ◌≡◌, inl, inr, refl, true, false, Option, none, some, List, [], ◌∷◌, if◌then◌else◌,
  arith, get_elem?, Every, Every-nil, Every-cons, Bool-cases, ap, ◌∙◌, sym, dec_lt,
}
use pixel_pilot_rk.Drm.Kernel.{Kernel, World, Plane, plane}
use pixel_pilot_rk.Drm.Kernel.Monad.{
  Returns, Returns-and_then, Returns-mono, pure, ◌>>◌, and_then, acquire_option, give_back,
}
use pixel_pilot_rk.Drm.Kernel.Ledger.{Same, Same-refl}
use pixel_pilot_rk.Drm.Properties.{DrmObject}
use pixel_pilot_rk.Drm.Planes.{is_usable, plane_loop, find_plane, plane_result}

-- The device has these planes, and libdrm says the same of each at every call.
pub record HasPlanes (k : Kernel) (ids : List ℕ) (table : ℕ → Option Plane) : Type 0 where
  pub listed : (w : World) → k.get_plane_resources w ≡ some ids
  pub steady : (w : World) (id : ℕ) → k.get_plane w id ≡ table id

module _ (table : ℕ → Option Plane) (crtc_index format : ℕ) where
  abbrev pub Usable : ℕ → Type 0
  Usable id = (p : Plane) × (table id ≡ some p) × (is_usable crtc_index format p ≡ true)

  -- The first usable plane of the list, or none.
  abbrev pub FirstUsable : List ℕ → Option ℕ → Type 0
  FirstUsable ids none = Every (λ _ id. ¬ Usable id) ids
  FirstUsable ids (some id) =
      (j : ℕ) × (get_elem? ids j ≡ some id) × Usable id × Every (λ i n. i < j → ¬ Usable n) ids

  FirstUsable-later :
      (id : ℕ) (ids : List ℕ) (r : Option ℕ)
      → ¬ Usable id
      → FirstUsable ids r
      → FirstUsable (id ∷ ids) r
  FirstUsable-later id ids none h f = Every-cons _ id ids h f
  FirstUsable-later id ids (some n) h (j, g, u, before) =
      (suc j, g, u, Every-cons _ id ids (λ _. h) (λ i m g' lt. before i m g' (omega arith)))

module _ (k : Kernel) (crtc_index format : ℕ) (ids : List ℕ) (table : ℕ → Option Plane)
    (h : HasPlanes k ids table) where
  plane_step :
      (id : ℕ) (rest : List ℕ) (w : World) (x : Option Plane)
      → x ≡ table id
      → ((v : World)
          → Returns
              (plane_loop k crtc_index format rest v)
              (λ r v'. Same v v' × FirstUsable table crtc_index format rest r))
      → Returns {A = Option ℕ}
          (and_then (acquire_option (λ _. plane id) w x) (λ answer. elim answer [
            | none ↦ plane_loop k crtc_index format rest
            | some p ↦ (do
              give_back (plane id)
              if is_usable crtc_index format p
                  then pure (some id)
                  else plane_loop k crtc_index format rest)
          ]))
          (λ r w'. Same w w' × FirstUsable table crtc_index format (id ∷ rest) r)
  plane_step id rest w none e ih =
      Returns-mono (plane_loop k crtc_index format rest w) _ _ (ih w)
        (λ r v (s, f). (s, FirstUsable-later table crtc_index format id rest r (λ (p, g, _). cc) f))
  plane_step id rest w (some p) e ih = elim (Bool-cases (is_usable crtc_index format p)) [
    | inl t ↦ rw t ((λ s. omega arith), (0, refl, (p, (cc), t), (λ i n g lt. elim lt [ ])))
    | inr f ↦ rw f (
        Returns-mono (plane_loop k crtc_index format rest _) _ _ (ih _) (λ r v (s, u). (
          (λ q. omega (arith, s q)),
          FirstUsable-later table crtc_index format id rest r (λ (p', g, y). unusable p' g y f) u,
        )))
  ]
    where
      unusable :
          (p' : Plane)
          → table id ≡ some p'
          → is_usable crtc_index format p' ≡ true
          → is_usable crtc_index format p ≡ false
          → ⊥
      unusable p' g y f =
          let q : some p ≡ some p' = e ∙ g in
          let r : p ≡ p' = cc in cc (ap (is_usable crtc_index format) r)

  plane_loop-FirstUsable :
      (rest : List ℕ) (w : World)
      → Returns
          (plane_loop k crtc_index format rest w)
          (λ r w'. Same w w' × FirstUsable table crtc_index format rest r)
  unfolding plane_loop
  plane_loop-FirstUsable [] w = (Same-refl w, Every-nil _)
  plane_loop-FirstUsable (id ∷ rest) w =
      plane_step id rest w (k.get_plane w id) (h.steady w id) (plane_loop-FirstUsable rest)

  -- `modeset_find_plane` gives back all it took, and returns 0 with the id of the first plane that may
  -- be shown on the CRTC and takes the format; or -EINVAL, with the object unchanged, if there is
  -- none.
  pub find_plane-FirstUsable :
      (plane_out : DrmObject) (w : World)
      → Returns (find_plane k crtc_index format plane_out w) (λ r w'.
        Same w w'
        × ((found : Option ℕ) × FirstUsable table crtc_index format ids found
            × (r ≡ plane_result plane_out found)))
  unfolding find_plane
  find_plane-FirstUsable plane_out w = rw (h.listed w) (
      Returns-and_then (plane_loop k crtc_index format ids _) _ _ _ (plane_loop-FirstUsable ids _)
        (λ found w' (s, f). ((λ q. omega (arith, s q)), (found, f, refl))))

pub FirstUsable-unique :
    (table : ℕ → Option Plane) (crtc_index format : ℕ) (ids : List ℕ) (a : Option ℕ) (j id : ℕ)
    → get_elem? ids j ≡ some id
    → Usable table crtc_index format id
    → Every (λ i n. i < j → ¬ Usable table crtc_index format n) ids
    → FirstUsable table crtc_index format ids a
    → a ≡ some id
FirstUsable-unique table crtc_index format ids none j id g u before f = absurd (f j id g u)
FirstUsable-unique table crtc_index format ids (some a) j id g u before (i, g', u', before') =
    elim (dec_lt i j) [
      | yes lt ↦ absurd (before i a g' lt u')
      | no ge ↦ elim (dec_lt j i) [
        | yes lt ↦ absurd (before' j id g lt u)
        | no ge' ↦
            let e : i ≡ j = omega arith in
            let p : get_elem? ids i ≡ get_elem? ids j = ap (get_elem? ids) e in sym g' ∙ p ∙ g
      ]
    ]
