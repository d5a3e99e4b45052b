-- ===== src/Drm/Open/Opened.antt =====
-- What `modeset_open` (src/drm.c) returns, and which descriptor it leaves open.
use pixel_pilot_rk.Common.{
  ℕ, ◌≡◌, ◌⊎◌, inl, inr, refl, ℤ, pos, is_neg, true, false, ◌∷◌, arith, String, ◌==◌, Bool-cases,
}
use pixel_pilot_rk.Drm.Kernel.{Kernel, World, ok, fail, file, acquire}
use pixel_pilot_rk.Drm.Kernel.Monad.{Returns, ask-cases_eq, ask_for-cases}
use pixel_pilot_rk.Drm.Kernel.Ledger.{Same, Same-refl}
use pixel_pilot_rk.Drm.Open.{
  modeset_open, set_planes, set_atomic, set_writeback, check_dumb, check_vblank, refuse,
  cap_universal_planes, cap_atomic, cap_dumb_buffer, cap_crtc_in_vblank_event,
}

abbrev pub Has : Kernel → World → ℕ → Type 0
Has k v c = (n : ℕ) × (k.get_cap v c ≡ ok n) × ((n == 0) ≡ false)

abbrev pub Refused : Kernel → World → ℕ → Type 0
Refused k v c = (e : ℕ) × (k.set_client_cap v c ≡ fail e)

abbrev pub Granted : Kernel → World → ℕ → Type 0
Granted k v c = k.set_client_cap v c ≡ ok tt

-- Success opens one descriptor, on a device with both capabilities and both client capabilities. A
-- failure leaves `*out` alone and nothing open, but for a descriptor of a device that refuses a client
-- capability.
abbrev pub Opened : Kernel → ℤ → World → ℤ × ℤ → World → Type 0
Opened k out w (c, o) w' =
    ((c ≡ pos 0)
      × ((fd : ℕ) × (o ≡ pos fd) × (w' ≡ acquire (file fd) ∷ w))
      × Granted k w' cap_universal_planes
      × Granted k w' cap_atomic
      × Has k w' cap_dumb_buffer
      × Has k w' cap_crtc_in_vblank_event)
    ⊎ ((is_neg c ≡ true)
        × (o ≡ out)
        × (Same w w'
            ⊎ (((fd : ℕ) × (w' ≡ acquire (file fd) ∷ w))
                × (Refused k w' cap_universal_planes ⊎ Refused k w' cap_atomic))))

module _ (k : Kernel) (out : ℤ) (w : World) (fd : ℕ) where
  abbrev opened : World
  opened = acquire (file fd) ∷ w

  refuse-Opened : Returns (refuse k out fd opened) (Opened k out w)
  unfolding refuse
  refuse-Opened = inr (refl, refl, inl (λ r. omega arith))

  check_vblank-Opened :
      Granted k opened cap_universal_planes
      → Granted k opened cap_atomic
      → Has k opened cap_dumb_buffer
      → Returns (check_vblank k out fd opened) (Opened k out w)
  unfolding check_vblank
  check_vblank-Opened p a d =
      ask-cases_eq (λ _. file fd) opened _ _ _ (k.get_cap opened cap_crtc_in_vblank_event)
        (λ cap e. elim (Bool-cases (cap == 0)) [
          | inl z ↦ rw z refuse-Opened
          | inr z ↦ rw z (inl (refl, (fd, refl, refl), p, a, d, (cap, e, z)))
        ])
        (λ e _. refuse-Opened)

  check_dumb-Opened :
      Granted k opened cap_universal_planes
      → Granted k opened cap_atomic
      → Returns (check_dumb k out fd opened) (Opened k out w)
  unfolding check_dumb
  check_dumb-Opened p a =
      ask-cases_eq (λ _. file fd) opened _ _ _ (k.get_cap opened cap_dumb_buffer)
        (λ cap e. elim (Bool-cases (cap == 0)) [
          | inl z ↦ rw z refuse-Opened
          | inr z ↦ rw z (check_vblank-Opened p a (cap, e, z))
        ])
        (λ e _. refuse-Opened)

  set_planes-Opened : Returns (set_planes k out fd opened) (Opened k out w)
  unfolding set_planes set_atomic set_writeback
  set_planes-Opened =
      ask-cases_eq (λ _. file fd) opened _ _ _ (k.set_client_cap opened cap_universal_planes)
        (λ _ p.
          ask-cases_eq (λ _. file fd) opened _ _ _ (k.set_client_cap opened cap_atomic)
            (λ _ a. check_dumb-Opened p a) (λ e a. inr (refl, refl, inr ((fd, refl), inr (e, a)))))
        (λ e p. inr (refl, refl, inr ((fd, refl), inl (e, p))))

-- `modeset_open` returns 0 with one descriptor open, on a device that has dumb buffers and atomic
-- modesets and grants the client capabilities for planes and atomic commits. On a failure it returns a
-- negative number and leaves `*out` alone; nothing is left open, unless one of those two client
-- capabilities was refused, and then the descriptor is.
pub modeset_open-Opened :
    (k : Kernel) (out : ℤ) (node : String) (w : World)
    → Returns (modeset_open k out node w) (Opened k out w)
unfolding modeset_open
modeset_open-Opened k out node w =
    ask_for-cases _ w _ _ _ (k.open_node w node) (λ fd. set_planes-Opened k out w fd)
      (λ e. inr (refl, refl, inl (Same-refl w)))
