-- ===== src/Drm/Buffers/Balance.antt =====
-- The buffers of src/drm.c give back what they took.
use pixel_pilot_rk.Common.{
  ℕ, ◌≡◌, ◌⊎◌, inl, inr, refl, ℤ, pos, negsuc, is_neg, true, List, [], ◌∷◌, arith,
}
use pixel_pilot_rk.Drm.Kernel.{Kernel, World, Resource, file, dumb, frame, mapping}
use pixel_pilot_rk.Drm.Kernel.Monad.{Returns, Returns-mono, ask_for-cases, ask-cases}
use pixel_pilot_rk.Drm.Kernel.Ledger.{Gains, Loses, Same, Gains-Loses}
use pixel_pilot_rk.Drm.Buffers.{
  Buf, Pointer, null, failed, at, create_fb, create_fb_add, create_fb_map, create_fb_mmap,
  create_fb_prime, destroy_fb, osd_frame, with_dumb,
}

abbrev mapped : Pointer → ℕ → List Resource → List Resource
mapped null size rs = rs
mapped failed size rs = rs
mapped (at a) size rs = mapping a size ∷ rs

abbrev exported : ℤ → List Resource
exported (pos fd) = file fd ∷ []
exported (negsuc n) = []

-- What an OSD buffer holds: its GEM handle, its framebuffer, its mapping and its prime descriptor.
abbrev pub owned : Buf → List Resource
owned b = dumb b.handle ∷ frame b.fb ∷ mapped b.map b.size (exported b.prime_fd)

-- A creation either returns 0 and the process holds what belongs to the buffer, or it returns a
-- negative error number and the process holds what it held before.
abbrev pub Created : (Buf → List Resource) → World → ℤ × Buf → World → Type 0
Created own w (c, b) w' = ((c ≡ pos 0) × Gains w w' (own b)) ⊎ ((is_neg c ≡ true) × Same w w')

module _ (k : Kernel) (start : World) where
  create_fb_prime-Created :
      (b : Buf) (a : ℕ) (w : World)
      → b.map ≡ at a
      → Gains start w (dumb b.handle ∷ frame b.fb ∷ mapping a b.size ∷ [])
      → Returns (create_fb_prime k b w) (Created owned start)
  unfolding create_fb_prime
  create_fb_prime-Created b a w e g =
      ask_for-cases _ w _ _ _ (k.prime_handle_to_fd w b.handle)
        (λ fd. inl (refl, rw e (λ r. omega (arith, g r))))
        (λ n. rw e (inr (refl, λ r. omega (arith, g r))))

  create_fb_mmap-Created :
      (b : Buf) (offset : ℕ) (w : World)
      → Gains start w (dumb b.handle ∷ frame b.fb ∷ [])
      → Returns (create_fb_mmap k b offset w) (Created owned start)
  unfolding create_fb_mmap
  create_fb_mmap-Created b offset w g =
      ask_for-cases _ w _ _ _ (k.mmap w b.size offset)
        (λ a. create_fb_prime-Created (record b { map = at a }) a _ refl (λ r. omega (arith, g r)))
        (λ n. inr (refl, λ r. omega (arith, g r)))

  create_fb_map-Created :
      (b : Buf) (w : World)
      → Gains start w (dumb b.handle ∷ frame b.fb ∷ [])
      → Returns (create_fb_map k b w) (Created owned start)
  unfolding create_fb_map
  create_fb_map-Created b w g =
      ask-cases (λ _. dumb b.handle) w _ _ _ (k.map_dumb w b.handle)
        (λ offset. create_fb_mmap-Created b offset w g) (λ n. inr (refl, λ r. omega (arith, g r)))

  create_fb_add-Created :
      (b : Buf) (w : World)
      → Gains start w (dumb b.handle ∷ [])
      → Returns (create_fb_add k b w) (Created owned start)
  unfolding create_fb_add
  create_fb_add-Created b w g =
      ask_for-cases _ w _ _ _ (k.add_fb w (osd_frame b))
        (λ fb. create_fb_map-Created (record b { fb = fb }) _ (λ r. omega (arith, g r)))
        (λ n. inr (refl, λ r. omega (arith, g r)))

-- `modeset_create_fb` returns 0 and the process holds what belongs to the buffer, or it returns a
-- negative error number and gives back all that it took on the way, each once.
pub create_fb-Created :
    (k : Kernel) (b : Buf) (w : World) → Returns (create_fb k b w) (Created owned w)
unfolding create_fb
create_fb-Created k b w =
    ask_for-cases _ w _ _ _ (k.create_dumb w b.width b.height 32)
      (λ d.
        create_fb_add-Created k w (with_dumb (record b { prime_fd = negsuc 0 }) d) _
          (λ r. omega arith))
      (λ n. inr (refl, λ r. omega arith))

destroy_fb-cases :
    (b : Buf) (m : Pointer) (z : ℤ) (w : World)
    → b.map ≡ m
    → b.prime_fd ≡ z
    → Returns (destroy_fb b w) (λ b' w'. Loses w w' (owned b) × (is_neg b'.prime_fd ≡ true))
unfolding destroy_fb
destroy_fb-cases b null (pos fd) w e e' = rw (e, e') ((λ r. omega arith), refl)
destroy_fb-cases b null (negsuc n) w e e' = rw (e, e') ((λ r. omega arith), refl)
destroy_fb-cases b failed (pos fd) w e e' = rw (e, e') ((λ r. omega arith), refl)
destroy_fb-cases b failed (negsuc n) w e e' = rw (e, e') ((λ r. omega arith), refl)
destroy_fb-cases b (at a) (pos fd) w e e' = rw (e, e') ((λ r. omega arith), refl)
destroy_fb-cases b (at a) (negsuc n) w e e' = rw (e, e') ((λ r. omega arith), refl)

-- `modeset_destroy_fb` gives back exactly what belongs to the buffer, and leaves no descriptor in it.
pub destroy_fb-Loses :
    (b : Buf) (w : World)
    → Returns (destroy_fb b w) (λ b' w'. Loses w w' (owned b) × (is_neg b'.prime_fd ≡ true))
destroy_fb-Loses b w = destroy_fb-cases b b.map b.prime_fd w refl refl

-- A buffer that was created and is destroyed leaves the process with what it held before, whatever
-- the kernel answered.
pub create_fb-destroy_fb :
    (k : Kernel) (b : Buf) (w : World)
    → Returns
        (create_fb k b w)
        (λ (c, b') w'. c ≡ pos 0 → Returns (destroy_fb b' w') (λ _ w''. Same w w''))
create_fb-destroy_fb k b w =
    Returns-mono (create_fb k b w) _ _ (create_fb-Created k b w) λ (c, b') w' h e. elim h [
      | inl (_, g) ↦
          Returns-mono (destroy_fb b' w') _ _ (destroy_fb-Loses b' w')
            (λ _ w'' (l, _). Gains-Loses w w' w'' (owned b') g l)
      | inr (n, _) ↦ absurd (cc)
    ]
