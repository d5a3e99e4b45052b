-- ===== src/Drm/Buffers/Capture.antt =====
-- The NV12 capture buffers of src/drm.c: `modeset_create_wb_fb`, `modeset_destroy_wb_fb`.
use pixel_pilot_rk.Common.{
  ℕ, zero, suc, ◌+◌, ◌*◌, ◌/◌, ◌%◌, ◌^◌, ◌≤◌, ◌<◌, ◌≡◌, ◌⊎◌, inl, inr, refl, ℤ, pos, negsuc, is_neg,
  true, List, [], ◌∷◌, arith, get_or,
}
use pixel_pilot_rk.Drm.Kernel.{Kernel, World, ok, Resource, file, dumb, frame, FrameRequest, Dumb}
use pixel_pilot_rk.Drm.Kernel.Monad.{Returns, Returns-mono, ask_for-cases, ask_for-cases_eq}
use pixel_pilot_rk.Drm.Kernel.Ledger.{Gains, Loses, Same, Gains-Loses}
use pixel_pilot_rk.Drm.Buffers.{
  Buf, create_wb_fb, create_wb_fb_add, create_wb_fb_prime, destroy_wb_fb, wb_frame, wb_rows, ver,
  with_dumb, null,
}

-- The kernel numbers framebuffers and GEM handles from 1, as DRM documents.
pub record NumbersFromOne (k : Kernel) : Type 0 where
  pub fb_pos : (w : World) (q : FrameRequest) (n : ℕ) → k.add_fb w q ≡ ok n → 0 < n
  pub handle_pos : (w : World) (a b c : ℕ) (d : Dumb) → k.create_dumb w a b c ≡ ok d → 0 < d.handle

abbrev exported : ℤ → List Resource
exported (pos fd) = file fd ∷ []
exported (negsuc n) = []

-- What a capture buffer holds; it is never mapped.
abbrev pub wb_owned : Buf → List Resource
wb_owned b = dumb b.handle ∷ frame b.fb ∷ exported b.prime_fd

abbrev pub CreatedWb : World → ℤ × Buf → World → Type 0
CreatedWb w (c, b) w' =
    ((c ≡ pos 0) × Gains w w' (wb_owned b) × (0 < b.fb) × (0 < b.handle))
    ⊎ ((is_neg c ≡ true) × Same w w')

module _ (k : Kernel) (ids : NumbersFromOne k) (start : World) where
  create_wb_fb_prime-Created :
      (b : Buf) (w : World)
      → 0 < b.fb
      → 0 < b.handle
      → Gains start w (dumb b.handle ∷ frame b.fb ∷ [])
      → Returns (create_wb_fb_prime k b w) (CreatedWb start)
  unfolding create_wb_fb_prime
  create_wb_fb_prime-Created b w p q g =
      ask_for-cases _ w _ _ _ (k.prime_handle_to_fd w b.handle)
        (λ fd. inl (refl, (λ r. omega (arith, g r)), p, q))
        (λ n. inr (refl, λ r. omega (arith, g r)))

  create_wb_fb_add-Created :
      (b : Buf) (w : World)
      → 0 < b.handle
      → Gains start w (dumb b.handle ∷ [])
      → Returns (create_wb_fb_add k b w) (CreatedWb start)
  unfolding create_wb_fb_add
  create_wb_fb_add-Created b w p g =
      ask_for-cases_eq _ w _ _ _ (k.add_fb w (wb_frame b))
        (λ fb e.
          create_wb_fb_prime-Created (record b { fb = fb }) _ (ids.fb_pos w (wb_frame b) fb e) p
            (λ r. omega (arith, g r)))
        (λ n. inr (refl, λ r. omega (arith, g r)))

-- On a kernel that numbers from 1, `modeset_create_wb_fb` returns 0 and the process holds the buffer's
-- handle, framebuffer and descriptor, or it returns a negative error number and gives back all that
-- it took.
pub create_wb_fb-Created :
    (k : Kernel) (b : Buf) (w : World)
    → NumbersFromOne k
    → Returns (create_wb_fb k b w) (CreatedWb w)
unfolding create_wb_fb
create_wb_fb-Created k b w ids =
    ask_for-cases_eq _ w _ _ _ (k.create_dumb w b.width (wb_rows b) 8)
      (λ d e.
        create_wb_fb_add-Created k ids w
          (with_dumb (record b { prime_fd = negsuc 0; map = null }) d) _
          (ids.handle_pos w b.width (wb_rows b) 8 d e) (λ r. omega arith))
      (λ n. inr (refl, λ r. omega arith))

destroy_wb_fb-cases :
    (b : Buf) (f h : ℕ) (z : ℤ) (w : World)
    → b.fb ≡ f
    → b.handle ≡ h
    → b.prime_fd ≡ z
    → 0 < f
    → 0 < h
    → Returns (destroy_wb_fb b w) (λ b' w'. Loses w w' (wb_owned b))
unfolding destroy_wb_fb
destroy_wb_fb-cases b zero h z w e e' e'' p q = absurd (omega arith)
destroy_wb_fb-cases b (suc f) zero z w e e' e'' p q = absurd (omega arith)
destroy_wb_fb-cases b (suc f) (suc h) (pos fd) w e e' e'' p q = rw (e, e', e'') (λ r. omega arith)
destroy_wb_fb-cases b (suc f) (suc h) (negsuc n) w e e' e'' p q = rw (e, e', e'') (λ r. omega arith)

-- A buffer that was made is given back whole.
pub destroy_wb_fb-Loses :
    (b : Buf) (w : World)
    → 0 < b.fb
    → 0 < b.handle
    → Returns (destroy_wb_fb b w) (λ _ w'. Loses w w' (wb_owned b))
destroy_wb_fb-Loses b w p q = destroy_wb_fb-cases b b.fb b.handle b.prime_fd w refl refl refl p q

-- A capture buffer that was created and is destroyed leaves the process with what it held before.
pub create_wb_fb-destroy_wb_fb :
    (k : Kernel) (b : Buf) (w : World)
    → NumbersFromOne k
    → Returns
        (create_wb_fb k b w)
        (λ (c, b') w'. c ≡ pos 0 → Returns (destroy_wb_fb b' w') (λ _ w''. Same w w''))
create_wb_fb-destroy_wb_fb k b w ids =
    Returns-mono (create_wb_fb k b w) _ _ (create_wb_fb-Created k b w ids) λ (c, b') w' h e.
      elim h [
        | inl (_, g, p, q) ↦
            Returns-mono (destroy_wb_fb b' w') _ _ (destroy_wb_fb-Loses b' w' p q)
              (λ _ w'' l. Gains-Loses w w' w'' (wb_owned b') g l)
        | inr (n, _) ↦ absurd (cc)
      ]

-- The pixel rows of the CbCr plane: half as many as those of Y, rounded up.
abbrev pub chroma_rows : Buf → ℕ
chroma_rows b = (b.height + 1) / 2

mul_mono : (s v h : ℕ) → v ≤ h → s * v ≤ s * h
mul_mono s v h p = grind arith

mul_sum_le : (s v c n : ℕ) → v + c ≤ n → s * v + s * c ≤ s * n
mul_sum_le s v c n h = omega (arith, mul_mono s (v + c) n h)

ver_facts :
    (b : Buf)
    → b.height + 15 < 2 ^ 30
    → (ver b % 16 ≡ 0) × (b.height ≤ ver b) × (ver b ≤ b.height + 15)
unfolding ver
ver_facts b h = omega arith

rows_facts : (b : Buf) → b.height + 15 < 2 ^ 30 → ver b + chroma_rows b ≤ wb_rows b
unfolding wb_rows
rows_facts b h = omega (arith, ver_facts b h)

-- A capture buffer's Y rows are padded to a multiple of 16 by fewer than 16 rows; the CbCr plane
-- starts behind them, and ends within the rows of the dumb buffer, if the kernel's pitch and the
-- display's height are such that 32 bits hold the buffer's size.
pub wb_frame_layout :
    (b : Buf)
    → b.height + 15 < 2 ^ 30
    → b.stride * (b.height + 15) < 2 ^ 32
    → let chroma : ℕ = get_or (wb_frame b).offsets 1 0 in
      (ver b % 16 ≡ 0)
      × (b.height ≤ ver b)
      × (ver b < b.height + 16)
      × (chroma ≡ b.stride * ver b)
      × (chroma + b.stride * chroma_rows b ≤ b.stride * wb_rows b)
unfolding wb_frame
wb_frame_layout b h p =
    let (a, le, lt) = ver_facts b h in
    let m = mul_mono b.stride (ver b) (b.height + 15) lt in
    let n = mul_sum_le b.stride (ver b) (chroma_rows b) (wb_rows b) (rows_facts b h) in
    (a, le, omega arith, omega arith, omega arith)
