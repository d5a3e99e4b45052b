-- ===== src/Encoder/Mpp/Held.antt =====
-- MPP's context and configuration through `MppEncoder` (src/encoder/mpp_encoder.cpp): who holds them.
use pixel_pilot_rk.Common.{
  ℕ, ◌+◌, ◌≡◌, ◌⊎◌, inl, inr, refl, ap, is_zero, Bool, true, false, not, arith,
}
use pixel_pilot_rk.Encoder.Calls.{Calls, World, context, config, Resource, Leaves, Leaves-if}
use pixel_pilot_rk.Encoder.Calls.Ledger.{one, Moves}
use pixel_pilot_rk.Encoder.Mpp.{
  Mpp, no_mpp, cleanup, release_config, release_context, init_failed, init_output, init_config,
  init_created, init,
}

abbrev pub if_held : Resource → Resource → Bool → ℕ
if_held r s true = one r s
if_held r s false = 0

-- The context and the configuration.
abbrev pub mpp_held : Mpp → Resource → ℕ
mpp_held mpp r = if_held r context mpp.ctx + if_held r config mpp.cfg

abbrev pub none_held : Resource → ℕ
none_held r = 0

abbrev pub IsClosed : Mpp → Type 0
IsClosed mpp = (mpp.ctx ≡ false) × (mpp.cfg ≡ false)

pub closed_held : (mpp : Mpp) (r : Resource) → IsClosed mpp → mpp_held mpp r ≡ 0
closed_held mpp r (c, d) =
    let x = ap (if_held r context) c in let y = ap (if_held r config) d in omega (arith, x, y)

cleanup-cases :
    (mpp : Mpp) (c d : Bool) (w : World)
    → mpp.ctx ≡ c
    → mpp.cfg ≡ d
    → Leaves (cleanup mpp w) (λ mpp' w'.
      IsClosed mpp' × Moves w (λ r. if_held r context c + if_held r config d) w' none_held)
unfolding cleanup release_config release_context no_mpp
cleanup-cases mpp true true w e f = rw (e, f) ((refl, refl), λ r. omega arith)
cleanup-cases mpp true false w e f = rw (e, f) ((refl, refl), λ r. omega arith)
cleanup-cases mpp false true w e f = rw (e, f) ((refl, refl), λ r. omega arith)
cleanup-cases mpp false false w e f = rw (e, f) ((refl, refl), λ r. omega arith)

pub cleanup-Closed :
    (mpp : Mpp) (w : World)
    → Leaves (cleanup mpp w) (λ mpp' w'. IsClosed mpp' × Moves w (mpp_held mpp) w' none_held)
cleanup-Closed mpp w = cleanup-cases mpp mpp.ctx mpp.cfg w refl refl

abbrev pub Opened : World → Bool × Mpp → World → Type 0
Opened w (made, mpp) w' =
    ((made ≡ true) × (mpp.ctx ≡ true) × Moves w none_held w' (mpp_held mpp))
    ⊎ ((made ≡ false) × IsClosed mpp × Moves w none_held w' none_held)

module _ (io : Calls) (start : World) where
  init_failed-Opened :
      (mpp : Mpp) (w : World)
      → Moves start none_held w (mpp_held mpp)
      → Leaves (init_failed mpp w) (Opened start)
  unfolding init_failed
  init_failed-Opened mpp w g =
      let (closed, h) = cleanup-Closed mpp w in inr (refl, closed, λ r. omega (arith, g r, h r))

  init_output-Opened :
      (mpp : Mpp) (w : World)
      → mpp.ctx ≡ true
      → Moves start none_held w (mpp_held mpp)
      → Leaves (init_output io mpp w) (Opened start)
  unfolding init_output
  init_output-Opened mpp w c g =
      Leaves-if (not (is_zero (io.set_header_mode w))) _ _ w (Opened start)
        (λ _. init_failed-Opened mpp w g)
        (λ _.
          Leaves-if (not (is_zero (io.set_output_timeout w))) _ _ w (Opened start)
            (λ _. init_failed-Opened mpp w g) (λ _. inl (refl, c, g)))

  init_config-Opened :
      (width height hor_stride ver_stride fps bitrate : ℕ) (mpp : Mpp) (w : World)
      → mpp.ctx ≡ true
      → Moves start none_held w (mpp_held mpp)
      → Leaves (init_config io width height hor_stride ver_stride fps bitrate mpp w) (Opened start)
  unfolding init_config
  init_config-Opened width height hor_stride ver_stride fps bitrate mpp w c g =
      Leaves-if (not (is_zero (io.get_cfg w))) _ _ w (Opened start)
        (λ _. init_failed-Opened mpp w g)
        (λ _.
          Leaves-if (not (is_zero (io.set_cfg _))) _ _ _ (Opened start)
            (λ _. init_failed-Opened mpp _ (λ r. omega (arith, g r)))
            (λ _. init_output-Opened mpp _ c (λ r. omega (arith, g r))))

  init_created-Opened :
      (width height hor_stride ver_stride fps bitrate : ℕ) (mpp : Mpp) (w : World)
      → mpp.ctx ≡ true
      → mpp.cfg ≡ false
      → Moves start none_held w (mpp_held mpp)
      → Leaves (init_created io width height hor_stride ver_stride fps bitrate mpp w) (Opened start)
  unfolding init_created
  init_created-Opened width height hor_stride ver_stride fps bitrate mpp w c d g =
      Leaves-if (not (is_zero (io.mpp_init w))) _ _ w (Opened start)
        (λ _. init_failed-Opened mpp w g)
        (λ _.
          Leaves-if (not (is_zero (io.mpp_enc_cfg_init w))) _ _ w (Opened start)
            (λ _. init_failed-Opened mpp w g)
            (λ _.
              init_config-Opened width height hor_stride ver_stride fps bitrate
                (record mpp { cfg = true }) _ c
                (λ r. let e : if_held r config mpp.cfg ≡ 0 = rw d refl in omega (arith, g r, e))))

  -- From a closed session, `MppEncoder::init` opens one, or fails and leaves nothing held.
  pub init-Opened :
      (width height hor_stride ver_stride fps bitrate : ℕ) (mpp : Mpp)
      → IsClosed mpp
      → Leaves (init io width height hor_stride ver_stride fps bitrate mpp start) (Opened start)
  unfolding init
  init-Opened width height hor_stride ver_stride fps bitrate mpp (c, d) =
      Leaves-if (not (is_zero (io.mpp_create start))) _ _ start (Opened start)
        (λ _. inr (refl, (c, d), λ r. omega arith))
        (λ _.
          init_created-Opened width height hor_stride ver_stride fps bitrate
            (record mpp { ctx = true; cfg_hor_stride = hor_stride; cfg_ver_stride = ver_stride }) _
            refl d (λ r. let e : if_held r config mpp.cfg ≡ 0 = rw d refl in omega (arith, e)))
