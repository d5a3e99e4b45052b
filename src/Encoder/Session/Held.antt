-- ===== src/Encoder/Session/Held.antt =====
-- MPP's session through `teardown` and `ensure_encoder` (src/encoder/video_encoder.cpp).
use pixel_pilot_rk.Common.{
  ℕ, ◌+◌, ◌≡◌, ◌≤◌, ◌<◌, ◌⊎◌, inl, inr, refl, ap, sym, ◌∙◌, Bool, true, false, not, ◌&&◌, List, [],
  ◌∷◌, leb, leb→le, arith,
}
use pixel_pilot_rk.Encoder.Calls.{
  Calls, Event, encoder_failed, encoder_reset, World, Leaves, Leaves-if, Resource,
}
use pixel_pilot_rk.Encoder.Calls.Ledger.{taken, given, taken_by, given_by, Still}
use pixel_pilot_rk.Encoder.Mpp.Held.{none_held, IsClosed}
use pixel_pilot_rk.Encoder.Stream.{VideoEncoder, recompute_wants_frames}
use pixel_pilot_rk.Encoder.Stream.Kept.{Kept-log, Kept-trans, recompute_wants_frames-Keeps}
use pixel_pilot_rk.Encoder.Stream.Held.{held, Takes, Kept-Takes}
use pixel_pilot_rk.Encoder.Session.{
  init_encoder, teardown, tell, init_lost, init_done, set_up, ensure_encoder, max_init_attempts,
}
use pixel_pilot_rk.Encoder.Session.Started.{teardown-TornDown, init_encoder-Started}

up_to_date : (b c : Bool) → (b && not c) ≡ true → (b ≡ true) × (c ≡ false)
up_to_date true true e = absurd (cc)
up_to_date true false e = (refl, refl)
up_to_date false c e = absurd (cc)

out_of_date : (b c : Bool) → (b && not c) ≡ false → (b ≡ false) ⊎ (c ≡ true)
out_of_date true true e = inr refl
out_of_date true false e = absurd (cc)
out_of_date false c e = inl refl

-- Notifications are neither taken nor given back.
pub tell-Still :
    (event : ℕ → Event) (cs : List ℕ) (w : World)
    → ((c : ℕ) (r : Resource) → (taken_by r (event c) ≡ 0) × (given_by r (event c) ≡ 0))
    → Leaves (tell event cs w) (λ _ w'. Still w w')
unfolding tell
tell-Still event [] w q r = (refl, refl)
tell-Still event (c ∷ rest) w q r =
    let (t, g) = tell-Still event rest (event c ∷ w) q r in
    let (t', g') = q c r in (omega (arith, t, t'), omega (arith, g, g'))

module _ (io : Calls) where
  -- The attempts are `n` or, with an encoder that is ready, 0.
  abbrev pub Ensured : VideoEncoder → World → ℕ → Bool × VideoEncoder → World → Type 0
  Ensured s w n (is_ready, s') w' =
      ((is_ready ≡ true) × (s'.encoder.ctx ≡ true) × (s'.init_attempts ≡ 0)
        ⊎ (is_ready ≡ false) × (s'.init_attempts ≡ n))
      × (s'.mode ≡ s.mode)
      × (s'.frame_error_streak ≡ s.frame_error_streak)
      × Takes s w none_held s' w'

  init_lost-Ensured :
      (s : VideoEncoder) (w : World) → Leaves (init_lost io s w) (Ensured s w s.init_attempts)
  unfolding init_lost
  init_lost-Ensured s w =
      let m = tell (λ c. encoder_failed c) io.consumers w in
      let g = tell-Still (λ c. encoder_failed c) io.consumers w (λ c r. (refl, refl)) in
      let n = recompute_wants_frames io s m.1 in
      let k = Kept-trans (Kept-log s g) (recompute_wants_frames-Keeps io s m.1) in
      Leaves-if (leb max_init_attempts s.init_attempts) _ _ w (Ensured s w s.init_attempts)
        (λ _. (inr (refl, k.attempts), k.mode, k.streak, Kept-Takes s w n.0 n.1 k))
        (λ _. (inr (refl, refl), refl, refl, λ r. omega arith))

  init_done-Ensured :
      (made : Bool) (s : VideoEncoder) (w : World)
      → made ≡ s.encoder.ctx
      → Leaves (init_done io made s w) (Ensured s w s.init_attempts)
  unfolding init_done
  init_done-Ensured true s w e =
      let g =
        tell-Still (λ c. encoder_reset c s.cur_width s.cur_height) io.consumers w
          (λ c r. (refl, refl)) in
      (inl (refl, sym e, refl), refl, refl, λ r. omega (arith, (g r).0, (g r).1))
  init_done-Ensured false s w e = init_lost-Ensured s w

  set_up-Ensured :
      (s : VideoEncoder) (w : World) → Leaves (set_up io s w) (Ensured s w (s.init_attempts + 1))
  unfolding set_up
  set_up-Ensured s w =
      let begun : VideoEncoder = record s { init_attempts = s.init_attempts + 1 } in
      let m = teardown io begun w in
      let (closed, neg, (mo, at, st), g) = teardown-TornDown io begun w in
      let clean : VideoEncoder = record m.0 { geometry_dirty = false } in
      let n = init_encoder io clean m.1 in
      let (e, (mo', at', st'), h) = init_encoder-Started io clean m.1 closed in
      let (o, mo'', st'', i) = init_done-Ensured n.0.0 n.0.1 n.1 e in
      (
        elim o [ inl p ↦ inl p | inr (f, z) ↦ inr (f, z ∙ at' ∙ at) ],
        mo'' ∙ mo' ∙ mo,
        st'' ∙ st' ∙ st,
        λ r. omega (arith, g r, h r, i r),
      )

  -- The answer is what one setup in the recording mode of a session that holds nothing gives.
  abbrev pub Answers : VideoEncoder → Bool → Type 0
  Answers s is_ready =
      (clean : VideoEncoder) × (v : World) × IsClosed clean.encoder
      × (clean.geometry_dirty ≡ false)
      × (clean.mode ≡ s.mode)
      × (is_ready ≡ (init_encoder io clean v).0.0)

  init_done-made :
      (made : Bool) (s : VideoEncoder) (w : World)
      → Leaves (init_done io made s w) (λ x _. x.0 ≡ made)
  unfolding init_done init_lost
  init_done-made true s w = refl
  init_done-made false s w =
      Leaves-if {A = Bool × VideoEncoder} (leb max_init_attempts s.init_attempts) _ _ w
        (λ x _. x.0 ≡ false) (λ _. refl) (λ _. refl)

  set_up-Answers : (s : VideoEncoder) (w : World) → Leaves (set_up io s w) (λ x _. Answers s x.0)
  unfolding set_up
  set_up-Answers s w =
      let begun : VideoEncoder = record s { init_attempts = s.init_attempts + 1 } in
      let m = teardown io begun w in
      let (closed, _, (mo, _, _), _) = teardown-TornDown io begun w in
      let clean : VideoEncoder = record m.0 { geometry_dirty = false } in
      let n = init_encoder io clean m.1 in
      (clean, m.1, closed, refl, mo, init_done-made n.0.0 n.0.1 n.1)

  -- There is no encoder, or it was set up for another geometry.
  abbrev pub IsStale : VideoEncoder → Type 0
  IsStale s = (s.encoder.ctx ≡ false) ⊎ (s.geometry_dirty ≡ true)

  -- An encoder that is up to date is used as it is; of one that is not, nothing is done behind
  -- `max_init_attempts` failures, and else there is one attempt.
  abbrev pub Retried : VideoEncoder → World → Bool × VideoEncoder → World → Type 0
  Retried s w (is_ready, s') w' =
      ((s.encoder.ctx ≡ true)
        × (s.geometry_dirty ≡ false)
        × (is_ready ≡ true)
        × (s' ≡ s)
        × (w' ≡ w))
      ⊎ (IsStale s
          × (max_init_attempts ≤ s.init_attempts)
          × (is_ready ≡ false)
          × (s' ≡ s)
          × (w' ≡ w))
      ⊎ (IsStale s
          × (s.init_attempts < max_init_attempts)
          × Answers s is_ready
          × Ensured s w (s.init_attempts + 1) (is_ready, s') w')

  pub ensure_encoder-Retried :
      (s : VideoEncoder) (w : World) → Leaves (ensure_encoder io s w) (Retried s w)
  unfolding ensure_encoder
  ensure_encoder-Retried s w =
      Leaves-if (s.encoder.ctx && not s.geometry_dirty) _ _ w (Retried s w)
        (λ e.
          let (c, d) = up_to_date s.encoder.ctx s.geometry_dirty e in inl (c, d, refl, refl, refl))
        (λ o.
          let stale = out_of_date s.encoder.ctx s.geometry_dirty o in
          Leaves-if (leb max_init_attempts s.init_attempts) _ _ w (Retried s w)
            (λ e. inr (inl (stale, leb→le max_init_attempts s.init_attempts e, refl, refl, refl)))
            (λ e. inr (inr (stale, ground arith, set_up-Answers s w, set_up-Ensured s w))))

  -- The attempts stay within the limit.
  abbrev pub Bounded : VideoEncoder → World → Bool × VideoEncoder → World → Type 0
  Bounded s w r w' =
      ((r.0 ≡ true) × (r.1.encoder.ctx ≡ true) ⊎ (r.0 ≡ false))
      × (r.1.init_attempts ≤ max_init_attempts)
      × (r.1.mode ≡ s.mode)
      × (r.1.frame_error_streak ≡ s.frame_error_streak)
      × Takes s w none_held r.1 w'

  unchanged :
      (s t : VideoEncoder) (w v : World) (b : Bool)
      → (b ≡ true) × (s.encoder.ctx ≡ true) ⊎ (b ≡ false)
      → t ≡ s
      → v ≡ w
      → s.init_attempts ≤ max_init_attempts
      → Bounded s w (b, t) v
  unchanged s t w v b a e f l =
      let i = ap (λ x. x.init_attempts) e in
      (
        elim a [ inl (y, c) ↦ inl (y, ap (λ x. x.encoder.ctx) e ∙ c) | inr n ↦ inr n ],
        omega (arith, i, l),
        ap (λ x. x.mode) e,
        ap (λ x. x.frame_error_streak) e,
        λ r.
            let t' = ap (taken r) f in
            let g' = ap (given r) f in let h = ap (λ x. held x r) e in omega (arith, t', g', h),
      )

  pub ensure_encoder-Bounded :
      (s : VideoEncoder) (w : World)
      → s.init_attempts ≤ max_init_attempts
      → Leaves (ensure_encoder io s w) (Bounded s w)
  ensure_encoder-Bounded s w l =
      let m = ensure_encoder io s w in
      elim (ensure_encoder-Retried s w) [
        | inl (c, _, b, e, f) ↦ unchanged s m.0.1 w m.1 m.0.0 (inl (b, c)) e f l
        | inr (inl (_, c, b, e, f)) ↦ unchanged s m.0.1 w m.1 m.0.0 (inr b) e f l
        | inr (inr (_, lt, _, (inl (b, c, z), mo, st, g))) ↦
            (inl (b, c), omega (arith, z), mo, st, g)
        | inr (inr (_, lt, _, (inr (b, z), mo, st, g))) ↦ (inr b, omega (arith, z, lt), mo, st, g)
      ]
