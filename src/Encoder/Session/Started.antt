-- ===== src/Encoder/Session/Started.antt =====
-- What `VideoEncoder::teardown` and `init` (src/encoder/video_encoder.cpp) leave.
use pixel_pilot_rk.Common.{
  ℕ, ◌≡◌, inl, inr, sym, is_neg, Bool, true, false, not, ◌||◌, leb, ◌==◌, arith,
}
use pixel_pilot_rk.Encoder.Calls.{Calls, World, Leaves, Leaves-if}
use pixel_pilot_rk.Encoder.Mpp.{init, cleanup}
use pixel_pilot_rk.Encoder.Mpp.Held.{none_held, IsClosed, init-Opened, cleanup-Closed, closed_held}
use pixel_pilot_rk.Encoder.Stream.{
  VideoEncoder, RecordingMode, video_only, video_with_osd_writeback, drain_to_consumers,
  drain_pending, release_pending,
}
use pixel_pilot_rk.Encoder.Stream.Kept.{
  Kept, Keeps, Kept-trans, pure-Keeps, drain_to_consumers-Keeps, flush-Kept, emit-Kept,
  drain_pending-Keeps,
}
use pixel_pilot_rk.Encoder.Stream.Held.{
  Takes, Kept-Takes, Settled, Settled-refl, Settled-trans, release_pending-Takes,
}
use pixel_pilot_rk.Encoder.Session.{
  init_with, init_as, init_encoder, emit_flushed, flush_ready, teardown, is_positive,
}

not_alike : (b c : Bool) → b ≡ c → not b ≡ c → ⊥
not_alike true true e f = cc
not_alike true false e f = cc
not_alike false true e f = cc
not_alike false false e f = cc

module _ (io : Calls) where
  flush_ready-Keeps : Keeps (flush_ready io)
  unfolding flush_ready emit_flushed
  flush_ready-Keeps s w =
      Leaves-if s.encoder.ctx _ _ w (λ t u. Kept (s, w) (t, u))
        (λ _.
          let m = drain_to_consumers io s w in
          Kept-trans (drain_to_consumers-Keeps io s w) (
            flush-Kept io (emit_flushed io) m.0 m.1 (λ bytes t u.
              Leaves-if {A = Bool × VideoEncoder} (leb t.frames_submitted t.frames_emitted) _ _ u
                (λ x v. Kept (t, u) (x.1, v)) (λ _. pure-Keeps t u)
                (λ _. emit-Kept io (drain_pending io) bytes t u (drain_pending-Keeps io)))))
        (λ _. pure-Keeps s w)

  abbrev pub TornDown : VideoEncoder → World → VideoEncoder → World → Type 0
  TornDown s w s' w' =
      IsClosed s'.encoder
      × (is_neg s'.wb_pending_index ≡ true)
      × Settled s s'
      × Takes s w none_held s' w'

  -- Behind `teardown` nothing is held: neither a context, nor a configuration, nor a pending slot.
  pub teardown-TornDown : (s : VideoEncoder) (w : World) → Leaves (teardown io s w) (TornDown s w)
  unfolding teardown
  teardown-TornDown s w =
      let m = flush_ready io s w in
      let k = flush_ready-Keeps s w in
      let n = release_pending io m.0 m.1 in
      let (neg, settled, h) = release_pending-Takes io m.0 m.1 in
      let (closed, g) = cleanup-Closed n.0.encoder n.1 in
      (
        closed,
        neg,
        Settled-trans s m.0 n.0 (k.mode, k.attempts, k.streak) settled,
        λ r. omega (
          arith,
          Kept-Takes s w m.0 m.1 k r,
          h r,
          g r,
          closed_held (cleanup n.0.encoder n.1).0 r closed,
        ),
      )

  abbrev pub Started : VideoEncoder → World → Bool × VideoEncoder → World → Type 0
  Started s w (made, s') w' = (made ≡ s'.encoder.ctx) × Settled s s' × Takes s w none_held s' w'

  init_with-Started :
      (x y hor ver : ℕ) (s : VideoEncoder) (w : World)
      → IsClosed s.encoder
      → Leaves (init_with io x y hor ver s w) (Started s w)
  unfolding init_with
  init_with-Started x y hor ver s w c =
      let m = init io x y hor ver s.enc_fps s.bitrate s.encoder w in
      let o = init-Opened io w x y hor ver s.enc_fps s.bitrate s.encoder c in
      Leaves-if (not (is_positive x) || not (is_positive y) || s.enc_fps == 0) _ _ w (Started s w)
        (λ _. (sym c.0, Settled-refl s, λ r. omega arith))
        (λ _.
          Leaves-if (not m.0.0) _ _ m.1 (Started s w)
            (λ n. elim o [
              | inl (e, ready, g) ↦ absurd (not_alike m.0.0 true e n)
              | inr (e, closed, g) ↦ (
                sym closed.0,
                Settled-refl s,
                λ r. omega (arith, g r, closed_held m.0.1 r closed, closed_held s.encoder r c),
              )
            ])
            (λ n. elim o [
              | inl (e, ready, g) ↦
                  (sym ready, Settled-refl s, λ r. omega (arith, g r, closed_held s.encoder r c))
              | inr (e, closed, g) ↦ absurd (not_alike m.0.0 false e n)
            ]))

  init_as-Started :
      (mode : RecordingMode) (s : VideoEncoder) (w : World)
      → IsClosed s.encoder
      → Leaves (init_as io mode s w) (Started s w)
  init_as-Started video_with_osd_writeback s w c = init_with-Started _ _ _ _ s w c
  init_as-Started video_only s w c =
      Leaves-if (s.video_frm_width == 0 || s.video_frm_height == 0) _ _ w (Started s w)
        (λ _. (sym c.0, Settled-refl s, λ r. omega arith)) (λ _. init_with-Started _ _ _ _ s w c)

  pub init_encoder-Started :
      (s : VideoEncoder) (w : World)
      → IsClosed s.encoder
      → Leaves (init_encoder io s w) (Started s w)
  unfolding init_encoder
  init_encoder-Started s w c = init_as-Started s.mode s w c
