-- ===== src/Encoder/Stream/Kept.antt =====
-- What handing on the packets (`emit`, `drain_to_consumers`, `flush` of src/encoder) leaves as it is.
use pixel_pilot_rk.Common.{
  ℕ, ◌≡◌, refl, ◌∙◌, ap, Bool, true, false, not, ◌||◌, List, [], ◌∷◌, ◌==◌, length, arith,
  if◌then◌else◌,
}
use pixel_pilot_rk.Dvr.Keyframe.{au_is_keyframe}
use pixel_pilot_rk.Encoder.Calls.{
  Calls, World, M, pure, Leaves, Leaves-if, Answer, timeout, failed, packet, access_unit,
  eos_submitted,
}
use pixel_pilot_rk.Encoder.Calls.Ledger.{Still, taken, given}
use pixel_pilot_rk.Encoder.Mpp.{drain_loop, flush_loop, drain, flush}
use pixel_pilot_rk.Encoder.Stream.{
  VideoEncoder, next_pts, popped, deliver, emit, drain_to_consumers, drain_pending, any_active,
  recompute_wants_frames,
}

-- MPP's session, the pending slot, the mode, the rate and the counters of failures; and nothing is taken
-- or given back.
pub record Kept (a b : VideoEncoder × World) : Type 0 where
  pub encoder : b.0.encoder ≡ a.0.encoder
  pub pending : b.0.wb_pending_index ≡ a.0.wb_pending_index
  pub mode : b.0.mode ≡ a.0.mode
  pub attempts : b.0.init_attempts ≡ a.0.init_attempts
  pub streak : b.0.frame_error_streak ≡ a.0.frame_error_streak
  pub still : Still a.1 b.1

abbrev pub Keeps : (VideoEncoder → M VideoEncoder) → Type 0
Keeps f = (s : VideoEncoder) (w : World) → Kept (s, w) (f s w)

pub Kept-trans : {a b c : VideoEncoder × World} → Kept a b → Kept b c → Kept a c
Kept-trans h g = record {
  encoder = g.encoder ∙ h.encoder;
  pending = g.pending ∙ h.pending;
  mode = g.mode ∙ h.mode;
  attempts = g.attempts ∙ h.attempts;
  streak = g.streak ∙ h.streak;
  still = λ r. ((g.still r).0 ∙ (h.still r).0, (g.still r).1 ∙ (h.still r).1);
}

-- Only the log goes on.
pub Kept-log : (s : VideoEncoder) {w w' : World} → Still w w' → Kept (s, w) (s, w')
Kept-log s g = record {
  encoder = refl;
  pending = refl;
  mode = refl;
  attempts = refl;
  streak = refl;
  still = g;
}

-- Only other fields change.
pub Kept-state :
    (s s' : VideoEncoder) (w : World)
    → s'.encoder ≡ s.encoder
    → s'.wb_pending_index ≡ s.wb_pending_index
    → s'.mode ≡ s.mode
    → s'.init_attempts ≡ s.init_attempts
    → s'.frame_error_streak ≡ s.frame_error_streak
    → Kept (s, w) (s', w)
Kept-state s s' w e p m i f = record {
  encoder = e;
  pending = p;
  mode = m;
  attempts = i;
  streak = f;
  still = λ r. (refl, refl);
}

pub pure-Keeps : Keeps pure
pure-Keeps s w = Kept-log s (λ r. (refl, refl))

module _ (io : Calls) where
  deliver-Kept :
      (dp : VideoEncoder → M VideoEncoder) (bytes : List ℕ) (pts : ℕ) (cs : List ℕ)
      (s : VideoEncoder) (w : World)
      → Keeps dp
      → Kept (s, w) (deliver io dp bytes pts cs s w)
  unfolding deliver
  deliver-Kept dp bytes pts [] s w k = pure-Keeps s w
  deliver-Kept dp bytes pts (c ∷ rest) s w k =
      let v : World = access_unit c bytes pts (au_is_keyframe bytes) ∷ w in
      let m = (if io.stops v c then dp s else pure s) v in
      Leaves-if (not (io.active w c)) _ _ w (λ t u. Kept (s, w) (t, u))
        (λ _. deliver-Kept dp bytes pts rest s w k)
        (λ _.
          let noted : Kept (s, w) (s, v) = Kept-log s (λ r. (omega arith, omega arith)) in
          let answered : Kept (s, v) m =
            Leaves-if (io.stops v c) (dp s) (pure s) v (λ t u. Kept (s, v) (t, u)) (λ _. k s v)
              (λ _. pure-Keeps s v) in
          Kept-trans noted (Kept-trans answered (deliver-Kept dp bytes pts rest m.0 m.1 k)))

  pub emit-Kept :
      (dp : VideoEncoder → M VideoEncoder) (bytes : List ℕ) (s : VideoEncoder) (w : World)
      → Keeps dp
      → Kept (s, w) (emit io dp s bytes w)
  unfolding emit popped
  emit-Kept dp bytes s w k =
      Kept-trans (Kept-state s (popped s) w refl refl refl refl refl)
        (deliver-Kept dp bytes (next_pts s) io.consumers (popped s) w k)

  drain_loop-Kept :
      (f : VideoEncoder → List ℕ → M VideoEncoder) (answers : List Answer) (s : VideoEncoder)
      (w : World)
      → ((bytes : List ℕ) → Keeps (λ s. f s bytes))
      → Kept (s, w) (drain_loop f answers s w)
  unfolding drain_loop
  drain_loop-Kept f [] s w k = pure-Keeps s w
  drain_loop-Kept f (timeout ∷ rest) s w k = pure-Keeps s w
  drain_loop-Kept f (failed ∷ rest) s w k = pure-Keeps s w
  drain_loop-Kept f (packet bytes is_eos ∷ rest) s w k =
      let m = (if length bytes == 0 then pure s else f s bytes) w in
      let handed : Kept (s, w) m =
        Leaves-if (length bytes == 0) (pure s) (f s bytes) w (λ t u. Kept (s, w) (t, u))
          (λ _. pure-Keeps s w) (λ _. k bytes s w) in
      Kept-trans handed (drain_loop-Kept f rest m.0 m.1 k)

  flush_loop-Kept :
      (f : VideoEncoder → List ℕ → M (Bool × VideoEncoder)) (answers : List Answer)
      (s : VideoEncoder) (w : World)
      → ((bytes : List ℕ) (s : VideoEncoder) (w : World)
          → Leaves (f s bytes w) (λ r w'. Kept (s, w) (r.1, w')))
      → Kept (s, w) (flush_loop f answers s w)
  unfolding flush_loop
  flush_loop-Kept f [] s w k = pure-Keeps s w
  flush_loop-Kept f (timeout ∷ rest) s w k = flush_loop-Kept f rest s w k
  flush_loop-Kept f (failed ∷ rest) s w k = pure-Keeps s w
  flush_loop-Kept f (packet bytes is_eos ∷ rest) s w k =
      let m = (if length bytes == 0 then pure (true, s) else f s bytes) w in
      let handed : Kept (s, w) (m.0.1, m.1) =
        Leaves-if (length bytes == 0) (pure (true, s)) (f s bytes) w (λ r w'. Kept (s, w) (r.1, w'))
          (λ _. pure-Keeps s w) (λ _. k bytes s w) in
      Leaves-if (is_eos || not m.0.0) _ _ m.1 (λ t u. Kept (s, w) (t, u)) (λ _. handed)
        (λ _. Kept-trans handed (flush_loop-Kept f rest m.0.1 m.1 k))

  pub drain_to_consumers-Keeps : Keeps (drain_to_consumers io)
  unfolding drain_to_consumers drain
  drain_to_consumers-Keeps s w =
      Leaves-if s.draining _ _ w (λ t u. Kept (s, w) (t, u)) (λ _. pure-Keeps s w)
        (λ _.
          let begun : VideoEncoder = record s { draining = true } in
          let m = drain_loop (emit io pure) (io.answers w) begun w in
          let ended : VideoEncoder = record m.0 { draining = false } in
          Kept-trans (Kept-state s begun w refl refl refl refl refl) (
            Kept-trans
              (drain_loop-Kept (emit io pure) (io.answers w) begun w
                (λ bytes s v. emit-Kept pure bytes s v pure-Keeps))
              (Kept-state m.0 ended m.1 refl refl refl refl refl)))

  pub drain_pending-Keeps : Keeps (drain_pending io)
  unfolding drain_pending
  drain_pending-Keeps s w =
      Leaves-if s.encoder.ctx _ _ w (λ t u. Kept (s, w) (t, u)) (λ _. drain_to_consumers-Keeps s w)
        (λ _. pure-Keeps s w)

  -- `encoder.flush` with a callback that keeps.
  pub flush-Kept :
      (f : VideoEncoder → List ℕ → M (Bool × VideoEncoder)) (s : VideoEncoder) (w : World)
      → ((bytes : List ℕ) (s : VideoEncoder) (w : World)
          → Leaves (f s bytes w) (λ r w'. Kept (s, w) (r.1, w')))
      → Kept (s, w) (flush io f s w)
  unfolding flush
  flush-Kept f s w k =
      let v : World = eos_submitted ∷ w in
      let noted : Kept (s, w) (s, v) = Kept-log s (λ r. (omega arith, omega arith)) in
      Kept-trans noted (flush_loop-Kept f (io.answers v) s v k)

  any_active-Still : (cs : List ℕ) (w : World) → Leaves (any_active io cs w) (λ _ w'. w' ≡ w)
  unfolding any_active
  any_active-Still [] w = refl
  any_active-Still (c ∷ rest) w =
      Leaves-if (io.active w c) _ _ w (λ _ w'. w' ≡ w) (λ _. refl) (λ _. any_active-Still rest w)

  pub recompute_wants_frames-Keeps : Keeps (recompute_wants_frames io)
  unfolding recompute_wants_frames
  recompute_wants_frames-Keeps s w =
      let e = any_active-Still io.consumers w in
      record {
        encoder = refl;
        pending = refl;
        mode = refl;
        attempts = refl;
        streak = refl;
        still = λ r. (ap (taken r) e, ap (given r) e);
      }
