-- ===== src/Encoder/Stream/Paired.antt =====
-- The time stamps that `drain_to_consumers` (src/encoder/video_encoder.cpp) gives the packets of MPP.
use pixel_pilot_rk.Common.{
  ℕ, ◌≡◌, ◌≤◌, refl, ap, sym, ◌∙◌, subst, Bool, true, false, List, [], ◌∷◌, ◌==◌, if◌then◌else◌,
  length, drop, arith, Bool-cases, inl, inr,
}
use pixel_pilot_rk.Dvr.Keyframe.{au_is_keyframe}
use pixel_pilot_rk.Encoder.Calls.{
  Calls, World, pure, and_then, Leaves, Leaves-if, Answer, timeout, failed, packet, access_unit,
}
use pixel_pilot_rk.Encoder.Mpp.{drain_loop, drain}
use pixel_pilot_rk.Encoder.Stream.{
  VideoEncoder, next_pts, popped, tail_pts, deliver, emit, drain_to_consumers,
}

-- The packets with bytes that come before the first timeout or error.
abbrev pub payloads : List Answer → List (List ℕ)
payloads [] = []
payloads (timeout ∷ rest) = []
payloads (failed ∷ rest) = []
payloads (packet bytes is_eos ∷ rest) =
    let others = payloads rest in if length bytes == 0 then others else bytes ∷ others

-- One access unit to every consumer.
abbrev pub handed : List ℕ → List ℕ → ℕ → World → World
handed [] bytes pts w = w
handed (c ∷ cs) bytes pts w =
    handed cs bytes pts (access_unit c bytes pts (au_is_keyframe bytes) ∷ w)

-- The first packet with the first time stamp, and so on.
abbrev pub paired : List ℕ → List (List ℕ) → List ℕ → World → World
paired cs [] stamps w = w
paired cs (bytes ∷ rest) [] w = w
paired cs (bytes ∷ rest) (pts ∷ stamps) w = paired cs rest stamps (handed cs bytes pts w)

abbrev pub Paired : Calls → List Answer → List ℕ → World → VideoEncoder → World → Type 0
Paired io answers stamps w s' w' =
    (w' ≡ paired io.consumers (payloads answers) stamps w)
    × (s'.submitted_pts ≡ drop (length (payloads answers)) stamps)

module _ (io : Calls) (all_active : (w : World) (c : ℕ) → io.active w c ≡ true) where
  deliver-handed :
      (bytes : List ℕ) (pts : ℕ) (cs : List ℕ) (s : VideoEncoder) (w : World)
      → deliver io pure bytes pts cs s w ≡ (s, handed cs bytes pts w)
  unfolding deliver
  deliver-handed bytes pts [] s w = refl
  deliver-handed bytes pts (c ∷ cs) s w =
      let v : World = access_unit c bytes pts (au_is_keyframe bytes) ∷ w in
      rw (all_active w c) (elim (Bool-cases (io.stops v c)) [
        | inl stopping ↦ rw stopping (deliver-handed bytes pts cs s v)
        | inr going ↦ rw going (deliver-handed bytes pts cs s v)
      ])

  emit-handed :
      (bytes : List ℕ) (s : VideoEncoder) (w : World)
      → emit io pure s bytes w ≡ (popped s, handed io.consumers bytes (next_pts s) w)
  unfolding emit
  emit-handed bytes s w = deliver-handed bytes (next_pts s) io.consumers (popped s) w

  next_pts-first :
      (s : VideoEncoder) (p : ℕ) (stamps : List ℕ)
      → s.submitted_pts ≡ p ∷ stamps
      → (next_pts s ≡ p) × ((popped s).submitted_pts ≡ stamps)
  unfolding next_pts popped
  next_pts-first s p stamps e = (rw e refl, ap (λ q. tail_pts q) e)

  -- A packet that is empty if `empty` is true, and the rest of the loop.
  packet-Paired :
      (empty : Bool) (bytes : List ℕ) (rest : List Answer) (stamps : List ℕ) (s : VideoEncoder)
      (w : World)
      → s.submitted_pts ≡ stamps
      → length (if empty then payloads rest else bytes ∷ payloads rest) ≤ length stamps
      → ((stamps : List ℕ) (s : VideoEncoder) (w : World)
          → s.submitted_pts ≡ stamps
          → length (payloads rest) ≤ length stamps
          → Leaves (drain_loop (emit io pure) rest s w) (Paired io rest stamps w))
      → Leaves
          (and_then
            ((if empty then pure s else emit io pure s bytes) w)
            (λ s'. drain_loop (emit io pure) rest s'))
          (λ s' w'.
            let all = if empty then payloads rest else bytes ∷ payloads rest in
            (w' ≡ paired io.consumers all stamps w) × (s'.submitted_pts ≡ drop (length all) stamps))
  unfolding drop
  packet-Paired true bytes rest stamps s w e l ih = ih stamps s w e l
  packet-Paired false bytes rest [] s w e l ih = absurd (omega (arith, l))
  packet-Paired false bytes rest (pts ∷ stamps) s w e l ih =
      let (n, q) = next_pts-first s pts stamps e in
      let v = handed io.consumers bytes pts w in
      let m : emit io pure s bytes w ≡ (popped s, v) =
        emit-handed bytes s w ∙ ap (λ x. (popped s, handed io.consumers bytes x w)) n in
      subst
        (λ x. Leaves (and_then x (λ s'. drain_loop (emit io pure) rest s')) (λ s' w'.
          (w' ≡ paired io.consumers (payloads rest) stamps v)
          × (s'.submitted_pts ≡ drop (length (payloads rest)) stamps)))
        (sym m) (ih stamps (popped s) v q (omega (arith, l)))

  drain_loop-Paired :
      (answers : List Answer) (stamps : List ℕ) (s : VideoEncoder) (w : World)
      → s.submitted_pts ≡ stamps
      → length (payloads answers) ≤ length stamps
      → Leaves (drain_loop (emit io pure) answers s w) (Paired io answers stamps w)
  unfolding drain_loop drop
  drain_loop-Paired [] stamps s w e l = (refl, e)
  drain_loop-Paired (timeout ∷ rest) stamps s w e l = (refl, e)
  drain_loop-Paired (failed ∷ rest) stamps s w e l = (refl, e)
  drain_loop-Paired (packet bytes is_eos ∷ rest) stamps s w e l =
      packet-Paired (length bytes == 0) bytes rest stamps s w e l (drain_loop-Paired rest)

-- If MPP has no more packets than frames were submitted and every consumer is active, `drain_to_consumers`
-- hands the k-th packet that has bytes to each consumer once, with the k-th submitted time stamp and
-- the keyframe flag of its bytes, and goes on with the stamps that are left. A consumer that calls
-- `drain_pending` meanwhile changes nothing of it.
pub drain_to_consumers-Paired :
    (io : Calls) (s : VideoEncoder) (w : World)
    → ((w : World) (c : ℕ) → io.active w c ≡ true)
    → s.draining ≡ false
    → length (payloads (io.answers w)) ≤ length s.submitted_pts
    → Leaves
        (drain_to_consumers io s w)
        (λ s' w'. (s'.draining ≡ false) × Paired io (io.answers w) s.submitted_pts w s' w')
unfolding drain_to_consumers drain
drain_to_consumers-Paired io s w active idle l =
    Leaves-if s.draining _ _ w
      (λ s' w'. (s'.draining ≡ false) × Paired io (io.answers w) s.submitted_pts w s' w')
      (λ busy. absurd (cc))
      (λ _. (
        refl,
        drain_loop-Paired io active (io.answers w) s.submitted_pts (record s { draining = true }) w
            refl l,
      ))
