-- ===== src/Dvr/Player/Units.antt =====
-- What the player does with the packets of src/dvr/ts_writer.cpp.
use pixel_pilot_rk.Common.{
  ℕ, zero, suc, ◌+◌, ◌%◌, ◌≤◌, ◌≡◌, refl, ap, sym, ◌∙◌, inl, inr, Bool, true, false, not, Option,
  none, some, List, [], ◌∷◌, ◌++◌, ◌==◌, leb, if◌then◌else◌, length, concat, arith, All, Bool-cases,
  length-append, take-append_left, drop-append_left,
}
use mathlib.Core.List.{append_assoc}
use pixel_pilot_rk.Dvr.Pes.{pid_video, ts_packet_size}
use pixel_pilot_rk.Dvr.Pes.Demux.{TsPacket, parse_packet, accept, reassemble}
use pixel_pilot_rk.Dvr.Section.{emit_psi, pat, pmt, pid_pat, pid_pmt}
use pixel_pilot_rk.Dvr.Section.Reading.{parse_packet-emit_section}
use pixel_pilot_rk.Dvr.Player.{prepend, after, read_video, packets, play}

abbrev pub and_then : Option (List ℕ × ℕ) → (ℕ → Option (List ℕ × ℕ)) → Option (List ℕ × ℕ)
and_then none f = none
and_then (some (bytes, counter)) f = prepend bytes (f counter)

prepend-and_then :
    (bytes : List ℕ) (x : Option (List ℕ × ℕ)) (f : ℕ → Option (List ℕ × ℕ))
    → and_then (prepend bytes x) f ≡ prepend bytes (and_then x f)
prepend-and_then bytes none f = refl
prepend-and_then bytes (some (more, counter)) f = prepend_twice (f counter)
  where
    prepend_twice :
        (y : Option (List ℕ × ℕ)) → prepend (bytes ++ more) y ≡ prepend bytes (prepend more y)
    prepend_twice none = refl
    prepend_twice (some (z, c)) = ap (λ t. some (t, c)) (append_assoc bytes more z)

after-and_then :
    (counter : ℕ) (t : Option TsPacket) (g f : ℕ → Option (List ℕ × ℕ))
    → after counter t (λ c. and_then (g c) f) ≡ and_then (after counter t g) f
after-and_then counter none g f = refl
after-and_then counter (some t) g f = elim (Bool-cases (t.pid == pid_video)) [
  | inr other ↦ rw other refl
  | inl video ↦ elim (Bool-cases (t.continuity == counter)) [
    | inr gap ↦ rw (video, gap) refl
    | inl next ↦ rw (video, next) (sym (prepend-and_then t.payload (g ((counter + 1) % 16)) f))
  ]
]

prepend-nil : (y : Option (List ℕ × ℕ)) → y ≡ prepend [] y
prepend-nil none = refl
prepend-nil (some (z, c)) = refl

-- Packets are read one after another.
pub read_video-append :
    (counter : ℕ) (ps qs : List (List ℕ))
    → read_video counter (ps ++ qs) ≡ and_then (read_video counter ps) (λ c. read_video c qs)
unfolding read_video
read_video-append counter [] qs = prepend-nil (read_video counter qs)
read_video-append counter (p ∷ ps) qs =
    ap (λ f. after counter (parse_packet p) f) (λ i c. read_video-append c ps qs i)
    ∙ after-and_then counter (parse_packet p) (λ c. read_video c ps) (λ c. read_video c qs)

after-accept :
    (first : Bool) (counter : ℕ) (t : Option TsPacket) (r : Option (List ℕ × ℕ))
    (f : ℕ → Option (List ℕ × ℕ)) (x : List ℕ × ℕ)
    → ((y : List ℕ × ℕ) → r ≡ some y → f ((counter + 1) % 16) ≡ some y)
    → accept pid_video first counter t r ≡ some x
    → after counter t f ≡ some x
after-accept first counter none r f x h e = cc
after-accept first counter (some t) none f x h e = cc
after-accept first counter (some t) (some (bytes, c)) f x h e =
    let next = h (bytes, c) refl in
    elim (Bool-cases (t.pid == pid_video)) [
      | inr other ↦ absurd (ground arith)
      | inl video ↦ elim (Bool-cases (t.continuity == counter)) [
        | inr gap ↦ absurd (ground arith)
        | inl same ↦ elim (Bool-cases (if t.start then first else not first)) [
          | inr wrong ↦ absurd (ground arith)
          | inl start ↦ rw (video, same, next) (ground arith)
        ]
      ]
    ]

-- A unit that reassembles is read.
pub read_video-reassemble :
    (first : Bool) (counter : ℕ) (ps : List (List ℕ)) (x : List ℕ × ℕ)
    → reassemble pid_video first counter ps ≡ some x
    → read_video counter ps ≡ some x
unfolding read_video reassemble
read_video-reassemble first counter [] x e = e
read_video-reassemble first counter (p ∷ ps) x e =
    after-accept first counter (parse_packet p) (reassemble pid_video false ((counter + 1) % 16) ps)
      (λ c. read_video c ps) x (λ y q. read_video-reassemble false ((counter + 1) % 16) ps y q) e

-- The tables are passed over.
pub read_video-emit_psi :
    (counter counter_pat counter_pmt : ℕ)
    → read_video counter (emit_psi counter_pat counter_pmt) ≡ some ([], counter)
unfolding read_video emit_psi pat pmt
read_video-emit_psi counter counter_pat counter_pmt =
    rw
      (
        parse_packet-emit_section pid_pat counter_pat pat (omega arith) (omega arith),
        parse_packet-emit_section pid_pmt counter_pmt pmt (omega arith) (omega arith),
      )
      refl

pub packets-cons :
    (fuel : ℕ) (p rest : List ℕ)
    → length p ≡ ts_packet_size
    → packets (suc fuel) (p ++ rest) ≡ p ∷ packets fuel rest
unfolding packets
packets-cons fuel p rest h =
    let there : leb ts_packet_size (length (p ++ rest)) ≡ true =
      ground (arith, length-append p rest) in
    rw (there, take-append_left ts_packet_size p rest h, drop-append_left ts_packet_size p rest h)
      refl

-- Packets of 188 bytes, written one after another, are cut where they were joined.
pub packets-concat :
    (fuel : ℕ) (ps : List (List ℕ))
    → All (λ p. length p ≡ ts_packet_size) ps
    → length (concat ps) ≤ fuel
    → packets fuel (concat ps) ≡ ps
unfolding packets concat
packets-concat zero [] h f = refl
packets-concat (suc fuel) [] h f = refl
packets-concat zero (p ∷ ps) h f = absurd (omega (arith, length-append p (concat ps), h.0))
packets-concat (suc fuel) (p ∷ ps) h f =
    packets-cons fuel p (concat ps) h.0
    ∙ ap (λ t. p ∷ t) (packets-concat fuel ps h.1 (omega (arith, h.0, length-append p (concat ps))))

-- A file of whole packets is read packet by packet.
pub play-concat :
    (ps : List (List ℕ))
    → All (λ p. length p ≡ ts_packet_size) ps
    → play (concat ps) ≡ read_video 0 ps
unfolding play
play-concat ps h = rw (packets-concat (length (concat ps)) ps h (omega arith)) refl
