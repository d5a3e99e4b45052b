-- ===== src/Dvr/Pes/Packets.antt =====
-- The form of the packets that src/dvr/ts_writer.cpp emits.
use pixel_pilot_rk.Common.{
  ℕ, zero, suc, ◌+◌, ◌-◌, ◌/◌, ◌%◌, ◌^◌, ◌<◌, ◌≡◌, refl, inl, inr, Bool, true, false, List, [], ◌∷◌,
  ◌++◌, ltb, ◌==◌, if◌then◌else◌, length, take, drop, Option, none, some, arith, Bool-cases,
  length-append, take-append_left, length-take, length-drop, All,
}
use pixel_pilot_rk.Dvr.Stamp.{write_pcr, write_timestamp}
use pixel_pilot_rk.Dvr.Stamp.RoundTrip.{read_pcr, read_pcr-write_pcr}
use pixel_pilot_rk.Dvr.Pes.{
  Field, plan, field_content, copy_loop, packet_loop, emit_pes, pes_header, ts_packet_size, flags,
}
use pixel_pilot_rk.Dvr.Pes.Plan.{IsPlan, plan-IsPlan, length-packet, length-write_pcr}
use pixel_pilot_rk.Dvr.Pes.Copy.{copy_loop-take}
use pixel_pilot_rk.Dvr.Pes.Demux.{TsPacket, parse_packet}
use pixel_pilot_rk.Dvr.Pes.RoundTrip.{content, parse_packet-packet}

module _ (pes au : List ℕ) (pcr : ℕ) (keyframe : Bool) where
  pub length-slice :
      (first : Bool) (pos : ℕ)
      → pos < length pes + length au
      → let f = plan first keyframe (length pes + length au - pos) in
        length (copy_loop pes au f.room pos f.room) ≡ f.room
  length-slice first pos lt =
      let f : Field = plan first keyframe (length pes + length au - pos) in
      let p = plan-IsPlan first keyframe (length pes + length au - pos) (omega arith) in
      rw (copy_loop-take pes au f.room pos f.room (omega arith) (omega (arith, p.enough))) (
        length-take f.room (drop pos (pes ++ au))
          (omega (arith, p.enough, length-append pes au, length-drop pos (pes ++ au))))

  packet_loop-sizes :
      (fuel pos : ℕ) (first : Bool) (counter : ℕ)
      → All
          (λ p. length p ≡ ts_packet_size)
          (packet_loop pes au pcr keyframe fuel pos first counter).0
  unfolding packet_loop
  packet_loop-sizes zero pos first counter = tt
  packet_loop-sizes (suc fuel) pos first counter =
      elim (Bool-cases (ltb pos (length pes + length au))) [
        | inr over ↦ rw over tt
        | inl lt ↦
            let f : Field = plan first keyframe (length pes + length au - pos) in
            let inside : pos < length pes + length au = ground arith in
            let left : 0 < length pes + length au - pos = omega arith in
            rw lt (
              length-packet first keyframe pcr counter (length pes + length au - pos) f
                  (copy_loop pes au f.room pos f.room)
                  (plan-IsPlan first keyframe (length pes + length au - pos) left)
                  (length-slice first pos inside),
              packet_loop-sizes fuel (pos + f.room) false ((counter + 1) % 16),
            )
      ]

  packet_loop-counter :
      (fuel pos : ℕ) (first : Bool) (counter : ℕ)
      → counter < 16
      → (packet_loop pes au pcr keyframe fuel pos first counter).1 < 16
  unfolding packet_loop
  packet_loop-counter zero pos first counter h = h
  packet_loop-counter (suc fuel) pos first counter h =
      elim (Bool-cases (ltb pos (length pes + length au))) [
        | inr over ↦ rw over h
        | inl lt ↦
            let f : Field = plan first keyframe (length pes + length au - pos) in
            rw lt (packet_loop-counter fuel (pos + f.room) false ((counter + 1) % 16) (omega arith))
      ]

-- The continuity counter keeps to its 4 bits.
pub emit_pes-counter :
    (au : List ℕ) (pts pcr : ℕ) (keyframe : Bool) (counter : ℕ)
    → counter < 16
    → (emit_pes au pts pcr keyframe counter).1 < 16
unfolding emit_pes
emit_pes-counter au pts pcr keyframe counter h =
    packet_loop-counter (pes_header pts) au pcr keyframe (length (pes_header pts) + length au) 0
      true counter h

-- Each packet of an access unit has 188 bytes: the writes stay in the packet and fill it.
pub emit_pes-sizes :
    (au : List ℕ) (pts pcr : ℕ) (keyframe : Bool) (counter : ℕ)
    → All (λ p. length p ≡ ts_packet_size) (emit_pes au pts pcr keyframe counter).0
unfolding emit_pes
emit_pes-sizes au pts pcr keyframe counter =
    packet_loop-sizes (pes_header pts) au pcr keyframe (length (pes_header pts) + length au) 0 true
      counter

-- `random_access_indicator`, and the clock if `PCR_flag` is set.
pub read_adaptation : List ℕ → Option (Bool × ℕ)
read_adaptation [] = none
read_adaptation (flags ∷ rest) =
    if flags / 16 % 2 == 1
    then elim (read_pcr (take 6 rest)) [
      | none ↦ none
      | some (base, extension) ↦ some (flags / 64 % 2 == 1, base)
    ]
    else none

abbrev read_clock : Option TsPacket → Option (Bool × ℕ)
read_clock none = none
read_clock (some t) = read_adaptation t.adaptation

pub read_head : List (List ℕ) → Option (Bool × ℕ)
unfolding read_adaptation
read_head [] = none
read_head (p ∷ ps) = read_clock (parse_packet p)

flags_read :
    (keyframe : Bool) (pcr : ℕ)
    → (let read : Option (Bool × ℕ) = some (flags true keyframe / 64 % 2 == 1, pcr) in
        if flags true keyframe / 16 % 2 == 1 then read else none)
      ≡ some (keyframe, pcr)
flags_read true pcr = refl
flags_read false pcr = refl

read_adaptation-content :
    (keyframe : Bool) (pcr remaining : ℕ) (f : Field)
    → IsPlan true remaining f
    → pcr < 2 ^ 33
    → read_adaptation (content true keyframe pcr f) ≡ some (keyframe, pcr)
unfolding read_adaptation field_content
read_adaptation-content keyframe pcr remaining f h p =
    let nz : (f.af_total == 0) ≡ false = ground (arith, h.clock refl) in
    let nz' : (f.af_len == 0) ≡ false = ground (arith, h.clock refl, h.said) in
    rw
      (
        nz,
        nz',
        take-append_left 6 (write_pcr pcr) _ (length-write_pcr pcr),
        read_pcr-write_pcr pcr p,
      )
      (flags_read keyframe pcr)

packet_loop-head :
    (pes au : List ℕ) (pcr : ℕ) (keyframe : Bool) (fuel counter : ℕ)
    → 0 < fuel
    → 0 < length pes + length au
    → pcr < 2 ^ 33
    → read_head (packet_loop pes au pcr keyframe fuel 0 true counter).0 ≡ some (keyframe, pcr)
unfolding packet_loop read_head
packet_loop-head pes au pcr keyframe zero counter z h p = absurd (omega arith)
packet_loop-head pes au pcr keyframe (suc fuel) counter z h p =
    let lt : ltb 0 (length pes + length au) ≡ true = ground arith in
    let left : 0 < length pes + length au - 0 = omega arith in
    let f : Field = plan true keyframe (length pes + length au - 0) in
    let q = plan-IsPlan true keyframe (length pes + length au - 0) left in
    rw
      (
        lt,
        parse_packet-packet true keyframe pcr counter (length pes + length au - 0) f
            (copy_loop pes au f.room 0 f.room) q (length-slice pes au pcr keyframe true 0 h),
      )
      (read_adaptation-content keyframe pcr (length pes + length au - 0) f q p)

pub length-pes_header : (pts : ℕ) → length (pes_header pts) ≡ 14
unfolding pes_header write_timestamp
length-pes_header pts = refl

-- The first packet of an access unit carries its clock reference, if that has 33 bits at most, and the
-- random access indicator exactly if it is a keyframe.
pub read_head-emit_pes :
    (au : List ℕ) (pts pcr : ℕ) (keyframe : Bool) (counter : ℕ)
    → pcr < 2 ^ 33
    → read_head (emit_pes au pts pcr keyframe counter).0 ≡ some (keyframe, pcr)
unfolding emit_pes
read_head-emit_pes au pts pcr keyframe counter h =
    let size : length (pes_header pts) ≡ 14 = length-pes_header pts in
    packet_loop-head (pes_header pts) au pcr keyframe (length (pes_header pts) + length au) counter
      (omega arith) (omega arith) h
