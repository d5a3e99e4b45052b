-- ===== src/Dvr/Pes/RoundTrip.antt =====
-- A player gets back from the packets of src/dvr/ts_writer.cpp what was put in.
use pixel_pilot_rk.Common.{
  ℕ, zero, suc, ◌+◌, ◌-◌, ◌/◌, ◌%◌, ◌≤◌, ◌<◌, ◌≡◌, ◌≢◌, refl, ap, ◌∙◌, inl, inr, Bool, true, false,
  List, [], ◌∷◌, ◌++◌, ltb, leb, ◌==◌, if◌then◌else◌, length, take, drop, some, arith, Bool-cases,
  length-append, take-append_left, drop-append_left, length-take, length-drop, drop-drop, drop-zero,
  drop_all, take-append-drop,
}
use pixel_pilot_rk.Dvr.Pes.{
  Field, plan, packet, field_bytes, field_content, copy_loop, packet_loop, emit_pes, pes_header,
  pid_video,
}
use pixel_pilot_rk.Dvr.Pes.Plan.{IsPlan, plan-IsPlan, length-field_content, length-packet}
use pixel_pilot_rk.Dvr.Pes.Copy.{copy_loop-take}
use pixel_pilot_rk.Dvr.Pes.Demux.{split_field, parse_packet, with_parts, accept, reassemble}

-- What a packet says to a player.
abbrev pub content : Bool → Bool → ℕ → Field → List ℕ
content first keyframe pcr f = if f.af_total == 0 then [] else field_content first keyframe pcr f

abbrev control : Bool → ℕ → ℕ
control plain counter = (if plain then 0x10 else 0x30) + counter % 16

with_parts-header :
    (first plain : Bool) (counter : ℕ) (field body : List ℕ)
    → with_parts ((if first then 0x40 else 0) + 1) 0 (control plain counter) (some (field, body))
      ≡ some (record {
        start = first;
        pid = pid_video;
        continuity = counter % 16;
        adaptation = field;
        payload = body;
      })
with_parts-header true true counter field body = ground arith
with_parts-header true false counter field body = ground arith
with_parts-header false true counter field body = ground arith
with_parts-header false false counter field body = ground arith

split_field-plain :
    (counter : ℕ) (body : List ℕ)
    → 0 < length body
    → split_field (control true counter / 16 % 4) body ≡ some ([], body)
unfolding split_field
split_field-plain counter [] h = absurd (omega arith)
split_field-plain counter (b ∷ body) h =
    let e : control true counter / 16 % 4 ≡ 1 = omega arith in rw e refl

split_field-field :
    (counter l : ℕ) (field body : List ℕ)
    → length field ≡ l
    → split_field (control false counter / 16 % 4) (l ∷ (field ++ body)) ≡ some (field, body)
unfolding split_field
split_field-field counter l field body h =
    let e : control false counter / 16 % 4 ≡ 3 = omega arith in
    let fits : leb l (length (field ++ body)) ≡ true = ground (arith, length-append field body) in
    rw (e, fits, take-append_left l field body h, drop-append_left l field body h) refl

module _ (first keyframe : Bool) (pcr counter remaining : ℕ) (f : Field) (slice : List ℕ) where
  split_field-packet :
      IsPlan first remaining f
      → length slice ≡ f.room
      → split_field
          (control (f.af_total == 0) counter / 16 % 4)
          (field_bytes first keyframe pcr f ++ slice)
        ≡ some (content first keyframe pcr f, slice)
  unfolding field_bytes
  split_field-packet h e = elim (Bool-cases (f.af_total == 0)) [
    | inl z ↦ rw z (split_field-plain counter slice (omega (arith, h.some_room)))
    | inr nz ↦
        let there : f.af_total ≢ 0 = ground arith in
        let small : f.af_len % 256 ≡ f.af_len = ground (arith, h.said, h.full) in
        rw (nz, small)
          (split_field-field counter f.af_len (field_content first keyframe pcr f) slice
            (length-field_content first keyframe pcr remaining f h there))
  ]

  -- A player reads a packet as it is meant.
  pub parse_packet-packet :
      IsPlan first remaining f
      → length slice ≡ f.room
      → parse_packet (packet first keyframe pcr counter f slice)
        ≡ some (record {
          start = first;
          pid = pid_video;
          continuity = counter % 16;
          adaptation = content first keyframe pcr f;
          payload = slice;
        })
  unfolding parse_packet packet
  parse_packet-packet h e =
      let whole : length (field_bytes first keyframe pcr f ++ slice) ≡ 184 =
        omega (arith, length-packet first keyframe pcr counter remaining f slice h e) in
      rw (whole, split_field-packet h e)
        (with_parts-header first (f.af_total == 0) counter (content first keyframe pcr f) slice)

accept_next :
    (first : Bool) (counter : ℕ) (field slice bytes : List ℕ) (counter' : ℕ)
    → counter < 16
    → accept pid_video first counter
        (some (record {
          start = first;
          pid = pid_video;
          continuity = counter % 16;
          adaptation = field;
          payload = slice;
        }))
        (some (bytes, counter'))
      ≡ some (slice ++ bytes, counter')
accept_next true counter field slice bytes counter' h = ground arith
accept_next false counter field slice bytes counter' h = ground arith

module _ (pes au : List ℕ) (pcr : ℕ) (keyframe : Bool) where
  abbrev stream : List ℕ
  stream = pes ++ au

  glue :
      (n pos : ℕ) (slice : List ℕ)
      → slice ≡ take n (drop pos stream)
      → slice ++ drop (pos + n) stream ≡ drop pos stream
  glue n pos slice same = rw (same, ← drop-drop pos n stream) (take-append-drop n (drop pos stream))

  -- Enough rounds carry all that is left of the stream.
  pub reassemble-packet_loop :
      (fuel pos : ℕ) (first : Bool) (counter : ℕ)
      → length pes + length au ≤ pos + fuel
      → counter < 16
      → reassemble pid_video first counter
          (packet_loop pes au pcr keyframe fuel pos first counter).0
        ≡ some (drop pos stream, (packet_loop pes au pcr keyframe fuel pos first counter).1)
  unfolding packet_loop reassemble
  reassemble-packet_loop zero pos first counter h c =
      rw (drop_all pos stream (omega (arith, length-append pes au))) refl
  reassemble-packet_loop (suc fuel) pos first counter h c =
      elim (Bool-cases (ltb pos (length pes + length au))) [
        | inr over ↦
            let done : length stream ≤ pos = ground (arith, length-append pes au) in
            rw (over, drop_all pos stream done) refl
        | inl lt ↦
            let left : 0 < length pes + length au - pos = ground arith in
            let f : Field = plan first keyframe (length pes + length au - pos) in
            let p = plan-IsPlan first keyframe (length pes + length au - pos) left in
            let slice : List ℕ = copy_loop pes au f.room pos f.room in
            let same : slice ≡ take f.room (drop pos stream) =
              copy_loop-take pes au f.room pos f.room (omega arith) (omega (arith, p.enough)) in
            let there : f.room ≤ length (drop pos stream) =
              omega (arith, p.enough, length-append pes au, length-drop pos stream) in
            let size : length slice ≡ f.room =
              rw same (length-take f.room (drop pos stream) there) in
            rw
              (
                lt,
                parse_packet-packet first keyframe pcr counter (length pes + length au - pos) f
                    slice p size,
                reassemble-packet_loop fuel (pos + f.room) false ((counter + 1) % 16)
                    (omega (arith, p.some_room)) (omega arith),
              )
              (accept_next first counter (content first keyframe pcr f) slice
                  (drop (pos + f.room) stream)
                  (packet_loop pes au pcr keyframe fuel (pos + f.room) false ((counter + 1) % 16)).1
                  c
                ∙ ap
                    (λ x. some (
                      x,
                      (packet_loop pes au pcr keyframe fuel (pos + f.room) false
                          ((counter + 1) % 16)).1,
                    ))
                    (glue f.room pos slice same))
      ]

-- A player that reads the packets of an access unit, from the continuity counter of 4 bits that the
-- writer had, gets the PES header and then the access unit, byte for byte, in one unit whose first
-- packet starts it, and expects the continuity counter that the writer goes on with.
pub reassemble-emit_pes :
    (au : List ℕ) (pts pcr : ℕ) (keyframe : Bool) (counter : ℕ)
    → counter < 16
    → reassemble pid_video true counter (emit_pes au pts pcr keyframe counter).0
      ≡ some (pes_header pts ++ au, (emit_pes au pts pcr keyframe counter).1)
unfolding emit_pes
reassemble-emit_pes au pts pcr keyframe counter h =
    reassemble-packet_loop (pes_header pts) au pcr keyframe (length (pes_header pts) + length au) 0
      true counter (omega arith) h
    ∙ ap (λ x. some (x, (emit_pes au pts pcr keyframe counter).1))
        (drop-zero (pes_header pts ++ au))
