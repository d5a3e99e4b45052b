-- ===== src/Dvr/Pes/Plan.antt =====
-- How src/dvr/ts_writer.cpp divides a packet between adaptation field and payload.
use pixel_pilot_rk.Common.{
  ℕ, ◌+◌, ◌-◌, ◌≤◌, ◌<◌, ◌≡◌, ◌⊎◌, inl, inr, refl, ◌≢◌, Bool, true, false, ◌==◌, arith, length,
  List, length-append, length-replicate, replicate, Bool-cases,
}
use pixel_pilot_rk.Dvr.Stamp.{write_pcr}
use pixel_pilot_rk.Dvr.Pes.{Field, plan, field_content, field_bytes, packet, ts_packet_size}

-- The packet is full, carries a byte at least, and its field has the length that it says.
pub record IsPlan (first : Bool) (remaining : ℕ) (f : Field) : Type 0 where
  pub some_room : 0 < f.room
  pub enough : f.room ≤ remaining
  pub full : 4 + f.af_total + f.room ≡ 188
  pub said : (f.af_total ≡ 0) ⊎ (f.af_total ≡ f.af_len + 1)
  pub clock : first ≡ true → 8 ≤ f.af_total

pub plan-IsPlan :
    (first keyframe : Bool) (remaining : ℕ)
    → 0 < remaining
    → IsPlan first remaining (plan first keyframe remaining)
unfolding plan
plan-IsPlan true true remaining h = ground arith
plan-IsPlan true false remaining h = ground arith
plan-IsPlan false keyframe remaining h = ground arith

pub length-write_pcr : (pcr : ℕ) → length (write_pcr pcr) ≡ 6
unfolding write_pcr
length-write_pcr pcr = refl

-- The stuffing fills the field.
pub length-field_content :
    (first keyframe : Bool) (pcr remaining : ℕ) (f : Field)
    → IsPlan first remaining f
    → f.af_total ≢ 0
    → length (field_content first keyframe pcr f) ≡ f.af_len
unfolding field_content
length-field_content true keyframe pcr remaining f h nz = ground (
  arith,
  h.clock refl,
  length-append (write_pcr pcr) (replicate (f.af_total - 2 - 6) 0xff),
  length-write_pcr pcr,
  length-replicate (f.af_total - 2 - 6) (let b : ℕ = 0xff in b),
)
length-field_content false keyframe pcr remaining f h nz =
    ground (arith, length-replicate (f.af_total - 2 - 0) (let b : ℕ = 0xff in b))

-- A packet has 188 bytes.
pub length-packet :
    (first keyframe : Bool) (pcr counter remaining : ℕ) (f : Field) (slice : List ℕ)
    → IsPlan first remaining f
    → length slice ≡ f.room
    → length (packet first keyframe pcr counter f slice) ≡ ts_packet_size
unfolding packet field_bytes
length-packet first keyframe pcr counter remaining f slice h e =
    elim (Bool-cases (f.af_total == 0)) [
      | inl z ↦ rw z (ground (arith, h.full))
      | inr nz ↦ rw nz (
          ground (
            arith,
            h.full,
            h.said,
            length-append (field_content first keyframe pcr f) slice,
            length-field_content first keyframe pcr remaining f h (ground arith),
          ))
    ]
