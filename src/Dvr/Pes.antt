-- ===== src/Dvr/Pes.antt =====
-- The packets of an access unit: `TsWriter::emit_pes` (src/dvr/ts_writer.cpp).
pub mod Copy
pub mod Plan
pub mod Demux
pub mod RoundTrip
pub mod Packets
use pixel_pilot_rk.Common.{
  ℕ, zero, suc, ◌+◌, ◌-◌, ◌*◌, ◌/◌, ◌%◌, ◌^◌, Bool, true, false, ◌&&◌, ◌||◌, List, [], ◌∷◌, ◌++◌,
  ltb, ◌==◌, if◌then◌else◌, length, take, drop, replicate,
}
use pixel_pilot_rk.Dvr.Stamp.{write_timestamp, write_pcr}

-- TS_PACKET_SIZE
abbrev pub ts_packet_size : ℕ
ts_packet_size = 188

-- PID_VIDEO
abbrev pub pid_video : ℕ
pid_video = 0x100

-- The 14 bytes of `pes`; PES_STREAM_ID is 0xE0.
pub pes_header : ℕ → List ℕ
pes_header pts = 0 ∷ 0 ∷ 1 ∷ 0xe0 ∷ 0 ∷ 0 ∷ 0x84 ∷ 0x80 ∷ 5 ∷ write_timestamp 2 pts

-- `af_len`, `af_total` and `room` of a packet.
pub record Field : Type 0 where
  pub af_len : ℕ
  pub af_total : ℕ
  pub room : ℕ

-- `want_pcr` is `first`, and `want_rai` is `first && keyframe`.
abbrev initial_len : Bool → Bool → ℕ
initial_len first keyframe =
    if first || (first && keyframe) then 1 + (if first then 6 else 0) else 0

-- A short tail is padded by the adaptation field, which may have to be created.
abbrev padded : ℕ → ℕ → ℕ → ℕ → Field
padded af_len af_total pad remaining =
    if af_total == 0
    then record { af_len = if pad == 1 then 0 else pad - 1; af_total = pad; room = remaining }
    else record { af_len = af_len + pad; af_total = af_total + pad; room = remaining }

abbrev sized : ℕ → ℕ → ℕ → Field
sized af_len af_total remaining =
    let room : ℕ = ts_packet_size - 4 - af_total in
    if ltb remaining room
    then padded af_len af_total (room - remaining) remaining
    else record { af_len = af_len; af_total = af_total; room = room }

pub plan : Bool → Bool → ℕ → Field
plan first keyframe remaining =
    let len : ℕ = initial_len first keyframe in
    sized len (if len == 0 then 0 else len + 1) remaining

-- The stuffing of an adaptation field with a flags byte.
abbrev stuffing : Bool → Field → ℕ
stuffing first f = f.af_total - 2 - (if first then 6 else 0)

abbrev pub flags : Bool → Bool → ℕ
flags first keyframe = (if first && keyframe then 0x40 else 0) + (if first then 0x10 else 0)

-- The adaptation field behind its length byte, and with it.
pub field_content : Bool → Bool → ℕ → Field → List ℕ
field_content first keyframe pcr f =
    if f.af_len == 0
    then []
    else flags first keyframe
      ∷ ((if first then write_pcr pcr else []) ++ replicate (stuffing first f) 0xff)

pub field_bytes : Bool → Bool → ℕ → Field → List ℕ
field_bytes first keyframe pcr f =
    if f.af_total == 0 then [] else (f.af_len % 256) ∷ field_content first keyframe pcr f

-- A packet with the slice of the stream that it carries.
pub packet : Bool → Bool → ℕ → ℕ → Field → List ℕ → List ℕ
unfolding field_bytes field_content
packet first keyframe pcr counter f slice =
    0x47
    ∷ ((if first then 0x40 else 0) + pid_video / 2 ^ 8 % 32)
    ∷ (pid_video % 256)
    ∷ ((if f.af_total == 0 then 0x10 else 0x30) + counter % 16)
    ∷ (field_bytes first keyframe pcr f ++ slice)

-- `src` and `avail`: what is left of the header, or of the access unit, at a position of the stream.
abbrev pub source : List ℕ → List ℕ → ℕ → List ℕ
source pes au at = if ltb at (length pes) then drop at pes else drop (at - length pes) au

-- The loop that copies `left` bytes from position `at` on, in at most that many rounds.
pub copy_loop : List ℕ → List ℕ → ℕ → ℕ → ℕ → List ℕ
copy_loop pes au zero at left = []
copy_loop pes au (suc fuel) at left =
    let src = source pes au at in
    let n : ℕ = if ltb left (length src) then left else length src in
    let more = take n src ++ copy_loop pes au fuel (at + n) (left - n) in
    if left == 0 then [] else more

-- The loop over the packets, in at most `fuel` rounds; the packets, and `cc_video_` after them.
module _ (pes au : List ℕ) (pcr : ℕ) (keyframe : Bool) where
  abbrev pub total : ℕ
  total = length pes + length au

  pub packet_loop : ℕ → ℕ → Bool → ℕ → List (List ℕ) × ℕ
  unfolding plan packet copy_loop
  packet_loop zero pos first counter = ([], counter)
  packet_loop (suc fuel) pos first counter =
      let f = plan first keyframe (total - pos) in
      let slice = copy_loop pes au f.room pos f.room in
      let more : List (List ℕ) × ℕ =
        let (rest, counter') = packet_loop fuel (pos + f.room) false ((counter + 1) % 16) in
        (packet first keyframe pcr counter f slice ∷ rest, counter') in
      if ltb pos total then more else ([], counter)

-- Each round carries a byte at least, so the length of the stream is fuel enough.
pub emit_pes : List ℕ → ℕ → ℕ → Bool → ℕ → List (List ℕ) × ℕ
unfolding packet_loop pes_header
emit_pes au pts pcr keyframe counter =
    let pes = pes_header pts in
    packet_loop pes au pcr keyframe (length pes + length au) 0 true counter
