-- ===== src/Codec.antt =====
-- The codec of an RTP stream, from its packets: src/rtp_codec_detector.cpp. The bytes are those of
-- the buffer, `len` is their number, and a read outside the buffer has no result.
pub mod Packets
pub mod Headers
pub mod Verdicts
pub mod Polling
mod Tests
use pixel_pilot_rk.Common.{
  ℕ, zero, suc, ◌+◌, ◌-◌, ◌*◌, ◌/◌, ◌%◌, ◌^◌, Bool, true, false, not, ◌&&◌, ◌||◌, Option, none,
  some, List, [], ◌∷◌, ltb, leb, ◌==◌, if◌then◌else◌, length, drop, get_elem?,
}

-- common.h
pub data VideoCodec : Type 0 where
  unknown h264 h265 : VideoCodec

infixl 5 ◌>>=◌
abbrev pub ◌>>=◌ : {A B : Type 0} → Option A → (A → Option B) → Option B
◌>>=◌ none f = none
◌>>=◌ (some a) f = f a

-- `h264_found`: the first byte has `h264_f` and `h264_type`, and the second is the header of a
-- fragmentation unit.
pub h264_found : ℕ → ℕ → ℕ → Bool
h264_found b0 b1 payload_len =
    let h264_type : ℕ = b0 % 32 in
    let fu_type : ℕ = b1 % 32 in
    b0 / 2 ^ 7 % 2 == 0
    && ((h264_type == 1 || h264_type == 5 || h264_type == 7 || h264_type == 8)
        || ((h264_type == 28 || h264_type == 29)
            && leb 2 payload_len
            && (b1 / 2 ^ 7 % 2 == 1 && b1 / 2 ^ 6 % 2 == 0 && (fu_type == 1 || fu_type == 5))))

-- `h265_found` of a single NAL unit, and of a fragmentation unit by its header.
pub h265_slice : ℕ → Bool
h265_slice h265_type = leb h265_type 21 || h265_type == 32 || h265_type == 33 || h265_type == 34

pub h265_fragment : ℕ → Bool
h265_fragment fu_hdr = fu_hdr / 2 ^ 7 % 2 == 1 && fu_hdr / 2 ^ 6 % 2 == 0 && leb (fu_hdr % 64) 21

pub h265_found : ℕ → ℕ → List ℕ → Option Bool
unfolding h265_slice h265_fragment
h265_found b0 b1 payload =
    let h265_type : ℕ = b0 / 2 % 64 in
    if b0 / 2 ^ 7 % 2 == 0 && not (b1 % 8 == 0)
    then if h265_type == 49 && leb 3 (length payload)
      then (do fu_hdr ← get_elem? payload 2; some (h265_slice h265_type || h265_fragment fu_hdr))
      else some (h265_slice h265_type)
    else some false

abbrev pub verdict : Bool → Bool → VideoCodec
verdict is_h264 is_h265 =
    if is_h264 && not is_h265 then h264 else if is_h265 && not is_h264 then h265 else unknown

pub detect_rtp_codec : List ℕ → Option VideoCodec
unfolding h264_found h265_found
detect_rtp_codec payload = if ltb (length payload) 64 then some unknown else (do
  b0 ← get_elem? payload 0
  b1 ← get_elem? payload 1
  is_h265 ← h265_found b0 b1 payload
  some (verdict (h264_found b0 b1 (length payload)) is_h265))

-- `payload_offset`, unless the extension is cut off.
pub payload_offset : List ℕ → Option (Option ℕ)
payload_offset pkt = do
  b0 ← get_elem? pkt 0
  let offset : ℕ = 12 + b0 % 16 * 4
  if b0 / 2 ^ 4 % 2 == 1
      then if ltb (length pkt) (offset + 4) then some none else (do
        hi ← get_elem? pkt (offset + 2)
        lo ← get_elem? pkt (offset + 3)
        some (some (offset + (4 + (hi * 2 ^ 8 + lo) * 4))))
      else some (some offset)

abbrev pub classify_from : List ℕ → Option ℕ → Option VideoCodec
classify_from pkt none = some unknown
classify_from pkt (some offset) =
    if leb (length pkt) offset then some unknown else detect_rtp_codec (drop offset pkt)

-- A null pointer is `none`.
pub rtp_classify_codec : Option (List ℕ) → Option VideoCodec
unfolding payload_offset detect_rtp_codec
rtp_classify_codec none = some unknown
rtp_classify_codec (some pkt) =
    if ltb (length pkt) 12 then some unknown else payload_offset pkt >>= classify_from pkt

-- The result, which is whether demuxing stops, and `*codec_ptr` after it.
abbrev pub detected : VideoCodec → VideoCodec → Bool × VideoCodec
detected codec_ptr unknown = (false, codec_ptr)
detected codec_ptr h264 = (true, h264)
detected codec_ptr h265 = (true, h265)

pub detect_codec_cb : VideoCodec → List ℕ → Option (Bool × VideoCodec)
unfolding detect_rtp_codec
detect_codec_cb codec_ptr packet =
    detect_rtp_codec packet >>= λ codec. some (detected codec_ptr codec)
