-- ===== src/Codec/Polling.antt =====
-- `RtpCodecDecoder` (src/rtp_codec_detector.cpp): the loop of `detect_codec`, which polls a socket and
-- feeds the packets to librtp's demuxer until a payload tells the codec.
pub mod Yields
pub mod Detected
use pixel_pilot_rk.Common.{
  ℕ, zero, suc, Bool, true, false, not, ◌||◌, Option, none, some, List, [], ◌∷◌, if◌then◌else◌,
}
use pixel_pilot_rk.Codec.{VideoCodec, unknown, h264, h265, ◌>>=◌, detect_codec_cb}

-- librtp's demuxer, by what it does with the packets of one `rtp_demuxer_input`: the payload that it
-- hands to the callback next, by what the callback returned in this call so far (newest first), how many
-- at most, and its state behind the call. NULL from `rtp_demuxer_create` is `none`.
pub record Demuxer (D : Type 0) : Type 0 where
  pub create : Option D
  pub next : D → List ℕ → List Bool → Option (List ℕ)
  pub most : D → List ℕ → ℕ
  pub after : D → List ℕ → List Bool → D

-- What `poll` and `recvfrom` answer: EINTR, another error, nothing in time, no POLLIN, an error of
-- `recvfrom`, or the bytes that are in the buffer.
pub data Poll : Type 0 where
  interrupted poll_failed timed_out no_input receive_failed : Poll
  received : List ℕ → Poll

-- `m_running` and `signal_flag` at the test of the loop, and the answers behind it.
pub record Round : Type 0 where
  pub running : Bool
  pub signal_flag : Bool
  pub poll : Poll

-- The rounds are over, and the loop still polls; or the function has returned.
pub data Detection : Type 0 where
  polling : Detection
  returned : VideoCodec → Detection

pub is_known : VideoCodec → Bool
is_known unknown = false
is_known h264 = true
is_known h265 = true

-- `m_running`, and the member `detected_codec`, which the local variable of `detect_codec` hides.
pub record RtpCodecDecoder : Type 0 where
  pub detected_codec : VideoCodec
  pub m_running : Bool

pub get_detected_codec : RtpCodecDecoder → VideoCodec
get_detected_codec r = r.detected_codec

-- Whether the loop breaks, with the demuxer and `detected_codec`.
pub record Fed (D : Type 0) : Type 0 where
  pub broken : Bool
  pub demuxer : D
  pub codec : VideoCodec

module _ {D : Type 0} (x : Demuxer D) where
  -- The callbacks of one call, at most as many as the first argument.
  pub feed : ℕ → D → List ℕ → List Bool → VideoCodec → Option (Fed D)
  feed zero d pkt results codec =
      some (record { broken = false; demuxer = x.after d pkt results; codec = codec })
  feed (suc n) d pkt results codec = elim (x.next d pkt results) [
    | none ↦ some (record { broken = false; demuxer = x.after d pkt results; codec = codec })
    | some payload ↦
        (detect_codec_cb codec payload >>= λ (stop, codec'). feed n d pkt (stop ∷ results) codec')
  ]

  -- The body of the loop.
  pub receive : Poll → D → VideoCodec → Option (Fed D)
  unfolding feed
  receive poll_failed d codec = some (record { broken = true; demuxer = d; codec = codec })
  receive (received (b ∷ bytes)) d codec = feed (x.most d (b ∷ bytes)) d (b ∷ bytes) [] codec
  receive _ d codec = some (record { broken = false; demuxer = d; codec = codec })

  pub poll_loop : List Round → D → VideoCodec → Option Detection
  unfolding receive is_known
  poll_loop [] d codec = some (if is_known codec then returned codec else polling)
  poll_loop (r ∷ rounds) d codec = elim (is_known codec || not r.running || r.signal_flag) [
    | true ↦ some (returned codec)
    | false ↦
        (receive r.poll d codec >>= λ f. elim f.broken [
          | true ↦ some (returned f.codec)
          | false ↦ poll_loop rounds f.demuxer f.codec
        ])
  ]

  -- `rtp_demuxer_destroy` has no result. The member stays as it is.
  pub detect_codec : List Round → Option Detection
  unfolding poll_loop
  detect_codec rounds = elim x.create [
    | none ↦ some (returned unknown)
    | some d ↦ poll_loop rounds d unknown
  ]
