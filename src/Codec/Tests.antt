-- ===== src/Codec/Tests.antt =====
-- The codec of an RTP stream (src/rtp_codec_detector.cpp): runs, and the theorems at concrete inputs.
use pixel_pilot_rk.Common.{
  ℕ, ◌+◌, ◌*◌, ◌≡◌, ◌≢◌, refl, true, false, inl, inr, none, some, List, [], ◌∷◌, ◌++◌, arith,
  replicate,
}
use pixel_pilot_rk.Codec.{h264, h265, detect_rtp_codec, rtp_classify_codec}
use pixel_pilot_rk.Codec.Packets.{rtp_classify_codec-reads}
use pixel_pilot_rk.Codec.Polling.{Demuxer, Round, timed_out, received, detect_codec}
use pixel_pilot_rk.Codec.Polling.Yields.{Yields}
use pixel_pilot_rk.Codec.Polling.Detected.{Detected, detect_codec-Detected}
use pixel_pilot_rk.Codec.Headers.{IsExtension, rtp_classify_codec-packet}
use pixel_pilot_rk.Codec.Verdicts.{detect-h264, detect-h265}

-- The payload of a parameter set, and the fixed bytes behind the first.
abbrev h265_payload : List ℕ
h265_payload = 0x42 ∷ 1 ∷ 1 ∷ replicate 70 0

abbrev fixed_bytes : List ℕ
fixed_bytes = 97 ∷ 0 ∷ 7 ∷ 0 ∷ 0 ∷ 0 ∷ 0 ∷ 1 ∷ 2 ∷ 3 ∷ 4 ∷ []

rtp_classify_codec-reads_example : rtp_classify_codec (some (0x90 ∷ fixed_bytes)) ≢ none
rtp_classify_codec-reads_example = rtp_classify_codec-reads (some (0x90 ∷ fixed_bytes))

-- A contributing source, and an extension of a word.
rtp_classify_codec-packet_example :
    rtp_classify_codec (
      some (
        (0x91 ∷ (fixed_bytes ++ (9 ∷ 9 ∷ 9 ∷ 9 ∷ [])))
        ++ ((0xbe ∷ 0xde ∷ 0 ∷ 1 ∷ 5 ∷ 6 ∷ 7 ∷ 8 ∷ []) ++ h265_payload)))
    ≡ detect_rtp_codec h265_payload
unfolding IsExtension replicate
rtp_classify_codec-packet_example =
    rtp_classify_codec-packet 0x91 fixed_bytes (9 ∷ 9 ∷ 9 ∷ 9 ∷ [])
      (0xbe ∷ 0xde ∷ 0 ∷ 1 ∷ 5 ∷ 6 ∷ 7 ∷ 8 ∷ []) h265_payload refl refl refl (omega arith)

detect-h265_example : detect_rtp_codec ((2 * 33) ∷ 1 ∷ 1 ∷ replicate 70 0) ≡ some h265
unfolding replicate
detect-h265_example =
    detect-h265 33 1 1 (replicate 70 0) (inr (omega arith, omega arith)) (omega arith) (omega arith)
      (omega arith)

detect-h264_example : detect_rtp_codec ((96 + 7) ∷ 0x42 ∷ 0 ∷ replicate 70 0) ≡ some h264
unfolding replicate
detect-h264_example = detect-h264 7 0x42 0 (replicate 70 0) (inr (inr (inl refl))) (omega arith)

-- A demuxer that hands over one payload for each packet.
abbrev parameter_sets : Demuxer (Unit {0})
parameter_sets = record {
  create = some tt;
  next = λ _ _ results. elim results [ [] ↦ some h265_payload | _ ∷ _ ↦ none ];
  most = λ _ _. 4;
  after = λ d _ _. d;
}

abbrev two_rounds : List Round
two_rounds =
    record { running = true; signal_flag = false; poll = timed_out }
    ∷ record { running = true; signal_flag = false; poll = received (128 ∷ fixed_bytes) }
    ∷ []

detect_codec-Detected_example :
    Yields (detect_codec parameter_sets two_rounds) (Detected parameter_sets two_rounds)
detect_codec-Detected_example = detect_codec-Detected parameter_sets two_rounds
