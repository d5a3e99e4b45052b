-- ===== src/Codec/Polling/Detected.antt =====
-- What `detect_codec` (src/rtp_codec_detector.cpp) returns, and when.
use pixel_pilot_rk.Common.{
  ℕ, zero, suc, ◌≡◌, ◌≢◌, ◌⊎◌, arith, inl, inr, refl, ◌∙◌, ap, Bool, true, false, not, ◌||◌, none,
  some, List, [], ◌∷◌, Bool-cases, Option-cases,
}
use pixel_pilot_rk.Codec.{
  VideoCodec, unknown, h264, h265, detect_rtp_codec, detect_codec_cb, detected,
}
use pixel_pilot_rk.Codec.Packets.{detect_rtp_codec-reads}
use pixel_pilot_rk.Codec.Polling.{
  Demuxer, Fed, Poll, interrupted, poll_failed, timed_out, no_input, receive_failed, received,
  Round, Detection, polling, returned, feed, receive, poll_loop, detect_codec, is_known,
}
use pixel_pilot_rk.Codec.Polling.Yields.{
  Yields, Yields->>=, Yields-mono, Yields-branch, Yields-given,
}

-- The loop goes on behind a round.
abbrev pub GoesOn : Round → Type 0
GoesOn r = (r.running ≡ true) × (r.signal_flag ≡ false) × (r.poll ≢ poll_failed)

abbrev pub Stops : Round → Type 0
Stops r = (r.running ≡ false) ⊎ (r.signal_flag ≡ true) ⊎ (r.poll ≡ poll_failed)

-- Of what two payloads tell, the later counts, unless it tells nothing.
abbrev pub later : VideoCodec → VideoCodec → VideoCodec
later c unknown = c
later c h264 = h264
later c h265 = h265

-- What the last payload that tells anything tells.
abbrev pub last_told : List VideoCodec → VideoCodec
last_told [] = unknown
last_told (c ∷ cs) = later c (last_told cs)

-- A payload that tells the codec makes the callback answer 1.
abbrev pub answer : VideoCodec → Bool
answer unknown = false
answer h264 = true
answer h265 = true

module _ {D : Type 0} (x : Demuxer D) where
  -- In one call the demuxer hands over payloads that tell `cs`, in this order, at most `n`, and is `d'`
  -- behind it; `results` are the answers so far.
  abbrev pub Hands : ℕ → D → List ℕ → List Bool → List VideoCodec → D → Type 0
  Hands zero d pkt results cs d' = (cs ≡ []) × (d' ≡ x.after d pkt results)
  Hands (suc n) d pkt results [] d' = (x.next d pkt results ≡ none) × (d' ≡ x.after d pkt results)
  Hands (suc n) d pkt results (c ∷ cs) d' =
      ((payload : List ℕ) × (x.next d pkt results ≡ some payload)
        × (detect_rtp_codec payload ≡ some c))
      × Hands n d pkt (answer c ∷ results) cs d'

  -- What the payloads of a round tell: only a packet with bytes has any.
  abbrev pub Hears : Poll → D → List VideoCodec → D → Type 0
  Hears (received (b ∷ bytes)) d cs d' = Hands (x.most d (b ∷ bytes)) d (b ∷ bytes) [] cs d'
  Hears _ d cs d' = (cs ≡ []) × (d' ≡ d)

  -- The rounds up to the first that stops the loop or that tells a codec; without one it still polls.
  abbrev pub Detects : List Round → D → Detection → Type 0
  Detects [] d v = v ≡ polling
  Detects (r ∷ rounds) d v =
      (Stops r × (v ≡ returned unknown))
      ⊎ (GoesOn r
          × ((cs : List VideoCodec) × (d' : D) × Hears r.poll d cs d'
              × (((last_told cs ≢ unknown) × (v ≡ returned (last_told cs)))
                  ⊎ ((last_told cs ≡ unknown) × Detects rounds d' v))))

flags_set :
    (b running signal : Bool)
    → (b || not running || signal) ≡ false
    → (running ≡ true) × (signal ≡ false)
flags_set true running signal e = absurd (cc)
flags_set false true signal e = (refl, e)
flags_set false false signal e = absurd (cc)

known : (c : VideoCodec) → is_known c ≡ true → c ≢ unknown
unfolding is_known
known unknown h e = cc
known h264 h e = cc
known h265 h e = cc

-- Why a loop ends by its test.
ended :
    (c : VideoCodec) (r : Round)
    → (is_known c || not r.running || r.signal_flag) ≡ true
    → c ≡ unknown
    → Stops r
ended c r h e = elim (Bool-cases (is_known c)) [
  | inl k ↦ absurd (known c k e)
  | inr n ↦ elim (Bool-cases r.running) [
    | inr stop ↦ inl stop
    | inl on ↦ inr (inl (ground (arith, h, n, on)))
  ]
]

later-unknown : (c : VideoCodec) → later unknown c ≡ c
later-unknown unknown = refl
later-unknown h264 = refl
later-unknown h265 = refl

later_assoc : (a b c : VideoCodec) → later (later a b) c ≡ later a (later b c)
later_assoc a b unknown = refl
later_assoc a b h264 = refl
later_assoc a b h265 = refl

told : (old c : VideoCodec) → detected old c ≡ (answer c, later old c)
told old unknown = refl
told old h264 = refl
told old h265 = refl

callback :
    (old : VideoCodec) (payload : List ℕ)
    → Yields (detect_codec_cb old payload) (λ r.
      (c : VideoCodec) × (detect_rtp_codec payload ≡ some c) × (r ≡ (answer c, later old c)))
unfolding detect_codec_cb
callback old payload = elim (Option-cases (detect_rtp_codec payload)) [
  | inl e ↦ absurd (detect_rtp_codec-reads payload e)
  | inr (c, e) ↦ rw e (c, refl, told old c)
]

module _ {D : Type 0} (x : Demuxer D) where
  feed-Hands :
      (n : ℕ) (d : D) (pkt : List ℕ) (results : List Bool) (codec : VideoCodec)
      → Yields (feed x n d pkt results codec) (λ f.
        (f.broken ≡ false)
        × ((cs : List VideoCodec) × Hands x n d pkt results cs f.demuxer
            × (f.codec ≡ later codec (last_told cs))))
  unfolding feed
  feed-Hands zero d pkt results codec = (refl, ([], (refl, refl), refl))
  feed-Hands (suc n) d pkt results codec =
      Yields-given _ (x.next d pkt results) _ _ (λ e. (refl, ([], (e, refl), refl)))
        λ payload e.
          Yields->>= (detect_codec_cb codec payload) _ _ _ (callback codec payload)
            λ r (c, told_c, q). rw q (
              Yields-mono (feed x n d pkt (answer c ∷ results) (later codec c)) _ _
                (feed-Hands n d pkt (answer c ∷ results) (later codec c))
                (λ f (b, (cs, hands, g)). (
                  b,
                  (c ∷ cs, ((payload, e, told_c), hands), g ∙ later_assoc codec c (last_told cs)),
                )))

  -- What a round makes of the local variable.
  Received : Poll → D → VideoCodec → Fed D → Type 0
  Received p d codec f =
      ((p ≡ poll_failed) × (f.broken ≡ true) × (f.codec ≡ codec))
      ⊎ ((p ≢ poll_failed)
          × (f.broken ≡ false)
          × ((cs : List VideoCodec) × Hears x p d cs f.demuxer
              × (f.codec ≡ later codec (last_told cs))))

  receive-Received :
      (p : Poll) (d : D) (codec : VideoCodec) → Yields (receive x p d codec) (Received p d codec)
  unfolding receive Received
  receive-Received poll_failed d codec = inl (refl, refl, refl)
  receive-Received interrupted d codec = inr ((λ e. cc), refl, ([], (refl, refl), refl))
  receive-Received timed_out d codec = inr ((λ e. cc), refl, ([], (refl, refl), refl))
  receive-Received no_input d codec = inr ((λ e. cc), refl, ([], (refl, refl), refl))
  receive-Received receive_failed d codec = inr ((λ e. cc), refl, ([], (refl, refl), refl))
  receive-Received (received []) d codec = inr ((λ e. cc), refl, ([], (refl, refl), refl))
  receive-Received (received (b ∷ bytes)) d codec =
      Yields-mono (feed x (x.most d (b ∷ bytes)) d (b ∷ bytes) [] codec) _ _
        (feed-Hands (x.most d (b ∷ bytes)) d (b ∷ bytes) [] codec)
        (λ f (o, h). inr ((λ e. cc), o, h))

  -- The loop with what the last round told.
  GoesOnTold : List Round → D → VideoCodec → Detection → Type 0
  GoesOnTold rounds d c v =
      ((c ≢ unknown) × (v ≡ returned c)) ⊎ ((c ≡ unknown) × Detects x rounds d v)

  poll_loop-known :
      (rounds : List Round) (d : D) (c : VideoCodec)
      → ((d : D) → Yields (poll_loop x rounds d unknown) (Detects x rounds d))
      → Yields (poll_loop x rounds d c) (GoesOnTold rounds d c)
  unfolding poll_loop is_known GoesOnTold
  poll_loop-known rounds d unknown ih =
      Yields-mono (poll_loop x rounds d unknown) _ _ (ih d) (λ v h. inr (refl, h))
  poll_loop-known [] d h264 ih = inl ((λ e. cc), refl)
  poll_loop-known (r ∷ rounds) d h264 ih = inl ((λ e. cc), refl)
  poll_loop-known [] d h265 ih = inl ((λ e. cc), refl)
  poll_loop-known (r ∷ rounds) d h265 ih = inl ((λ e. cc), refl)

  poll_loop-Detects :
      (rounds : List Round) (d : D) → Yields (poll_loop x rounds d unknown) (Detects x rounds d)
  unfolding poll_loop Received GoesOnTold
  poll_loop-Detects [] d = refl
  poll_loop-Detects (r ∷ rounds) d =
      Yields-branch _ (is_known unknown || not r.running || r.signal_flag) _ _
        (λ e. inl (ended unknown r e refl, refl))
        λ e.
          Yields->>= (receive x r.poll d unknown) _ _ _ (receive-Received r.poll d unknown) λ f h.
            elim h [
              | inl (p, b, c) ↦ rw b (inl (inr (inr p), ap returned c))
              | inr (p, b, (cs, hears, c)) ↦
                  let told_c : f.codec ≡ last_told cs = c ∙ later-unknown (last_told cs) in
                  let (on, no_signal) = flags_set (is_known unknown) r.running r.signal_flag e in
                  rw b (
                    Yields-mono (poll_loop x rounds f.demuxer f.codec) _ _
                      (poll_loop-known rounds f.demuxer f.codec (poll_loop-Detects rounds))
                      (λ v n. inr ((on, no_signal, p), (cs, f.demuxer, hears, rw told_c at n))))
            ]

abbrev pub Detected : {D : Type 0} → Demuxer D → List Round → Detection → Type 0
Detected {D} x rounds v =
    ((x.create ≡ none) × (v ≡ returned unknown))
    ⊎ ((d : D) × (x.create ≡ some d) × Detects x rounds d v)

-- Whatever the socket and the demuxer do, `detect_codec` reads no byte outside a payload. Without a
-- demuxer it returns the unknown codec. Else it goes by the first round in which `m_running` was cleared,
-- a signal had come or `poll` failed, or in which some payload that the demuxer handed over tells a
-- codec: of such a round it returns the unknown codec in the first three cases, and in the last the codec
-- that the last telling payload of the round tells. Without such a round it still polls.
pub detect_codec-Detected :
    {D : Type 0} (x : Demuxer D) (rounds : List Round)
    → Yields (detect_codec x rounds) (Detected x rounds)
unfolding detect_codec
detect_codec-Detected x rounds =
    Yields-given _ x.create _ _ (λ e. inl (e, refl))
      (λ d e.
        Yields-mono (poll_loop x rounds d unknown) _ _ (poll_loop-Detects x rounds d)
          (λ v g. inr (d, e, g)))
