-- ===== src/Codec/Packets.antt =====
-- What src/rtp_codec_detector.cpp does with RTP packets.
use pixel_pilot_rk.Common.{
  ℕ, zero, suc, ◌+◌, ◌*◌, ◌/◌, ◌%◌, ◌^◌, ◌<◌, ◌≤◌, ◌≡◌, ◌≢◌, refl, inl, inr, Bool, true, false, not,
  ◌&&◌, ◌||◌, Option, none, some, List, [], ◌∷◌, ltb, leb, ◌==◌, length, drop, arith, Bool-cases,
  get_elem?,
}
use pixel_pilot_rk.Codec.{
  VideoCodec, unknown, h264_found, h265_found, h265_slice, h265_fragment, verdict, detect_rtp_codec,
  payload_offset, classify_from, ◌>>=◌, rtp_classify_codec,
}

unfoldable pub h265_of : ℕ → ℕ → ℕ → Bool
h265_of b0 b1 b2 =
    b0 / 2 ^ 7 % 2 == 0
    && not (b1 % 8 == 0)
    && (h265_slice (b0 / 2 % 64) || (b0 / 2 % 64 == 49 && h265_fragment b2))

some-no : (x : Option VideoCodec) (c : VideoCodec) → x ≡ some c → x ≢ none
some-no x c e f = absurd cc

h265_found-first_bytes :
    (b0 b1 b2 : ℕ) (rest : List ℕ)
    → h265_found b0 b1 (b0 ∷ b1 ∷ b2 ∷ rest) ≡ some (h265_of b0 b1 b2)
unfolding h265_found h265_of
h265_found-first_bytes b0 b1 b2 rest =
    let third : leb 3 (length (b0 ∷ b1 ∷ b2 ∷ rest)) ≡ true = ground arith in
    elim (Bool-cases (b0 / 2 ^ 7 % 2 == 0)) [
      | inr forbidden ↦ rw forbidden refl
      | inl fine ↦ elim (Bool-cases (b1 % 8 == 0)) [
        | inl no_tid ↦ rw (fine, no_tid) refl
        | inr tid ↦ elim (Bool-cases (b0 / 2 % 64 == 49)) [
          | inl fragment ↦ rw (fine, tid, fragment, third) refl
          | inr single ↦ elim (Bool-cases (h265_slice (b0 / 2 % 64))) [
            | inl slice ↦ rw (fine, tid, single, slice) refl
            | inr other ↦ rw (fine, tid, single, other) refl
          ]
        ]
      ]
    ]

-- A payload of 64 bytes at least is judged by its first three.
pub detect-first_bytes :
    (b0 b1 b2 : ℕ) (rest : List ℕ)
    → 61 ≤ length rest
    → detect_rtp_codec (b0 ∷ b1 ∷ b2 ∷ rest)
      ≡ some (verdict (h264_found b0 b1 (length (b0 ∷ b1 ∷ b2 ∷ rest))) (h265_of b0 b1 b2))
unfolding detect_rtp_codec
detect-first_bytes b0 b1 b2 rest h =
    let long : ltb (length (b0 ∷ b1 ∷ b2 ∷ rest)) 64 ≡ false = ground arith in
    rw (long, h265_found-first_bytes b0 b1 b2 rest) refl

detect-short : (payload : List ℕ) → length payload ≤ 63 → detect_rtp_codec payload ≡ some unknown
unfolding detect_rtp_codec
detect-short payload h = let short : ltb (length payload) 64 ≡ true = ground arith in rw short refl

pub detect_rtp_codec-reads : (payload : List ℕ) → detect_rtp_codec payload ≢ none
detect_rtp_codec-reads [] = some-no _ _ (detect-short [] (omega arith))
detect_rtp_codec-reads (a ∷ []) = some-no _ _ (detect-short (a ∷ []) (omega arith))
detect_rtp_codec-reads (a ∷ b ∷ []) = some-no _ _ (detect-short (a ∷ b ∷ []) (omega arith))
detect_rtp_codec-reads (a ∷ b ∷ c ∷ rest) = elim (Bool-cases (leb 61 (length rest))) [
  | inl long ↦ some-no _ _ (detect-first_bytes a b c rest (ground arith))
  | inr short ↦ some-no _ _ (detect-short (a ∷ b ∷ c ∷ rest) (ground arith))
]

-- Bytes inside the buffer are read.
get_elem?-inside : (n : ℕ) (xs : List ℕ) → n < length xs → (x : ℕ) × get_elem? xs n ≡ some x
get_elem?-inside n [] h = absurd (omega arith)
get_elem?-inside zero (x ∷ xs) h = (x, refl)
get_elem?-inside (suc n) (x ∷ xs) h = get_elem?-inside n xs (omega arith)

classify_from-reads : (pkt : List ℕ) (offset : Option ℕ) → classify_from pkt offset ≢ none
classify_from-reads pkt none = some-no _ unknown refl
classify_from-reads pkt (some offset) = elim (Bool-cases (leb (length pkt) offset)) [
  | inl empty ↦ rw empty (some-no _ unknown refl)
  | inr more ↦ rw more (detect_rtp_codec-reads (drop offset pkt))
]

payload_offset-reads : (pkt : List ℕ) → 12 ≤ length pkt → payload_offset pkt ≢ none
unfolding payload_offset
payload_offset-reads [] h = absurd (omega arith)
payload_offset-reads (b0 ∷ rest) h =
    let pkt : List ℕ = b0 ∷ rest in
    let offset : ℕ = 12 + b0 % 16 * 4 in
    elim (Bool-cases (b0 / 2 ^ 4 % 2 == 1)) [
      | inr plain ↦ rw plain (λ e. cc)
      | inl extended ↦ elim (Bool-cases (ltb (length pkt) (offset + 4))) [
        | inl cut ↦ rw (extended, cut) (λ e. cc)
        | inr whole ↦
            let (hi, e) = get_elem?-inside (offset + 2) pkt (ground arith) in
            let (lo, e') = get_elem?-inside (offset + 3) pkt (ground arith) in
            rw (extended, whole, e, e') (λ e. cc)
      ]
    ]

and_then-reads :
    (x : Option (Option ℕ)) (f : Option ℕ → Option VideoCodec)
    → x ≢ none
    → ((o : Option ℕ) → f o ≢ none)
    → (x >>= f) ≢ none
and_then-reads none f h g = absurd (h refl)
and_then-reads (some o) f h g = g o

-- Whatever bytes a packet has, and however few, each byte that is read to classify it is in the buffer.
pub rtp_classify_codec-reads : (pkt : Option (List ℕ)) → rtp_classify_codec pkt ≢ none
unfolding rtp_classify_codec
rtp_classify_codec-reads none = some-no _ unknown refl
rtp_classify_codec-reads (some pkt) = elim (Bool-cases (ltb (length pkt) 12)) [
  | inl short ↦ rw short (some-no _ unknown refl)
  | inr long ↦ rw long (
      and_then-reads (payload_offset pkt) (classify_from pkt)
        (payload_offset-reads pkt (ground arith)) (classify_from-reads pkt))
]
