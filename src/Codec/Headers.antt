-- ===== src/Codec/Headers.antt =====
-- The header of an RTP packet, RFC 3550, 5.1 and 5.3.1, as src/rtp_codec_detector.cpp passes over it.
use pixel_pilot_rk.Common.{
  ℕ, zero, suc, ◌+◌, ◌*◌, ◌/◌, ◌%◌, ◌^◌, ◌<◌, ◌≡◌, refl, ap, sym, Bool, true, false, some, List, [],
  ◌∷◌, ◌++◌, ltb, leb, ◌==◌, length, drop, arith, get_elem?, length-append, drop-append_left,
}
use mathlib.Core.List.{append_assoc}
use pixel_pilot_rk.Codec.{detect_rtp_codec, payload_offset, rtp_classify_codec}

get_elem?-drop :
    (n : ℕ) (xs ys : List ℕ) (m : ℕ) → length xs ≡ m → get_elem? (xs ++ ys) (m + n) ≡ get_elem? ys n
get_elem?-drop n [] ys zero h = let e : 0 + n ≡ n = omega arith in rw e refl
get_elem?-drop n [] ys (suc m) h = absurd (omega arith)
get_elem?-drop n (x ∷ xs) ys zero h = absurd (omega arith)
get_elem?-drop n (x ∷ xs) ys (suc m) h =
    let e : suc m + n ≡ suc (m + n) = omega arith in rw e (get_elem?-drop n xs ys m (omega arith))

-- With the extension bit, 4 bytes, the last two of which count the words of 4 bytes that follow;
-- without it, nothing.
unfoldable pub IsExtension : Bool → List ℕ → Type 0
IsExtension false ext = length ext ≡ 0
IsExtension true (p0 ∷ p1 ∷ hi ∷ lo ∷ words) = length words ≡ (hi * 2 ^ 8 + lo) * 4
IsExtension true _ = ⊥

module _ (b0 : ℕ) (fixed csrcs : List ℕ) where
  abbrev front : List ℕ
  front = b0 ∷ (fixed ++ csrcs)

  payload_offset-packet :
      (x : Bool) (ext payload : List ℕ)
      → (b0 / 2 ^ 4 % 2 == 1) ≡ x
      → length front ≡ 12 + b0 % 16 * 4
      → IsExtension x ext
      → payload_offset (front ++ (ext ++ payload)) ≡ some (some (12 + b0 % 16 * 4 + length ext))
  unfolding payload_offset IsExtension
  payload_offset-packet false [] payload b f e = rw b (ap (λ n. some (some n)) (omega arith))
  payload_offset-packet false (x ∷ ext) payload b f e = absurd (omega arith)
  payload_offset-packet true (p0 ∷ p1 ∷ hi ∷ lo ∷ words) payload b f e =
      let offset : ℕ = 12 + b0 % 16 * 4 in
      let rest : List ℕ = p0 ∷ p1 ∷ hi ∷ lo ∷ (words ++ payload) in
      let whole : ltb (length (front ++ rest)) (offset + 4) ≡ false =
        ground (arith, f, length-append front rest) in
      rw (b, whole, get_elem?-drop 2 front rest offset f, get_elem?-drop 3 front rest offset f)
        (ap (λ n. some (some n)) (omega (arith, e)))
  payload_offset-packet true [] payload b f e = absurd e
  payload_offset-packet true (x ∷ []) payload b f e = absurd e
  payload_offset-packet true (x ∷ y ∷ []) payload b f e = absurd e
  payload_offset-packet true (x ∷ y ∷ z ∷ []) payload b f e = absurd e

  -- A packet with a payload is classified as its payload is, whatever its header: behind the 12 fixed
  -- bytes as many contributing sources of 4 bytes as the first byte counts and, if its bit is set, an
  -- extension with as many words as it counts.
  pub rtp_classify_codec-packet :
      (ext payload : List ℕ)
      → length fixed ≡ 11
      → length csrcs ≡ b0 % 16 * 4
      → IsExtension (b0 / 2 ^ 4 % 2 == 1) ext
      → 0 < length payload
      → rtp_classify_codec (some (front ++ (ext ++ payload))) ≡ detect_rtp_codec payload
  unfolding rtp_classify_codec
  rtp_classify_codec-packet ext payload h c e p =
      let size : length front ≡ 12 + b0 % 16 * 4 = omega (arith, h, c, length-append fixed csrcs) in
      let before : length (front ++ ext) ≡ 12 + b0 % 16 * 4 + length ext =
        omega (arith, size, length-append front ext) in
      let joined : front ++ (ext ++ payload) ≡ (front ++ ext) ++ payload =
        sym (append_assoc front ext payload) in
      let all = length-append (front ++ ext) payload in
      let long : ltb (length (front ++ (ext ++ payload))) 12 ≡ false =
        ground (arith, all, before, ap length joined) in
      let more : leb (length (front ++ (ext ++ payload))) (12 + b0 % 16 * 4 + length ext) ≡ false =
        ground (arith, all, before, ap length joined) in
      let behind : drop (12 + b0 % 16 * 4 + length ext) (front ++ (ext ++ payload)) ≡ payload =
        rw joined
          (drop-append_left (12 + b0 % 16 * 4 + length ext) (front ++ ext) payload before) in
      rw (long, payload_offset-packet (b0 / 2 ^ 4 % 2 == 1) ext payload refl size e, more, behind)
        refl
