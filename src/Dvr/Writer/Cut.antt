-- ===== src/Dvr/Writer/Cut.antt =====
-- A recording of src/dvr/ts_writer.cpp that ends early: "everything already flushed is a complete,
-- playable stream".
use pixel_pilot_rk.Common.{
  ℕ, zero, suc, ◌-◌, ◌≤◌, ◌≡◌, ◌≢◌, refl, ap, sym, ◌∙◌, inl, inr, true, false, Option, some, none,
  List, [], ◌∷◌, ◌++◌, String, leb, if◌then◌else◌, length, take, drop, concat, arith, All,
  Bool-cases, take-append-drop, length-take, take_all, take-zero, take_split, take-append_left,
  drop-append_left,
}
use pixel_pilot_rk.Dvr.Files.{Files, World, contents}
use pixel_pilot_rk.Dvr.Pes.{ts_packet_size}
use pixel_pilot_rk.Dvr.Player.{prepend, read_video, packets, play}
use pixel_pilot_rk.Dvr.Player.Units.{and_then, read_video-append, packets-cons}
use pixel_pilot_rk.Dvr.Writer.{Writer}
use pixel_pilot_rk.Dvr.Writer.Recorded.{Recorded}
use pixel_pilot_rk.Dvr.Writer.Playback.{record_to, presented_from, record_to-Recorded}

-- The first `n` bytes of whole packets hold the packets that fit, and the rest of one.
fitting : List (List ℕ) → ℕ → ℕ
fitting [] n = 0
fitting (p ∷ ps) n =
    let more = suc (fitting ps (n - ts_packet_size)) in if leb ts_packet_size n then more else 0

length-take_le : (n : ℕ) (xs : List ℕ) → length (take n xs) ≤ n
unfolding take
length-take_le zero xs = omega arith
length-take_le (suc n) [] = omega arith
length-take_le (suc n) (x ∷ xs) = omega (arith, length-take_le n xs)

take_cons : (n : ℕ) (p : List ℕ) (ps : List (List ℕ)) → take (suc n) (p ∷ ps) ≡ p ∷ take n ps
unfolding take
take_cons n p ps = refl

packets-short : (fuel : ℕ) (xs : List ℕ) → length xs ≤ 187 → packets fuel xs ≡ []
unfolding packets
packets-short zero xs h = refl
packets-short (suc fuel) xs h =
    let short : leb ts_packet_size (length xs) ≡ false = ground arith in rw short refl

packets-take :
    (fuel n : ℕ) (ps : List (List ℕ))
    → All (λ p. length p ≡ ts_packet_size) ps
    → n ≤ fuel
    → packets fuel (take n (concat ps)) ≡ take (fitting ps n) ps
unfolding concat fitting
packets-take fuel n [] h f =
    rw
      (
        take_all n (let none : List ℕ = [] in none) (omega arith),
        take-zero (let none : List (List ℕ) = [] in none),
      )
      (packets-short fuel [] (omega arith))
packets-take zero n (p ∷ ps) h f =
    let short : leb ts_packet_size n ≡ false = ground arith in
    rw (short, take-zero (p ∷ ps))
      (packets-short 0 (take n (p ++ concat ps)) (omega (arith, length-take_le n (p ++ concat ps))))
packets-take (suc fuel) n (p ∷ ps) h f = elim (Bool-cases (leb ts_packet_size n)) [
  | inr short ↦
      rw (short, take-zero (p ∷ ps))
        (packets-short (suc fuel) (take n (p ++ concat ps))
          (ground (arith, length-take_le n (p ++ concat ps))))
  | inl fits ↦
      let enough : ts_packet_size ≤ n = ground arith in
      rw
        (
          fits,
          take_split ts_packet_size n (p ++ concat ps) enough,
          take-append_left ts_packet_size p (concat ps) h.0,
          drop-append_left ts_packet_size p (concat ps) h.0,
          packets-cons fuel p (take (n - ts_packet_size) (concat ps)) h.0,
          packets-take fuel (n - ts_packet_size) ps h.1 (omega arith),
          take_cons (fitting ps (n - ts_packet_size)) p ps,
        )
        refl
]

-- A player of this file gets a beginning of the stream.
pub record PlaysBeginning (stream file : List ℕ) : Type 0 where
  pub beginning : List ℕ
  pub missing : List ℕ
  pub next : ℕ
  pub plays : play file ≡ some (beginning, next)
  pub splits : stream ≡ beginning ++ missing

beginning_of :
    (file stream : List ℕ) (x : Option (List ℕ × ℕ)) (f : ℕ → Option (List ℕ × ℕ)) (c : ℕ)
    → play file ≡ x
    → and_then x f ≡ some (stream, c)
    → PlaysBeginning stream file
beginning_of file stream none f c p e = absurd cc
beginning_of file stream (some (b, n)) f c p e = after_beginning (f n) refl
  where
    after_beginning : (y : Option (List ℕ × ℕ)) → f n ≡ y → PlaysBeginning stream file
    after_beginning none nothing = let lost : prepend b (f n) ≡ none = rw nothing refl in absurd cc
    after_beginning (some (m, n')) there =
        let joined : and_then (some (b, n)) f ≡ prepend b (some (m, n')) =
          ap (λ z. prepend b z) there in
        record { beginning = b; missing = m; next = n; plays = p; splits = cc }

Recorded-cut :
    (s : Writer) (w : World) (stream : List ℕ) (n : ℕ)
    → Recorded s w stream
    → n ≤ length (contents w)
    → PlaysBeginning stream (take n (contents w))
unfolding play
Recorded-cut s w stream n r h =
    let m = fitting r.written n in
    let inside : n ≤ length (concat r.written) = omega (arith, ap length r.contents) in
    let size : length (take n (concat r.written)) ≡ n = length-take n (concat r.written) inside in
    let seen : play (take n (contents w)) ≡ read_video 0 (take m r.written) =
      rw (r.contents, size, packets-take n n r.written r.sizes (omega arith)) refl in
    let all : and_then (read_video 0 (take m r.written)) (λ c. read_video c (drop m r.written))
        ≡ some (stream, s.cc_video) =
      sym (read_video-append 0 (take m r.written) (drop m r.written))
      ∙ ap (λ ps. read_video 0 ps) (take-append-drop m r.written)
      ∙ r.plays in
    beginning_of (take n (contents w)) stream (read_video 0 (take m r.written))
      (λ c. read_video c (drop m r.written)) s.cc_video seen all

-- If all access units were accepted, none of them empty, and the file is cut off at any byte, a player
-- that reads what is left gets a beginning of the stream and meets no gap in the continuity counters.
pub record_to-PlaysBeginning :
    (k : Files) (path : String) (items : List (List ℕ × ℕ)) (s : Writer) (w : World) (n : ℕ)
    → All (λ item. length item.0 ≢ 0) items
    → (record_to k path items s w).0.0 ≡ true
    → n ≤ length (contents (record_to k path items s w).1)
    → PlaysBeginning (presented_from 0 items) (take n (contents (record_to k path items s w).1))
record_to-PlaysBeginning k path items s w n nz ok h =
    Recorded-cut _ _ (presented_from 0 items) n (record_to-Recorded k path items s w nz ok) h
