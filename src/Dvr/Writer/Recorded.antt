-- ===== src/Dvr/Writer/Recorded.antt =====
-- What the file of src/dvr/ts_writer.cpp holds between two access units.
use pixel_pilot_rk.Common.{
  ℕ, ◌+◌, ◌<◌, ◌≡◌, ◌≢◌, refl, ap, sym, ◌∙◌, inl, inr, Bool, true, false, some, List, [], ◌∷◌, ◌++◌,
  ◌==◌, length, take, concat, arith, All, Bool-cases, take_all, All-append, concat-append,
}
use pixel_pilot_rk.Dvr.Files.{Files, World, wrote, contents}
use pixel_pilot_rk.Dvr.Stamp.{stamp, pts_preroll_90k}
use pixel_pilot_rk.Dvr.Keyframe.{au_is_keyframe}
use pixel_pilot_rk.Dvr.Section.Reading.{emit_psi-sizes}
use pixel_pilot_rk.Dvr.Pes.Packets.{emit_pes-sizes, emit_pes-counter}
use pixel_pilot_rk.Dvr.Pes.RoundTrip.{reassemble-emit_pes}
use pixel_pilot_rk.Dvr.Writer.Steps.{chunk, sent, after_write, write_nal-sent, write_nal-short}
use pixel_pilot_rk.Dvr.Writer.Sync.{Kept, sync_if_due-Kept}
use pixel_pilot_rk.Dvr.Pes.{pes_header, ts_packet_size}
use pixel_pilot_rk.Dvr.Player.{read_video}
use pixel_pilot_rk.Dvr.Player.Units.{read_video-append, read_video-reassemble, read_video-emit_psi}
use pixel_pilot_rk.Dvr.Writer.{Writer, tables, pictures, muxed, write_nal, wants_psi}

-- What a player makes of an access unit at a time: its PES header, and its bytes.
abbrev pub presented : ℕ → List ℕ → List ℕ
presented ticks au = pes_header (stamp (ticks + pts_preroll_90k)) ++ au

tables-sizes :
    (s : Writer) (keyframe : Bool) → All (λ p. length p ≡ ts_packet_size) (tables s keyframe)
tables-sizes s keyframe = elim (Bool-cases (wants_psi s keyframe)) [
  | inl due ↦ rw due (emit_psi-sizes s.cc_pat s.cc_pmt)
  | inr early ↦ rw early tt
]

chunk-sizes : (s : Writer) (au : List ℕ) → All (λ p. length p ≡ ts_packet_size) (chunk s au)
chunk-sizes s au =
    All-append (λ p. length p ≡ ts_packet_size) (tables s (au_is_keyframe au)) (pictures s au).0
      (tables-sizes s (au_is_keyframe au)) (emit_pes-sizes au _ _ (au_is_keyframe au) s.cc_video)

read_video-tables :
    (s : Writer) (keyframe : Bool) (counter : ℕ)
    → read_video counter (tables s keyframe) ≡ some ([], counter)
unfolding read_video
read_video-tables s keyframe counter = elim (Bool-cases (wants_psi s keyframe)) [
  | inl due ↦ rw due (read_video-emit_psi counter s.cc_pat s.cc_pmt)
  | inr early ↦ rw early refl
]

read_video-pictures :
    (s : Writer) (au : List ℕ)
    → s.cc_video < 16
    → read_video s.cc_video (pictures s au).0 ≡ some (presented s.media_ticks au, (pictures s au).1)
read_video-pictures s au h = read_video-reassemble true s.cc_video (pictures s au).0 _ (
    reassemble-emit_pes au (stamp (s.media_ticks + pts_preroll_90k)) (stamp s.media_ticks)
      (au_is_keyframe au) s.cc_video h)

read_video-chunk :
    (s : Writer) (au : List ℕ)
    → s.cc_video < 16
    → read_video s.cc_video (chunk s au) ≡ some (presented s.media_ticks au, (pictures s au).1)
read_video-chunk s au h =
    rw
      (
        read_video-append s.cc_video (tables s (au_is_keyframe au)) (pictures s au).0,
        read_video-tables s (au_is_keyframe au) s.cc_video,
        read_video-pictures s au h,
      )
      refl

-- The file has packets of 188 bytes, and a player that reads them gets these bytes, and expects the
-- counter that the writer goes on with.
pub record Recorded (s : Writer) (w : World) (bytes : List ℕ) : Type 0 where
  pub is_open : s.is_open ≡ true
  pub video_started : s.video_started ≡ true
  pub counter : s.cc_video < 16
  pub written : List (List ℕ)
  pub sizes : All (λ p. length p ≡ ts_packet_size) written
  pub contents : contents w ≡ concat written
  pub plays : read_video 0 written ≡ some (bytes, s.cc_video)

-- A recording goes on if what a sync leaves is left.
pub Recorded-sync :
    (s s' : Writer) (w w' : World) (bytes : List ℕ)
    → Kept s s' w w'
    → Recorded s w bytes
    → Recorded s' w' bytes
Recorded-sync s s' w w' bytes h r = record {
  is_open = h.is_open ∙ r.is_open;
  video_started = h.video_started ∙ r.video_started;
  counter = rw h.cc_video r.counter;
  written = r.written;
  sizes = r.sizes;
  contents = h.contents ∙ r.contents;
  plays = rw h.cc_video r.plays;
}

Recorded-chunk :
    (s s' : Writer) (w w' : World) (bytes au : List ℕ)
    → s'.is_open ≡ s.is_open
    → s'.video_started ≡ s.video_started
    → s'.cc_video ≡ (pictures s au).1
    → contents w' ≡ contents w ++ concat (chunk s au)
    → Recorded s w bytes
    → Recorded s' w' (bytes ++ presented s.media_ticks au)
Recorded-chunk s s' w w' bytes au o v c f r = record {
  is_open = o ∙ r.is_open;
  video_started = v ∙ r.video_started;
  counter = rw c (emit_pes-counter au _ _ (au_is_keyframe au) s.cc_video r.counter);
  written = r.written ++ chunk s au;
  sizes =
      All-append (λ p. length p ≡ ts_packet_size) r.written (chunk s au) r.sizes (chunk-sizes s au);
  contents = rw (f, r.contents) (sym (concat-append r.written (chunk s au)));
  plays =
      rw (c, read_video-append 0 r.written (chunk s au), r.plays, read_video-chunk s au r.counter)
        refl;
}

pub muxed-is_open : (s : Writer) (au : List ℕ) → (muxed s au).is_open ≡ s.is_open
muxed-is_open s au = elim (Bool-cases (wants_psi s (au_is_keyframe au))) [
  | inl due ↦ rw due refl
  | inr early ↦ rw early refl
]

pub muxed-video_started : (s : Writer) (au : List ℕ) → (muxed s au).video_started ≡ s.video_started
muxed-video_started s au = elim (Bool-cases (wants_psi s (au_is_keyframe au))) [
  | inl due ↦ rw due refl
  | inr early ↦ rw early refl
]

written_all :
    (w : World) (bytes : List ℕ) (n : ℕ)
    → (n == length bytes) ≡ true
    → contents (wrote (take n bytes) ∷ w) ≡ contents w ++ bytes
written_all w bytes n all = ap (λ b. contents w ++ b) (take_all n bytes (ground arith))

module _ (k : Files) (au : List ℕ) (duration_90k : ℕ) (s : Writer) (w : World)
    (bytes : List ℕ) where
  pub write_nal-Recorded :
      Recorded s w bytes
      → length au ≢ 0
      → (write_nal k au duration_90k s w).0.0 ≡ true
      → Recorded
          (write_nal k au duration_90k s w).0.1
          (write_nal k au duration_90k s w).1
          (bytes ++ presented s.media_ticks au)
        × ((write_nal k au duration_90k s w).0.1).media_ticks ≡ s.media_ticks + duration_90k
  write_nal-Recorded r nz ok =
      elim (Bool-cases (k.fwrite w (concat (chunk s au)) == length (concat (chunk s au)))) [
        | inl all ↦
            let kept = sync_if_due-Kept k (sent s au duration_90k) (after_write k s au w) in
            rw (write_nal-sent k au duration_90k s w r.is_open r.video_started nz all) (
              Recorded-sync _ _ _ _ _ kept (
                  Recorded-chunk s _ w _ bytes au (muxed-is_open s au) (muxed-video_started s au)
                    refl
                    (written_all w (concat (chunk s au)) (k.fwrite w (concat (chunk s au))) all) r),
              kept.media_ticks,
            )
        | inr short ↦
            let refused : (write_nal k au duration_90k s w).0.0 ≡ false =
              rw (write_nal-short k au duration_90k s w r.is_open r.video_started nz short) refl in
            absurd cc
      ]
