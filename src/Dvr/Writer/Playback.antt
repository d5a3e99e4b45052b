-- ===== src/Dvr/Writer/Playback.antt =====
-- A recording made by the functions of src/dvr/ts_writer.cpp, as a player sees it.
use pixel_pilot_rk.Common.{
  ℕ, ◌+◌, ◌≡◌, ◌≢◌, refl, ap, sym, ◌∙◌, inl, inr, Bool, true, false, ◌&&◌, some, List, [], ◌∷◌,
  ◌++◌, String, ◌==◌, if◌then◌else◌, length, concat, arith, All, Bool-cases,
}
use mathlib.Core.List.{append_assoc, append-nil}
use pixel_pilot_rk.Dvr.Files.{Files, World, M, opened, pure, ◌>>=◌, contents}
use pixel_pilot_rk.Dvr.Writer.Steps.{chunk, sent, after_write, write_nal-sent}
use pixel_pilot_rk.Dvr.Writer.Sync.{sync_if_due-Kept}
use pixel_pilot_rk.Dvr.Player.{read_video, play}
use pixel_pilot_rk.Dvr.Player.Units.{play-concat}
use pixel_pilot_rk.Dvr.Writer.{Writer, write_nal, open_file, begin_video, sync_dir_of}
use pixel_pilot_rk.Dvr.Writer.Recorded.{
  Recorded, presented, write_nal-Recorded, muxed-is_open, muxed-video_started,
}

-- Access units with their durations, handed over one after another; the first failure ends it.
module _ (k : Files) where
  unfoldable pub write_all : List (List ℕ × ℕ) → Writer → M (Bool × Writer)
  write_all [] s = pure (true, s)
  write_all ((au, duration_90k) ∷ rest) s = do
    (ok, s') ← write_nal k au duration_90k s
    if ok then write_all rest s' else pure (false, s')

-- The elementary stream of access units from a time on.
unfoldable pub presented_from : ℕ → List (List ℕ × ℕ) → List ℕ
presented_from ticks [] = []
presented_from ticks ((au, duration_90k) ∷ rest) =
    presented ticks au ++ presented_from (ticks + duration_90k) rest

module _ (k : Files) where
  write_all-Recorded :
      (items : List (List ℕ × ℕ)) (s : Writer) (w : World) (bytes : List ℕ)
      → Recorded s w bytes
      → All (λ item. length item.0 ≢ 0) items
      → (write_all k items s w).0.0 ≡ true
      → Recorded
          (write_all k items s w).0.1
          (write_all k items s w).1
          (bytes ++ presented_from s.media_ticks items)
  unfolding write_all presented_from
  write_all-Recorded [] s w bytes r nz ok = rw (append-nil bytes) r
  write_all-Recorded ((au, d) ∷ rest) s w bytes r nz ok =
      let step = write_nal k au d s w in
      elim (Bool-cases step.0.0) [
        | inl sent ↦
            let go_on : write_all k ((au, d) ∷ rest) s w ≡ write_all k rest step.0.1 step.1 =
              rw sent refl in
            let (here, ticks) = write_nal-Recorded k au d s w bytes r nz.0 sent in
            let done =
              write_all-Recorded rest step.0.1 step.1 _ here nz.1
                (ap (λ x. x.0.0) (sym go_on) ∙ ok) in
            rw (go_on, ← ticks, ← append_assoc bytes (presented s.media_ticks au) _) done
        | inr failed ↦
            let stopped : (write_all k ((au, d) ∷ rest) s w).0.0 ≡ false = rw failed refl in
            absurd cc
      ]

module _ (k : Files) where
  pub write_nal-accepts :
      (au : List ℕ) (d : ℕ) (s : Writer) (w : World)
      → ((w' : World) (bytes : List ℕ) → k.fwrite w' bytes ≡ length bytes)
      → s.is_open ≡ true
      → s.video_started ≡ true
      → (write_nal k au d s w).0.0 ≡ true
        × (write_nal k au d s w).0.1.is_open ≡ true
        × (write_nal k au d s w).0.1.video_started ≡ true
  unfolding write_nal
  write_nal-accepts [] d s w full o v = (refl, o, v)
  write_nal-accepts (x ∷ au) d s w full o v =
      let bytes = concat (chunk s (x ∷ au)) in
      let all : (k.fwrite w bytes == length bytes) ≡ true = ground (arith, full w bytes) in
      let kept = sync_if_due-Kept k (sent s (x ∷ au) d) (after_write k s (x ∷ au) w) in
      rw (write_nal-sent k (x ∷ au) d s w o v (omega arith) all) (
        refl,
        kept.is_open ∙ muxed-is_open s (x ∷ au) ∙ o,
        kept.video_started ∙ muxed-video_started s (x ∷ au) ∙ v,
      )

-- A recording from `open` on: the access units follow `begin_video`.
pub record_to : Files → String → List (List ℕ × ℕ) → Writer → M (Bool × Writer)
unfolding write_all
record_to k path items s = do
  (ok, s') ← open_file k path s
  let (begun, s'') = begin_video s'
  if ok && begun then write_all k items s'' else pure (false, s'')

play-Recorded :
    (s : Writer) (w : World) (bytes : List ℕ)
    → Recorded s w bytes
    → play (contents w) ≡ some (bytes, s.cc_video)
play-Recorded s w bytes r = rw (r.contents, play-concat r.written r.sizes) r.plays

abbrev opened_writer : Writer → ℕ → Writer
opened_writer s now = record s {
  is_open = true;
  file_size_bytes = 0;
  write_fail_count = 0;
  write_fail_streak = 0;
  bytes_since_sync = 0;
  last_sync_ms = now;
  media_ticks = 0;
  last_psi_ticks = 0;
  psi_pending = true;
  cc_video = 0;
  cc_pat = 0;
  cc_pmt = 0;
  video_started = true;
}

module _ (k : Files) (path : String) (items : List (List ℕ × ℕ)) (s : Writer) (w : World) where
  abbrev at_start : World
  at_start = (sync_dir_of k path (opened path ∷ w)).1

  pub record_to-opened :
      k.fopen w path ≡ true
      → record_to k path items s w
        ≡ write_all k items (opened_writer s (k.monotonic_ms at_start)) at_start
  unfolding record_to open_file begin_video sync_dir_of
  record_to-opened there = rw there refl

  record_to-refused : k.fopen w path ≡ false → (record_to k path items s w).0.0 ≡ false
  unfolding record_to open_file begin_video
  record_to-refused refused = rw refused refl

  contents-at_start : contents at_start ≡ []
  unfolding sync_dir_of
  contents-at_start = elim (Bool-cases (k.open_dir (opened path ∷ w) path)) [
    | inl synced ↦ rw synced refl
    | inr kept ↦ rw kept refl
  ]

  Recorded-opened : Recorded (opened_writer s (k.monotonic_ms at_start)) at_start []
  unfolding concat read_video
  Recorded-opened = record {
    is_open = refl;
    video_started = refl;
    counter = omega arith;
    written = [];
    sizes = tt;
    contents = contents-at_start;
    plays = refl;
  }

pub record_to-Recorded :
    (k : Files) (path : String) (items : List (List ℕ × ℕ)) (s : Writer) (w : World)
    → All (λ item. length item.0 ≢ 0) items
    → (record_to k path items s w).0.0 ≡ true
    → Recorded
        (record_to k path items s w).0.1
        (record_to k path items s w).1
        (presented_from 0 items)
record_to-Recorded k path items s w nz ok = elim (Bool-cases (k.fopen w path)) [
  | inl there ↦
      let same = record_to-opened k path items s w there in
      rw same (
        write_all-Recorded k items _ _ [] (Recorded-opened k path items s w) nz
          (ap (λ x. x.0.0) (sym same) ∙ ok))
  | inr refused ↦ let no = record_to-refused k path items s w refused in absurd cc
]

-- Whatever the state before, and however the clock and the syncs answer: if all access units were
-- accepted, none of them empty, a player that reads the file from its start gets, one after another,
-- each access unit as it was given, behind a PES header whose time stamp is the preroll and the sum of
-- the durations before it, and meets no gap in the continuity counters.
pub play-record_to :
    (k : Files) (path : String) (items : List (List ℕ × ℕ)) (s : Writer) (w : World)
    → All (λ item. length item.0 ≢ 0) items
    → (record_to k path items s w).0.0 ≡ true
    → play (contents (record_to k path items s w).1)
      ≡ some (presented_from 0 items, (record_to k path items s w).0.1.cc_video)
play-record_to k path items s w nz ok =
    play-Recorded _ _ _ (record_to-Recorded k path items s w nz ok)
