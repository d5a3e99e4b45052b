-- ===== src/Dvr/Writer/Opened.antt =====
-- Whether the file of `TsWriter` (src/dvr/ts_writer.cpp) is open.
use pixel_pilot_rk.Common.{
  ℕ, ◌+◌, ◌%◌, ◌^◌, ◌≡◌, refl, ◌∙◌, Bool, true, false, not, ◌||◌, List, String, ◌==◌, if◌then◌else◌,
  length, Bool-cases, inl, inr,
}
use pixel_pilot_rk.Dvr.Files.{Files, World, Leaves, Leaves-if}
use pixel_pilot_rk.Dvr.Writer.{
  Writer, write_block, mux_access_unit, sync_now, open_file, write_nal, close_file, begin_video,
  muxed,
}
use pixel_pilot_rk.Dvr.Writer.Sync.{sync_if_due-Kept}
use pixel_pilot_rk.Dvr.Writer.Recorded.{muxed-is_open}

if_open :
    (b : Bool) (s : Writer) (n : ℕ)
    → let r : Bool × Writer = if b then (true, record s { file_size_bytes = n }) else (false, s) in
      r.1.is_open ≡ s.is_open
if_open true s n = refl
if_open false s n = refl

begin_video_eq :
    (s : Writer) (b : Bool)
    → s.is_open ≡ b
    → ((begin_video s).0 ≡ b) × ((begin_video s).1.is_open ≡ b)
unfolding begin_video
begin_video_eq s true e = rw e (refl, refl)
begin_video_eq s false e = rw e (refl, refl)

-- A video begins in a file that is open.
pub begin_video-open :
    (s : Writer) → ((begin_video s).0 ≡ s.is_open) × ((begin_video s).1.is_open ≡ s.is_open)
begin_video-open s = begin_video_eq s s.is_open refl

module _ (k : Files) where
  mux_access_unit-open :
      (au : List ℕ) (d : ℕ) (s : Writer) (w : World)
      → Leaves (mux_access_unit k au d s w) (λ r _. r.1.is_open ≡ s.is_open)
  unfolding mux_access_unit write_block
  mux_access_unit-open au d s w = if_open _ (muxed s au) _ ∙ muxed-is_open s au

  pub write_nal-open :
      (au : List ℕ) (d : ℕ) (s : Writer) (w : World)
      → Leaves (write_nal k au d s w) (λ (r : Bool × Writer) _. r.1.is_open ≡ s.is_open)
  unfolding write_nal
  write_nal-open au d s w =
      Leaves-if (length au == 0) _ _ w (λ (r : Bool × Writer) _. r.1.is_open ≡ s.is_open)
        (λ _. refl)
        (λ _.
          Leaves-if (not s.is_open || not s.video_started) _ _ w
            (λ (r : Bool × Writer) _. r.1.is_open ≡ s.is_open) (λ _. refl)
            (λ _.
              let m = mux_access_unit k au d s w in
              let e = mux_access_unit-open au d s w in
              let after : Writer = record m.0.1 {
                write_fail_count = 0;
                write_fail_streak = 0;
                bytes_since_sync = (m.0.1.bytes_since_sync + length au) % 2 ^ 64;
              } in
              Leaves-if (not m.0.0) _ _ m.1 (λ (r : Bool × Writer) _. r.1.is_open ≡ s.is_open)
                (λ _. e) (λ _. (sync_if_due-Kept k after m.1).is_open ∙ e)))

  pub close_file-open :
      (s : Writer) (w : World) → Leaves (close_file k s w) (λ r _. r.1.is_open ≡ false)
  unfolding close_file
  close_file-open s w =
      let m = sync_now k (record s { video_started = false }) w in
      elim (Bool-cases m.0.1.is_open) [ inl there ↦ rw there refl | inr shut ↦ rw shut shut ]

  pub open_file-open :
      (path : String) (s : Writer) (w : World)
      → Leaves (open_file k path s w) (λ r _. r.1.is_open ≡ r.0)
  unfolding open_file
  open_file-open path s w =
      Leaves-if (not (k.fopen w path)) _ _ w (λ (r : Bool × Writer) _. r.1.is_open ≡ r.0)
        (λ _. refl) (λ _. refl)
