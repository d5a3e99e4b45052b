-- ===== src/Dvr/Writer/Streak.antt =====
-- The failure streak on which src/dvr/dvr.cpp stops a recording, `write_fail_streak`.
use pixel_pilot_rk.Common.{
  ℕ, ◌-◌, ◌≤◌, ◌≡◌, refl, ◌∙◌, inl, inr, Bool, true, false, ◌&&◌, List, [], ◌∷◌, String, ltb, ◌==◌,
  if◌then◌else◌, length, concat, arith, Bool-cases,
}
use pixel_pilot_rk.Dvr.Files.{Files, World}
use pixel_pilot_rk.Dvr.Writer.{
  Writer, sync_now, sync_if_due, write_nal, sync_bytes, sync_interval_ms, failed_once,
}
use pixel_pilot_rk.Dvr.Writer.Steps.{chunk, sent, after_write, write_nal-sent}
use pixel_pilot_rk.Dvr.Writer.Playback.{record_to, write_all, write_nal-accepts, record_to-opened}

module _ (k : Files) where
  sync_now-streak :
      (s : Writer) (w : World) → (sync_now k s w).0.1.write_fail_streak ≡ s.write_fail_streak
  unfolding sync_now
  sync_now-streak s w = elim (Bool-cases s.is_open) [
    | inl there ↦ rw there refl
    | inr shut ↦ rw shut refl
  ]

  failed_once-streak :
      (ok : Bool) (s : Writer)
      → s.write_fail_streak ≡ 0
      → (if ok then s else failed_once s).write_fail_streak ≤ 1
  failed_once-streak true s h = omega arith
  failed_once-streak false s h = omega arith

  sync_if_due-streak :
      (s : Writer) (w : World)
      → s.write_fail_streak ≡ 0
      → (sync_if_due k s w).0.write_fail_streak ≤ 1
  unfolding sync_if_due
  sync_if_due-streak s w h =
      elim (Bool-cases (
        ltb s.bytes_since_sync sync_bytes
        && ltb (k.monotonic_ms w - s.last_sync_ms) sync_interval_ms)) [
          | inl early ↦ rw early (omega arith)
          | inr due ↦ rw due (failed_once-streak (sync_now k s w).0.0 _ (sync_now-streak s w ∙ h))
        ]

  module _ (full : (w : World) (bytes : List ℕ) → k.fwrite w bytes ≡ length bytes) where
    write_nal-streak :
        (au : List ℕ) (d : ℕ) (s : Writer) (w : World)
        → s.is_open ≡ true
        → s.video_started ≡ true
        → s.write_fail_streak ≤ 1
        → (write_nal k au d s w).0.1.write_fail_streak ≤ 1
    unfolding write_nal
    write_nal-streak [] d s w o v h = h
    write_nal-streak (x ∷ au) d s w o v h =
        let bytes = concat (chunk s (x ∷ au)) in
        let all : (k.fwrite w bytes == length bytes) ≡ true = ground (arith, full w bytes) in
        rw (write_nal-sent k (x ∷ au) d s w o v (omega arith) all)
          (sync_if_due-streak (sent s (x ∷ au) d) (after_write k s (x ∷ au) w) refl)

    write_all-streak :
        (items : List (List ℕ × ℕ)) (s : Writer) (w : World)
        → s.is_open ≡ true
        → s.video_started ≡ true
        → s.write_fail_streak ≤ 1
        → (write_all k items s w).0.0 ≡ true × (write_all k items s w).0.1.write_fail_streak ≤ 1
    unfolding write_all
    write_all-streak [] s w o v h = (refl, h)
    write_all-streak ((au, d) ∷ rest) s w o v h =
        let (here, o', v') = write_nal-accepts k au d s w full o v in
        let h' = write_nal-streak au d s w o v h in rw here (write_all-streak rest _ _ o' v' h')

-- If the file can be opened and no write is short, then, however each flush and sync answers, all access
-- units are accepted, and the streak of failures is 1 at most after them.
pub record_to-streak :
    (k : Files) (path : String) (items : List (List ℕ × ℕ)) (s : Writer) (w : World)
    → k.fopen w path ≡ true
    → ((w' : World) (bytes : List ℕ) → k.fwrite w' bytes ≡ length bytes)
    → (record_to k path items s w).0.0 ≡ true
      × (record_to k path items s w).0.1.write_fail_streak ≤ 1
record_to-streak k path items s w there full =
    rw (record_to-opened k path items s w there)
      (write_all-streak k full items _ _ refl refl (omega arith))
