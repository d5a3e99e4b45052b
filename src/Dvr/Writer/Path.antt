-- ===== src/Dvr/Writer/Path.antt =====
-- Which file `TsWriter` (src/dvr/ts_writer.cpp) has open, by the calls that it made.
use pixel_pilot_rk.Common.{
  ℕ, ◌+◌, ◌-◌, ◌%◌, ◌^◌, ◌≡◌, ◌⊎◌, inl, inr, refl, Bool, true, false, not, ◌||◌, ◌&&◌, none, some,
  List, ◌∷◌, String, ◌==◌, ltb, length,
}
use pixel_pilot_rk.Dvr.Files.{Files, World, Leaves, Leaves-if, open_path, opened}
use pixel_pilot_rk.Dvr.Writer.{
  Writer, write_block, mux_access_unit, flush_and_sync, sync_now, sync_if_due, sync_dir_of,
  open_file, write_nal, close_file, sync_bytes, sync_interval_ms,
}

module _ (k : Files) where
  flush_and_sync-path :
      (w : World) → Leaves (flush_and_sync k w) (λ _ w'. open_path w' ≡ open_path w)
  unfolding flush_and_sync
  flush_and_sync-path w =
      Leaves-if {A = Bool} (not (k.fflush w)) _ _ _ (λ _ w'. open_path w' ≡ open_path w) (λ _. refl)
        (λ _. refl)

  sync_now-path :
      (s : Writer) (w : World) → Leaves (sync_now k s w) (λ _ w'. open_path w' ≡ open_path w)
  unfolding sync_now
  sync_now-path s w =
      Leaves-if {A = Bool × Writer} (not s.is_open) _ _ w (λ _ w'. open_path w' ≡ open_path w)
        (λ _. refl) (λ _. flush_and_sync-path w)

  sync_if_due-path :
      (s : Writer) (w : World) → Leaves (sync_if_due k s w) (λ _ w'. open_path w' ≡ open_path w)
  unfolding sync_if_due
  sync_if_due-path s w =
      Leaves-if {A = Writer}
        (ltb s.bytes_since_sync sync_bytes
          && ltb (k.monotonic_ms w - s.last_sync_ms) sync_interval_ms)
        _ _ w (λ _ w'. open_path w' ≡ open_path w) (λ _. refl) (λ _. sync_now-path s w)

  -- Writing leaves the same file open.
  pub write_nal-path :
      (au : List ℕ) (d : ℕ) (s : Writer) (w : World)
      → Leaves (write_nal k au d s w) (λ _ w'. open_path w' ≡ open_path w)
  unfolding write_nal mux_access_unit write_block
  write_nal-path au d s w =
      Leaves-if {A = Bool × Writer} (length au == 0) _ _ w (λ _ w'. open_path w' ≡ open_path w)
        (λ _. refl)
        (λ _.
          Leaves-if {A = Bool × Writer} (not s.is_open || not s.video_started) _ _ w
            (λ _ w'. open_path w' ≡ open_path w) (λ _. refl)
            (λ _.
              let m = mux_access_unit k au d s w in
              let after : Writer = record m.0.1 {
                write_fail_count = 0;
                write_fail_streak = 0;
                bytes_since_sync = (m.0.1.bytes_since_sync + length au) % 2 ^ 64;
              } in
              Leaves-if {A = Bool × Writer} (not m.0.0) _ _ m.1 (λ _ w'. open_path w' ≡ open_path w)
                (λ _. refl) (λ _. sync_if_due-path after m.1)))

  -- Closing leaves none open.
  pub close_file-path :
      (s : Writer) (w : World)
      → s.is_open ≡ true
      → Leaves (close_file k s w) (λ _ w'. open_path w' ≡ none)
  unfolding close_file sync_now
  close_file-path s w e = rw e refl

  sync_dir_of-path :
      (path : String) (w : World)
      → Leaves (sync_dir_of k path w) (λ _ w'. open_path w' ≡ open_path w)
  unfolding sync_dir_of
  sync_dir_of-path path w =
      Leaves-if (k.open_dir w path) _ _ w (λ _ w'. open_path w' ≡ open_path w) (λ _. refl)
        (λ _. refl)

  -- Opening leaves the file of this path open, or changes nothing.
  pub open_file-path :
      (path : String) (s : Writer) (w : World)
      → Leaves
          (open_file k path s w)
          (λ r w'. ((r.0 ≡ true) × (open_path w' ≡ some path)) ⊎ ((r.0 ≡ false) × (w' ≡ w)))
  unfolding open_file
  open_file-path path s w =
      Leaves-if {A = Bool × Writer} (not (k.fopen w path)) _ _ w
        (λ r w'. ((r.0 ≡ true) × (open_path w' ≡ some path)) ⊎ ((r.0 ≡ false) × (w' ≡ w)))
        (λ _. inr (refl, refl)) (λ _. inl (refl, sync_dir_of-path path (opened path ∷ w)))
