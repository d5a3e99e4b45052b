-- ===== src/Dvr/Writer/Steps.antt =====
-- The branches of `write_nal` (src/dvr/ts_writer.cpp).
use pixel_pilot_rk.Common.{
  ℕ, ◌+◌, ◌%◌, ◌^◌, ◌≡◌, ◌≢◌, refl, true, false, List, ◌∷◌, ◌++◌, ◌==◌, length, take, concat, arith,
}
use pixel_pilot_rk.Dvr.Files.{Files, World, wrote}
use pixel_pilot_rk.Dvr.Keyframe.{au_is_keyframe}
use pixel_pilot_rk.Dvr.Writer.{
  Writer, tables, pictures, muxed, write_block, mux_access_unit, sync_if_due, write_nal,
  failed_once,
}

-- The packets of an access unit, with the tables that go before it.
abbrev pub chunk : Writer → List ℕ → List (List ℕ)
chunk s au = tables s (au_is_keyframe au) ++ (pictures s au).0

-- The state after all of an access unit is written, and before the sync.
abbrev pub sent : Writer → List ℕ → ℕ → Writer
sent s au duration_90k = record (muxed s au) {
  file_size_bytes = ((muxed s au).file_size_bytes + length (concat (chunk s au))) % 2 ^ 64;
  media_ticks = s.media_ticks + duration_90k;
  write_fail_count = 0;
  write_fail_streak = 0;
  bytes_since_sync = ((muxed s au).bytes_since_sync + length au) % 2 ^ 64;
}

-- The state after a short write.
abbrev pub lost : Writer → List ℕ → ℕ → Writer
lost s au duration_90k =
    failed_once (record (muxed s au) { media_ticks = s.media_ticks + duration_90k })

abbrev pub after_write : Files → Writer → List ℕ → World → World
after_write k s au w = wrote (take (k.fwrite w (concat (chunk s au))) (concat (chunk s au))) ∷ w

module _ (k : Files) (au : List ℕ) (duration_90k : ℕ) (s : Writer) (w : World) where
  pub write_nal-sent :
      s.is_open ≡ true
      → s.video_started ≡ true
      → length au ≢ 0
      → (k.fwrite w (concat (chunk s au)) == length (concat (chunk s au))) ≡ true
      → write_nal k au duration_90k s w ≡ (
        (true, (sync_if_due k (sent s au duration_90k) (after_write k s au w)).0),
        (sync_if_due k (sent s au duration_90k) (after_write k s au w)).1,
      )
  unfolding write_nal mux_access_unit write_block
  write_nal-sent there started nz all =
      let some_bytes : (length au == 0) ≡ false = ground arith in
      rw (some_bytes, there, started, all) refl

  pub write_nal-short :
      s.is_open ≡ true
      → s.video_started ≡ true
      → length au ≢ 0
      → (k.fwrite w (concat (chunk s au)) == length (concat (chunk s au))) ≡ false
      → write_nal k au duration_90k s w ≡ ((false, lost s au duration_90k), after_write k s au w)
  unfolding write_nal mux_access_unit write_block
  write_nal-short there started nz short =
      let some_bytes : (length au == 0) ≡ false = ground arith in
      rw (some_bytes, there, started, short) refl
