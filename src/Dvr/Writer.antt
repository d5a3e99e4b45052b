-- ===== src/Dvr/Writer.antt =====
-- The MPEG-TS writer: `TsWriter` (src/dvr/ts_writer.h, src/dvr/ts_writer.cpp).
pub mod Sync
pub mod Steps
pub mod Recorded
pub mod Playback
pub mod Cut
pub mod Streak
pub mod Opened
pub mod Path
use pixel_pilot_rk.Common.{
  ℕ, ◌+◌, ◌-◌, ◌*◌, ◌%◌, ◌^◌, Bool, true, false, not, ◌&&◌, ◌||◌, List, [], ◌∷◌, ◌++◌, String, ltb,
  leb, ◌==◌, if◌then◌else◌, length, take, concat,
}
use pixel_pilot_rk.Dvr.Files.{
  Files, M, pure, ◌>>=◌, ◌>>◌, ask, note, opened, synced_dir, wrote, flushed, synced, closed,
}
use pixel_pilot_rk.Dvr.Stamp.{stamp, pts_preroll_90k}
use pixel_pilot_rk.Dvr.Keyframe.{au_is_keyframe}
use pixel_pilot_rk.Dvr.Section.{emit_psi}
use pixel_pilot_rk.Dvr.Pes.{emit_pes}

-- `file != nullptr` is `is_open`. `pkt_buf_` holds the packets of one access unit only, and is not here.
pub record Writer : Type 0 where
  pub is_open : Bool
  pub video_started : Bool
  pub file_size_bytes : ℕ
  pub discard_count : ℕ
  pub write_fail_count : ℕ
  pub write_fail_streak : ℕ
  pub bytes_since_sync : ℕ
  pub last_sync_ms : ℕ
  pub media_ticks : ℕ
  pub last_psi_ticks : ℕ
  pub psi_pending : Bool
  pub cc_video : ℕ
  pub cc_pat : ℕ
  pub cc_pmt : ℕ

-- SYNC_BYTES, SYNC_INTERVAL_MS, PSI_INTERVAL_90K
abbrev pub sync_bytes : ℕ
sync_bytes = 4 * 1024 * 1024

abbrev pub sync_interval_ms : ℕ
sync_interval_ms = 2000

abbrev pub psi_interval_90k : ℕ
psi_interval_90k = 9000

-- `++` on a `uint32_t`.
abbrev pub next32 : ℕ → ℕ
next32 n = (n + 1) % 2 ^ 32

abbrev pub failed_once : Writer → Writer
failed_once s = record s {
  write_fail_count = next32 s.write_fail_count;
  write_fail_streak = next32 s.write_fail_streak;
}

-- The tables go out with the first access unit, with each keyframe, and when the interval is over.
abbrev pub wants_psi : Writer → Bool → Bool
wants_psi s keyframe =
    s.psi_pending || keyframe || leb psi_interval_90k (s.media_ticks - s.last_psi_ticks)

abbrev pub with_psi : Writer → Writer
with_psi s = record s {
  cc_pat = (s.cc_pat + 1) % 16;
  cc_pmt = (s.cc_pmt + 1) % 16;
  last_psi_ticks = s.media_ticks;
  psi_pending = false;
}

-- The packets of an access unit, `pkt_buf_`, and the state after they are made.
abbrev pub tables : Writer → Bool → List (List ℕ)
tables s keyframe = if wants_psi s keyframe then emit_psi s.cc_pat s.cc_pmt else []

abbrev pub pictures : Writer → List ℕ → List (List ℕ) × ℕ
pictures s au =
    emit_pes au (stamp (s.media_ticks + pts_preroll_90k)) (stamp s.media_ticks) (au_is_keyframe au)
      s.cc_video

abbrev pub muxed : Writer → List ℕ → Writer
muxed s au = record (if wants_psi s (au_is_keyframe au) then with_psi s else s) {
  cc_video = (pictures s au).1;
}

module _ (k : Files) where
  pub write_block : List ℕ → Writer → M (Bool × Writer)
  write_block bytes s = do
    n ← ask (λ w. k.fwrite w bytes)
    note (wrote (take n bytes))
    pure (
        if n == length bytes
        then (true, record s { file_size_bytes = (s.file_size_bytes + length bytes) % 2 ^ 64 })
        else (false, s))

  -- The clock goes on even if the write fails.
  pub mux_access_unit : List ℕ → ℕ → Writer → M (Bool × Writer)
  unfolding write_block
  mux_access_unit au duration_90k s = do
    (ok, s') ← write_block (concat (tables s (au_is_keyframe au) ++ (pictures s au).0)) (muxed s au)
    pure (ok, record s' { media_ticks = s.media_ticks + duration_90k })

  abbrev pub reset_sync : Writer → M Writer
  reset_sync s = do
    now ← ask k.monotonic_ms
    pure (record s { bytes_since_sync = 0; last_sync_ms = now })

  -- `fdatasync` only if `fflush` did not fail.
  pub flush_and_sync : M Bool
  flush_and_sync = do
    ok ← ask k.fflush
    note flushed
    if not ok then pure false else (do done ← ask k.fdatasync; note synced; pure done)

  pub sync_now : Writer → M (Bool × Writer)
  unfolding flush_and_sync
  sync_now s =
      if not s.is_open
      then pure (true, s)
      else (do ok ← flush_and_sync; s' ← reset_sync s; pure (ok, s'))

  pub sync_if_due : Writer → M Writer
  unfolding sync_now
  sync_if_due s = do
    now ← ask k.monotonic_ms
    if ltb s.bytes_since_sync sync_bytes && ltb (now - s.last_sync_ms) sync_interval_ms
        then pure s
        else (do (ok, s') ← sync_now s; pure (if ok then s' else failed_once s'))

  pub sync_dir_of : String → M (Unit {0})
  sync_dir_of path = do
    ok ← ask (λ w. k.open_dir w path)
    if ok then note (synced_dir path) else pure tt

  pub open_file : String → Writer → M (Bool × Writer)
  unfolding sync_dir_of
  open_file path s = do
    ok ← ask (λ w. k.fopen w path)
    if not ok then pure (false, record s { is_open = false }) else (do
      note (opened path)
      sync_dir_of path
      now ← ask k.monotonic_ms
      pure (
        true,
        record s {
          is_open = true;
          file_size_bytes = 0;
          write_fail_count = 0;
          write_fail_streak = 0;
          bytes_since_sync = 0;
          last_sync_ms = now;
        },
      ))

  -- `len <= 0` is the empty access unit.
  pub write_nal : List ℕ → ℕ → Writer → M (Bool × Writer)
  unfolding mux_access_unit sync_if_due
  write_nal au duration_90k s =
      if length au == 0
      then pure (true, s)
      else if not s.is_open || not s.video_started
      then pure (false, record s { discard_count = next32 s.discard_count })
      else (do
        (ok, s') ← mux_access_unit au duration_90k s
        if not ok then pure (false, failed_once s') else (do
          s'' ← sync_if_due (record s' {
            write_fail_count = 0;
            write_fail_streak = 0;
            bytes_since_sync = (s'.bytes_since_sync + length au) % 2 ^ 64;
          })
          pure (true, s'')))

  pub close_file : Writer → M (Bool × Writer)
  unfolding sync_now
  close_file s = do
    (ok, s') ← sync_now (record s { video_started = false })
    if not s'.is_open
        then pure (ok, s')
        else (do done ← ask k.fclose; note closed; pure (ok && done, record s' { is_open = false }))

  -- `~TsWriter`
  pub destroy : Writer → M (Unit {0})
  unfolding close_file
  destroy s = if s.is_open then (do done ← close_file s; pure tt) else pure tt

pub begin_video : Writer → Bool × Writer
begin_video s = if not s.is_open then (false, s) else (
  true,
  record s {
    media_ticks = 0;
    last_psi_ticks = 0;
    psi_pending = true;
    cc_video = 0;
    cc_pat = 0;
    cc_pmt = 0;
    video_started = true;
  },
)
