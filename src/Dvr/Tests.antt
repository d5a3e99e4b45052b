-- ===== src/Dvr/Tests.antt =====
-- The recorder (src/dvr): runs, and the theorems at concrete inputs.
use pixel_pilot_rk.Common.{
  leb, ◌||◌, ℕ, ◌-◌, ◌≡◌, refl, true, false, none, some, List, [], ◌∷◌, ◌++◌, arith, All, length,
  take, str_eq, if◌then◌else◌, ◌↔◌, ◌≤◌, ◌&&◌,
}
use pixel_pilot_rk.Dvr.Files.{Files, contents}
use pixel_pilot_rk.Dvr.Crc.{crc32_mpeg, crc_bytes, crc_bits, crc_bit}
use pixel_pilot_rk.Dvr.Keyframe.{au_is_keyframe, scan}
use pixel_pilot_rk.Dvr.Keyframe.Scan.{HasIrap, au_is_keyframe_iff}
use pixel_pilot_rk.Dvr.Pes.{emit_pes, pes_header, pid_video, ts_packet_size}
use pixel_pilot_rk.Dvr.Pes.Demux.{reassemble}
use pixel_pilot_rk.Dvr.Pes.RoundTrip.{reassemble-emit_pes}
use pixel_pilot_rk.Dvr.Pes.Packets.{emit_pes-sizes}
use pixel_pilot_rk.Dvr.Section.{emit_psi, stream_type_hevc}
use pixel_pilot_rk.Dvr.Section.Reading.{follow, follow-emit_psi}
use pixel_pilot_rk.Dvr.Player.{play}
use pixel_pilot_rk.Dvr.Writer.{Writer}
use pixel_pilot_rk.Dvr.Writer.Playback.{record_to, presented_from, play-record_to}
use pixel_pilot_rk.Dvr.Writer.Cut.{PlaysBeginning, record_to-PlaysBeginning}
use pixel_pilot_rk.Dvr.Writer.Streak.{record_to-streak}
use pixel_pilot_rk.Dvr.Storage.{
  has_enough_free, Mounts, Guard, free_bytes, device_id, mount_ok, is_ready, is_external_mount,
}
use pixel_pilot_rk.Dvr.Status.{
  Session, Status, update_storage_status, storage_check_interval_ms, storage_available_bytes,
  storage_status,
}
use pixel_pilot_rk.Dvr.Status.Lost.{gives_up, is_lost, update_storage_status-gives_up}
use pixel_pilot_rk.Dvr.Timing.{next_segment, new_timing, next_frame_duration}
use pixel_pilot_rk.Dvr.Timing.Elapsed.{times, durations, late, IsSteady, times-durations}

-- The check value of CRC-32/MPEG-2, of the digits 1 to 9.
crc_run :
    crc32_mpeg (0x31 ∷ 0x32 ∷ 0x33 ∷ 0x34 ∷ 0x35 ∷ 0x36 ∷ 0x37 ∷ 0x38 ∷ 0x39 ∷ []) ≡ 0x0376e6e7
unfolding crc32_mpeg crc_bytes crc_bits crc_bit
crc_run = refl

-- A slice of type 1, and an IDR slice of type 19 behind a start code of 4 bytes.
abbrev trail : List ℕ
trail = 0 ∷ 0 ∷ 1 ∷ 2 ∷ 1 ∷ 0xaa ∷ []

abbrev idr : List ℕ
idr = 0 ∷ 0 ∷ 0 ∷ 1 ∷ 0x26 ∷ 1 ∷ 0xbb ∷ []

trail_run : au_is_keyframe trail ≡ false
unfolding au_is_keyframe scan
trail_run = refl

idr_run : au_is_keyframe idr ≡ true
unfolding au_is_keyframe scan
idr_run = refl

-- Files that take all that is written, and whose syncs fail.
abbrev full_speed : Files
full_speed = record {
  fopen = λ w path. true;
  open_dir = λ w path. true;
  fwrite = λ w bytes. length bytes;
  fflush = λ w. true;
  fdatasync = λ w. false;
  fclose = λ w. true;
  monotonic_ms = λ w. 5000;
}

abbrev idle_writer : Writer
idle_writer = record {
  is_open = false;
  video_started = false;
  file_size_bytes = 0;
  discard_count = 0;
  write_fail_count = 3;
  write_fail_streak = 3;
  bytes_since_sync = 0;
  last_sync_ms = 0;
  media_ticks = 0;
  last_psi_ticks = 0;
  psi_pending = false;
  cc_video = 0;
  cc_pat = 0;
  cc_pmt = 0;
}

abbrev two_units : List (List ℕ × ℕ)
two_units = (idr, 1500) ∷ (trail, 1500) ∷ []

record_to-streak_example :
    (record_to full_speed "a.ts" two_units idle_writer []).0.0 ≡ true
    × (record_to full_speed "a.ts" two_units idle_writer []).0.1.write_fail_streak ≤ 1
record_to-streak_example =
    record_to-streak full_speed "a.ts" two_units idle_writer [] refl (λ w bytes. refl)

two_units-accepted : (record_to full_speed "a.ts" two_units idle_writer []).0.0 ≡ true
two_units-accepted =
    (record_to-streak full_speed "a.ts" two_units idle_writer [] refl (λ w bytes. refl)).0

abbrev recorded : List ℕ
recorded = contents (record_to full_speed "a.ts" two_units idle_writer []).1

play-record_to_example :
    play (contents (record_to full_speed "a.ts" two_units idle_writer []).1)
    ≡ some (
      presented_from 0 two_units,
      (record_to full_speed "a.ts" two_units idle_writer []).0.1.cc_video,
    )
play-record_to_example =
    play-record_to full_speed "a.ts" two_units idle_writer [] (omega arith, (omega arith, tt))
      two_units-accepted

record_to-PlaysBeginning_example :
    PlaysBeginning (presented_from 0 two_units) (take (length recorded - 1) recorded)
record_to-PlaysBeginning_example =
    record_to-PlaysBeginning full_speed "a.ts" two_units idle_writer [] (length recorded - 1)
      (omega arith, (omega arith, tt)) two_units-accepted (omega arith)

reassemble-emit_pes_example :
    reassemble pid_video true 15 (emit_pes idr 90000 0 true 15).0
    ≡ some (pes_header 90000 ++ idr, (emit_pes idr 90000 0 true 15).1)
reassemble-emit_pes_example = reassemble-emit_pes idr 90000 0 true 15 (omega arith)

emit_pes-sizes_example : All (λ p. length p ≡ ts_packet_size) (emit_pes trail 91500 1500 false 1).0
emit_pes-sizes_example = emit_pes-sizes trail 91500 1500 false 1

follow-emit_psi_example : follow (emit_psi 15 7) ≡ some (pid_video, stream_type_hevc, pid_video)
follow-emit_psi_example = follow-emit_psi 15 7

au_is_keyframe_iff_example : (au_is_keyframe idr ≡ true) ↔ HasIrap idr
au_is_keyframe_iff_example = au_is_keyframe_iff idr

-- A card on a device of its own, with 2 MiB free.
abbrev card : Mounts
card = record {
  stat = λ path. if str_eq path "/" then some 1 else some 2;
  statvfs = λ path. some (record { f_frsize = 4096; f_bavail = 512; f_blocks = 1000000 });
  statfs = λ path. some 0x4d44;
}

abbrev guard : Guard
guard = record { recording_dir = "/media"; min_free_bytes = 1048576; require_mount = true }

ready_run : is_ready card guard ≡ none
unfolding is_ready is_external_mount free_bytes
ready_run = refl

times-durations_example :
    times 0 (durations (next_segment (new_timing 60)) (100 ∷ 116 ∷ 133 ∷ 150 ∷ []))
    ≡ 0 ∷ 1 ∷ late 100 116 (133 ∷ 150 ∷ [])
unfolding IsSteady
times-durations_example =
    times-durations (new_timing 60) 100 116 (133 ∷ 150 ∷ [])
      ((omega arith, omega arith), ((omega arith, omega arith), ((omega arith, omega arith), tt)))

-- The frame of 116 ms is presented at a tick, that of 133 ms at 16 ms, and that of 150 ms at 33 ms.
times_run :
    times 0 (durations (next_segment (new_timing 60)) (100 ∷ 116 ∷ 133 ∷ 150 ∷ []))
    ≡ 0 ∷ 1 ∷ 1440 ∷ 2970 ∷ []
unfolding times durations next_segment new_timing next_frame_duration
times_run = refl

-- A recording that began on the card, of device 2, and the card pulled: the path is on the root's device.
abbrev pulled : Mounts
pulled = record card { stat = λ path. some 1 }

abbrev on_card : Session
on_card = record {
  file_active = true;
  session_dev = 2;
  session_dev_known = true;
  session_free_at_start = 2097152;
  session_free_known = true;
  written = 4096;
}

abbrev checked_before : Status
checked_before = record {
  last_storage_check_ms = 1000;
  storage_status_dev = 2;
  storage_status_dev_known = true;
  storage_total_bytes = 4096000000;
  storage_total_known = true;
}

update_storage_status-gives_up_example :
    gives_up (update_storage_status pulled guard on_card false 4000 checked_before).1
    ≡ ((false || leb storage_check_interval_ms (4000 - 1000)) && is_lost pulled guard on_card)
update_storage_status-gives_up_example =
    update_storage_status-gives_up pulled guard on_card false 4000 checked_before

-- With the card in, the free space is estimated, and is low: less than a tenth of the whole.
low_space_run :
    (update_storage_status card guard on_card false 4000 checked_before).1
    ≡ storage_available_bytes (2097152 - 4096 - 1048576) ∷ storage_status 2 ∷ []
unfolding update_storage_status mount_ok device_id has_enough_free
low_space_run = refl
