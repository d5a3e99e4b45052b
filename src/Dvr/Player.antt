-- ===== src/Dvr/Player.antt =====
-- A player of the files that src/dvr/ts_writer.cpp writes: it cuts the bytes into packets of 188, and
-- takes those of the video, whose continuity counters must not skip, ISO/IEC 13818-1, 2.4.3.
pub mod Units
use pixel_pilot_rk.Common.{
  ℕ, zero, suc, ◌+◌, ◌%◌, Bool, true, false, Option, none, some, List, [], ◌∷◌, ◌++◌, ◌==◌, leb,
  if◌then◌else◌, length, take, drop,
}
use pixel_pilot_rk.Dvr.Pes.{pid_video, ts_packet_size}
use pixel_pilot_rk.Dvr.Pes.Demux.{TsPacket, parse_packet}

abbrev pub prepend : List ℕ → Option (List ℕ × ℕ) → Option (List ℕ × ℕ)
prepend bytes none = none
prepend bytes (some (rest, counter)) = some (bytes ++ rest, counter)

abbrev pub after : ℕ → Option TsPacket → (ℕ → Option (List ℕ × ℕ)) → Option (List ℕ × ℕ)
after counter none rest = none
after counter (some t) rest =
    if t.pid == pid_video
    then if t.continuity == counter then prepend t.payload (rest ((counter + 1) % 16)) else none
    else rest counter

-- The bytes of the video, and the continuity counter that comes next.
unfoldable pub read_video : ℕ → List (List ℕ) → Option (List ℕ × ℕ)
read_video counter [] = some ([], counter)
read_video counter (p ∷ ps) = after counter (parse_packet p) (λ c. read_video c ps)

-- The packets that are there in full, at most `fuel`.
unfoldable pub packets : ℕ → List ℕ → List (List ℕ)
packets zero bytes = []
packets (suc fuel) bytes =
    let more = take ts_packet_size bytes ∷ packets fuel (drop ts_packet_size bytes) in
    if leb ts_packet_size (length bytes) then more else []

-- The elementary stream of a file.
unfoldable pub play : List ℕ → Option (List ℕ × ℕ)
unfolding packets read_video
play bytes = read_video 0 (packets (length bytes) bytes)
