-- ===== src/Dvr/Section.antt =====
-- The tables of MPEG-TS: `TsWriter::emit_section` and `emit_psi` (src/dvr/ts_writer.cpp).
pub mod Reading
use pixel_pilot_rk.Common.{ℕ, ◌+◌, ◌-◌, ◌*◌, ◌/◌, ◌%◌, ◌^◌, List, [], ◌∷◌, ◌++◌, length, replicate}
use pixel_pilot_rk.Dvr.Crc.{crc32_mpeg, big_endian}
use pixel_pilot_rk.Dvr.Pes.{ts_packet_size, pid_video}

-- PID_PAT, PID_PMT, PROGRAM_NUMBER, TRANSPORT_STREAM_ID, STREAM_TYPE_HEVC
abbrev pub pid_pat : ℕ
pid_pat = 0

abbrev pub pid_pmt : ℕ
pid_pmt = 0x1000

abbrev pub program_number : ℕ
program_number = 1

abbrev pub transport_stream_id : ℕ
transport_stream_id = 1

abbrev pub stream_type_hevc : ℕ
stream_type_hevc = 0x24

-- The packet that is appended; what is past the CRC stays 0xFF. The continuity counter goes on by 1.
pub emit_section : ℕ → ℕ → List ℕ → List ℕ
emit_section pid counter section =
    0x47
    ∷ (0x40 + pid / 2 ^ 8 % 32)
    ∷ (pid % 256)
    ∷ (0x10 + counter % 16)
    ∷ 0
    ∷ (section
        ++ (big_endian (crc32_mpeg section)
            ++ replicate (ts_packet_size - 5 - length section - 4) 0xff))

unfoldable pub pat : List ℕ
pat =
    0x00
    ∷ 0xb0
    ∷ 0x0d
    ∷ (transport_stream_id / 2 ^ 8)
    ∷ (transport_stream_id % 256)
    ∷ 0xc1
    ∷ 0x00
    ∷ 0x00
    ∷ (program_number / 2 ^ 8)
    ∷ (program_number % 256)
    ∷ (0xe0 + pid_pmt / 2 ^ 8 % 32)
    ∷ (pid_pmt % 256)
    ∷ []

unfoldable pub pmt : List ℕ
pmt =
    0x02
    ∷ 0xb0
    ∷ 0x12
    ∷ (program_number / 2 ^ 8)
    ∷ (program_number % 256)
    ∷ 0xc1
    ∷ 0x00
    ∷ 0x00
    ∷ (0xe0 + pid_video / 2 ^ 8 % 32)
    ∷ (pid_video % 256)
    ∷ 0xf0
    ∷ 0x00
    ∷ stream_type_hevc
    ∷ (0xe0 + pid_video / 2 ^ 8 % 32)
    ∷ (pid_video % 256)
    ∷ 0xf0
    ∷ 0x00
    ∷ []

-- The two packets, by the continuity counters `cc_pat_` and `cc_pmt_`.
unfoldable pub emit_psi : ℕ → ℕ → List (List ℕ)
unfolding emit_section
emit_psi counter_pat counter_pmt =
    emit_section pid_pat counter_pat pat ∷ emit_section pid_pmt counter_pmt pmt ∷ []
