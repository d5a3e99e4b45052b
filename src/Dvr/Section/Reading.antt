-- ===== src/Dvr/Section/Reading.antt =====
-- A player gets the tables back from the packets of src/dvr/ts_writer.cpp.
use pixel_pilot_rk.Common.{
  ℕ, ◌+◌, ◌-◌, ◌*◌, ◌%◌, ◌^◌, ◌<◌, ◌≡◌, refl, sym, true, List, [], ◌∷◌, ◌++◌, ◌==◌, ◌&&◌, leb,
  if◌then◌else◌, length, take, replicate, Option, none, some, arith, All, length-append,
  length-replicate, take-append_left,
}
use mathlib.Core.List.{append_assoc}
use pixel_pilot_rk.Dvr.Crc.{crc32_mpeg, big_endian}
use pixel_pilot_rk.Dvr.Crc.Residue.{IsByte, crc32_mpeg-residue}
use pixel_pilot_rk.Dvr.Pes.{pid_video, ts_packet_size}
use pixel_pilot_rk.Dvr.Pes.Demux.{TsPacket, parse_packet, split_field}
use pixel_pilot_rk.Dvr.Section.{
  emit_section, emit_psi, pat, pmt, pid_pat, pid_pmt, stream_type_hevc,
}

-- ISO/IEC 13818-1, 2.4.4: behind the pointer field stand a table's id and, in 12 bits, how many bytes
-- follow, a CRC of 4 bytes included. The CRC of the whole is 0.
abbrev checked : ℕ → List ℕ → Option (List ℕ)
checked n body =
    if leb n (length body) && crc32_mpeg (take n body) == 0
    then some (take (n - 4) (take n body))
    else none

pub read_section : List ℕ → Option (List ℕ)
read_section (ℕ.zero ∷ id ∷ hi ∷ lo ∷ rest) =
    checked (3 + (hi % 16 * 256 + lo)) (id ∷ hi ∷ lo ∷ rest)
read_section _ = none

length-big_endian : (crc : ℕ) → length (big_endian crc) ≡ 4
unfolding big_endian
length-big_endian crc = refl

checked-emitted :
    (section stuffing : List ℕ) (n : ℕ)
    → All IsByte section
    → n ≡ length section + 4
    → checked n (section ++ (big_endian (crc32_mpeg section) ++ stuffing)) ≡ some section
checked-emitted section stuffing n a e =
    let crc : List ℕ = big_endian (crc32_mpeg section) in
    let size : length (section ++ crc) ≡ n =
      omega (arith, length-append section crc, length-big_endian (crc32_mpeg section)) in
    let joined : section ++ (crc ++ stuffing) ≡ (section ++ crc) ++ stuffing =
      sym (append_assoc section crc stuffing) in
    let fits : leb n (length ((section ++ crc) ++ stuffing)) ≡ true =
      ground (arith, length-append (section ++ crc) stuffing) in
    rw
      (
        joined,
        fits,
        take-append_left n (section ++ crc) stuffing size,
        crc32_mpeg-residue section a,
        take-append_left (n - 4) section crc (omega arith),
      )
      refl

module _ (pid counter : ℕ) (section : List ℕ) where
  pub section_rest : List ℕ
  section_rest =
      section
      ++ (big_endian (crc32_mpeg section)
          ++ replicate (ts_packet_size - 5 - length section - 4) 0xff)

  length-section_rest : length section < 180 → length section_rest ≡ 183
  unfolding section_rest
  length-section_rest h = omega (
    arith,
    length-append section (
        big_endian (crc32_mpeg section)
        ++ replicate (ts_packet_size - 5 - length section - 4) 0xff),
    length-append (big_endian (crc32_mpeg section))
        (replicate (ts_packet_size - 5 - length section - 4) 0xff),
    length-big_endian (crc32_mpeg section),
    length-replicate (ts_packet_size - 5 - length section - 4) (let b : ℕ = 0xff in b),
  )

  -- The packet of a table, as a player reads it.
  pub parse_packet-emit_section :
      pid < 2 ^ 13
      → length section < 180
      → parse_packet (emit_section pid counter section)
        ≡ some (record {
          start = true;
          pid = pid;
          continuity = counter % 16;
          adaptation = [];
          payload = 0 ∷ section_rest;
        })
  unfolding parse_packet emit_section split_field section_rest
  parse_packet-emit_section p h = ground (arith, length-section_rest h)

  length-emit_section :
      length section < 180 → length (emit_section pid counter section) ≡ ts_packet_size
  unfolding emit_section section_rest
  length-emit_section h = omega (arith, length-section_rest h)

-- Both tables fill a packet.
pub emit_psi-sizes :
    (counter_pat counter_pmt : ℕ)
    → All (λ p. length p ≡ ts_packet_size) (emit_psi counter_pat counter_pmt)
unfolding emit_psi pat pmt
emit_psi-sizes counter_pat counter_pmt = (
  length-emit_section pid_pat counter_pat pat (omega arith),
  (length-emit_section pid_pmt counter_pmt pmt (omega arith), tt),
)

abbrev table_of : ℕ → Option TsPacket → Option (List ℕ)
table_of pid none = none
table_of pid (some t) = if t.start && t.pid == pid then read_section t.payload else none

-- The table that a packet of a PID carries.
pub read_table : ℕ → List ℕ → Option (List ℕ)
unfolding read_section
read_table pid p = table_of pid (parse_packet p)

-- A packet of `emit_section` gives a player the section back, if it says its own length and fits.
pub read_table-emit_section :
    (pid counter id hi lo : ℕ) (rest : List ℕ)
    → pid < 2 ^ 13
    → length rest < 177
    → All IsByte (id ∷ hi ∷ lo ∷ rest)
    → hi % 16 * 256 + lo ≡ length rest + 4
    → read_table pid (emit_section pid counter (id ∷ hi ∷ lo ∷ rest)) ≡ some (id ∷ hi ∷ lo ∷ rest)
unfolding read_table read_section section_rest
read_table-emit_section pid counter id hi lo rest p h a e =
    let same : (pid == pid) ≡ true = ground arith in
    rw (parse_packet-emit_section pid counter (id ∷ hi ∷ lo ∷ rest) p (omega arith), same)
      (checked-emitted (id ∷ hi ∷ lo ∷ rest) _ (3 + (hi % 16 * 256 + lo)) a (omega arith))

-- The program map's PID in a table with one program, 2.4.4.3.
abbrev map_pid : List ℕ → Option ℕ
map_pid (ℕ.zero ∷ hi ∷ lo ∷ t0 ∷ t1 ∷ v ∷ s ∷ l ∷ n0 ∷ n1 ∷ p0 ∷ p1 ∷ []) =
    some (p0 % 32 * 256 + p1)
map_pid _ = none

-- The clock's PID, and the type and the PID of the only stream, 2.4.4.8.
abbrev only_stream : List ℕ → Option (ℕ × ℕ × ℕ)
only_stream
      (id ∷ hi ∷ lo ∷ n0 ∷ n1 ∷ v ∷ s ∷ l ∷ c0 ∷ c1 ∷ i0 ∷ i1 ∷ type ∷ p0 ∷ p1 ∷ e0 ∷ e1 ∷ []) =
    if id == 2 then some (c0 % 32 * 256 + c1, type, p0 % 32 * 256 + p1) else none
only_stream _ = none

abbrev streams_of : Option (List ℕ) → Option (ℕ × ℕ × ℕ)
streams_of none = none
streams_of (some table) = only_stream table

abbrev mapped_at : List ℕ → Option ℕ → Option (ℕ × ℕ × ℕ)
mapped_at q none = none
mapped_at q (some pid) = streams_of (read_table pid q)

abbrev mapped : List ℕ → Option (List ℕ) → Option (ℕ × ℕ × ℕ)
mapped q none = none
mapped q (some table) = mapped_at q (map_pid table)

-- From the table on PID 0 to the program's map, and to its stream.
pub follow : List (List ℕ) → Option (ℕ × ℕ × ℕ)
follow (p ∷ q ∷ []) = mapped q (read_table 0 p)
follow _ = none

-- Whatever the continuity counters, a player that starts from PID 0 in the two packets of `emit_psi`
-- finds, both CRCs right, one HEVC stream on the video PID, which has the clock too.
pub follow-emit_psi :
    (counter_pat counter_pmt : ℕ)
    → follow (emit_psi counter_pat counter_pmt) ≡ some (pid_video, stream_type_hevc, pid_video)
unfolding follow emit_psi pat pmt
follow-emit_psi counter_pat counter_pmt =
    rw
      (
        read_table-emit_section pid_pat counter_pat 0 0xb0 0x0d
            (0 ∷ 1 ∷ 0xc1 ∷ 0 ∷ 0 ∷ 0 ∷ 1 ∷ 0xf0 ∷ 0 ∷ []) (omega arith) (omega arith) (omega arith)
            (omega arith),
        read_table-emit_section pid_pmt counter_pmt 2 0xb0 0x12
            (0 ∷ 1 ∷ 0xc1 ∷ 0 ∷ 0 ∷ 0xe1 ∷ 0 ∷ 0xf0 ∷ 0 ∷ 0x24 ∷ 0xe1 ∷ 0 ∷ 0xf0 ∷ 0 ∷ [])
            (omega arith) (omega arith) (omega arith) (omega arith),
      )
      refl
