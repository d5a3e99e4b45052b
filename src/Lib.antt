-- ===== src/Lib.antt =====
-- PixelPilot_rk receives a video stream over RTP, decodes it on a Rockchip board and shows it with
-- an OSD through the kernel's DRM interface; it can record the stream, or the composed picture, which
-- a DRM writeback connector hands back.
--
-- The development covers the display side, src/drm.c and its types in src/drm.h:
--   Drm/Modes: `select_best_mode`, and the choice of a mode in `modeset_output_create`
--   Drm/Kernel: what the code asks of the kernel and of libdrm (Monad: the calls as a monad; Ledger:
--     the accounting of what the process holds; Ensures: what holds unless the code faults)
--   Drm/Buffers: `modeset_create_fb`, `modeset_destroy_fb`, `modeset_create_wb_fb`,
--     `modeset_destroy_wb_fb`
--   Drm/Properties: `get_property_value`, `modeset_get_object_properties`,
--     `set_drm_object_property`, `modeset_drm_object_fini`
--   Drm/State: `struct modeset_output`
--   Drm/Crtc, Drm/Planes: `modeset_find_crtc`, `modeset_find_plane`
--   Drm/Fit: the aspect-ratio rectangle of `modeset_atomic_prepare_commit`
--   Drm/Commit: `modeset_atomic_prepare_commit`, `modeset_perform_modeset`
--   Drm/Output: `modeset_setup_objects`, `modeset_setup_framebuffers`, `modeset_output_create`,
--     `modeset_prepare`, `modeset_output_destroy`, `modeset_cleanup`
--   Drm/Writeback: `modeset_find_writeback`, `modeset_arm_writeback`, `modeset_attach_writeback`,
--     `modeset_detach_writeback`, `modeset_check_writeback`
--   Drm/Pool: the pool of capture buffers of main.cpp, `setup_writeback`, `free_wb_bufs`,
--     `cleanup_writeback`, a client of Drm/Buffers and Drm/Writeback (Freed, Held: who holds what;
--     Settled, Cleaned: how the two functions end)
--   Drm/Open: `modeset_open`
--   Drm/Restore: `restore_planes_zpos`
--   Drm/Listing: `modeset_print_modes`
--   Drm/Tests: sample data, runs, and each theorem at a concrete input
-- the recorder, src/dvr:
--   Dvr/Stamp, Dvr/Crc, Dvr/Keyframe: `write_timestamp`, `write_pcr`, `crc32_mpeg`, `au_is_keyframe` of
--     ts_writer.cpp
--   Dvr/Section: `emit_section`, `emit_psi`
--   Dvr/Pes: `emit_pes` (Demux: a demultiplexer, written from the standard)
--   Dvr/Files: what ts_writer.cpp asks of the C library and of the clock
--   Dvr/Writer: `TsWriter` with its file (Recorded: what the file holds between two access units;
--     Playback, Cut, Streak: recordings from `open` on)
--   Dvr/Player: a player of such files, written from the standard
--   Dvr/Storage: `StorageGuard` of storage_guard.cpp
--   Dvr/Timing: `Dvr::next_frame_duration` of dvr.cpp, whose results are the durations that
--     `TsWriter::write_nal` takes
--   Dvr/Status: `Dvr::update_storage_status` of dvr.cpp, a client of Dvr/Storage
--   Dvr/Queue: the queue and `dvr_state` of dvr.cpp (Steps: its threads in any order; Senders: the calls that
--     post commands; Watchdog: `on_tick`)
--   Dvr/Naming: `build_sequence_pattern` and `generate_filename` of dvr.cpp
--   Dvr/Recorder: the thread of `Dvr` of dvr.cpp: `start`, `stop`, `fail`, `handle_access_unit`, the opening and
--     closing of files, and in Turns `loop`; a client of Dvr/Writer, Dvr/Timing, Dvr/Storage and Dvr/Status
--   Dvr/Tests: sample data, runs, and each theorem at a concrete input
-- the video encoder, src/encoder:
--   Encoder/Calls: what it asks of MPP, of the kernel and of its consumers (Ledger: the accounting of what
--     is held)
--   Encoder/Mpp: `MppEncoder` of mpp_encoder.cpp
--   Encoder/Queue: the queue of `VideoEncoder` of video_encoder.cpp, and `pp_wb_release` of main.cpp
--   Encoder/Stream: its time stamps, keyframes and consumers, and `encode`
--   Encoder/Session: `init`, `teardown`, `ensure_encoder`
--   Encoder/Loop: `loop`, and the steps of all threads (Held, Owned, Stopped: who holds what; Ended: the
--     end of the thread; Pending: the waiting frames)
--   Encoder/Capture: the display thread's capture of a frame, of main.cpp, in front of the encoder
--   Encoder/Tests: each theorem at a concrete input
-- and the packets of the RTP receiver:
--   Codec: `detect_rtp_codec`, `rtp_classify_codec`, `detect_codec_cb` of src/rtp_codec_detector.cpp
--     (Polling: `RtpCodecDecoder::detect_codec`)
-- Common holds the names that all of them share.
--
-- A function of the code that calls the kernel is a function from the log of what was called so far
-- to its result and the longer log, or to a fault (`none`) where the code follows a NULL pointer, an
-- assertion fails, or an array is read out of range. The kernel and libdrm are the parameter
-- `Kernel`, a record with a field for each call, which may answer differently at each log. The log
-- has what is acquired, what is given back, and the atomic states that the kernel accepted; a
-- resource is held as often as it was acquired and not yet given back. A theorem that says
-- `Returns` says that the code does not fault. What theorems assume of the kernel has a name where
-- they do: `Describes` (each property id has a description), `NumbersFromOne` (framebuffers and handles
-- are numbered from 1), `HasPlanes` (the planes are listed and do not change), `HasRates` (each mode has
-- a rate). A `drmModeAtomicReq` is the
-- list of its entries. An error path that the source writes as a label is a function of its own.
--
-- Numbers are natural numbers, with `% 2 ^ 32` where the code's products wrap; an `int` result is
-- `ℤ`. A `float` is a ratio, and each operation rounds by a parameter of which `IsRounding` says
-- what IEEE 754 says of it. Loops of src/drm.c run over lists, so that none needs fuel.
--
-- In Dvr and Codec a byte is a number below 256, a shift is a product or a quotient by a power of two,
-- a mask of low bits a remainder, and `|` of separate fields a sum. `Files` is a record with a
-- field for each call, which may answer by all that was called before, and the log keeps what
-- reaches the file; a short write keeps the bytes that were written. The loops of `emit_pes` run on
-- fuel, the length of the stream and the room of a packet, and each round takes a byte at least:
-- `reassemble-emit_pes` has all of the stream, so the fuel is enough. Durations and `pts` are not
-- negative; the recorder passes durations of 1 at least. `Mounts` has `stat`,
-- `statvfs` and `statfs`, with no result where they fail.
--
-- Dvr/Recorder runs the commands of a list, one turn of `loop` each, and the other threads act between the
-- turns; what they do to the queue at any time is in Dvr/Queue. `Host` has the files, the mounts and
-- `generate_filename`, which may answer by the log; Dvr/Naming has what it does, for a directory whose entries
-- are a list. There the names are bytes, and a number's digits are printed on fuel, the number and one, of
-- which each digit takes one (`strtol-sequence`); what C++ and C do with regular expressions and dates is the
-- parameter `Names`.
--
-- In Codec/Polling a run of the loop is a list of rounds, each with the flags and what the socket answers;
-- `Demuxer` is librtp's demuxer, by the payloads that it hands to the callback, at most `most` in a call.
-- The loop still polls when the list is over.
--
-- In Encoder the code is a function from the log to its result and the longer log; it has no faults.
-- `Calls` has a field for each call of MPP, and for what the consumers and the other threads do: a
-- consumer, or a command that one posts, may call `drain_pending`; `wants_frames_` and `idr_requested`
-- may be stored by others whenever they are read. The other threads touch the queue only under its
-- mutex, so that a run is a sequence of whole steps: an addition to the queue, or a turn of `loop`. MPP's answers to
-- `encode_get_packet` in one loop are a list, which the loops of `drain` and `flush` run over; the end of
-- the list is the timeout or the deadline. A frame is its fence, its slot and its numbers; time stamps are
-- below 2^63. Slots, fences, imported buffers, contexts and configurations are counted; two holders of one
-- number count twice. `Screen` has the pool's flags and what the display asks of the kernel.
--
-- Not modelled: messages on the terminal, the contents of mapped memory, `modeset_cleanup`'s callers, and
-- the parts of the program that mostly pass data between libraries outside the repository: src/main.cpp
-- but the capture and its pool, src/osd, src/config, the RTP receiver, the restreamer, src/wfbcli.cpp and
-- lib/libosd. lib/librtp and lib/inih are copies of other projects' libraries.
pub mod Common
pub mod Drm
pub mod Dvr
pub mod Codec
pub mod Encoder
