-- ===== src/Dvr.antt =====
-- The recorder (src/dvr).
pub mod Stamp
pub mod Pes
pub mod Crc
pub mod Section
pub mod Keyframe
pub mod Files
pub mod Player
pub mod Writer
pub mod Storage
pub mod Timing
pub mod Status
pub mod Queue
pub mod Recorder
pub mod Naming
mod Tests
