-- ===== src/Drm.antt =====
-- src/drm.c and src/drm.h: KMS mode setting through libdrm.
pub mod Modes
pub mod Kernel
pub mod Buffers
pub mod Properties
pub mod State
pub mod Fit
pub mod Commit
pub mod Crtc
pub mod Planes
pub mod Output
pub mod Writeback
pub mod Pool
pub mod Open
pub mod Restore
pub mod Listing
mod Tests
