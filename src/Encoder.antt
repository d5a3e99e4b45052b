-- ===== src/Encoder.antt =====
-- The video encoder (src/encoder): MPP's session (`MppEncoder`), the thread that drives it and hands the
-- access units on (`VideoEncoder`), and the queue in front of it.
pub mod Calls
pub mod Mpp
pub mod Queue
pub mod Stream
pub mod Session
pub mod Loop
pub mod Capture
mod Tests
