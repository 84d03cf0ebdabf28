-- ===== src/Examples.antt =====
-- The programs under examples/.
pub mod Config
pub mod Mjpeg
pub mod Multipart
pub mod NoGap
pub mod Main
pub mod Relay
pub mod Watch
pub mod Tests
pub mod WatchTests
