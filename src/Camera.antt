-- ===== src/Camera.antt =====
-- The camera: src/camera.rs and src/camera/codec.rs.
pub mod Codec
pub mod Frames
pub mod Auth
pub mod Stream
pub mod Playback
pub mod Chunks
pub mod Client
pub mod Connect
pub mod Tests
pub mod UnitTests
pub mod Ending
pub mod Cuts
