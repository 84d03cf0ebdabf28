-- ===== src/Ftp.antt =====
-- The file server: src/file.rs and src/file/.
pub mod Request
pub mod Response
pub mod Codec
pub mod Lines
pub mod Passive
pub mod PassiveSound
pub mod Replies
pub mod NoPanic
pub mod Commands
pub mod Metadata
pub mod Client
pub mod Session
pub mod Login
pub mod Chmod
pub mod Dates
pub mod Listing
pub mod Password
pub mod Unspecified
pub mod Failed
pub mod Stream
pub mod Chunks
pub mod Typed
pub mod Sends
pub mod Order
pub mod Tests
pub mod SessionTests
pub mod Connect
pub mod Insecure
pub mod UnitTests
pub mod InsecureTests
pub mod Printed
pub mod EndToEnd
pub mod EndToEndTests
