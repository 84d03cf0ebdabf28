-- ===== src/Text.antt =====
-- The parts of Rust's `str`, `String` and slices that the crate uses. A text is its UTF-8 bytes.
pub mod Slice
pub mod Utf8
pub mod Trim
pub mod Decimal
pub mod Split
pub mod Words
pub mod Equal
