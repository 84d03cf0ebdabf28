-- ===== src/Crates.antt =====
-- The third-party crates that the codecs call: `memchr` and `bytes`. Their code is not part of the
-- repository, so the codecs take the calls as a parameter, `Crates`, and the theorems assume what
-- the crates document of them, `Documented`.
mod Search
mod Defs
mod Laws
pub mod Reference
pub use Defs.{Crates, Documented}
pub use Search.*
unfoldable pub use Search.{is_prefix, first_match}
pub use Laws.{find-eq, memchr-eq}
