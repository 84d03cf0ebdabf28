-- ===== src/Crates/Defs.antt =====
-- The calls that the codecs make of the crates, and what the crates document of them.
use bambu_rs.Crates.Search.{IsFirst}
use bambu_rs.Prelude.{
  ℕ, ◌≤◌, ◌≡◌, ◌≢◌, Option, none, some, ◌++◌, [], ◌∷◌, Bytes, length, take, drop,
}

-- `none` for a panic.
pub record Crates : Type 0 where
  -- `memchr::memmem::find(haystack, needle)`
  pub find : Bytes → Bytes → Option ℕ
  -- `memchr::memchr(byte, haystack)`
  pub memchr : ℕ → Bytes → Option ℕ
  -- `BytesMut::split_to(at)`: the bytes before `at`, and what stays in the buffer
  pub split_to : Bytes → ℕ → Option (Bytes × Bytes)
  -- `BytesMut::split_off(at)`: the bytes from `at`, and what stays in the buffer
  pub split_off : Bytes → ℕ → Option (Bytes × Bytes)
  -- `BytesMut::advance(count)`
  pub advance : Bytes → ℕ → Option Bytes
  -- `BytesMut::extend_from_slice(bytes)`, and `BufMut::put(bytes)`
  pub extend_from_slice : Bytes → Bytes → Bytes

pub record Documented (c : Crates) : Type 0 where
  pub find_some :
      (haystack needle : Bytes) (i : ℕ)
      → c.find haystack needle ≡ some i
      → IsFirst needle haystack i
  pub find_none :
      (haystack needle before after : Bytes)
      → c.find haystack needle ≡ none
      → haystack ≢ before ++ (needle ++ after)
  pub memchr_some :
      (b : ℕ) (haystack : Bytes) (i : ℕ)
      → c.memchr b haystack ≡ some i
      → IsFirst (b ∷ []) haystack i
  pub memchr_none :
      (b : ℕ) (haystack before after : Bytes)
      → c.memchr b haystack ≡ none
      → haystack ≢ before ++ (b ∷ after)
  pub split_to_lem :
      (buf : Bytes) (at : ℕ) → at ≤ length buf → c.split_to buf at ≡ some (take at buf, drop at buf)
  pub split_off_lem :
      (buf : Bytes) (at : ℕ)
      → at ≤ length buf
      → c.split_off buf at ≡ some (drop at buf, take at buf)
  pub advance_lem : (buf : Bytes) (n : ℕ) → n ≤ length buf → c.advance buf n ≡ some (drop n buf)
  pub extend_from_slice_lem : (buf bytes : Bytes) → c.extend_from_slice buf bytes ≡ buf ++ bytes
