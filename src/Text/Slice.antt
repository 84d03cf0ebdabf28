-- ===== src/Text/Slice.antt =====
-- Slices of bytes and the conversion of `u32` from and to little-endian bytes.
use bambu_rs.Prelude.{
  ℕ, ◌+◌, ◌-◌, ◌*◌, ◌/◌, ◌%◌, ◌^◌, ◌≤◌, ◌<◌, ◌≡◌, refl, ap, All, ◌++◌, [], ◌∷◌, ◌&&◌, arith, Bytes,
  length, take, drop, leb, le→leb, if◌then◌else◌,
}
use bambu_rs.Outcome.{Outcome, ok, panic}

-- `&s[from..to]`
abbrev pub slice : Bytes → ℕ → ℕ → Outcome Bytes
slice s from to =
    if leb from to && leb to (length s) then ok (take (to - from) (drop from s)) else panic

-- `&s[from..]`
abbrev pub slice_from : Bytes → ℕ → Outcome Bytes
slice_from s from = if leb from (length s) then ok (drop from s) else panic

-- `u32::from_le_bytes(s.try_into().unwrap())`
unfoldable pub u32_from_le_bytes : Bytes → Outcome ℕ
u32_from_le_bytes (a ∷ b ∷ c ∷ d ∷ []) = ok (a + 256 * b + 65536 * c + 16777216 * d)
u32_from_le_bytes _ = panic

-- `n.to_le_bytes()`
abbrev pub u32_to_le_bytes : ℕ → Bytes
u32_to_le_bytes n = n % 256 ∷ n / 256 % 256 ∷ n / 65536 % 256 ∷ n / 16777216 % 256 ∷ []

pub slice-eq :
    (s : Bytes) (from to : ℕ)
    → from ≤ to
    → to ≤ length s
    → slice s from to ≡ ok (take (to - from) (drop from s))
slice-eq s from to h k = rw (le→leb from to h, le→leb to (length s) k)

pub slice_from-eq : (s : Bytes) (from : ℕ) → from ≤ length s → slice_from s from ≡ ok (drop from s)
slice_from-eq s from h = rw (le→leb from (length s) h)

-- Four bytes make a word.
pub u32_from_le_bytes_total : (s : Bytes) → length s ≡ 4 → (n : ℕ) × (u32_from_le_bytes s ≡ ok n)
unfolding u32_from_le_bytes
u32_from_le_bytes_total (a ∷ b ∷ c ∷ d ∷ []) h = (a + 256 * b + 65536 * c + 16777216 * d, refl)
u32_from_le_bytes_total [] h = absurd (omega arith)
u32_from_le_bytes_total (a ∷ []) h = absurd (omega arith)
u32_from_le_bytes_total (a ∷ b ∷ []) h = absurd (omega arith)
u32_from_le_bytes_total (a ∷ b ∷ c ∷ []) h = absurd (omega arith)
u32_from_le_bytes_total (a ∷ b ∷ c ∷ d ∷ e ∷ s) h = absurd (omega arith)

pub u32_from-to_le_bytes : (n : ℕ) → n < 2 ^ 32 → u32_from_le_bytes (u32_to_le_bytes n) ≡ ok n
unfolding u32_from_le_bytes
u32_from-to_le_bytes n h = ap ok (omega arith)

abbrev pub IsByte : ℕ → Type 0
IsByte c = c < 256

-- A word determines its bytes.
pub u32_from_le_bytes_inv :
    (s : Bytes) (n : ℕ)
    → All IsByte s
    → u32_from_le_bytes (take 4 s) ≡ ok n
    → s ≡ u32_to_le_bytes n ++ drop 4 s
unfolding u32_from_le_bytes
u32_from_le_bytes_inv [] n h e = cc
u32_from_le_bytes_inv (a ∷ []) n h e = cc
u32_from_le_bytes_inv (a ∷ b ∷ []) n h e = cc
u32_from_le_bytes_inv (a ∷ b ∷ c ∷ []) n h e = cc
u32_from_le_bytes_inv (a ∷ b ∷ c ∷ d ∷ s) n h e =
    let v : n ≡ a + 256 * b + 65536 * c + 16777216 * d = ground arith in
    let e0 : a ≡ n % 256 = omega arith in
    let e1 : b ≡ n / 256 % 256 = omega arith in
    let e2 : c ≡ n / 65536 % 256 = omega arith in
    let e3 : d ≡ n / 16777216 % 256 = omega arith in cc
