-- ===== src/Text/Decimal.antt =====
-- `parse` and `Display` of the unsigned integers. A type is given by its bound, `2 ^ 8` for `u8`.
pub mod RoundTrip
use bambu_rs.Prelude.{
  ℕ, zero, suc, ◌+◌, ◌-◌, ◌*◌, ◌/◌, ◌%◌, ◌^◌, ◌||◌, ◌&&◌, Bool, true, false, Option, none, some, [],
  ◌∷◌, Bytes, ltb, leb, ◌==◌, if◌then◌else◌, ◌≡◌, refl, codes,
}

-- The loop of `from_str_radix` in base ten.
unfoldable pub parse_digits : ℕ → Bytes → ℕ → Option ℕ
parse_digits bound [] n = some n
parse_digits bound (c ∷ s) n =
    let m = n * 10 + (c - b'0') in
    let rest = parse_digits bound s m in
    if leb b'0' c && leb c b'9' && ltb m bound then rest else none

-- `str::parse`: a `+` may stand in front of the digits, but neither sign may stand alone.
unfoldable pub parse : ℕ → Bytes → Option ℕ
unfolding parse_digits
parse bound [] = none
parse bound (c ∷ []) = if c == b'+' || c == b'-' then none else parse_digits bound (c ∷ []) 0
parse bound (c ∷ d ∷ s) =
    if c == b'+' then parse_digits bound (d ∷ s) 0 else parse_digits bound (c ∷ d ∷ s) 0

-- Each round divides `n` by ten, so `n` rounds are enough.
unfoldable pub digits : ℕ → ℕ → Bytes → Bytes
digits zero n out = out
digits (suc f) n out = elim (n == 0) [
  | true ↦ out
  | false ↦ digits f (n / 10) ((b'0' + n % 10) ∷ out)
]

-- `Display::fmt`
unfoldable pub display : ℕ → Bytes
unfolding digits
display n = if n == 0 then b'0' ∷ [] else digits n n []

parse_signs :
    (parse (2 ^ 16) (codes "+220") ≡ some 220)
    × (parse (2 ^ 16) (codes "-1") ≡ none)
    × (parse (2 ^ 16) (codes "65536") ≡ none)
unfolding parse
parse_signs = (refl, refl, refl)

display_large : display 18446744073709551615 ≡ codes "18446744073709551615"
unfolding display
display_large = refl
