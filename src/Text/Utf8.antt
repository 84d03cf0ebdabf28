-- ===== src/Text/Utf8.antt =====
-- The scan of UTF-8 that `str::from_utf8` and `String::from_utf8_lossy` share, as the standard
-- library makes it: the bytes of one character, or the bytes to replace by U+FFFD.
pub mod Padding
pub mod Never
pub mod Cut
use bambu_rs.Prelude.{
  ℕ, zero, suc, Bool, true, false, ◌&&◌, ◌||◌, [], ◌∷◌, ◌++◌, Bytes, length, take, drop, get_or,
  ltb, leb, ◌==◌, if◌then◌else◌, ◌≡◌, refl,
}
use bambu_rs.Outcome.{Outcome, ok, err, invalid_utf8}

pub data Scan : Type 0 where
  char : ℕ → Scan
  ill_formed : ℕ → Scan

abbrev between : ℕ → ℕ → ℕ → Bool
between lo hi c = leb lo c && leb c hi

abbrev is_cont : ℕ → Bool
is_cont = between 0x80 0xbf

-- The second byte that may follow the first of a character of three or of four bytes.
unfoldable pub second_of_3 : ℕ → ℕ → Bool
second_of_3 b c =
    (b == 0xe0 && between 0xa0 0xbf c)
    || (between 0xe1 0xec b && is_cont c)
    || (b == 0xed && between 0x80 0x9f c)
    || (between 0xee 0xef b && is_cont c)

unfoldable pub second_of_4 : ℕ → ℕ → Bool
second_of_4 b c =
    (b == 0xf0 && between 0x90 0xbf c)
    || (between 0xf1 0xf3 b && is_cont c)
    || (b == 0xf4 && between 0x80 0x8f c)

-- The scan at a first byte `b` with `s` behind it. Past the end the library reads a zero.
unfoldable pub scan : ℕ → Bytes → Scan
scan b s =
    let c = get_or s 0 0 in
    let d = get_or s 1 0 in
    let e = get_or s 2 0 in
    if ltb b 0x80
    then char 1
    else if between 0xc2 0xdf b
    then (if is_cont c then char 2 else ill_formed 1)
    else if between 0xe0 0xef b
    then (if second_of_3 b c then if is_cont d then char 3 else ill_formed 2 else ill_formed 1)
    else if between 0xf0 0xf4 b
    then (if second_of_4 b c
        then if is_cont d then if is_cont e then char 4 else ill_formed 3 else ill_formed 2
        else ill_formed 1)
    else ill_formed 1

abbrev pub replacement : Bytes
replacement = 0xef ∷ 0xbf ∷ 0xbd ∷ []

-- A round reads at least one byte, so as many rounds as there are bytes are enough.
unfoldable pub lossy : ℕ → Bytes → Bytes
lossy zero s = []
lossy (suc f) [] = []
lossy (suc f) (b ∷ s) = elim (scan b s) [
  | char n ↦ take n (b ∷ s) ++ lossy f (drop n (b ∷ s))
  | ill_formed n ↦ replacement ++ lossy f (drop n (b ∷ s))
]

-- `String::from_utf8_lossy`
unfoldable pub from_utf8_lossy : Bytes → Bytes
unfolding lossy scan second_of_3 second_of_4
from_utf8_lossy s = lossy (length s) s

unfoldable pub is_utf8 : ℕ → Bytes → Bool
is_utf8 f [] = true
is_utf8 zero (b ∷ s) = false
is_utf8 (suc f) (b ∷ s) = elim (scan b s) [
  | char n ↦ is_utf8 f (drop n (b ∷ s))
  | ill_formed n ↦ false
]

-- A text: the bytes of well-formed characters, one after the other.
abbrev pub IsUtf8 : Bytes → Type 0
IsUtf8 s = is_utf8 (length s) s ≡ true

-- `std::str::from_utf8`
unfoldable pub from_utf8 : Bytes → Outcome Bytes
unfolding is_utf8 scan second_of_3 second_of_4
from_utf8 s = if is_utf8 (length s) s then ok s else err invalid_utf8

lossy_example :
    from_utf8_lossy (0x41 ∷ 0xc3 ∷ 0xa9 ∷ 0xe2 ∷ 0x82 ∷ 0x42 ∷ [])
    ≡ 0x41 ∷ 0xc3 ∷ 0xa9 ∷ 0xef ∷ 0xbf ∷ 0xbd ∷ 0x42 ∷ []
unfolding from_utf8_lossy
lossy_example = refl
