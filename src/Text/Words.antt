-- ===== src/Text/Words.antt =====
-- `chars`, `char::is_whitespace`, `split_whitespace` and `join` of a text. A character is its bytes.
pub mod RoundTrip
use bambu_rs.Prelude.{
  ℕ, zero, suc, Bool, true, false, ◌&&◌, ◌||◌, List, [], ◌∷◌, ◌++◌, Bytes, length, take, drop, leb,
  ◌==◌, ◌≡◌, refl, codes,
}
use bambu_rs.Text.Utf8.{scan, char, ill_formed, second_of_3, second_of_4}

-- A round reads a character, so as many rounds as there are bytes are enough. A text holds nothing
-- ill formed; such bytes would be passed on as they are.
unfoldable pub chars_within : ℕ → Bytes → List Bytes
chars_within zero s = []
chars_within (suc f) [] = []
chars_within (suc f) (b ∷ s) = elim (scan b s) [
  | char n ↦ take n (b ∷ s) ∷ chars_within f (drop n (b ∷ s))
  | ill_formed n ↦ take n (b ∷ s) ∷ chars_within f (drop n (b ∷ s))
]

unfoldable pub chars : Bytes → List Bytes
unfolding chars_within scan second_of_3 second_of_4
chars s = chars_within (length s) s

-- The characters with the property White_Space.
unfoldable pub is_whitespace : Bytes → Bool
is_whitespace (a ∷ []) = (leb 0x09 a && leb a 0x0d) || a == 0x20
is_whitespace (a ∷ b ∷ []) = a == 0xc2 && (b == 0x85 || b == 0xa0)
is_whitespace (a ∷ b ∷ c ∷ []) =
    (a == 0xe1 && b == 0x9a && c == 0x80)
    || (a == 0xe2
        && b == 0x80
        && ((leb 0x80 c && leb c 0x8a) || c == 0xa8 || c == 0xa9 || c == 0xaf))
    || (a == 0xe2 && b == 0x81 && c == 0x9f)
    || (a == 0xe3 && b == 0x80 && c == 0x80)
is_whitespace _ = false

-- A word that ends, if it holds anything.
unfoldable pub flush : Bytes → List Bytes → List Bytes
flush [] rest = rest
flush (c ∷ s) rest = (c ∷ s) ∷ rest

unfoldable pub words : List Bytes → Bytes → List Bytes
unfolding flush is_whitespace
words [] current = flush current []
words (c ∷ s) current = elim (is_whitespace c) [
  | true ↦ flush current (words s [])
  | false ↦ words s (current ++ c)
]

-- `str::split_whitespace`
unfoldable pub split_whitespace : Bytes → List Bytes
unfolding words chars
split_whitespace s = words (chars s) []

split_whitespace_example :
    split_whitespace (codes "drw-rw-rw-   1 usr1")
    ≡ codes "drw-rw-rw-" ∷ codes "1" ∷ codes "usr1" ∷ []
unfolding split_whitespace
split_whitespace_example = refl
