-- ===== src/Text/Utf8/Cut.antt =====
-- What stands behind an ASCII character of a text is a text.
use bambu_rs.Prelude.{
  ℕ, zero, suc, ◌<◌, ◌≤◌, ◌≡◌, refl, sym, ap, ◌∙◌, true, [], ◌∷◌, ◌++◌, arith, Bytes, length, drop,
  get_or, length-drop, drop-append_of_le,
}
use bambu_rs.Text.Utf8.{char, scan, second_of_3, second_of_4, is_utf8, IsUtf8}
use bambu_rs.Text.Utf8.Padding.{is_utf8-char, scan-char-le}

second_of_3-ge : (b c : ℕ) → second_of_3 b c ≡ true → 0x80 ≤ c
unfolding second_of_3
second_of_3-ge b c h = ground arith

second_of_4-ge : (b c : ℕ) → second_of_4 b c ≡ true → 0x80 ≤ c
unfolding second_of_4
second_of_4-ge b c h = ground arith

-- The bytes of a character behind its first one are not ASCII.
scan-second : (b : ℕ) (s : Bytes) (n : ℕ) → scan b s ≡ char n → 1 < n → 0x80 ≤ get_or s 0 0
unfolding scan
scan-second b s n h k =
    ground (arith, second_of_3-ge b (get_or s 0 0), second_of_4-ge b (get_or s 0 0))

scan-third : (b : ℕ) (s : Bytes) (n : ℕ) → scan b s ≡ char n → 2 < n → 0x80 ≤ get_or s 1 0
unfolding scan
scan-third b s n h k = ground arith

scan-fourth : (b : ℕ) (s : Bytes) (n : ℕ) → scan b s ≡ char n → 3 < n → 0x80 ≤ get_or s 2 0
unfolding scan
scan-fourth b s n h k = ground arith

scan-at_most : (b : ℕ) (s : Bytes) (n : ℕ) → scan b s ≡ char n → n ≤ 4
unfolding scan
scan-at_most b s n h = ground arith

scan-ascii : (b : ℕ) (s : Bytes) → b < 0x80 → scan b s ≡ char 1
unfolding scan
scan-ascii b s h = ground arith

-- A character that begins in front of an ASCII byte ends in front of it.
scan-ends :
    (x : ℕ) (p : Bytes) (b : ℕ) (s : Bytes) (n : ℕ)
    → b < 0x80
    → scan x (p ++ b ∷ s) ≡ char n
    → n ≤ suc (length p)
scan-ends x [] b s n small e = ground (arith, scan-second x (b ∷ s) n e)
scan-ends x (y ∷ []) b s n small e = ground (arith, scan-third x (y ∷ b ∷ s) n e)
scan-ends x (y ∷ z ∷ []) b s n small e = ground (arith, scan-fourth x (y ∷ z ∷ b ∷ s) n e)
scan-ends x (y ∷ z ∷ w ∷ p) b s n small e =
    omega (arith, scan-at_most x (y ∷ z ∷ w ∷ p ++ b ∷ s) n e)

-- As many rounds as a text has bytes are enough.
is_utf8-step :
    (f b : ℕ) (s : Bytes) (n : ℕ)
    → scan b s ≡ char n
    → is_utf8 (suc f) (b ∷ s) ≡ is_utf8 f (drop n (b ∷ s))
unfolding is_utf8
is_utf8-step f b s n h = ground arith

is_utf8-enough : (g f : ℕ) (s : Bytes) → is_utf8 g s ≡ true → length s ≤ f → is_utf8 f s ≡ true
is_utf8-enough g f [] h k = unfold is_utf8 in refl
is_utf8-enough zero f (b ∷ s) h k = unfold is_utf8 in cc
is_utf8-enough (suc g) zero (b ∷ s) h k = absurd (omega arith)
is_utf8-enough (suc g) (suc f) (b ∷ s) h k =
    let (n, e, rest) = is_utf8-char g b s h in
    let (pos, _) = scan-char-le b s n e in
    is_utf8-step f b s n e
    ∙ is_utf8-enough g f (drop n (b ∷ s)) rest (omega (arith, length-drop n (b ∷ s)))

is_utf8-behind :
    (f : ℕ) (p : Bytes) (b : ℕ) (s : Bytes)
    → b < 0x80
    → is_utf8 f (p ++ b ∷ s) ≡ true
    → (g : ℕ) × (is_utf8 g s ≡ true)
is_utf8-behind zero [] b s small h = unfold is_utf8 in cc
is_utf8-behind zero (x ∷ p) b s small h = unfold is_utf8 in cc
is_utf8-behind (suc f) [] b s small h = (f, sym (is_utf8-step f b s 1 (scan-ascii b s small)) ∙ h)
is_utf8-behind (suc f) (x ∷ p) b s small h =
    let (n, e, rest) = is_utf8-char f x (p ++ b ∷ s) h in
    let cut = drop-append_of_le (x ∷ p) (b ∷ s) n (scan-ends x p b s n small e) in
    is_utf8-behind f (drop n (x ∷ p)) b s small (sym (ap (is_utf8 f) cut) ∙ rest)

pub IsUtf8-behind : (p : Bytes) (b : ℕ) (s : Bytes) → b < 0x80 → IsUtf8 (p ++ b ∷ s) → IsUtf8 s
IsUtf8-behind p b s small h =
    let (g, e) = is_utf8-behind (length (p ++ b ∷ s)) p b s small h in
    is_utf8-enough g (length s) s e (omega arith)
