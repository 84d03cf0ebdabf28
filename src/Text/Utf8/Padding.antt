-- ===== src/Text/Utf8/Padding.antt =====
-- A text padded with zeros is read back whole.
use bambu_rs.Prelude.{
  ℕ, zero, suc, ◌+◌, ◌≤◌, ◌<◌, ◌≡◌, refl, ap, ap₂, ◌∙◌, inl, inr, ℕ-cases, true, [], ◌∷◌, ◌++◌,
  arith, Bytes, length, take, drop, get_or, replicate, take-append_of_le, drop-append_of_le,
  length-append, length-replicate, length-drop, append_assoc, take-append-drop,
}
use bambu_rs.Text.Utf8.{
  Scan, char, ill_formed, scan, lossy, from_utf8_lossy, is_utf8, IsUtf8, second_of_3, second_of_4,
}

get_or-padded : (s : Bytes) (k i : ℕ) → get_or (s ++ replicate k 0) i 0 ≡ get_or s i 0
get_or-padded [] zero i = refl
get_or-padded [] (suc k) zero = refl
get_or-padded [] (suc k) (suc i) = get_or-padded [] k i
get_or-padded (x ∷ s) k zero = refl
get_or-padded (x ∷ s) k (suc i) = get_or-padded s k i

scan-padded : (b : ℕ) (s : Bytes) (k : ℕ) → scan b (s ++ replicate k 0) ≡ scan b s
unfolding scan
scan-padded b s k = rw (get_or-padded s k 0, get_or-padded s k 1, get_or-padded s k 2)

get_or_pos : (s : Bytes) (i : ℕ) → 0 < get_or s i 0 → i < length s
get_or_pos [] i h = absurd (omega arith)
get_or_pos (x ∷ s) zero h = omega arith
get_or_pos (x ∷ s) (suc i) h = omega (arith, get_or_pos s i h)

second_of_3_pos : (b c : ℕ) → second_of_3 b c ≡ true → 0 < c
unfolding second_of_3
second_of_3_pos b c h = ground arith

second_of_4_pos : (b c : ℕ) → second_of_4 b c ≡ true → 0 < c
unfolding second_of_4
second_of_4_pos b c h = ground arith

-- A character that was read lies in the text.
pub scan-char-le : (b : ℕ) (s : Bytes) (n : ℕ) → scan b s ≡ char n → (0 < n) × (n ≤ suc (length s))
unfolding scan
scan-char-le b s n h = ground (
  arith,
  get_or_pos s 0,
  get_or_pos s 1,
  get_or_pos s 2,
  second_of_3_pos b (get_or s 0 0),
  second_of_4_pos b (get_or s 0 0),
)

lossy-char :
    (f b : ℕ) (s : Bytes) (n : ℕ)
    → scan b s ≡ char n
    → lossy (suc f) (b ∷ s) ≡ take n (b ∷ s) ++ lossy f (drop n (b ∷ s))
unfolding lossy
lossy-char f b s n h = ground arith

pub is_utf8-char :
    (f b : ℕ) (s : Bytes)
    → is_utf8 (suc f) (b ∷ s) ≡ true
    → (n : ℕ) × (scan b s ≡ char n) × (is_utf8 f (drop n (b ∷ s)) ≡ true)
unfolding is_utf8
is_utf8-char f b s h = go (scan b s) refl
  where
    go :
        (r : Scan)
        → scan b s ≡ r
        → (n : ℕ) × (scan b s ≡ char n) × (is_utf8 f (drop n (b ∷ s)) ≡ true)
    go (char n) e = (n, e, ground arith)
    go (ill_formed n) e = absurd (ground arith)

lossy-zeros : (f k : ℕ) → k ≤ f → lossy f (replicate k 0) ≡ replicate k 0
unfolding lossy scan
lossy-zeros f zero h = elim (ℕ-cases f) [ inl e ↦ rw e | inr (g, e) ↦ rw e ]
lossy-zeros zero (suc k) h = absurd (omega arith)
lossy-zeros (suc f) (suc k) h = ap (◌∷◌ 0) (lossy-zeros f k (omega arith))

lossy-padded :
    (f g : ℕ) (s : Bytes) (k : ℕ)
    → is_utf8 g s ≡ true
    → length s + k ≤ f
    → lossy f (s ++ replicate k 0) ≡ s ++ replicate k 0
lossy-padded f g [] k h fits = lossy-zeros f k (omega arith)
lossy-padded zero g (b ∷ s) k h fits = absurd (omega arith)
lossy-padded (suc f) zero (b ∷ s) k h fits = unfold is_utf8 in cc
lossy-padded (suc f) (suc g) (b ∷ s) k h fits =
    let (n, e, rest) = is_utf8-char g b s h in
    let (pos, small) = scan-char-le b s n e in
    lossy-char f b (s ++ replicate k 0) n (scan-padded b s k ∙ e)
    ∙ ap₂ ◌++◌ (take-append_of_le (b ∷ s) (replicate k 0) n small) (
        ap (lossy f) (drop-append_of_le (b ∷ s) (replicate k 0) n small)
        ∙ lossy-padded f g (drop n (b ∷ s)) k rest (omega (arith, length-drop n (b ∷ s))))
    ∙ rw (← append_assoc) (ap (λ t. t ++ replicate k 0) (take-append-drop n (b ∷ s)))

-- A text with zeros behind it is read back as it is.
pub from_utf8_lossy-padded :
    (s : Bytes) (k : ℕ) → IsUtf8 s → from_utf8_lossy (s ++ replicate k 0) ≡ s ++ replicate k 0
unfolding from_utf8_lossy
from_utf8_lossy-padded s k h =
    lossy-padded (length (s ++ replicate k 0)) (length s) s k h
      (omega (arith, length-append s (replicate k 0), length-replicate {A = ℕ} k 0))
