-- ===== src/Text/Words/RoundTrip.antt =====
-- `split_whitespace` undoes the joining of ASCII words with runs of blanks.
use bambu_rs.Prelude.{
  ℕ, zero, suc, ◌≤◌, ◌<◌, ◌≡◌, ◌≢◌, refl, sym, ap, ◌∙◌, true, false, List, [], ◌∷◌, ◌++◌, map,
  arith, Bytes, All, All-append, All-replicate, length, replicate, append_assoc, append-nil,
}
use bambu_rs.Text.Utf8.{scan}
use bambu_rs.Text.Words.{chars, chars_within, is_whitespace, flush, words, split_whitespace}

-- A printed ASCII character.
abbrev pub IsVisible : ℕ → Type 0
IsVisible c = (0x21 ≤ c) × (c < 0x7f)

abbrev pub IsWord : Bytes → Type 0
IsWord w = (w ≢ []) × All IsVisible w

abbrev pub single : ℕ → Bytes
single c = c ∷ []

abbrev pub word_of : ℕ × Bytes → Bytes
word_of e = e.1

-- A first word, then each word behind one blank and as many more as its number says.
abbrev pub spaced_tail : List (ℕ × Bytes) → Bytes
spaced_tail [] = []
spaced_tail ((gap, w) ∷ rest) = 0x20 ∷ (replicate gap 0x20 ++ (w ++ spaced_tail rest))

abbrev pub spaced : Bytes → List (ℕ × Bytes) → Bytes
spaced w rest = w ++ spaced_tail rest

chars_within-ascii : (s : Bytes) → All (λ c. c < 0x80) s → chars_within (length s) s ≡ map single s
unfolding chars_within scan
chars_within-ascii [] h = refl
chars_within-ascii (b ∷ s) (hb, hs) = ground (arith, chars_within-ascii s hs)

words-visible :
    (w s current : Bytes)
    → All IsVisible w
    → words (map single (w ++ s)) current ≡ words (map single s) (current ++ w)
unfolding words
words-visible [] s current h = ap (words (map single s)) (sym (append-nil current))
words-visible (c ∷ w) s current (hc, hw) =
    let plain : is_whitespace (c ∷ []) ≡ false = unfold is_whitespace in ground arith in
    ap
      (λ b. elim b [
        | true ↦ flush current (words (map single (w ++ s)) [])
        | false ↦ words (map single (w ++ s)) (current ++ c ∷ [])
      ])
      plain
    ∙ (words-visible w s (current ++ c ∷ []) hw
        ∙ ap (words (map single s)) (append_assoc current (c ∷ []) w))

words-blanks :
    (gap : ℕ) (s : Bytes)
    → words (map single (replicate gap 0x20 ++ s)) [] ≡ words (map single s) []
unfolding words is_whitespace flush
words-blanks zero s = refl
words-blanks (suc gap) s = words-blanks gap s

flush-word : (w : Bytes) (rest : List Bytes) → w ≢ [] → flush w rest ≡ w ∷ rest
unfolding flush
flush-word [] rest h = absurd (h refl)
flush-word (c ∷ w) rest h = refl

words-spaced :
    (w : Bytes) (rest : List (ℕ × Bytes))
    → IsWord w
    → All (λ e. IsWord (word_of e)) rest
    → words (map single (spaced w rest)) [] ≡ w ∷ map word_of rest
unfolding words is_whitespace
words-spaced w [] (ne, h) hs = words-visible w [] [] h ∙ flush-word w [] ne
words-spaced w ((gap, v) ∷ rest) (ne, h) (hv, hs) =
    words-visible w (spaced_tail ((gap, v) ∷ rest)) [] h
    ∙ flush-word w _ ne
    ∙ ap (λ t. w ∷ t) (words-blanks gap (v ++ spaced_tail rest) ∙ words-spaced v rest hv hs)

visible-ascii : (s : Bytes) → All IsVisible s → All (λ c. c < 0x80) s
visible-ascii [] h = tt
visible-ascii (c ∷ s) (hc, hs) = (omega arith, visible-ascii s hs)

spaced_tail-ascii :
    (rest : List (ℕ × Bytes))
    → All (λ e. IsWord (word_of e)) rest
    → All (λ c. c < 0x80) (spaced_tail rest)
spaced_tail-ascii [] h = tt
spaced_tail-ascii ((gap, v) ∷ rest) ((ne, hv), hs) = (
  omega arith,
  All-append _ (replicate gap 0x20) (v ++ spaced_tail rest) (All-replicate _ gap 0x20 (omega arith))
      (All-append _ v (spaced_tail rest) (visible-ascii v hv) (spaced_tail-ascii rest hs)),
)

pub split_whitespace-spaced :
    (w : Bytes) (rest : List (ℕ × Bytes))
    → IsWord w
    → All (λ e. IsWord (word_of e)) rest
    → split_whitespace (spaced w rest) ≡ w ∷ map word_of rest
unfolding split_whitespace chars
split_whitespace-spaced w rest h hs =
    ap (λ t. words t [])
      (chars_within-ascii (spaced w rest)
        (All-append _ w (spaced_tail rest) (visible-ascii w h.1) (spaced_tail-ascii rest hs)))
    ∙ words-spaced w rest h hs

pub chars-visible : (s : Bytes) → All IsVisible s → chars s ≡ map single s
unfolding chars
chars-visible s h = chars_within-ascii s (visible-ascii s h)
