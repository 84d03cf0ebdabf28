-- ===== src/Text/Utf8/Never.antt =====
-- The byte 0xff stands in no text.
use bambu_rs.Prelude.{
  ℕ, zero, suc, ◌<◌, ◌≡◌, ◌⊎◌, inl, inr, refl, subst, Bool, true, false, [], ◌∷◌, arith, Bytes,
  Lacks, All-append, length, take, drop, take-append-drop, get_or, ltb, leb, ◌&&◌, if◌then◌else◌,
}
use bambu_rs.Text.Utf8.{Scan, char, ill_formed, scan, second_of_3, second_of_4, is_utf8, IsUtf8}

if-char :
    (t : Bool) (x y : Scan) (n : ℕ)
    → (if t then x else y) ≡ char n
    → ((t ≡ true) × (x ≡ char n)) ⊎ ((t ≡ false) × (y ≡ char n))
if-char true x y n h = inl (refl, h)
if-char false x y n h = inr (refl, h)

-- A test that leads to an ill-formed byte if it fails holds.
if-ill :
    (t : Bool) (x : Scan) (k n : ℕ)
    → (if t then x else ill_formed k) ≡ char n
    → (t ≡ true) × (x ≡ char n)
if-ill true x k n h = (refl, h)
if-ill false x k n h = absurd (ground arith)

second_of_3-lt : (b c : ℕ) → second_of_3 b c ≡ true → c < 0xff
unfolding second_of_3
second_of_3-lt b c h = ground arith

second_of_4-lt : (b c : ℕ) → second_of_4 b c ≡ true → c < 0xff
unfolding second_of_4
second_of_4-lt b c h = ground arith

two_bytes : (b : ℕ) (s : Bytes) → b < 0xff → get_or s 0 0 < 0xff → Lacks 0xff (take 2 (b ∷ s))
two_bytes b [] h k = omega arith
two_bytes b (c ∷ s) h k = omega arith

three_bytes :
    (b : ℕ) (s : Bytes)
    → b < 0xff
    → get_or s 0 0 < 0xff
    → get_or s 1 0 < 0xff
    → Lacks 0xff (take 3 (b ∷ s))
three_bytes b [] h k l = omega arith
three_bytes b (c ∷ []) h k l = omega arith
three_bytes b (c ∷ d ∷ s) h k l = omega arith

four_bytes :
    (b : ℕ) (s : Bytes)
    → b < 0xff
    → get_or s 0 0 < 0xff
    → get_or s 1 0 < 0xff
    → get_or s 2 0 < 0xff
    → Lacks 0xff (take 4 (b ∷ s))
four_bytes b [] h k l m = omega arith
four_bytes b (c ∷ []) h k l m = omega arith
four_bytes b (c ∷ d ∷ []) h k l m = omega arith
four_bytes b (c ∷ d ∷ e ∷ s) h k l m = omega arith

char_inj : (m n : ℕ) → char m ≡ char n → m ≡ n
char_inj m n h = cc

cont-lt : (c : ℕ) → (leb 0x80 c && leb c 0xbf) ≡ true → c < 0xff
cont-lt c h = ground arith

abbrev within : ℕ → ℕ → ℕ → Bool
within lo hi c = leb lo c && leb c hi

-- The scan, from the shortest character on.
abbrev scan_2 : ℕ → Scan
scan_2 c = if within 0x80 0xbf c then char 2 else ill_formed 1

abbrev scan_3 : ℕ → ℕ → ℕ → Scan
scan_3 b c d =
    if second_of_3 b c then if within 0x80 0xbf d then char 3 else ill_formed 2 else ill_formed 1

abbrev scan_4 : ℕ → ℕ → ℕ → ℕ → Scan
scan_4 b c d e =
    if second_of_4 b c
    then if within 0x80 0xbf d
      then if within 0x80 0xbf e then char 4 else ill_formed 3
      else ill_formed 2
    else ill_formed 1

abbrev from_4 : ℕ → ℕ → ℕ → ℕ → Scan
from_4 b c d e = if within 0xf0 0xf4 b then scan_4 b c d e else ill_formed 1

abbrev from_3 : ℕ → ℕ → ℕ → ℕ → Scan
from_3 b c d e = if within 0xe0 0xef b then scan_3 b c d else from_4 b c d e

abbrev from_2 : ℕ → ℕ → ℕ → ℕ → Scan
from_2 b c d e = if within 0xc2 0xdf b then scan_2 c else from_3 b c d e

-- The bytes of one character.
scan-Lacks : (b : ℕ) (s : Bytes) (n : ℕ) → scan b s ≡ char n → Lacks 0xff (take n (b ∷ s))
unfolding scan
scan-Lacks b s n h =
    let c = get_or s 0 0 in
    let d = get_or s 1 0 in
    let e = get_or s 2 0 in
    let of_length = λ (k : ℕ) (same : char k ≡ char n) (lacks : Lacks 0xff (take k (b ∷ s))).
      subst (λ m. Lacks 0xff (take m (b ∷ s))) (char_inj k n same) lacks in
    elim (if-char (ltb b 0x80) (char 1) (from_2 b c d e) n h) [
      | inl (t, q) ↦ of_length 1 q (ground arith)
      | inr (_, h2) ↦ elim (if-char (within 0xc2 0xdf b) (scan_2 c) (from_3 b c d e) n h2) [
        | inl (t, q) ↦
            let (u, r) = if-ill (within 0x80 0xbf c) (char 2) 1 n q in
            of_length 2 r (two_bytes b s (ground arith) (cont-lt c u))
        | inr (_, h3) ↦ elim (if-char (within 0xe0 0xef b) (scan_3 b c d) (from_4 b c d e) n h3) [
          | inl (t, q) ↦
              let (u, r) =
                if-ill (second_of_3 b c) (if within 0x80 0xbf d then char 3 else ill_formed 2) 1 n
                  q in
              let (v, r') = if-ill (within 0x80 0xbf d) (char 3) 2 n r in
              of_length 3 r' (three_bytes b s (ground arith) (second_of_3-lt b c u) (cont-lt d v))
          | inr (_, h4) ↦
              let (t, q) = if-ill (within 0xf0 0xf4 b) (scan_4 b c d e) 1 n h4 in
              let (u, r) =
                if-ill (second_of_4 b c)
                  (if within 0x80 0xbf d
                    then if within 0x80 0xbf e then char 4 else ill_formed 3
                    else ill_formed 2)
                  1 n q in
              let (v, r') =
                if-ill (within 0x80 0xbf d) (if within 0x80 0xbf e then char 4 else ill_formed 3) 2
                  n r in
              let (w, r'') = if-ill (within 0x80 0xbf e) (char 4) 3 n r' in
              of_length 4 r''
                (four_bytes b s (ground arith) (second_of_4-lt b c u) (cont-lt d v) (cont-lt e w))
        ]
      ]
    ]

is_utf8-Lacks : (f : ℕ) (s : Bytes) → is_utf8 f s ≡ true → Lacks 0xff s
unfolding is_utf8
is_utf8-Lacks f [] h = tt
is_utf8-Lacks zero (b ∷ s) h = absurd (ground arith)
is_utf8-Lacks (suc f) (b ∷ s) h = go (is_utf8-Lacks f) (scan b s) refl h
  where
    go :
        ((t : Bytes) → is_utf8 f t ≡ true → Lacks 0xff t)
        → (r : Scan) → scan b s ≡ r
        → (elim r [ char n ↦ is_utf8 f (drop n (b ∷ s)) | ill_formed n ↦ false ]) ≡ true
        → Lacks 0xff (b ∷ s)
    go ih (char n) e k = subst (Lacks 0xff) (take-append-drop n (b ∷ s)) (
        All-append _ (take n (b ∷ s)) (drop n (b ∷ s)) (scan-Lacks b s n e) (ih (drop n (b ∷ s)) k))
    go ih (ill_formed n) e k = absurd (ground arith)

pub IsUtf8-Lacks : (s : Bytes) → IsUtf8 s → Lacks 0xff s
IsUtf8-Lacks s h = is_utf8-Lacks (length s) s h
