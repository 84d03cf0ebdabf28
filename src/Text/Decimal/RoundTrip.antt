-- ===== src/Text/Decimal/RoundTrip.antt =====
-- A number is read back from its digits.
use bambu_rs.Prelude.{
  ℕ, zero, suc, ◌+◌, ◌-◌, ◌*◌, ◌/◌, ◌%◌, ◌≤◌, ◌<◌, ◌≡◌, ◌≢◌, refl, sym, ◌∙◌, false, some, [], ◌∷◌,
  arith, Bytes, All, ◌==◌, ◌++◌, replicate,
}
use bambu_rs.Text.Decimal.{parse, parse_digits, digits, display}

abbrev pub IsDigit : ℕ → Type 0
IsDigit c = (b'0' ≤ c) × (c ≤ b'9')

digits_zero : (f : ℕ) (out : Bytes) → digits f 0 out ≡ out
unfolding digits
digits_zero zero out = refl
digits_zero (suc f) out = refl

digits_step :
    (f n : ℕ) (out : Bytes)
    → 0 < n
    → digits (suc f) n out ≡ digits f (n / 10) ((b'0' + n % 10) ∷ out)
unfolding digits
digits_step f n out h = ground arith

parse_digits-last :
    (bound n : ℕ) (out : Bytes)
    → n < bound
    → parse_digits bound ((b'0' + n % 10) ∷ out) (n / 10) ≡ parse_digits bound out n
unfolding parse_digits
parse_digits-last bound n out h = ground arith

parse_digits-digits :
    (bound f n : ℕ) (out : Bytes)
    → n ≤ f
    → n < bound
    → parse_digits bound (digits f n out) 0 ≡ parse_digits bound out n
parse_digits-digits bound f zero out h k = rw digits_zero
parse_digits-digits bound zero (suc n) out h k = absurd (omega arith)
parse_digits-digits bound (suc f) (suc n) out h k = rw (digits_step f (suc n) out (omega arith)) (
    parse_digits-digits bound f (suc n / 10) _ (omega arith) (omega arith)
    ∙ parse_digits-last bound (suc n) out k)

digits-IsDigit : (f n : ℕ) (out : Bytes) → All IsDigit out → All IsDigit (digits f n out)
digits-IsDigit f zero out h = rw digits_zero h
digits-IsDigit zero (suc n) out h = unfold digits in h
digits-IsDigit (suc f) (suc n) out h =
    rw (digits_step f (suc n) out (omega arith)) (digits-IsDigit f (suc n / 10) _ (omega arith, h))

digits-ne-nil : (f n : ℕ) (out : Bytes) → out ≢ [] → digits f n out ≢ []
digits-ne-nil f zero out h = rw digits_zero h
digits-ne-nil zero (suc n) out h = unfold digits in h
digits-ne-nil (suc f) (suc n) out h =
    rw (digits_step f (suc n) out (omega arith)) (digits-ne-nil f (suc n / 10) _ (λ q. cc))

suc-ne-zero : (n : ℕ) → (suc n == 0) ≡ false
suc-ne-zero n = ground arith

display_pos : (n : ℕ) → display (suc n) ≡ digits n (suc n / 10) ((b'0' + suc n % 10) ∷ [])
unfolding display
display_pos n = rw (suc-ne-zero n) (digits_step n (suc n) [] (omega arith))

display_zero : display 0 ≡ b'0' ∷ []
unfolding display
display_zero = refl

pub display-IsDigit : (n : ℕ) → All IsDigit (display n)
display-IsDigit zero = rw display_zero (omega arith)
display-IsDigit (suc n) = rw display_pos (digits-IsDigit n _ _ (omega arith))

pub display-ne-nil : (n : ℕ) → display n ≢ []
display-ne-nil zero = rw display_zero (λ q. cc)
display-ne-nil (suc n) = rw display_pos (digits-ne-nil n _ _ (λ q. cc))

-- Digits are read by the loop.
pub parse-parse_digits :
    (bound : ℕ) (s : Bytes) → s ≢ [] → All IsDigit s → parse bound s ≡ parse_digits bound s 0
unfolding parse
parse-parse_digits bound [] ne h = absurd (ne refl)
parse-parse_digits bound (c ∷ []) ne h = ground arith
parse-parse_digits bound (c ∷ d ∷ s) ne h = ground arith

-- A number that fits its type is read back from what `Display` writes.
pub parse-display : (bound n : ℕ) → n < bound → parse bound (display n) ≡ some n
parse-display bound n h =
    parse-parse_digits bound (display n) (display-ne-nil n) (display-IsDigit n) ∙ scan n h
  where
    scan : (m : ℕ) → m < bound → parse_digits bound (display m) 0 ≡ some m
    scan zero k = rw display_zero (unfold parse_digits in ground arith)
    scan (suc m) k = rw display_pos (
        parse_digits-digits bound m (suc m / 10) _ (omega arith) (omega arith)
        ∙ parse_digits-last bound (suc m) [] k
        ∙ unfold parse_digits in refl)

parse_digits-lt :
    (bound : ℕ) (s : Bytes) (n m : ℕ) → n < bound → parse_digits bound s n ≡ some m → m < bound
unfolding parse_digits
parse_digits-lt bound [] n m h e = ground arith
parse_digits-lt bound (c ∷ s) n m h e =
    ground (arith, parse_digits-lt bound s (n * 10 + (c - b'0')) m)

-- What is read fits its type.
pub parse-lt : (bound : ℕ) (s : Bytes) (m : ℕ) → 0 < bound → parse bound s ≡ some m → m < bound
unfolding parse
parse-lt bound [] m h e = cc
parse-lt bound (c ∷ []) m h e = ground (arith, parse_digits-lt bound (c ∷ []) 0 m h)
parse-lt bound (c ∷ d ∷ s) m h e =
    ground (arith, parse_digits-lt bound (d ∷ s) 0 m h, parse_digits-lt bound (c ∷ d ∷ s) 0 m h)

-- A number behind zeros, as a day with two digits is written.
abbrev pub padded : ℕ → ℕ → Bytes
padded count n = replicate count b'0' ++ display n

pub padded-IsDigit : (count n : ℕ) → All IsDigit (padded count n)
padded-IsDigit zero n = display-IsDigit n
padded-IsDigit (suc count) n = (omega arith, padded-IsDigit count n)

pub padded-ne-nil : (count n : ℕ) → padded count n ≢ []
padded-ne-nil zero n = display-ne-nil n
padded-ne-nil (suc count) n = λ q. cc

parse_digits-zero :
    (bound : ℕ) (s : Bytes) → 0 < bound → parse_digits bound (b'0' ∷ s) 0 ≡ parse_digits bound s 0
unfolding parse_digits
parse_digits-zero bound s h = ground arith

-- The zeros do not matter.
pub parse-padded : (bound count n : ℕ) → n < bound → parse bound (padded count n) ≡ some n
parse-padded bound count n h =
    parse-parse_digits bound (padded count n) (padded-ne-nil count n) (padded-IsDigit count n)
    ∙ scan count
  where
    scan : (k : ℕ) → parse_digits bound (padded k n) 0 ≡ some n
    scan zero =
        sym (parse-parse_digits bound (display n) (display-ne-nil n) (display-IsDigit n))
        ∙ parse-display bound n h
    scan (suc k) = parse_digits-zero bound (padded k n) (omega arith) ∙ scan k
