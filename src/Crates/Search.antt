-- ===== src/Crates/Search.antt =====
-- What "the first occurrence" means, and a search that computes it: the documented `memmem::find`
-- and `memchr` can be no other function.
use native.Mathlib.Decide.{ℕ_discrete}
use bambu_rs.Prelude.{
  Lacks, ℕ, suc, ◌+◌, ◌≤◌, ◌≡◌, ◌≢◌, refl, sym, ap, ◌∙◌, inl, inr, Bool, true, false, ◌&&◌, Option,
  none, some, [], ◌∷◌, ◌++◌, arith, Bytes, length, length-append, ◌==◌, if◌then◌else◌, Bool-cases,
  Option-cases,
}

-- `needle` occurs in `haystack` behind `i` bytes, and behind no fewer.
pub record IsFirst (needle haystack : Bytes) (i : ℕ) : Type 0 where
  pub before : Bytes
  pub after : Bytes
  pub splits : haystack ≡ before ++ (needle ++ after)
  pub at : length before ≡ i
  pub earliest : (b a : Bytes) → haystack ≡ b ++ (needle ++ a) → i ≤ length b

unfoldable pub is_prefix : Bytes → Bytes → Bool
is_prefix [] s = true
is_prefix (b ∷ n) [] = false
is_prefix (b ∷ n) (c ∷ s) = b == c && is_prefix n s

unfoldable pub first_match : Bytes → Bytes → Option ℕ
unfolding is_prefix
first_match n [] = if is_prefix n [] then some 0 else none
first_match n (c ∷ s) = elim (is_prefix n (c ∷ s)) [
  | true ↦ some 0
  | false ↦ elim (first_match n s) [ none ↦ none | some i ↦ some (suc i) ]
]

-- The search for one byte.
abbrev pub index_of : ℕ → Bytes → Option ℕ
index_of b s = first_match (b ∷ []) s

pub is_prefix-append : (n s : Bytes) → is_prefix n (n ++ s) ≡ true
unfolding is_prefix
is_prefix-append [] s = refl
is_prefix-append (b ∷ n) s = ground (arith, is_prefix-append n s)

pub is_prefix_sound : (n s : Bytes) → is_prefix n s ≡ true → (r : Bytes) × (s ≡ n ++ r)
unfolding is_prefix
is_prefix_sound [] s h = (s, refl)
is_prefix_sound (b ∷ n) [] h = cc
is_prefix_sound (b ∷ n) (c ∷ s) h = elim (Bool-cases (b == c)) [
  | inl e ↦ let (r, q) = is_prefix_sound n s (ground arith) in (r, ground (arith, q))
  | inr e ↦ ground arith
]

abbrev raised : Option ℕ → Option ℕ
raised none = none
raised (some i) = some (suc i)

first_match_here : (n s : Bytes) → is_prefix n s ≡ true → first_match n s ≡ some 0
unfolding first_match
first_match_here n [] h = rw h
first_match_here n (c ∷ s) h = ground arith

first_match_later :
    (n : Bytes) (c : ℕ) (s : Bytes)
    → is_prefix n (c ∷ s) ≡ false
    → first_match n (c ∷ s) ≡ raised (first_match n s)
unfolding first_match
first_match_later n c s h = ground arith

IsFirst-here : (n s : Bytes) → is_prefix n s ≡ true → IsFirst n s 0
IsFirst-here n s h =
    let (r, e) = is_prefix_sound n s h in
    record { before = []; after = r; splits = e; at = refl; earliest = λ b a _. omega arith }

IsFirst-later :
    (n : Bytes) (c : ℕ) (s : Bytes) (i : ℕ)
    → is_prefix n (c ∷ s) ≡ false
    → IsFirst n s i
    → IsFirst n (c ∷ s) (suc i)
IsFirst-later n c s i h f = record {
  before = c ∷ f.before;
  after = f.after;
  splits = ap (◌∷◌ c) f.splits;
  at = ap suc f.at;
  earliest = later;
}
  where
    later : (b a : Bytes) → c ∷ s ≡ b ++ (n ++ a) → suc i ≤ length b
    later [] a e = absurd (ground (arith, is_prefix-append n a, ap (is_prefix n) e))
    later (x ∷ b) a e = omega (arith, f.earliest b a (cc))

-- A hit is the first occurrence.
pub first_match_sound : (n s : Bytes) (i : ℕ) → first_match n s ≡ some i → IsFirst n s i
first_match_sound n [] i h = elim (Bool-cases (is_prefix n [])) [
  | inl e ↦ let z : 0 ≡ i = ground (arith, first_match_here n [] e) in rw z at (IsFirst-here n [] e)
  | inr e ↦ unfold first_match in absurd (ground arith)
]
first_match_sound n (c ∷ s) i h = elim (Bool-cases (is_prefix n (c ∷ s))) [
  | inl e ↦
      let z : 0 ≡ i = ground (arith, first_match_here n (c ∷ s) e) in
      rw z at (IsFirst-here n (c ∷ s) e)
  | inr e ↦ elim (Option-cases (first_match n s)) [
    | inl q ↦ absurd (ground (arith, first_match_later n c s e))
    | inr (j, q) ↦
        let step : suc j ≡ i = ground (arith, first_match_later n c s e) in
        rw step at (IsFirst-later n c s j e (first_match_sound n s j q))
  ]
]

-- A miss means that there is no occurrence.
pub first_match-none : (n s b a : Bytes) → first_match n s ≡ none → s ≢ b ++ (n ++ a)
first_match-none n s [] a h e =
    let p : is_prefix n s ≡ true = rw e (is_prefix-append n a) in
    ground (arith, first_match_here n s p)
first_match-none n [] (x ∷ b) a h e = cc
first_match-none n (c ∷ s) (x ∷ b) a h e = elim (Bool-cases (is_prefix n (c ∷ s))) [
  | inl p ↦ ground (arith, first_match_here n (c ∷ s) p)
  | inr p ↦
      let q : first_match n s ≡ none = ground (arith, first_match_later n c s p) in
      first_match-none n s b a q (cc)
]

-- The search finds every first occurrence.
pub first_match_complete : (n s : Bytes) (i : ℕ) → IsFirst n s i → first_match n s ≡ some i
first_match_complete n s i f = elim (Option-cases (first_match n s)) [
  | inl h ↦ absurd (first_match-none n s f.before f.after h f.splits)
  | inr (j, h) ↦
      let g = first_match_sound n s j h in
      let e : j ≡ i = omega (
        arith,
        g.at,
        f.at,
        g.earliest f.before f.after f.splits,
        f.earliest g.before g.after g.splits,
      ) in
      rw e at h
]

-- A prefix without the needle's first byte is passed over.
pub first_match-append :
    (b : ℕ) (n xs s : Bytes) (i : ℕ)
    → Lacks b xs
    → first_match (b ∷ n) s ≡ some i
    → first_match (b ∷ n) (xs ++ s) ≡ some (length xs + i)
first_match-append b n [] s i lacks h = rw h (ap some (omega arith))
first_match-append b n (x ∷ xs) s i (ne, lacks) h =
    first_match_later (b ∷ n) x (xs ++ s) (unfold is_prefix in ground arith)
    ∙ ap raised (first_match-append b n xs s i lacks h)
    ∙ ap some (omega arith)

pub first_match-Lacks : (b : ℕ) (n s : Bytes) → Lacks b s → first_match (b ∷ n) s ≡ none
first_match-Lacks b n [] lacks = unfold first_match is_prefix in refl
first_match-Lacks b n (x ∷ s) (ne, lacks) =
    first_match_later (b ∷ n) x s (unfold is_prefix in ground arith)
    ∙ ap raised (first_match-Lacks b n s lacks)

pub first_match_self : (n s : Bytes) → first_match n (n ++ s) ≡ some 0
first_match_self n s = first_match_here n (n ++ s) (is_prefix-append n s)

pub IsFirst-length : {n h : Bytes} {i : ℕ} → IsFirst n h i → i + length n ≤ length h
IsFirst-length {n} f =
    rw f.splits
      (omega (arith, f.at, length-append f.before (n ++ f.after), length-append n f.after))

is_prefix-append_of_le :
    (n s r : Bytes) → length n ≤ length s → is_prefix n (s ++ r) ≡ is_prefix n s
unfolding is_prefix
is_prefix-append_of_le [] s r h = refl
is_prefix-append_of_le (b ∷ n) [] r h = absurd (omega arith)
is_prefix-append_of_le (b ∷ n) (c ∷ s) r h =
    ap (λ t. b == c && t) (is_prefix-append_of_le n s r (omega arith))

is_prefix-length : (n s : Bytes) → is_prefix n s ≡ true → length n ≤ length s
is_prefix-length n s h =
    let (r, e) = is_prefix_sound n s h in rw e (omega (arith, length-append n r))

-- What follows the first occurrence does not move it.
pub first_match-append_of_some :
    (n s r : Bytes) (i : ℕ) → first_match n s ≡ some i → first_match n (s ++ r) ≡ some i
first_match-append_of_some n [] r i h = elim (Bool-cases (is_prefix n [])) [
  | inl p ↦
      first_match_here n r (is_prefix-append_of_le n [] r (is_prefix-length n [] p) ∙ p)
      ∙ sym (first_match_here n [] p)
      ∙ h
  | inr p ↦ unfold first_match in absurd (ground arith)
]
first_match-append_of_some n (c ∷ s) r i h =
    let fits = IsFirst-length (first_match_sound n (c ∷ s) i h) in
    let same = is_prefix-append_of_le n (c ∷ s) r (omega arith) in
    elim (Bool-cases (is_prefix n (c ∷ s))) [
      | inl p ↦
          first_match_here n (c ∷ (s ++ r)) (same ∙ p) ∙ sym (first_match_here n (c ∷ s) p) ∙ h
      | inr p ↦ elim (Option-cases (first_match n s)) [
        | inl q ↦ absurd (ground (arith, first_match_later n c s p))
        | inr (j, q) ↦
            first_match_later n c (s ++ r) (same ∙ p)
            ∙ ap raised (first_match-append_of_some n s r j q ∙ sym q)
            ∙ sym (first_match_later n c s p)
            ∙ h
      ]
    ]

pub IsFirst-append : {n s : Bytes} {i : ℕ} → IsFirst n s i → (r : Bytes) → IsFirst n (s ++ r) i
IsFirst-append {n} {s} {i} f r =
    first_match_sound n (s ++ r) i
      (first_match-append_of_some n s r i (first_match_complete n s i f))

-- The search for one byte, from its result.
pub index_of-none : (b : ℕ) (s : Bytes) → index_of b s ≡ none → Lacks b s
unfolding first_match is_prefix
index_of-none b [] h = tt
index_of-none b (c ∷ s) h = (ground arith, index_of-none b s (ground arith))

pub index_of-some :
    (b : ℕ) (s : Bytes) (i : ℕ)
    → index_of b s ≡ some i
    → (before : Bytes) × (after : Bytes) × (s ≡ before ++ (b ∷ after))
      × Lacks b before
      × (length before ≡ i)
unfolding first_match is_prefix
index_of-some b [] i h = absurd (ground arith)
index_of-some b (c ∷ s) i h = elim (ℕ_discrete c b) [
  | yes e ↦ ([], s, ap (◌∷ s) e, tt, ground arith)
  | no ne ↦ elim (Option-cases (index_of b s)) [
    | inl q ↦ absurd (ground arith)
    | inr (j, q) ↦
        let (before, after, splits, lacks, size) = index_of-some b s j q in
        (c ∷ before, after, ap (◌∷◌ c) splits, (ne, lacks), ground arith)
  ]
]
