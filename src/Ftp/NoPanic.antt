-- ===== src/Ftp/NoPanic.antt =====
-- The parser and the decoder of src/file/ftp/codec.rs return on every input.
use bambu_rs.Prelude.{
  ℕ, ◌^◌, ◌≡◌, ◌≢◌, refl, sym, ap, ◌∙◌, false, Option, none, some, inl, inr, List, [], ◌∷◌, ◌++◌,
  arith, Bytes, Lacks, length, drop-append, length-append, Option-cases,
}
use bambu_rs.Outcome
use bambu_rs.Outcome.{Outcome, Error, ok, err, panic, ok_or}
use bambu_rs.Crates.{Crates, Documented, index_of-some, memchr-eq}
use bambu_rs.Text.Decimal.{parse}
use bambu_rs.Text.Utf8.{from_utf8}
use bambu_rs.Text.Split.{splitn_2, split}
use bambu_rs.Text.Slice.{slice_from-eq}
use bambu_rs.Ftp.Response.{
  parse_passive, parse_parts, parse_address, classify, from_response_string, mul_u16, add_u16,
  number, or_empty,
}
use bambu_rs.Ftp.Passive.{parse_passive-eq}
use bambu_rs.Ftp.PassiveSound.{uncover}
use bambu_rs.Ftp.Codec.{decode}
use bambu_rs.Ftp.Lines.{Read, line, waits, read_line, decode-Read}

-- A step that cannot panic, before steps that cannot.
bind-ne-panic :
    {A B : Type 0} (m : Outcome A) (f : A → Outcome B)
    → m ≢ panic
    → ((a : A) → f a ≢ panic)
    → Outcome.◌>>=◌ m f ≢ panic
bind-ne-panic (ok a) f hm hf = hf a
bind-ne-panic (err e) f hm hf = λ h. cc
bind-ne-panic panic f hm hf = λ h. hm refl

ok_or-ne-panic : {A : Type 0} (o : Option A) (e : Error) → ok_or o e ≢ panic
ok_or-ne-panic none e h = cc
ok_or-ne-panic (some a) e h = cc

mul_u16-ne-panic : (a b : ℕ) → mul_u16 false a b ≢ panic
unfolding mul_u16
mul_u16-ne-panic a b h = ground arith

add_u16-ne-panic : (a b : ℕ) → add_u16 false a b ≢ panic
unfolding add_u16
add_u16-ne-panic a b h = ground arith

number-then :
    {B : Type 0} (bound : ℕ) (part : Bytes) (f : ℕ → Outcome B)
    → ((n : ℕ) → f n ≢ panic)
    → Outcome.◌>>=◌ (number bound part) f ≢ panic
number-then bound part f h = bind-ne-panic (number bound part) f (ok_or-ne-panic _ _) h

parse_address-ne-panic : (parts : List Bytes) → parse_address false parts ≢ panic
unfolding parse_address
parse_address-ne-panic (a ∷ b ∷ c ∷ d ∷ hi ∷ lo ∷ []) = number-then (2 ^ 8) a _ λ na.
    number-then (2 ^ 8) b _ λ nb. number-then (2 ^ 8) c _ λ nc. number-then (2 ^ 8) d _ λ nd.
      number-then (2 ^ 16) hi _ λ nhi. number-then (2 ^ 16) lo _ λ nlo.
        bind-ne-panic (mul_u16 false nhi 256) _ (mul_u16-ne-panic nhi 256)
          λ high. bind-ne-panic (add_u16 false high nlo) _ (add_u16-ne-panic high nlo) λ port h. cc
parse_address-ne-panic _ = λ h. cc

module _ {c : Crates} (doc : Documented c) where
  parse_parts-ne-panic :
      (before inside after : Bytes) → parse_parts c false before inside after ≢ panic
  unfolding parse_parts
  parse_parts-ne-panic before inside after h =
      ground (arith, parse_address-ne-panic (split b',' inside))

  parse_passive-no_open : (m : Bytes) → c.memchr b'(' m ≡ none → parse_passive c false m ≢ panic
  unfolding parse_passive
  parse_passive-no_open m e h = ground arith

  parse_passive-no_close :
      (before behind : Bytes)
      → Lacks b'(' before
      → c.memchr b'(' (before ++ (b'(' ∷ behind)) ≡ some (length before)
      → c.memchr b')' (b'(' ∷ behind) ≡ none
      → parse_passive c false (before ++ (b'(' ∷ behind)) ≢ panic
  unfolding parse_passive
  parse_passive-no_close before behind lacks e k h =
      let m = before ++ (b'(' ∷ behind) in
      ground (
        arith,
        slice_from-eq m (length before),
        length-append before (b'(' ∷ behind),
        drop-append before (b'(' ∷ behind) (length before) refl,
      )

  parse_passive-ne-panic : (m : Bytes) → parse_passive c false m ≢ panic
  parse_passive-ne-panic m = elim (Option-cases (c.memchr b'(' m)) [
    | inl e ↦ parse_passive-no_open m e
    | inr (i, e) ↦
        let (before, behind, splits, lacks, size) =
          index_of-some b'(' m i (sym (memchr-eq doc b'(' m) ∙ e) in
        rw splits
          (with_open before behind lacks (ap (c.memchr b'(') (sym splits) ∙ e ∙ ap some (sym size)))
  ]
    where
      with_open :
          (before behind : Bytes)
          → Lacks b'(' before
          → c.memchr b'(' (before ++ (b'(' ∷ behind)) ≡ some (length before)
          → parse_passive c false (before ++ (b'(' ∷ behind)) ≢ panic
      with_open before behind lacks e = elim (Option-cases (c.memchr b')' (b'(' ∷ behind))) [
        | inl k ↦ parse_passive-no_close before behind lacks e k
        | inr (j, k) ↦
            let (x, after, cut, lacks', _) =
              index_of-some b')' (b'(' ∷ behind) j (sym (memchr-eq doc b')' (b'(' ∷ behind)) ∙ k) in
            let (inside, q, l) = uncover x behind after cut lacks' in
            λ h. parse_parts-ne-panic before inside after (
              sym (parse_passive-eq doc false before inside after lacks l)
              ∙ ap (λ t. parse_passive c false (before ++ (b'(' ∷ t))) (sym q)
              ∙ h)
      ]

  classify-ne-panic : (code : ℕ) (m : Bytes) → classify c false code m ≢ panic
  unfolding classify
  classify-ne-panic code m h = ground (arith, parse_passive-ne-panic m)

  from_response_string-ne-panic : (s : Bytes) → from_response_string c false s ≢ panic
  unfolding from_response_string
  from_response_string-ne-panic s =
      bind-ne-panic (ok_or (parse (2 ^ 16) (splitn_2 b' ' s).0) _) _ (ok_or-ne-panic _ _)
        λ code. classify-ne-panic code (or_empty (splitn_2 b' ' s).1)

  read_line-ne-panic : (text : Bytes) → read_line c false text ≢ panic
  unfolding from_utf8
  read_line-ne-panic text = bind-ne-panic (from_utf8 text) _ (ground arith) λ t.
      bind-ne-panic (from_response_string c false t) _ (from_response_string-ne-panic t) λ r h. cc

  -- In a build without overflow checks the decoder panics on no bytes: it returns a response,
  -- nothing, or an error.
  pub decode-ne-panic : (src : Bytes) → (decode c false src).0 ≢ panic
  decode-ne-panic src h = go (decode-Read doc false src)
    where
      go : Read c false src (decode c false src) → ⊥
      go (waits no_line e) = absurd (ground arith)
      go (line text rest is e) = read_line-ne-panic text (ap (λ r. r.0) (sym e) ∙ h)
