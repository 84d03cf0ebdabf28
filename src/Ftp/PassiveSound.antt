-- ===== src/Ftp/PassiveSound.antt =====
-- Exactly which replies 227 the parser of src/file/ftp/codec.rs accepts.
use bambu_rs.Prelude.{
  ℕ, ◌^◌, ◌≡◌, ◌↔◌, refl, sym, ap, ◌∙◌, Bool, false, some, inl, inr, List, [], ◌∷◌, ◌++◌, arith,
  Bytes, Lacks, drop, drop-append, Option-cases,
}
use bambu_rs.Outcome.{Outcome, ok, ◌>>=◌, bind_assoc, ok_or-bind-eq-ok, >>=-eq-ok}
use bambu_rs.Crates.{Crates, Documented, index_of-none, index_of-some, memchr-eq}
use bambu_rs.Text.Decimal.{parse}
use bambu_rs.Text.Decimal.RoundTrip.{parse-lt}
use bambu_rs.Text.Slice.{slice_from}
use bambu_rs.Text.Split.{split}
use bambu_rs.Ftp.Response.{
  FtpResponse, entering_passive_mode, v4, parse_passive, parse_parts, parse_address, mul_u16,
  add_u16, has,
}
use bambu_rs.Ftp.Passive.{NoParens, parse_passive-eq, has-Lacks, port_outcome, port_outcome-eq}

-- Six parts between commas, each of which is a number of its type, and the address they make.
pub record IsAddress (checks : Bool) (parts : List Bytes) (r : FtpResponse) : Type 0 where
  pub p1 : Bytes
  pub p2 : Bytes
  pub p3 : Bytes
  pub p4 : Bytes
  pub p5 : Bytes
  pub p6 : Bytes
  pub six : parts ≡ p1 ∷ p2 ∷ p3 ∷ p4 ∷ p5 ∷ p6 ∷ []
  pub a : ℕ
  pub b : ℕ
  pub c : ℕ
  pub d : ℕ
  pub hi : ℕ
  pub lo : ℕ
  pub port : ℕ
  pub a_is : parse (2 ^ 8) p1 ≡ some a
  pub b_is : parse (2 ^ 8) p2 ≡ some b
  pub c_is : parse (2 ^ 8) p3 ≡ some c
  pub d_is : parse (2 ^ 8) p4 ≡ some d
  pub hi_is : parse (2 ^ 16) p5 ≡ some hi
  pub lo_is : parse (2 ^ 16) p6 ≡ some lo
  pub port_is : port_outcome checks hi lo ≡ ok port
  pub result : r ≡ entering_passive_mode (record { ip = v4 a b c d; port = port })

parse_address-IsAddress :
    (checks : Bool) (parts : List Bytes) (r : FtpResponse)
    → parse_address checks parts ≡ ok r
    → IsAddress checks parts r
unfolding parse_address
parse_address-IsAddress checks (p1 ∷ p2 ∷ p3 ∷ p4 ∷ p5 ∷ p6 ∷ []) r h =
    let (a, ea, h1) = ok_or-bind-eq-ok (parse (2 ^ 8) p1) _ _ h in
    let (b, eb, h2) = ok_or-bind-eq-ok (parse (2 ^ 8) p2) _ _ h1 in
    let (c, ec, h3) = ok_or-bind-eq-ok (parse (2 ^ 8) p3) _ _ h2 in
    let (d, ed, h4) = ok_or-bind-eq-ok (parse (2 ^ 8) p4) _ _ h3 in
    let (hi, ehi, h5) = ok_or-bind-eq-ok (parse (2 ^ 16) p5) _ _ h4 in
    let (lo, elo, h6) = ok_or-bind-eq-ok (parse (2 ^ 16) p6) _ _ h5 in
    let (port, eport, h7) =
      >>=-eq-ok (mul_u16 checks hi 256 >>= λ high. add_u16 checks high lo) _
        (bind_assoc (mul_u16 checks hi 256) (λ high. add_u16 checks high lo) _ ∙ h6) in
    record {
      p1 = p1;
      p2 = p2;
      p3 = p3;
      p4 = p4;
      p5 = p5;
      p6 = p6;
      six = refl;
      a = a;
      b = b;
      c = c;
      d = d;
      hi = hi;
      lo = lo;
      port = port;
      a_is = ea;
      b_is = eb;
      c_is = ec;
      d_is = ed;
      hi_is = ehi;
      lo_is = elo;
      port_is =
          sym (port_outcome-eq checks hi lo (parse-lt (2 ^ 16) p6 lo (omega arith) elo)) ∙ eport;
      result = ground arith;
    }
parse_address-IsAddress checks _ r h = cc

IsAddress-parse_address :
    (checks : Bool) (parts : List Bytes) (r : FtpResponse)
    → IsAddress checks parts r
    → parse_address checks parts ≡ ok r
unfolding parse_address
IsAddress-parse_address checks parts r i =
    let port_of = λ (m : Outcome ℕ).
      m >>= λ port. ok (entering_passive_mode (record { ip = v4 i.a i.b i.c i.d; port = port })) in
    ap (parse_address checks) i.six
    ∙ rw (i.a_is, i.b_is, i.c_is, i.d_is, i.hi_is, i.lo_is)
        (sym (bind_assoc (mul_u16 checks i.hi 256) (λ high. add_u16 checks high i.lo) _)
          ∙ ap port_of (
              port_outcome-eq checks i.hi i.lo (parse-lt (2 ^ 16) i.p6 i.lo (omega arith) i.lo_is)
              ∙ i.port_is)
          ∙ ap ok (sym i.result))

-- A message with one pair of parentheses, in this order, around such an address.
pub record IsPassive (checks : Bool) (message : Bytes) (r : FtpResponse) : Type 0 where
  pub before : Bytes
  pub inside : Bytes
  pub after : Bytes
  pub splits : message ≡ before ++ (b'(' ∷ (inside ++ (b')' ∷ after)))
  pub plain_before : NoParens before
  pub plain_inside : NoParens inside
  pub plain_after : NoParens after
  pub address : IsAddress checks (split b',' inside) r

slice_from-inv : (s : Bytes) (from : ℕ) (r : Bytes) → slice_from s from ≡ ok r → r ≡ drop from s
slice_from-inv s from r h = ground arith

-- The search for `)` starts at the `(`.
pub uncover :
    (x behind after : Bytes)
    → b'(' ∷ behind ≡ x ++ (b')' ∷ after)
    → Lacks b')' x
    → (inside : Bytes) × (behind ≡ inside ++ (b')' ∷ after)) × Lacks b')' inside
uncover [] behind after e h = absurd (ground arith)
uncover (z ∷ inside) behind after e h = (inside, cc, h.1)

module _ {cr : Crates} (doc : Documented cr) (checks : Bool) where
  has-none : (b : ℕ) (s : Bytes) → has cr b s ≡ false → Lacks b s
  has-none b s h = elim (Option-cases (cr.memchr b s)) [
    | inl e ↦ index_of-none b s (sym (memchr-eq doc b s) ∙ e)
    | inr (i, e) ↦ absurd (ground arith)
  ]

  IsPassive-parse_passive :
      (message : Bytes) (r : FtpResponse)
      → IsPassive checks message r
      → parse_passive cr checks message ≡ ok r
  unfolding parse_parts
  IsPassive-parse_passive message r p =
      ap (parse_passive cr checks) p.splits
      ∙ parse_passive-eq doc checks p.before p.inside p.after p.plain_before.no_open
          p.plain_inside.no_close
      ∙ rw
          (
            has-Lacks doc checks b'(' p.inside p.plain_inside.no_open,
            has-Lacks doc checks b')' p.inside p.plain_inside.no_close,
            has-Lacks doc checks b'(' p.after p.plain_after.no_open,
            has-Lacks doc checks b')' p.before p.plain_before.no_close,
            has-Lacks doc checks b')' p.after p.plain_after.no_close,
          )
          (IsAddress-parse_address checks (split b',' p.inside) r p.address)

  -- The two parentheses that the parser finds.
  parse_passive-cut :
      (message : Bytes) (r : FtpResponse)
      → parse_passive cr checks message ≡ ok r
      → (before inside after : Bytes) × (message ≡ before ++ (b'(' ∷ (inside ++ (b')' ∷ after))))
        × Lacks b'(' before
        × Lacks b')' inside
  unfolding parse_passive
  parse_passive-cut message r h =
      let (start, es, h1) = ok_or-bind-eq-ok (cr.memchr b'(' message) _ _ h in
      let (rest, er, h2) = >>=-eq-ok (slice_from message start) _ h1 in
      let (end_rel, ee, h3) = ok_or-bind-eq-ok (cr.memchr b')' rest) _ _ h2 in
      let (before, behind, splits, lacks, size) =
        index_of-some b'(' message start (sym (memchr-eq doc b'(' message) ∙ es) in
      let here : rest ≡ b'(' ∷ behind =
        slice_from-inv message start rest er
        ∙ ap (drop start) splits
        ∙ drop-append before (b'(' ∷ behind) start (sym size) in
      let (x, after, cut, lacks', _) =
        index_of-some b')' rest end_rel (sym (memchr-eq doc b')' rest) ∙ ee) in
      let (inside, e, l) = uncover x behind after (sym here ∙ cut) lacks' in
      (before, inside, after, splits ∙ ap (λ t. before ++ (b'(' ∷ t)) e, lacks, l)

  parse_parts-lacks :
      (before inside after : Bytes) (r : FtpResponse)
      → parse_parts cr checks before inside after ≡ ok r
      → (has cr b'(' inside ≡ false)
        × (has cr b'(' after ≡ false)
        × (has cr b')' before ≡ false)
        × (has cr b')' after ≡ false)
        × (parse_address checks (split b',' inside) ≡ ok r)
  unfolding parse_parts
  parse_parts-lacks before inside after r h = ground arith

  parse_passive-IsPassive :
      (message : Bytes) (r : FtpResponse)
      → parse_passive cr checks message ≡ ok r
      → IsPassive checks message r
  parse_passive-IsPassive message r h =
      let (before, inside, after, splits, lb, li) = parse_passive-cut message r h in
      let parts : parse_parts cr checks before inside after ≡ ok r =
        sym (parse_passive-eq doc checks before inside after lb li)
        ∙ ap (parse_passive cr checks) (sym splits)
        ∙ h in
      let (h1, h2, h3, h4, h5) = parse_parts-lacks before inside after r parts in
      record {
        before = before;
        inside = inside;
        after = after;
        splits = splits;
        plain_before = record { no_open = lb; no_close = has-none b')' before h3 };
        plain_inside = record { no_open = has-none b'(' inside h1; no_close = li };
        plain_after = record {
          no_open = has-none b'(' after h2;
          no_close = has-none b')' after h4;
        };
        address = parse_address-IsAddress checks (split b',' inside) r h5;
      }

  -- The parser accepts a message after the code 227, with the response `r`, exactly when the message
  -- holds one `(` and one `)`, in this order, between which commas separate six texts; the first four
  -- are read as `u8` and are the address of `r`, the last two are read as `u16`, and the port of `r`
  -- is the first of them times 256 plus the second, wrapped around if that passes 65535 (in a build
  -- that checks for overflow such a message is not accepted).
  pub parse_passive_iff :
      (message : Bytes) (r : FtpResponse)
      → (parse_passive cr checks message ≡ ok r) ↔ IsPassive checks message r
  parse_passive_iff message r =
      (parse_passive-IsPassive message r, IsPassive-parse_passive message r)
