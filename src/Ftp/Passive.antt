-- ===== src/Ftp/Passive.antt =====
-- The reply 227 of src/file/ftp/codec.rs: six numbers between two parentheses.
use bambu_rs.Prelude.{
  ℕ, ◌+◌, ◌-◌, ◌*◌, ◌^◌, ◌%◌, ◌<◌, ◌≡◌, ◌≢◌, refl, sym, ap, ◌∙◌, Bool, false, some, List, [], ◌∷◌,
  ◌++◌, arith, Bytes, All, Lacks, length, take, drop, length-append, take-append, drop-append,
  append_assoc, if◌then◌else◌, ◌==◌, ltb, All-append,
}
use bambu_rs.Outcome.{Outcome, ok, panic, ◌>>=◌, bind_assoc}
use bambu_rs.Crates.{
  Crates, Documented, first_match-append, first_match_self, first_match-Lacks, memchr-eq,
}
use bambu_rs.Text.Slice.{slice-eq, slice_from-eq}
use bambu_rs.Text.Decimal.{display}
use bambu_rs.Text.Decimal.RoundTrip.{IsDigit, parse-display, display-IsDigit}
use bambu_rs.Text.Split.{join, split-join}
use bambu_rs.Ftp.Response.{
  entering_passive_mode, v4, parse_passive, parse_parts, parse_address, mul_u16, add_u16, is_some,
  has,
}

module _ {c : Crates} (doc : Documented c) (checks : Bool) where
  pub has-Lacks : (b : ℕ) (s : Bytes) → Lacks b s → has c b s ≡ false
  has-Lacks b s h = ap is_some (memchr-eq doc b s ∙ first_match-Lacks b [] s h)

  -- The message is cut at its first `(` and the first `)` behind that.
  pub parse_passive-eq :
      (before inside after : Bytes)
      → Lacks b'(' before
      → Lacks b')' inside
      → parse_passive c checks (before ++ (b'(' ∷ (inside ++ (b')' ∷ after))))
        ≡ parse_parts c checks before inside after
  unfolding parse_passive
  parse_passive-eq before inside after hb hi =
      let tail = b'(' ∷ (inside ++ (b')' ∷ after)) in
      let message = before ++ tail in
      let s = length before in
      let e = s + (1 + length inside) in
      let start : c.memchr b'(' message ≡ some s =
        memchr-eq doc b'(' message
        ∙ first_match-append b'(' [] before tail 0 hb
            (first_match_self (b'(' ∷ []) (inside ++ (b')' ∷ after)))
        ∙ ap some (omega arith) in
      let rest : drop s message ≡ tail = drop-append before tail s refl in
      let end : c.memchr b')' tail ≡ some (1 + length inside) =
        memchr-eq doc b')' tail
        ∙ first_match-append b')' [] (b'(' ∷ inside) (b')' ∷ after) 0 (omega arith, hi)
            (first_match_self (b')' ∷ []) after)
        ∙ ap some (omega arith) in
      let size : length message ≡ s + (2 + length inside + length after) =
        omega (arith, length-append before tail, length-append inside (b')' ∷ after)) in
      let differ : (e == s) ≡ false = ground arith in
      let between : take (e - (s + 1)) (drop (s + 1) message) ≡ inside =
        ap (λ n. take n (drop (s + 1) message)) (omega arith)
        ∙ ap (take (length inside)) (
            ap (drop (s + 1)) (sym (append_assoc before (b'(' ∷ []) (inside ++ (b')' ∷ after))))
            ∙ drop-append (before ++ b'(' ∷ []) (inside ++ (b')' ∷ after)) (s + 1)
                (omega (arith, length-append before (b'(' ∷ []))))
        ∙ take-append inside (b')' ∷ after) (length inside) refl in
      let behind : drop (e + 1) message ≡ after =
        ap (λ t. drop (e + 1) (before ++ (b'(' ∷ t))) (sym (append_assoc inside (b')' ∷ []) after))
        ∙ ap (drop (e + 1)) (sym (append_assoc before (b'(' ∷ (inside ++ b')' ∷ [])) after))
        ∙ drop-append (before ++ (b'(' ∷ (inside ++ b')' ∷ []))) after (e + 1) (
            omega (
              arith,
              length-append before (b'(' ∷ (inside ++ b')' ∷ [])),
              length-append inside (b')' ∷ []),
            )) in
      let head : take (s - 0) (drop 0 message) ≡ before =
        ap (λ n. take n message) (omega arith) ∙ take-append before tail s refl in
      rw (
        start,
        slice_from-eq message s (omega arith),
        rest,
        end,
        differ,
        slice-eq message 0 s (omega arith) (omega arith),
        head,
        slice-eq message (s + 1) e (omega arith) (omega arith),
        slice_from-eq message (e + 1) (omega arith),
        between,
        behind,
      )

-- The text between the parentheses.
abbrev pub numbers : ℕ → ℕ → ℕ → ℕ → ℕ → ℕ → List Bytes
numbers a b c d hi lo = display a ∷ display b ∷ display c ∷ display d ∷ display hi ∷ display lo ∷ []

abbrev pub passive_message : Bytes → List Bytes → Bytes → Bytes
passive_message before parts after = before ++ (b'(' ∷ (join b',' parts ++ (b')' ∷ after)))

IsDigit-Lacks : (b : ℕ) (s : Bytes) → b < b'0' → All IsDigit s → Lacks b s
IsDigit-Lacks b [] small h = tt
IsDigit-Lacks b (x ∷ s) small h = (omega arith, IsDigit-Lacks b s small h.1)

pub display-Lacks : (b n : ℕ) → b < b'0' → Lacks b (display n)
display-Lacks b n small = IsDigit-Lacks b (display n) small (display-IsDigit n)

join-Lacks : (b sep : ℕ) (ps : List Bytes) → sep ≢ b → All (Lacks b) ps → Lacks b (join sep ps)
join-Lacks b sep [] ne h = tt
join-Lacks b sep (p ∷ []) ne h = h.0
join-Lacks b sep (p ∷ q ∷ ps) ne h =
    All-append _ p (sep ∷ join sep (q ∷ ps)) h.0 (ne, join-Lacks b sep (q ∷ ps) ne h.1)

numbers-Lacks : (a b c d hi lo x : ℕ) → x < b'0' → All (Lacks x) (numbers a b c d hi lo)
numbers-Lacks a b c d hi lo x h =
    let n = λ (m : ℕ). display-Lacks x m h in (n a, (n b, (n c, (n d, (n hi, (n lo, tt))))))

-- An IPv4 address, and the two numbers of a port, each of which the parser takes as a `u16`.
pub record InRange (a b c d hi lo : ℕ) : Type 0 where
  pub a_small : a < 2 ^ 8
  pub b_small : b < 2 ^ 8
  pub c_small : c < 2 ^ 8
  pub d_small : d < 2 ^ 8
  pub hi_small : hi < 2 ^ 16
  pub lo_small : lo < 2 ^ 16

module _ (checks : Bool) {a b c d hi lo : ℕ} (r : InRange a b c d hi lo) where
  parse_address-numbers : parse_address checks (numbers a b c d hi lo) ≡ (
      mul_u16 checks hi 256 >>= λ high. add_u16 checks high lo >>= λ port.
      ok (entering_passive_mode (record { ip = v4 a b c d; port = port })))
  unfolding parse_address
  parse_address-numbers = rw (
    parse-display (2 ^ 8) a r.a_small,
    parse-display (2 ^ 8) b r.b_small,
    parse-display (2 ^ 8) c r.c_small,
    parse-display (2 ^ 8) d r.d_small,
    parse-display (2 ^ 16) hi r.hi_small,
    parse-display (2 ^ 16) lo r.lo_small,
  )

-- What the port comes to in a build that checks for overflow, and in one that does not.
abbrev pub port_outcome : Bool → ℕ → ℕ → Outcome ℕ
port_outcome checks hi lo =
    if ltb (hi * 256 + lo) (2 ^ 16)
    then ok (hi * 256 + lo)
    else if checks
    then panic
    else ok ((hi * 256 + lo) % 2 ^ 16)

pub port_outcome-eq :
    (checks : Bool) (hi lo : ℕ)
    → lo < 2 ^ 16
    → (mul_u16 checks hi 256 >>= λ high. add_u16 checks high lo) ≡ port_outcome checks hi lo
unfolding mul_u16 add_u16
port_outcome-eq checks hi lo h = ground arith

parse_address-port :
    (checks : Bool) {a b c d hi lo : ℕ}
    → InRange a b c d hi lo
    → parse_address checks (numbers a b c d hi lo) ≡ (
        port_outcome checks hi lo >>= λ port.
        ok (entering_passive_mode (record { ip = v4 a b c d; port = port })))
parse_address-port checks {a} {b} {c} {d} {hi} {lo} r =
    parse_address-numbers checks r
    ∙ sym (bind_assoc (mul_u16 checks hi 256) (λ high. add_u16 checks high lo) _)
    ∙ ap (λ m. m >>= λ port. ok (entering_passive_mode (record { ip = v4 a b c d; port = port })))
        (port_outcome-eq checks hi lo r.lo_small)

-- A text around the parentheses that holds none itself.
pub record NoParens (s : Bytes) : Type 0 where
  pub no_open : Lacks b'(' s
  pub no_close : Lacks b')' s

module _ {cr : Crates} (doc : Documented cr) (checks : Bool) where
  -- For every address and every pair of port numbers in range, with any text around the parentheses
  -- that holds none itself: the reply is read as this address and the port `hi * 256 + lo` where
  -- that is below 65536; otherwise a build with overflow checks panics, and one without wraps around.
  pub parse_passive-numbers :
      (before after : Bytes) (a b c d hi lo : ℕ)
      → NoParens before
      → NoParens after
      → InRange a b c d hi lo
      → parse_passive cr checks (passive_message before (numbers a b c d hi lo) after) ≡ (
          port_outcome checks hi lo >>= λ port.
          ok (entering_passive_mode (record { ip = v4 a b c d; port = port })))
  unfolding parse_parts
  parse_passive-numbers before after a b c d hi lo nb na r =
      let ps = numbers a b c d hi lo in
      let inside = join b',' ps in
      let lacks = λ (x : ℕ) (h : x < b'0') (ne : b',' ≢ x).
        join-Lacks x b',' ps ne (numbers-Lacks a b c d hi lo x h) in
      let open_inside = lacks b'(' (omega arith) (omega arith) in
      let close_inside = lacks b')' (omega arith) (omega arith) in
      parse_passive-eq doc checks before inside after nb.no_open close_inside
      ∙ rw
          (
            has-Lacks doc checks b'(' inside open_inside,
            has-Lacks doc checks b')' inside close_inside,
            has-Lacks doc checks b'(' after na.no_open,
            has-Lacks doc checks b')' before nb.no_close,
            has-Lacks doc checks b')' after na.no_close,
            split-join b',' ps (λ e. cc) (numbers-Lacks a b c d hi lo b',' (omega arith)),
          )
          (parse_address-port checks r)
