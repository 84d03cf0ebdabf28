-- ===== src/Ftp/Lines.antt =====
-- How the decoder of src/file/ftp/codec.rs cuts its input into lines.
use bambu_rs.Prelude.{
  ℕ, ◌+◌, ◌≡◌, sym, ap, ◌∙◌, Bool, Option, none, some, inl, inr, ◌++◌, arith, Bytes, length, take,
  drop, length-append, take-append, drop-append, drop-drop, length-drop, append_assoc, Option-cases,
  subst,
}
use bambu_rs.Outcome
use bambu_rs.Outcome.{Outcome, ok}
use bambu_rs.Crates.{
  Crates, Documented, IsFirst, IsFirst-length, first_match, first_match_sound, first_match-none,
  find-eq,
}
use bambu_rs.Text.Utf8.{from_utf8}
use bambu_rs.Ftp.Response.{FtpResponse, from_response_string}
use bambu_rs.Ftp.Codec.{crlf, decode}

-- `line` reaches to the first CRLF of `src`, and `rest` is what follows that.
pub record IsLine (src line rest : Bytes) : Type 0 where
  pub splits : src ≡ line ++ (crlf ++ rest)
  pub first : IsFirst crlf src (length line)

-- What the decoder makes of a line.
abbrev pub read_line : Crates → Bool → Bytes → Outcome (Option FtpResponse)
read_line c checks line =
    Outcome.◌>>=◌ (from_utf8 line)
      (λ text. Outcome.◌>>=◌ (from_response_string c checks text) (λ r. ok (some r)))

-- The decoder reads the first line, or waits for one.
pub data Read (c : Crates) (checks : Bool) (src : Bytes) (r : Outcome (Option FtpResponse) × Bytes)
    : Type 0 where
  line :
      (text rest : Bytes)
      → IsLine src text rest
      → r ≡ (read_line c checks text, rest)
      → Read c checks src r
  waits : ((text rest : Bytes) → ¬ IsLine src text rest) → r ≡ (ok none, src) → Read c checks src r

found-IsLine :
    (src : Bytes) (i : ℕ)
    → first_match crlf src ≡ some i
    → IsLine src (take i src) (drop (i + 2) src)
found-IsLine src i h =
    let f = first_match_sound crlf src i h in
    let line : take i src ≡ f.before =
      ap (take i) f.splits ∙ take-append f.before (crlf ++ f.after) i (sym f.at) in
    let rest : drop (i + 2) src ≡ f.after =
      ap (drop (i + 2)) (f.splits ∙ sym (append_assoc f.before crlf f.after))
      ∙ drop-append (f.before ++ crlf) f.after (i + 2)
          (omega (arith, f.at, length-append f.before crlf)) in
    record {
      splits = rw (line, rest) f.splits;
      first = subst (IsFirst crlf src) (sym f.at ∙ ap length (sym line)) f;
    }

module _ {c : Crates} (doc : Documented c) (checks : Bool) (src : Bytes) where
  pub decode-waits : first_match crlf src ≡ none → decode c checks src ≡ (ok none, src)
  unfolding decode
  decode-waits h = ground (arith, find-eq doc src crlf)

  pub decode-found :
      (i : ℕ)
      → first_match crlf src ≡ some i
      → decode c checks src ≡ (read_line c checks (take i src), drop (i + 2) src)
  unfolding decode
  decode-found i h =
      let fits = IsFirst-length (first_match_sound crlf src i h) in
      ground (
        arith,
        fits,
        find-eq doc src crlf,
        doc.split_to_lem src i,
        doc.advance_lem (drop i src) 2,
        length-drop i src,
        drop-drop 2 i (i + 2) src,
      )

  -- The decoder takes the bytes up to the first CRLF and the CRLF itself, also where they are no
  -- UTF-8 or no reply and it returns an error for them; what follows stays. Without a CRLF it returns
  -- nothing and leaves the buffer as it was.
  pub decode-Read : Read c checks src (decode c checks src)
  decode-Read = elim (Option-cases (first_match crlf src)) [
    | inl h ↦ waits (λ text rest l. first_match-none crlf src text rest h l.splits) (decode-waits h)
    | inr (i, h) ↦ line _ _ (found-IsLine src i h) (decode-found i h)
  ]
