-- ===== src/Ftp/Stream.antt =====
-- A whole stream of replies through the decoder of src/file/ftp/codec.rs.
use bambu_rs.Prelude.{
  ℕ, ◌+◌, ◌<◌, ◌≡◌, refl, sym, ap, ap₂, ◌∙◌, Bool, none, some, List, [], ◌∷◌, ◌++◌, arith, Bytes,
  All, All-append, All-weaken, Lacks, length, drop, append_assoc, take-append, drop-append,
  length-append, if◌then◌else◌,
}
use bambu_rs.Outcome
use bambu_rs.Outcome.{Outcome, ok, err, invalid_utf8}
use bambu_rs.Crates.{Crates, Documented, first_match, first_match_complete}
use bambu_rs.Text.Utf8.{scan, is_utf8, IsUtf8, from_utf8}
use bambu_rs.Text.Decimal.{display}
use bambu_rs.Text.Decimal.RoundTrip.{IsDigit, display-IsDigit}
use bambu_rs.Ftp.Response.{FtpResponse, from_response_string}
use bambu_rs.Ftp.Codec.{crlf, decode}
use bambu_rs.Ftp.Passive.{display-Lacks}
use bambu_rs.Ftp.Lines.{read_line, decode-found, decode-waits}
use bambu_rs.Ftp.Commands.{append-IsLine}
use bambu_rs.Ftp.Replies.{IsReply, code_of, text_of, reply_line, from_response_string-reply_line}

-- A reply that is one line of text.
pub record IsSent (r : FtpResponse) : Type 0 where
  pub is_reply : IsReply r
  pub one_line : Lacks 0x0d (text_of r)
  pub text : IsUtf8 (text_of r)

abbrev pub replies_bytes : List FtpResponse → Bytes
replies_bytes [] = []
replies_bytes (r ∷ rs) = reply_line r ++ (crlf ++ replies_bytes rs)

-- The reader: `decode` on one buffer, until it returns nothing.
pub data Reads (c : Crates) (checks : Bool) : Bytes → List FtpResponse → Bytes → Type 0 where
  stop : {src : Bytes} → decode c checks src ≡ (ok none, src) → Reads c checks src [] src
  next :
      {src rest left : Bytes} {r : FtpResponse} {rs : List FtpResponse}
      → decode c checks src ≡ (ok (some r), rest)
      → Reads c checks rest rs left
      → Reads c checks src (r ∷ rs) left

is_utf8-ascii :
    (p s : Bytes)
    → All (λ c. c < 0x80) p
    → is_utf8 (length (p ++ s)) (p ++ s) ≡ is_utf8 (length s) s
unfolding is_utf8 scan
is_utf8-ascii [] s h = refl
is_utf8-ascii (c ∷ p) s (hc, hp) = ground (arith, is_utf8-ascii p s hp)

code-ascii : (n : ℕ) → All (λ c. c < 0x80) (display n ++ b' ' ∷ [])
code-ascii n =
    All-append _ (display n) (b' ' ∷ [])
      (All-weaken IsDigit _ (display n) (λ c h. omega arith) (display-IsDigit n)) (omega arith)

reply_line-IsUtf8 : (r : FtpResponse) → IsUtf8 (text_of r) → IsUtf8 (reply_line r)
reply_line-IsUtf8 r h =
    ap (λ t. is_utf8 (length t) t)
      (sym (append_assoc (display (code_of r)) (b' ' ∷ []) (text_of r)))
    ∙ is_utf8-ascii (display (code_of r) ++ b' ' ∷ []) (text_of r) (code-ascii (code_of r))
    ∙ h

reply_line-Lacks : (r : FtpResponse) → Lacks 0x0d (text_of r) → Lacks 0x0d (reply_line r)
reply_line-Lacks r h =
    All-append _ (display (code_of r)) (b' ' ∷ text_of r)
      (display-Lacks 0x0d (code_of r) (omega arith)) (omega arith, h)

module _ {c : Crates} (doc : Documented c) (checks : Bool) where
  -- The first line of the buffer is taken.
  decode-line :
      (line rest : Bytes)
      → Lacks 0x0d line
      → decode c checks (line ++ (crlf ++ rest)) ≡ (read_line c checks line, rest)
  decode-line line rest lacks =
      let src = line ++ (crlf ++ rest) in
      let i = length line in
      let found = first_match_complete crlf src i (append-IsLine line rest lacks).first in
      decode-found doc checks src i found
      ∙ ap₂ (λ (x y : Bytes). (read_line c checks x, y)) (take-append line (crlf ++ rest) i refl)
          (ap (drop (i + 2)) (sym (append_assoc line crlf rest))
            ∙ drop-append (line ++ crlf) rest (i + 2) (omega (arith, length-append line crlf)))

  read_line-reply_line :
      (r : FtpResponse) → IsSent r → read_line c checks (reply_line r) ≡ ok (some r)
  unfolding from_utf8
  read_line-reply_line r h =
      let text = reply_line-IsUtf8 r h.text in
      ap
        (λ b.
          Outcome.◌>>=◌ (if b then ok (reply_line r) else err invalid_utf8)
            (λ t. Outcome.◌>>=◌ (from_response_string c checks t) (λ x. ok (some x))))
        text
      ∙ ap (λ o. Outcome.◌>>=◌ o (λ x. ok (some x)))
          (from_response_string-reply_line doc checks r h.is_reply)

  -- Take any list of responses with an IPv4 address and a port of 16 bits, if any, and with a code
  -- of 16 bits that has no constructor of its own, if `other`, whose texts are UTF-8 without a
  -- carriage return. From a buffer that holds their reply lines, each with its CRLF, the decoder
  -- reads them back one by one and in order, and then waits on an empty buffer.
  pub Reads-replies_bytes :
      (rs : List FtpResponse) → All IsSent rs → Reads c checks (replies_bytes rs) rs []
  unfolding first_match
  Reads-replies_bytes [] h = stop (decode-waits doc checks [] refl)
  Reads-replies_bytes (r ∷ rs) (h, hs) =
      next
        (decode-line (reply_line r) (replies_bytes rs) (reply_line-Lacks r h.one_line)
          ∙ ap (λ o. (o, replies_bytes rs)) (read_line-reply_line r h))
        (Reads-replies_bytes rs hs)
