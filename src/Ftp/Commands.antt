-- ===== src/Ftp/Commands.antt =====
-- What the encoder of src/file/ftp/codec.rs writes for a request.
use bambu_rs.Prelude.{
  ◌≡◌, refl, sym, ap, subst, ◌∙◌, some, [], ◌∷◌, ◌++◌, arith, Bytes, codes, All-append, Lacks,
  length, append_assoc,
}
use bambu_rs.Outcome.{ok}
use bambu_rs.Crates.{Crates, Documented, first_match_sound, first_match-append, first_match_self}
use bambu_rs.Text.Decimal.{display}
use bambu_rs.Ftp.Request.{
  FtpRequest, user, pass, quit, enter_passive_mode, list, protection_buffer_size, protection_level,
  pwd, to_command_string,
}
use bambu_rs.Ftp.Passive.{display-Lacks}
use bambu_rs.Ftp.Codec.{crlf, encode}
use bambu_rs.Ftp.Lines.{IsLine}

-- The argument of a request, as the caller gave it.
abbrev pub argument : FtpRequest → Bytes
argument (user s) = s
argument (pass s) = s
argument (list s) = s
argument (protection_level s) = s
argument _ = []

encode-eq :
    {c : Crates}
    → Documented c
    → (r : FtpRequest) (dst : Bytes)
    → encode c r dst ≡ (ok tt, dst ++ (to_command_string r ++ crlf))
unfolding encode
encode-eq doc r dst = simp (doc.extend_from_slice_lem, append_assoc)

to_command_string-Lacks :
    (r : FtpRequest) → Lacks 0x0d (argument r) → Lacks 0x0d (to_command_string r)
unfolding to_command_string
to_command_string-Lacks (user s) h = All-append _ (codes "USER ") s (omega arith) h
to_command_string-Lacks (pass s) h = All-append _ (codes "PASS ") s (omega arith) h
to_command_string-Lacks (list s) h = All-append _ (codes "LIST ") s (omega arith) h
to_command_string-Lacks (protection_level s) h = All-append _ (codes "PROT ") s (omega arith) h
to_command_string-Lacks (protection_buffer_size n) h =
    All-append _ (codes "PBSZ ") (display n) (omega arith) (display-Lacks 0x0d n (omega arith))
to_command_string-Lacks quit h = omega arith
to_command_string-Lacks enter_passive_mode h = omega arith
to_command_string-Lacks pwd h = omega arith

pub append-IsLine :
    (line rest : Bytes) → Lacks 0x0d line → IsLine (line ++ (crlf ++ rest)) line rest
append-IsLine line rest lacks = record {
  splits = refl;
  first = first_match_sound crlf _ (length line) (
      first_match-append 0x0d (0x0a ∷ []) line (crlf ++ rest) 0 lacks (first_match_self crlf rest)
      ∙ ap some (omega arith));
}

-- If the argument of a request holds no carriage return, then the first line that a server reads from
-- what `encode` appends is the command of this request, whole, whatever is written behind it.
pub encode-IsLine :
    {c : Crates}
    → Documented c
    → (r : FtpRequest) (dst rest : Bytes) → Lacks 0x0d (argument r)
    → (sent : Bytes) × (encode c r dst ≡ (ok tt, dst ++ sent))
      × IsLine (sent ++ rest) (to_command_string r) rest
encode-IsLine doc r dst rest h =
    let line = to_command_string r in
    (
      line ++ crlf,
      encode-eq doc r dst,
      subst (λ t. IsLine t line rest) (sym (append_assoc line crlf rest))
          (append-IsLine line rest (to_command_string-Lacks r h)),
    )

-- In the path of a LIST request, a carriage return and a line feed behind a name that holds no
-- carriage return end the command: the first line that a server reads is the LIST of that name, and
-- the rest of the path is left to be read as commands of its own.
pub encode_injection :
    {c : Crates}
    → Documented c
    → (name injected dst rest : Bytes) → Lacks 0x0d name
    → (sent : Bytes) × (encode c (list (name ++ (crlf ++ injected))) dst ≡ (ok tt, dst ++ sent))
      × IsLine (sent ++ rest) (to_command_string (list name)) (injected ++ (crlf ++ rest))
encode_injection doc name injected dst rest h =
    let head = to_command_string (list name) in
    let whole = to_command_string (list (name ++ (crlf ++ injected))) in
    let shape : (whole ++ crlf) ++ rest ≡ head ++ (crlf ++ (injected ++ (crlf ++ rest))) =
      unfold to_command_string in simp append_assoc in
    (
      whole ++ crlf,
      encode-eq doc (list (name ++ (crlf ++ injected))) dst,
      subst (λ t. IsLine t head (injected ++ (crlf ++ rest))) (sym shape)
          (append-IsLine head _ (to_command_string-Lacks (list name) h)),
    )
