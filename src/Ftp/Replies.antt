-- ===== src/Ftp/Replies.antt =====
-- Replies as a server writes them, against the parser and the decoder of src/file/ftp/codec.rs.
use bambu_rs.Prelude.{
  ℕ, ◌/◌, ◌^◌, ◌%◌, ◌<◌, ◌≡◌, refl, ap, ◌∙◌, Bool, false, ◌||◌, [], ◌∷◌, ◌++◌, arith, Bytes, codes,
  ◌==◌,
}
use bambu_rs.Outcome.{ok, ◌>>=◌}
use bambu_rs.Crates.{Crates, Documented}
use bambu_rs.Text.Decimal.{display}
use bambu_rs.Text.Decimal.RoundTrip.{parse-display}
use bambu_rs.Text.Split.{splitn_2-append}
use bambu_rs.Ftp.Response.{
  FtpResponse, file_status_okay, service_ready, command_okay, closing_control_connection,
  closing_data_connection, user_logged_in, user_name_okay_need_password, file_action_okay,
  entering_passive_mode, command_not_implemented, bad_sequence_of_commands, file_unavailable,
  directory_action_okay, other, IpAddr, v4, v6, classify, parse_passive, from_response_string,
}
use bambu_rs.Ftp.Passive.{
  numbers, passive_message, parse_passive-numbers, display-Lacks, port_outcome,
}

-- The reply code of a response (RFC 959).
abbrev pub code_of : FtpResponse → ℕ
code_of (file_status_okay _) = 150
code_of (service_ready _) = 220
code_of (command_okay _) = 200
code_of (closing_control_connection _) = 221
code_of (closing_data_connection _) = 226
code_of (user_logged_in _) = 230
code_of (user_name_okay_need_password _) = 331
code_of (file_action_okay _) = 250
code_of (entering_passive_mode _) = 227
code_of (command_not_implemented _) = 502
code_of (bad_sequence_of_commands _) = 503
code_of (file_unavailable _) = 550
code_of (directory_action_okay _) = 257
code_of (other code _) = code

abbrev pub passive_text : IpAddr → ℕ → Bytes
passive_text (v4 a b c d) port =
    passive_message (codes "Entering Passive Mode ") (numbers a b c d (port / 256) (port % 256)) []
passive_text (v6 n) port = []

-- The text behind the code.
abbrev pub text_of : FtpResponse → Bytes
text_of (file_status_okay m) = m
text_of (service_ready m) = m
text_of (command_okay m) = m
text_of (closing_control_connection m) = m
text_of (closing_data_connection m) = m
text_of (user_logged_in m) = m
text_of (user_name_okay_need_password m) = m
text_of (file_action_okay m) = m
text_of (entering_passive_mode addr) = passive_text addr.ip addr.port
text_of (command_not_implemented m) = m
text_of (bad_sequence_of_commands m) = m
text_of (file_unavailable m) = m
text_of (directory_action_okay m) = m
text_of (other _ m) = m

-- A reply line, without its CRLF.
abbrev pub reply_line : FtpResponse → Bytes
reply_line r = display (code_of r) ++ (b' ' ∷ text_of r)

-- The codes that have a constructor of their own.
abbrev pub is_known : ℕ → Bool
is_known n =
    n == 150
    || n == 220
    || n == 200
    || n == 226
    || n == 230
    || n == 331
    || n == 250
    || n == 227
    || n == 221
    || n == 502
    || n == 503
    || n == 550
    || n == 257

abbrev pub IsV4 : IpAddr → Type 0
IsV4 (v4 a b c d) = (a < 2 ^ 8) × (b < 2 ^ 8) × (c < 2 ^ 8) × (d < 2 ^ 8)
IsV4 (v6 _) = ⊥

-- A response that a reply can stand for: an IPv4 address and a port of 16 bits, or, for `other`, a
-- code of 16 bits that has no constructor of its own.
abbrev pub IsReply : FtpResponse → Type 0
IsReply (entering_passive_mode addr) = IsV4 addr.ip × (addr.port < 2 ^ 16)
IsReply (other code _) = (code < 2 ^ 16) × (is_known code ≡ false)
IsReply _ = Unit

port_outcome-split :
    (checks : Bool) (port : ℕ)
    → port < 2 ^ 16
    → port_outcome checks (port / 256) (port % 256) ≡ ok port
port_outcome-split checks port h = ground arith

module _ {c : Crates} (doc : Documented c) (checks : Bool) where
  from_response_string-code :
      (code : ℕ) (text : Bytes)
      → code < 2 ^ 16
      → from_response_string c checks (display code ++ (b' ' ∷ text)) ≡ classify c checks code text
  unfolding from_response_string
  from_response_string-code code text h = rw (
    splitn_2-append b' ' (display code) text (display-Lacks b' ' code (omega arith)),
    parse-display (2 ^ 16) code h,
  )

  passive_text-address :
      (ip : IpAddr) (port : ℕ)
      → IsV4 ip
      → port < 2 ^ 16
      → parse_passive c checks (passive_text ip port)
        ≡ ok (entering_passive_mode (record { ip = ip; port = port }))
  passive_text-address (v4 a b c' d) port h k =
      parse_passive-numbers doc checks (codes "Entering Passive Mode ") [] a b c' d (port / 256)
        (port % 256) (record { no_open = omega arith; no_close = omega arith })
        (record { no_open = tt; no_close = tt })
        (record {
          a_small = h.0;
          b_small = h.1;
          c_small = h.2;
          d_small = h.3;
          hi_small = omega arith;
          lo_small = omega arith;
        })
      ∙ ap (λ m. m >>= λ p. ok (entering_passive_mode (record { ip = v4 a b c' d; port = p })))
          (port_outcome-split checks port k)
  passive_text-address (v6 n) port h k = absurd h

  classify_passive : (m : Bytes) → classify c checks 227 m ≡ parse_passive c checks m
  unfolding classify
  classify_passive m = refl

  classify_other :
      (code : ℕ) (m : Bytes) → is_known code ≡ false → classify c checks code m ≡ ok (other code m)
  unfolding classify
  classify_other code m h = ground arith

  classify-code_of :
      (r : FtpResponse) → IsReply r → classify c checks (code_of r) (text_of r) ≡ ok r
  classify-code_of (entering_passive_mode addr) h =
      classify_passive (passive_text addr.ip addr.port)
      ∙ passive_text-address addr.ip addr.port h.0 h.1
  classify-code_of (other code m) h = classify_other code m h.1
  classify-code_of r h = unfold classify in refl

  code_of-lt : (r : FtpResponse) → IsReply r → code_of r < 2 ^ 16
  code_of-lt (other code m) h = h.0
  code_of-lt (service_ready m) h = omega arith
  code_of-lt r h = omega arith

  -- Every response whose address, if it has one, is an IPv4 address with a port of 16 bits, and
  -- whose code, if it is `other`, has 16 bits and no constructor of its own, is read back from the
  -- reply line that stands for it: the code in decimal, a space, and the text, which for 227 is
  -- `Entering Passive Mode (a,b,c,d,hi,lo)`.
  pub from_response_string-reply_line :
      (r : FtpResponse) → IsReply r → from_response_string c checks (reply_line r) ≡ ok r
  from_response_string-reply_line r h =
      from_response_string-code (code_of r) (text_of r) (code_of-lt r h) ∙ classify-code_of r h
