-- ===== src/Ftp/Tests.antt =====
-- Runs of src/file/ftp/codec.rs on concrete inputs, among them those of its unit tests.
use bambu_rs.Prelude.{
  ◌≡◌, ◌≢◌, ◌↔◌, refl, true, false, some, [], ◌++◌, arith, Bytes, codes, All, List, ◌∷◌, take, drop,
}
use bambu_rs.Outcome.{ok, panic}
use bambu_rs.Crates.{first_match}
use bambu_rs.Crates.Reference.{reference, reference-Documented}
use bambu_rs.Text.Decimal.{parse, display}
use bambu_rs.Text.Split.{splitn_2, split}
use bambu_rs.Ftp.Request.{user, list, to_command_string}
use bambu_rs.Ftp.Response.{
  entering_passive_mode, v4, SocketAddr, parse_address, parse_passive, from_response_string, other,
  service_ready, FtpResponse,
}
use bambu_rs.Ftp.Codec.{crlf, encode, decode}
use bambu_rs.Ftp.Lines.{IsLine}
use bambu_rs.Ftp.Passive.{numbers, passive_message, parse_passive-numbers}
use bambu_rs.Ftp.PassiveSound.{IsPassive, parse_passive_iff}
use bambu_rs.Ftp.Stream.{IsSent, replies_bytes}
use bambu_rs.Framed.{End, left, concat, Drains, Receives}
use bambu_rs.Ftp.Typed.{IsTyped, decode-IsTyped}
use bambu_rs.Ftp.Chunks.{decode_chunks, decode_total, Receives-replies_bytes}
use bambu_rs.Text.Utf8.{from_utf8, is_utf8, scan}
use bambu_rs.Ftp.NoPanic.{decode-ne-panic}
use bambu_rs.Ftp.Commands.{encode-IsLine, encode_injection}

abbrev home : SocketAddr
home = record { ip = v4 192 168 1 2; port = 1027 }

-- The unit test `test_pasv_response`.
passive_response :
    from_response_string reference true (codes "227 Entering Passive Mode (192,168,1,2,4,3)")
    ≡ ok (entering_passive_mode home)
unfolding from_response_string parse splitn_2 first_match parse_address split
passive_response = refl

-- Two replies in one buffer.
abbrev replies : Bytes
replies = codes "220 ready" ++ (crlf ++ (codes "331 " ++ crlf))

decode-ne-panic_example : (decode reference false replies).0 ≢ panic
decode-ne-panic_example = decode-ne-panic reference-Documented replies

-- A port of 300 * 256 + 1, which is 11265 in 16 bits.
parse_passive-numbers_example :
    parse_passive reference false
      (passive_message (codes "Mode ") (numbers 10 0 0 1 300 1) (codes "."))
    ≡ ok (entering_passive_mode (record { ip = v4 10 0 0 1; port = 11265 }))
parse_passive-numbers_example =
    parse_passive-numbers reference-Documented false (codes "Mode ") (codes ".") 10 0 0 1 300 1
      (record { no_open = omega arith; no_close = omega arith })
      (record { no_open = omega arith; no_close = omega arith })
      (record {
        a_small = omega arith;
        b_small = omega arith;
        c_small = omega arith;
        d_small = omega arith;
        hi_small = omega arith;
        lo_small = omega arith;
      })

parse_passive_iff_example :
    (parse_passive reference true (codes "Mode (192,168,1,2,4,3)")
      ≡ ok (entering_passive_mode home))
    ↔ IsPassive true (codes "Mode (192,168,1,2,4,3)") (entering_passive_mode home)
parse_passive_iff_example =
    parse_passive_iff reference-Documented true (codes "Mode (192,168,1,2,4,3)")
      (entering_passive_mode home)

encode-IsLine_example :
    (sent : Bytes) × (encode reference (user (codes "bblp")) (codes "QUIT" ++ crlf)
      ≡ (ok tt, (codes "QUIT" ++ crlf) ++ sent))
    × IsLine (sent ++ codes "PASS ") (to_command_string (user (codes "bblp"))) (codes "PASS ")
encode-IsLine_example =
    encode-IsLine reference-Documented (user (codes "bblp")) (codes "QUIT" ++ crlf) (codes "PASS ")
      (omega arith)

encode_injection_example :
    (sent : Bytes) × (encode reference (list (codes "a" ++ (crlf ++ codes "DELE b"))) []
      ≡ (ok tt, [] ++ sent))
    × IsLine (sent ++ []) (to_command_string (list (codes "a"))) (codes "DELE b" ++ (crlf ++ []))
encode_injection_example =
    encode_injection reference-Documented (codes "a") (codes "DELE b") [] [] (omega arith)

-- A greeting and an address.
abbrev conversation : List FtpResponse
conversation = other 120 (codes "wait") ∷ entering_passive_mode home ∷ []

conversation-IsSent : All IsSent conversation
unfolding is_utf8 scan display
conversation-IsSent = (
  record { is_reply = (omega arith, refl); one_line = omega arith; text = refl },
  (
    record {
      is_reply = ((omega arith, omega arith, omega arith, omega arith), omega arith);
      one_line = ground arith;
      text = refl;
    },
    tt,
  ),
)

-- The bytes of both, in two pieces.
abbrev pieces : List Bytes
pieces = take 7 (replies_bytes conversation) ∷ drop 7 (replies_bytes conversation) ∷ []

pieces-concat : concat pieces ≡ replies_bytes conversation
unfolding display
pieces-concat = refl

Receives-replies_bytes_example : Receives (decode reference true) [] pieces conversation (left [])
Receives-replies_bytes_example =
    Receives-replies_bytes reference-Documented true conversation pieces conversation-IsSent
      pieces-concat

-- One reply, an end of a line in two pieces, and the beginning of a second reply.
abbrev broken_pieces : List Bytes
broken_pieces = (codes "220 ready" ++ 0x0d ∷ []) ∷ (0x0a ∷ codes "331") ∷ []

decode_chunks_example :
    Receives
      (decode reference true)
      []
      broken_pieces
      (service_ready (codes "ready") ∷ [])
      (left (codes "331"))
    ↔ Drains
        (decode reference true)
        (concat broken_pieces)
        (service_ready (codes "ready") ∷ [])
        (left (codes "331"))
decode_chunks_example =
    decode_chunks reference-Documented true broken_pieces (service_ready (codes "ready") ∷ [])
      (left (codes "331"))

decode_total_example :
    (items : List FtpResponse) × (end : End) × Receives
      (decode reference true)
      []
      broken_pieces
      items
      end
decode_total_example = decode_total reference-Documented true broken_pieces

greeting :
    decode reference true replies
    ≡ (ok (some (service_ready (codes "ready"))), codes "331 " ++ crlf)
unfolding decode from_response_string splitn_2 parse first_match from_utf8
greeting = refl

decode-IsTyped_example : IsTyped (service_ready (codes "ready"))
decode-IsTyped_example =
    decode-IsTyped reference-Documented true replies (codes "331 " ++ crlf)
      (service_ready (codes "ready")) greeting
