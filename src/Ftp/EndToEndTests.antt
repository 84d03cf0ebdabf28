-- ===== src/Ftp/EndToEndTests.antt =====
-- A whole run of src/file.rs: a printer with two files, and codecs that are as documented.
use bambu_rs.Prelude.{
  ℕ, ◌≡◌, refl, sym, ap, ◌∙◌, true, Option, none, some, List, [], ◌∷◌, ◌++◌, map, arith, Bytes,
  codes, All, if◌then◌else◌, ◌==◌, append-nil, append_assoc, take, drop, take-append-drop,
}
use bambu_rs.Outcome.{Outcome, ok}
use bambu_rs.Crates.{first_match}
use bambu_rs.Crates.Reference.{reference, reference-Documented}
use bambu_rs.Text.Decimal.{display}
use bambu_rs.Text.Utf8.{is_utf8, scan}
use bambu_rs.Framed.{concat}
use bambu_rs.Framed.Unique.{Receives-unique}
use bambu_rs.Ftp.Response.{FtpResponse, SocketAddr, v4}
use bambu_rs.Ftp.Codec.{crlf, decode}
use bambu_rs.Ftp.Metadata.{from_str, parse_date}
use bambu_rs.Ftp.Client.{FileClient, get_files}
use bambu_rs.Ftp.Connect.{Sockets, network}
use bambu_rs.Ftp.Stream.{IsSent, replies_bytes}
use bambu_rs.Ftp.Chunks.{decode_total}
use bambu_rs.Ftp.SessionTests.{as_text, home, benchy, benchy-IsEntry}
use bambu_rs.Ftp.Printed.{IsPrinted, Printed, line_of, file_of, IsDated}
use bambu_rs.Ftp.EndToEnd.{
  IsFramed, IsLinesCodec, lines_bytes, Texts, replies_of, get_files-printed,
}

-- What the decoder yields on the pieces, by the proof that it comes to an end.
framed : List Bytes → List (Outcome FtpResponse)
framed pieces = map ok (decode_total reference-Documented true pieces).0

framed-IsFramed : IsFramed reference true framed
unfolding framed
framed-IsFramed pieces replies r =
    ap (map ok)
      (Receives-unique (decode reference true) (decode_total reference-Documented true pieces).2 r)

-- Lines, with the carriage returns dropped.
abbrev lines_from : Bytes → Bytes → List (Option Bytes)
lines_from line [] = []
lines_from line (c ∷ s) =
    let same_line = lines_from line s in
    let next_line = lines_from [] s in
    let longer = lines_from (line ++ c ∷ []) s in
    if c == 0x0d then same_line else if c == 0x0a then some line ∷ next_line else longer

lines_from-line :
    (front line rest : Bytes)
    → IsPrinted line
    → lines_from front (line ++ (crlf ++ rest)) ≡ some (front ++ line) ∷ lines_from [] rest
lines_from-line front [] rest h = ap (λ l. some l ∷ lines_from [] rest) (sym (append-nil front))
lines_from-line front (c ∷ line) rest (hc, hs) =
    ground (arith, lines_from-line (front ++ c ∷ []) line rest hs, append_assoc front (c ∷ []) line)

abbrev lines_codec : List Bytes → List (Option Bytes)
lines_codec pieces = lines_from [] (concat pieces)

lines_from-lines :
    (lines : List Bytes) → All IsPrinted lines → lines_from [] (lines_bytes lines) ≡ map some lines
lines_from-lines [] h = refl
lines_from-lines (line ∷ lines) (h, hs) =
    lines_from-line [] line (lines_bytes lines) h ∙ ap (◌∷◌ (some line)) (lines_from-lines lines hs)

lines_codec-IsLinesCodec : IsLinesCodec lines_codec
lines_codec-IsLinesCodec pieces lines h e = ap (lines_from []) e ∙ lines_from-lines lines h

abbrev printer : SocketAddr
printer = record { ip = v4 192 168 1 2; port = 990 }

abbrev texts : Texts
texts = record {
  ready = codes "ready";
  need_password = codes "password?";
  logged_in = codes "welcome";
  buffer_size = [];
  protection = [];
  path = codes "/";
  opening = codes "here it comes";
  closing = codes "done";
  goodbye = codes "bye";
}

texts-IsSent : All IsSent (replies_of texts home)
unfolding is_utf8 scan display
texts-IsSent = (
  record { is_reply = tt; one_line = omega arith; text = refl },
  (
    record { is_reply = tt; one_line = omega arith; text = refl },
    (
      record { is_reply = tt; one_line = omega arith; text = refl },
      (
        record { is_reply = tt; one_line = omega arith; text = refl },
        (
          record { is_reply = tt; one_line = omega arith; text = refl },
          (
            record { is_reply = tt; one_line = omega arith; text = refl },
            (
              record {
                is_reply = ((omega arith, omega arith, omega arith, omega arith), omega arith);
                one_line = ground arith;
                text = refl;
              },
              (
                record { is_reply = tt; one_line = omega arith; text = refl },
                (
                  record { is_reply = tt; one_line = omega arith; text = refl },
                  (record { is_reply = tt; one_line = omega arith; text = refl }, tt),
                ),
              ),
            ),
          ),
        ),
      ),
    ),
  ),
)

abbrev files : List (Printed Bytes)
files =
    record { gap = λ i. i; entry = benchy; date = codes "2025 Jan 23 01:27" }
    ∷ record { gap = λ i. 0; entry = benchy; date = codes "2025 Jan 23 01:27" }
    ∷ []

files-IsDated : All (IsDated as_text 2025) files
unfolding parse_date first_match display
files-IsDated = (
  record { is_entry = benchy-IsEntry; dated = refl },
  (record { is_entry = benchy-IsEntry; dated = refl }, tt),
)

-- Both streams, each in two pieces.
abbrev control : Bytes
control = replies_bytes (replies_of texts home)

abbrev data_bytes : Bytes
data_bytes = lines_bytes (map line_of files)

abbrev in_two : ℕ → Bytes → List Bytes
in_two n s = take n s ∷ drop n s ∷ []

in_two-concat : (n : ℕ) (s : Bytes) → concat (in_two n s) ≡ s
in_two-concat n s = ap (◌++◌ (take n s)) (append-nil (drop n s)) ∙ take-append-drop n s

abbrev sockets : Sockets
sockets = record {
  tcp_connect = λ address. none;
  tls_connect = λ verifier ip address. none;
  incoming = λ address. if address.port == 990 then in_two 25 control else in_two 40 data_bytes;
  send_error = λ n. none;
  to_socket_addrs = λ hostname port. ok (printer ∷ []);
  parse_ip = λ hostname. none;
  lines_codec = lines_codec;
  ftp_codec = framed;
}

abbrev client : FileClient
client = record { hostname = codes "printer"; access_code = codes "1234" }

get_files-printed_example :
    get_files (network sockets) (from_str as_text 2025) client (codes "/") ≡ ok (map file_of files)
get_files-printed_example =
    get_files-printed reference-Documented true sockets as_text 2025 client (codes "/") printer home
      [] texts files framed-IsFramed lines_codec-IsLinesCodec (λ n. refl) refl (refl, refl)
      (refl, refl) refl texts-IsSent (in_two-concat 25 control) files-IsDated
      (in_two-concat 40 data_bytes)
