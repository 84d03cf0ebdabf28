-- ===== src/Ftp/EndToEnd.antt =====
-- A whole listing of src/file.rs, from the bytes on both connections to the files.
use bambu_rs.Prelude.{
  ℕ, ◌≡◌, refl, ap, ◌∙◌, false, Bool, Option, none, some, List, [], ◌∷◌, ◌++◌, map, Bytes, codes,
  All,
}
use bambu_rs.Outcome
use bambu_rs.Outcome.{Outcome, ok, unwrap_ok}
use bambu_rs.Crates.{Crates, Documented}
use bambu_rs.Framed.{left, concat, Receives}
use bambu_rs.Tls.{no_verifier}
use bambu_rs.Ftp.Response.{
  FtpResponse, file_status_okay, service_ready, command_okay, closing_control_connection,
  closing_data_connection, user_logged_in, user_name_okay_need_password, entering_passive_mode,
  directory_action_okay, SocketAddr,
}
use bambu_rs.Ftp.Codec.{crlf, decode}
use bambu_rs.Ftp.Metadata.{from_str}
use bambu_rs.Ftp.Client.{is_unspecified, connect, FileClient, get_files, session, read_lines}
use bambu_rs.Ftp.Connect.{Sockets, connect_insecure, network}
use bambu_rs.Ftp.Stream.{IsSent, replies_bytes}
use bambu_rs.Ftp.Chunks.{Receives-replies_bytes}
use bambu_rs.Ftp.Session.{conn, session-listing}
use bambu_rs.Ftp.Printed.{
  IsPrinted, Printed, line_of, file_of, IsDated, read_lines-line_of, entry_line-IsPrinted,
}

-- What tokio-util documents of `Framed` with a decoder: it yields what the decoder makes of the
-- pieces, if the decoder has nothing left over when the stream ends.
abbrev pub IsFramed : Crates → Bool → (List Bytes → List (Outcome FtpResponse)) → Type 0
IsFramed c checks codec =
    (pieces : List Bytes) (replies : List FtpResponse)
    → Receives (decode c checks) [] pieces replies (left [])
    → codec pieces ≡ map ok replies

abbrev pub lines_bytes : List Bytes → Bytes
lines_bytes [] = []
lines_bytes (line ∷ lines) = line ++ (crlf ++ lines_bytes lines)

-- What tokio-util documents of `LinesCodec`: a line ends with a line feed, or with a carriage return
-- and a line feed, which are taken off.
abbrev pub IsLinesCodec : (List Bytes → List (Option Bytes)) → Type 0
IsLinesCodec codec =
    (pieces lines : List Bytes)
    → All IsPrinted lines
    → concat pieces ≡ lines_bytes lines
    → codec pieces ≡ map some lines

-- The connection to an address opens, and the handshake with the verifier succeeds.
abbrev pub Opens : Sockets → SocketAddr → Type 0
Opens sockets address =
    (sockets.tcp_connect address ≡ none)
    × (sockets.tls_connect no_verifier address.ip address ≡ none)

-- The texts of the replies of a server that accepts the login and the listing.
pub record Texts : Type 0 where
  pub ready : Bytes
  pub need_password : Bytes
  pub logged_in : Bytes
  pub buffer_size : Bytes
  pub protection : Bytes
  pub path : Bytes
  pub opening : Bytes
  pub closing : Bytes
  pub goodbye : Bytes

abbrev pub replies_of : Texts → SocketAddr → List FtpResponse
replies_of t address =
    service_ready t.ready
    ∷ user_name_okay_need_password t.need_password
    ∷ user_logged_in t.logged_in
    ∷ command_okay t.buffer_size
    ∷ command_okay t.protection
    ∷ directory_action_okay t.path
    ∷ entering_passive_mode address
    ∷ file_status_okay t.opening
    ∷ closing_data_connection t.closing
    ∷ closing_control_connection t.goodbye
    ∷ []

connect_insecure-Opens :
    (sockets : Sockets) {Item : Type 0} (address : SocketAddr) (codec : List Bytes → Item)
    → Opens sockets address
    → connect_insecure sockets address codec ≡ ok (codec (sockets.incoming address))
unfolding connect_insecure
connect_insecure-Opens sockets address codec (tcp, tls) = rw (tcp, tls)

lines-IsPrinted :
    {DateTime : Type 0} (parse_from_str : Bytes → Bytes → Option DateTime) (current_year : ℕ)
    (files : List (Printed DateTime))
    → All (IsDated parse_from_str current_year) files
    → All IsPrinted (map line_of files)
lines-IsPrinted parse_from_str current_year [] h = tt
lines-IsPrinted parse_from_str current_year (p ∷ ps) (h, hs) = (
  entry_line-IsPrinted p.gap p.entry h.is_entry,
  lines-IsPrinted parse_from_str current_year ps hs,
)

-- A client that is connected has what its control connection yields.
connect-conn :
    (sockets : Sockets) (hostname username password : Bytes) (server : SocketAddr)
    (others : List SocketAddr)
    → sockets.to_socket_addrs hostname 990 ≡ ok (server ∷ others)
    → Opens sockets server
    → connect (network sockets) hostname username password
      ≡ ok (conn hostname username password (sockets.ftp_codec (sockets.incoming server)) [])
unfolding connect
connect-conn sockets hostname username password server others found opens =
    rw (found, connect_insecure-Opens sockets server sockets.ftp_codec opens)

map-map :
    {A B C : Type 0} (f : B → C) (g : A → B) (xs : List A)
    → map f (map g xs) ≡ map (λ a. f (g a)) xs
map-map f g [] = refl
map-map f g (a ∷ xs) = ap (◌∷◌ (f (g a))) (map-map f g xs)

-- Let a printer listen under the host name and accept the login and the listing, with any texts in
-- its replies that are UTF-8 without a carriage return, and let it name an IPv4 address other than
-- 0.0.0.0 with a port of 16 bits. It sends these replies over the control connection and, over the
-- data connection at that address, the lines of its files, each of words of printed ASCII characters
-- with any runs of blanks between them; the bytes of both are cut into pieces in any way. If both
-- connections open, no send fails, `Framed` and `LinesCodec` do what is documented, and the calendar
-- reads the dates, then `get_files` returns these files, in order.
pub get_files-printed :
    {c : Crates}
    → Documented c
    → {DateTime : Type 0}
    → (checks : Bool) (sockets : Sockets) (parse_from_str : Bytes → Bytes → Option DateTime)
      (current_year : ℕ) (client : FileClient) (directory : Bytes) (server address : SocketAddr)
      (others : List SocketAddr) (texts : Texts) (files : List (Printed DateTime))
    → IsFramed c checks sockets.ftp_codec
    → IsLinesCodec sockets.lines_codec
    → ((n : ℕ) → sockets.send_error n ≡ none)
    → sockets.to_socket_addrs client.hostname 990 ≡ ok (server ∷ others)
    → Opens sockets server
    → Opens sockets address
    → is_unspecified address.ip ≡ false
    → All IsSent (replies_of texts address)
    → concat (sockets.incoming server) ≡ replies_bytes (replies_of texts address)
    → All (IsDated parse_from_str current_year) files
    → concat (sockets.incoming address) ≡ lines_bytes (map line_of files)
    → get_files (network sockets) (from_str parse_from_str current_year) client directory
      ≡ ok (map file_of files)
unfolding get_files
get_files-printed doc checks sockets parse_from_str current_year client directory server address
      others texts files framed lines delivers found opens opens_data specified sent control dated
      printed =
    let net = network sockets in
    let user = client.hostname in
    let read = from_str parse_from_str current_year in
    let stream = map some (map line_of files) in
    let replies = framed (sockets.incoming server) (replies_of texts address) (
      Receives-replies_bytes doc checks (replies_of texts address) (sockets.incoming server) sent
        control) in
    let connected =
      connect-conn sockets user (codes "bblp") client.access_code server others found opens
      ∙ ap (λ r. ok (conn user (codes "bblp") client.access_code r [])) replies in
    let opened : net.data_lines address ≡ ok stream =
      connect_insecure-Opens sockets address sockets.lines_codec opens_data
      ∙ ap ok (
          lines (sockets.incoming address) (map line_of files)
            (lines-IsPrinted parse_from_str current_year files dated) printed) in
    let all_read : read_lines net read stream [] ≡ ok (map file_of files) =
      ap (λ s. read_lines net read s []) (map-map some line_of files)
      ∙ read_lines-line_of parse_from_str current_year net files [] dated in
    ap (λ o. Outcome.◌>>=◌ (unwrap_ok o) (λ ftp. (session net read directory ftp).0)) connected
    ∙ ap (λ r. r.0)
        (session-listing net delivers user (codes "bblp") client.access_code read directory
          texts.path texts.opening texts.closing texts.goodbye address specified stream opened
          (map file_of files) all_read texts.ready texts.need_password texts.logged_in
          texts.buffer_size texts.protection)
