-- ===== src/Ftp/Client.antt =====
-- src/file/ftp.rs and src/file.rs: the client of the file server. The network is a parameter. What
-- `framed.next()` yields is a list of results of the decoder, at whose end the stream ends; a send
-- fails where `send_error` says so; a data connection yields a list of lines, or fails to open. What
-- the client prints is left out.
use bambu_rs.Prelude.{
  ℕ, Bool, ◌&&◌, Option, none, some, List, [], ◌∷◌, ◌++◌, Bytes, codes, length, ◌==◌, if◌then◌else◌,
}
use bambu_rs.Outcome
use bambu_rs.Outcome.{Outcome, Error, ok, err, panic, unwrap, unwrap_ok, invalid_data, invalid_line}
use bambu_rs.Exec.{Exec, pure, raise, lift, gets, ◌>>=◌, ◌>>◌}
use bambu_rs.Ftp.Request.{
  FtpRequest, user, pass, quit, enter_passive_mode, list, protection_buffer_size, protection_level,
  pwd,
}
use bambu_rs.Ftp.Response.{
  FtpResponse, file_status_okay, service_ready, command_okay, closing_control_connection,
  closing_data_connection, user_logged_in, user_name_okay_need_password, entering_passive_mode,
  directory_action_okay, IpAddr, v4, v6, SocketAddr,
}
use bambu_rs.Ftp.Metadata.{FileMetadata, Parsed, parsed, refused}

-- What the client calls and does not implement.
pub record Network : Type 0 where
  -- the error of the `n`-th send on the control connection, if it fails
  pub send_error : ℕ → Option Error
  -- `connect_insecure(address, LinesCodec::new())`, and all that the stream yields: lines, and `none`
  -- for an error of the line codec
  pub data_lines : SocketAddr → Outcome (List (Option Bytes))
  -- `(hostname, port).to_socket_addrs()`
  pub to_socket_addrs : Bytes → ℕ → Outcome (List SocketAddr)
  -- `connect_insecure(address, FtpCodec)`, and all that the stream yields
  pub control_replies : SocketAddr → Outcome (List (Outcome FtpResponse))
  -- `str::parse::<IpAddr>`
  pub parse_ip : Bytes → Option IpAddr

pub record FtpClient : Type 0 where
  pub hostname : Bytes
  pub username : Bytes
  pub password : Bytes
  -- the control connection: what is still to come in, and what was sent
  pub incoming : List (Outcome FtpResponse)
  pub sent : List FtpRequest

-- `self.framed.send(command).await?`
unfoldable pub send : Network → FtpRequest → Exec FtpClient (Unit {0})
send net command s = elim (net.send_error (length s.sent)) [
  | none ↦ (ok tt, record s { sent = s.sent ++ command ∷ [] })
  | some e ↦ (err e, s)
]

-- `self.framed.next().await.transpose()?`
unfoldable pub next_of : List (Outcome FtpResponse) → Exec FtpClient (Option FtpResponse)
next_of [] s = (ok none, s)
next_of (ok r ∷ rest) s = (ok (some r), record s { incoming = rest })
next_of (err e ∷ rest) s = (err e, record s { incoming = rest })
next_of (panic ∷ rest) s = (panic, record s { incoming = rest })

unfoldable pub next : Exec FtpClient (Option FtpResponse)
unfolding next_of
next s = next_of s.incoming s

-- `IpAddr::is_unspecified`
abbrev pub is_unspecified : IpAddr → Bool
is_unspecified (v4 a b c d) = a == 0 && b == 0 && c == 0 && d == 0
is_unspecified (v6 n) = n == 0

-- An address 0.0.0.0 in a reply 227 means the server itself.
unfoldable pub fix_response : Network → FtpResponse → Exec FtpClient FtpResponse
fix_response net (entering_passive_mode addr) =
    if is_unspecified addr.ip
    then (do
      hostname ← gets (λ s. s.hostname)
      ip ← lift (unwrap (net.parse_ip hostname))
      pure (entering_passive_mode (record { ip = ip; port = addr.port })))
    else pure (entering_passive_mode addr)
fix_response net response = pure response

unfoldable pub received : Network → Option FtpResponse → Exec FtpClient FtpResponse
unfolding fix_response
received net none = raise (invalid_data "Invalid response")
received net (some response) = fix_response net response

unfoldable pub send_command : Network → FtpRequest → Exec FtpClient FtpResponse
unfolding send next received
send_command net command = do send net command; response ← next; received net response

-- `send_command(…).await.unwrap()`
abbrev pub send_or_panic : Network → FtpRequest → Exec FtpClient FtpResponse
send_or_panic net command s = let r = send_command net command s in (unwrap_ok r.0, r.1)

-- The `match` on each response: the kind that is wanted, or an error.
abbrev pub expect_password : FtpResponse → Outcome (Unit {0})
expect_password (user_name_okay_need_password _) = ok tt
expect_password _ = err (invalid_data "Invalid username response")

abbrev pub expect_login : FtpResponse → Outcome (Unit {0})
expect_login (user_logged_in _) = ok tt
expect_login _ = err (invalid_data "Invalid password response")

abbrev pub expect_okay : Error → FtpResponse → Outcome (Unit {0})
expect_okay e (command_okay _) = ok tt
expect_okay e _ = err e

abbrev pub expect_directory : FtpResponse → Outcome Bytes
expect_directory (directory_action_okay message) = ok message
expect_directory _ = err (invalid_data "Invalid PWD response")

abbrev pub expect_closing : FtpResponse → Outcome (Unit {0})
expect_closing (closing_control_connection _) = ok tt
expect_closing (closing_data_connection _) = ok tt
expect_closing _ = err (invalid_data "Invalid QUIT response")

abbrev pub expect_passive : FtpResponse → Outcome SocketAddr
expect_passive (entering_passive_mode addr) = ok addr
expect_passive _ = err (invalid_data "Invalid passive mode response")

abbrev pub expect_status : FtpResponse → Outcome (Unit {0})
expect_status (file_status_okay _) = ok tt
expect_status _ = err (invalid_data "Invalid LIST response")

-- Only the text of a reply 220 is kept.
abbrev pub welcome : Option FtpResponse → Option Bytes
welcome (some (service_ready message)) = some message
welcome _ = none

module _ (net : Network) where
  unfoldable pub authenticate : Exec FtpClient (Option Bytes)
  authenticate = do
    first ← next
    let message = welcome first
    username ← gets (λ s. s.username)
    user_response ← send_or_panic net (user username)
    lift (expect_password user_response)
    password ← gets (λ s. s.password)
    password_response ← send_or_panic net (pass password)
    lift (expect_login password_response)
    response ← send_command net (protection_buffer_size 0)
    lift (expect_okay (invalid_data "Invalid PBSZ response") response)
    response ← send_command net (protection_level (codes "P"))
    lift (expect_okay (invalid_data "Invalid PROT response") response)
    pure message

  unfoldable pub print_directory : Exec FtpClient Bytes
  print_directory = do response ← send_command net pwd; lift (expect_directory response)

  unfoldable pub close : Exec FtpClient (Unit {0})
  close = do response ← send_command net quit; lift (expect_closing response)

module _ {DateTime : Type 0} (net : Network)
    (from_str : Bytes → Parsed (FileMetadata DateTime)) where
  -- `FileMetadata::from_str(&line).map_err(…)?`
  abbrev pub line_metadata : Bytes → Outcome (FileMetadata DateTime)
  line_metadata line = elim (from_str line) [ parsed m ↦ ok m | refused e ↦ err (invalid_data e) ]

  -- `while let Some(response) = data_framed.next().await`
  unfoldable pub read_lines :
      List (Option Bytes) → List (FileMetadata DateTime) → Outcome (List (FileMetadata DateTime))
  read_lines [] lines = ok lines
  read_lines (none ∷ rest) lines = err invalid_line
  read_lines (some line ∷ rest) lines = elim (line_metadata line) [
    | ok m ↦ read_lines rest (lines ++ m ∷ [])
    | err e ↦ err e
    | panic ↦ panic
  ]

  unfoldable pub list_files : Bytes → Exec FtpClient (List (FileMetadata DateTime))
  list_files directory = do
    _pwd ← print_directory net
    pasv_response ← send_command net enter_passive_mode
    socket_addr ← lift (expect_passive pasv_response)
    response ← send_command net (list directory)
    lift (expect_status response)
    stream ← lift (net.data_lines socket_addr)
    lines ← lift (read_lines stream [])
    close net
    pure lines

  -- `FileClient::get_files`, on the connected client
  unfoldable pub session : Bytes → Exec FtpClient (List (FileMetadata DateTime))
  session directory = do
    _message ← authenticate net
    files ← list_files directory
    close net
    pure files

abbrev pub ftps_port : ℕ
ftps_port = 990

abbrev pub first_of {ℓ} : {A : Type ℓ} → List A → Option A
first_of [] = none
first_of (a ∷ _) = some a

-- `FtpClient::connect`
unfoldable pub connect : Network → Bytes → Bytes → Bytes → Outcome FtpClient
connect net hostname username password =
    Outcome.◌>>=◌ (net.to_socket_addrs hostname ftps_port) λ addresses.
      Outcome.◌>>=◌ (unwrap (first_of addresses)) λ socket_addr.
        Outcome.◌>>=◌ (net.control_replies socket_addr) λ replies. ok (record {
          hostname = hostname;
          username = username;
          password = password;
          incoming = replies;
          sent = [];
        })

pub record FileClient : Type 0 where
  pub hostname : Bytes
  pub access_code : Bytes

-- `FileClient::get_files`
unfoldable pub get_files :
    {DateTime : Type 0}
    → Network
    → (Bytes → Parsed (FileMetadata DateTime))
    → FileClient
    → Bytes
    → Outcome (List (FileMetadata DateTime))
unfolding connect
get_files net from_str client directory =
    Outcome.◌>>=◌ (unwrap_ok (connect net client.hostname (codes "bblp") client.access_code))
      λ ftp. (session net from_str directory ftp).0
