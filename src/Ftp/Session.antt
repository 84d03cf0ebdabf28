-- ===== src/Ftp/Session.antt =====
-- Whole sessions of the client of src/file/ftp.rs.
use bambu_rs.Prelude.{
  ℕ, ◌≡◌, refl, false, Option, none, some, List, [], ◌∷◌, ◌++◌, arith, Bytes, codes, length,
}
use bambu_rs.Outcome.{Outcome, ok}
use bambu_rs.Ftp.Request.{
  FtpRequest, user, pass, quit, enter_passive_mode, list, protection_buffer_size, protection_level,
  pwd,
}
use bambu_rs.Ftp.Response.{
  FtpResponse, file_status_okay, service_ready, command_okay, closing_control_connection,
  closing_data_connection, user_logged_in, user_name_okay_need_password, entering_passive_mode,
  directory_action_okay, SocketAddr,
}
use bambu_rs.Ftp.Metadata.{FileMetadata, Parsed}
use bambu_rs.Ftp.Client.{
  Network, FtpClient, next, send_command, fix_response, is_unspecified, authenticate,
  print_directory, close, list_files, read_lines, session,
}

-- No send fails.
abbrev pub Delivers : Network → Type 0
Delivers net = (n : ℕ) → net.send_error n ≡ none

-- A response that `send_command` passes on as it is.
abbrev pub IsFinal : FtpResponse → Type 0
IsFinal (entering_passive_mode addr) = is_unspecified addr.ip ≡ false
IsFinal _ = Unit

module _ (net : Network) (delivers : Delivers net) where
  fix_response-IsFinal :
      (r : FtpResponse) (s : FtpClient) → IsFinal r → fix_response net r s ≡ (ok r, s)
  unfolding fix_response
  fix_response-IsFinal (entering_passive_mode addr) s h = rw h
  fix_response-IsFinal (service_ready m) s h = refl
  fix_response-IsFinal r s h = refl

  -- A command is answered by the next reply.
  pub send_command-reply :
      (command : FtpRequest) (r : FtpResponse) (rest : List (Outcome FtpResponse)) (s : FtpClient)
      → s.incoming ≡ ok r ∷ rest
      → IsFinal r
      → send_command net command s
        ≡ (ok r, record s { incoming = rest; sent = s.sent ++ command ∷ [] })
  unfolding send_command
  send_command-reply command r rest s e h =
      let s' = record s { incoming = rest; sent = s.sent ++ command ∷ [] } in
      ground (arith, delivers (length s.sent), fix_response-IsFinal r s' h)

-- A client with these replies still to come in and these requests sent.
abbrev pub conn : Bytes → Bytes → Bytes → List (Outcome FtpResponse) → List FtpRequest → FtpClient
conn hostname username password incoming sent = record {
  hostname = hostname;
  username = username;
  password = password;
  incoming = incoming;
  sent = sent;
}

-- The replies of a server that accepts the login, to the connection, USER, PASS, PBSZ and PROT.
abbrev pub logins :
    Bytes → Bytes → Bytes → Bytes → Bytes → List (Outcome FtpResponse) → List (Outcome FtpResponse)
logins w a b c d rest =
    ok (service_ready w)
    ∷ ok (user_name_okay_need_password a)
    ∷ ok (user_logged_in b)
    ∷ ok (command_okay c)
    ∷ ok (command_okay d)
    ∷ rest

abbrev pub login_requests : Bytes → Bytes → List FtpRequest
login_requests username password =
    user username ∷ pass password ∷ protection_buffer_size 0 ∷ protection_level (codes "P") ∷ []

-- The replies to PWD, PASV and LIST, the one that ends the listing, and the answer to QUIT.
abbrev pub listing : Bytes → SocketAddr → Bytes → Bytes → Bytes → List (Outcome FtpResponse)
listing e addr f g h =
    ok (directory_action_okay e)
    ∷ ok (entering_passive_mode addr)
    ∷ ok (file_status_okay f)
    ∷ ok (closing_data_connection g)
    ∷ ok (closing_control_connection h)
    ∷ []

abbrev pub list_requests : Bytes → List FtpRequest
list_requests directory = pwd ∷ enter_passive_mode ∷ list directory ∷ quit ∷ []

module _ (net : Network) (delivers : Delivers net) (hostname username password : Bytes) where
  abbrev pub state : List (Outcome FtpResponse) → List FtpRequest → FtpClient
  state = conn hostname username password

  pub step :
      (command : FtpRequest) (r : FtpResponse) (rest : List (Outcome FtpResponse))
      (sent : List FtpRequest)
      → IsFinal r
      → send_command net command (state (ok r ∷ rest) sent)
        ≡ (ok r, state rest (sent ++ command ∷ []))
  step command r rest sent h =
      send_command-reply net delivers command r rest (state (ok r ∷ rest) sent) refl h

  pub authenticate-logins :
      (w a b c d : Bytes) (rest : List (Outcome FtpResponse))
      → authenticate net (state (logins w a b c d rest) [])
        ≡ (ok (some w), state rest (login_requests username password))
  unfolding authenticate next
  authenticate-logins w a b c d rest = rw (
    step (user username) (user_name_okay_need_password a) _ [] tt,
    step (pass password) (user_logged_in b) _ _ tt,
    step (protection_buffer_size 0) (command_okay c) _ _ tt,
    step (protection_level (codes "P")) (command_okay d) _ _ tt,
  )

  module _ {DateTime : Type 0} (from_str : Bytes → Parsed (FileMetadata DateTime))
      (directory : Bytes) (e f g h : Bytes) (addr : SocketAddr)
      (specified : is_unspecified addr.ip ≡ false) (stream : List (Option Bytes))
      (opened : net.data_lines addr ≡ ok stream) (files : List (FileMetadata DateTime))
      (read : read_lines net from_str stream [] ≡ ok files) where
    -- `list_files` sends QUIT and takes the reply that ends the listing for its answer. The answer to
    -- the QUIT is left unread.
    list_files-listing :
        (sent : List FtpRequest)
        → list_files net from_str directory (state (listing e addr f g h) sent) ≡ (
          ok files,
          state (ok (closing_control_connection h) ∷ []) (
              (((sent ++ pwd ∷ []) ++ enter_passive_mode ∷ []) ++ list directory ∷ [])
              ++ quit ∷ []),
        )
    unfolding list_files print_directory close
    list_files-listing sent = rw (
      step pwd (directory_action_okay e) _ _ tt,
      step enter_passive_mode (entering_passive_mode addr) _ _ specified,
      step (list directory) (file_status_okay f) _ _ tt,
      opened,
      read,
      step quit (closing_data_connection g) _ _ tt,
    )

    -- Suppose that no send fails, that the server accepts the login and the listing, that the
    -- address it names is not 0.0.0.0, and that the data connection to it opens and yields lines
    -- that are all read. Then a session returns the files of these lines. It has sent USER, PASS,
    -- PBSZ, PROT, PWD, PASV, LIST and QUIT twice, in this order, and has read every reply: the first
    -- QUIT met the reply that ends the listing (226), and the second one the answer to the first
    -- (221).
    pub session-listing :
        (w a b c d : Bytes)
        → session net from_str directory (state (logins w a b c d (listing e addr f g h)) []) ≡ (
          ok files,
          state [] (login_requests username password ++ (list_requests directory ++ quit ∷ [])),
        )
    unfolding session close
    session-listing w a b c d = rw (
      authenticate-logins w a b c d (listing e addr f g h),
      list_files-listing (login_requests username password),
      step quit (closing_control_connection h) _ _ tt,
    )
