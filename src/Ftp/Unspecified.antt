-- ===== src/Ftp/Unspecified.antt =====
-- The answer 0.0.0.0 to PASV, for the client of src/file/ftp.rs.
use bambu_rs.Prelude.{◌≡◌, true, none, List, [], ◌∷◌, ◌++◌, arith, Bytes, length}
use bambu_rs.Outcome.{Outcome, ok, panic}
use bambu_rs.Ftp.Request.{FtpRequest, enter_passive_mode, pwd}
use bambu_rs.Ftp.Response.{FtpResponse, directory_action_okay, entering_passive_mode, SocketAddr}
use bambu_rs.Ftp.Metadata.{FileMetadata, Parsed}
use bambu_rs.Ftp.Client.{
  Network, FtpClient, send_command, fix_response, is_unspecified, print_directory, list_files,
  session,
}
use bambu_rs.Ftp.Session.{Delivers, logins, login_requests, state, step, authenticate-logins}

fix_response-unknown :
    (net : Network) (addr : SocketAddr) (s : FtpClient)
    → is_unspecified addr.ip ≡ true
    → net.parse_ip s.hostname ≡ none
    → fix_response net (entering_passive_mode addr) s ≡ (panic, s)
unfolding fix_response
fix_response-unknown net addr s zero unknown = ground (arith, zero, unknown)

module _ (net : Network) (delivers : Delivers net) (hostname username password : Bytes) where
  -- The answer to PASV, when it names the address 0.0.0.0, by what the host name is as an address.
  passive_unspecified :
      (addr : SocketAddr) (rest : List (Outcome FtpResponse)) (sent : List FtpRequest)
      → is_unspecified addr.ip ≡ true
      → net.parse_ip hostname ≡ none
      → send_command net enter_passive_mode (
          state net delivers hostname username password
            (ok (entering_passive_mode addr) ∷ rest)
            sent)
        ≡ (
          panic,
          state net delivers hostname username password rest (sent ++ enter_passive_mode ∷ []),
        )
  unfolding send_command
  passive_unspecified addr rest sent zero unknown =
      let s' =
        state net delivers hostname username password rest (sent ++ enter_passive_mode ∷ []) in
      ground (arith, delivers (length sent), fix_response-unknown net addr s' zero unknown)

  -- Suppose that no send fails, that the server accepts the login and PWD, that it answers PASV with
  -- the address 0.0.0.0, and that the host name with which the client was connected is no address
  -- literal. Then the session panics, after USER, PASS, PBSZ, PROT, PWD and PASV.
  pub session-unspecified :
      {DateTime : Type 0} (from_str : Bytes → Parsed (FileMetadata DateTime)) (directory : Bytes)
      (w a b c d e : Bytes) (addr : SocketAddr) (rest : List (Outcome FtpResponse))
      → is_unspecified addr.ip ≡ true
      → net.parse_ip hostname ≡ none
      → session net from_str directory (
          state net delivers hostname username password
            (logins w a b c d
              (ok (directory_action_okay e) ∷ ok (entering_passive_mode addr) ∷ rest))
            [])
        ≡ (
          panic,
          state net delivers hostname username password rest
              (login_requests username password ++ (pwd ∷ enter_passive_mode ∷ [])),
        )
  unfolding session list_files print_directory
  session-unspecified from_str directory w a b c d e addr rest zero unknown = rw (
    authenticate-logins net delivers hostname username password w a b c d
        (ok (directory_action_okay e) ∷ ok (entering_passive_mode addr) ∷ rest),
    step net delivers hostname username password pwd (directory_action_okay e)
        (ok (entering_passive_mode addr) ∷ rest) (login_requests username password) tt,
    passive_unspecified addr rest (login_requests username password ++ pwd ∷ []) zero unknown,
  )
