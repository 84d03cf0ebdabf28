-- ===== src/Ftp/Failed.antt =====
-- A listing of src/file/ftp.rs whose data connection fails, or yields a line that is refused.
use bambu_rs.Prelude.{◌≡◌, ap, false, List, [], ◌∷◌, ◌++◌, Bytes}
use bambu_rs.Outcome
use bambu_rs.Outcome.{Outcome, Error, ok, err, panic}
use bambu_rs.Exec.{Exec, continue, lift, pure, ◌>>=◌, ◌>>◌}
use bambu_rs.Ftp.Request.{enter_passive_mode, pwd, list}
use bambu_rs.Ftp.Response.{
  FtpResponse, SocketAddr, directory_action_okay, entering_passive_mode, file_status_okay,
}
use bambu_rs.Ftp.Metadata.{FileMetadata, Parsed}
use bambu_rs.Ftp.Client.{
  Network, FtpClient, is_unspecified, print_directory, read_lines, list_files, session, close,
}
use bambu_rs.Ftp.Session.{Delivers, logins, login_requests, state, step, authenticate-logins}

-- The files of the data connection.
abbrev pub fetched :
    Network
    → {DateTime : Type 0} → (Bytes → Parsed (FileMetadata DateTime))
    → SocketAddr
    → Outcome (List (FileMetadata DateTime))
fetched net from_str addr =
    Outcome.◌>>=◌ (net.data_lines addr) (λ stream. read_lines net from_str stream [])

-- Two calls of which the first or the second fails.
lift-failed :
    {S A B C : Type 0} (first : Outcome A) (then : A → Outcome B) (more : B → Exec S C) (e : Error)
    (s : S)
    → Outcome.◌>>=◌ first then ≡ err e
    → (lift first >>= λ a. lift (then a) >>= more) s ≡ (err e, s)
lift-failed (ok a) then more e s h = ap (λ o. continue o more s) h
lift-failed (err x) then more e s h = let same : err x ≡ err e = h in ap (λ o. (o, s)) (cc)
lift-failed panic then more e s h = cc

module _ (net : Network) (delivers : Delivers net) (hostname username password : Bytes) where
  -- Suppose that no send fails, that the server accepts the login, PWD, PASV with an address other
  -- than 0.0.0.0, and LIST, and that the data connection to this address does not open, breaks, or
  -- yields a line that is refused, with an error. Then the session ends with this error. It has sent
  -- USER, PASS, PBSZ, PROT, PWD, PASV and LIST, and no QUIT, and it leaves the replies that follow
  -- unread.
  pub session-failed :
      {DateTime : Type 0} (from_str : Bytes → Parsed (FileMetadata DateTime)) (directory : Bytes)
      (w a b c d m f : Bytes) (addr : SocketAddr) (rest : List (Outcome FtpResponse)) (e : Error)
      → is_unspecified addr.ip ≡ false
      → fetched net from_str addr ≡ err e
      → session net from_str directory (
          state net delivers hostname username password
            (logins w a b c d (
              ok (directory_action_okay m)
              ∷ ok (entering_passive_mode addr)
              ∷ ok (file_status_okay f)
              ∷ rest))
            [])
        ≡ (
          err e,
          state net delivers hostname username password rest (
              login_requests username password ++ (pwd ∷ enter_passive_mode ∷ list directory ∷ [])),
        )
  unfolding session list_files print_directory
  session-failed {DateTime} from_str directory w a b c d m f addr rest e specified failed =
      rw
        (
          authenticate-logins net delivers hostname username password w a b c d (
              ok (directory_action_okay m)
              ∷ ok (entering_passive_mode addr)
              ∷ ok (file_status_okay f)
              ∷ rest),
          step net delivers hostname username password pwd (directory_action_okay m)
              (ok (entering_passive_mode addr) ∷ ok (file_status_okay f) ∷ rest)
              (login_requests username password) tt,
          step net delivers hostname username password enter_passive_mode
              (entering_passive_mode addr) (ok (file_status_okay f) ∷ rest)
              (login_requests username password ++ pwd ∷ []) specified,
          step net delivers hostname username password (list directory) (file_status_okay f) rest
              ((login_requests username password ++ pwd ∷ []) ++ enter_passive_mode ∷ []) tt,
        )
        (ap
          (λ (r : Outcome (List (FileMetadata DateTime)) × FtpClient).
            continue r.0 (λ files. close net >> pure files) r.1)
          (lift-failed (net.data_lines addr) (λ stream. read_lines net from_str stream [])
            (λ lines. close net >> pure lines) e
            (state net delivers hostname username password rest (
              login_requests username password ++ (pwd ∷ enter_passive_mode ∷ list directory ∷ [])))
            failed))
