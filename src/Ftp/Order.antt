-- ===== src/Ftp/Order.antt =====
-- The requests of src/file/ftp.rs, in the order in which they are sent, on every path.
use bambu_rs.Prelude.{
  ◌≡◌, refl, sym, ap, ap₂, subst, ◌∙◌, Option, none, some, List, [], ◌∷◌, ◌++◌, Bytes, codes,
  length, append-nil,
}
use bambu_rs.Outcome.{Outcome, Error, ok, err, panic, invalid_data}
use bambu_rs.Exec.{Exec, continue, ◌>>=◌, lift}
use bambu_rs.Ftp.Request.{
  FtpRequest, user, pass, quit, enter_passive_mode, list, protection_buffer_size, protection_level,
  pwd,
}
use bambu_rs.Ftp.Response.{FtpResponse}
use bambu_rs.Ftp.Metadata.{FileMetadata, Parsed}
use bambu_rs.Ftp.Client.{
  Network, FtpClient, received, send, next, next_of, send_command, send_or_panic, authenticate,
  print_directory, close, list_files, read_lines, session, expect_password, expect_login,
  expect_okay, expect_directory, expect_closing, expect_passive, expect_status, welcome,
}
use bambu_rs.Ftp.Password.{fix_response-state}
use bambu_rs.Ftp.Login.{unwrap_ok-eq-ok}
use bambu_rs.Ftp.Session.{login_requests, list_requests}
use bambu_rs.Ftp.Sends.{Sends, Follows, Sends-none, Sends-bind}

module _ (net : Network) where
  -- The state after a reply was taken, or none came.
  received_state :
      (l : List (Outcome FtpResponse)) (s : FtpClient)
      → (rest : List (Outcome FtpResponse)) × ((continue
            ((next_of l s).0)
            (received net)
            ((next_of l s).1)).1
          ≡ record s { incoming = rest })
  unfolding next_of received
  received_state [] s = (s.incoming, refl)
  received_state (err e ∷ rest) s = (rest, refl)
  received_state (panic ∷ rest) s = (rest, refl)
  received_state (ok raw ∷ rest) s =
      (rest, fix_response-state net raw (record s { incoming = rest }))

  send_command-Sends : (command : FtpRequest) → Follows (command ∷ []) (send_command net command)
  unfolding send_command send next
  send_command-Sends command s = go (net.send_error (length s.sent))
    where
      sent : FtpClient
      sent = record s { sent = s.sent ++ command ∷ [] }

      outcome : Option Error → Outcome (Unit {0}) × FtpClient
      outcome o = elim o [ none ↦ (ok tt, sent) | some e ↦ (err e, s) ]

      go :
          (o : Option Error)
          → Sends
              (command ∷ [])
              s
              (continue ((outcome o).0) (λ _. next >>= received net) ((outcome o).1))
      go none =
          let (rest, e) = received_state s.incoming sent in
          record {
            sent = command ∷ [];
            sent_is = ap (λ t. t.sent) e;
            in_order = ([], refl);
            complete = λ a h. refl;
            same_username = ap (λ t. t.username) e;
            same_password = ap (λ t. t.password) e;
          }
      go (some e) = record {
        sent = [];
        sent_is = sym (append-nil s.sent);
        in_order = (command ∷ [], refl);
        complete = λ a h. cc;
        same_username = refl;
        same_password = refl;
      }

  send_or_panic-Sends : (command : FtpRequest) → Follows (command ∷ []) (send_or_panic net command)
  send_or_panic-Sends command s =
      let h = send_command-Sends command s in
      record {
        sent = h.sent;
        sent_is = h.sent_is;
        in_order = h.in_order;
        complete = λ a e. h.complete a (unwrap_ok-eq-ok ((send_command net command s).0) a e);
        same_username = h.same_username;
        same_password = h.same_password;
      }

  -- A command, a test of its reply, and what follows.
  checked :
      {A B : Type 0} (command : FtpRequest) (those : List FtpRequest)
      (m : Exec FtpClient FtpResponse) (check : FtpResponse → Outcome A) (f : A → Exec FtpClient B)
      (s : FtpClient)
      → Sends (command ∷ []) s (m s)
      → ((a : A) → Sends those (m s).1 (f a (m s).1))
      → Sends (command ∷ those) s ((m >>= λ r. lift (check r) >>= f) s)
  checked command those m check f s h k =
      Sends-bind (command ∷ []) those m (λ r. lift (check r) >>= f) s h
        (λ r. Sends-bind [] those (lift (check r)) f (m s).1 (Sends-none (m s).1 (check r)) k)

  next-Sends : Follows [] next
  unfolding next next_of
  next-Sends s = go s.incoming
    where
      took :
          (rest : List (Outcome FtpResponse)) (o : Outcome (Option FtpResponse))
          → Sends [] s (o, record s { incoming = rest })
      took rest o = record {
        sent = [];
        sent_is = sym (append-nil s.sent);
        in_order = ([], refl);
        complete = λ a h. refl;
        same_username = refl;
        same_password = refl;
      }

      go : (l : List (Outcome FtpResponse)) → Sends [] s (next_of l s)
      go [] = Sends-none s (ok none)
      go (ok r ∷ rest) = took rest (ok (some r))
      go (err e ∷ rest) = took rest (err e)
      go (panic ∷ rest) = took rest panic

  authenticate-Sends :
      (s : FtpClient) → Sends (login_requests s.username s.password) s (authenticate net s)
  unfolding authenticate
  authenticate-Sends s =
      let t = (next s).1 in
      let u = (send_or_panic net (user t.username) t).1 in
      let names : t.username ≡ s.username = (next-Sends s).same_username in
      let passwords : u.password ≡ s.password =
        (send_or_panic-Sends (user t.username) t).same_password ∙ (next-Sends s).same_password in
      subst (λ l. Sends l s (authenticate net s)) (ap₂ login_requests names passwords)
        (Sends-bind [] (login_requests t.username u.password) next _ s (next-Sends s) (λ first.
          checked (user t.username) _ (send_or_panic net (user t.username)) expect_password _ t
            (send_or_panic-Sends (user t.username) t)
            (λ _.
              checked (pass u.password) _ (send_or_panic net (pass u.password)) expect_login _ u
                (send_or_panic-Sends (pass u.password) u)
                (λ _.
                  let v = (send_or_panic net (pass u.password) u).1 in
                  checked (protection_buffer_size 0) _ (send_command net (protection_buffer_size 0))
                    (expect_okay (invalid_data "Invalid PBSZ response")) _ v
                    (send_command-Sends (protection_buffer_size 0) v)
                    (λ _.
                      let w = (send_command net (protection_buffer_size 0) v).1 in
                      checked (protection_level (codes "P")) []
                        (send_command net (protection_level (codes "P")))
                        (expect_okay (invalid_data "Invalid PROT response")) _ w
                        (send_command-Sends (protection_level (codes "P")) w)
                        (λ _.
                          Sends-none (send_command net (protection_level (codes "P")) w).1
                            (ok (welcome first))))))))

  print_directory-Sends : Follows (pwd ∷ []) (print_directory net)
  unfolding print_directory
  print_directory-Sends s =
      Sends-bind (pwd ∷ []) [] (send_command net pwd) (λ r. lift (expect_directory r)) s
        (send_command-Sends pwd s) (λ r. Sends-none (send_command net pwd s).1 (expect_directory r))

  close-Sends : Follows (quit ∷ []) (close net)
  unfolding close
  close-Sends s =
      Sends-bind (quit ∷ []) [] (send_command net quit) (λ r. lift (expect_closing r)) s
        (send_command-Sends quit s) (λ r. Sends-none (send_command net quit s).1 (expect_closing r))

module _ {DateTime : Type 0} (net : Network) (from_str : Bytes → Parsed (FileMetadata DateTime))
    (directory : Bytes) where
  list_files-Sends : Follows (list_requests directory) (list_files net from_str directory)
  unfolding list_files
  list_files-Sends s =
      let t = (print_directory net s).1 in
      Sends-bind (pwd ∷ []) _ (print_directory net) _ s (print_directory-Sends net s) (λ _.
        checked net enter_passive_mode _ (send_command net enter_passive_mode) expect_passive _ t
          (send_command-Sends net enter_passive_mode t)
          (λ addr.
            let u = (send_command net enter_passive_mode t).1 in
            checked net (list directory) (quit ∷ []) (send_command net (list directory))
              expect_status _ u (send_command-Sends net (list directory) u)
              (λ _.
                let v = (send_command net (list directory) u).1 in
                Sends-bind [] (quit ∷ []) (lift (net.data_lines addr)) _ v
                  (Sends-none v (net.data_lines addr))
                  (λ stream.
                    Sends-bind [] (quit ∷ []) (lift (read_lines net from_str stream [])) _ v
                      (Sends-none v (read_lines net from_str stream []))
                      (λ lines.
                        Sends-bind (quit ∷ []) [] (close net) _ v (close-Sends net v)
                          (λ _. Sends-none (close net v).1 (ok lines)))))))

  -- Whatever the server answers, whatever fails, and however a session ends, the requests that it
  -- sends are a first part of USER, PASS, PBSZ 0, PROT P, PWD, PASV, LIST, QUIT and QUIT, in this
  -- order, with the user name and the password of the client and the directory asked for; and they
  -- are all of them if the session returns files.
  pub session-Sends :
      (s : FtpClient)
      → Sends
          (login_requests s.username s.password ++ (list_requests directory ++ quit ∷ []))
          s
          (session net from_str directory s)
  unfolding session
  session-Sends s =
      let t = (authenticate net s).1 in
      Sends-bind (login_requests s.username s.password) _ (authenticate net) _ s
        (authenticate-Sends net s)
        (λ _.
          let u = (list_files net from_str directory t).1 in
          Sends-bind (list_requests directory) (quit ∷ []) (list_files net from_str directory) _ t
            (list_files-Sends t)
            (λ files.
              Sends-bind (quit ∷ []) [] (close net) _ u (close-Sends net u)
                (λ _. Sends-none (close net u).1 (ok files))))
