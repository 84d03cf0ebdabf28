-- ===== src/Ftp/Login.antt =====
-- When the login of src/file/ftp.rs succeeds.
mod Exchange
pub use Exchange.*
use bambu_rs.Prelude.{
  ◌≡◌, refl, sym, ap, subst, ◌∙◌, Bool, true, false, Option, none, some, List, [], ◌∷◌, ◌++◌, arith,
  Bytes, codes, length, append_assoc, if◌then◌else◌,
}
use bambu_rs.Outcome.{Outcome, Error, ok, err, panic, unwrap_ok, unwrap, invalid_data}
use bambu_rs.Exec.{Exec, continue, ◌>>=◌}
use bambu_rs.Ftp.Request.{FtpRequest, user, pass, protection_buffer_size, protection_level}
use bambu_rs.Ftp.Response.{
  FtpResponse, command_okay, user_logged_in, user_name_okay_need_password, entering_passive_mode,
  IpAddr, SocketAddr,
}
use bambu_rs.Ftp.Client.{
  Network, FtpClient, send, next, next_of, send_command, send_or_panic, fix_response, received,
  is_unspecified, authenticate, expect_password, expect_login, expect_okay, welcome,
}
use bambu_rs.Ftp.Session.{login_requests}

-- The conversation of a login: the replies that were read, and the requests that were sent.
pub record LoggedIn (s : FtpClient) (message : Option Bytes) (s' : FtpClient) : Type 0 where
  pub greeting : FtpResponse
  pub a : Bytes
  pub b : Bytes
  pub c : Bytes
  pub d : Bytes
  pub rest : List (Outcome FtpResponse)
  pub replies :
      s.incoming
      ≡ ok greeting
        ∷ ok (user_name_okay_need_password a)
        ∷ ok (user_logged_in b)
        ∷ ok (command_okay c)
        ∷ ok (command_okay d)
        ∷ rest
  pub message_is : message ≡ welcome (some greeting)
  pub final :
      s' ≡ record s { incoming = rest; sent = s.sent ++ login_requests s.username s.password }

pub password_reply :
    (r : FtpResponse)
    → expect_password r ≡ ok tt
    → (a : Bytes) × (r ≡ user_name_okay_need_password a)
password_reply (user_name_okay_need_password a) h = (a, refl)
password_reply r h = absurd (ground arith)

login_reply : (r : FtpResponse) → expect_login r ≡ ok tt → (a : Bytes) × (r ≡ user_logged_in a)
login_reply (user_logged_in a) h = (a, refl)
login_reply r h = absurd (ground arith)

okay_reply :
    (e : Error) (r : FtpResponse) → expect_okay e r ≡ ok tt → (a : Bytes) × (r ≡ command_okay a)
okay_reply e (command_okay a) h = (a, refl)
okay_reply e r h = absurd (ground arith)

pub unwrap_ok-eq-ok : {A : Type 0} (r : Outcome A) (a : A) → unwrap_ok r ≡ ok a → r ≡ ok a
unwrap_ok-eq-ok (ok x) a h = h
unwrap_ok-eq-ok (err e) a h = cc
unwrap_ok-eq-ok panic a h = cc

module _ (net : Network) where
  -- `f` sends the command, and has its reply if it succeeds.
  abbrev pub Sends : FtpRequest → Exec FtpClient FtpResponse → Type 0
  Sends command f =
      (s : FtpClient) (r : FtpResponse)
      → (f s).0 ≡ ok r
      → send_command net command s ≡ (ok r, (f s).1)

  send_command-Sends : (command : FtpRequest) → Sends command (send_command net command)
  send_command-Sends command s r h = ap (λ x. (x, (send_command net command s).1)) h

  pub send_or_panic-Sends : (command : FtpRequest) → Sends command (send_or_panic net command)
  send_or_panic-Sends command s r h =
      send_command-Sends command s r (unwrap_ok-eq-ok ((send_command net command s).0) r h)

  -- One command of the login, whose reply has to be of one kind, and what follows it.
  abbrev pub checked :
      {B : Type 0}
      → Exec FtpClient FtpResponse
      → (FtpResponse → Outcome (Unit {0}))
      → Exec FtpClient B
      → Exec FtpClient B
  checked f check following = f >>= λ r t. continue (check r) (λ _. following) t

  exchange :
      {B : Type 0} (command : FtpRequest) (f : Exec FtpClient FtpResponse)
      (check : FtpResponse → Outcome (Unit {0})) (kind : Bytes → FtpResponse)
      (following : Exec FtpClient B) (s s' : FtpClient) (b : B)
      → Sends command f
      → ((r : FtpResponse) → check r ≡ ok tt → (a : Bytes) × (r ≡ kind a))
      → ((a : Bytes) → IsPlain (kind a))
      → checked f check following s ≡ (ok b, s')
      → (a : Bytes) × (rest : List (Outcome FtpResponse)) × (s.incoming ≡ ok (kind a) ∷ rest)
        × (following (exchanged command rest s) ≡ (ok b, s'))
  exchange command f check kind following s s' b sends is plain h =
      let (r, er, h1) = bind-eq-ok f (λ r t. continue (check r) (λ _. following) t) s s' b h in
      let (u, eu, h2) = continue-eq-ok (check r) (λ _. following) (f s).1 s' b h1 in
      let (a, ea) = is r eu in
      let (rest, incoming, state) =
        send_command-plain net command r s (f s).1 (sends s r er)
          (subst IsPlain (sym ea) (plain a)) in
      (a, rest, incoming ∙ ap (λ x. ok x ∷ rest) ea, sym (ap following state) ∙ h2)

  -- The steps of `authenticate`, from the last one on.
  abbrev pub level : Option Bytes → Exec FtpClient (Option Bytes)
  level message =
      checked (send_command net (protection_level (codes "P")))
        (expect_okay (invalid_data "Invalid PROT response")) (λ t. (ok message, t))

  abbrev pub size : Option Bytes → Exec FtpClient (Option Bytes)
  size message =
      checked (send_command net (protection_buffer_size 0))
        (expect_okay (invalid_data "Invalid PBSZ response")) (level message)

  abbrev pub password_step : Option Bytes → Exec FtpClient (Option Bytes)
  password_step message t =
      checked (send_or_panic net (pass t.password)) expect_login (size message) t

  abbrev pub name_step : Option Bytes → Exec FtpClient (Option Bytes)
  name_step message t =
      checked (send_or_panic net (user t.username)) expect_password (password_step message) t

  -- What the login read and sent behind the greeting.
  abbrev Replied : FtpClient → FtpClient → Type 0
  Replied s s' =
      (a b c d : Bytes) × (rest : List (Outcome FtpResponse)) × (s.incoming
        ≡ ok (user_name_okay_need_password a)
          ∷ ok (user_logged_in b)
          ∷ ok (command_okay c)
          ∷ ok (command_okay d)
          ∷ rest)
      × (s' ≡ record s { incoming = rest; sent = s.sent ++ login_requests s.username s.password })

  name_step-Replied :
      (m message : Option Bytes) (s s' : FtpClient)
      → name_step m s ≡ (ok message, s')
      → Replied s s' × (message ≡ m)
  name_step-Replied m message s s' h =
      let (a, r1, e1, h1) =
        exchange (user s.username) _ expect_password user_name_okay_need_password (password_step m)
          s s' message (send_or_panic-Sends (user s.username)) password_reply (λ _. tt) h in
      let s1 = exchanged (user s.username) r1 s in
      let (b, r2, e2, h2) =
        exchange (pass s.password) _ expect_login user_logged_in (size m) s1 s' message
          (send_or_panic-Sends (pass s.password)) login_reply (λ _. tt) h1 in
      let s2 = exchanged (pass s.password) r2 s1 in
      let (c, r3, e3, h3) =
        exchange (protection_buffer_size 0) _ (expect_okay _) command_okay (level m) s2 s' message
          (send_command-Sends (protection_buffer_size 0)) (okay_reply _) (λ _. tt) h2 in
      let s3 = exchanged (protection_buffer_size 0) r3 s2 in
      let (d, r4, e4, h4) =
        exchange (protection_level (codes "P")) _ (expect_okay _) command_okay (λ t. (ok m, t)) s3
          s' message (send_command-Sends (protection_level (codes "P"))) (okay_reply _) (λ _. tt)
          h3 in
      (
        (
          a,
          b,
          c,
          d,
          r4,
          e1
              ∙ ap (λ t. ok (user_name_okay_need_password a) ∷ t)
                  (e2
                    ∙ ap (λ t. ok (user_logged_in b) ∷ t)
                        (e3 ∙ ap (λ t. ok (command_okay c) ∷ t) e4)),
          sym (ap (λ x. x.1) h4)
              ∙ ap (λ t. record s { incoming = r4; sent = t }) (simp append_assoc),
        ),
        some_message (ap (λ x. x.0) h4),
      )
    where
      some_message : {m message : Option Bytes} → ok m ≡ ok message → message ≡ m
      some_message e = cc

  -- If a login succeeds, then the next five replies were a greeting of any kind, 331, 230 and two
  -- times 200, in this order, and no more were read; the text of the greeting is returned if it was a
  -- 220; and USER, PASS, PBSZ 0 and PROT P were sent, in this order, with the user name and the
  -- password of the client.
  pub authenticate-LoggedIn :
      (s s' : FtpClient) (message : Option Bytes)
      → authenticate net s ≡ (ok message, s')
      → LoggedIn s message s'
  unfolding authenticate next next_of
  authenticate-LoggedIn s s' message h = go s.incoming refl h
    where
      go :
          (l : List (Outcome FtpResponse))
          → s.incoming ≡ l
          → continue ((next_of l s).0) (λ f. name_step (welcome f)) ((next_of l s).1)
            ≡ (ok message, s')
          → LoggedIn s message s'
      go [] e k =
          let ((a, b, c, d, rest, replies, final), m) = name_step-Replied none message s s' k in
          let impossible : [] ≡ ok (user_name_okay_need_password a) ∷ _ = sym e ∙ replies in
          absurd (ground arith)
      go (err x ∷ l) e k = absurd (ground arith)
      go (panic ∷ l) e k = absurd (ground arith)
      go (ok greeting ∷ l) e k =
          let ((a, b, c, d, rest, replies, final), m) =
            name_step-Replied (welcome (some greeting)) message (record s { incoming = l }) s' k in
          record {
            greeting = greeting;
            a = a;
            b = b;
            c = c;
            d = d;
            rest = rest;
            replies = e ∙ ap (λ t. ok greeting ∷ t) replies;
            message_is = m;
            final = final;
          }
