-- ===== src/Ftp/Password.antt =====
-- When the login of src/file/ftp.rs sends the password.
use bambu_rs.Prelude.{
  ◌≡◌, refl, sym, ap, subst, ◌∙◌, ◌⊎◌, inl, inr, Bool, true, false, Option, none, some, List, [],
  ◌∷◌, ◌++◌, arith, Bytes, length, if◌then◌else◌,
}
use bambu_rs.Outcome.{Outcome, Error, ok, err, panic, unwrap}
use bambu_rs.Exec.{Exec, continue, ◌>>=◌}
use bambu_rs.Ftp.Request.{FtpRequest, user}
use bambu_rs.Ftp.Response.{FtpResponse, user_name_okay_need_password, entering_passive_mode, IpAddr}
use bambu_rs.Ftp.Client.{
  Network, FtpClient, send, next, next_of, send_command, send_or_panic, fix_response, received,
  is_unspecified, authenticate, expect_password, welcome,
}
use bambu_rs.Ftp.Login.{
  IsPlain, password_reply, send_command-plain, send_or_panic-Sends, name_step, password_step,
}

-- Nothing was sent, or this request alone.
abbrev pub AtMost : FtpRequest → FtpClient → FtpClient → Type 0
AtMost command s s' = (s'.sent ≡ s.sent) ⊎ (s'.sent ≡ s.sent ++ command ∷ [])

module _ (net : Network) where
  pub fix_response-state : (raw : FtpResponse) (s : FtpClient) → (fix_response net raw s).1 ≡ s
  unfolding fix_response
  fix_response-state (entering_passive_mode addr) s = go (is_unspecified addr.ip)
    where
      resolved : Exec FtpClient FtpResponse
      resolved t =
          continue (unwrap (net.parse_ip t.hostname))
            (λ ip u. (ok (entering_passive_mode (record { ip = ip; port = addr.port })), u)) t

      same : Exec FtpClient FtpResponse
      same t = (ok (entering_passive_mode addr), t)

      answer :
          (o : Option IpAddr)
          → (continue
              (unwrap o)
              (λ ip (u : FtpClient).
                (ok (entering_passive_mode (record { ip = ip; port = addr.port })), u))
              s).1
            ≡ s
      answer none = refl
      answer (some ip) = refl

      go : (b : Bool) → ((if b then resolved else same) s).1 ≡ s
      go true = answer (net.parse_ip s.hostname)
      go false = refl
  fix_response-state raw s = refl

  received-sent :
      (l : List (Outcome FtpResponse)) (s : FtpClient)
      → (continue ((next_of l s).0) (received net) ((next_of l s).1)).1.sent ≡ s.sent
  unfolding next_of received
  received-sent [] s = refl
  received-sent (err e ∷ rest) s = refl
  received-sent (panic ∷ rest) s = refl
  received-sent (ok raw ∷ rest) s =
      ap (λ t. t.sent) (fix_response-state raw (record s { incoming = rest }))

  pub send_command-AtMost :
      (command : FtpRequest) (s : FtpClient) → AtMost command s (send_command net command s).1
  unfolding send_command send next
  send_command-AtMost command s = go (net.send_error (length s.sent))
    where
      sent : FtpClient
      sent = record s { sent = s.sent ++ command ∷ [] }

      outcome : Option Error → Outcome (Unit {0}) × FtpClient
      outcome o = elim o [ none ↦ (ok tt, sent) | some e ↦ (err e, s) ]

      go :
          (o : Option Error)
          → AtMost command s
              (continue ((outcome o).0) (λ _. next >>= received net) ((outcome o).1)).1
      go none = inr (received-sent s.incoming sent)
      go (some e) = inl refl

  -- What came in before the password was sent, if it was.
  abbrev pub Asked : FtpClient → Type 0
  Asked s =
      (a : Bytes) × (rest : List (Outcome FtpResponse)) × (s.incoming
        ≡ ok (user_name_okay_need_password a) ∷ rest)

  name_step-Asked :
      (m : Option Bytes) (s : FtpClient)
      → AtMost (user s.username) s (name_step net m s).1 ⊎ Asked s
  name_step-Asked m s = go ((send_or_panic net (user s.username) s).0) refl
    where
      after : FtpClient
      after = (send_or_panic net (user s.username) s).1

      little : AtMost (user s.username) s after
      little = send_command-AtMost (user s.username) s

      Goal : FtpClient → Type 0
      Goal s' = AtMost (user s.username) s s' ⊎ Asked s

      accepted :
          (r : FtpResponse) (check : Outcome (Unit {0}))
          → (send_or_panic net (user s.username) s).0 ≡ ok r
          → expect_password r ≡ check
          → Goal (continue check (λ _. password_step net m) after).1
      accepted r (err x) e k = inl little
      accepted r panic e k = inl little
      accepted r (ok tt) e k =
          let (a, ea) = password_reply r k in
          let (rest, incoming, _) =
            send_command-plain net (user s.username) r s after
              (send_or_panic-Sends net (user s.username) s r e) (subst IsPlain (sym ea) tt) in
          inr (a, rest, incoming ∙ ap (λ x. ok x ∷ rest) ea)

      go :
          (o : Outcome FtpResponse)
          → (send_or_panic net (user s.username) s).0 ≡ o
          → Goal
              (continue o
                (λ r t. continue (expect_password r) (λ _. password_step net m) t)
                after).1
      go (ok r) e = accepted r (expect_password r) e refl
      go (err x) e = inl little
      go panic e = inl little

  -- Whatever the server answers and however the login ends, either it sent nothing or USER alone, or
  -- the second reply was a 331: the password is sent on no other answer.
  pub authenticate-Asked :
      (s : FtpClient)
      → AtMost (user s.username) s (authenticate net s).1
        ⊎ ((g : FtpResponse) × (a : Bytes) × (rest : List (Outcome FtpResponse)) × (s.incoming
              ≡ ok g ∷ ok (user_name_okay_need_password a) ∷ rest))
  unfolding authenticate next next_of
  authenticate-Asked s = go s.incoming refl
    where
      Second : Type 0
      Second =
          (g : FtpResponse) × (a : Bytes) × (rest : List (Outcome FtpResponse)) × (s.incoming
            ≡ ok g ∷ ok (user_name_okay_need_password a) ∷ rest)

      go :
          (l : List (Outcome FtpResponse))
          → s.incoming ≡ l
          → AtMost
              (user s.username)
              s
              (continue ((next_of l s).0) (λ f. name_step net (welcome f)) ((next_of l s).1)).1
            ⊎ Second
      go [] e = elim (name_step-Asked none s) [
        | inl h ↦ inl h
        | inr (a, rest, h) ↦
            let impossible : [] ≡ ok (user_name_okay_need_password a) ∷ rest = sym e ∙ h in
            absurd (ground arith)
      ]
      go (err x ∷ l) e = inl (inl refl)
      go (panic ∷ l) e = inl (inl refl)
      go (ok g ∷ l) e = elim (name_step-Asked (welcome (some g)) (record s { incoming = l })) [
        | inl h ↦ inl h
        | inr (a, rest, h) ↦ inr (g, a, rest, e ∙ ap (λ t. ok g ∷ t) h)
      ]
