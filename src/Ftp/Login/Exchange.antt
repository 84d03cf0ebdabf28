-- ===== src/Ftp/Login/Exchange.antt =====
-- One command and its reply, for the client of src/file/ftp.rs, when it succeeds.
use bambu_rs.Prelude.{
  ◌≡◌, refl, sym, ap, subst, Bool, true, false, Option, none, some, List, [], ◌∷◌, ◌++◌, arith,
  length, if◌then◌else◌,
}
use bambu_rs.Outcome.{Outcome, Error, ok, err, panic, unwrap}
use bambu_rs.Exec.{Exec, continue, ◌>>=◌}
use bambu_rs.Ftp.Request.{FtpRequest}
use bambu_rs.Ftp.Response.{FtpResponse, entering_passive_mode, IpAddr, SocketAddr}
use bambu_rs.Ftp.Client.{
  Network, FtpClient, send, next, next_of, send_command, fix_response, received, is_unspecified,
}

module _ {S A B : Type 0} where
  pub continue-eq-ok :
      (r : Outcome A) (f : A → Exec S B) (s s' : S) (b : B)
      → continue r f s ≡ (ok b, s')
      → (a : A) × (r ≡ ok a) × (f a s ≡ (ok b, s'))
  continue-eq-ok (ok a) f s s' b h = (a, refl, h)
  continue-eq-ok (err e) f s s' b h = absurd (ground arith)
  continue-eq-ok panic f s s' b h = absurd (ground arith)

  -- What a chain of two steps did, if it succeeded.
  pub bind-eq-ok :
      (m : Exec S A) (f : A → Exec S B) (s s' : S) (b : B)
      → (m >>= f) s ≡ (ok b, s')
      → (a : A) × ((m s).0 ≡ ok a) × (f a (m s).1 ≡ (ok b, s'))
  bind-eq-ok m f s s' b h = continue-eq-ok (m s).0 f (m s).1 s' b h

-- The state after a command was sent and a reply was taken.
abbrev pub exchanged : FtpRequest → List (Outcome FtpResponse) → FtpClient → FtpClient
exchanged command rest s = record s { incoming = rest; sent = s.sent ++ command ∷ [] }

-- A response that is not an address.
abbrev pub IsPlain : FtpResponse → Type 0
IsPlain (entering_passive_mode _) = ⊥
IsPlain _ = Unit

address-IsPlain :
    (addr : SocketAddr) (r : FtpResponse) (s s' : FtpClient)
    → ◌≡◌ {A = Outcome FtpResponse × FtpClient} (ok (entering_passive_mode addr), s) (ok r, s')
    → ¬ IsPlain r
address-IsPlain addr r s s' h p =
    let same : entering_passive_mode addr ≡ r = ground arith in subst IsPlain (sym same) p

module _ (net : Network) where
  -- A response that is passed on and is no address was not changed.
  fix_response-plain :
      (raw r : FtpResponse) (s s' : FtpClient)
      → fix_response net raw s ≡ (ok r, s')
      → IsPlain r
      → (raw ≡ r) × (s' ≡ s)
  unfolding fix_response
  fix_response-plain (entering_passive_mode addr) r s s' h p =
      absurd (go (is_unspecified addr.ip) h)
    where
      resolved :
          (o : Option IpAddr)
          → continue
              (unwrap o)
              (λ ip t. (ok (entering_passive_mode (record { ip = ip; port = addr.port })), t))
              s
            ≡ (ok r, s')
          → ⊥
      resolved none e = absurd (ground arith)
      resolved (some ip) e = address-IsPlain (record { ip = ip; port = addr.port }) r s s' e p

      answer : Exec FtpClient FtpResponse
      answer t =
          continue (unwrap (net.parse_ip t.hostname))
            (λ ip u. (ok (entering_passive_mode (record { ip = ip; port = addr.port })), u)) t

      same : Exec FtpClient FtpResponse
      same t = (ok (entering_passive_mode addr), t)

      go : (b : Bool) → (if b then answer else same) s ≡ (ok r, s') → ⊥
      go true e = resolved (net.parse_ip s.hostname) e
      go false e = address-IsPlain addr r s s' e p
  fix_response-plain raw r s s' h p = (ground arith, ground arith)

  received-plain :
      (l : List (Outcome FtpResponse)) (r : FtpResponse) (s s' : FtpClient)
      → continue (next_of l s).0 (received net) (next_of l s).1 ≡ (ok r, s')
      → IsPlain r
      → (rest : List (Outcome FtpResponse)) × (l ≡ ok r ∷ rest)
        × (s' ≡ record s { incoming = rest })
  unfolding next_of received
  received-plain [] r s s' h p = absurd (ground arith)
  received-plain (err e ∷ rest) r s s' h p = absurd (ground arith)
  received-plain (panic ∷ rest) r s s' h p = absurd (ground arith)
  received-plain (ok raw ∷ rest) r s s' h p =
      let (same, state) = fix_response-plain raw r (record s { incoming = rest }) s' h p in
      (rest, ap (λ x. ok x ∷ rest) same, state)

  -- A command that is answered by `r`, which is no address, was sent, and `r` was the next reply.
  pub send_command-plain :
      (command : FtpRequest) (r : FtpResponse) (s s' : FtpClient)
      → send_command net command s ≡ (ok r, s')
      → IsPlain r
      → (rest : List (Outcome FtpResponse)) × (s.incoming ≡ ok r ∷ rest)
        × (s' ≡ exchanged command rest s)
  unfolding send_command send next
  send_command-plain command r s s' h p = go (net.send_error (length s.sent)) h
    where
      sent : FtpClient
      sent = record s { sent = s.sent ++ command ∷ [] }

      outcome : Option Error → Outcome (Unit {0}) × FtpClient
      outcome o = elim o [ none ↦ (ok tt, sent) | some e ↦ (err e, s) ]

      go :
          (o : Option Error)
          → continue (outcome o).0 (λ _. next >>= received net) (outcome o).1 ≡ (ok r, s')
          → (rest : List (Outcome FtpResponse)) × (s.incoming ≡ ok r ∷ rest)
            × (s' ≡ exchanged command rest s)
      go none e = received-plain s.incoming r sent s' e p
      go (some x) e = absurd (ground arith)
