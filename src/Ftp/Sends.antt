-- ===== src/Ftp/Sends.antt =====
-- What a method of src/file/ftp.rs sends, as a first part of a list of requests, and how that
-- composes.
use bambu_rs.Prelude.{◌≡◌, refl, sym, ap, ◌∙◌, List, [], ◌++◌, append_assoc, append-nil}
use bambu_rs.Outcome.{Outcome, ok, err, panic}
use bambu_rs.Exec.{Exec, continue, ◌>>=◌}
use bambu_rs.Ftp.Request.{FtpRequest}
use bambu_rs.Ftp.Client.{FtpClient}

-- `short` is the first part of `long`.
abbrev pub IsPrefix : List FtpRequest → List FtpRequest → Type 0
IsPrefix short long = (rest : List FtpRequest) × (long ≡ short ++ rest)

-- What was sent between two states is a first part of the requests, and all of them if the outcome is
-- `ok`. The credentials stay.
pub record Sends {A : Type 0} (requests : List FtpRequest) (s : FtpClient)
    (r : Outcome A × FtpClient) : Type 0 where
  pub sent : List FtpRequest
  pub sent_is : r.1.sent ≡ s.sent ++ sent
  pub in_order : IsPrefix sent requests
  pub complete : (a : A) → r.0 ≡ ok a → sent ≡ requests
  pub same_username : r.1.username ≡ s.username
  pub same_password : r.1.password ≡ s.password

abbrev pub Follows : {A : Type 0} → List FtpRequest → Exec FtpClient A → Type 0
Follows requests m = (s : FtpClient) → Sends requests s (m s)

pub Sends-none : {A : Type 0} (s : FtpClient) (o : Outcome A) → Sends [] s (o, s)
Sends-none s o = record {
  sent = [];
  sent_is = sym (append-nil s.sent);
  in_order = ([], refl);
  complete = λ a h. refl;
  same_username = refl;
  same_password = refl;
}

-- A step that fails sent a first part of its own requests.
module _ {A B : Type 0} (these those : List FtpRequest) (s t : FtpClient) where
  cut_short :
      (o : Outcome A) (o' : Outcome B)
      → ((b : B) → o' ≡ ok b → ⊥)
      → Sends these s (o, t)
      → Sends (these ++ those) s (o', t)
  cut_short o o' never h = record {
    sent = h.sent;
    sent_is = h.sent_is;
    in_order = (
      h.in_order.0 ++ those,
      ap (λ l. l ++ those) h.in_order.1 ∙ append_assoc h.sent h.in_order.0 those,
    );
    complete = λ b e. absurd (never b e);
    same_username = h.same_username;
    same_password = h.same_password;
  }

  -- A step that succeeds is followed by the requests of the next one.
  go_on :
      (a : A) (r : Outcome B × FtpClient)
      → Sends these s (ok a, t)
      → Sends those t r
      → Sends (these ++ those) s r
  go_on a r h k = record {
    sent = these ++ k.sent;
    sent_is =
        k.sent_is
        ∙ ap (λ l. l ++ k.sent) h.sent_is
        ∙ append_assoc s.sent h.sent k.sent
        ∙ ap (λ l. s.sent ++ (l ++ k.sent)) (h.complete a refl);
    in_order = (
      k.in_order.0,
      ap (λ l. these ++ l) k.in_order.1 ∙ sym (append_assoc these k.sent k.in_order.0),
    );
    complete = λ b e. ap (λ l. these ++ l) (k.complete b e);
    same_username = k.same_username ∙ h.same_username;
    same_password = k.same_password ∙ h.same_password;
  }

Sends-continue :
    {A B : Type 0} (these those : List FtpRequest) (s t : FtpClient) (o : Outcome A)
    (f : A → Exec FtpClient B)
    → Sends these s (o, t)
    → ((a : A) → o ≡ ok a → Sends those t (f a t))
    → Sends (these ++ those) s (continue o f t)
Sends-continue these those s t (ok a) f h k = go_on these those s t a (f a t) h (k a refl)
Sends-continue these those s t (err e) f h k =
    cut_short these those s t (err e) (err e) (λ b q. cc) h
Sends-continue these those s t panic f h k = cut_short these those s t panic panic (λ b q. cc) h

-- The rule for a `do` block.
pub Sends-bind :
    {A B : Type 0} (these those : List FtpRequest) (m : Exec FtpClient A) (f : A → Exec FtpClient B)
    (s : FtpClient)
    → Sends these s (m s)
    → ((a : A) → Sends those (m s).1 (f a (m s).1))
    → Sends (these ++ those) s ((m >>= f) s)
Sends-bind these those m f s h k = Sends-continue these those s (m s).1 (m s).0 f h (λ a _. k a)
