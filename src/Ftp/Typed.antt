-- ===== src/Ftp/Typed.antt =====
-- The types of the values that src/file/ftp/codec.rs decodes.
use bambu_rs.Prelude.{
  ℕ, ◌^◌, ◌<◌, ◌≡◌, refl, sym, ap, ◌∙◌, subst, Bool, true, false, ◌==◌, Option, none, some, arith,
  Bytes, if◌then◌else◌,
}
use bambu_rs.Outcome.{Outcome, ok, ok_or-bind-eq-ok, >>=-eq-ok, ok_inj}
use bambu_rs.Crates.{Crates, Documented}
use bambu_rs.Text.Utf8.{is_utf8, IsUtf8, from_utf8}
use bambu_rs.Text.Utf8.Cut.{IsUtf8-behind}
use bambu_rs.Text.Split.{splitn_2, splitn_2-spells}
use bambu_rs.Text.Decimal.{parse}
use bambu_rs.Text.Decimal.RoundTrip.{parse-lt}
use bambu_rs.Ftp.Response.{
  FtpResponse, file_status_okay, service_ready, command_okay, closing_data_connection,
  user_logged_in, user_name_okay_need_password, file_action_okay, closing_control_connection,
  command_not_implemented, bad_sequence_of_commands, file_unavailable, directory_action_okay,
  entering_passive_mode, other, or_empty, parse_passive, classify, from_response_string,
}
use bambu_rs.Ftp.Codec.{decode}
use bambu_rs.Ftp.Passive.{port_outcome}
use bambu_rs.Ftp.PassiveSound.{IsAddress, parse_passive_iff}
use bambu_rs.Ftp.Replies.{IsReply, is_known, text_of}
use bambu_rs.Ftp.Lines.{read_line, Read, line, waits, decode-Read}

-- The text of a response, if it has one, is UTF-8.
abbrev pub HoldsText : FtpResponse → Type 0
HoldsText (entering_passive_mode addr) = Unit
HoldsText r = IsUtf8 (text_of r)

-- A value of the source's type.
abbrev pub IsTyped : FtpResponse → Type 0
IsTyped r = IsReply r × HoldsText r

if-ok :
    (P : FtpResponse → Type 0) (t : Bool) (x y : Outcome FtpResponse) (r : FtpResponse)
    → (x ≡ ok r → P r)
    → (t ≡ false → y ≡ ok r → P r)
    → (if t then x else y) ≡ ok r
    → P r
if-ok P true x y r f g h = f h
if-ok P false x y r f g h = g refl h

port_outcome-lt :
    (checks : Bool) (hi lo port : ℕ) → port_outcome checks hi lo ≡ ok port → port < 2 ^ 16
port_outcome-lt checks hi lo port h = ground arith

IsAddress-IsTyped :
    (checks : Bool) (parts : _) (r : FtpResponse) → IsAddress checks parts r → IsTyped r
IsAddress-IsTyped checks parts r i = subst IsTyped (sym i.result) (
  (
    (
      parse-lt (2 ^ 8) i.p1 i.a (omega arith) i.a_is,
      parse-lt (2 ^ 8) i.p2 i.b (omega arith) i.b_is,
      parse-lt (2 ^ 8) i.p3 i.c (omega arith) i.c_is,
      parse-lt (2 ^ 8) i.p4 i.d (omega arith) i.d_is,
    ),
    port_outcome-lt checks i.hi i.lo i.port i.port_is,
  ),
  tt,
)

-- A response that is made of the message as it is.
plain :
    (make : Bytes → FtpResponse) (m : Bytes) (r : FtpResponse)
    → IsTyped (make m)
    → ok (make m) ≡ ok r
    → IsTyped r
plain make m r typed h = subst IsTyped (ok_inj h) typed

module _ {c : Crates} (doc : Documented c) (checks : Bool) where
  passive-IsTyped : (m : Bytes) (r : FtpResponse) → parse_passive c checks m ≡ ok r → IsTyped r
  passive-IsTyped m r h =
      let passive = (parse_passive_iff doc checks m r).0 h in
      IsAddress-IsTyped checks _ r passive.address

  other-IsTyped :
      (code : ℕ) (m : Bytes) (r : FtpResponse)
      → code < 2 ^ 16
      → IsUtf8 m
      → is_known code ≡ false
      → ok (other code m) ≡ ok r
      → IsTyped r
  other-IsTyped code m r small text unknown h = subst IsTyped (ok_inj h) ((small, unknown), text)

  classify-IsTyped :
      (code : ℕ) (m : Bytes) (r : FtpResponse)
      → code < 2 ^ 16
      → IsUtf8 m
      → classify c checks code m ≡ ok r
      → IsTyped r
  unfolding classify
  classify-IsTyped code m r small text =
      if-ok IsTyped (code == 150) _ _ r (plain file_status_okay m r (tt, text)) (λ n150.
        if-ok IsTyped (code == 220) _ _ r (plain service_ready m r (tt, text)) (λ n220.
          if-ok IsTyped (code == 200) _ _ r (plain command_okay m r (tt, text)) (λ n200.
            if-ok IsTyped (code == 226) _ _ r (plain closing_data_connection m r (tt, text))
              (λ n226.
                if-ok IsTyped (code == 230) _ _ r (plain user_logged_in m r (tt, text)) (λ n230.
                  if-ok IsTyped (code == 331) _ _ r
                    (plain user_name_okay_need_password m r (tt, text))
                    (λ n331.
                      if-ok IsTyped (code == 250) _ _ r (plain file_action_okay m r (tt, text))
                        (λ n250. if-ok IsTyped (code == 227) _ _ r (passive-IsTyped m r) (λ n227.
                          if-ok IsTyped (code == 221) _ _ r
                            (plain closing_control_connection m r (tt, text))
                            (λ n221.
                              if-ok IsTyped (code == 502) _ _ r
                                (plain command_not_implemented m r (tt, text))
                                (λ n502.
                                  if-ok IsTyped (code == 503) _ _ r
                                    (plain bad_sequence_of_commands m r (tt, text))
                                    (λ n503.
                                      if-ok IsTyped (code == 550) _ _ r
                                        (plain file_unavailable m r (tt, text))
                                        (λ n550.
                                          if-ok IsTyped (code == 257) _ _ r
                                            (plain directory_action_okay m r (tt, text))
                                            (λ n257.
                                              other-IsTyped code m r small text
                                                (ground arith))))))))))))))

  message-IsUtf8 :
      (s : Bytes) (o : Option Bytes) → IsUtf8 s → (splitn_2 b' ' s).1 ≡ o → IsUtf8 (or_empty o)
  message-IsUtf8 s none h e = unfold is_utf8 in refl
  message-IsUtf8 s (some t) h e =
      IsUtf8-behind (splitn_2 b' ' s).0 b' ' t (omega arith)
        (subst IsUtf8 (splitn_2-spells b' ' s t e) h)

  from_response_string-IsTyped :
      (s : Bytes) (r : FtpResponse) → IsUtf8 s → from_response_string c checks s ≡ ok r → IsTyped r
  unfolding from_response_string
  from_response_string-IsTyped s r text h =
      let parts = splitn_2 b' ' s in
      let (code, e, h1) = ok_or-bind-eq-ok (parse (2 ^ 16) parts.0) _ _ h in
      classify-IsTyped code (or_empty parts.1) r (parse-lt (2 ^ 16) (parts.0) code (omega arith) e)
        (message-IsUtf8 s parts.1 text refl) h1

  read_line-IsTyped : (s : Bytes) (r : FtpResponse) → read_line c checks s ≡ ok (some r) → IsTyped r
  unfolding from_utf8
  read_line-IsTyped s r h =
      let (t, e, h1) = >>=-eq-ok (from_utf8 s) _ h in
      let (q, e2, h2) = >>=-eq-ok (from_response_string c checks t) _ h1 in
      let same : q ≡ r = cc in
      let text : IsUtf8 s = ground arith in
      let kept : s ≡ t = ground arith in
      subst IsTyped same (from_response_string-IsTyped t q (subst IsUtf8 kept text) e2)

  -- Whatever bytes the server sends, a response that the decoder yields is a value of the type that
  -- the source declares: its text is UTF-8, the numbers of its address are below 256, its port is
  -- below 65536, and so is the code of `other`, which is none of the codes that have a constructor
  -- of their own.
  pub decode-IsTyped :
      (src rest : Bytes) (r : FtpResponse) → decode c checks src ≡ (ok (some r), rest) → IsTyped r
  decode-IsTyped src rest r h = go (decode-Read doc checks src)
    where
      go : Read c checks src (decode c checks src) → IsTyped r
      go (line text behind l e) = read_line-IsTyped text r (ap (λ x. x.0) (sym e ∙ h))
      go (waits no_line e) = absurd (ground arith)
