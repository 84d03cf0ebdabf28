-- ===== src/Camera/Connect.antt =====
-- What a server of the camera's port reads from a client of src/camera.rs.
use bambu_rs.Prelude.{
  ◌≡◌, refl, sym, ap, ◌∙◌, Option, none, some, List, [], ◌∷◌, ◌++◌, arith, Bytes, codes,
}
use bambu_rs.Outcome.{Error, ok, unwrap, >>=-eq-ok, unwrap-eq-ok, ok_inj}
use bambu_rs.Crates.{Crates, Documented}
use bambu_rs.Text.Decimal.{display}
use bambu_rs.Tls.{no_verifier}
use bambu_rs.Text.Utf8.{is_utf8, scan}
use bambu_rs.Text.Trim.{Lacks-EndsOtherThan}
use bambu_rs.Framed.{left, concat, Receives}
use bambu_rs.Camera.Codec.{CameraPacket, auth, encode, decode}
use bambu_rs.Camera.Auth.{Fits}
use bambu_rs.Camera.Client.{
  Transport, CameraClient, FramedStream, default_username, check, send, connect_and_stream_codec,
}
use bambu_rs.Camera.Playback.{encode_all}
use bambu_rs.Camera.Chunks.{Receives-encode_all}

default_username-Fits : Fits default_username
unfolding is_utf8 scan
default_username-Fits = record {
  text = refl;
  short = omega arith;
  trimmed = Lacks-EndsOtherThan 0 default_username (omega arith);
}

-- A connection: every call succeeded, and these bytes were written.
pub record Connected (c : Crates) {Address : Type 0} (net : Transport Address)
    (client : CameraClient) (framed : FramedStream Address) : Type 0 where
  pub reached : net.tcp_connect (client.hostname ++ (codes ":" ++ display client.port)) ≡ none
  pub is_address : net.try_from client.hostname ≡ some framed.peer
  pub secured : net.tls_connect no_verifier framed.peer ≡ none
  pub sent : framed.written ≡ encode_all c (auth default_username client.access_code ∷ []) []
  pub flushed : net.flush ≡ none

check-eq-ok : (o : Option Error) → check o ≡ ok tt → o ≡ none
check-eq-ok none h = refl
check-eq-ok (some e) h = absurd (ground arith)

module _ (c : Crates) {Address : Type 0} (net : Transport Address) where
  send-eq-ok :
      (packet : CameraPacket) (framed after : FramedStream Address)
      → send c net packet framed ≡ ok after
      → after ≡ record framed { written = framed.written ++ (encode c packet []).1 }
  unfolding send
  send-eq-ok packet framed after h =
      let (_, _, h1) = >>=-eq-ok ((encode c packet []).0) _ h in
      let (_, _, h2) = >>=-eq-ok (check (net.write ((encode c packet []).1))) _ h1 in
      ok_inj (sym h2)

  connect-Connected :
      (client : CameraClient) (framed : FramedStream Address)
      → connect_and_stream_codec c net client ≡ ok framed
      → Connected c net client framed
  unfolding connect_and_stream_codec
  connect-Connected client framed h =
      let (_, e1, h1) =
        >>=-eq-ok (check (net.tcp_connect (client.hostname ++ (codes ":" ++ display client.port))))
          _ h in
      let (ip, e2, h2) = >>=-eq-ok (unwrap (net.try_from client.hostname)) _ h1 in
      let (_, e3, h3) = >>=-eq-ok (check (net.tls_connect no_verifier ip)) _ h2 in
      let fresh : FramedStream Address = record { peer = ip; written = [] } in
      let (f, e4, h4) =
        >>=-eq-ok (send c net (auth default_username client.access_code) fresh) _ h3 in
      let (_, e5, h5) = >>=-eq-ok (check net.flush) _ h4 in
      let is : framed
          ≡ record fresh { written = (encode c (auth default_username client.access_code) []).1 } =
        ok_inj (sym h5) ∙ send-eq-ok (auth default_username client.access_code) fresh f e4 in
      let peer : framed.peer ≡ ip = ap (λ x. x.peer) is in
      record {
        reached =
            check-eq-ok (net.tcp_connect (client.hostname ++ (codes ":" ++ display client.port)))
              e1;
        is_address = unwrap-eq-ok (net.try_from client.hostname) ip e2 ∙ ap some (sym peer);
        secured =
            ap (net.tls_connect no_verifier) peer ∙ check-eq-ok (net.tls_connect no_verifier ip) e3;
        sent = ap (λ x. x.written) is;
        flushed = check-eq-ok net.flush e5;
      }

-- If a client connects, and its access code is UTF-8 of at most 32 bytes that does not end in a
-- zero, then its host name is an address literal, and a peer that decodes what was written, however
-- it is cut into pieces on the way, yields the user name `bblp` with the access code of the client,
-- and nothing else.
pub connect-credentials :
    {c : Crates}
    → Documented c
    → {Address : Type 0} (net : Transport Address) (client : CameraClient)
      (framed : FramedStream Address) (chunks : List Bytes)
    → connect_and_stream_codec c net client ≡ ok framed
    → Fits client.access_code
    → concat chunks ≡ framed.written
    → (net.try_from client.hostname ≡ some framed.peer)
      × Receives (decode c) [] chunks (auth default_username client.access_code ∷ []) (left [])
connect-credentials {c} doc net client framed chunks h fits e =
    let connected = connect-Connected c net client framed h in
    (
      connected.is_address,
      Receives-encode_all doc (auth default_username client.access_code ∷ []) chunks
          ((default_username-Fits, fits), tt) (e ∙ connected.sent),
    )
