-- ===== src/Camera/Client.antt =====
-- `CameraClient` of src/camera.rs. Sockets and TLS are parameters; what goes to the peer is the bytes
-- that `Framed` takes from the encoder.
use bambu_rs.Prelude.{ℕ, Option, none, some, [], ◌++◌, Bytes, codes}
use bambu_rs.Outcome.{Outcome, Error, ok, err, unwrap, ◌>>=◌, ◌>>◌}
use bambu_rs.Crates.{Crates}
use bambu_rs.Text.Decimal.{display}
use bambu_rs.Tls.{ServerCertVerifier, no_verifier}
use bambu_rs.Camera.Codec.{CameraPacket, auth, encode}

-- What the client calls. `none` is success, and an error otherwise.
pub record Transport (Address : Type 0) : Type 0 where
  -- `TcpStream::connect(addr)`
  pub tcp_connect : Bytes → Option Error
  -- `IpAddr::try_from(hostname)`
  pub try_from : Bytes → Option Address
  -- `TlsConnector::connect(ServerName::IpAddress(address), stream)`, with this verifier in the
  -- configuration of the connector
  pub tls_connect : ServerCertVerifier → Address → Option Error
  -- writing these bytes to the TLS stream
  pub write : Bytes → Option Error
  -- `framed.flush()`
  pub flush : Option Error

abbrev pub default_username : Bytes
default_username = codes "bblp"

pub record CameraClient : Type 0 where
  pub hostname : Bytes
  pub access_code : Bytes
  pub port : ℕ

-- `CameraClient::new`
abbrev pub new : Bytes → Bytes → ℕ → CameraClient
new hostname access_code port = record {
  hostname = hostname;
  access_code = access_code;
  port = port;
}

-- A framed TLS stream: who it goes to, and what was written to it.
pub record FramedStream (Address : Type 0) : Type 0 where
  pub peer : Address
  pub written : Bytes

-- `call()?`
abbrev pub check : Option Error → Outcome (Unit {0})
check none = ok tt
check (some e) = err e

module _ (c : Crates) {Address : Type 0} (net : Transport Address) where
  -- `framed.send(packet).await?`
  unfoldable pub send : CameraPacket → FramedStream Address → Outcome (FramedStream Address)
  send packet framed =
      let encoded = encode c packet [] in
      encoded.0 >>= λ _. check (net.write encoded.1) >>= λ _.
      ok (record framed { written = framed.written ++ encoded.1 })

  -- `CameraClient::connect_and_stream_codec`
  unfoldable pub connect_and_stream_codec : CameraClient → Outcome (FramedStream Address)
  unfolding send
  connect_and_stream_codec client = do
    check (net.tcp_connect (client.hostname ++ (codes ":" ++ display client.port)))
    ip_address ← unwrap (net.try_from client.hostname)
    check (net.tls_connect no_verifier ip_address)
    framed ←
        send (auth default_username client.access_code) (record { peer = ip_address; written = [] })
    check net.flush
    ok framed
