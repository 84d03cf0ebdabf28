-- ===== src/Ftp/Connect.antt =====
-- `connect_insecure` of src/file/ftp.rs, and the network of the client that is made of it. Sockets,
-- rustls and the standard library's look-up of names are parameters.
use bambu_rs.Prelude.{ℕ, Option, none, some, List, Bytes}
use bambu_rs.Outcome.{Outcome, Error, ok, err, ◌>>◌}
use bambu_rs.Tls.{ServerCertVerifier, no_verifier}
use bambu_rs.Ftp.Response.{FtpResponse, IpAddr, SocketAddr}
use bambu_rs.Ftp.Client.{Network}

-- What the client calls. A call that only succeeds or fails is `none` where it succeeds.
pub record Sockets : Type 0 where
  -- `TcpStream::connect(address)`
  pub tcp_connect : SocketAddr → Option Error
  -- `TlsConnector::connect(ServerName::IpAddress(ip), stream)` on the stream to this address, with
  -- this verifier in the configuration of the connector
  pub tls_connect : ServerCertVerifier → IpAddr → SocketAddr → Option Error
  -- what comes in over the stream to this address, piece by piece
  pub incoming : SocketAddr → List Bytes
  -- the error of the `n`-th send on the control connection, if it fails
  pub send_error : ℕ → Option Error
  pub to_socket_addrs : Bytes → ℕ → Outcome (List SocketAddr)
  pub parse_ip : Bytes → Option IpAddr
  -- What `Framed` makes of the pieces with `LinesCodec::new()` and with `FtpCodec`.
  pub lines_codec : List Bytes → List (Option Bytes)
  pub ftp_codec : List Bytes → List (Outcome FtpResponse)

-- `call()?`
abbrev check : Option Error → Outcome (Unit {0})
check none = ok tt
check (some e) = err e

module _ (sockets : Sockets) where
  -- What the framed stream yields, for a codec that is what `Framed` makes of pieces with it.
  unfoldable pub connect_insecure :
      {Item : Type 0} → SocketAddr → (List Bytes → Item) → Outcome Item
  connect_insecure address codec = do
    check (sockets.tcp_connect address)
    check (sockets.tls_connect no_verifier address.ip address)
    ok (codec (sockets.incoming address))

  abbrev pub network : Network
  network = record {
    send_error = sockets.send_error;
    data_lines = λ address. connect_insecure address sockets.lines_codec;
    to_socket_addrs = sockets.to_socket_addrs;
    control_replies = λ address. connect_insecure address sockets.ftp_codec;
    parse_ip = sockets.parse_ip;
  }
