-- ===== src/Ftp/Insecure.antt =====
-- Who the client of src/file.rs talks to, with the verifier of src/tls.rs.
use bambu_rs.Prelude.{ℕ, Bool, Option, none, some, List, Bytes, if◌then◌else◌}
use bambu_rs.Outcome.{Outcome, Error}
use bambu_rs.Tls.{ServerCertVerifier, Server}
use bambu_rs.Ftp.Response.{FtpResponse, IpAddr, SocketAddr}
use bambu_rs.Ftp.Client.{Network}
use bambu_rs.Ftp.Connect.{Sockets}

abbrev with_streams :
    Sockets
    → (SocketAddr → Outcome (List (Option Bytes)))
    → (SocketAddr → Outcome (List (Outcome FtpResponse)))
    → Network
with_streams sockets lines replies = record {
  send_error = sockets.send_error;
  data_lines = lines;
  to_socket_addrs = sockets.to_socket_addrs;
  control_replies = replies;
  parse_ip = sockets.parse_ip;
}

module _ (handshake : ServerCertVerifier → Bytes → ℕ → Server → Bool) (name_of : IpAddr → Bytes)
    (now : ℕ) (refusal : Error) where
  -- The same sockets, where these servers answer, and rustls does the handshake.
  abbrev pub answered_by : (SocketAddr → Server) → Sockets → Sockets
  answered_by servers sockets = record sockets {
    tls_connect = λ verifier ip address.
        if handshake verifier (name_of ip) now (servers address) then none else some refusal;
  }
