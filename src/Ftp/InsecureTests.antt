-- ===== src/Ftp/InsecureTests.antt =====
-- Runs of src/file.rs against a server whose certificate is empty.
use bambu_rs.Prelude.{ℕ, Bool, true, false, ◌&&◌, none, [], ◌∷◌, Bytes, codes}
use bambu_rs.Outcome.{Outcome, ok}
use bambu_rs.Tls.{ed25519, ServerCertVerifier, Server, verify_signature}
use bambu_rs.Ftp.Response.{IpAddr, service_ready}
use bambu_rs.Ftp.Client.{FileClient}
use bambu_rs.Ftp.Connect.{Sockets}
use bambu_rs.Ftp.SessionTests.{home}

abbrev is_ok : Outcome (Unit {0}) → Bool
is_ok (ok a) = true
is_ok _ = false

-- A handshake that succeeds when the verifier takes the certificate and the proof.
abbrev handshake : ServerCertVerifier → Bytes → ℕ → Server → Bool
handshake verifier name now server =
    is_ok (
      verifier.verify_server_cert server.certificate server.intermediates name server.ocsp_response
        now)
    && is_ok (verify_signature verifier server)

-- A server with a certificate that is empty.
abbrev impostor : Server
impostor = record {
  certificate = [];
  intermediates = [];
  ocsp_response = [];
  transcript = codes "hello";
  proof = record { scheme = ed25519; signature = [] };
  speaks_tls13 = true;
}

-- A server with a certificate of its own.
abbrev printer : Server
printer = record impostor { certificate = codes "printer"; speaks_tls13 = false }

abbrev sockets : Sockets
sockets = record {
  tcp_connect = λ address. none;
  tls_connect = λ verifier ip address. none;
  incoming = λ address. codes "220 ready" ∷ [];
  send_error = λ n. none;
  to_socket_addrs = λ hostname port. ok (home ∷ []);
  parse_ip = λ hostname. none;
  lines_codec = λ pieces. [];
  ftp_codec = λ pieces. ok (service_ready (codes "ready")) ∷ [];
}

abbrev anywhere : IpAddr → Bytes
anywhere ip = codes "192.168.1.2"

abbrev client : FileClient
client = record { hostname = codes "printer"; access_code = codes "1234" }
