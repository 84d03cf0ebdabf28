-- ===== src/Examples/Main.antt =====
-- `main` of examples/mjpeg_stream.rs, from the environment to the camera.
use bambu_rs.Prelude.{◌^◌, ◌≡◌, ap, ◌∙◌, Option, some, List, [], ◌∷◌, Bytes, codes}
use bambu_rs.Outcome.{ok, unwrap, >>=-eq-ok, unwrap-eq-ok, ok_inj}
use bambu_rs.Crates.{Crates, Documented}
use bambu_rs.Text.Decimal.{parse}
use bambu_rs.Framed.{left, concat, Receives}
use bambu_rs.Camera.Codec.{auth, decode}
use bambu_rs.Camera.Auth.{Fits}
use bambu_rs.Camera.Client
use bambu_rs.Camera.Client.{Transport, FramedStream, default_username, connect_and_stream_codec}
use bambu_rs.Camera.Connect.{connect-credentials}
use bambu_rs.Examples.Config.{Config, or_else, from_env}

-- The environment that a configuration was read from.
pub record IsEnv (var : Bytes → Option Bytes) (config : Config) : Type 0 where
  pub ip : var (codes "BAMBU_IP") ≡ some config.printer_ip
  pub code : var (codes "BAMBU_ACCESS_CODE") ≡ some config.access_code
  pub serial : var (codes "BAMBU_SERIAL_NUMBER") ≡ some config.serial_number
  pub port :
      parse (2 ^ 16) (or_else (var (codes "BAMBU_PORT")) (codes "6000")) ≡ some config.camera_port

from_env-IsEnv :
    (var : Bytes → Option Bytes) (config : Config) → from_env var ≡ ok config → IsEnv var config
unfolding from_env
from_env-IsEnv var config h =
    let port_text = or_else (var (codes "BAMBU_PORT")) (codes "6000") in
    let (ip, e1, h1) = >>=-eq-ok (unwrap (var (codes "BAMBU_IP"))) _ h in
    let (code, e2, h2) = >>=-eq-ok (unwrap (var (codes "BAMBU_ACCESS_CODE"))) _ h1 in
    let (serial, e3, h3) = >>=-eq-ok (unwrap (var (codes "BAMBU_SERIAL_NUMBER"))) _ h2 in
    let (port, e4, h4) = >>=-eq-ok (unwrap (parse (2 ^ 16) port_text)) _ h3 in
    let is = ok_inj h4 in
    record {
      ip = unwrap-eq-ok _ ip e1 ∙ ap (λ x. some x.printer_ip) is;
      code = unwrap-eq-ok _ code e2 ∙ ap (λ x. some x.access_code) is;
      serial = unwrap-eq-ok _ serial e3 ∙ ap (λ x. some x.serial_number) is;
      port = unwrap-eq-ok _ port e4 ∙ ap (λ x. some x.camera_port) is;
    }

-- If the program starts and its task connects to the camera, and the access code is UTF-8 of at most
-- 32 bytes that does not end in a zero, then `BAMBU_IP` is an address literal, the one that the task
-- has connected to, and the peer reads the user name `bblp` and the value of `BAMBU_ACCESS_CODE`,
-- however what was written is cut into pieces, and nothing else.
main-credentials :
    {c : Crates}
    → Documented c
    → {Address : Type 0} (net : Transport Address) (var : Bytes → Option Bytes) (config : Config)
      (framed : FramedStream Address) (chunks : List Bytes)
    → from_env var ≡ ok config
    → connect_and_stream_codec c net
        (Client.new config.printer_ip config.access_code config.camera_port)
      ≡ ok framed
    → Fits config.access_code
    → concat chunks ≡ framed.written
    → ((host : Bytes) × (var (codes "BAMBU_IP") ≡ some host)
        × (net.try_from host ≡ some framed.peer))
      × ((code : Bytes) × (var (codes "BAMBU_ACCESS_CODE") ≡ some code)
          × Receives (decode c) [] chunks (auth default_username code ∷ []) (left []))
main-credentials doc net var config framed chunks start connects fits e =
    let env = from_env-IsEnv var config start in
    let (peer, credentials) =
      connect-credentials doc net
        (Client.new config.printer_ip config.access_code config.camera_port) framed chunks connects
        fits e in
    ((config.printer_ip, env.ip, peer), (config.access_code, env.code, credentials))
