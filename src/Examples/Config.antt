-- ===== src/Examples/Config.antt =====
-- `Config` of examples/mjpeg_stream.rs, which examples/mqtt_client.rs repeats. The environment is a
-- parameter, `std::env::var`, with `none` for an error.
use bambu_rs.Prelude.{ℕ, ◌^◌, Option, none, some, Bytes, codes}
use bambu_rs.Outcome.{Outcome, ok, unwrap, ◌>>=◌}
use bambu_rs.Text.Decimal.{parse}

pub record Config : Type 0 where
  pub printer_ip : Bytes
  pub access_code : Bytes
  pub serial_number : Bytes
  pub camera_port : ℕ

-- `unwrap_or_else(|_| default)`
abbrev pub or_else : Option Bytes → Bytes → Bytes
or_else none default = default
or_else (some s) default = s

-- `Config::from_env`. An `expect` is an `unwrap` with a message.
unfoldable pub from_env : (Bytes → Option Bytes) → Outcome Config
from_env var = do
  printer_ip ← unwrap (var (codes "BAMBU_IP"))
  access_code ← unwrap (var (codes "BAMBU_ACCESS_CODE"))
  serial_number ← unwrap (var (codes "BAMBU_SERIAL_NUMBER"))
  camera_port ← unwrap (parse (2 ^ 16) (or_else (var (codes "BAMBU_PORT")) (codes "6000")))
  ok (record {
    printer_ip = printer_ip;
    access_code = access_code;
    serial_number = serial_number;
    camera_port = camera_port;
  })
