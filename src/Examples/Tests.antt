-- ===== src/Examples/Tests.antt =====
-- Runs of examples/mjpeg_stream.rs on concrete inputs.
use bambu_rs.Prelude.{
  ◌≡◌, refl, Bool, true, false, Option, none, some, List, [], ◌∷◌, arith, Bytes, codes, ◌++◌, All,
  take, drop, if◌then◌else◌,
}
use bambu_rs.Outcome.{ok}
use bambu_rs.Crates.Reference.{reference, reference-Documented}
use bambu_rs.Text.Equal.{same}
use bambu_rs.Text.Utf8.{is_utf8, scan}
use bambu_rs.Text.Trim.{Lacks-EndsOtherThan}
use bambu_rs.Framed.{left, concat, Receives}
use bambu_rs.Camera.Auth.{Fits, auth_bytes}
use bambu_rs.Camera.Client
use bambu_rs.Camera.Client.{Transport, FramedStream, connect_and_stream_codec}
use bambu_rs.Examples.Config.{Config, from_env}
use bambu_rs.Examples.Relay.{relay, watched, IsGood, run-relay, step-credentials}
use bambu_rs.Crates.{first_match, first_match_sound}
use bambu_rs.Text.Decimal.{parse}
use bambu_rs.Camera.Codec.{CameraPacket, jpeg_start_marker, jpeg_end_marker, jpeg, encode, decode}
use bambu_rs.Examples.Mjpeg.{
  AppState, step, crashed, started, launch, holding, packet, Action, next, store, send, subscribe,
  open_body, hang_up, taken, elsewhere, handle, remember, broadcast, act, serve, run, live,
}
use bambu_rs.Examples.Multipart.{body, Parts, Parts-body}
use bambu_rs.Examples.NoGap.{MissesNothing}
use bambu_rs.Examples.NoGap.Connection.{run-MissesNothing}

-- Every frame but the empty one has a header.
abbrev has_header : Bytes → Bool
has_header [] = false
has_header (b ∷ frame) = true

-- Two frames, and a connection between them.
abbrev two_frames : List Action
two_frames =
    next (packet (jpeg (codes "one")))
    ∷ store
    ∷ subscribe
    ∷ send true
    ∷ open_body
    ∷ next (packet (jpeg (codes "two")))
    ∷ []

abbrev held : AppState
held = run has_header two_frames started

held_lem : (held.sent ≡ codes "one" ∷ []) × (held.viewer ≡ holding 0 (codes "one"))
unfolding act handle remember broadcast serve
held_lem = (refl, refl)

-- The environment of a printer on the local network, without a port.
abbrev pub environment : Bytes → Option Bytes
environment name =
    if same name (codes "BAMBU_IP")
    then some (codes "10.0.0.7")
    else if same name (codes "BAMBU_ACCESS_CODE")
    then some (codes "1234")
    else if same name (codes "BAMBU_SERIAL_NUMBER")
    then some (codes "01P00A")
    else none

abbrev pub config : Config
config = record {
  printer_ip = codes "10.0.0.7";
  access_code = codes "1234";
  serial_number = codes "01P00A";
  camera_port = 6000;
}

pub environment-config : from_env environment ≡ ok config
unfolding from_env same parse
environment-config = refl

-- A network on which everything opens, with the text of an address as the address.
abbrev open_network : Transport Bytes
open_network = record {
  tcp_connect = λ addr. none;
  try_from = λ host. some host;
  tls_connect = λ verifier address. none;
  write = λ bytes. none;
  flush = none;
}

abbrev camera_stream : FramedStream Bytes
camera_stream = record {
  peer = codes "10.0.0.7";
  written = auth_bytes (codes "bblp") (codes "1234");
}

camera-connected :
    connect_and_stream_codec reference open_network
      (Client.new config.printer_ip config.access_code config.camera_port)
    ≡ ok camera_stream
unfolding connect_and_stream_codec Client.send encode
camera-connected = refl

code-Fits : Fits (codes "1234")
unfolding is_utf8 scan
code-Fits = record {
  text = refl;
  short = omega arith;
  trimmed = Lacks-EndsOtherThan 0 (codes "1234") (omega arith);
}

run-MissesNothing_example :
    let s = run has_header two_frames (launch reference open_network config) in
    MissesNothing s.viewer s
run-MissesNothing_example = run-MissesNothing has_header reference open_network config two_frames

-- The frame is not stored while the connection is at the last one, and is when it hangs up, unless
-- another connection is at the last one too.
lock :
    (run has_header (store ∷ []) held ≡ held)
    × ((run has_header (hang_up ∷ store ∷ []) held).last_frame ≡ some (codes "two"))
    × ((run has_header (elsewhere taken ∷ hang_up ∷ store ∷ []) held).last_frame
        ≡ some (codes "one"))
unfolding act handle remember broadcast serve
lock = (refl, refl, refl)

-- A channel that fails after two frames.
broken : live (none ∷ some (codes "lost") ∷ []) ≡ []
unfolding live
broken = refl

Parts-body_example :
    Parts
      (body (some (codes "one")) (codes "two" ∷ [] ∷ []) (none ∷ some (codes "lost") ∷ []))
      (codes "one" ∷ codes "two" ∷ [] ∷ [])
Parts-body_example =
    Parts-body (some (codes "one")) (codes "two" ∷ [] ∷ []) (none ∷ some (codes "lost") ∷ []) broken
      (omega arith)

abbrev image : Bytes → Bytes
image content = jpeg_start_marker ++ (content ++ jpeg_end_marker)

abbrev images : List Bytes
images = image (codes "one") ∷ image (codes "two") ∷ []

images-IsGood : All (IsGood has_header) images
unfolding first_match
images-IsGood = (
  record {
    sendable = (codes "one", refl, first_match_sound jpeg_end_marker _ 3 refl);
    readable = refl;
    short = omega arith;
  },
  (
    record {
      sendable = (codes "two", refl, first_match_sound jpeg_end_marker _ 3 refl);
      readable = refl;
      short = omega arith;
    },
    tt,
  ),
)

-- The second image begins in the first piece.
abbrev image_pieces : List Bytes
image_pieces = take 11 (concat images) ∷ drop 11 (concat images) ∷ []

run-relay_example :
    (items : List CameraPacket) × Receives (decode reference) [] image_pieces items (left [])
    × (let t = run has_header (relay items) (watched 1 none (codes "zero" ∷ []) none) in
        (t.sent ≡ codes "zero" ∷ images) × Parts (body none (drop 1 t.sent) []) images)
run-relay_example =
    run-relay reference-Documented has_header images image_pieces (codes "zero" ∷ []) none
      images-IsGood refl

bblp-Fits : Fits (codes "bblp")
unfolding is_utf8 scan
bblp-Fits = record {
  text = refl;
  short = omega arith;
  trimmed = Lacks-EndsOtherThan 0 (codes "bblp") (omega arith);
}

step-credentials_example :
    (item : CameraPacket) × (decode reference
        (auth_bytes (codes "bblp") (codes "1234") ++ codes "more")
      ≡ (ok (some item), codes "more"))
    × ((step has_header (next (packet item)) started).camera ≡ crashed)
step-credentials_example =
    step-credentials reference-Documented has_header (codes "bblp") (codes "1234") (codes "more")
      started bblp-Fits code-Fits refl
