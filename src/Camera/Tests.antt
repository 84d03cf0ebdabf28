-- ===== src/Camera/Tests.antt =====
-- Runs of src/camera/codec.rs, src/camera.rs and src/tls.rs on concrete inputs, among them those of
-- their unit tests.
use bambu_rs.Prelude.{
  ◌≡◌, ◌↔◌, refl, none, some, List, [], ◌∷◌, ◌++◌, arith, Bytes, codes, take, drop, All, ap, length,
  length-append, replicate,
}
use bambu_rs.Outcome.{ok}
use bambu_rs.Crates.{first_match, first_match_sound}
use bambu_rs.Crates.Reference.{reference, reference-Documented}
use bambu_rs.Text.Slice.{IsByte}
use bambu_rs.Text.Utf8.{is_utf8, scan}
use bambu_rs.Text.Trim.{Lacks-EndsOtherThan}
use bambu_rs.Camera.Codec.{
  CameraPacket, auth, jpeg, jpeg_start_marker, jpeg_end_marker, decode_jpeg_packet,
  decode_auth_packet, decode, encode, padded,
}
use bambu_rs.Camera.Frames.{decode_jpeg_iff}
use bambu_rs.Camera.Auth.{header, shown, IsPacket, IsPacket-length, Fits, auth_bytes}
use bambu_rs.Camera.Stream.{Decoded, decode-Decoded}
use bambu_rs.Camera.Playback.{IsSendable, encode_all}
use bambu_rs.Framed.{End, left, concat, Drains, Receives}
use bambu_rs.Camera.Chunks.{Receives-encode_all}
use bambu_rs.Camera.Client.{
  Transport, CameraClient, new, FramedStream, send, connect_and_stream_codec,
}
use bambu_rs.Camera.Connect.{connect-credentials}
use bambu_rs.Camera.Cuts.{NoPacket, decode_pieces, decode_cut}

abbrev hello_frame : Bytes
hello_frame = jpeg_start_marker ++ (codes "hello" ++ jpeg_end_marker)

-- A frame with noise in front and the start of another one behind.
abbrev two_frames : Bytes
two_frames = codes "noise" ++ (hello_frame ++ jpeg_start_marker)

two_frames-decode :
    decode_jpeg_packet reference two_frames ≡ (ok (some hello_frame), jpeg_start_marker)
unfolding decode_jpeg_packet first_match
two_frames-decode = refl

two_frames-IsByte : All IsByte two_frames
two_frames-IsByte = omega arith

decode-Decoded_example : Decoded two_frames (decode reference two_frames)
decode-Decoded_example = decode-Decoded reference-Documented two_frames two_frames-IsByte

two_frames-packet : decode reference two_frames ≡ (ok (some (jpeg hello_frame)), jpeg_start_marker)
unfolding decode decode_auth_packet decode_jpeg_packet first_match
two_frames-packet = refl

abbrev stream : List CameraPacket
stream = auth (codes "bblp") (codes "1234") ∷ jpeg hello_frame ∷ []

pub bblp-Fits : Fits (codes "bblp")
unfolding is_utf8 scan
bblp-Fits = record {
  text = refl;
  short = omega arith;
  trimmed = Lacks-EndsOtherThan 0 (codes "bblp") (omega arith);
}

pub code-Fits : Fits (codes "1234")
unfolding is_utf8 scan
code-Fits = record {
  text = refl;
  short = omega arith;
  trimmed = Lacks-EndsOtherThan 0 (codes "1234") (omega arith);
}

hello_frame-IsSendable : IsSendable (jpeg hello_frame)
unfolding first_match
hello_frame-IsSendable = (codes "hello", refl, first_match_sound jpeg_end_marker _ 5 refl)

-- The bytes of both packets, in three pieces.
abbrev pieces : List Bytes
pieces =
    let all = encode_all reference stream [] in take 3 all ∷ take 80 (drop 3 all) ∷ drop 83 all ∷ []

pieces-concat : concat pieces ≡ encode_all reference stream []
unfolding encode padded
pieces-concat = refl

Receives-encode_all_example : Receives (decode reference) [] pieces stream (left [])
Receives-encode_all_example =
    Receives-encode_all reference-Documented stream pieces
      ((bblp-Fits, code-Fits), (hello_frame-IsSendable, tt)) pieces-concat

-- A network on which everything opens, with the text of an address as the address.
abbrev open_network : Transport Bytes
open_network = record {
  tcp_connect = λ addr. none;
  try_from = λ host. some host;
  tls_connect = λ verifier address. none;
  write = λ bytes. none;
  flush = none;
}

abbrev printer : CameraClient
printer = new (codes "10.0.0.7") (codes "1234") 6000

abbrev printer_stream : FramedStream Bytes
printer_stream = record {
  peer = codes "10.0.0.7";
  written = auth_bytes (codes "bblp") (codes "1234");
}

printer-connected : connect_and_stream_codec reference open_network printer ≡ ok printer_stream
unfolding connect_and_stream_codec send encode
printer-connected = refl

printer_pieces-concat :
    concat (take 5 printer_stream.written ∷ drop 5 printer_stream.written ∷ [])
    ≡ printer_stream.written
unfolding padded
printer_pieces-concat = refl

connect-credentials_example :
    (open_network.try_from (codes "10.0.0.7") ≡ some (codes "10.0.0.7"))
    × Receives
        (decode reference)
        []
        (take 5 printer_stream.written ∷ drop 5 printer_stream.written ∷ [])
        (auth (codes "bblp") (codes "1234") ∷ [])
        (left [])
connect-credentials_example =
    connect-credentials reference-Documented open_network printer printer_stream
      (take 5 printer_stream.written ∷ drop 5 printer_stream.written ∷ []) printer-connected
      code-Fits printer_pieces-concat

two_frames-NoPacket : NoPacket (concat (take 9 two_frames ∷ drop 9 two_frames ∷ []))
two_frames-NoPacket = (
  two_frames-IsByte,
  λ front back e p. omega (arith, IsPacket-length p, ap length e, length-append front back),
)

decode_pieces_example :
    Receives
      (decode reference)
      []
      (take 9 two_frames ∷ drop 9 two_frames ∷ [])
      (jpeg hello_frame ∷ [])
      (left jpeg_start_marker)
    ↔ Drains (decode reference) two_frames (jpeg hello_frame ∷ []) (left jpeg_start_marker)
decode_pieces_example =
    decode_pieces reference-Documented (take 9 two_frames ∷ drop 9 two_frames ∷ [])
      (jpeg hello_frame ∷ []) (left jpeg_start_marker) two_frames-NoPacket

-- A packet of credentials whose user name is a frame.
abbrev hidden_frame : Bytes
hidden_frame = header ++ ((hello_frame ++ replicate 21 0) ++ replicate 32 0)

abbrev hidden_frame-IsPacket : IsPacket hidden_frame
hidden_frame-IsPacket = record {
  username_part = hello_frame ++ replicate 21 0;
  access_part = replicate 32 0;
  rest = [];
  splits = refl;
  username_length = refl;
  access_length = refl;
}

hidden_frame-decode :
    decode_jpeg_packet reference (take 48 hidden_frame) ≡ (ok (some hello_frame), replicate 21 0)
unfolding decode_jpeg_packet first_match
hidden_frame-decode = refl

decode_cut_example :
    ((items : List CameraPacket) × (end : End) × Receives
        (decode reference)
        []
        (hidden_frame ∷ [])
        (auth (shown (hello_frame ++ replicate 21 0)) (shown (replicate 32 0)) ∷ items)
        end)
    × ((items : List CameraPacket) × (end : End) × Receives
          (decode reference)
          []
          (take 48 hidden_frame ∷ drop 48 hidden_frame ∷ [])
          (jpeg hello_frame ∷ items)
          end)
decode_cut_example =
    decode_cut reference-Documented hidden_frame 48 hello_frame (replicate 21 0)
      hidden_frame-IsPacket (omega arith)
      ((decode_jpeg_iff reference-Documented (take 48 hidden_frame) hello_frame (replicate 21 0)).0
        hidden_frame-decode)

-- The unit test `test_decode_multiple_frames`.
abbrev frame_of : Bytes → Bytes
frame_of body = jpeg_start_marker ++ (body ++ jpeg_end_marker)

multiple_frames :
    (decode reference (frame_of (codes "frame1") ++ frame_of (codes "frame2"))
      ≡ (ok (some (jpeg (frame_of (codes "frame1")))), frame_of (codes "frame2")))
    × (decode reference (frame_of (codes "frame2"))
        ≡ (ok (some (jpeg (frame_of (codes "frame2")))), []))
unfolding decode decode_auth_packet decode_jpeg_packet first_match
multiple_frames = (refl, refl)

-- The unit tests `test_decode_no_start_marker` and `test_decode_no_end_marker`.
no_markers :
    (decode reference (codes "hello world" ++ jpeg_end_marker)
      ≡ (ok none, codes "hello world" ++ jpeg_end_marker))
    × (decode reference (jpeg_start_marker ++ codes "hello world")
        ≡ (ok none, jpeg_start_marker ++ codes "hello world"))
unfolding decode decode_auth_packet decode_jpeg_packet first_match
no_markers = (refl, refl)
