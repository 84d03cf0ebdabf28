-- ===== src/Camera/UnitTests.antt =====
-- The unit tests of src/camera/codec.rs, as what they assert of the codec over given crates.
use bambu_rs.Prelude.{◌≡◌, refl, none, some, [], ◌∷◌, ◌++◌, Bytes, codes, replicate, ap, ◌∙◌}
use bambu_rs.Outcome.{ok}
use bambu_rs.Crates.{Crates, Documented, first_match, first_match_sound}
use bambu_rs.Crates.Reference.{reference}
use bambu_rs.Text.Slice.{u32_to_le_bytes}
use bambu_rs.Camera.Tests.{bblp-Fits, code-Fits}
use bambu_rs.Camera.Playback.{IsSendable, decode-bytes_of}
use bambu_rs.Camera.Codec.{
  auth, jpeg, jpeg_start_marker, jpeg_end_marker, find_subsequence, decode_jpeg_packet,
  decode_auth_packet, decode, padded,
}

-- Build the authentication packet.
abbrev create_auth_packet : Bytes → Bytes → Bytes
create_auth_packet username access_code =
    let auth_data : Bytes = u32_to_le_bytes 0x40 in
    let auth_data = auth_data ++ u32_to_le_bytes 0x3000 in
    let auth_data = auth_data ++ u32_to_le_bytes 0 in
    let auth_data = auth_data ++ u32_to_le_bytes 0 in
    let auth_data = auth_data ++ padded username in auth_data ++ padded access_code

module _ (c : Crates) where
  abbrev TestFindSubsequence : Type 0
  TestFindSubsequence =
      (find_subsequence c (codes "hello world") (codes "world") ≡ some 6)
      × (find_subsequence c (codes "hello world") (codes "foo") ≡ none)

  -- Nothing is decoded, and the buffer is as it was.
  abbrev Waits : Bytes → Type 0
  Waits src = decode c src ≡ (ok none, src)

  abbrev TestDecodeCompleteFrame : Type 0
  TestDecodeCompleteFrame =
      let src = jpeg_start_marker ++ (codes "hello world" ++ jpeg_end_marker) in
      decode c src ≡ (ok (some (jpeg src)), [])

  abbrev TestDecodePartialFrame : Type 0
  TestDecodePartialFrame = Waits (jpeg_start_marker ++ codes "hello")

  abbrev TestDecodeMultipleFrames : Type 0
  TestDecodeMultipleFrames =
      let frame_1 = jpeg_start_marker ++ (codes "frame1" ++ jpeg_end_marker) in
      let frame_2 = jpeg_start_marker ++ (codes "frame2" ++ jpeg_end_marker) in
      let first = decode c (frame_1 ++ frame_2) in
      let second = decode c first.1 in
      (first.0 ≡ ok (some (jpeg frame_1))) × (second.0 ≡ ok (some (jpeg frame_2))) × (second.1 ≡ [])

  abbrev TestDecodeNoStartMarker : Type 0
  TestDecodeNoStartMarker = Waits (codes "hello world" ++ jpeg_end_marker)

  abbrev TestDecodeNoEndMarker : Type 0
  TestDecodeNoEndMarker = Waits (jpeg_start_marker ++ codes "hello world")

  abbrev TestDecodeInvalidMarkerRegression : Type 0
  TestDecodeInvalidMarkerRegression = Waits (
      jpeg_start_marker
      ++ 0
        ∷ (codes "!AVI1"
            ++ 0 ∷ 1 ∷ 1 ∷ 1 ∷ 0 ∷ b'x' ∷ 0 ∷ b'x' ∷ (replicate 19 0 ++ 0xff ∷ 0xdb ∷ [])))

  abbrev Foo : Type 0
  Foo =
      let image_1 = jpeg_start_marker ++ (codes "foobar" ++ jpeg_end_marker) in
      let first = decode c (create_auth_packet (codes "bblp") (codes "1234") ++ image_1) in
      (first.0 ≡ ok (some (auth (codes "bblp") (codes "1234"))))
      × ((decode c first.1).0 ≡ ok (some (jpeg image_1)))

find_test-reference : TestFindSubsequence reference
unfolding first_match find_subsequence
find_test-reference = (refl, refl)

frame_tests-reference :
    TestDecodeCompleteFrame reference
    × TestDecodePartialFrame reference
    × TestDecodeMultipleFrames reference
    × TestDecodeNoStartMarker reference
    × TestDecodeNoEndMarker reference
    × TestDecodeInvalidMarkerRegression reference
unfolding decode decode_auth_packet decode_jpeg_packet first_match
frame_tests-reference = (refl, refl, (refl, refl, refl), refl, refl, refl)

foobar-IsSendable : IsSendable (jpeg (jpeg_start_marker ++ (codes "foobar" ++ jpeg_end_marker)))
unfolding first_match
foobar-IsSendable = (codes "foobar", refl, first_match_sound jpeg_end_marker _ 6 refl)

-- With any crates that are as documented.
foo_test-Documented : {c : Crates} → Documented c → Foo c
foo_test-Documented {c} doc =
    let image = jpeg_start_marker ++ (codes "foobar" ++ jpeg_end_marker) in
    let first : decode c (create_auth_packet (codes "bblp") (codes "1234") ++ image)
        ≡ (ok (some (auth (codes "bblp") (codes "1234"))), image) =
      decode-bytes_of doc (auth (codes "bblp") (codes "1234")) image (bblp-Fits, code-Fits) in
    let second : decode c image ≡ (ok (some (jpeg image)), []) =
      decode-bytes_of doc (jpeg image) [] foobar-IsSendable in
    (ap (λ r. r.0) first, ap (λ r. (decode c r.1).0) first ∙ ap (λ r. r.0) second)
