-- ===== src/Camera/Playback.antt =====
-- A whole stream through `JpegCodec` of src/camera/codec.rs, packet by packet.
use bambu_rs.Prelude.{
  ◌≡◌, sym, ap, ap₂, ◌∙◌, none, some, List, [], ◌∷◌, ◌++◌, arith, Bytes, All, length, append_assoc,
  append-nil,
}
use bambu_rs.Outcome.{ok}
use bambu_rs.Crates.{
  Crates, Documented, IsFirst, first_match, first_match_self, first_match_sound, first_match-Lacks,
}
use bambu_rs.Camera.Codec.{
  CameraPacket, auth, jpeg, decode, encode, jpeg_start_marker, jpeg_end_marker,
}
use bambu_rs.Camera.Frames.{IsFrame, IsFrame-decode, IsFrame-append, no_start}
use bambu_rs.Camera.Auth.{
  auth_bytes, Fits, shown-padded, encode-auth, IsPacket-decode, auth_bytes-IsPacket,
  decode_auth-other, decode_auth-short,
}
use bambu_rs.Camera.Stream.{decode-credentials, decode-frame, decode-waits}

-- A packet that can be sent and read back: fields that fit, or an image that begins with the start
-- marker and in which the end marker stands only at its end.
abbrev pub IsSendable : CameraPacket → Type 0
IsSendable (auth username access_code) = Fits username × Fits access_code
IsSendable (jpeg bytes) =
    (body : Bytes) × (bytes ≡ jpeg_start_marker ++ (body ++ jpeg_end_marker))
    × IsFirst jpeg_end_marker (body ++ jpeg_end_marker) (length body)

-- The sender: `encode` for one packet after the other, into one buffer.
abbrev pub encode_all : Crates → List CameraPacket → Bytes → Bytes
encode_all c [] dst = dst
encode_all c (p ∷ ps) dst = encode_all c ps (encode c p dst).1

-- The reader: `decode` on one buffer, until it returns nothing.
pub data Plays (c : Crates) : Bytes → List CameraPacket → Bytes → Type 0 where
  stop : {src : Bytes} → decode c src ≡ (ok none, src) → Plays c src [] src
  next :
      {src rest left : Bytes} {p : CameraPacket} {ps : List CameraPacket}
      → decode c src ≡ (ok (some p), rest)
      → Plays c rest ps left
      → Plays c src (p ∷ ps) left

abbrev pub bytes_of : CameraPacket → Bytes
bytes_of (auth username access_code) = auth_bytes username access_code
bytes_of (jpeg bytes) = bytes

abbrev pub stream_of : List CameraPacket → Bytes
stream_of [] = []
stream_of (p ∷ ps) = bytes_of p ++ stream_of ps

module _ {c : Crates} (doc : Documented c) where
  encode-bytes_of : (p : CameraPacket) (dst : Bytes) → encode c p dst ≡ (ok tt, dst ++ bytes_of p)
  encode-bytes_of (auth u a) dst = encode-auth doc u a dst
  encode-bytes_of (jpeg b) dst = unfold encode in rw (doc.extend_from_slice_lem dst b)

  pub encode_all-stream_of :
      (ps : List CameraPacket) (dst : Bytes) → encode_all c ps dst ≡ dst ++ stream_of ps
  encode_all-stream_of [] dst = sym (append-nil dst)
  encode_all-stream_of (p ∷ ps) dst =
      ap (λ r. encode_all c ps r.1) (encode-bytes_of p dst)
      ∙ encode_all-stream_of ps (dst ++ bytes_of p)
      ∙ append_assoc dst (bytes_of p) (stream_of ps)

  pub image-IsFrame :
      (bytes rest : Bytes) → IsSendable (jpeg bytes) → IsFrame (bytes ++ rest) bytes rest
  image-IsFrame bytes rest (body, e, first) =
      let whole : IsFrame bytes bytes [] = record {
        before = [];
        body = body;
        frame_is = e;
        splits = e;
        first_start = first_match_sound jpeg_start_marker bytes 0 (
            ap (first_match jpeg_start_marker) e
            ∙ first_match_self jpeg_start_marker (body ++ jpeg_end_marker));
        first_end = first;
      } in
      IsFrame-append bytes bytes [] rest whole

  pub decode-bytes_of :
      (p : CameraPacket) (rest : Bytes)
      → IsSendable p
      → decode c (bytes_of p ++ rest) ≡ (ok (some p), rest)
  decode-bytes_of (auth u a) rest (fu, fa) =
      decode-credentials doc _ rest _ _ (IsPacket-decode doc (auth_bytes-IsPacket u a rest))
      ∙ ap₂ (λ (x y : Bytes). (ok (some (auth x y)), rest)) (shown-padded u fu) (shown-padded a fa)
  decode-bytes_of (jpeg b) rest (body, e, first) =
      decode-frame doc (b ++ rest) rest b
        (rw e (
          decode_auth-other doc 255 216 255 224 ((body ++ jpeg_end_marker) ++ rest) (omega arith)
            (omega arith)))
        (IsFrame-decode doc (b ++ rest) b rest (image-IsFrame b rest (body, e, first)))

  Plays-stream_of : (ps : List CameraPacket) → All IsSendable ps → Plays c (stream_of ps) ps []
  Plays-stream_of [] h = stop (
      decode-waits doc [] (decode_auth-short doc [] (omega arith))
        (no_start doc [] (first_match-Lacks 0xff _ [] tt)))
  Plays-stream_of (p ∷ ps) (hp, hps) =
      next (decode-bytes_of p (stream_of ps) hp) (Plays-stream_of ps hps)

  -- Take any list of packets in which each user name and access code is UTF-8 of at most 32 bytes
  -- that does not end in a zero, and each image begins with the start marker and has the end marker
  -- at its end and, behind the start marker, nowhere before. What the encoder writes for them into
  -- an empty buffer, the decoder reads back packet by packet and in order, and it then waits on an
  -- empty buffer.
  pub Plays-encode_all :
      (ps : List CameraPacket) → All IsSendable ps → Plays c (encode_all c ps []) ps []
  Plays-encode_all ps h = rw (encode_all-stream_of ps []) (Plays-stream_of ps h)
