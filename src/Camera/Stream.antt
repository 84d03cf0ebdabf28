-- ===== src/Camera/Stream.antt =====
-- `JpegCodec::decode` of src/camera/codec.rs on whole buffers: it never fails, it takes one packet
-- or waits, and a stream of packets is read packet by packet.
use bambu_rs.Prelude.{
  ℕ, ◌-◌, ◌<◌, ◌≡◌, Option, none, some, ◌++◌, arith, Bytes, All, length, take, Lacks, All-append,
  All-take, All-replicate, replicate, min, length-take,
}
use bambu_rs.Outcome.{Outcome, ok}
use bambu_rs.Crates.{Crates, Documented, first_match-Lacks}
use bambu_rs.Camera.Codec.{
  CameraPacket, auth, jpeg, decode_auth_packet, decode_jpeg_packet, decode, padded,
}
use bambu_rs.Camera.Frames.{
  IsFrame, Taken, taken, waits, decode_jpeg-Taken, IsFrame-decode, IsFrame-length, no_start,
}
use bambu_rs.Camera.Auth.{
  shown, auth_bytes, IsPacket, IsPacket-rest, snd_of, Accepted, accepted, refused, not_both,
  decode_auth-Accepted, header, decode_auth-short,
}
use bambu_rs.Text.Slice.{IsByte}

-- How `decode` ends: it takes a packet of credentials, else a frame, else nothing.
pub data Decoded (src : Bytes) (r : Outcome (Option CameraPacket) × Bytes) : Type 0 where
  credentials :
      (p : IsPacket src)
      → r ≡ (ok (some (auth (shown p.username_part) (shown p.access_part))), p.rest)
      → Decoded src r
  frame :
      ¬ IsPacket src
      → (bytes rest : Bytes) → IsFrame src bytes rest
      → r ≡ (ok (some (jpeg bytes)), rest)
      → Decoded src r
  waiting :
      ¬ IsPacket src
      → ((bytes rest : Bytes) → ¬ IsFrame src bytes rest)
      → r ≡ (ok none, src)
      → Decoded src r

module _ {c : Crates} (doc : Documented c) where
  pub decode-credentials :
      (src rest u p : Bytes)
      → decode_auth_packet c src ≡ (ok (some (u, p)), rest)
      → decode c src ≡ (ok (some (auth u p)), rest)
  unfolding decode
  decode-credentials src rest u p h = ground arith

  pub decode-frame :
      (src rest bytes : Bytes)
      → decode_auth_packet c src ≡ (ok none, src)
      → decode_jpeg_packet c src ≡ (ok (some bytes), rest)
      → decode c src ≡ (ok (some (jpeg bytes)), rest)
  unfolding decode
  decode-frame src rest bytes h k = ground arith

  pub decode-waits :
      (src : Bytes)
      → decode_auth_packet c src ≡ (ok none, src)
      → decode_jpeg_packet c src ≡ (ok none, src)
      → decode c src ≡ (ok none, src)
  unfolding decode
  decode-waits src h k = ground arith

  -- On every buffer of bytes `decode` ends with no error and no panic. If the buffer starts with an
  -- authentication packet, it returns the trimmed fields and leaves what follows the packet. If not,
  -- and the buffer holds a frame, it returns the first one and leaves what follows it. Otherwise it
  -- returns nothing and leaves the buffer as it was.
  pub decode-Decoded : (src : Bytes) → All IsByte src → Decoded src (decode c src)
  decode-Decoded src bytes = go (decode_auth-Accepted doc src bytes) (decode_jpeg-Taken doc src)
    where
      go :
          Accepted src (decode_auth_packet c src)
          → Taken src (decode_jpeg_packet c src)
          → Decoded src (decode c src)
      go (accepted p e) _ = credentials p (decode-credentials src _ _ _ e)
      go (refused np e) (taken f rest q is) = frame np f rest is (decode-frame src rest f e q)
      go (refused np e) (waits q) =
          waiting np (λ f r is. not_both q (IsFrame-decode doc src f r is)) (decode-waits src e q)

  -- A packet that was taken makes the buffer shorter.
  length-decode :
      (src : Bytes) (p : CameraPacket) (rest : Bytes)
      → All IsByte src
      → decode c src ≡ (ok (some p), rest)
      → length rest < length src
  length-decode src p rest bytes h = go (decode-Decoded src bytes)
    where
      go : Decoded src (decode c src) → length rest < length src
      go (credentials q e) = rw (snd_of e h) at (IsPacket-rest q)
      go (frame _ f r is e) = rw (snd_of e h) at (IsFrame-length is)
      go (waiting _ _ e) = absurd (not_both e h)

pub padded-Lacks : (s : Bytes) → Lacks 0xff s → Lacks 0xff (padded s)
unfolding padded
padded-Lacks s h =
    let n = min (length s) 32 in
    All-append _ (take n s) (replicate (32 - n) 0) (All-take _ n s h)
      (All-replicate _ (32 - n) 0 (omega arith))

-- While an authentication packet is still incomplete, `decode` waits for the rest of it, unless the
-- credentials hold the byte 0xff (which no text holds).
decode_incomplete_auth :
    {c : Crates}
    → Documented c
    → (username access_code : Bytes) (n : ℕ) → Lacks 0xff username
    → Lacks 0xff access_code
    → n < 80
    → decode c (take n (auth_bytes username access_code))
      ≡ (ok none, take n (auth_bytes username access_code))
decode_incomplete_auth doc u a n hu ha small =
    let src = auth_bytes u a in
    let clean : Lacks 0xff src =
      All-append _ header (padded u ++ padded a) (omega arith)
        (All-append _ (padded u) (padded a) (padded-Lacks u hu) (padded-Lacks a ha)) in
    decode-waits doc (take n src)
      (decode_auth-short doc (take n src) (omega (arith, length-take n src)))
      (no_start doc (take n src) (first_match-Lacks 0xff _ (take n src) (All-take _ n src clean)))
