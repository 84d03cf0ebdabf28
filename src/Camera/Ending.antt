-- ===== src/Camera/Ending.antt =====
-- The decoder of src/camera/codec.rs comes to an end on every stream.
use bambu_rs.Prelude.{
  ◌≤◌, ◌<◌, ◌≡◌, ◌⊎◌, inl, inr, sym, ap, subst, ◌∙◌, Bool-cases, Option, none, some, List, [], ◌∷◌,
  arith, Bytes, length, take, drop, length-drop, ◌&&◌, ◌==◌,
}
use native.Mathlib.Decide.{dec_lt}
use bambu_rs.Outcome.{Outcome, ok}
use bambu_rs.Crates.{Crates, Documented, first_match-Lacks}
use bambu_rs.Framed
use bambu_rs.Framed.{
  End, concat, Drains, Receives, Prefix, waiting, deciding, Incremental, Shrinks, Keeps,
  Receives-total, Receives-Drains, Drains-Receives,
}
use bambu_rs.Camera.Codec.{CameraPacket, auth, jpeg, decode_auth_packet, decode_jpeg_packet, decode}
use bambu_rs.Camera.Frames.{Taken, taken, waits, decode_jpeg-Taken, IsFrame-length, no_start}
use bambu_rs.Camera.Auth.{
  shown, decode_auth-short, decode_auth-long, take_credentials-eq, not_both, word,
}
use bambu_rs.Camera.Stream.{decode-credentials, decode-frame, decode-waits}

-- How `decode_auth_packet` ends on any buffer.
data Cut (src : Bytes) (r : Outcome (Option (Bytes × Bytes)) × Bytes) : Type 0 where
  taken_off : (u p : Bytes) → 80 ≤ length src → r ≡ (ok (some (u, p)), drop 80 src) → Cut src r
  left_as_is : r ≡ (ok none, src) → Cut src r

module _ {c : Crates} (doc : Documented c) where
  decode_auth-Cut : (src : Bytes) → Cut src (decode_auth_packet c src)
  decode_auth-Cut src = elim (dec_lt (length src) 80) [
    | yes h ↦ left_as_is (decode_auth-short doc src h)
    | no h ↦
        let (m, em) = word src 0 (omega arith) in
        let (n, en) = word src 4 (omega arith) in
        let (y, ey) = word src 8 (omega arith) in
        let (z, ez) = word src 12 (omega arith) in
        let e = decode_auth-long doc src m n y z (omega arith) em en ey ez in
        elim (Bool-cases (m == 64 && n == 12288 && y == 0 && z == 0)) [
          | inl t ↦
              taken_off (shown (take 32 (drop 16 src))) (shown (take 32 (drop 48 src)))
                (omega arith) (e ∙ rw t (take_credentials-eq doc src (omega arith)))
          | inr t ↦ left_as_is (e ∙ rw t)
        ]
  ]

  -- How `decode` ends on any buffer.
  decode-cases :
      (src : Bytes)
      → (decode c src ≡ (ok none, src))
        ⊎ ((a : CameraPacket) × (rest : Bytes) × (decode c src ≡ (ok (some a), rest))
            × (length rest < length src))
  decode-cases src = go (decode_auth-Cut src) (decode_jpeg-Taken doc src)
    where
      go :
          Cut src (decode_auth_packet c src)
          → Taken src (decode_jpeg_packet c src)
          → (decode c src ≡ (ok none, src))
            ⊎ ((a : CameraPacket) × (rest : Bytes) × (decode c src ≡ (ok (some a), rest))
                × (length rest < length src))
      go (taken_off u p h e) _ = inr (
        auth u p,
        drop 80 src,
        decode-credentials doc src _ u p e,
        omega (arith, length-drop 80 src),
      )
      go (left_as_is e) (taken f rest q is) =
          inr (jpeg f, rest, decode-frame doc src rest f e q, IsFrame-length is)
      go (left_as_is e) (waits q) = inl (decode-waits doc src e q)

  decode-Shrinks : Shrinks (decode c)
  decode-Shrinks src a rest h = go (decode-cases src)
    where
      go :
          (decode c src ≡ (ok none, src))
            ⊎ ((b : CameraPacket) × (r : Bytes) × (decode c src ≡ (ok (some b), r))
                × (length r < length src))
          → length rest < length src
      go (inl e) = absurd (not_both e h)
      go (inr (b, r, e, shorter)) =
          subst (λ s. length s < length src) (ap (λ x. x.1) (sym e ∙ h)) shorter

  decode-Keeps : Keeps (decode c)
  decode-Keeps src rest h = go (decode-cases src)
    where
      go :
          (decode c src ≡ (ok none, src))
            ⊎ ((b : CameraPacket) × (r : Bytes) × (decode c src ≡ (ok (some b), r))
                × (length r < length src))
          → rest ≡ src
      go (inl e) = ap (λ x. x.1) (sym h ∙ e)
      go (inr (b, r, e, shorter)) = absurd (not_both h e)

  -- The decoder comes to an end on every stream, whatever numbers it holds and however it is cut into
  -- pieces.
  decode_stream_total :
      (chunks : List Bytes)
      → (items : List CameraPacket) × (end : End) × Receives (decode c) [] chunks items end
  decode_stream_total chunks = Receives-total (decode c) decode-Shrinks decode-Keeps [] chunks

  decode-nil : decode c [] ≡ (ok none, [])
  decode-nil =
      decode-waits doc [] (decode_auth-short doc [] (omega arith))
        (no_start doc [] (first_match-Lacks 0xff _ [] tt))

  -- A first piece on which the decoder takes a packet.
  pub Receives-first :
      (piece rest : Bytes) (chunks : List Bytes) (a : CameraPacket)
      → decode c piece ≡ (ok (some a), rest)
      → (items : List CameraPacket) × (end : End) × Receives
          (decode c)
          []
          (piece ∷ chunks)
          (a ∷ items)
          end
  Receives-first piece rest chunks a e =
      let (items, end, r) = Receives-total (decode c) decode-Shrinks decode-Keeps rest chunks in
      (items, end, Framed.reads decode-nil (Framed.item e r))
