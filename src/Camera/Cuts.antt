-- ===== src/Camera/Cuts.antt =====
-- What the decoder of src/camera/codec.rs makes of a stream that is cut in different ways.
use bambu_rs.Prelude.{
  ℕ, ◌<◌, ◌≡◌, ◌↔◌, refl, sym, ap, subst, ◌∙◌, none, some, List, [], ◌∷◌, ◌++◌, arith, Bytes, All,
  All-append_inv, take, drop, append_assoc, length-take,
}
use bambu_rs.Outcome.{ok}
use bambu_rs.Crates.{Crates, Documented}
use bambu_rs.Text.Slice.{IsByte}
use bambu_rs.Framed.{
  End, concat, Drains, Receives, Prefix, waiting, deciding, Incremental, Receives-Drains,
  Drains-Receives,
}
use bambu_rs.Camera.Codec.{
  CameraPacket, auth, jpeg, jpeg_start_marker, jpeg_end_marker, decode_auth_packet,
  decode_jpeg_packet, decode,
}
use bambu_rs.Camera.Frames.{
  IsFrame, Taken, taken, waits, decode_jpeg-Taken, decode_jpeg-append, IsFrame-decode,
}
use bambu_rs.Camera.Auth.{
  shown, IsPacket, IsPacket-decode, decode_auth-short, decode_auth-Accepted, Accepted, accepted,
  refused,
}
use bambu_rs.Camera.Stream.{decode-credentials, decode-frame, decode-waits}
use bambu_rs.Camera.Ending.{Receives-first}

-- Bytes in which no authentication packet starts anywhere.
abbrev pub NoPacket : Bytes → Type 0
NoPacket src = All IsByte src × ((front back : Bytes) → src ≡ front ++ back → ¬ IsPacket back)

-- Bytes behind a packet.
IsPacket-append : (src more : Bytes) → IsPacket src → IsPacket (src ++ more)
IsPacket-append src more p = record {
  username_part = p.username_part;
  access_part = p.access_part;
  rest = p.rest ++ more;
  splits = ap (λ s. s ++ more) p.splits ∙ simp (append_assoc);
  username_length = p.username_length;
  access_length = p.access_length;
}

module _ {c : Crates} (doc : Documented c) where
  NoPacket-back : (front back src : Bytes) → src ≡ front ++ back → NoPacket src → NoPacket back
  NoPacket-back front back src e (bytes, none_starts) = (
    (All-append_inv IsByte front back (subst (All IsByte) e bytes)).1,
    λ f b h. none_starts (front ++ f) b (e ∙ ap (◌++◌ front) h ∙ sym (append_assoc front f b)),
  )

  -- Where no packet starts, the decoder looks for frames.
  NoPacket-decode : (src : Bytes) → NoPacket src → decode_auth_packet c src ≡ (ok none, src)
  NoPacket-decode src (bytes, none_starts) = go (decode_auth-Accepted doc src bytes)
    where
      go : Accepted src (decode_auth_packet c src) → decode_auth_packet c src ≡ (ok none, src)
      go (accepted p e) = absurd (none_starts [] src refl p)
      go (refused np e) = e

  decode-Incremental_frames : Incremental (decode c) NoPacket
  decode-Incremental_frames buf more good =
      go (decode_auth-Accepted doc buf (All-append_inv IsByte buf more good.0).0)
        (decode_jpeg-Taken doc buf)
    where
      go :
          Accepted buf (decode_auth_packet c buf)
          → Taken buf (decode_jpeg_packet c buf)
          → Prefix (decode c) NoPacket buf more
      go (accepted p e) _ = absurd (good.1 [] (buf ++ more) refl (IsPacket-append buf more p))
      go (refused np e) (taken f rest q is) =
          deciding (ok (some (jpeg f))) rest (λ h. cc) (decode-frame doc buf rest f e q)
            (decode-frame doc (buf ++ more) (rest ++ more) f (NoPacket-decode (buf ++ more) good)
              (decode_jpeg-append doc buf f rest more q))
            (NoPacket-back (is.before ++ (jpeg_start_marker ++ (is.body ++ jpeg_end_marker)))
              (rest ++ more) (buf ++ more) (ap (λ s. s ++ more) is.splits ∙ simp (append_assoc))
              good)
      go (refused np e) (waits q) = waiting (decode-waits doc buf e q)

  -- However a stream of bytes in which no authentication packet starts anywhere is cut into pieces,
  -- the packets that the decoder yields, and what it has left over, are those of the whole stream in
  -- one buffer.
  pub decode_pieces :
      (chunks : List Bytes) (items : List CameraPacket) (end : End)
      → NoPacket (concat chunks)
      → Receives (decode c) [] chunks items end ↔ Drains (decode c) (concat chunks) items end
  decode_pieces chunks items end good = (
    λ r. Receives-Drains (decode c) NoPacket decode-Incremental_frames r good,
    λ d. Drains-Receives (decode c) NoPacket decode-Incremental_frames d [] chunks refl good,
  )

  -- Let a stream start with an authentication packet, in whose first bytes, fewer than all 80, there
  -- is a frame. In one piece the stream yields the credentials first; cut behind those bytes, it
  -- yields the frame first, so that what is decoded depends on how the bytes arrive.
  pub decode_cut :
      (src : Bytes) (n : ℕ) (frame rest : Bytes) (p : IsPacket src)
      → n < 80
      → IsFrame (take n src) frame rest
      → ((items : List CameraPacket) × (end : End) × Receives
            (decode c)
            []
            (src ∷ [])
            (auth (shown p.username_part) (shown p.access_part) ∷ items)
            end)
        × ((items : List CameraPacket) × (end : End) × Receives
              (decode c)
              []
              (take n src ∷ drop n src ∷ [])
              (jpeg frame ∷ items)
              end)
  decode_cut src n frame rest p small is = (
    Receives-first doc src p.rest [] _
        (decode-credentials doc src p.rest _ _ (IsPacket-decode doc p)),
    Receives-first doc (take n src) rest (drop n src ∷ []) (jpeg frame) (
        decode-frame doc (take n src) rest frame
          (decode_auth-short doc (take n src) (omega (arith, length-take n src)))
          (IsFrame-decode doc (take n src) frame rest is)),
  )
