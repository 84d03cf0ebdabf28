-- ===== src/Camera/Chunks.antt =====
-- The decoder of src/camera/codec.rs on a stream that comes in pieces.
use bambu_rs.Prelude.{
  ℕ, ◌<◌, ◌≡◌, ◌≢◌, ◌⊎◌, inl, inr, refl, sym, ap, ap₂, subst, ◌∙◌, Option, none, some, List, [],
  ◌∷◌, ◌++◌, arith, Bytes, All, All-append, Lacks, length, append-nil, append_assoc, length-append,
}
use bambu_rs.Outcome.{Outcome, ok}
use bambu_rs.Crates.{Crates, Documented, first_match-Lacks}
use bambu_rs.Text.Utf8.Never.{IsUtf8-Lacks}
use bambu_rs.Framed.{
  End, left, concat, Drains, Receives, Prefix, waiting, deciding, Incremental, Drains-Receives,
}
use bambu_rs.Framed
use bambu_rs.Camera.Codec.{
  CameraPacket, auth, jpeg, padded, decode, decode_auth_packet, decode_jpeg_packet,
}
use bambu_rs.Camera.Frames.{
  Taken, taken, waits, decode_jpeg-Taken, decode_jpeg-append, IsFrame-decode, no_start,
}
use bambu_rs.Camera.Auth.{
  header, auth_bytes, Fits, decode_auth-short, decode_auth-other, length-padded,
}
use bambu_rs.Camera.Stream.{decode-waits, padded-Lacks}
use bambu_rs.Camera.Playback.{
  IsSendable, encode_all, bytes_of, stream_of, encode_all-stream_of, decode-bytes_of, image-IsFrame,
  Plays, stop, next, Plays-encode_all,
}

-- Of two splits of one text, one first part begins with the other.
split_compare :
    (a b c d : Bytes)
    → a ++ b ≡ c ++ d
    → ((m : Bytes) × (a ≡ c ++ m) × (d ≡ m ++ b))
      ⊎ ((m : Bytes) × (c ≡ a ++ m) × (m ≢ []) × (b ≡ m ++ d))
split_compare [] b [] d e = inl ([], refl, sym e)
split_compare [] b (x ∷ c) d e = inr (x ∷ c, refl, λ h. cc, e)
split_compare (x ∷ a) b [] d e = inl (x ∷ a, refl, sym e)
split_compare (x ∷ a) b (y ∷ c) d e =
    let heads : x ≡ y = cc in
    elim (split_compare a b c d (cc)) [
      | inl (m, f, g) ↦ inl (m, ap₂ ◌∷◌ heads f, g)
      | inr (m, f, n, g) ↦ inr (m, ap₂ ◌∷◌ (sym heads) f, n, g)
    ]

front_Lacks : (x : ℕ) (a b : Bytes) → Lacks x (a ++ b) → Lacks x a
front_Lacks x [] b h = tt
front_Lacks x (c ∷ a) b (hc, hs) = (hc, front_Lacks x a b hs)

nonempty : (m : Bytes) → m ≢ [] → 0 < length m
nonempty [] h = absurd (h refl)
nonempty (c ∷ m) h = omega arith

auth_bytes-Lacks : (u a : Bytes) → Fits u → Fits a → Lacks 0xff (auth_bytes u a)
auth_bytes-Lacks u a fu fa = All-append _ header (padded u ++ padded a) (omega arith) (
    All-append _ (padded u) (padded a) (padded-Lacks u (IsUtf8-Lacks u fu.text))
      (padded-Lacks a (IsUtf8-Lacks a fa.text)))

length-auth_bytes : (u a : Bytes) → length (auth_bytes u a) ≡ 80
length-auth_bytes u a = omega (
  arith,
  length-append header (padded u ++ padded a),
  length-append (padded u) (padded a),
  length-padded u,
  length-padded a,
)

module _ {c : Crates} (doc : Documented c) where
  auth_prefix :
      (u a buf m : Bytes)
      → Fits u
      → Fits a
      → auth_bytes u a ≡ buf ++ m
      → m ≢ []
      → decode c buf ≡ (ok none, buf)
  auth_prefix u a buf m fu fa e ne =
      let short : length buf < 80 =
        omega (arith, ap length e, length-auth_bytes u a, length-append buf m, nonempty m ne) in
      let clean : Lacks 0xff buf =
        front_Lacks 0xff buf m (subst (Lacks 0xff) e (auth_bytes-Lacks u a fu fa)) in
      decode-waits doc buf (decode_auth-short doc buf (omega arith))
        (no_start doc buf (first_match-Lacks 0xff _ buf clean))

  -- The first part of an image is no image.
  jpeg_prefix_frame :
      (b buf m : Bytes)
      → IsSendable (jpeg b)
      → b ≡ buf ++ m
      → m ≢ []
      → decode_jpeg_packet c buf ≡ (ok none, buf)
  jpeg_prefix_frame b buf m sendable e ne = go (decode_jpeg-Taken doc buf)
    where
      whole : decode_jpeg_packet c (b ++ []) ≡ (ok (some b), [])
      whole = IsFrame-decode doc (b ++ []) b [] (image-IsFrame doc b [] sendable)

      same : b ++ [] ≡ buf ++ m
      same = append-nil b ∙ e

      rest_nil : (x y : Bytes) → x ++ y ≡ [] → y ≡ []
      rest_nil [] y h = h
      rest_nil (z ∷ x) y h = absurd (ground arith)

      go : Taken buf (decode_jpeg_packet c buf) → decode_jpeg_packet c buf ≡ (ok none, buf)
      go (waits h) = h
      go (taken frame rest h is) =
          let later = decode_jpeg-append doc buf frame rest m h in
          let ends : rest ++ m ≡ [] =
            ap (λ (r : Outcome (Option Bytes) × Bytes). r.1)
              (sym later ∙ ap (decode_jpeg_packet c) (sym same) ∙ whole) in
          absurd (ne (rest_nil rest m ends))

  jpeg_prefix_auth :
      (b buf m : Bytes)
      → IsSendable (jpeg b)
      → b ≡ buf ++ m
      → decode_auth_packet c buf ≡ (ok none, buf)
  jpeg_prefix_auth b [] m h e = decode_auth-short doc [] (omega arith)
  jpeg_prefix_auth b (x ∷ []) m h e = decode_auth-short doc (x ∷ []) (omega arith)
  jpeg_prefix_auth b (x ∷ y ∷ []) m h e = decode_auth-short doc (x ∷ y ∷ []) (omega arith)
  jpeg_prefix_auth b (x ∷ y ∷ z ∷ []) m h e = decode_auth-short doc (x ∷ y ∷ z ∷ []) (omega arith)
  jpeg_prefix_auth b (x ∷ y ∷ z ∷ w ∷ s) m (body, shape, _) e =
      let begins : 0xff ≡ x = first_of (sym shape ∙ e) in
      decode_auth-other doc x y z w s (omega arith) (omega arith)
    where
      first_of : {a b : ℕ} {s t : Bytes} → a ∷ s ≡ b ∷ t → a ≡ b
      first_of h = cc

  jpeg_prefix :
      (b buf m : Bytes)
      → IsSendable (jpeg b)
      → b ≡ buf ++ m
      → m ≢ []
      → decode c buf ≡ (ok none, buf)
  jpeg_prefix b buf m sendable e ne =
      decode-waits doc buf (jpeg_prefix_auth b buf m sendable e)
        (jpeg_prefix_frame b buf m sendable e ne)

  packet_prefix :
      (p : CameraPacket) (buf m : Bytes)
      → IsSendable p
      → bytes_of p ≡ buf ++ m
      → m ≢ []
      → decode c buf ≡ (ok none, buf)
  packet_prefix (auth u a) buf m (fu, fa) e ne = auth_prefix u a buf m fu fa e ne
  packet_prefix (jpeg b) buf m h e ne = jpeg_prefix b buf m h e ne

  -- The bytes of packets that can be sent.
  abbrev Sent : Bytes → Type 0
  Sent src = (ps : List CameraPacket) × All IsSendable ps × (src ≡ stream_of ps)

  decode-Incremental : Incremental (decode c) Sent
  decode-Incremental buf more ([], _, e) =
      waiting (subst (λ s. decode c s ≡ (ok none, s)) (sym (front_nil buf more e)) decode-nil)
    where
      front_nil : (x y : Bytes) → x ++ y ≡ [] → x ≡ []
      front_nil [] y h = refl
      front_nil (z ∷ x) y h = absurd (ground arith)

      decode-nil : decode c [] ≡ (ok none, [])
      decode-nil =
          decode-waits doc [] (decode_auth-short doc [] (omega arith))
            (no_start doc [] (first_match-Lacks 0xff _ [] tt))
  decode-Incremental buf more (p ∷ ps, (h, hs), e) =
      go (split_compare buf more (bytes_of p) (stream_of ps) e)
    where
      go :
          ((m : Bytes) × (buf ≡ bytes_of p ++ m) × (stream_of ps ≡ m ++ more))
            ⊎ ((m : Bytes) × (bytes_of p ≡ buf ++ m) × (m ≢ []) × (more ≡ m ++ stream_of ps))
          → Prefix (decode c) Sent buf more
      go (inr (m, f, ne, _)) = waiting (packet_prefix p buf m h f ne)
      go (inl (m, f, g)) =
          deciding (ok (some p)) m (λ q. cc) (ap (decode c) f ∙ decode-bytes_of doc p m h)
            (ap (λ t. decode c (t ++ more)) f
              ∙ ap (decode c) (append_assoc (bytes_of p) m more)
              ∙ decode-bytes_of doc p (m ++ more) h)
            (ps, hs, sym g)

  Plays-Drains :
      {src over : Bytes} {ps : List CameraPacket}
      → Plays c src ps over
      → Drains (decode c) src ps (left over)
  Plays-Drains (stop h) = Framed.waits h
  Plays-Drains (next h r) = Framed.item h (Plays-Drains r)

  -- Take any list of packets in which each user name and access code is UTF-8 of at most 32 bytes
  -- that does not end in a zero, and each image begins with the start marker and has the end marker
  -- at its end and, behind the start marker, nowhere before. However the bytes that the encoder
  -- writes for them are cut into pieces on the way, the decoder yields these packets, in order, and
  -- has nothing left over.
  pub Receives-encode_all :
      (ps : List CameraPacket) (chunks : List Bytes)
      → All IsSendable ps
      → concat chunks ≡ encode_all c ps []
      → Receives (decode c) [] chunks ps (left [])
  Receives-encode_all ps chunks h e =
      Drains-Receives (decode c) Sent decode-Incremental (Plays-Drains (Plays-encode_all doc ps h))
        [] chunks (sym e) (ps, h, encode_all-stream_of doc ps [])
