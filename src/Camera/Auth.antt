-- ===== src/Camera/Auth.antt =====
-- The authentication packet of src/camera/codec.rs: what `encode` writes and `decode` reads.
mod Packet
pub use Packet.*
use bambu_rs.Prelude.{
  ℕ, ◌+◌, ◌-◌, ◌≤◌, ◌<◌, ◌≡◌, ◌≢◌, refl, sym, ap, ap₂, ◌∙◌, inl, inr, true, Option, none, some, [],
  ◌∷◌, ◌++◌, arith, Bytes, All, length, take, drop, replicate, min, length-append, length-take,
  length-drop, length-replicate, take-append, drop-append, take_all, append_assoc, All-drop,
  drop-drop, take-append-drop, le→leb, ◌==◌, ◌&&◌, ◌*◌, if◌then◌else◌, lt→leb, Bool-cases,
}
use native.Mathlib.Decide.{dec_lt}
use bambu_rs.Outcome.{Outcome, ok}
use bambu_rs.Exec.{pure}
use bambu_rs.Crates.{Crates, Documented}
use bambu_rs.Text.Slice.{
  slice-eq, u32_from_le_bytes, u32_from_le_bytes_total, u32_from_le_bytes_inv, IsByte,
}
use bambu_rs.Text.Utf8.{from_utf8_lossy, IsUtf8}
use bambu_rs.Text.Utf8.Padding.{from_utf8_lossy-padded}
use bambu_rs.Text.Trim.{trim_end_matches, EndsOtherThan, trim-append-replicate}
use bambu_rs.Camera.Codec.{auth, padded, decode_auth_packet, take_credentials, encode}

module _ {c : Crates} (doc : Documented c) where
  -- Less than 80 bytes are no packet.
  pub decode_auth-short :
      (src : Bytes) → length src < 80 → decode_auth_packet c src ≡ (ok none, src)
  unfolding decode_auth_packet
  decode_auth-short src h = rw (lt→leb 80 (length src) h)

  pub take_credentials-eq :
      (src : Bytes)
      → 80 ≤ length src
      → take_credentials c src
        ≡ (ok (some (shown (take 32 (drop 16 src)), shown (take 32 (drop 48 src)))), drop 80 src)
  take_credentials-eq src h = rw (
    slice-eq src 16 48 (omega arith) (omega arith),
    slice-eq src 48 80 (omega arith) (omega arith),
    doc.split_to_lem src 80 h,
  )

  -- Eighty bytes are a packet if the first four words are the ones expected.
  pub decode_auth-long :
      (src : Bytes) (m n y z : ℕ)
      → 80 ≤ length src
      → u32_from_le_bytes (take 4 src) ≡ ok m
      → u32_from_le_bytes (take 4 (drop 4 src)) ≡ ok n
      → u32_from_le_bytes (take 4 (drop 8 src)) ≡ ok y
      → u32_from_le_bytes (take 4 (drop 12 src)) ≡ ok z
      → decode_auth_packet c src
        ≡ (if m == 64 && n == 12288 && y == 0 && z == 0 then take_credentials c else pure none) src
  unfolding decode_auth_packet
  decode_auth-long src m n y z h hm hn hy hz = rw (
    le→leb 80 (length src) h,
    slice-eq src 0 4 (omega arith) (omega arith),
    hm,
    slice-eq src 4 8 (omega arith) (omega arith),
    hn,
    slice-eq src 8 12 (omega arith) (omega arith),
    hy,
    slice-eq src 12 16 (omega arith) (omega arith),
    hz,
  )

  -- The packet is recognised by its first sixteen bytes.
  decode_auth-header :
      (s : Bytes)
      → 64 ≤ length s
      → decode_auth_packet c (header ++ s)
        ≡ (ok (some (shown (take 32 s), shown (take 32 (drop 32 s)))), drop 64 s)
  unfolding u32_from_le_bytes
  decode_auth-header s h =
      decode_auth-long (header ++ s) 64 12288 0 0 (omega arith) refl refl refl refl
      ∙ take_credentials-eq (header ++ s) (omega arith)

  -- A buffer that starts with another word is no packet.
  pub decode_auth-other :
      (a b d e : ℕ) (s : Bytes)
      → a ≢ 64
      → a < 256
      → decode_auth_packet c (a ∷ b ∷ d ∷ e ∷ s) ≡ (ok none, a ∷ b ∷ d ∷ e ∷ s)
  unfolding u32_from_le_bytes
  decode_auth-other a b d e s ne small = elim (dec_lt (length s) 76) [
    | yes h ↦ decode_auth-short (a ∷ b ∷ d ∷ e ∷ s) (omega arith)
    | no h ↦
        let src = a ∷ b ∷ d ∷ e ∷ s in
        let (n, en) = word src 4 (omega arith) in
        let (y, ey) = word src 8 (omega arith) in
        let (z, ez) = word src 12 (omega arith) in
        decode_auth-long src (a + 256 * b + 65536 * d + 16777216 * e) n y z (omega arith) refl en ey
          ez
        ∙ ground arith
  ]

  -- A packet in front of the buffer is taken.
  pub IsPacket-decode :
      {src : Bytes} (p : IsPacket src)
      → decode_auth_packet c src ≡ (ok (some (shown p.username_part, shown p.access_part)), p.rest)
  IsPacket-decode p =
      let u = p.username_part in
      let a = p.access_part in
      let r = p.rest in
      let nu = p.username_length in
      let na = p.access_length in
      let s = u ++ (a ++ r) in
      let tail : drop 32 s ≡ a ++ r = drop-append u (a ++ r) 32 (sym nu) in
      ap (decode_auth_packet c) p.splits
      ∙ decode_auth-header s (omega (arith, length-append u (a ++ r), length-append a r, nu, na))
      ∙ ap₂ (λ (x : Bytes × Bytes) (y : Bytes). (ok (some x), y))
          (ap₂ (λ (x y : Bytes). (shown x, shown y)) (take-append u (a ++ r) 32 (sym nu))
            (ap (take 32) tail ∙ take-append a r 32 (sym na)))
          (sym (drop-drop 32 32 64 s refl) ∙ ap (drop 32) tail ∙ drop-append a r 32 (sym na))

  -- `decode_auth_packet` takes exactly the packets, and leaves every other buffer as it is.
  pub decode_auth-Accepted :
      (src : Bytes) → All IsByte src → Accepted src (decode_auth_packet c src)
  decode_auth-Accepted src bytes = elim (dec_lt (length src) 80) [
    | yes h ↦ refused (λ p. omega (arith, IsPacket-length p)) (decode_auth-short src h)
    | no h ↦
        let (m, em) = word src 0 (omega arith) in
        let (n, en) = word src 4 (omega arith) in
        let (y, ey) = word src 8 (omega arith) in
        let (z, ez) = word src 12 (omega arith) in
        let e = decode_auth-long src m n y z (omega arith) em en ey ez in
        elim (Bool-cases (m == 64 && n == 12288 && y == 0 && z == 0)) [
          | inl t ↦
              let (tm, tn, ty, tz) = all_four m n y z t in
              let p =
                words-IsPacket src bytes (omega arith) (em ∙ ap ok tm) (en ∙ ap ok tn)
                  (ey ∙ ap ok ty) (ez ∙ ap ok tz) in
              accepted p (IsPacket-decode p)
          | inr t ↦ refused (λ p. not_both {s = src} (e ∙ rw t) (IsPacket-decode p)) (e ∙ rw t)
        ]
  ]

-- What `encode` writes is a packet, with anything behind it.
abbrev pub auth_bytes-IsPacket :
    (username access_code rest : Bytes) → IsPacket (auth_bytes username access_code ++ rest)
auth_bytes-IsPacket u p rest = record {
  username_part = padded u;
  access_part = padded p;
  rest = rest;
  splits = ap (λ t. header ++ t) (append_assoc (padded u) (padded p) rest);
  username_length = length-padded u;
  access_length = length-padded p;
}

-- A field is read back if it is a text of at most 32 bytes that does not end in a zero.
pub record Fits (s : Bytes) : Type 0 where
  pub text : IsUtf8 s
  pub short : length s ≤ 32
  pub trimmed : EndsOtherThan 0 s

pub shown-padded : (s : Bytes) → Fits s → shown (padded s) ≡ s
unfolding padded
shown-padded s f =
    let n : min (length s) 32 ≡ length s = omega (arith, f.short) in
    ap (λ m. shown (take m s ++ replicate (32 - m) 0)) n
    ∙ ap (λ t. shown (t ++ replicate (32 - length s) 0)) (take_all s (length s) (omega arith))
    ∙ ap (trim_end_matches 0) (from_utf8_lossy-padded s (32 - length s) f.text)
    ∙ trim-append-replicate 0 (32 - length s) s f.trimmed
