-- ===== src/Camera/Auth/Packet.antt =====
-- The layout of an authentication packet, as src/camera/codec.rs writes it.
use bambu_rs.Prelude.{
  ℕ, ◌+◌, ◌-◌, ◌≤◌, ◌<◌, ◌≡◌, refl, sym, ap, ◌∙◌, true, Option, none, some, [], ◌∷◌, ◌++◌, arith,
  Bytes, All, length, take, drop, replicate, min, length-append, length-take, length-drop,
  length-replicate, append_assoc, All-drop, drop-drop, take-append-drop, ◌==◌, ◌&&◌,
}
use bambu_rs.Outcome.{Outcome, ok}
use bambu_rs.Crates.{Crates, Documented}
use bambu_rs.Text.Slice.{u32_from_le_bytes, u32_from_le_bytes_total, u32_from_le_bytes_inv, IsByte}
use bambu_rs.Text.Utf8.{from_utf8_lossy}
use bambu_rs.Text.Trim.{trim_end_matches}
use bambu_rs.Camera.Codec.{auth, padded, encode}

-- The sixteen bytes in front of the credentials.
abbrev pub header : Bytes
header = 0x40 ∷ 0 ∷ 0 ∷ 0 ∷ 0 ∷ 0x30 ∷ 0 ∷ 0 ∷ 0 ∷ 0 ∷ 0 ∷ 0 ∷ 0 ∷ 0 ∷ 0 ∷ 0 ∷ []

-- The whole packet.
abbrev pub auth_bytes : Bytes → Bytes → Bytes
auth_bytes username access_code = header ++ (padded username ++ padded access_code)

-- What the reader makes of 32 bytes.
abbrev pub shown : Bytes → Bytes
shown part = trim_end_matches 0 (from_utf8_lossy part)

pub length-padded : (s : Bytes) → length (padded s) ≡ 32
unfolding padded
length-padded s =
    let n = min (length s) 32 in
    omega (
      arith,
      length-append (take n s) (replicate (32 - n) 0),
      length-take n s,
      length-replicate {A = ℕ} (32 - n) 0,
    )

pub encode-auth :
    {c : Crates}
    → Documented c
    → (username access_code dst : Bytes)
    → encode c (auth username access_code) dst ≡ (ok tt, dst ++ auth_bytes username access_code)
unfolding encode
encode-auth doc u p dst = simp (doc.extend_from_slice_lem, append_assoc)

pub word :
    (src : Bytes) (from : ℕ)
    → from + 4 ≤ length src
    → (n : ℕ) × (u32_from_le_bytes (take 4 (drop from src)) ≡ ok n)
word src from h =
    u32_from_le_bytes_total (take 4 (drop from src))
      (omega (arith, length-take 4 (drop from src), length-drop from src))

-- The buffer starts with the sixteen bytes of the header and two fields of 32 bytes.
pub record IsPacket (src : Bytes) : Type 0 where
  pub username_part : Bytes
  pub access_part : Bytes
  pub rest : Bytes
  pub splits : src ≡ header ++ (username_part ++ (access_part ++ rest))
  pub username_length : length username_part ≡ 32
  pub access_length : length access_part ≡ 32

pub IsPacket-length : {src : Bytes} → IsPacket src → 80 ≤ length src
IsPacket-length p = rw p.splits (
    omega (
      arith,
      p.username_length,
      p.access_length,
      length-append p.username_part (p.access_part ++ p.rest),
      length-append p.access_part p.rest,
    ))

-- Sixteen bytes that spell the four words are the header.
pub words-IsPacket :
    (src : Bytes)
    → All IsByte src
    → 80 ≤ length src
    → u32_from_le_bytes (take 4 src) ≡ ok 64
    → u32_from_le_bytes (take 4 (drop 4 src)) ≡ ok 12288
    → u32_from_le_bytes (take 4 (drop 8 src)) ≡ ok 0
    → u32_from_le_bytes (take 4 (drop 12 src)) ≡ ok 0
    → IsPacket src
words-IsPacket src bytes long w x y z =
    let at : (n : ℕ) → All IsByte (drop n src) = λ n. All-drop IsByte n src bytes in
    let e0 = u32_from_le_bytes_inv src 64 bytes w in
    let e1 =
      u32_from_le_bytes_inv (drop 4 src) 12288 (at 4) x
      ∙ ap (λ t. 0 ∷ 48 ∷ 0 ∷ 0 ∷ t) (drop-drop 4 4 8 src refl) in
    let e2 =
      u32_from_le_bytes_inv (drop 8 src) 0 (at 8) y
      ∙ ap (λ t. 0 ∷ 0 ∷ 0 ∷ 0 ∷ t) (drop-drop 4 8 12 src refl) in
    let e3 =
      u32_from_le_bytes_inv (drop 12 src) 0 (at 12) z
      ∙ ap (λ t. 0 ∷ 0 ∷ 0 ∷ 0 ∷ t) (drop-drop 4 12 16 src refl) in
    let fields : drop 16 src ≡ take 32 (drop 16 src) ++ (take 32 (drop 48 src) ++ drop 80 src) =
      sym (take-append-drop 32 (drop 16 src))
      ∙ ap (λ t. take 32 (drop 16 src) ++ t)
          (drop-drop 32 16 48 src refl
            ∙ sym (take-append-drop 32 (drop 48 src))
            ∙ ap (λ t. take 32 (drop 48 src) ++ t) (drop-drop 32 48 80 src refl)) in
    record {
      username_part = take 32 (drop 16 src);
      access_part = take 32 (drop 48 src);
      rest = drop 80 src;
      splits =
          e0
          ∙ ap (λ t. 64 ∷ 0 ∷ 0 ∷ 0 ∷ t)
              (e1 ∙ ap (λ t. 0 ∷ 48 ∷ 0 ∷ 0 ∷ t) (e2 ∙ ap (λ t. 0 ∷ 0 ∷ 0 ∷ 0 ∷ t) e3))
          ∙ ap (λ t. header ++ t) fields;
      username_length = omega (arith, length-take 32 (drop 16 src), length-drop 16 src);
      access_length = omega (arith, length-take 32 (drop 48 src), length-drop 48 src);
    }

pub all_four :
    (m n y z : ℕ)
    → (m == 64 && n == 12288 && y == 0 && z == 0) ≡ true
    → (m ≡ 64) × (n ≡ 12288) × (y ≡ 0) × (z ≡ 0)
all_four m n y z h = ground arith

pub IsPacket-rest : {src : Bytes} (p : IsPacket src) → length p.rest < length src
IsPacket-rest p = rw p.splits (
    omega (
      arith,
      length-append p.username_part (p.access_part ++ p.rest),
      length-append p.access_part p.rest,
    ))

pub snd_of :
    {A : Type 0} {r : Outcome (Option A) × Bytes} {x y : Outcome (Option A)} {s t : Bytes}
    → r ≡ (x, s)
    → r ≡ (y, t)
    → s ≡ t
snd_of h k = ground arith

pub not_both :
    {A : Type 0} {r : Outcome (Option A) × Bytes} {a : A} {s t : Bytes}
    → r ≡ (ok none, s)
    → r ≡ (ok (some a), t)
    → ⊥
not_both h k = ground arith

pub data Accepted (src : Bytes) (r : Outcome (Option (Bytes × Bytes)) × Bytes) : Type 0 where
  accepted :
      (p : IsPacket src)
      → r ≡ (ok (some (shown p.username_part, shown p.access_part)), p.rest)
      → Accepted src r
  refused : ¬ IsPacket src → r ≡ (ok none, src) → Accepted src r
