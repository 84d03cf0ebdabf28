-- ===== src/Camera/Codec.antt =====
-- src/camera/codec.rs: the codec of the camera's stream. A decoder over `&mut BytesMut` is a method
-- on the bytes in the buffer.
use bambu_rs.Prelude.{
  ℕ, ◌+◌, ◌-◌, ◌&&◌, Option, none, some, [], ◌∷◌, ◌++◌, Bytes, length, take, replicate, min, leb,
  ◌==◌, if◌then◌else◌,
}
use bambu_rs.Outcome.{unwrap}
use bambu_rs.Exec.{Exec, pure, lift, gets, put, ◌>>=◌, ◌>>◌}
use bambu_rs.Crates.{Crates}
use bambu_rs.Text.Slice.{slice, slice_from, u32_from_le_bytes, u32_to_le_bytes}
use bambu_rs.Text.Utf8.{from_utf8_lossy}
use bambu_rs.Text.Trim.{trim_end_matches}

-- JPEG start.
abbrev pub jpeg_start_marker : Bytes
jpeg_start_marker = 0xff ∷ 0xd8 ∷ 0xff ∷ 0xe0 ∷ []

-- JPEG end.
abbrev pub jpeg_end_marker : Bytes
jpeg_end_marker = 0xff ∷ 0xd9 ∷ []

pub data CameraPacket : Type 0 where
  -- the user name and the access code
  auth : Bytes → Bytes → CameraPacket
  jpeg : Bytes → CameraPacket

-- `let mut buffer = [0u8; 32]; buffer[..len].copy_from_slice(&text[..len])`
unfoldable pub padded : Bytes → Bytes
padded text = let len = min (length text) 32 in take len text ++ replicate (32 - len) 0

module _ (c : Crates) where
  -- `src.split_to(at)`
  abbrev pub split_to : ℕ → Exec Bytes Bytes
  split_to at = do
    src ← gets (λ s. s)
    cut ← lift (unwrap (c.split_to src at))
    put cut.1
    pure cut.0

  unfoldable pub find_subsequence : Bytes → Bytes → Option ℕ
  find_subsequence haystack needle = c.find haystack needle

  -- the steps 3 to 5, once both markers are found
  abbrev pub take_frame : ℕ → ℕ → Exec Bytes (Option Bytes)
  take_frame start_idx end_idx = do
    head ← split_to end_idx
    frame ← lift (unwrap (c.split_off head start_idx))
    pure (some frame.0)

  unfoldable pub decode_jpeg_packet : Exec Bytes (Option Bytes)
  unfolding find_subsequence
  decode_jpeg_packet = do
    src ← gets (λ s. s)
    elim (find_subsequence src jpeg_start_marker) [
      | none ↦ pure none
      | some start_idx ↦ do
        let search_start = start_idx + length jpeg_start_marker
        tail ← lift (slice_from src search_start)
        elim (find_subsequence tail jpeg_end_marker) [
          | none ↦ pure none
          | some end_rel_idx ↦
              take_frame start_idx (search_start + end_rel_idx + length jpeg_end_marker)
        ]
    ]

  -- the credentials of a packet whose header was recognised
  abbrev pub take_credentials : Exec Bytes (Option (Bytes × Bytes))
  take_credentials = do
    src ← gets (λ s. s)
    username_part ← lift (slice src 16 48)
    access_part ← lift (slice src 48 80)
    let username = trim_end_matches 0 (from_utf8_lossy username_part)
    let access_code = trim_end_matches 0 (from_utf8_lossy access_part)
    _raw ← split_to 80
    pure (some (username, access_code))

  -- `u32::from_le_bytes(src[from..to].try_into().unwrap())`
  abbrev pub read_u32 : ℕ → ℕ → Exec Bytes ℕ
  read_u32 from to = do
    src ← gets (λ s. s)
    field ← lift (slice src from to)
    lift (u32_from_le_bytes field)

  unfoldable pub decode_auth_packet : Exec Bytes (Option (Bytes × Bytes))
  decode_auth_packet = do
    src ← gets (λ s. s)
    if leb 80 (length src)
        then (do
          magic_1 ← read_u32 0 4
          magic_2 ← read_u32 4 8
          zero_1 ← read_u32 8 12
          zero_2 ← read_u32 12 16
          if magic_1 == 64 && magic_2 == 12288 && zero_1 == 0 && zero_2 == 0
              then take_credentials
              else pure none)
        else pure none

  -- `Decoder::decode`
  unfoldable pub decode : Exec Bytes (Option CameraPacket)
  decode = do
    credentials ← decode_auth_packet
    elim credentials [
      | some (username, access_code) ↦ pure (some (auth username access_code))
      | none ↦ do
        frame ← decode_jpeg_packet
        elim frame [ none ↦ pure none | some bytes ↦ pure (some (jpeg bytes)) ]
    ]

  -- `dst.extend_from_slice(bytes)`
  abbrev pub extend : Bytes → Exec Bytes (Unit {0})
  extend bytes = do dst ← gets (λ s. s); put (c.extend_from_slice dst bytes)

  -- `Encoder::encode`
  unfoldable pub encode : CameraPacket → Exec Bytes (Unit {0})
  encode (auth username access_code) = do
    extend (u32_to_le_bytes 0x40)
    extend (u32_to_le_bytes 0x3000)
    extend (u32_to_le_bytes 0)
    extend (u32_to_le_bytes 0)
    extend (padded username)
    extend (padded access_code)
  encode (jpeg bytes) = extend bytes
