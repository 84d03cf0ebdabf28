-- ===== src/Ftp/Codec.antt =====
-- `FtpCodec` of src/file/ftp/codec.rs.
use bambu_rs.Prelude.{ℕ, Bool, Option, none, some, [], ◌∷◌, Bytes}
use bambu_rs.Outcome.{unwrap}
use bambu_rs.Exec.{Exec, pure, lift, gets, put, ◌>>=◌, ◌>>◌}
use bambu_rs.Crates.{Crates}
use bambu_rs.Text.Utf8.{from_utf8}
use bambu_rs.Ftp.Request.{FtpRequest, to_command_string}
use bambu_rs.Ftp.Response.{FtpResponse, from_response_string}

abbrev pub crlf : Bytes
crlf = 0x0d ∷ 0x0a ∷ []

module _ (c : Crates) where
  -- `dst.put(bytes)`
  abbrev pub append : Bytes → Exec Bytes (Unit {0})
  append bytes = do dst ← gets (λ s. s); put (c.extend_from_slice dst bytes)

  -- `Encoder::encode`. `dst.reserve(…)` changes the capacity alone.
  unfoldable pub encode : FtpRequest → Exec Bytes (Unit {0})
  encode item = do let command = to_command_string item; append command; append crlf

  -- `src.split_to(pos)`
  abbrev pub split_to : ℕ → Exec Bytes Bytes
  split_to pos = do
    src ← gets (λ s. s)
    cut ← lift (unwrap (c.split_to src pos))
    put cut.1
    pure cut.0

  -- `src.advance(2)`
  abbrev pub advance : ℕ → Exec Bytes (Unit {0})
  advance n = do src ← gets (λ s. s); left ← lift (unwrap (c.advance src n)); put left

  -- `Decoder::decode`
  unfoldable pub decode : Bool → Exec Bytes (Option FtpResponse)
  decode checks = do
    src ← gets (λ s. s)
    elim (c.find src crlf) [
      | none ↦ pure none
      | some pos ↦ do
        line ← split_to pos
        advance 2
        text ← lift (from_utf8 line)
        response ← lift (from_response_string c checks text)
        pure (some response)
    ]
