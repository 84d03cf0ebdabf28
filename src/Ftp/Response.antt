-- ===== src/Ftp/Response.antt =====
-- `FtpResponse` of src/file/ftp/codec.rs and its parser. The flag `checks` says whether the build
-- checks arithmetic for overflow (a debug build does and panics, a release build wraps around).
use bambu_rs.Prelude.{
  ℕ, ◌+◌, ◌*◌, ◌%◌, ◌^◌, Bool, true, false, ◌||◌, Option, none, some, List, [], ◌∷◌, Bytes, ltb,
  ◌==◌, if◌then◌else◌,
}
use bambu_rs.Outcome.{Outcome, ok, err, panic, ok_or, invalid_data, invalid_number, ◌>>=◌}
use bambu_rs.Crates.{Crates}
use bambu_rs.Text.Slice.{slice, slice_from}
use bambu_rs.Text.Decimal.{parse}
use bambu_rs.Text.Split.{splitn_2, split}

pub data IpAddr : Type 0 where
  v4 : ℕ → ℕ → ℕ → ℕ → IpAddr
  -- the 128 bits
  v6 : ℕ → IpAddr

pub record SocketAddr : Type 0 where
  pub ip : IpAddr
  pub port : ℕ

pub data FtpResponse : Type 0 where
  file_status_okay : Bytes → FtpResponse
  service_ready : Bytes → FtpResponse
  command_okay : Bytes → FtpResponse
  closing_control_connection : Bytes → FtpResponse
  closing_data_connection : Bytes → FtpResponse
  user_logged_in : Bytes → FtpResponse
  user_name_okay_need_password : Bytes → FtpResponse
  file_action_okay : Bytes → FtpResponse
  entering_passive_mode : SocketAddr → FtpResponse
  command_not_implemented : Bytes → FtpResponse
  bad_sequence_of_commands : Bytes → FtpResponse
  file_unavailable : Bytes → FtpResponse
  directory_action_okay : Bytes → FtpResponse
  other : ℕ → Bytes → FtpResponse

-- `u16` multiplication and addition.
unfoldable pub mul_u16 : Bool → ℕ → ℕ → Outcome ℕ
mul_u16 checks a b =
    if ltb (a * b) (2 ^ 16) then ok (a * b) else if checks then panic else ok (a * b % 2 ^ 16)

unfoldable pub add_u16 : Bool → ℕ → ℕ → Outcome ℕ
add_u16 checks a b =
    if ltb (a + b) (2 ^ 16) then ok (a + b) else if checks then panic else ok ((a + b) % 2 ^ 16)

-- `part.parse::<u8>().map_err(…)?` and the same for `u16`
abbrev pub number : ℕ → Bytes → Outcome ℕ
number bound part = ok_or (parse bound part) invalid_number

-- the six numbers of the reply
unfoldable pub parse_address : Bool → List Bytes → Outcome FtpResponse
unfolding mul_u16 add_u16
parse_address checks (a ∷ b ∷ c ∷ d ∷ hi ∷ lo ∷ []) = do
  a ← number (2 ^ 8) a
  b ← number (2 ^ 8) b
  c ← number (2 ^ 8) c
  d ← number (2 ^ 8) d
  port_hi ← number (2 ^ 16) hi
  port_lo ← number (2 ^ 16) lo
  high ← mul_u16 checks port_hi 256
  port ← add_u16 checks high port_lo
  ok (entering_passive_mode (record { ip = v4 a b c d; port = port }))
parse_address checks _ = err (invalid_data "Invalid PASV response")

abbrev pub is_some {ℓ} : {A : Type ℓ} → Option A → Bool
is_some none = false
is_some (some _) = true

-- `unwrap_or("")`
abbrev pub or_empty : Option Bytes → Bytes
or_empty none = []
or_empty (some s) = s

-- `memchr(b, s).is_some()`
abbrev pub has : Crates → ℕ → Bytes → Bool
has c b s = is_some (c.memchr b s)

module _ (c : Crates) (checks : Bool) where
  -- the parts of the message before, between and behind the two parentheses
  unfoldable pub parse_parts : Bytes → Bytes → Bytes → Outcome FtpResponse
  parse_parts before inside after =
      if has c b'(' inside
        || has c b')' inside
        || has c b'(' after
        || has c b')' before
        || has c b')' after
      then err (invalid_data "Invalid PASV response")
      else parse_address checks (split b',' inside)

  -- the arm for 227
  unfoldable pub parse_passive : Bytes → Outcome FtpResponse
  unfolding parse_parts
  parse_passive message = do
    start ← ok_or (c.memchr b'(' message) (invalid_data "Missing '(' in PASV response")
    rest ← slice_from message start
    end_rel ← ok_or (c.memchr b')' rest) (invalid_data "Missing ')' in PASV response")
    let end = start + end_rel
    if end == start then err (invalid_data "Invalid PASV response") else do
      before ← slice message 0 start
      inside ← slice message (start + 1) end
      after ← slice_from message (end + 1)
      parse_parts before inside after

  -- `match code`
  unfoldable pub classify : ℕ → Bytes → Outcome FtpResponse
  classify code message =
      if code == 150
      then ok (file_status_okay message)
      else if code == 220
      then ok (service_ready message)
      else if code == 200
      then ok (command_okay message)
      else if code == 226
      then ok (closing_data_connection message)
      else if code == 230
      then ok (user_logged_in message)
      else if code == 331
      then ok (user_name_okay_need_password message)
      else if code == 250
      then ok (file_action_okay message)
      else if code == 227
      then parse_passive message
      else if code == 221
      then ok (closing_control_connection message)
      else if code == 502
      then ok (command_not_implemented message)
      else if code == 503
      then ok (bad_sequence_of_commands message)
      else if code == 550
      then ok (file_unavailable message)
      else if code == 257
      then ok (directory_action_okay message)
      else ok (other code message)

  unfoldable pub from_response_string : Bytes → Outcome FtpResponse
  unfolding classify parse_passive
  from_response_string response = do
    let parts = splitn_2 b' ' response
    code ← ok_or (parse (2 ^ 16) parts.0) (invalid_data "Invalid response code")
    classify code (or_empty parts.1)
