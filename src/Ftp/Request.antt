-- ===== src/Ftp/Request.antt =====
-- `FtpRequest` of src/file/ftp/codec.rs.
use bambu_rs.Prelude.{ℕ, ◌++◌, Bytes, codes}
use bambu_rs.Text.Decimal.{display}

pub data FtpRequest : Type 0 where
  user : Bytes → FtpRequest
  pass : Bytes → FtpRequest
  quit : FtpRequest
  enter_passive_mode : FtpRequest
  list : Bytes → FtpRequest
  protection_buffer_size : ℕ → FtpRequest
  protection_level : Bytes → FtpRequest
  pwd : FtpRequest

unfoldable pub to_command_string : FtpRequest → Bytes
to_command_string (user username) = codes "USER " ++ username
to_command_string (pass password) = codes "PASS " ++ password
to_command_string quit = codes "QUIT"
to_command_string enter_passive_mode = codes "PASV"
to_command_string (list path) = codes "LIST " ++ path
to_command_string (protection_buffer_size size) = codes "PBSZ " ++ display size
to_command_string (protection_level level) = codes "PROT " ++ level
to_command_string pwd = codes "PWD"
