-- ===== src/Ftp/Metadata.antt =====
-- src/file/ftp/metadata.rs: a line of a directory listing. The crate `chrono` is a parameter: its
-- `NaiveDateTime::parse_from_str` (`none` for an error) and the year of `Local::now`.
use bambu_rs.Prelude.{
  ℕ, ◌^◌, String, Bool, false, ◌&&◌, Option, none, some, List, [], ◌∷◌, ◌++◌, Bytes, codes, length,
  get_elem?, ◌==◌, if◌then◌else◌,
}
use Prim.Native.Nat.{bit_or}
use bambu_rs.Crates.{index_of}
use bambu_rs.Text.Decimal.{parse, display}
use bambu_rs.Text.Split.{join}
use bambu_rs.Text.Words.{chars, split_whitespace}
use bambu_rs.Ftp.Response.{is_some}

-- `Result<T, String>`
pub data Parsed {ℓ} (A : Type ℓ) : Type ℓ where
  parsed : A → Parsed A
  refused : String → Parsed A

infixl 5 ◌>>=◌
abbrev pub ◌>>=◌ {ℓ κ} : {A : Type ℓ} {B : Type κ} → Parsed A → (A → Parsed B) → Parsed B
parsed a >>= f = f a
refused e >>= f = refused e

abbrev pub or_refuse {ℓ} : {A : Type ℓ} → Option A → String → Parsed A
or_refuse none e = refused e
or_refuse (some a) e = parsed a

pub record Permissions : Type 0 where
  pub directory : Bool
  pub readable : Bool
  pub writable : Bool
  pub executable : Bool

-- `chmod.chars().nth(i) == Some(c)`
unfoldable pub is_char : Option Bytes → ℕ → Bool
is_char (some (b ∷ [])) c = b == c
is_char _ c = false

abbrev pub nth_is : Bytes → ℕ → ℕ → Bool
nth_is s i c = is_char (get_elem? (chars s) i) c

-- `Permissions::from_chmod`
unfoldable pub from_chmod : Bytes → Parsed Permissions
unfolding is_char chars
from_chmod chmod =
    if length chmod == 10
    then parsed (record {
      directory = nth_is chmod 0 b'd';
      readable = nth_is chmod 1 b'r' && nth_is chmod 4 b'r' && nth_is chmod 7 b'r';
      writable = nth_is chmod 2 b'w' && nth_is chmod 5 b'w' && nth_is chmod 8 b'w';
      executable = nth_is chmod 3 b'x' && nth_is chmod 6 b'x' && nth_is chmod 9 b'x';
    })
    else refused "Invalid chmod format"

-- `Permissions::to_octal`
unfoldable pub to_octal : Permissions → ℕ
to_octal p =
    let mode : ℕ = 0 in
    let mode = if p.readable then bit_or mode 0o444 else mode in
    let mode = if p.writable then bit_or mode 0o222 else mode in
    if p.executable then bit_or mode 0o111 else mode

pub record FileMetadata (DateTime : Type 0) : Type 0 where
  pub chmod : Permissions
  pub user : Bytes
  pub group : Bytes
  pub size : ℕ
  pub date : DateTime
  pub filename : Bytes

module _ {DateTime : Type 0} (parse_from_str : Bytes → Bytes → Option DateTime)
    (current_year : ℕ) where
  abbrev pub date_format : Bytes
  date_format = codes "%Y %b %d %H:%M"

  -- The date, from the month, the day and the year or the time.
  unfoldable pub parse_date : Bytes → ℕ → Bytes → Parsed DateTime
  parse_date month day year_or_time =
      if is_some (index_of b':' year_or_time)
      then (let datetime_str =
            display current_year
            ++ (b' ' ∷ (month ++ (b' ' ∷ (display day ++ (b' ' ∷ year_or_time))))) in
          or_refuse (parse_from_str datetime_str date_format) "Invalid time format")
      else (let datetime_str =
            year_or_time ++ (b' ' ∷ (month ++ (b' ' ∷ (display day ++ (codes " 00:00"))))) in
          or_refuse (parse_from_str datetime_str date_format) "Invalid date format")

  -- The fields of a line that has nine parts or more.
  unfoldable pub from_parts : List Bytes → Parsed (FileMetadata DateTime)
  from_parts (p0 ∷ p1 ∷ p2 ∷ p3 ∷ p4 ∷ p5 ∷ p6 ∷ p7 ∷ p8 ∷ rest) = do
    chmod ← from_chmod p0
    size ← or_refuse (parse (2 ^ 64) p4) "Invalid size format"
    day ← or_refuse (parse (2 ^ 32) p6) "Invalid day format"
    date ← parse_date p5 day p7
    parsed (record {
      chmod = chmod;
      user = p2;
      group = p3;
      size = size;
      date = date;
      filename = join b' ' (p8 ∷ rest);
    })
  from_parts _ = refused "Invalid FTP LIST line"

  -- `FileMetadata::from_str`
  unfoldable pub from_str : Bytes → Parsed (FileMetadata DateTime)
  unfolding from_parts
  from_str s = from_parts (split_whitespace s)
