-- ===== src/Ftp/Chmod.antt =====
-- The permissions in a line of a listing, which src/file/ftp/metadata.rs reads.
use bambu_rs.Prelude.{
  ℕ, ◌≡◌, refl, Bool, true, false, ◌&&◌, some, [], ◌∷◌, arith, Bytes, All, ◌==◌, if◌then◌else◌,
}
use bambu_rs.Text.Words.RoundTrip.{IsVisible, IsWord, chars-visible}
use bambu_rs.Ftp.Metadata.{parsed, Permissions, is_char, from_chmod}

-- What one class of users may do.
pub record Mode : Type 0 where
  pub readable : Bool
  pub writable : Bool
  pub executable : Bool

-- What `ls -l` shows: the kind of the file, and a mode for the owner, the group and all others.
pub record Chmod : Type 0 where
  pub kind : ℕ
  pub owner : Mode
  pub group : Mode
  pub others : Mode

-- A letter for what is permitted, and a dash for what is not.
unfoldable pub letter : Bool → ℕ → ℕ
letter b c = if b then c else b'-'

abbrev mode_text : Mode → Bytes → Bytes
mode_text m rest = letter m.readable b'r' ∷ letter m.writable b'w' ∷ letter m.executable b'x' ∷ rest

abbrev pub chmod_text : Chmod → Bytes
chmod_text c = c.kind ∷ mode_text c.owner (mode_text c.group (mode_text c.others []))

-- What the client is to make of it: a `d` marks a directory, and what is permitted to one class only
-- is not permitted.
abbrev pub permissions : Chmod → Permissions
permissions c = record {
  directory = c.kind == b'd';
  readable = c.owner.readable && c.group.readable && c.others.readable;
  writable = c.owner.writable && c.group.writable && c.others.writable;
  executable = c.owner.executable && c.group.executable && c.others.executable;
}

letter-IsVisible : (b : Bool) (c : ℕ) → IsVisible c → IsVisible (letter b c)
unfolding letter
letter-IsVisible true c h = h
letter-IsVisible false c h = omega arith

letter-eq : (b : Bool) (c : ℕ) → (b'-' == c) ≡ false → (letter b c == c) ≡ b
unfolding letter
letter-eq true c h = ground arith
letter-eq false c h = h

letter_r : (b : Bool) → is_char (some (letter b b'r' ∷ [])) b'r' ≡ b
unfolding is_char
letter_r b = letter-eq b b'r' refl

letter_w : (b : Bool) → is_char (some (letter b b'w' ∷ [])) b'w' ≡ b
unfolding is_char
letter_w b = letter-eq b b'w' refl

letter_x : (b : Bool) → is_char (some (letter b b'x' ∷ [])) b'x' ≡ b
unfolding is_char
letter_x b = letter-eq b b'x' refl

kind_d : (kind : ℕ) → is_char (some (kind ∷ [])) b'd' ≡ (kind == b'd')
unfolding is_char
kind_d kind = refl

mode-IsVisible : (m : Mode) (rest : Bytes) → All IsVisible rest → All IsVisible (mode_text m rest)
mode-IsVisible m rest h = (
  letter-IsVisible m.readable b'r' (omega arith),
  (
    letter-IsVisible m.writable b'w' (omega arith),
    (letter-IsVisible m.executable b'x' (omega arith), h),
  ),
)

pub chmod_text-IsWord : (c : Chmod) → IsVisible c.kind → IsWord (chmod_text c)
chmod_text-IsWord c h = (
  (λ q. cc),
  (
    h,
    mode-IsVisible c.owner (mode_text c.group (mode_text c.others []))
        (mode-IsVisible c.group (mode_text c.others []) (mode-IsVisible c.others [] tt)),
  ),
)

-- The permissions are read back.
pub from_chmod-chmod_text :
    (c : Chmod) → IsVisible c.kind → from_chmod (chmod_text c) ≡ parsed (permissions c)
unfolding from_chmod
from_chmod-chmod_text c h =
    rw
      (
        chars-visible (chmod_text c) ((chmod_text-IsWord c h).1),
        kind_d,
        letter_r c.owner.readable,
        letter_r c.group.readable,
        letter_r c.others.readable,
        letter_w c.owner.writable,
        letter_w c.group.writable,
        letter_w c.others.writable,
        letter_x c.owner.executable,
        letter_x c.group.executable,
        letter_x c.others.executable,
      )
      refl
