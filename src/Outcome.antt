-- ===== src/Outcome.antt =====
-- How a Rust function ends: with a value, with an `io::Error` or a message of the program's own,
-- or by a panic (`unwrap` on nothing, a slice out of range, an overflow where it is checked).
use bambu_rs.Prelude.{◌≡◌, refl, ap, ℕ, String, Option, none, some}

-- The errors that the crate creates or passes on. `invalid_data` is `io::ErrorKind::InvalidData`
-- with the crate's text; the next two are that kind around an error of the standard library.
pub data Error : Type 0 where
  invalid_data : String → Error
  invalid_number : Error
  invalid_utf8 : Error
  -- That kind around an error of the crate's line codec.
  invalid_line : Error
  -- An error of a socket, of TLS or of a frame read from it, by a number of its own.
  transport : ℕ → Error

pub data Outcome {ℓ} (A : Type ℓ) : Type ℓ where
  ok : A → Outcome A
  err : Error → Outcome A
  panic : Outcome A

-- `Option::unwrap`.
abbrev pub unwrap {ℓ} : {A : Type ℓ} → Option A → Outcome A
unwrap none = panic
unwrap (some a) = ok a

-- `Option::ok_or`.
abbrev pub ok_or {ℓ} : {A : Type ℓ} → Option A → Error → Outcome A
ok_or none e = err e
ok_or (some a) e = ok a

-- `Result::unwrap`.
abbrev pub unwrap_ok {ℓ} : {A : Type ℓ} → Outcome A → Outcome A
unwrap_ok (ok a) = ok a
unwrap_ok (err e) = panic
unwrap_ok panic = panic

infixl 5 ◌>>=◌ ◌>>◌
abbrev pub ◌>>=◌ {ℓ κ} : {A : Type ℓ} {B : Type κ} → Outcome A → (A → Outcome B) → Outcome B
ok a >>= f = f a
err e >>= f = err e
panic >>= f = panic

abbrev pub ◌>>◌ {ℓ κ} : {A : Type ℓ} {B : Type κ} → Outcome A → Outcome B → Outcome B
m >> k = m >>= λ _. k

-- Inversion of a successful `?` on an `Option`.
pub ok_or-bind-eq-ok {ℓ κ} :
    {A : Type ℓ} {B : Type κ} (o : Option A) (e : Error) (f : A → Outcome B) {b : B}
    → (ok_or o e >>= f) ≡ ok b
    → (a : A) × (o ≡ some a) × (f a ≡ ok b)
ok_or-bind-eq-ok none e f h = cc
ok_or-bind-eq-ok (some a) e f h = (a, refl, h)

pub >>=-eq-ok {ℓ κ} :
    {Value : Type ℓ} {Last : Type κ} (first : Outcome Value) (then : Value → Outcome Last)
    {last : Last}
    → (first >>= then) ≡ ok last
    → (value : Value) × (first ≡ ok value) × (then value ≡ ok last)
>>=-eq-ok panic then h = cc
>>=-eq-ok (err e) then h = cc
>>=-eq-ok (ok value) then h = (value, refl, h)

pub ok_inj {ℓ} : {A : Type ℓ} {a b : A} → ok a ≡ ok b → a ≡ b
ok_inj h = cc

pub unwrap-eq-ok {ℓ} : {A : Type ℓ} (o : Option A) (a : A) → unwrap o ≡ ok a → o ≡ some a
unwrap-eq-ok none a h = cc
unwrap-eq-ok (some b) a h = ap some (ok_inj h)

pub bind_assoc {ℓ κ ι} :
    {A : Type ℓ} {B : Type κ} {C : Type ι} (m : Outcome A) (f : A → Outcome B) (g : B → Outcome C)
    → (m >>= f >>= g) ≡ (m >>= λ a. f a >>= g)
bind_assoc (ok a) f g = refl
bind_assoc (err e) f g = refl
bind_assoc panic f g = refl
