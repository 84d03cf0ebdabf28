-- ===== src/Serde/Data.antt =====
-- JSON values, and what the derived `Serialize` is told of a value by a type and its attributes.
use bambu_rs.Prelude.{ℕ, Bool, true, false, Option, none, some, Bytes, if◌then◌else◌}
use bambu_rs.Text.Equal.{same}

mutual
  pub data Value : Type 0 where
    null : Value
    string : Bytes → Value
    number : ℕ → Value
    -- by its 64 bits
    float : ℕ → Value
    array : Items → Value
    object : Entries → Value

  pub data Items : Type 0 where
    no_items : Items
    item : Value → Items → Items

  pub data Entries : Type 0 where
    no_entries : Entries
    entry : Bytes → Value → Entries → Entries

-- A value of a type that derives `Serialize`, with what the attributes of the type say.
mutual
  pub data Shape : Type 0 where
    text : Bytes → Shape
    integer : ℕ → Shape
    float64 : ℕ → Shape
    -- `None`; a `Some` is as what it holds
    absent : Shape
    -- a vector
    sequence : Shapes → Shape
    -- a variant without data, by its name
    unit_variant : Bytes → Shape
    -- a variant that holds one value, by its name
    newtype_variant : Bytes → Shape → Shape
    -- a struct, or a variant with fields under `untagged`
    struct : Fields → Shape
    -- a struct with `tag`, or a variant with fields under `tag`: the tag, the name and the fields
    tagged : Bytes → Bytes → Fields → Shape
    -- a variant that holds one value, under `tag`: the tag, the name and the value
    tagged_newtype : Bytes → Bytes → Shape → Shape

  pub data Shapes : Type 0 where
    no_shapes : Shapes
    shape : Shape → Shapes → Shapes

  pub data Fields : Type 0 where
    no_fields : Fields
    field : Bytes → Shape → Fields → Fields
    -- a field with `flatten`
    flatten : Shape → Fields → Fields

unfoldable pub joined : Entries → Entries → Entries
joined no_entries fs = fs
joined (entry k v es) fs = entry k v (joined es fs)

unfoldable pub has : Bytes → Entries → Bool
has key no_entries = false
has key (entry k v es) = let rest = has key es in if same k key then true else rest

-- What a reader that keeps the last entry of a key finds under it.
unfoldable pub last : Bytes → Entries → Option Value
last key no_entries = none
last key (entry k v es) =
    let rest = last key es in if has key es then rest else if same k key then some v else none

-- The same of a reader that keeps the first one.
unfoldable pub first : Bytes → Entries → Option Value
first key no_entries = none
first key (entry k v es) = let rest = first key es in if same k key then some v else rest

-- No key stands twice.
unfoldable pub distinct : Entries → Bool
distinct no_entries = true
distinct (entry k v es) = let rest = distinct es in if has k es then false else rest

unfoldable pub is_text : Bytes → Option Value → Bool
is_text t (some (string s)) = same t s
is_text t _ = false
