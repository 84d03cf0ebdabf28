-- ===== src/Serde/Derived.antt =====
-- The crate serde as a parameter: the value that the derived `Serialize` writes.
use bambu_rs.Prelude.{◌≡◌, ℕ, Bytes}
use bambu_rs.Serde.Data.{
  Value, null, string, number, float, array, object, Items, no_items, item, Entries, no_entries,
  entry, Shape, text, integer, float64, absent, sequence, unit_variant, newtype_variant, struct,
  tagged, tagged_newtype, Shapes, no_shapes, shape, Fields, no_fields, field, flatten, joined,
}

pub record Writer : Type 0 where
  pub value : Shape → Value
  pub items : Shapes → Items
  pub entries : Fields → Entries

-- What the documentation of serde says of its attributes, and of structs, enums and options.
pub record Documented (w : Writer) : Type 0 where
  pub text_lem : (t : Bytes) → w.value (text t) ≡ string t
  pub integer_lem : (n : ℕ) → w.value (integer n) ≡ number n
  pub float_lem : (bits : ℕ) → w.value (float64 bits) ≡ float bits
  pub absent_lem : w.value absent ≡ null
  pub sequence_lem : (s : Shapes) → w.value (sequence s) ≡ array (w.items s)
  pub no_shapes_lem : w.items no_shapes ≡ no_items
  pub shape_lem : (s : Shape) (r : Shapes) → w.items (shape s r) ≡ item (w.value s) (w.items r)
  pub unit_variant_lem : (name : Bytes) → w.value (unit_variant name) ≡ string name
  pub newtype_variant_lem :
      (name : Bytes) (s : Shape)
      → w.value (newtype_variant name s) ≡ object (entry name (w.value s) no_entries)
  pub struct_lem : (f : Fields) → w.value (struct f) ≡ object (w.entries f)
  -- The tag is written in front of the fields.
  pub tagged_lem :
      (tag name : Bytes) (f : Fields)
      → w.value (tagged tag name f) ≡ object (entry tag (string name) (w.entries f))
  -- The value must write an object, into which the tag goes.
  pub tagged_newtype_lem :
      (tag name : Bytes) (s : Shape) (e : Entries)
      → w.value s ≡ object e
      → w.value (tagged_newtype tag name s) ≡ object (entry tag (string name) e)
  pub no_fields_lem : w.entries no_fields ≡ no_entries
  pub field_lem :
      (name : Bytes) (s : Shape) (f : Fields)
      → w.entries (field name s f) ≡ entry name (w.value s) (w.entries f)
  -- The entries of a flattened field stand in its place.
  pub flatten_lem :
      (s : Shape) (f : Fields) (e : Entries)
      → w.value s ≡ object e
      → w.entries (flatten s f) ≡ joined e (w.entries f)
