-- ===== src/Serde/Reference.antt =====
-- A concrete writer that meets the documentation, with which every documented writer agrees.
use bambu_rs.Prelude.{◌≡◌, refl, ap, ap₂, ◌∙◌}
use bambu_rs.Serde.Data.{
  Value, null, string, number, float, array, object, Items, no_items, item, Entries, no_entries,
  entry, Shape, text, integer, float64, absent, sequence, unit_variant, newtype_variant, struct,
  tagged, tagged_newtype, Shapes, no_shapes, shape, Fields, no_fields, field, flatten, joined,
}
use bambu_rs.Serde.Derived.{Writer, Documented}

-- Of a value that is no object, there is nothing to flatten.
abbrev pub members : Value → Entries
members (object e) = e
members _ = no_entries

unfoldable mutual
  pub write : Shape → Value
  write (text t) = string t
  write (integer n) = number n
  write (float64 bits) = float bits
  write absent = null
  write (sequence s) = array (write_items s)
  write (unit_variant name) = string name
  write (newtype_variant name s) = object (entry name (write s) no_entries)
  write (struct f) = object (write_fields f)
  write (tagged tag name f) = object (entry tag (string name) (write_fields f))
  write (tagged_newtype tag name s) = object (entry tag (string name) (members (write s)))

  pub write_items : Shapes → Items
  write_items no_shapes = no_items
  write_items (shape s r) = item (write s) (write_items r)

  pub write_fields : Fields → Entries
  write_fields no_fields = no_entries
  write_fields (field name s f) = entry name (write s) (write_fields f)
  write_fields (flatten s f) = joined (members (write s)) (write_fields f)

abbrev pub reference : Writer
reference = record { value = write; items = write_items; entries = write_fields }

pub reference-Documented : Documented reference
unfolding write
reference-Documented = record {
  text_lem = λ t. refl;
  integer_lem = λ n. refl;
  float_lem = λ bits. refl;
  absent_lem = refl;
  sequence_lem = λ s. refl;
  no_shapes_lem = refl;
  shape_lem = λ s r. refl;
  unit_variant_lem = λ name. refl;
  newtype_variant_lem = λ name s. refl;
  struct_lem = λ f. refl;
  tagged_lem = λ tag name f. refl;
  tagged_newtype_lem = λ tag name s e h. ap (λ v. object (entry tag (string name) (members v))) h;
  no_fields_lem = refl;
  field_lem = λ name s f. refl;
  flatten_lem = λ s f e h. ap (λ v. joined (members v) (write_fields f)) h;
}

abbrev pub IsObject : Shape → Type 0
IsObject (newtype_variant name s) = Unit
IsObject (struct f) = Unit
IsObject (tagged tag name f) = Unit
IsObject (tagged_newtype tag name s) = Unit
IsObject _ = ⊥

-- What is flattened into a struct, or tagged, has entries of its own.
abbrev mutual
  pub IsSupported : Shape → Type 0
  IsSupported (sequence s) = AreSupported s
  IsSupported (newtype_variant name s) = IsSupported s
  IsSupported (struct f) = HaveSupported f
  IsSupported (tagged tag name f) = HaveSupported f
  IsSupported (tagged_newtype tag name s) = IsObject s × IsSupported s
  IsSupported _ = Unit

  AreSupported : Shapes → Type 0
  AreSupported no_shapes = Unit
  AreSupported (shape s r) = IsSupported s × AreSupported r

  HaveSupported : Fields → Type 0
  HaveSupported no_fields = Unit
  HaveSupported (field name s f) = IsSupported s × HaveSupported f
  HaveSupported (flatten s f) = IsObject s × IsSupported s × HaveSupported f

-- A shape that can be flattened, or tagged.
abbrev pub Embeds : Shape → Type 0
Embeds s = IsObject s × IsSupported s

write-members : (s : Shape) → IsObject s → write s ≡ object (members (write s))
unfolding write
write-members (newtype_variant name s) o = refl
write-members (struct f) o = refl
write-members (tagged tag name f) o = refl
write-members (tagged_newtype tag name s) o = refl
write-members (text t) o = absurd o
write-members (integer n) o = absurd o
write-members (float64 b) o = absurd o
write-members absent o = absurd o
write-members (sequence s) o = absurd o
write-members (unit_variant n) o = absurd o

module _ (w : Writer) (d : Documented w) where
  mutual
    unfolding write

    agree : (s : Shape) → IsSupported s → w.value s ≡ write s
    agree (text t) h = d.text_lem t
    agree (integer n) h = d.integer_lem n
    agree (float64 bits) h = d.float_lem bits
    agree absent h = d.absent_lem
    agree (sequence s) h = d.sequence_lem s ∙ ap array (agree_items s h)
    agree (unit_variant name) h = d.unit_variant_lem name
    agree (newtype_variant name s) h =
        d.newtype_variant_lem name s ∙ ap (λ v. object (entry name v no_entries)) (agree s h)
    agree (struct f) h = d.struct_lem f ∙ ap object (agree_fields f h)
    agree (tagged tag name f) h =
        d.tagged_lem tag name f ∙ ap (λ e. object (entry tag (string name) e)) (agree_fields f h)
    agree (tagged_newtype tag name s) h =
        d.tagged_newtype_lem tag name s (members (write s)) (agree s h.1 ∙ write-members s h.0)

    agree_items : (s : Shapes) → AreSupported s → w.items s ≡ write_items s
    agree_items no_shapes h = d.no_shapes_lem
    agree_items (shape s r) h = d.shape_lem s r ∙ ap₂ item (agree s h.0) (agree_items r h.1)

    agree_fields : (f : Fields) → HaveSupported f → w.entries f ≡ write_fields f
    agree_fields no_fields h = d.no_fields_lem
    agree_fields (field name s f) h =
        d.field_lem name s f ∙ ap₂ (entry name) (agree s h.0) (agree_fields f h.1)
    agree_fields (flatten s f) h =
        d.flatten_lem s f (members (write s)) (agree s h.1 ∙ write-members s h.0)
        ∙ ap (joined (members (write s))) (agree_fields f h.2)

  pub value-write : (s : Shape) → IsSupported s → w.value s ≡ write s
  value-write s h = agree s h
