-- ===== src/Serde/Tree.antt =====
-- `serde_json::Value` as a tree: its equality, and what a value is after `to_value`, which keeps the
-- last entry of each key.
use bambu_rs.Prelude.{ℕ, zero, suc, Bool, true, false, ◌&&◌, none, some, ◌==◌, if◌then◌else◌}
use bambu_rs.Text.Equal.{same}
use bambu_rs.Serde.Data.{
  Value, null, string, number, float, array, object, Items, no_items, item, Entries, no_entries,
  entry, last, has, distinct,
}

unfoldable mutual
  pub to_value : Value → Value
  to_value null = null
  to_value (string t) = string t
  to_value (number n) = number n
  to_value (float bits) = float bits
  to_value (array s) = array (items_to_value s)
  to_value (object e) = object (entries_to_value e)

  items_to_value : Items → Items
  items_to_value no_items = no_items
  items_to_value (item v s) = item (to_value v) (items_to_value s)

  entries_to_value : Entries → Entries
  entries_to_value no_entries = no_entries
  entries_to_value (entry k v e) =
      let rest = entries_to_value e in
      let here = to_value v in if has k e then rest else entry k here rest

abbrev count : Entries → ℕ
count no_entries = zero
count (entry k v e) = suc (count e)

-- Equality of trees; the order of the entries of an object does not matter.
unfoldable mutual
  pub equal : Value → Value → Bool
  equal null null = true
  equal (string s) (string t) = same s t
  equal (number n) (number m) = n == m
  equal (float b) (float c) = b == c
  equal (array s) (array t) = equal_items s t
  equal (object e) (object f) = count e == count f && within e f
  equal _ _ = false

  equal_items : Items → Items → Bool
  equal_items no_items no_items = true
  equal_items (item v s) (item w t) = equal v w && equal_items s t
  equal_items _ _ = false

  within : Entries → Entries → Bool
  within no_entries f = true
  within (entry k v e) f = elim (last k f) [ none ↦ false | some w ↦ equal v w ] && within e f

abbrev is_null : Value → Bool
is_null null = true
is_null _ = false

-- Whether a tree has all that was written of a value: where `null` was written, the key may be
-- missing, and more keys than were written may be there.
unfoldable mutual
  pub includes : Value → Value → Bool
  includes null null = true
  includes (string s) (string t) = same s t
  includes (number n) (number m) = n == m
  includes (float b) (float c) = b == c
  includes (array s) (array t) = includes_items s t
  includes (object e) (object f) = distinct f && includes_entries e f
  includes _ _ = false

  includes_items : Items → Items → Bool
  includes_items no_items no_items = true
  includes_items (item v s) (item w t) = includes v w && includes_items s t
  includes_items _ _ = false

  includes_entries : Entries → Entries → Bool
  includes_entries no_entries f = true
  includes_entries (entry k v e) f =
      elim (last k f) [ none ↦ is_null v | some w ↦ includes v w ] && includes_entries e f
