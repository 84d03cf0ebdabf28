-- ===== src/Crates/Reference.antt =====
-- A concrete `Crates` that meets the documentation, for tests and examples.
use bambu_rs.Prelude.{
  ℕ, none, some, ◌++◌, Option, Bytes, length, take, drop, leb, le→leb, refl, if◌then◌else◌, [], ◌∷◌,
}
use bambu_rs.Crates.Defs.{Crates, Documented}
use bambu_rs.Crates.Search.{first_match, index_of, first_match_sound, first_match-none}

abbrev cut_at : Bytes → ℕ → Option (Bytes × Bytes)
cut_at buf at = if leb at (length buf) then some (take at buf, drop at buf) else none

abbrev cut_off : Bytes → ℕ → Option (Bytes × Bytes)
cut_off buf at = if leb at (length buf) then some (drop at buf, take at buf) else none

abbrev skip : Bytes → ℕ → Option Bytes
skip buf n = if leb n (length buf) then some (drop n buf) else none

abbrev pub reference : Crates
reference = record {
  find = λ haystack needle. first_match needle haystack;
  memchr = index_of;
  split_to = cut_at;
  split_off = cut_off;
  advance = skip;
  extend_from_slice = ◌++◌;
}

pub reference-Documented : Documented reference
reference-Documented = record {
  find_some = λ haystack needle i h. first_match_sound needle haystack i h;
  find_none = λ haystack needle b a h. first_match-none needle haystack b a h;
  memchr_some = λ b haystack i h. first_match_sound (b ∷ []) haystack i h;
  memchr_none = λ b haystack x y h. first_match-none (b ∷ []) haystack x y h;
  split_to_lem = λ buf at h. rw (le→leb at (length buf) h);
  split_off_lem = λ buf at h. rw (le→leb at (length buf) h);
  advance_lem = λ buf n h. rw (le→leb n (length buf) h);
  extend_from_slice_lem = λ buf bytes. refl;
}
