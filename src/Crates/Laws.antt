-- ===== src/Crates/Laws.antt =====
-- The documented searches agree with the computing one.
use bambu_rs.Prelude.{ℕ, ◌≡◌, [], ◌∷◌, Bytes, ◌∙◌, sym, Option-cases, inl, inr}
use bambu_rs.Crates.Defs.{Crates, Documented}
use bambu_rs.Crates.Search.{first_match, index_of, first_match_sound, first_match_complete}

module _ {c : Crates} (doc : Documented c) where
  pub find-eq : (haystack needle : Bytes) → c.find haystack needle ≡ first_match needle haystack
  find-eq haystack needle = elim (Option-cases (c.find haystack needle)) [
    | inr (i, h) ↦
        h ∙ sym (first_match_complete needle haystack i (doc.find_some haystack needle i h))
    | inl h ↦ elim (Option-cases (first_match needle haystack)) [
      | inl q ↦ h ∙ sym q
      | inr (i, q) ↦
          let f = first_match_sound needle haystack i q in
          absurd (doc.find_none haystack needle f.before f.after h f.splits)
    ]
  ]

  pub memchr-eq : (b : ℕ) (haystack : Bytes) → c.memchr b haystack ≡ index_of b haystack
  memchr-eq b haystack = elim (Option-cases (c.memchr b haystack)) [
    | inr (i, h) ↦
        h ∙ sym (first_match_complete (b ∷ []) haystack i (doc.memchr_some b haystack i h))
    | inl h ↦ elim (Option-cases (index_of b haystack)) [
      | inl q ↦ h ∙ sym q
      | inr (i, q) ↦
          let f = first_match_sound (b ∷ []) haystack i q in
          absurd (doc.memchr_none b haystack f.before f.after h f.splits)
    ]
  ]
