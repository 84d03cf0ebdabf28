-- ===== src/Text/Split.antt =====
-- `split` and `splitn(2, …)` of a text at one ASCII character.
use native.Mathlib.Decide.{ℕ_discrete}
use bambu_rs.Prelude.{
  ℕ, ◌≡◌, ◌≢◌, refl, sym, ap, ap₂, ◌∙◌, Option, none, some, List, [], ◌∷◌, ◌++◌, arith, Bytes, All,
  Lacks, ◌==◌, if◌then◌else◌,
}

-- The first part, and the rest behind the separator if there is one.
unfoldable pub splitn_2 : ℕ → Bytes → Bytes × Option Bytes
splitn_2 b [] = ([], none)
splitn_2 b (c ∷ s) = let r = splitn_2 b s in if c == b then ([], some s) else (c ∷ r.0, r.1)

unfoldable pub to_head : ℕ → List Bytes → List Bytes
to_head c [] = (c ∷ []) ∷ []
to_head c (p ∷ ps) = (c ∷ p) ∷ ps

unfoldable pub split : ℕ → Bytes → List Bytes
unfolding to_head
split b [] = [] ∷ []
split b (c ∷ s) = let r = split b s in if c == b then [] ∷ r else to_head c r

abbrev pub join : ℕ → List Bytes → Bytes
join b [] = []
join b (p ∷ []) = p
join b (p ∷ q ∷ ps) = p ++ (b ∷ join b (q ∷ ps))

pub splitn_2-append : (b : ℕ) (p s : Bytes) → Lacks b p → splitn_2 b (p ++ b ∷ s) ≡ (p, some s)
unfolding splitn_2
splitn_2-append b [] s h = ground arith
splitn_2-append b (c ∷ p) s h = ground (arith, splitn_2-append b p s h.1)

split-append : (b : ℕ) (p s : Bytes) → Lacks b p → split b (p ++ b ∷ s) ≡ p ∷ split b s
unfolding split
split-append b [] s h = ground arith
split-append b (c ∷ p) s h = ground (arith, split-append b p s h.1)

split-Lacks : (b : ℕ) (p : Bytes) → Lacks b p → split b p ≡ p ∷ []
unfolding split
split-Lacks b [] h = refl
split-Lacks b (c ∷ p) h = ground (arith, split-Lacks b p h.1)

-- Parts without the separator are found again.
pub split-join : (b : ℕ) (ps : List Bytes) → ps ≢ [] → All (Lacks b) ps → split b (join b ps) ≡ ps
split-join b [] ne h = absurd (ne refl)
split-join b (p ∷ []) ne h = split-Lacks b p h.0
split-join b (p ∷ q ∷ ps) ne h =
    split-append b p (join b (q ∷ ps)) h.0 ∙ ap (◌∷◌ p) (split-join b (q ∷ ps) (λ e. cc) h.1)

split-ne-nil : (b : ℕ) (s : Bytes) → split b s ≢ []
unfolding split
split-ne-nil b [] = λ e. cc
split-ne-nil b (c ∷ s) = ground (arith, split-ne-nil b s)

join-to_head : (b c : ℕ) (ps : List Bytes) → join b (to_head c ps) ≡ c ∷ join b ps
unfolding to_head
join-to_head b c [] = refl
join-to_head b c (p ∷ []) = refl
join-to_head b c (p ∷ q ∷ ps) = refl

join-cons_nil : (b : ℕ) (ps : List Bytes) → ps ≢ [] → join b ([] ∷ ps) ≡ b ∷ join b ps
join-cons_nil b [] ne = absurd (ne refl)
join-cons_nil b (p ∷ ps) ne = refl

split-here : (b c : ℕ) (s : Bytes) → c ≡ b → split b (c ∷ s) ≡ [] ∷ split b s
unfolding split
split-here b c s e = ground arith

split-later : (b c : ℕ) (s : Bytes) → c ≢ b → split b (c ∷ s) ≡ to_head c (split b s)
unfolding split
split-later b c s e = ground arith

-- The parts spell the text.
pub join-split : (b : ℕ) (s : Bytes) → join b (split b s) ≡ s
join-split b [] = unfold split in refl
join-split b (c ∷ s) = elim (ℕ_discrete c b) [
  | yes e ↦
      rw (split-here b c s e)
        (join-cons_nil b (split b s) (split-ne-nil b s) ∙ ap₂ ◌∷◌ (sym e) (join-split b s))
  | no e ↦ rw (split-later b c s e) (join-to_head b c (split b s) ∙ ap (◌∷◌ c) (join-split b s))
]

-- The two parts and the separator spell the text.
pub splitn_2-spells :
    (b : ℕ) (s t : Bytes) → (splitn_2 b s).1 ≡ some t → s ≡ (splitn_2 b s).0 ++ b ∷ t
unfolding splitn_2
splitn_2-spells b [] t h = cc
splitn_2-spells b (c ∷ s) t h = ground (arith, splitn_2-spells b s t)
