-- ===== src/Text/Trim.antt =====
-- `trim_end_matches` with one ASCII character.
use bambu_rs.Prelude.{
  ℕ, zero, suc, ◌≡◌, ◌≢◌, refl, ap, subst, [], ◌∷◌, ◌++◌, arith, Bytes, Lacks, replicate, ◌==◌,
  if◌then◌else◌,
}

unfoldable pub trim_end_matches : ℕ → Bytes → Bytes
trim_end_matches b [] = []
trim_end_matches b (c ∷ s) = elim (trim_end_matches b s) [
  | [] ↦ if c == b then [] else c ∷ []
  | d ∷ r ↦ c ∷ d ∷ r
]

-- `s` does not end in `b`.
abbrev pub EndsOtherThan : ℕ → Bytes → Type 0
EndsOtherThan b s = (init : Bytes) → s ≢ init ++ b ∷ []

trim-replicate : (b k : ℕ) → trim_end_matches b (replicate k b) ≡ []
unfolding trim_end_matches
trim-replicate b zero = refl
trim-replicate b (suc k) = ground (arith, trim-replicate b k)

-- What was put behind a text is trimmed, and no more.
pub trim-append-replicate :
    (b k : ℕ) (s : Bytes) → EndsOtherThan b s → trim_end_matches b (s ++ replicate k b) ≡ s
unfolding trim_end_matches
trim-append-replicate b k [] h = trim-replicate b k
trim-append-replicate b k (c ∷ []) h = ground (arith, trim-replicate b k, h [])
trim-append-replicate b k (c ∷ d ∷ s) h =
    ground (arith, trim-append-replicate b k (d ∷ s) (λ init e. h (c ∷ init) (ap (◌∷◌ c) e)))

ends-Lacks : (b : ℕ) (init : Bytes) → ¬ Lacks b (init ++ b ∷ [])
ends-Lacks b [] h = h.0 refl
ends-Lacks b (c ∷ init) h = ends-Lacks b init h.1

pub Lacks-EndsOtherThan : (b : ℕ) (s : Bytes) → Lacks b s → EndsOtherThan b s
Lacks-EndsOtherThan b s h init e = ends-Lacks b init (subst (Lacks b) e h)
