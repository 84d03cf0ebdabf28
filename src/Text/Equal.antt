-- ===== src/Text/Equal.antt =====
-- Equality of texts.
use bambu_rs.Prelude.{
  ◌≡◌, ◌≢◌, refl, ap, Bool, true, false, ◌&&◌, [], ◌∷◌, arith, Bytes, ◌==◌, ◌⊎◌, inl, inr,
}

unfoldable pub same : Bytes → Bytes → Bool
same [] [] = true
same (b ∷ s) (c ∷ t) = b == c && same s t
same _ _ = false

pub same_refl : (s : Bytes) → same s s ≡ true
unfolding same
same_refl [] = refl
same_refl (b ∷ s) = ground (arith, same_refl s)

pub same_sound : (s t : Bytes) → same s t ≡ true → s ≡ t
unfolding same
same_sound [] [] h = refl
same_sound [] (c ∷ t) h = cc
same_sound (b ∷ s) [] h = cc
same_sound (b ∷ s) (c ∷ t) h = ground (arith, same_sound s t)

pub same-cases : (s t : Bytes) → ((same s t ≡ true) × (s ≡ t)) ⊎ ((same s t ≡ false) × (s ≢ t))
same-cases s t = go (same s t) refl
  where
    go : (b : Bool) → same s t ≡ b → ((same s t ≡ true) × (s ≡ t)) ⊎ ((same s t ≡ false) × (s ≢ t))
    go true e = inl (e, same_sound s t e)
    go false e = inr (e, λ q. ground (arith, same_refl t, ap (λ u. same u t) q))
