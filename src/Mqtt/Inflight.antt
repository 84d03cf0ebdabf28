-- ===== src/Mqtt/Inflight.antt =====
-- The map of inflight commands of src/mqtt.rs.
use bambu_rs.Prelude.{
  ℕ, ◌≡◌, ◌≢◌, refl, sym, subst, ◌∙◌, some, inl, inr, List, [], ◌∷◌, arith, Bytes, All,
}
use bambu_rs.Text.Equal.{same_refl, same-cases}
use bambu_rs.Mqtt.Client.{find, remove, insert}

module _ (P : Bytes × ℕ → Type 0) where
  pub All-remove : (k : Bytes) (m : List (Bytes × ℕ)) → All P m → All P (remove k m)
  unfolding remove
  All-remove k [] h = tt
  All-remove k ((j, v) ∷ m) h = elim (same-cases j k) [
    | inl e ↦ rw (e.0) (All-remove k m h.1)
    | inr e ↦ rw (e.0) (h.0, All-remove k m h.1)
  ]

  pub All-find : (k : Bytes) (m : List (Bytes × ℕ)) (v : ℕ) → find k m ≡ some v → All P m → P (k, v)
  unfolding find
  All-find k [] v e h = cc
  All-find k ((j, w) ∷ m) v e h = elim (same-cases j k) [
    | inl q ↦
        let same_value : w ≡ v = ground arith in
        subst (λ x. P (k, x)) same_value (subst (λ x. P (x, w)) q.1 h.0)
    | inr q ↦ All-find k m v (ground arith) h.1
  ]

pub find-insert_self : (k : Bytes) (v : ℕ) (m : List (Bytes × ℕ)) → find k (insert k v m) ≡ some v
unfolding find
find-insert_self k v m = rw (same_refl k)

pub find-remove_ne : (k j : Bytes) (m : List (Bytes × ℕ)) → k ≢ j → find k (remove j m) ≡ find k m
unfolding find remove
find-remove_ne k j [] ne = refl
find-remove_ne k j ((i, v) ∷ m) ne = elim (same-cases i j) [
  | inl e ↦ elim (same-cases i k) [
    | inl q ↦ absurd (ne (sym q.1 ∙ e.1))
    | inr q ↦ ground (arith, find-remove_ne k j m ne)
  ]
  | inr e ↦ ground (arith, find-remove_ne k j m ne)
]
