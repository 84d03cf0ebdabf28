-- ===== src/Mqtt/Sequence.antt =====
-- The sequence ids of src/mqtt.rs.
use bambu_rs.Prelude.{
  ℕ, ◌+◌, ◌^◌, ◌<◌, ◌≡◌, ◌≢◌, refl, sym, ap, ◌∙◌, Bool, some, arith, Bytes, ltb, true, zero, suc,
}
use bambu_rs.Outcome.{ok}
use bambu_rs.Text.Decimal.{display, parse}
use bambu_rs.Text.Decimal.RoundTrip.{parse-display}
use bambu_rs.Mqtt.Client.{Client, next_sequence_id}

-- The client after `n` calls of `next_sequence_id`.
unfoldable pub after_ids : Bool → ℕ → Client → Client
after_ids checks zero c = c
after_ids checks (suc n) c = after_ids checks n (next_sequence_id checks c).1

pub next_sequence_id-eq :
    (checks : Bool) (c : Client)
    → c.next_id + 1 < 2 ^ 64
    → next_sequence_id checks c ≡ (ok (display c.next_id), record c { next_id = c.next_id + 1 })
unfolding next_sequence_id
next_sequence_id-eq checks c h =
    let small : ltb (c.next_id + 1) (2 ^ 64) ≡ true = ground arith in rw small refl

after_ids-next_id :
    (checks : Bool) (n : ℕ) (c : Client)
    → c.next_id + n < 2 ^ 64
    → (after_ids checks n c).next_id ≡ c.next_id + n
unfolding after_ids
after_ids-next_id checks zero c h = omega arith
after_ids-next_id checks (suc n) c h =
    let one : (next_sequence_id checks c).1.next_id ≡ c.next_id + 1 =
      ap (λ r. r.1.next_id) (next_sequence_id-eq checks c (omega arith)) in
    let rest = after_ids-next_id checks n (next_sequence_id checks c).1 (omega arith) in omega arith

next_sequence_id-display :
    (checks : Bool) (n : ℕ) (c : Client)
    → c.next_id + n + 1 < 2 ^ 64
    → (next_sequence_id checks (after_ids checks n c)).0 ≡ ok (display (c.next_id + n))
next_sequence_id-display checks n c h =
    let at = after_ids-next_id checks n c (omega arith) in
    ap (λ r. r.0) (next_sequence_id-eq checks (after_ids checks n c) (omega arith))
    ∙ ap (λ x. ok (display x)) at

display_injective : (a b : ℕ) → a < 2 ^ 64 → b < 2 ^ 64 → display a ≡ display b → a ≡ b
display_injective a b h k e =
    let both : some a ≡ some b =
      sym (parse-display (2 ^ 64) a h) ∙ ap (parse (2 ^ 64)) e ∙ parse-display (2 ^ 64) b k in
    cc

ok_inj : {s t : Bytes} → ok s ≡ ok t → s ≡ t
ok_inj h = cc

-- As long as the counter does not reach the end of the `u64`, two calls of `next_sequence_id` of one
-- client, the later one any number of calls after the earlier, return different ids, whether or not
-- the build checks for overflow.
next_sequence_id-distinct :
    (checks : Bool) (c : Client) (i j : ℕ)
    → i < j
    → c.next_id + j + 1 < 2 ^ 64
    → (next_sequence_id checks (after_ids checks i c)).0
      ≢ (next_sequence_id checks (after_ids checks j c)).0
next_sequence_id-distinct checks c i j order h e =
    let same_text = ok_inj (
      sym (next_sequence_id-display checks i c (omega arith))
      ∙ e
      ∙ next_sequence_id-display checks j c (omega arith)) in
    let same_number =
      display_injective (c.next_id + i) (c.next_id + j) (omega arith) (omega arith) same_text in
    absurd (omega arith)
