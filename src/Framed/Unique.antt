-- ===== src/Framed/Unique.antt =====
-- What `Framed` yields on a stream is determined by the decoder and by the pieces.
use bambu_rs.Prelude.{
  ◌≡◌, ◌≢◌, refl, sym, ap, subst, ◌∙◌, Option, none, some, List, [], ◌∷◌, ◌++◌, Bytes,
}
use bambu_rs.Outcome.{Outcome, ok}
use bambu_rs.Exec.{Exec}
use bambu_rs.Framed.{End, Receives, ends, reads, fails, breaks, item}

module _ {Item : Type 0} (decode : Exec Bytes (Option Item)) where
  -- Two outcomes of one call.
  outcome :
      {src rest rest' : Bytes} {o o' : Outcome (Option Item)}
      → decode src ≡ (o, rest)
      → decode src ≡ (o', rest')
      → o ≡ o'
  outcome h k = ap (λ r. r.0) (sym h ∙ k)

  some_inj : {a b : Item} → ◌≡◌ {A = Outcome (Option Item)} (ok (some a)) (ok (some b)) → a ≡ b
  some_inj h = cc

  after_end :
      {buf : Bytes} {items : List Item} {end : End}
      → decode buf ≡ (ok none, buf)
      → Receives decode buf [] items end
      → [] ≡ items
  after_end h (ends k) = refl
  after_end h (fails k) = refl
  after_end h (breaks k) = refl
  after_end h (item k s) = absurd (let e = outcome h k in cc)

  after_wait :
      {buf chunk : Bytes} {chunks : List Bytes} {items : List Item} {end : End}
      → decode buf ≡ (ok none, buf)
      → Receives decode buf (chunk ∷ chunks) items end
      → Receives decode (buf ++ chunk) chunks items end
  after_wait h (reads k s) = s
  after_wait h (fails k) = absurd (let e = outcome h k in cc)
  after_wait h (breaks k) = absurd (let e = outcome h k in cc)
  after_wait h (item k s) = absurd (let e = outcome h k in cc)

  after_item :
      {buf rest : Bytes} {a : Item} {chunks : List Bytes} {items : List Item} {end : End}
      → decode buf ≡ (ok (some a), rest)
      → Receives decode buf chunks items end
      → (later : List Item) × (items ≡ a ∷ later) × Receives decode rest chunks later end
  after_item h (ends k) = absurd (let e = outcome h k in cc)
  after_item h (reads k s) = absurd (let e = outcome h k in cc)
  after_item h (fails k) = absurd (let e = outcome h k in cc)
  after_item h (breaks k) = absurd (let e = outcome h k in cc)
  after_item {rest = rest} {chunks = chunks} {end = end} h (item {a = b} {items = later} k s) = (
    later,
    ap (λ x. x ∷ later) (sym (some_inj (outcome h k))),
    subst (λ r. Receives decode r chunks later end) (ap (λ r. r.1) (sym k ∙ h)) s,
  )

  -- After an error or a panic nothing is yielded.
  after_stop :
      {buf rest : Bytes} {o : Outcome (Option Item)} {chunks : List Bytes} {items : List Item}
      {end : End}
      → decode buf ≡ (o, rest)
      → ((x : Option Item) → o ≢ ok x)
      → Receives decode buf chunks items end
      → [] ≡ items
  after_stop h n (ends k) = refl
  after_stop h n (reads k s) = absurd (n none (outcome h k))
  after_stop h n (fails k) = refl
  after_stop h n (breaks k) = refl
  after_stop h n (item {a = a} k s) = absurd (n (some a) (outcome h k))

  -- The items are the same.
  pub Receives-unique :
      {buf : Bytes} {chunks : List Bytes} {items items' : List Item} {end end' : End}
      → Receives decode buf chunks items end
      → Receives decode buf chunks items' end'
      → items ≡ items'
  Receives-unique (ends h) s = after_end h s
  Receives-unique (reads h r) s = Receives-unique r (after_wait h s)
  Receives-unique (fails h) s = after_stop h (λ x e. cc) s
  Receives-unique (breaks h) s = after_stop h (λ x e. cc) s
  Receives-unique (item {a = a} h r) s =
      let (later, e, rest) = after_item h s in ap (◌∷◌ a) (Receives-unique r rest) ∙ sym e
