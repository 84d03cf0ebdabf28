-- ===== src/Framed.antt =====
-- A decoder on a stream that comes in pieces, as src/camera.rs, src/file/ftp.rs and their codecs use
-- `tokio_util::codec::Framed`: it calls `decode` on its buffer for as long as items come, it appends
-- what it reads when none comes, and it ends at an error.
pub mod Unique
use bambu_rs.Prelude.{
  ℕ, zero, suc, ◌<◌, length, ◌≡◌, ◌≢◌, refl, sym, ap, subst, ◌∙◌, Option, none, some, List, [], ◌∷◌,
  ◌++◌, arith, Bytes, append-nil, append_assoc,
}
use bambu_rs.Outcome.{Outcome, Error, ok, err, panic}
use bambu_rs.Exec.{Exec}

-- How a stream ends: it ran out with these bytes in the buffer, the decoder refused what came, or the
-- decoder panicked.
pub data End : Type 0 where
  left : Bytes → End
  refused : Error → End
  crashed : End

abbrev pub concat : List Bytes → Bytes
concat [] = []
concat (chunk ∷ chunks) = chunk ++ concat chunks

pub concat-append : (xs ys : List Bytes) → concat (xs ++ ys) ≡ concat xs ++ concat ys
concat-append [] ys = refl
concat-append (x ∷ xs) ys =
    ap (◌++◌ x) (concat-append xs ys) ∙ sym (append_assoc x (concat xs) (concat ys))

module _ {Item : Type 0} (decode : Exec Bytes (Option Item)) where
  -- All the bytes at once.
  pub data Drains : Bytes → List Item → End → Type 0 where
    waits : {src : Bytes} → decode src ≡ (ok none, src) → Drains src [] (left src)
    fails : {src rest : Bytes} {e : Error} → decode src ≡ (err e, rest) → Drains src [] (refused e)
    breaks : {src rest : Bytes} → decode src ≡ (panic, rest) → Drains src [] crashed
    item :
        {src rest : Bytes} {a : Item} {items : List Item} {end : End}
        → decode src ≡ (ok (some a), rest)
        → Drains rest items end
        → Drains src (a ∷ items) end

  -- The bytes in the buffer, and the pieces that are still to come.
  pub data Receives : Bytes → List Bytes → List Item → End → Type 0 where
    ends : {buf : Bytes} → decode buf ≡ (ok none, buf) → Receives buf [] [] (left buf)
    reads :
        {buf chunk : Bytes} {chunks : List Bytes} {items : List Item} {end : End}
        → decode buf ≡ (ok none, buf)
        → Receives (buf ++ chunk) chunks items end
        → Receives buf (chunk ∷ chunks) items end
    fails :
        {buf rest : Bytes} {chunks : List Bytes} {e : Error}
        → decode buf ≡ (err e, rest)
        → Receives buf chunks [] (refused e)
    breaks :
        {buf rest : Bytes} {chunks : List Bytes}
        → decode buf ≡ (panic, rest)
        → Receives buf chunks [] crashed
    item :
        {buf rest : Bytes} {chunks : List Bytes} {a : Item} {items : List Item} {end : End}
        → decode buf ≡ (ok (some a), rest)
        → Receives rest chunks items end
        → Receives buf chunks (a ∷ items) end

  -- What the decoder does with a first part `buf` of a stream, `more` being the rest: it waits, or it
  -- does what it does with the whole, and leaves a stream that is as good.
  pub data Prefix (Good : Bytes → Type 0) (buf more : Bytes) : Type 0 where
    waiting : decode buf ≡ (ok none, buf) → Prefix Good buf more
    deciding :
        (o : Outcome (Option Item)) (rest : Bytes)
        → o ≢ ok none
        → decode buf ≡ (o, rest)
        → decode (buf ++ more) ≡ (o, rest ++ more)
        → Good (rest ++ more)
        → Prefix Good buf more

  -- A decoder that never takes back what it decided on a part of the stream.
  abbrev pub Incremental : (Bytes → Type 0) → Type 0
  Incremental Good = (buf more : Bytes) → Good (buf ++ more) → Prefix Good buf more

  -- An item makes the buffer shorter, and a decoder that waits leaves it as it was.
  abbrev pub Shrinks : Type 0
  Shrinks =
      (src : Bytes) (a : Item) (rest : Bytes)
      → decode src ≡ (ok (some a), rest)
      → length rest < length src

  abbrev pub Keeps : Type 0
  Keeps = (src rest : Bytes) → decode src ≡ (ok none, rest) → rest ≡ src

  module _ (shrinks : Shrinks) (keeps : Keeps) where
    -- The buffer is decoded, and then `later` goes on, if the decoder waits on what is left.
    drain_total :
        (chunks : List Bytes)
        → ((buf : Bytes)
            → decode buf ≡ (ok none, buf)
            → (items : List Item) × (end : End) × Receives buf chunks items end)
        → (fuel : ℕ) (buf : Bytes) → length buf < fuel
        → (items : List Item) × (end : End) × Receives buf chunks items end
    drain_total chunks later zero buf h = absurd (omega arith)
    drain_total chunks later (suc fuel) buf h = go (drain_total chunks later fuel) (decode buf) refl
      where
        go :
            ((b : Bytes)
              → length b < fuel
              → (items : List Item) × (end : End) × Receives b chunks items end)
            → (r : Outcome (Option Item) × Bytes) → decode buf ≡ r
            → (items : List Item) × (end : End) × Receives buf chunks items end
        go ih (ok none, rest) e = later buf (e ∙ ap (λ t. (ok none, t)) (keeps buf rest e))
        go ih (ok (some a), rest) e =
            let (items, end, r) = ih rest (omega (arith, shrinks buf a rest e)) in
            (a ∷ items, end, item e r)
        go ih (err x, rest) e = ([], refused x, fails e)
        go ih (panic, rest) e = ([], crashed, breaks e)

    pub Receives-total :
        (buf : Bytes) (chunks : List Bytes)
        → (items : List Item) × (end : End) × Receives buf chunks items end
    Receives-total buf [] =
        drain_total [] (λ b h. ([], left b, ends h)) (suc (length buf)) buf (omega arith)
    Receives-total buf (chunk ∷ chunks) =
        drain_total (chunk ∷ chunks)
          (λ b h.
            let (items, end, r) = Receives-total (b ++ chunk) chunks in (items, end, reads h r))
          (suc (length buf)) buf (omega arith)

  module _ (Good : Bytes → Type 0) (incremental : Incremental Good) where
    -- The two outcomes of one call.
    same_result :
        {src rest rest' : Bytes} {o o' : Outcome (Option Item)}
        → decode src ≡ (o, rest)
        → decode src ≡ (o', rest')
        → (o ≡ o') × (rest ≡ rest')
    same_result h k = (ap (λ r. r.0) (sym h ∙ k), ap (λ r. r.1) (sym h ∙ k))

    -- What was decided on a part is decided on the whole.
    decided :
        (buf more rest : Bytes) (o : Outcome (Option Item))
        → o ≢ ok none
        → decode buf ≡ (o, rest)
        → Good (buf ++ more)
        → (decode (buf ++ more) ≡ (o, rest ++ more)) × Good (rest ++ more)
    decided buf more rest o ne h g = go (incremental buf more g)
      where
        go : Prefix Good buf more → (decode (buf ++ more) ≡ (o, rest ++ more)) × Good (rest ++ more)
        go (waiting k) = absurd (ne ((same_result h k).0))
        go (deciding o' rest' _ k whole good) =
            let (same_o, same_rest) = same_result k h in
            (
              whole ∙ ap (λ x. (x, rest' ++ more)) same_o ∙ ap (λ r. (o, r ++ more)) same_rest,
              subst (λ r. Good (r ++ more)) same_rest good,
            )

    pub Receives-Drains :
        {buf : Bytes} {chunks : List Bytes} {items : List Item} {end : End}
        → Receives buf chunks items end
        → Good (buf ++ concat chunks)
        → Drains (buf ++ concat chunks) items end
    Receives-Drains {buf} (ends h) g =
        subst (λ s. Drains s [] (left buf)) (sym (append-nil buf)) (waits h)
    Receives-Drains {buf} {items = items} {end = end} (reads {chunk = chunk} {chunks = chunks} h r)
          g =
        let whole = append_assoc buf chunk (concat chunks) in
        subst (λ s. Drains s items end) whole (Receives-Drains r (subst Good (sym whole) g))
    Receives-Drains {buf} {chunks} (fails {rest = rest} {e = e} h) g =
        fails ((decided buf (concat chunks) rest (err e) (λ q. cc) h g).0)
    Receives-Drains {buf} {chunks} (breaks {rest = rest} h) g =
        breaks ((decided buf (concat chunks) rest panic (λ q. cc) h g).0)
    Receives-Drains {buf} {chunks} (item {rest = rest} {a = a} h r) g =
        let (whole, good) = decided buf (concat chunks) rest (ok (some a)) (λ q. cc) h g in
        item whole (Receives-Drains r good)

    -- The pieces are read until the decoder decides, and it decides what it does on the whole.
    read_on :
        (src rest : Bytes) (o : Outcome (Option Item)) (items : List Item) (end : End)
        → o ≢ ok none
        → decode src ≡ (o, rest)
        → Good src
        → ((buf part : Bytes) (chunks : List Bytes)
            → decode buf ≡ (o, part)
            → rest ≡ part ++ concat chunks
            → Good rest
            → Receives buf chunks items end)
        → (chunks : List Bytes) (buf : Bytes) → src ≡ buf ++ concat chunks
        → Receives buf chunks items end
    read_on src rest o items end ne h g finish [] buf e = go (incremental buf [] (subst Good e g))
      where
        go : Prefix Good buf [] → Receives buf [] items end
        go (waiting k) = absurd (ne ((same_result h (ap decode (e ∙ append-nil buf) ∙ k)).0))
        go (deciding o' part _ k whole good) =
            let (same_o, same_rest) = same_result (ap decode e ∙ whole) h in
            finish buf part [] (k ∙ ap (λ x. (x, part)) same_o) (sym same_rest)
              (subst Good same_rest good)
    read_on src rest o items end ne h g finish (chunk ∷ chunks) buf e =
        go (incremental buf (chunk ++ concat chunks) (subst Good e g)) (
          read_on src rest o items end ne h g finish chunks (buf ++ chunk)
            (e ∙ sym (append_assoc buf chunk (concat chunks))))
      where
        go :
            Prefix Good buf (chunk ++ concat chunks)
            → Receives (buf ++ chunk) chunks items end
            → Receives buf (chunk ∷ chunks) items end
        go (waiting k) later = reads k later
        go (deciding o' part _ k whole good) later =
            let (same_o, same_rest) = same_result (ap decode e ∙ whole) h in
            finish buf part (chunk ∷ chunks) (k ∙ ap (λ x. (x, part)) same_o) (sym same_rest)
              (subst Good same_rest good)

    -- Nothing is decided on any part of a stream on which the decoder waits.
    read_all :
        (src : Bytes)
        → decode src ≡ (ok none, src)
        → Good src
        → (chunks : List Bytes) (buf : Bytes) → src ≡ buf ++ concat chunks
        → Receives buf chunks [] (left src)
    read_all src h g [] buf e =
        let same : src ≡ buf = e ∙ append-nil buf in
        subst (λ s. Receives s [] [] (left src)) same (ends h)
    read_all src h g (chunk ∷ chunks) buf e =
        go (incremental buf (chunk ++ concat chunks) (subst Good e g)) (
          read_all src h g chunks (buf ++ chunk) (e ∙ sym (append_assoc buf chunk (concat chunks))))
      where
        go :
            Prefix Good buf (chunk ++ concat chunks)
            → Receives (buf ++ chunk) chunks [] (left src)
            → Receives buf (chunk ∷ chunks) [] (left src)
        go (waiting k) later = reads k later
        go (deciding o part ne k whole good) later =
            absurd (ne ((same_result (ap decode e ∙ whole) h).0))

    pub Drains-Receives :
        {src : Bytes} {items : List Item} {end : End}
        → Drains src items end
        → (buf : Bytes) (chunks : List Bytes) → src ≡ buf ++ concat chunks
        → Good src
        → Receives buf chunks items end
    Drains-Receives {src} (waits h) buf chunks e g = read_all src h g chunks buf e
    Drains-Receives {src} (fails {rest = rest} {e = x} h) buf chunks e g =
        read_on src rest (err x) [] (refused x) (λ q. cc) h g (λ b p cs k _ _. fails k) chunks buf e
    Drains-Receives {src} (breaks {rest = rest} h) buf chunks e g =
        read_on src rest panic [] crashed (λ q. cc) h g (λ b p cs k _ _. breaks k) chunks buf e
    Drains-Receives {src} (item {rest = rest} {a = a} {items = items} {end = end} h d) buf chunks e
          g =
        read_on src rest (ok (some a)) (a ∷ items) end (λ q. cc) h g
          (λ b part cs k split good. item k (Drains-Receives d part cs split good)) chunks buf e
