-- ===== src/Mqtt/Invariant.antt =====
-- What holds of the client of src/mqtt.rs in every state that it reaches.
use bambu_rs.Prelude.{
  ℕ, ◌+◌, ◌≤◌, ◌<◌, ◌≡◌, ◌≢◌, refl, sym, ap, subst, ◌∙◌, ◌⊎◌, Option, none, some, inl, inr, List,
  arith, Bytes, All, All-weaken, Option-cases, Bool-cases,
}
use native.Mathlib.Decide.{ℕ_discrete}
use bambu_rs.Mqtt.Command
use bambu_rs.Mqtt.Command.{Command}
use bambu_rs.Mqtt.Message
use bambu_rs.Mqtt.Message.{Message}
use bambu_rs.Mqtt.Client.{
  Channel, empty, filled, deaf, mute, Answer, response, Caller, idle, waiting, crashed, Client, new,
  find, remove, insert, sever, update, deliver, handle_message, is_push_status,
}
use bambu_rs.Mqtt.Inflight.{All-remove, All-find, find-insert_self, find-remove_ne}

-- An awaited command: its channel is empty and the map leads to it from the command's id, or it
-- holds a message with that id.
pub record Awaits (command : Command) (ch : ℕ) (inflight : List (Bytes × ℕ))
    (channels : ℕ → Channel) (made : ℕ) : Type 0 where
  pub is_made : ch < made
  pub entries : All (λ (e : Bytes × ℕ). e.1 ≡ ch → e.0 ≡ Command.sequence_id command) inflight
  pub status :
      ((channels ch ≡ empty) × (find (Command.sequence_id command) inflight ≡ some ch))
      ⊎ ((m : Message) × (channels ch ≡ filled m)
          × (Message.sequence_id m ≡ Command.sequence_id command))

abbrev pub CallerIsValid : Caller → List (Bytes × ℕ) → (ℕ → Channel) → ℕ → Type 0
CallerIsValid idle inflight channels made = Unit
CallerIsValid (waiting command ch) inflight channels made = Awaits command ch inflight channels made

-- A response that was returned has the id of its command.
abbrev pub Matches : Command × Answer → Type 0
Matches (command, response m) = Message.sequence_id m ≡ Command.sequence_id command
Matches _ = Unit

pub record IsValid (c : Client) : Type 0 where
  pub entries_made : All (λ (e : Bytes × ℕ). e.1 < c.made) c.inflight
  pub unmade : (n : ℕ) → c.made ≤ n → c.channels n ≡ empty
  pub awaited : CallerIsValid c.caller c.inflight c.channels c.made
  pub matched : All Matches c.answers

pub new-IsValid : (serial : Bytes) → IsValid (new serial)
unfolding new
new-IsValid serial = record { entries_made = tt; unmade = λ n h. refl; awaited = tt; matched = tt }

some_inj : {a b : ℕ} → some a ≡ some b → a ≡ b
some_inj h = cc

-- A message for another channel, or a channel that is not empty any more, leaves an awaited command
-- as it was.
Awaits-remove :
    (k : Bytes) (target : ℕ) (command : Command) (ch : ℕ) (inflight : List (Bytes × ℕ))
    (channels channels' : ℕ → Channel) (made : ℕ)
    → find k inflight ≡ some target
    → (target ≡ ch → channels ch ≢ empty)
    → channels' ch ≡ channels ch
    → Awaits command ch inflight channels made
    → Awaits command ch (remove k inflight) channels' made
Awaits-remove k target command ch inflight channels channels' made hit full same w = record {
  is_made = w.is_made;
  entries = All-remove _ k inflight w.entries;
  status = go w.status;
}
  where
    id : Bytes
    id = Command.sequence_id command

    go :
        ((channels ch ≡ empty) × (find id inflight ≡ some ch))
          ⊎ ((m : Message) × (channels ch ≡ filled m) × (Message.sequence_id m ≡ id))
        → ((channels' ch ≡ empty) × (find id (remove k inflight) ≡ some ch))
          ⊎ ((m : Message) × (channels' ch ≡ filled m) × (Message.sequence_id m ≡ id))
    go (inr (m, e, q)) = inr (m, same ∙ e, q)
    go (inl (e, q)) = inl (
      same ∙ e,
      find-remove_ne id k inflight
            (λ r. full (some_inj (sym hit ∙ ap (λ t. find t inflight) (sym r) ∙ q)) e)
          ∙ q,
    )

-- The message for an awaited command fills its channel.
Awaits-fill :
    (m : Message) (command : Command) (ch : ℕ) (inflight : List (Bytes × ℕ))
    (channels : ℕ → Channel) (made : ℕ)
    → find (Message.sequence_id m) inflight ≡ some ch
    → Awaits command ch inflight channels made
    → Awaits command ch
        (remove (Message.sequence_id m) inflight)
        (update channels ch (filled m))
        made
Awaits-fill m command ch inflight channels made hit w = record {
  is_made = w.is_made;
  entries = All-remove _ (Message.sequence_id m) inflight w.entries;
  status = inr (
    m,
    ground arith,
    All-find (λ (e : Bytes × ℕ). e.1 ≡ ch → e.0 ≡ Command.sequence_id command)
        (Message.sequence_id m) inflight ch hit w.entries refl,
  );
}

CallerIsValid-route :
    (m : Message) (target : ℕ) (caller : Caller) (inflight : List (Bytes × ℕ))
    (channels : ℕ → Channel) (made : ℕ)
    → find (Message.sequence_id m) inflight ≡ some target
    → channels target ≡ empty
    → CallerIsValid caller inflight channels made
    → CallerIsValid caller
        (remove (Message.sequence_id m) inflight)
        (update channels target (filled m))
        made
CallerIsValid-route m target idle inflight channels made hit e w = tt
CallerIsValid-route m target (waiting command ch) inflight channels made hit e w =
    elim (ℕ_discrete target ch) [
      | yes q ↦
          subst
            (λ t.
              Awaits command ch (remove (Message.sequence_id m) inflight)
                (update channels t (filled m)) made)
            (sym q) (Awaits-fill m command ch inflight channels made (hit ∙ ap some q) w)
      | no ne ↦
          Awaits-remove (Message.sequence_id m) target command ch inflight channels _ made hit
            (λ q. absurd (ne q)) (ground arith) w
    ]

-- A message for a channel that is not empty crashes the task, and the entry is gone.
CallerIsValid-crash :
    (m : Message) (target : ℕ) (caller : Caller) (inflight : List (Bytes × ℕ))
    (channels : ℕ → Channel) (made : ℕ)
    → find (Message.sequence_id m) inflight ≡ some target
    → channels target ≢ empty
    → CallerIsValid caller inflight channels made
    → CallerIsValid caller (remove (Message.sequence_id m) inflight) channels made
CallerIsValid-crash m target idle inflight channels made hit ne w = tt
CallerIsValid-crash m target (waiting command ch) inflight channels made hit ne w =
    Awaits-remove (Message.sequence_id m) target command ch inflight channels channels made hit
      (λ q e. ne (ap channels q ∙ e)) refl w

deliver-IsValid :
    (m : Message) (target : ℕ) (c : Client)
    → IsValid c
    → find (Message.sequence_id m) c.inflight ≡ some target
    → IsValid (
        deliver m target
          (c.channels target)
          (record c { inflight = remove (Message.sequence_id m) c.inflight }))
unfolding deliver
deliver-IsValid m target c v hit = go (c.channels target) refl
  where
    rest : All (λ (e : Bytes × ℕ). e.1 < c.made) (remove (Message.sequence_id m) c.inflight)
    rest = All-remove _ (Message.sequence_id m) c.inflight v.entries_made

    target_made : target < c.made
    target_made =
        All-find (λ (e : Bytes × ℕ). e.1 < c.made) (Message.sequence_id m) c.inflight target hit
          v.entries_made

    crashed_IsValid :
        c.channels target ≢ empty
        → IsValid
            (record c { inflight = remove (Message.sequence_id m) c.inflight; worker = crashed })
    crashed_IsValid ne = record {
      entries_made = rest;
      unmade = v.unmade;
      awaited = CallerIsValid-crash m target c.caller c.inflight c.channels c.made hit ne v.awaited;
      matched = v.matched;
    }

    go :
        (s : Channel)
        → c.channels target ≡ s
        → IsValid
            (deliver m target s (record c { inflight = remove (Message.sequence_id m) c.inflight }))
    go empty e = record {
      entries_made = rest;
      unmade = λ n h. ground (arith, target_made, v.unmade n h);
      awaited = CallerIsValid-route m target c.caller c.inflight c.channels c.made hit e v.awaited;
      matched = v.matched;
    }
    go (filled x) e = crashed_IsValid (λ q. cc)
    go deaf e = crashed_IsValid (λ q. cc)
    go mute e = crashed_IsValid (λ q. cc)

pub handle_message-IsValid : (m : Message) (c : Client) → IsValid c → IsValid (handle_message m c)
unfolding handle_message
handle_message-IsValid m c v = elim (Bool-cases (is_push_status m)) [
  | inl h ↦ rw h v
  | inr h ↦ elim (Option-cases (find (Message.sequence_id m) c.inflight)) [
    | inl e ↦ rw (h, e) v
    | inr (target, e) ↦ rw (h, e) (deliver-IsValid m target c v e)
  ]
]

-- The channel that an insertion severs was made before.
pub sever-unmade :
    (k : Bytes) (c : Client) (n : ℕ)
    → IsValid c
    → c.made ≤ n
    → sever (find k c.inflight) c.channels n ≡ empty
sever-unmade k c n v h = go (find k c.inflight) refl
  where
    go : (o : Option ℕ) → find k c.inflight ≡ o → sever o c.channels n ≡ empty
    go none e = v.unmade n h
    go (some old) e =
        let small = All-find (λ (e : Bytes × ℕ). e.1 < c.made) k c.inflight old e v.entries_made in
        ground (arith, small, v.unmade n h)

-- A new command: its channel is new, so nothing else leads to it.
pub register-Awaits :
    (command : Command) (c : Client)
    → IsValid c
    → Awaits command c.made
        (insert (Command.sequence_id command) c.made c.inflight)
        (sever (find (Command.sequence_id command) c.inflight) c.channels)
        (c.made + 1)
register-Awaits command c v =
    let id = Command.sequence_id command in
    record {
      is_made = omega arith;
      entries = (
        λ _. refl,
        All-weaken (λ (e : Bytes × ℕ). e.1 < c.made) _ (remove id c.inflight)
            (λ e h q. absurd (omega arith)) (All-remove _ id c.inflight v.entries_made),
      );
      status =
          inl (sever-unmade id c c.made v (omega arith), find-insert_self id c.made c.inflight);
    }
