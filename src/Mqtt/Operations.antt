-- ===== src/Mqtt/Operations.antt =====
-- The operations of the client of src/mqtt.rs and of its task, and the invariant.
use bambu_rs.Prelude.{
  ℕ, ◌+◌, ◌<◌, ◌≡◌, sym, ap, ◌∙◌, Bool, true, false, Option, none, some, inl, inr, List, [], ◌∷◌,
  arith, Bytes, All, All-append, All-weaken, if◌then◌else◌,
}
use bambu_rs.Mqtt.Command
use bambu_rs.Mqtt.Command.{Command}
use bambu_rs.Mqtt.Message
use bambu_rs.Mqtt.Message.{Message}
use bambu_rs.Mqtt.Client.{
  Json, filled, Answer, client_error, serde_error, panicked, Worker, not_started, running, ended,
  crashed, Client, remove, answer, register, handle_message, Event, conn_ack, publish, other,
  failure, handle_event, poll, in_place, begin, send, spawn, see_stop,
}
use bambu_rs.Mqtt.Inflight.{All-remove}
use bambu_rs.Mqtt.Invariant.{
  Awaits, Matches, IsValid, handle_message-IsValid, register-Awaits, sever-unmade,
}

-- The invariant reads none of these fields.
pub other_fields :
    (connected stop_flag : Bool) (worker : Worker) (published : List (Bytes × Bytes))
    (subscribed : List Bytes) (c : Client)
    → IsValid c
    → IsValid (record c {
      connected = connected;
      stop_flag = stop_flag;
      worker = worker;
      published = published;
      subscribed = subscribed;
    })
other_fields x f w p s c v = record {
  entries_made = v.entries_made;
  unmade = v.unmade;
  awaited = v.awaited;
  matched = v.matched;
}

pub workers-IsValid :
    (worker : Worker) (older : List Worker) (c : Client)
    → IsValid c
    → IsValid (record c { worker = worker; older = older })
workers-IsValid worker older c v = record {
  entries_made = v.entries_made;
  unmade = v.unmade;
  awaited = v.awaited;
  matched = v.matched;
}

pub in_place-IsValid :
    (o : Option Worker) (i : ℕ) (go : Client → Client) (c : Client)
    → ((d : Client) → IsValid d → IsValid (go d))
    → IsValid c
    → IsValid (in_place o i go c)
unfolding in_place
in_place-IsValid none i go c keeps v = v
in_place-IsValid (some worker) i go c keeps v =
    workers-IsValid c.worker _ _ (keeps _ (workers-IsValid worker c.older c v))

entries_made_later :
    (command : Command) (c : Client)
    → IsValid c
    → All (λ (e : Bytes × ℕ). e.1 < c.made + 1) (remove (Command.sequence_id command) c.inflight)
entries_made_later command c v =
    All-weaken (λ (e : Bytes × ℕ). e.1 < c.made) _ (remove (Command.sequence_id command) c.inflight)
      (λ e h. omega arith) (All-remove _ (Command.sequence_id command) c.inflight v.entries_made)

pub answer-IsValid :
    (command : Command) (a : Answer) (c : Client)
    → Matches (command, a)
    → IsValid c
    → IsValid (answer command a c)
answer-IsValid command a c h v = record {
  entries_made = v.entries_made;
  unmade = v.unmade;
  awaited = tt;
  matched = All-append Matches c.answers ((command, a) ∷ []) v.matched (h, tt);
}

pub register-IsValid :
    (command : Command) (payload : Bytes) (publishes : Bool) (c : Client)
    → IsValid c
    → IsValid (register command payload publishes c)
unfolding register
register-IsValid command payload true c v = record {
  entries_made = (omega arith, entries_made_later command c v);
  unmade = λ n h. sever-unmade (Command.sequence_id command) c n v (omega arith);
  awaited = register-Awaits command c v;
  matched = v.matched;
}
register-IsValid command payload false c v = record {
  entries_made = (omega arith, entries_made_later command c v);
  unmade = λ n h. ground (arith, sever-unmade (Command.sequence_id command) c n v (omega arith));
  awaited = tt;
  matched = All-append Matches c.answers ((command, client_error) ∷ []) v.matched (tt, tt);
}

IsValid-if : (b : Bool) (x y : Client) → IsValid x → IsValid y → IsValid (if b then x else y)
IsValid-if true x y h k = h
IsValid-if false x y h k = k

pub begin-IsValid :
    (json : Json) (command : Command) (publishes : Bool) (payload : Option Bytes) (c : Client)
    → IsValid c
    → IsValid (begin json command publishes payload c)
unfolding begin
begin-IsValid json command publishes none c v = answer-IsValid command serde_error c tt v
begin-IsValid json command publishes (some payload) c v =
    IsValid-if c.connected _ _ (register-IsValid command payload publishes c v)
      (answer-IsValid command panicked c tt v)

pub send-IsValid :
    (json : Json) (command : Command) (publishes : Bool) (payload : Option Bytes) (c : Client)
    → IsValid c
    → IsValid (send json command publishes payload c)
unfolding send
send-IsValid json command publishes none c v = answer-IsValid command serde_error c tt v
send-IsValid json command true (some payload) c v =
    IsValid-if c.connected _ _ (other_fields _ _ _ _ _ c v) (answer-IsValid command panicked c tt v)
send-IsValid json command false (some payload) c v =
    IsValid-if c.connected _ _ (answer-IsValid command client_error c tt v)
      (answer-IsValid command panicked c tt v)

publish-IsValid :
    (o : Option Message) (c : Client)
    → IsValid c
    → IsValid (elim o [ none ↦ c | some m ↦ handle_message m c ])
publish-IsValid none c v = v
publish-IsValid (some m) c v = handle_message-IsValid m c v

handle_event-IsValid :
    (json : Json) (pending : Bool) (e : Event) (c : Client)
    → IsValid c
    → IsValid (handle_event json pending e c)
unfolding handle_event
handle_event-IsValid json pending (conn_ack false listens) c v = other_fields _ _ _ _ _ c v
handle_event-IsValid json false (conn_ack true listens) c v = other_fields _ _ _ _ _ c v
handle_event-IsValid json true (conn_ack true false) c v = other_fields _ _ _ _ _ c v
handle_event-IsValid json true (conn_ack true true) c v = other_fields _ _ _ _ _ c v
handle_event-IsValid json pending (publish payload) c v =
    publish-IsValid (json.from_slice payload) c v
handle_event-IsValid json pending other c v = v
handle_event-IsValid json false (failure listens) c v = other_fields _ _ _ _ _ c v
handle_event-IsValid json true (failure false) c v = other_fields _ _ _ _ _ c v
handle_event-IsValid json true (failure true) c v = other_fields _ _ _ _ _ c v

pub poll-IsValid :
    (json : Json) (worker : Worker) (e : Event) (c : Client)
    → IsValid c
    → IsValid (poll json worker e c)
unfolding poll
poll-IsValid json (running pending) e c v = handle_event-IsValid json pending e c v
poll-IsValid json not_started e c v = v
poll-IsValid json ended e c v = v
poll-IsValid json crashed e c v = v

pub spawn-IsValid :
    (json : Json) (worker : Worker) (c : Client) → IsValid c → IsValid (spawn json worker c)
unfolding spawn
spawn-IsValid json (running pending) c v =
    workers-IsValid (running true) (running pending ∷ c.older) _
      (other_fields true false (running true) c.published c.subscribed c v)
spawn-IsValid json not_started c v = other_fields _ _ _ _ _ c v
spawn-IsValid json ended c v = other_fields _ _ _ _ _ c v
spawn-IsValid json crashed c v = other_fields _ _ _ _ _ c v

pub see_stop-IsValid :
    (json : Json) (worker : Worker) (c : Client) → IsValid c → IsValid (see_stop json worker c)
unfolding see_stop
see_stop-IsValid json (running pending) c v =
    IsValid-if c.stop_flag _ _ (other_fields _ _ _ _ _ c v) v
see_stop-IsValid json not_started c v = v
see_stop-IsValid json ended c v = v
see_stop-IsValid json crashed c v = v

-- What an awaited channel holds has the id of the command.
pub Awaits-filled :
    (command : Command) (ch : ℕ) (m : Message) (c : Client)
    → Awaits command ch c.inflight c.channels c.made
    → c.channels ch ≡ filled m
    → Message.sequence_id m ≡ Command.sequence_id command
Awaits-filled command ch m c w e = elim w.status [
  | inl (q, h) ↦ cc
  | inr (n, q, h) ↦ let same_message : n ≡ m = cc in ap Message.sequence_id (sym same_message) ∙ h
]
