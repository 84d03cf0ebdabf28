-- ===== src/Mqtt/Ignored.antt =====
-- The messages that src/mqtt.rs reads and drops.
use bambu_rs.Prelude.{
  ℕ, ◌≡◌, refl, ap, ◌∙◌, ◌⊎◌, inl, inr, Bool, true, false, Option, none, some, List, [], ◌∷◌, ◌++◌,
  map, Bytes, All, if◌then◌else◌,
}
use bambu_rs.Mqtt.Command.{Command}
use bambu_rs.Mqtt.Message
use bambu_rs.Mqtt.Message.{Message}
use bambu_rs.Mqtt.Client.{
  Json, response, Caller, idle, waiting, running, Client, find, answer, handle_message, route,
  is_push_status, Event, conn_ack, publish, other, failure, handle_event, poll, Action, resume,
  event, act, step, run,
}
use bambu_rs.Mqtt.Invariant.{IsValid}
use bambu_rs.Mqtt.Progress.{Pending, Responds, answered, run-answered}

-- A message that answers nothing: a `push_status` report, or one whose id no command has that is
-- still in the map.
abbrev AnswersNothing : List (Bytes × ℕ) → Message → Type 0
AnswersNothing inflight m =
    (is_push_status m ≡ true) ⊎ (find (Message.sequence_id m) inflight ≡ none)

-- A packet that is read and dropped.
abbrev pub IsIgnored : Json → List (Bytes × ℕ) → Event → Type 0
IsIgnored json inflight other = Unit
IsIgnored json inflight (publish payload) =
    (json.from_slice payload ≡ none)
    ⊎ ((m : Message) × (json.from_slice payload ≡ some m) × AnswersNothing inflight m)
IsIgnored json inflight _ = ⊥

handle_message-ignored :
    (m : Message) (c : Client) → AnswersNothing c.inflight m → handle_message m c ≡ c
unfolding handle_message route
handle_message-ignored m c (inl report) =
    ap (λ b. if b then c else route m (find (Message.sequence_id m) c.inflight) c) report
handle_message-ignored m c (inr unknown) = go (is_push_status m)
  where
    go : (b : Bool) → (if b then c else route m (find (Message.sequence_id m) c.inflight) c) ≡ c
    go true = refl
    go false = ap (λ o. route m o c) unknown

handle_event-ignored :
    (json : Json) (pending : Bool) (e : Event) (c : Client)
    → IsIgnored json c.inflight e
    → handle_event json pending e c ≡ c
unfolding handle_event
handle_event-ignored json pending other c h = refl
handle_event-ignored json pending (publish payload) c (inl e) =
    ap (λ (o : Option Message). elim o [ none ↦ c | some m ↦ handle_message m c ]) e
handle_event-ignored json pending (publish payload) c (inr (m, e, h)) =
    ap (λ (o : Option Message). elim o [ none ↦ c | some x ↦ handle_message x c ]) e
    ∙ handle_message-ignored m c h
handle_event-ignored json pending (conn_ack subscribes listens) c h = absurd h
handle_event-ignored json pending (failure listens) c h = absurd h

pub step-ignored :
    (json : Json) (pending : Bool) (e : Event) (c : Client)
    → c.worker ≡ running pending
    → IsIgnored json c.inflight e
    → step json (event e) c ≡ c
unfolding act poll
step-ignored json pending e c runs h =
    go c.caller ∙ ap (λ w. poll json w e c) runs ∙ handle_event-ignored json pending e c h
  where
    go : (caller : Caller) → act json caller (event e) c ≡ poll json c.worker e c
    go idle = refl
    go (waiting command ch) = refl

pub run-ignored :
    (json : Json) (pending : Bool) (noise : List Event) (actions : List Action) (c : Client)
    → c.worker ≡ running pending
    → All (IsIgnored json c.inflight) noise
    → run json (map event noise ++ actions) c ≡ run json actions c
run-ignored json pending [] actions c runs h = refl
run-ignored json pending (e ∷ noise) actions c runs (h, hs) =
    ap (run json (map event noise ++ actions)) (step-ignored json pending e c runs h)
    ∙ run-ignored json pending noise actions c runs hs

-- In every state that keeps the invariant, with a command awaited, no response yet and the task
-- running: let any number of events come, each a packet that is neither a publication nor a
-- `ConnAck`, or a publication that does not parse, that is a `push_status` report (whatever its id),
-- or whose id is in no entry of the map; no event is a failure of the connection. When then the
-- message with the command's id is published, and the caller polls, the method returns that message.
pub run-ignored-answered :
    (json : Json) (command : Command) (ch : ℕ) (pending : Bool) (noise : List Event)
    (payload : Bytes) (m : Message) (c : Client)
    → IsValid c
    → Pending command ch pending c
    → All (IsIgnored json c.inflight) noise
    → Responds json payload m command
    → run json (map event noise ++ (event (publish payload) ∷ resume ∷ [])) c
      ≡ answer command (response m) (answered m ch c)
run-ignored-answered json command ch pending noise payload m c v p h r =
    run-ignored json pending noise (event (publish payload) ∷ resume ∷ []) c p.runs h
    ∙ run-answered json command ch pending payload m c v p r
