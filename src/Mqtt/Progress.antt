-- ===== src/Mqtt/Progress.antt =====
-- A command of src/mqtt.rs and its response: when the caller is answered, and when it waits for ever.
use bambu_rs.Prelude.{
  ℕ, get_elem?, ◌≡◌, refl, ap, subst, ◌∙◌, Bool, false, Option, none, some, inl, inr, List, [], ◌∷◌,
  arith, Bytes, All, if◌then◌else◌,
}
use bambu_rs.Mqtt.Command
use bambu_rs.Mqtt.Command.{Command}
use bambu_rs.Mqtt.Message
use bambu_rs.Mqtt.Message.{Message}
use bambu_rs.Mqtt.Client.{
  Json, empty, filled, deaf, response, idle, waiting, Worker, not_started, running, ended, crashed,
  Client, find, remove, update, answer, receive, deliver, route, handle_message, is_push_status,
  publish, failure, handle_event, poll, Action, start, stop, tick, request, notify, resume, give_up,
  event, older_tick, older_event, older_task, in_place, see_stop, act, step, run,
}
use bambu_rs.Mqtt.Invariant.{Awaits, CallerIsValid, IsValid}

-- The caller awaits `command` on `ch`, the response has not come, and the task runs.
pub record Pending (command : Command) (ch : ℕ) (pending : Bool) (c : Client) : Type 0 where
  pub caller_waits : c.caller ≡ waiting command ch
  pub no_response : c.channels ch ≡ empty
  pub runs : c.worker ≡ running pending

-- The published bytes are a message for the command.
pub record Responds (json : Json) (payload : Bytes) (m : Message) (command : Command) : Type 0 where
  pub parses : json.from_slice payload ≡ some m
  pub is_response : is_push_status m ≡ false
  pub same_id : Message.sequence_id m ≡ Command.sequence_id command

Pending-find :
    (command : Command) (ch : ℕ) (c : Client)
    → c.channels ch ≡ empty
    → Awaits command ch c.inflight c.channels c.made
    → find (Command.sequence_id command) c.inflight ≡ some ch
Pending-find command ch c e w = elim w.status [ inl (q, h) ↦ h | inr (m, q, h) ↦ cc ]

-- The client after the response has come.
abbrev pub answered : Message → ℕ → Client → Client
answered m ch c = record c {
  inflight = remove (Message.sequence_id m) c.inflight;
  channels = update c.channels ch (filled m);
}

handle_message-answered :
    (command : Command) (ch : ℕ) (m : Message) (c : Client)
    → IsValid c
    → c.caller ≡ waiting command ch
    → c.channels ch ≡ empty
    → is_push_status m ≡ false
    → Message.sequence_id m ≡ Command.sequence_id command
    → handle_message m c ≡ answered m ch c
unfolding handle_message route deliver
handle_message-answered command ch m c v waits e report same_id =
    let w : Awaits command ch c.inflight c.channels c.made =
      subst (λ x. CallerIsValid x c.inflight c.channels c.made) waits v.awaited in
    let hit = ap (λ k. find k c.inflight) same_id ∙ Pending-find command ch c e w in
    ap (λ b. if b then c else route m (find (Message.sequence_id m) c.inflight) c) report
    ∙ ap (λ o. route m o c) hit
    ∙ ap (λ s. deliver m ch s (record c { inflight = remove (Message.sequence_id m) c.inflight })) e

step-answered :
    (json : Json) (command : Command) (ch : ℕ) (pending : Bool) (payload : Bytes) (m : Message)
    (c : Client)
    → IsValid c
    → Pending command ch pending c
    → Responds json payload m command
    → step json (event (publish payload)) c ≡ answered m ch c
unfolding act poll handle_event
step-answered json command ch pending payload m c v p r =
    ap (λ x. act json x (event (publish payload)) c) p.caller_waits
    ∙ ap (λ x. poll json x (publish payload) c) p.runs
    ∙ ap (λ (o : Option Message). elim o [ none ↦ c | some x ↦ handle_message x c ]) r.parses
    ∙ handle_message-answered command ch m c v p.caller_waits p.no_response r.is_response r.same_id

-- In every state that keeps the invariant, with a command awaited, no response yet and the task
-- running: when a message with the command's sequence id is published that parses and is no
-- `push_status` report, and the caller polls, the method returns that message, and the caller awaits
-- nothing.
pub run-answered :
    (json : Json) (command : Command) (ch : ℕ) (pending : Bool) (payload : Bytes) (m : Message)
    (c : Client)
    → IsValid c
    → Pending command ch pending c
    → Responds json payload m command
    → run json (event (publish payload) ∷ resume ∷ []) c
      ≡ answer command (response m) (answered m ch c)
unfolding act receive
run-answered json command ch pending payload m c v p r =
    let now_filled : update c.channels ch (filled m) ch ≡ filled m = ground arith in
    ap (step json resume) (step-answered json command ch pending payload m c v p r)
    ∙ ap (λ x. act json x resume (answered m ch c)) p.caller_waits
    ∙ ap (λ s. receive command ch s (answered m ch c)) now_filled

-- The task is not there.
abbrev pub IsDown : Worker → Type 0
IsDown (running pending) = ⊥
IsDown _ = Unit

abbrev pub KeepsWaiting : Action → Type 0
KeepsWaiting give_up = ⊥
KeepsWaiting _ = Unit

-- There is no older task.
alone : (i : ℕ) (go : Client → Client) (c : Client) → c.older ≡ [] → older_task i go c ≡ c
unfolding in_place
alone i go c o = ap (λ older. in_place (get_elem? older i) i go c) o

act-down :
    (json : Json) (command : Command) (ch : ℕ) (worker : Worker) (a : Action) (c : Client)
    → c.worker ≡ worker
    → c.channels ch ≡ empty
    → c.older ≡ []
    → IsDown worker
    → KeepsWaiting a
    → act json (waiting command ch) a c ≡ c
unfolding act poll see_stop receive
act-down json command ch worker start c w e o d k = refl
act-down json command ch worker stop c w e o d k = refl
act-down json command ch worker (request other_command publishes) c w e o d k = refl
act-down json command ch worker (notify other_command publishes) c w e o d k = refl
act-down json command ch worker give_up c w e o d k = absurd k
act-down json command ch worker resume c w e o d k = ap (λ s. receive command ch s c) e
act-down json command ch (running pending) a c w e o d k = absurd d
act-down json command ch not_started (older_tick i) c w e o d k = alone i _ c o
act-down json command ch ended (older_tick i) c w e o d k = alone i _ c o
act-down json command ch crashed (older_tick i) c w e o d k = alone i _ c o
act-down json command ch not_started (older_event i v) c w e o d k = alone i _ c o
act-down json command ch ended (older_event i v) c w e o d k = alone i _ c o
act-down json command ch crashed (older_event i v) c w e o d k = alone i _ c o
act-down json command ch not_started tick c w e o d k = ap (λ x. see_stop json x c) w
act-down json command ch ended tick c w e o d k = ap (λ x. see_stop json x c) w
act-down json command ch crashed tick c w e o d k = ap (λ x. see_stop json x c) w
act-down json command ch not_started (event v) c w e o d k = ap (λ x. poll json x v c) w
act-down json command ch ended (event v) c w e o d k = ap (λ x. poll json x v c) w
act-down json command ch crashed (event v) c w e o d k = ap (λ x. poll json x v c) w

run-down :
    (json : Json) (command : Command) (ch : ℕ) (actions : List Action) (c : Client)
    → c.caller ≡ waiting command ch
    → c.channels ch ≡ empty
    → c.older ≡ []
    → IsDown c.worker
    → All KeepsWaiting actions
    → run json actions c ≡ c
run-down json command ch [] c h e o d k = refl
run-down json command ch (a ∷ actions) c h e o d k =
    let one : step json a c ≡ c =
      ap (λ x. act json x a c) h ∙ act-down json command ch c.worker a c refl e o d k.0 in
    ap (run json actions) one ∙ run-down json command ch actions c h e o d k.1

step-failure :
    (json : Json) (command : Command) (ch : ℕ) (c : Client)
    → Pending command ch false c
    → (listens : Bool) → step json (event (failure listens)) c ≡ record c { worker = ended }
unfolding act poll handle_event
step-failure json command ch c p listens =
    ap (λ x. act json x (event (failure listens)) c) p.caller_waits
    ∙ ap (λ x. poll json x (failure listens) c) p.runs

-- When the connection of the only task fails while a connected client awaits a response, the task
-- ends and the awaited method never returns: after any further actions but the caller giving up, the
-- state is that of the failure, with the caller still waiting.
pub run-failure :
    (json : Json) (command : Command) (ch : ℕ) (listens : Bool) (actions : List Action) (c : Client)
    → Pending command ch false c
    → c.older ≡ []
    → All KeepsWaiting actions
    → run json (event (failure listens) ∷ actions) c ≡ record c { worker = ended }
run-failure json command ch listens actions c p o k =
    ap (run json actions) (step-failure json command ch c p listens)
    ∙ run-down json command ch actions (record c { worker = ended }) p.caller_waits p.no_response o
        tt k

-- The client after the caller dropped the method that it awaited.
abbrev pub dropped : ℕ → Client → Client
dropped ch c = record c { caller = idle; channels = update c.channels ch deaf }

handle_message-late :
    (command : Command) (ch : ℕ) (m : Message) (c : Client)
    → IsValid c
    → c.caller ≡ waiting command ch
    → c.channels ch ≡ empty
    → is_push_status m ≡ false
    → Message.sequence_id m ≡ Command.sequence_id command
    → (handle_message m (dropped ch c)).worker ≡ crashed
unfolding handle_message route deliver
handle_message-late command ch m c v waits e report same_id =
    let w : Awaits command ch c.inflight c.channels c.made =
      subst (λ x. CallerIsValid x c.inflight c.channels c.made) waits v.awaited in
    let hit = ap (λ k. find k c.inflight) same_id ∙ Pending-find command ch c e w in
    let closed : update c.channels ch deaf ch ≡ deaf = ground arith in
    let d = dropped ch c in
    ap (λ b. (if b then d else route m (find (Message.sequence_id m) c.inflight) d).worker) report
    ∙ ap (λ o. (route m o d).worker) hit
    ∙ ap
        (λ s.
          (deliver m ch s
            (record d { inflight = remove (Message.sequence_id m) c.inflight })).worker)
        closed

-- In every state that keeps the invariant, with a command awaited, no response yet and the task
-- running: when the caller drops the method that it awaits, and then the response to the command
-- comes, the task panics.
pub run-late :
    (json : Json) (command : Command) (ch : ℕ) (pending : Bool) (payload : Bytes) (m : Message)
    (c : Client)
    → IsValid c
    → Pending command ch pending c
    → Responds json payload m command
    → (run json (give_up ∷ event (publish payload) ∷ []) c).worker ≡ crashed
unfolding act poll handle_event
run-late json command ch pending payload m c v p r =
    let d = dropped ch c in
    let first : step json give_up c ≡ d = ap (λ x. act json x give_up c) p.caller_waits in
    let whole : step json (event (publish payload)) (step json give_up c) ≡ handle_message m d =
      ap (step json (event (publish payload))) first
      ∙ ap (λ x. poll json x (publish payload) d) p.runs
      ∙ ap (λ (o : Option Message). elim o [ none ↦ d | some x ↦ handle_message x d ]) r.parses in
    ap (λ x. x.worker) whole
    ∙ handle_message-late command ch m c v p.caller_waits p.no_response r.is_response r.same_id
