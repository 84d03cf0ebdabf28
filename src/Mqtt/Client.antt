-- ===== src/Mqtt/Client.antt =====
-- `MqttClient` of src/mqtt.rs: the caller of its methods and the task that `start` spawns, as one
-- state that both write. The crates `rumqttc` and `serde_json` are parameters: what a poll of the
-- event loop yields and whether a publish or a subscribe succeeds are part of an action, and the
-- JSON coding is a record. What the client prints is left out.
mod State
pub use State.*
unfoldable pub use State.{new, find, remove}
use bambu_rs.Prelude.{
  ℕ, ◌+◌, ◌^◌, ◌%◌, Bool, true, false, Option, none, some, List, [], ◌∷◌, ◌++◌, Bytes, codes,
  get_elem?, ltb, ◌==◌, if◌then◌else◌,
}
use bambu_rs.Outcome.{Outcome, ok, panic}
use bambu_rs.Text.Decimal.{display}
use bambu_rs.Text.Equal.{same}
use bambu_rs.Mqtt.Command
use bambu_rs.Mqtt.Command.{Command}
use bambu_rs.Mqtt.Message
use bambu_rs.Mqtt.Message.{Message}

-- `next_sequence_id`: the counter is a `u64`; the flag says whether the build checks for overflow.
unfoldable pub next_sequence_id : Bool → Client → Outcome Bytes × Client
next_sequence_id checks c =
    if ltb (c.next_id + 1) (2 ^ 64)
    then (ok (display c.next_id), record c { next_id = c.next_id + 1 })
    else if checks
    then (panic, c)
    else (ok (display c.next_id), record c { next_id = (c.next_id + 1) % 2 ^ 64 })

abbrev pub topic : Bytes → Bytes → Bytes
topic serial kind = codes "device/" ++ (serial ++ (codes "/" ++ kind))

abbrev pub answer : Command → Answer → Client → Client
answer command a c = record c { caller = idle; answers = c.answers ++ (command, a) ∷ [] }

-- `send_raw_command_and_wait`, up to `rx.await`, once the command is serialised. The flag says
-- whether the publish succeeds; if not, the receiver is dropped, and the entry stays in the map.
unfoldable pub register : Command → Bytes → Bool → Client → Client
register command payload publishes c =
    let ch = c.made in
    let id = Command.sequence_id command in
    let c' = record c {
      inflight = insert id ch c.inflight;
      channels = sever (find id c.inflight) c.channels;
      made = ch + 1;
    } in
    if publishes
    then record c' {
      published = c.published ++ (topic c.serial (codes "request"), payload) ∷ [];
      caller = waiting command ch;
    }
    else answer command client_error (record c' { channels = update c'.channels ch deaf })

-- `rx.await`
unfoldable pub receive : Command → ℕ → Channel → Client → Client
receive command ch (filled m) c = answer command (response m) c
receive command ch mute c = answer command panicked c
receive command ch _ c = c

-- An incoming message that was parsed. `push_status` reports belong to no command.
unfoldable pub is_push_status : Message → Bool
is_push_status (Message.print p) = same p.command (codes "push_status")
is_push_status _ = false

-- `inflight_command.send(msg).unwrap()`
unfoldable pub deliver : Message → ℕ → Channel → Client → Client
deliver m ch empty c = record c { channels = update c.channels ch (filled m) }
deliver m ch _ c = record c { worker = crashed }

unfoldable pub route : Message → Option ℕ → Client → Client
unfolding deliver
route m none c = c
route m (some ch) c =
    deliver m ch (c.channels ch) (record c { inflight = remove (Message.sequence_id m) c.inflight })

unfoldable pub handle_message : Message → Client → Client
unfolding route
handle_message m c =
    if is_push_status m then c else route m (find (Message.sequence_id m) c.inflight) c

-- What `event_loop.poll()` yields.
pub data Event : Type 0 where
  -- a `ConnAck`; whether the subscribe that follows succeeds, and whether `start` still waits
  conn_ack : Bool → Bool → Event
  publish : Bytes → Event
  -- any other packet, or an outgoing event
  other : Event
  -- an error; whether `start` still waits, if it was not told yet
  failure : Bool → Event

-- What can happen next. The caller holds `&mut self`, so it awaits one method at a time.
pub data Action : Type 0 where
  -- `start`, up to the spawn
  start : Action
  stop : Action
  -- the task sees the stop flag
  tick : Action
  -- `send_raw_command_and_wait`; whether the publish succeeds
  request : Command → Bool → Action
  -- `send_raw_command`; whether the publish succeeds
  notify : Command → Bool → Action
  -- the caller polls the method that it awaits
  resume : Action
  -- the caller drops the method that it awaits
  give_up : Action
  -- the task polls the event loop
  event : Event → Action
  -- the same of a task that ran when `start` was called again
  older_tick : ℕ → Action
  older_event : ℕ → Event → Action

-- What an older task does: what the newest one would do in its place.
unfoldable pub in_place : Option Worker → ℕ → (Client → Client) → Client → Client
in_place none i go c = c
in_place (some worker) i go c =
    let d = go (record c { worker = worker }) in
    record d { worker = c.worker; older = replace i d.worker d.older }

abbrev pub older_task : ℕ → (Client → Client) → Client → Client
older_task i go c = in_place (get_elem? c.older i) i go c

-- `stop`
abbrev pub raise_stop_flag : Client → Client
raise_stop_flag c = record c { stop_flag = true }

module _ (json : Json) where
  -- One round of the loop in the spawned task, by the flag of `running`.
  unfoldable pub handle_event : Bool → Event → Client → Client
  handle_event pending (conn_ack false listens) c = record c { worker = ended }
  handle_event pending (conn_ack true listens) c =
      let c' = record c { subscribed = c.subscribed ++ topic c.serial (codes "report") ∷ [] } in
      if pending
      then (if listens
          then record c' { worker = running false }
          else record c' { worker = crashed })
      else c'
  handle_event pending (publish payload) c = elim (json.from_slice payload) [
    | none ↦ c
    | some m ↦ handle_message m c
  ]
  handle_event pending other c = c
  handle_event pending (failure listens) c =
      if pending
      then (if listens then record c { worker = ended } else record c { worker = crashed })
      else record c { worker = ended }

  unfoldable pub poll : Worker → Event → Client → Client
  poll (running pending) e c = handle_event pending e c
  poll _ e c = c

  -- A command is serialised before anything is written.
  unfoldable pub begin : Command → Bool → Option Bytes → Client → Client
  begin command publishes none c = answer command serde_error c
  begin command publishes (some payload) c =
      if c.connected then register command payload publishes c else answer command panicked c

  unfoldable pub send : Command → Bool → Option Bytes → Client → Client
  send command publishes none c = answer command serde_error c
  send command publishes (some payload) c =
      if c.connected
      then (if publishes
          then record c {
            published = c.published ++ (topic c.serial (codes "request"), payload) ∷ [];
          }
          else answer command client_error c)
      else answer command panicked c

  -- `start`, up to the spawn. A task that runs goes on beside the new one, with its own connection.
  unfoldable pub spawn : Worker → Client → Client
  spawn (running pending) c = record c {
    connected = true;
    stop_flag = false;
    worker = running true;
    older = running pending ∷ c.older;
  }
  spawn _ c = record c { connected = true; stop_flag = false; worker = running true }

  unfoldable pub see_stop : Worker → Client → Client
  see_stop (running pending) c = if c.stop_flag then record c { worker = ended } else c
  see_stop _ c = c

  -- A caller that awaits nothing calls a method; one that awaits an answer polls or drops it.
  unfoldable pub act : Caller → Action → Client → Client
  act idle start c = spawn c.worker c
  act idle stop c = raise_stop_flag c
  act idle (request command publishes) c = begin command publishes (json.to_vec command) c
  act idle (notify command publishes) c = send command publishes (json.to_vec command) c
  act (waiting command ch) resume c = receive command ch (c.channels ch) c
  act (waiting command ch) give_up c = record c {
    caller = idle;
    channels = update c.channels ch deaf;
  }
  act _ tick c = see_stop c.worker c
  act _ (event e) c = poll c.worker e c
  act _ (older_tick i) c = older_task i (λ d. see_stop d.worker d) c
  act _ (older_event i e) c = older_task i (λ d. poll d.worker e d) c
  act _ _ c = c

  abbrev pub step : Action → Client → Client
  step a c = act c.caller a c

  abbrev pub run : List Action → Client → Client
  run [] c = c
  run (a ∷ rest) c = run rest (step a c)
