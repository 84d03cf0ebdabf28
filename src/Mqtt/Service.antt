-- ===== src/Mqtt/Service.antt =====
-- What the client of src/mqtt.rs is to its caller: a service that answers one command at a time.
use bambu_rs.Prelude.{ℕ, ◌≡◌, Bool, true, false, Option, none, some, List, [], ◌∷◌, ◌++◌, Bytes}
use bambu_rs.Mqtt.Command
use bambu_rs.Mqtt.Command.{Command}
use bambu_rs.Mqtt.Message
use bambu_rs.Mqtt.Message.{Message}
use bambu_rs.Mqtt.Client.{
  Json, Channel, filled, Answer, response, client_error, serde_error, panicked, Caller, idle,
  waiting, Client, Event, Action, start, stop, tick, request, notify, resume, give_up, event,
  older_tick, older_event, step,
}

-- What a caller sees: whether the client was ever started, the command that is awaited, the response
-- that is there for the next poll, and what every command was answered with.
pub record Service : Type 0 where
  pub started : Bool
  pub asked : Option Command
  pub arrived : Option Message
  pub replies : List (Command × Answer)

-- What an event of the connection does to the service: nothing, or a response with the id of the
-- awaited command arrives, the first one only.
pub data Keeps : Service → Service → Type 0 where
  same : {s : Service} → Keeps s s
  arrives :
      {started : Bool} {command : Command} {replies : List (Command × Answer)} (m : Message)
      → Message.sequence_id m ≡ Command.sequence_id command
      → Keeps
          (record { started = started; asked = some command; arrived = none; replies = replies })
          (record { started = started; asked = some command; arrived = some m; replies = replies })

-- What a caller that awaits a command cannot do, since the method borrows the client.
pub data IsCall : Action → Type 0 where
  start_call : IsCall start
  stop_call : IsCall stop
  request_call : {command : Command} {publishes : Bool} → IsCall (request command publishes)
  notify_call : {command : Command} {publishes : Bool} → IsCall (notify command publishes)

module _ (json : Json) where
  -- Why a command is refused: by the client's being started, and by whether the publish succeeds.
  pub data IsRefusal (command : Command) : Bool → Bool → Answer → Type 0 where
    no_json :
        {started publishes : Bool}
        → json.to_vec command ≡ none
        → IsRefusal command started publishes serde_error
    not_started :
        {publishes : Bool} {payload : Bytes}
        → json.to_vec command ≡ some payload
        → IsRefusal command false publishes panicked
    not_sent :
        {payload : Bytes}
        → json.to_vec command ≡ some payload
        → IsRefusal command true false client_error

  -- What each action does to the service.
  pub data Serves : Action → Service → Service → Type 0 where
    ticks : {s : Service} → Serves tick s s
    older_ticks : {i : ℕ} {s : Service} → Serves (older_tick i) s s
    happens : {e : Event} {s t : Service} → Keeps s t → Serves (event e) s t
    older_happens : {i : ℕ} {e : Event} {s t : Service} → Keeps s t → Serves (older_event i e) s t
    starts :
        {started : Bool} {replies : List (Command × Answer)}
        → Serves start
            (record { started = started; asked = none; arrived = none; replies = replies })
            (record { started = true; asked = none; arrived = none; replies = replies })
    stops :
        {started : Bool} {replies : List (Command × Answer)}
        → Serves stop
            (record { started = started; asked = none; arrived = none; replies = replies })
            (record { started = started; asked = none; arrived = none; replies = replies })
    asks :
        {command : Command} {payload : Bytes} {replies : List (Command × Answer)}
        → json.to_vec command ≡ some payload
        → Serves
            (request command true)
            (record { started = true; asked = none; arrived = none; replies = replies })
            (record { started = true; asked = some command; arrived = none; replies = replies })
    tells :
        {command : Command} {payload : Bytes} {replies : List (Command × Answer)}
        → json.to_vec command ≡ some payload
        → Serves
            (notify command true)
            (record { started = true; asked = none; arrived = none; replies = replies })
            (record { started = true; asked = none; arrived = none; replies = replies })
    -- A command is refused when it is asked, and not later.
    refuses_request :
        {command : Command} {started publishes : Bool} {a : Answer}
        {replies : List (Command × Answer)}
        → IsRefusal command started publishes a
        → Serves
            (request command publishes)
            (record { started = started; asked = none; arrived = none; replies = replies })
            (record {
              started = started;
              asked = none;
              arrived = none;
              replies = replies ++ (command, a) ∷ [];
            })
    refuses_notify :
        {command : Command} {started publishes : Bool} {a : Answer}
        {replies : List (Command × Answer)}
        → IsRefusal command started publishes a
        → Serves
            (notify command publishes)
            (record { started = started; asked = none; arrived = none; replies = replies })
            (record {
              started = started;
              asked = none;
              arrived = none;
              replies = replies ++ (command, a) ∷ [];
            })
    -- The caller polls: it goes on to wait if nothing has arrived, or it has what has arrived.
    awaits_nothing :
        {started : Bool} {replies : List (Command × Answer)}
        → Serves resume
            (record { started = started; asked = none; arrived = none; replies = replies })
            (record { started = started; asked = none; arrived = none; replies = replies })
    waits :
        {started : Bool} {command : Command} {replies : List (Command × Answer)}
        → Serves resume
            (record { started = started; asked = some command; arrived = none; replies = replies })
            (record { started = started; asked = some command; arrived = none; replies = replies })
    replies_to :
        {started : Bool} {command : Command} {replies : List (Command × Answer)} (m : Message)
        → Message.sequence_id m ≡ Command.sequence_id command
        → Serves resume
            (record {
              started = started;
              asked = some command;
              arrived = some m;
              replies = replies;
            })
            (record {
              started = started;
              asked = none;
              arrived = none;
              replies = replies ++ (command, response m) ∷ [];
            })
    gives_up :
        {started : Bool} {asked : Option Command} {arrived : Option Message}
        {replies : List (Command × Answer)}
        → Serves give_up
            (record { started = started; asked = asked; arrived = arrived; replies = replies })
            (record { started = started; asked = none; arrived = none; replies = replies })
    cannot :
        {a : Action} {started : Bool} {command : Command} {arrived : Option Message}
        {replies : List (Command × Answer)}
        → IsCall a
        → Serves a
            (record {
              started = started;
              asked = some command;
              arrived = arrived;
              replies = replies;
            })
            (record {
              started = started;
              asked = some command;
              arrived = arrived;
              replies = replies;
            })

abbrev pub command_of : Caller → Option Command
command_of idle = none
command_of (waiting command ch) = some command

abbrev pub arrived_in : Channel → Option Message
arrived_in (filled m) = some m
arrived_in _ = none

-- What is in the channel of the awaited command.
abbrev pub arrived_of : Caller → (ℕ → Channel) → Option Message
arrived_of idle channels = none
arrived_of (waiting command ch) channels = arrived_in (channels ch)

-- What a caller sees of the client, by whether it waits.
abbrev pub view_of : Caller → Client → Service
view_of caller c = record {
  started = c.connected;
  asked = command_of caller;
  arrived = arrived_of caller c.channels;
  replies = c.answers;
}

abbrev pub view : Client → Service
view c = view_of c.caller c

-- Each of the actions, one after the other, is a step of the service between what the caller sees in
-- front of it and what it sees behind it.
abbrev pub ServesAll : Json → List Action → Client → Type 0
ServesAll json [] c = Unit
ServesAll json (a ∷ actions) c =
    Serves json a (view c) (view (step json a c)) × ServesAll json actions (step json a c)
