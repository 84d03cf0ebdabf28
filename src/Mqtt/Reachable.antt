-- ===== src/Mqtt/Reachable.antt =====
-- The states that the client of src/mqtt.rs reaches, action by action.
use bambu_rs.Prelude.{ℕ, ◌<◌, ◌≡◌, refl, List, [], ◌∷◌, arith, Bytes, All}
use bambu_rs.Mqtt.Command.{Command}
use bambu_rs.Mqtt.Client.{
  Json, Channel, empty, filled, deaf, mute, response, panicked, Caller, idle, waiting, Client, new,
  update, receive, Action, start, stop, tick, request, notify, resume, give_up, event, older_tick,
  older_event, act, step, run,
}
use bambu_rs.Mqtt.Invariant.{Awaits, CallerIsValid, Matches, IsValid, new-IsValid}
use bambu_rs.Mqtt.Operations.{
  other_fields, in_place-IsValid, answer-IsValid, begin-IsValid, send-IsValid, poll-IsValid,
  spawn-IsValid, see_stop-IsValid, Awaits-filled,
}

receive-IsValid :
    (command : Command) (ch : ℕ) (c : Client)
    → IsValid c
    → Awaits command ch c.inflight c.channels c.made
    → IsValid (receive command ch (c.channels ch) c)
unfolding receive
receive-IsValid command ch c v w = go (c.channels ch) refl
  where
    go : (s : Channel) → c.channels ch ≡ s → IsValid (receive command ch s c)
    go empty e = v
    go (filled m) e = answer-IsValid command (response m) c (Awaits-filled command ch m c w e) v
    go deaf e = v
    go mute e = answer-IsValid command panicked c tt v

give_up-IsValid :
    (ch : ℕ) (c : Client)
    → IsValid c
    → ch < c.made
    → IsValid (record c { caller = idle; channels = update c.channels ch deaf })
give_up-IsValid ch c v h = record {
  entries_made = v.entries_made;
  unmade = λ n q. ground (arith, v.unmade n q);
  awaited = tt;
  matched = v.matched;
}

act-IsValid :
    (json : Json) (caller : Caller) (a : Action) (c : Client)
    → IsValid c
    → CallerIsValid caller c.inflight c.channels c.made
    → IsValid (act json caller a c)
unfolding act
act-IsValid json idle start c v w = spawn-IsValid json c.worker c v
act-IsValid json idle stop c v w = other_fields _ _ _ _ _ c v
act-IsValid json idle tick c v w = see_stop-IsValid json c.worker c v
act-IsValid json idle (request command publishes) c v w =
    begin-IsValid json command publishes (json.to_vec command) c v
act-IsValid json idle (notify command publishes) c v w =
    send-IsValid json command publishes (json.to_vec command) c v
act-IsValid json idle resume c v w = v
act-IsValid json idle give_up c v w = v
act-IsValid json idle (event e) c v w = poll-IsValid json c.worker e c v
act-IsValid json idle (older_tick i) c v w =
    in_place-IsValid _ i _ c (λ d h. see_stop-IsValid json d.worker d h) v
act-IsValid json idle (older_event i e) c v w =
    in_place-IsValid _ i _ c (λ d h. poll-IsValid json d.worker e d h) v
act-IsValid json (waiting command ch) (older_tick i) c v w =
    in_place-IsValid _ i _ c (λ d h. see_stop-IsValid json d.worker d h) v
act-IsValid json (waiting command ch) (older_event i e) c v w =
    in_place-IsValid _ i _ c (λ d h. poll-IsValid json d.worker e d h) v
act-IsValid json (waiting command ch) start c v w = v
act-IsValid json (waiting command ch) stop c v w = v
act-IsValid json (waiting command ch) tick c v w = see_stop-IsValid json c.worker c v
act-IsValid json (waiting command ch) (request other_command publishes) c v w = v
act-IsValid json (waiting command ch) (notify other_command publishes) c v w = v
act-IsValid json (waiting command ch) resume c v w = receive-IsValid command ch c v w
act-IsValid json (waiting command ch) give_up c v w = give_up-IsValid ch c v w.is_made
act-IsValid json (waiting command ch) (event e) c v w = poll-IsValid json c.worker e c v

-- Every action keeps the invariant: each entry of the map leads to a channel that was made, a
-- channel that was not made is empty, an awaited command has its entry or its response, and every
-- response that was returned has the id of its command.
pub step-IsValid : (json : Json) (a : Action) (c : Client) → IsValid c → IsValid (step json a c)
step-IsValid json a c v = act-IsValid json c.caller a c v v.awaited

pub run-IsValid :
    (json : Json) (actions : List Action) (c : Client) → IsValid c → IsValid (run json actions c)
run-IsValid json [] c v = v
run-IsValid json (a ∷ actions) c v =
    run-IsValid json actions (step json a c) (step-IsValid json a c v)

-- After any sequence of actions on a new client, in any order and with any messages from the printer,
-- each command that was answered with a message was answered with one of its own sequence id.
pub run-Matches :
    (json : Json) (serial : Bytes) (actions : List Action)
    → All Matches (run json actions (new serial)).answers
run-Matches json serial actions =
    (run-IsValid json actions (new serial) (new-IsValid serial)).matched
