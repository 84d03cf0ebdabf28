-- ===== src/Mqtt/Refine.antt =====
-- The client of src/mqtt.rs and its task, step by step, as the service of its caller.
mod Events
mod Calls
use bambu_rs.Prelude.{ℕ, ◌≡◌, refl, subst, List, [], ◌∷◌, Bytes}
use bambu_rs.Mqtt.Client.{
  Json, Caller, idle, waiting, Client, new, Event, poll, Action, start, stop, tick, request, notify,
  resume, give_up, event, older_tick, older_event, older_task, see_stop, act, step, raise_stop_flag,
}
use bambu_rs.Mqtt.Invariant.{CallerIsValid, IsValid, new-IsValid}
use bambu_rs.Mqtt.Reachable.{step-IsValid}
use bambu_rs.Mqtt.Service.{
  Keeps, Serves, ServesAll, view, view_of, ticks, happens, older_ticks, older_happens, start_call,
  stop_call, request_call, notify_call, stops, awaits_nothing, gives_up, cannot,
}
use bambu_rs.Mqtt.Refine.Events.{poll-Keeps, in_place-Keeps, view-see_stop, view-in_place}
use bambu_rs.Mqtt.Refine.Calls.{stays, receive-Serves, spawn-Serves, begin-Serves, send-Serves}

module _ (json : Json) where
  tick-Serves :
      (caller : Caller) (c : Client)
      → c.caller ≡ caller
      → Serves json tick (view_of caller c) (view (see_stop json c.worker c))
  tick-Serves caller c e =
      stays json tick caller c (see_stop json c.worker c) e (view-see_stop json c.worker c) ticks

  event-Serves :
      (caller : Caller) (x : Event) (c : Client)
      → IsValid c
      → c.caller ≡ caller
      → Serves json (event x) (view_of caller c) (view (poll json c.worker x c))
  event-Serves caller x c v e = happens (
      subst (λ t. Keeps (view_of t c) (view (poll json c.worker x c))) e
        (poll-Keeps json c.worker x c v))

  older_tick-Serves :
      (caller : Caller) (i : ℕ) (c : Client)
      → c.caller ≡ caller
      → Serves json
          (older_tick i)
          (view_of caller c)
          (view (older_task i (λ d. see_stop json d.worker d) c))
  older_tick-Serves caller i c e =
      stays json (older_tick i) caller c (older_task i (λ d. see_stop json d.worker d) c) e
        (view-in_place _ i _ c (λ d. view-see_stop json d.worker d)) older_ticks

  older_event-Serves :
      (caller : Caller) (i : ℕ) (x : Event) (c : Client)
      → IsValid c
      → c.caller ≡ caller
      → Serves json
          (older_event i x)
          (view_of caller c)
          (view (older_task i (λ d. poll json d.worker x d) c))
  older_event-Serves caller i x c v e = older_happens (
      subst (λ t. Keeps (view_of t c) (view (older_task i (λ d. poll json d.worker x d) c))) e
        (in_place-Keeps _ i _ c (λ d w. poll-Keeps json d.worker x d w) v))

  act-Serves :
      (caller : Caller) (a : Action) (c : Client)
      → IsValid c
      → c.caller ≡ caller
      → CallerIsValid caller c.inflight c.channels c.made
      → Serves json a (view_of caller c) (view (act json caller a c))
  unfolding act
  act-Serves idle tick c v e w = tick-Serves idle c e
  act-Serves idle (event x) c v e w = event-Serves idle x c v e
  act-Serves idle (older_tick i) c v e w = older_tick-Serves idle i c e
  act-Serves idle (older_event i x) c v e w = older_event-Serves idle i x c v e
  act-Serves (waiting command ch) tick c v e w = tick-Serves (waiting command ch) c e
  act-Serves (waiting command ch) (event x) c v e w = event-Serves (waiting command ch) x c v e
  act-Serves (waiting command ch) (older_tick i) c v e w =
      older_tick-Serves (waiting command ch) i c e
  act-Serves (waiting command ch) (older_event i x) c v e w =
      older_event-Serves (waiting command ch) i x c v e
  act-Serves idle start c v e w = spawn-Serves json c.worker c e
  act-Serves idle stop c v e w = stays json stop idle c (raise_stop_flag c) e refl stops
  act-Serves idle (request command publishes) c v e w =
      begin-Serves json command publishes (json.to_vec command) c v refl
  act-Serves idle (notify command publishes) c v e w =
      send-Serves json command publishes (json.to_vec command) c e refl
  act-Serves idle resume c v e w = stays json resume idle c c e refl awaits_nothing
  act-Serves idle give_up c v e w = stays json give_up idle c c e refl gives_up
  act-Serves (waiting command ch) start c v e w = stays json start _ c c e refl (cannot start_call)
  act-Serves (waiting command ch) stop c v e w = stays json stop _ c c e refl (cannot stop_call)
  act-Serves (waiting command ch) (request wanted publishes) c v e w =
      stays json (request wanted publishes) _ c c e refl (cannot request_call)
  act-Serves (waiting command ch) (notify wanted publishes) c v e w =
      stays json (notify wanted publishes) _ c c e refl (cannot notify_call)
  act-Serves (waiting command ch) resume c v e w = receive-Serves json command ch c e w
  act-Serves (waiting command ch) give_up c v e w = gives_up

  steps : (actions : List Action) (c : Client) → IsValid c → ServesAll json actions c
  steps [] c v = tt
  steps (a ∷ actions) c v = (
    act-Serves c.caller a c v refl v.awaited,
    steps actions (step json a c) (step-IsValid json a c v),
  )

  -- Whatever happens to a new client, in any order and with any messages from the printer, each
  -- action is one step of a service that answers one command at a time. A command is refused in the
  -- call itself only, and only if it has no JSON, if the client was not started (a panic), or if the
  -- publish fails; otherwise it is sent, and the caller waits if it asks for a response. While it
  -- waits, an event of the connection can bring one response of the same sequence id. A poll goes on
  -- to wait if none has arrived, and returns the one that has, and never an error or a panic; the
  -- only other action that changes what the caller sees is that it gives up.
  pub run-Serves : (serial : Bytes) (actions : List Action) → ServesAll json actions (new serial)
  run-Serves serial actions = steps actions (new serial) (new-IsValid serial)
