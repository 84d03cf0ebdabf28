-- ===== src/Mqtt/Stop.antt =====
-- `stop` of src/mqtt.rs, and the task that sees it.
use bambu_rs.Prelude.{
  ℕ, ◌≡◌, ◌≢◌, refl, sym, ◌∙◌, subst, Bool, true, false, Option, none, some, List, [], ◌∷◌, ◌++◌,
  arith, Bytes, All, if◌then◌else◌,
}
use bambu_rs.Mqtt.Command.{Command}
use bambu_rs.Mqtt.Message.{Message}
use bambu_rs.Mqtt.Client.{
  Json, Channel, empty, filled, deaf, mute, Caller, idle, waiting, Worker, not_started, running,
  ended, crashed, Client, register, receive, deliver, route, handle_message, is_push_status, find,
  Event, conn_ack, publish, other, failure, handle_event, poll, Action, start, stop, tick, request,
  notify, resume, give_up, event, older_tick, older_event, in_place, begin, send, see_stop, act,
  step, run,
}
use bambu_rs.Mqtt.Message

abbrev IsStopped : Client → Type 0
IsStopped c = c.stop_flag ≡ true

flag-if : (b : Bool) (x y : Client) → IsStopped x → IsStopped y → IsStopped (if b then x else y)
flag-if true x y h k = h
flag-if false x y h k = k

handle_message-IsStopped : (m : Message) (c : Client) → IsStopped c → IsStopped (handle_message m c)
unfolding handle_message route deliver
handle_message-IsStopped m c h =
    flag-if (is_push_status m) _ _ h (routed (find (Message.sequence_id m) c.inflight))
  where
    delivered :
        (ch : ℕ) (channel : Channel) (d : Client) → IsStopped d → IsStopped (deliver m ch channel d)
    delivered ch empty d k = k
    delivered ch (filled n) d k = k
    delivered ch deaf d k = k
    delivered ch mute d k = k

    routed : (o : Option ℕ) → IsStopped (route m o c)
    routed none = h
    routed (some ch) = delivered ch (c.channels ch) _ h

module _ (json : Json) where
  handle_event-IsStopped :
      (pending : Bool) (e : Event) (c : Client)
      → IsStopped c
      → IsStopped (handle_event json pending e c)
  unfolding handle_event
  handle_event-IsStopped pending (conn_ack false listens) c h = h
  handle_event-IsStopped false (conn_ack true listens) c h = h
  handle_event-IsStopped true (conn_ack true listens) c h = flag-if listens _ _ h h
  handle_event-IsStopped pending (publish payload) c h = parsed (json.from_slice payload)
    where
      parsed : (o : Option Message) → IsStopped (elim o [ none ↦ c | some m ↦ handle_message m c ])
      parsed none = h
      parsed (some m) = handle_message-IsStopped m c h
  handle_event-IsStopped pending other c h = h
  handle_event-IsStopped false (failure listens) c h = h
  handle_event-IsStopped true (failure listens) c h = flag-if listens _ _ h h

  poll-IsStopped :
      (worker : Worker) (e : Event) (c : Client) → IsStopped c → IsStopped (poll json worker e c)
  unfolding poll
  poll-IsStopped (running pending) e c h = handle_event-IsStopped pending e c h
  poll-IsStopped not_started e c h = h
  poll-IsStopped ended e c h = h
  poll-IsStopped crashed e c h = h

  see_stop-IsStopped :
      (worker : Worker) (c : Client) → IsStopped c → IsStopped (see_stop json worker c)
  unfolding see_stop
  see_stop-IsStopped (running pending) c h = flag-if c.stop_flag _ _ h h
  see_stop-IsStopped not_started c h = h
  see_stop-IsStopped ended c h = h
  see_stop-IsStopped crashed c h = h

  in_place-IsStopped :
      (o : Option Worker) (i : ℕ) (go : Client → Client) (c : Client)
      → ((d : Client) → IsStopped d → IsStopped (go d))
      → IsStopped c
      → IsStopped (in_place o i go c)
  unfolding in_place
  in_place-IsStopped none i go c keeps h = h
  in_place-IsStopped (some worker) i go c keeps h = keeps (record c { worker = worker }) h

  register-IsStopped :
      (command : Command) (payload : Bytes) (publishes : Bool) (c : Client)
      → IsStopped c
      → IsStopped (register command payload publishes c)
  unfolding register
  register-IsStopped command payload true c h = h
  register-IsStopped command payload false c h = h

  begin-IsStopped :
      (command : Command) (publishes : Bool) (payload : Option Bytes) (c : Client)
      → IsStopped c
      → IsStopped (begin json command publishes payload c)
  unfolding begin
  begin-IsStopped command publishes none c h = h
  begin-IsStopped command publishes (some payload) c h =
      flag-if c.connected _ _ (register-IsStopped command payload publishes c h) h

  send-IsStopped :
      (command : Command) (publishes : Bool) (payload : Option Bytes) (c : Client)
      → IsStopped c
      → IsStopped (send json command publishes payload c)
  unfolding send
  send-IsStopped command publishes none c h = h
  send-IsStopped command publishes (some payload) c h =
      flag-if c.connected _ _ (flag-if publishes _ _ h h) h

  receive-IsStopped :
      (command : Command) (ch : ℕ) (channel : Channel) (c : Client)
      → IsStopped c
      → IsStopped (receive command ch channel c)
  unfolding receive
  receive-IsStopped command ch empty c h = h
  receive-IsStopped command ch (filled m) c h = h
  receive-IsStopped command ch deaf c h = h
  receive-IsStopped command ch mute c h = h

  act-IsStopped :
      (caller : Caller) (a : Action) (c : Client)
      → a ≢ start
      → IsStopped c
      → IsStopped (act json caller a c)
  unfolding act
  act-IsStopped idle start c n h = absurd (n refl)
  act-IsStopped idle stop c n h = refl
  act-IsStopped idle tick c n h = see_stop-IsStopped c.worker c h
  act-IsStopped idle (request command publishes) c n h =
      begin-IsStopped command publishes (json.to_vec command) c h
  act-IsStopped idle (notify command publishes) c n h =
      send-IsStopped command publishes (json.to_vec command) c h
  act-IsStopped idle resume c n h = h
  act-IsStopped idle give_up c n h = h
  act-IsStopped idle (event e) c n h = poll-IsStopped c.worker e c h
  act-IsStopped idle (older_tick i) c n h =
      in_place-IsStopped _ i _ c (λ d. see_stop-IsStopped d.worker d) h
  act-IsStopped idle (older_event i e) c n h =
      in_place-IsStopped _ i _ c (λ d. poll-IsStopped d.worker e d) h
  act-IsStopped (waiting command ch) (older_tick i) c n h =
      in_place-IsStopped _ i _ c (λ d. see_stop-IsStopped d.worker d) h
  act-IsStopped (waiting command ch) (older_event i e) c n h =
      in_place-IsStopped _ i _ c (λ d. poll-IsStopped d.worker e d) h
  act-IsStopped (waiting command ch) start c n h = h
  act-IsStopped (waiting command ch) stop c n h = h
  act-IsStopped (waiting command ch) tick c n h = see_stop-IsStopped c.worker c h
  act-IsStopped (waiting command ch) (request wanted publishes) c n h = h
  act-IsStopped (waiting command ch) (notify wanted publishes) c n h = h
  act-IsStopped (waiting command ch) resume c n h = receive-IsStopped command ch (c.channels ch) c h
  act-IsStopped (waiting command ch) give_up c n h = h
  act-IsStopped (waiting command ch) (event e) c n h = poll-IsStopped c.worker e c h

  -- The task that sees the flag ends, and nothing makes it run again.
  see_stop-ends :
      (worker : Worker) (c : Client) (pending : Bool)
      → c.worker ≡ worker
      → IsStopped c
      → (see_stop json worker c).worker ≢ running pending
  unfolding see_stop
  see_stop-ends (running p) c pending e h = λ q. ground arith
  see_stop-ends not_started c pending e h = λ q. cc
  see_stop-ends ended c pending e h = λ q. cc
  see_stop-ends crashed c pending e h = λ q. cc

  run-IsStopped :
      (actions : List Action) (c : Client)
      → All (λ a. a ≢ start) actions
      → IsStopped c
      → IsStopped (run json actions c)
  run-IsStopped [] c ns h = h
  run-IsStopped (a ∷ actions) c (n, ns) h =
      run-IsStopped actions (step json a c) ns (act-IsStopped c.caller a c n h)

  act-tick : (caller : Caller) (c : Client) → act json caller tick c ≡ see_stop json c.worker c
  unfolding act
  act-tick idle c = refl
  act-tick (waiting command ch) c = refl

  run-append :
      (front back : List Action) (c : Client)
      → run json (front ++ back) c ≡ run json back (run json front c)
  run-append [] back c = refl
  run-append (a ∷ front) back c = run-append front back (step json a c)

  act-stop : (c : Client) → c.caller ≡ idle → IsStopped (step json stop c)
  unfolding act
  act-stop c e = subst (λ caller. IsStopped (act json caller stop c)) (sym e) refl

  -- After `stop`, the newest task does not run any more once it has looked at the flag, whatever the
  -- caller does between, unless it calls `start`, and whatever the event loop yields.
  pub run-stop :
      (between : List Action) (c : Client) (pending : Bool)
      → c.caller ≡ idle
      → All (λ a. a ≢ start) between
      → (run json (stop ∷ between ++ tick ∷ []) c).worker ≢ running pending
  run-stop between c pending e ns =
      let d = run json between (step json stop c) in
      let flag : IsStopped d = run-IsStopped between (step json stop c) ns (act-stop c e) in
      let last : run json (stop ∷ between ++ tick ∷ []) c ≡ see_stop json d.worker d =
        run-append between (tick ∷ []) (step json stop c) ∙ act-tick d.caller d in
      subst (λ x. x.worker ≢ running pending) (sym last)
        (see_stop-ends d.worker d pending refl flag)
