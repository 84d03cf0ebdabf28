-- ===== src/Mqtt/Refine/Events.antt =====
-- What the task of src/mqtt.rs does to the service that the caller sees.
use bambu_rs.Prelude.{
  arith, Option-cases, Bool-cases, ℕ, ◌≡◌, refl, sym, ap, ◌∙◌, subst, Bool, true, false, Option,
  none, some, inl, inr, Bytes, if◌then◌else◌,
}
use native.Mathlib.Decide.{ℕ_discrete}
use bambu_rs.Mqtt.Command
use bambu_rs.Mqtt.Inflight.{All-find}
use bambu_rs.Mqtt.Command.{Command}
use bambu_rs.Mqtt.Message
use bambu_rs.Mqtt.Message.{Message}
use bambu_rs.Mqtt.Client.{
  Json, Channel, empty, filled, deaf, mute, Caller, idle, waiting, Worker, not_started, running,
  ended, crashed, Client, deliver, route, handle_message, is_push_status, find, remove, update,
  Event, conn_ack, publish, other, failure, handle_event, poll, in_place, see_stop,
}
use bambu_rs.Mqtt.Invariant.{CallerIsValid, IsValid}
use bambu_rs.Mqtt.Operations.{workers-IsValid}
use bambu_rs.Mqtt.Service.{Service, Keeps, same, arrives, arrived_in, view, view_of, not_started}

view-if :
    (b : Bool) (x y : Client) (s : Service)
    → view x ≡ s
    → view y ≡ s
    → view (if b then x else y) ≡ s
view-if true x y s h k = h
view-if false x y s h k = k

Keeps-if :
    (b : Bool) (s : Service) (x y : Client)
    → Keeps s (view x)
    → Keeps s (view y)
    → Keeps s (view (if b then x else y))
Keeps-if true s x y h k = h
Keeps-if false s x y h k = k

-- A message for a channel that is empty.
fill-Keeps :
    (m : Message) (target : ℕ) (caller : Caller) (c : Client)
    → c.channels target ≡ empty
    → CallerIsValid caller c.inflight c.channels c.made
    → find (Message.sequence_id m) c.inflight ≡ some target
    → Keeps
        (view_of caller c)
        (view_of caller (record c { channels = update c.channels target (filled m) }))
fill-Keeps m target idle c e w hit = same
fill-Keeps m target (waiting command ch) c e w hit =
    let seen : Channel → Service = λ s. record {
      started = c.connected;
      asked = some command;
      arrived = arrived_in s;
      replies = c.answers;
    } in
    elim (ℕ_discrete target ch) [
      | yes q ↦
          let now : c.channels ch ≡ empty = ap c.channels (sym q) ∙ e in
          let then_ : update c.channels target (filled m) ch ≡ filled m = ground arith in
          let same_id =
            All-find (λ (x : Bytes × ℕ). x.1 ≡ ch → x.0 ≡ Command.sequence_id command)
              (Message.sequence_id m) c.inflight ch (hit ∙ ap some q) w.entries refl in
          subst (λ s. Keeps (seen s) (seen (update c.channels target (filled m) ch))) (sym now)
            (subst (λ s. Keeps (seen empty) (seen s)) (sym then_) (arrives m same_id))
      | no ne ↦
          let kept : update c.channels target (filled m) ch ≡ c.channels ch = ground arith in
          subst (λ s. Keeps (seen (c.channels ch)) (seen s)) (sym kept) same
    ]

deliver-Keeps :
    (m : Message) (target : ℕ) (c : Client)
    → IsValid c
    → find (Message.sequence_id m) c.inflight ≡ some target
    → Keeps (view c) (
        view (
          deliver m target
            (c.channels target)
            (record c { inflight = remove (Message.sequence_id m) c.inflight })))
unfolding deliver
deliver-Keeps m target c v hit = go (c.channels target) refl
  where
    go :
        (s : Channel)
        → c.channels target ≡ s
        → Keeps (view c) (
            view (
              deliver m target s
                (record c { inflight = remove (Message.sequence_id m) c.inflight })))
    go empty e = fill-Keeps m target c.caller c e v.awaited hit
    go (filled x) e = same
    go deaf e = same
    go mute e = same

handle_message-Keeps :
    (m : Message) (c : Client) → IsValid c → Keeps (view c) (view (handle_message m c))
unfolding handle_message route
handle_message-Keeps m c v = elim (Bool-cases (is_push_status m)) [
  | inl h ↦ rw h same
  | inr h ↦ elim (Option-cases (find (Message.sequence_id m) c.inflight)) [
    | inl e ↦ rw (h, e) same
    | inr (target, e) ↦ rw (h, e) (deliver-Keeps m target c v e)
  ]
]

handle_event-Keeps :
    (json : Json) (pending : Bool) (e : Event) (c : Client)
    → IsValid c
    → Keeps (view c) (view (handle_event json pending e c))
unfolding handle_event
handle_event-Keeps json pending (conn_ack false listens) c v = same
handle_event-Keeps json false (conn_ack true listens) c v = same
handle_event-Keeps json true (conn_ack true listens) c v = Keeps-if listens (view c) _ _ same same
handle_event-Keeps json pending (publish payload) c v = parsed (json.from_slice payload)
  where
    parsed :
        (o : Option Message)
        → Keeps (view c) (view (elim o [ none ↦ c | some m ↦ handle_message m c ]))
    parsed none = same
    parsed (some m) = handle_message-Keeps m c v
handle_event-Keeps json pending other c v = same
handle_event-Keeps json false (failure listens) c v = same
handle_event-Keeps json true (failure listens) c v = Keeps-if listens (view c) _ _ same same

pub poll-Keeps :
    (json : Json) (worker : Worker) (e : Event) (c : Client)
    → IsValid c
    → Keeps (view c) (view (poll json worker e c))
unfolding poll
poll-Keeps json (running pending) e c v = handle_event-Keeps json pending e c v
poll-Keeps json not_started e c v = same
poll-Keeps json ended e c v = same
poll-Keeps json crashed e c v = same

pub in_place-Keeps :
    (o : Option Worker) (i : ℕ) (go : Client → Client) (c : Client)
    → ((d : Client) → IsValid d → Keeps (view d) (view (go d)))
    → IsValid c
    → Keeps (view c) (view (in_place o i go c))
unfolding in_place
in_place-Keeps none i go c keeps v = same
in_place-Keeps (some worker) i go c keeps v =
    keeps (record c { worker = worker }) (workers-IsValid worker c.older c v)

pub view-see_stop :
    (json : Json) (worker : Worker) (c : Client) → view (see_stop json worker c) ≡ view c
unfolding see_stop
view-see_stop json (running pending) c = view-if c.stop_flag _ _ _ refl refl
view-see_stop json not_started c = refl
view-see_stop json ended c = refl
view-see_stop json crashed c = refl

pub view-in_place :
    (o : Option Worker) (i : ℕ) (go : Client → Client) (c : Client)
    → ((d : Client) → view (go d) ≡ view d)
    → view (in_place o i go c) ≡ view c
unfolding in_place
view-in_place none i go c keeps = refl
view-in_place (some worker) i go c keeps = keeps (record c { worker = worker })
