-- ===== src/Mqtt/Refine/Calls.antt =====
-- The methods of src/mqtt.rs as steps of the service that the caller sees.
use bambu_rs.Prelude.{
  arith, ℕ, ◌≡◌, refl, sym, ap, ◌∙◌, subst, Bool, true, false, Option, none, some, inl, inr, List,
  [], ◌∷◌, Bytes, if◌then◌else◌, ◌++◌, codes,
}
use bambu_rs.Mqtt.Command
use bambu_rs.Mqtt.Command.{Command}
use bambu_rs.Mqtt.Client.{
  Json, Channel, empty, filled, deaf, mute, Caller, idle, waiting, Worker, not_started, running,
  ended, crashed, Client, register, receive, Action, start, request, notify, resume, begin, send,
  spawn, answer, topic, panicked, client_error, Answer,
}
use bambu_rs.Mqtt.Invariant.{Awaits, IsValid, sever-unmade}
use bambu_rs.Mqtt.Operations.{Awaits-filled}
use bambu_rs.Mqtt.Service.{
  Service, Serves, command_of, arrived_in, arrived_of, view, view_of, no_json, not_started,
  not_sent, starts, asks, tells, refuses_request, refuses_notify, waits, replies_to,
}

-- An action that changes nothing that the caller sees.
pub stays :
    (json : Json) (a : Action) (caller : Caller) (c d : Client)
    → c.caller ≡ caller
    → view d ≡ view c
    → Serves json a (view_of caller c) (view_of caller c)
    → Serves json a (view_of caller c) (view d)
stays json a caller c d e h s =
    subst (λ t. Serves json a (view_of caller c) t) (sym (h ∙ ap (λ x. view_of x c) e)) s

pub receive-Serves :
    (json : Json) (command : Command) (ch : ℕ) (c : Client)
    → c.caller ≡ waiting command ch
    → Awaits command ch c.inflight c.channels c.made
    → Serves json resume
        (view_of (waiting command ch) c)
        (view (receive command ch (c.channels ch) c))
unfolding receive
receive-Serves json command ch c e w = go (c.channels ch) refl
  where
    seen : Channel → Service
    seen s = record {
      started = c.connected;
      asked = some command;
      arrived = arrived_in s;
      replies = c.answers;
    }

    go :
        (s : Channel)
        → c.channels ch ≡ s
        → Serves json resume (seen s) (view (receive command ch s c))
    go empty q =
        subst (λ t. Serves json resume (seen empty) t) (sym (ap (λ x. view_of x c) e ∙ ap seen q))
          waits
    go (filled m) q = replies_to m (Awaits-filled command ch m c w q)
    go deaf q = elim w.status [ inl h ↦ cc | inr h ↦ cc ]
    go mute q = elim w.status [ inl h ↦ cc | inr h ↦ cc ]

-- What a call does, by whether the client was started.
started_as :
    (json : Json) (a : Action) (b : Bool) (c : Client)
    → c.connected ≡ b
    → {asked : Option Command} {replies : List (Command × Answer)}
    → Serves json a
        (record { started = b; asked = none; arrived = none; replies = c.answers })
        (record { started = b; asked = asked; arrived = none; replies = replies })
    → Serves json a
        (view_of idle c)
        (record { started = c.connected; asked = asked; arrived = none; replies = replies })
started_as json a b c q {asked} {replies} s =
    subst
      (λ t.
        Serves json a (record { started = t; asked = none; arrived = none; replies = c.answers })
          (record { started = t; asked = asked; arrived = none; replies = replies }))
      (sym q) s

abbrev spawned : Caller → Client → Service
spawned caller c = record {
  started = true;
  asked = command_of caller;
  arrived = arrived_of caller c.channels;
  replies = c.answers;
}

module _ (json : Json) where
  pub spawn-Serves :
      (worker : Worker) (c : Client)
      → c.caller ≡ idle
      → Serves json start (view_of idle c) (view (spawn json worker c))
  unfolding spawn
  spawn-Serves (running pending) c e =
      subst (λ x. Serves json start (view_of idle c) (spawned x c)) (sym e) starts
  spawn-Serves not_started c e =
      subst (λ x. Serves json start (view_of idle c) (spawned x c)) (sym e) starts
  spawn-Serves ended c e =
      subst (λ x. Serves json start (view_of idle c) (spawned x c)) (sym e) starts
  spawn-Serves crashed c e =
      subst (λ x. Serves json start (view_of idle c) (spawned x c)) (sym e) starts

  pub begin-Serves :
      (command : Command) (publishes : Bool) (payload : Option Bytes) (c : Client)
      → IsValid c
      → json.to_vec command ≡ payload
      → Serves json
          (request command publishes)
          (view_of idle c)
          (view (begin json command publishes payload c))
  unfolding begin register
  begin-Serves command publishes none c v h = refuses_request (no_json h)
  begin-Serves command publishes (some payload) c v h = go c.connected refl publishes
    where
      go :
          (b : Bool)
          → c.connected ≡ b
          → (p : Bool)
          → Serves json
              (request command p)
              (view_of idle c)
              (view (if b then register command payload p c else answer command panicked c))
      go true q true =
          subst
            (λ s. Serves json (request command true) (view_of idle c) (record {
              started = c.connected;
              asked = some command;
              arrived = arrived_in s;
              replies = c.answers;
            }))
            (sym (sever-unmade (Command.sequence_id command) c c.made v (omega arith)))
            (started_as json _ true c q (asks h))
      go true q false = started_as json _ true c q (refuses_request (not_sent h))
      go false q p = started_as json _ false c q (refuses_request (not_started h))

  pub send-Serves :
      (command : Command) (publishes : Bool) (payload : Option Bytes) (c : Client)
      → c.caller ≡ idle
      → json.to_vec command ≡ payload
      → Serves json
          (notify command publishes)
          (view_of idle c)
          (view (send json command publishes payload c))
  unfolding send
  send-Serves command publishes none c e h = refuses_notify (no_json h)
  send-Serves command publishes (some payload) c e h = go c.connected refl publishes
    where
      told : Bool → Bool → Client
      told b p =
          if b
          then (if p
              then record c {
                published = c.published ++ (topic c.serial (codes "request"), payload) ∷ [];
              }
              else answer command client_error c)
          else answer command panicked c

      go :
          (b : Bool)
          → c.connected ≡ b
          → (p : Bool) → Serves json (notify command p) (view_of idle c) (view (told b p))
      go true q true =
          subst (λ x. Serves json (notify command true) (view_of idle c) (view_of x c)) (sym e)
            (started_as json _ true c q (tells h))
      go true q false = started_as json _ true c q (refuses_notify (not_sent h))
      go false q p = started_as json _ false c q (refuses_notify (not_started h))
