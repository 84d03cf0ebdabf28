-- ===== src/Mqtt/Requests.antt =====
-- A call of a public method of src/mqtt.rs, from its sequence id to its response.
use bambu_rs.Prelude.{
  ◌+◌, ◌^◌, ◌<◌, ◌≡◌, refl, ap, ◌∙◌, Bool, true, some, [], ◌∷◌, ◌++◌, arith, Bytes, if◌then◌else◌,
}
use bambu_rs.Text.Decimal.{display}
use bambu_rs.Mqtt.Command
use bambu_rs.Mqtt.Command.{Command}
use bambu_rs.Mqtt.Message.{Message}
use bambu_rs.Mqtt.Client.{
  Json, response, panicked, idle, running, Client, answer, register, begin, publish, resume, event,
  run,
}
use bambu_rs.Mqtt.Methods.{with_id, ask}
use bambu_rs.Mqtt.Invariant.{IsValid, sever-unmade}
use bambu_rs.Mqtt.Operations.{register-IsValid}
use bambu_rs.Mqtt.Sequence.{next_sequence_id-eq}
use bambu_rs.Mqtt.Progress.{Pending, Responds, run-answered}

-- A client that is connected, with its task running and its counter inside the `u64`.
pub record IsReady (pending : Bool) (c : Client) : Type 0 where
  pub valid : IsValid c
  pub is_connected : c.connected ≡ true
  pub runs : c.worker ≡ running pending
  pub counts : c.next_id + 1 < 2 ^ 64

abbrev counted : Client → Client
counted c = record c { next_id = c.next_id + 1 }

counted-IsValid : (c : Client) → IsValid c → IsValid (counted c)
counted-IsValid c v = record {
  entries_made = v.entries_made;
  unmade = v.unmade;
  awaited = v.awaited;
  matched = v.matched;
}

pub ask-eq :
    (json : Json) (checks : Bool) (make : Bytes → Command) (payload : Bytes) (pending : Bool)
    (c : Client)
    → IsReady pending c
    → json.to_vec (make (display c.next_id)) ≡ some payload
    → ask json checks make true c ≡ register (make (display c.next_id)) payload true (counted c)
unfolding ask begin
ask-eq json checks make payload pending c r e =
    let command = make (display c.next_id) in
    ap (λ d. with_id json (λ x y. begin json x true (json.to_vec x) y) make d.0 d.1)
      (next_sequence_id-eq checks c r.counts)
    ∙ ap (λ o. begin json command true o (counted c)) e
    ∙ ap
        (λ b.
          if b
          then register command payload true (counted c)
          else answer command panicked (counted c))
        r.is_connected

register-Pending :
    (command : Command) (payload : Bytes) (pending : Bool) (c : Client)
    → IsValid c
    → c.worker ≡ running pending
    → Pending command c.made pending (register command payload true c)
unfolding register
register-Pending command payload pending c v runs = record {
  caller_waits = refl;
  no_response = sever-unmade (Command.sequence_id command) c c.made v (omega arith);
  runs = runs;
}

-- A method that waits, called on a ready client: it draws its sequence id and publishes its command;
-- when a message with this id is published that parses and is no `push_status` report, and the caller
-- polls, the method has this message, the client has answered nothing else, and the caller awaits
-- nothing.
pub ask-response :
    (json : Json) (checks : Bool) (make : Bytes → Command) (sent received : Bytes) (m : Message)
    (pending : Bool) (c : Client)
    → IsReady pending c
    → json.to_vec (make (display c.next_id)) ≡ some sent
    → Responds json received m (make (display c.next_id))
    → let d = run json (event (publish received) ∷ resume ∷ []) (ask json checks make true c) in
      (d.answers ≡ c.answers ++ (make (display c.next_id), response m) ∷ []) × (d.caller ≡ idle)
ask-response json checks make sent received m pending c r e responds =
    let command = make (display c.next_id) in
    let v = counted-IsValid c r.valid in
    let asked = ask-eq json checks make sent pending c r e in
    let whole =
      ap (run json (event (publish received) ∷ resume ∷ [])) asked
      ∙ run-answered json command c.made pending received m (register command sent true (counted c))
          (register-IsValid command sent true (counted c) v)
          (register-Pending command sent pending (counted c) v r.runs) responds in
    (ap (λ d. d.answers) whole ∙ kept command sent c m, ap (λ d. d.caller) whole)
  where
    kept :
        (command : Command) (sent : Bytes) (c : Client) (m : Message)
        → (register command sent true (counted c)).answers ++ (command, response m) ∷ []
          ≡ c.answers ++ (command, response m) ∷ []
    kept command sent c m = unfold register in refl
