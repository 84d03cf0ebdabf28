-- ===== src/Mqtt/Delivered.antt =====
-- What a method of src/mqtt.rs publishes, as a printer reads it.
use bambu_rs.Prelude.{
  ◌≡◌, refl, ap, ◌∙◌, Bool, true, false, Option, none, some, List, [], ◌∷◌, ◌++◌, Bytes, codes,
  length, get_elem?,
}
use bambu_rs.Text.Decimal.{display}
use bambu_rs.Serde.{Value, object, no_entries, entry, write, includes, Writer, Documented}
use bambu_rs.Mqtt.Command.{Command}
use bambu_rs.Mqtt.Message.{Message}
use bambu_rs.Mqtt.Attributes
use bambu_rs.Mqtt.Client.{
  Json, waiting, idle, Answer, response, panicked, Client, topic, register, is_push_status, event,
  publish, resume, run,
}
use bambu_rs.Mqtt.Methods.{
  ask, Method, get_version, extrusion_calibration_get, set_led, Returned, returned_info,
  returned_message, returned_system, failed, command_for, call, convert, finish, finish_with,
  answers_of, returns,
}
use bambu_rs.Mqtt.Requests.{IsReady, ask-eq, ask-response}
use bambu_rs.Mqtt.Reading.{IsTyped, IsReaderOf}
use bambu_rs.Mqtt.Command
use bambu_rs.Mqtt.Message
use bambu_rs.Mqtt.Printer.{read}
use bambu_rs.Mqtt.Wire.{read-value}

-- `serde_json::to_vec` prints the value that serde writes.
abbrev pub coding : Writer → (Value → Bytes) → (Bytes → Option Message) → Json
coding w print parse = record {
  to_vec = λ c. some (print (w.value (Attributes.command c)));
  from_slice = parse;
}

abbrev pub read_printed : Option Value → Option Command
read_printed none = none
read_printed (some v) = read v

-- A method that waits, called on a ready client, publishes one payload, under the topic of requests
-- of its printer: if serde writes as it is documented, and the printer's parser gives back the value
-- that was printed, then the printer reads from it the command of the method, with the number of the
-- counter as its sequence id. The client awaits the response to this command.
pub ask-published :
    (w : Writer) (print : Value → Bytes) (parse : Bytes → Option Value)
    (from_slice : Bytes → Option Message) (checks : Bool) (make : Bytes → Command) (pending : Bool)
    (c : Client)
    → Documented w
    → IsReady pending c
    → let command = make (display c.next_id) in
      let value = w.value (Attributes.command command) in
      parse (print value) ≡ some value
      → let d = ask (coding w print from_slice) checks make true c in
        (payload : Bytes) × (d.published
          ≡ c.published ++ (topic c.serial (codes "request"), payload) ∷ [])
        × (read_printed (parse payload) ≡ some command)
        × (d.caller ≡ waiting command c.made)
unfolding register
ask-published w print parse from_slice checks make pending c documented ready parses =
    let command = make (display c.next_id) in
    let value = w.value (Attributes.command command) in
    let asked = ask-eq (coding w print from_slice) checks make (print value) pending c ready refl in
    (
      print value,
      ap (λ d. d.published) asked,
      ap read_printed parses ∙ read-value w documented command,
      ap (λ d. d.caller) asked,
    )

-- `serde_json::from_slice` parses, and reads the value.
abbrev pub reading : (Bytes → Option Value) → (Value → Option Message) → Bytes → Option Message
reading parse from_value payload = elim (parse payload) [ none ↦ none | some v ↦ from_value v ]

-- What a method is meant to return when a message comes as its response.
abbrev pub wanted : Method → Message → Returned
wanted get_version (Message.info i) = returned_info i
wanted get_version _ = failed panicked
wanted (extrusion_calibration_get filament_id nozzle_diameter) m = returned_message m
wanted (set_led on) (Message.system y) = returned_system y
wanted (set_led on) _ = failed panicked

finish-response : (method : Method) (m : Message) → finish method (response m) ≡ wanted method m
unfolding finish convert
finish-response get_version (Message.info i) = refl
finish-response get_version (Message.print p) = refl
finish-response get_version (Message.system y) = refl
finish-response (extrusion_calibration_get filament_id nozzle_diameter) m = refl
finish-response (set_led on) (Message.system y) = refl
finish-response (set_led on) (Message.info i) = refl
finish-response (set_led on) (Message.print p) = refl

get_elem?-answers :
    (answers : List (Command × Answer)) (command : Command) (a : Answer)
    → get_elem? (answers_of (answers ++ (command, a) ∷ [])) (length answers) ≡ some a
get_elem?-answers [] command a = refl
get_elem?-answers (x ∷ answers) command a = get_elem?-answers answers command a

-- `get_version`, `extrusion_calibration_get` or `set_led`, called on a ready client, comes to an end
-- with the response that the printer sends, if the publish succeeds: if serde reads as it is
-- documented, and a payload comes that is parsed as an object of one entry which includes, in any
-- order and among other keys, all that serde would write for a message, if this message is no
-- `push_status` report and has the number of the counter as its sequence id, then the method has
-- returned when the caller has polled it, the client has answered nothing else, and the caller awaits
-- nothing. `get_version` returns the message's `Info` and `set_led` its `System`, and they panic if
-- it is of another kind; `extrusion_calibration_get` returns the message, whatever its kind.
pub ask-answered :
    (w : Writer) (print : Value → Bytes) (parse : Bytes → Option Value)
    (from_value : Value → Option Message) (checks : Bool) (method : Method) (pending : Bool)
    (c : Client) (received root : Bytes) (written found : Value) (m : Message)
    → IsReaderOf from_value m
    → IsReady pending c
    → IsTyped m
    → write (Attributes.message m) ≡ object (entry root written no_entries)
    → includes written found ≡ true
    → parse received ≡ some (object (entry root found no_entries))
    → is_push_status m ≡ false
    → Message.sequence_id m ≡ Command.sequence_id (command_for method (display c.next_id))
    → let json = coding w print (reading parse from_value) in
      let command = command_for method (display c.next_id) in
      let d = run json (event (publish received) ∷ resume ∷ []) (call json checks method true c) in
      (returns method c d ≡ some (wanted method m))
      × (d.answers ≡ c.answers ++ (command, response m) ∷ [])
      × (d.caller ≡ idle)
unfolding call
ask-answered w print parse from_value checks method pending c received root written found m reads
      ready typed writes includes_all parsed is_response same_id =
    let json = coding w print (reading parse from_value) in
    let command = command_for method (display c.next_id) in
    let value = w.value (Attributes.command command) in
    let given =
      ask-response json checks (command_for method) (print value) received m pending c ready refl
        (record {
          parses =
              ap (λ o. elim o [ none ↦ none | some v ↦ from_value v ]) parsed
              ∙ reads root written found typed writes includes_all;
          is_response = is_response;
          same_id = same_id;
        }) in
    let last = get_elem?-answers c.answers command (response m) in
    (
      ap (λ answers. finish_with method (get_elem? (answers_of answers) (length c.answers))) given.0
          ∙ (ap (finish_with method) last ∙ ap some (finish-response method m)),
      given.0,
      given.1,
    )
