-- ===== src/Mqtt/WireTests.antt =====
-- Runs of the JSON of src/mqtt/command.rs.
use bambu_rs.Prelude.{
  ◌≡◌, refl, ap, not, true, false, false, Option, none, some, [], ◌∷◌, ◌++◌, Bytes, codes,
  if◌then◌else◌,
}
use bambu_rs.Text.Decimal.{display}
use bambu_rs.Text.Equal.{same}
use bambu_rs.Serde.{
  Value, string, array, object, entry, no_entries, no_items, includes, reference,
  reference-Documented, write, last, first, distinct, has,
}
use bambu_rs.Mqtt.Command
use bambu_rs.Mqtt.Command.{Command}
use bambu_rs.Mqtt.Message.{Message}
use bambu_rs.Mqtt.Attributes
use bambu_rs.Mqtt.Client.{
  waiting, topic, new, act, spawn, poll, handle_event, is_push_status, idle, response, panicked,
  publish, event, resume, run,
}
use bambu_rs.Mqtt.Methods.{
  led_command, ask, get_version, set_led, failed, command_for, call, returns,
}
use bambu_rs.Mqtt.Tests.{reply_to, connected, connected-IsReady}
use bambu_rs.Mqtt.Printer.{read}
use bambu_rs.Mqtt.Message
use bambu_rs.Mqtt.CommandTests.{json, text}
use bambu_rs.Mqtt.Wire.{read-value}
use bambu_rs.Mqtt.Keys.{is_led, payload_of, distinct_iff}
use bambu_rs.Mqtt.Delivered.{coding, read_printed, ask-published, ask-answered, reading, wanted}

read-value_example :
    read (reference.value (Attributes.command (led_command true (codes "7"))))
    ≡ some (led_command true (codes "7"))
read-value_example = read-value reference reference-Documented (led_command true (codes "7"))

distinct_iff_example :
    let e = payload_of (reference.value (Attributes.command (led_command true (codes "7")))) in
    (distinct e ≡ not (is_led (led_command true (codes "7"))))
    × (first (codes "command") e ≡ (
        if is_led (led_command true (codes "7"))
        then some (string (codes "LedCtrl"))
        else last (codes "command") e))
distinct_iff_example = distinct_iff reference reference-Documented (led_command true (codes "7"))

-- A printing that keeps the sequence id, and a parser for it.
abbrev id_of : Option Command → Bytes
id_of none = []
id_of (some command) = Command.sequence_id command

abbrev print_id : Value → Bytes
print_id v = id_of (read v)

abbrev parse_id : Bytes → Option Value
parse_id payload = some (write (Attributes.command (led_command true payload)))

abbrev no_message : Bytes → Option Message
no_message payload = none

print-parsed :
    let value =
      reference.value (Attributes.command (led_command true (display connected.next_id))) in
    parse_id (print_id value) ≡ some value
print-parsed =
    ap (λ c. parse_id (id_of c))
      (read-value reference reference-Documented (led_command true (display connected.next_id)))

ask-published_example :
    let command = led_command true (display connected.next_id) in
    let d = ask (coding reference print_id no_message) true (led_command true) true connected in
    (payload : Bytes) × (d.published
      ≡ connected.published ++ (topic connected.serial (codes "request"), payload) ∷ [])
    × (read_printed (parse_id payload) ≡ some command)
    × (d.caller ≡ waiting command connected.made)
ask-published_example =
    ask-published reference print_id parse_id no_message true (led_command true) false connected
      reference-Documented connected-IsReady print-parsed

-- A reply with its keys in another order, and one more key.
abbrev reply : Value
reply = json (
    ("reason", text "")
    ∷ ("result", text "success")
    ∷ ("module", array no_items)
    ∷ ("extra", text "x")
    ∷ ("sequence_id", text "0")
    ∷ ("command", text "get_version")
    ∷ [])

-- A reader that knows one message.
abbrev always : Value → Option Message
always v = some (reply_to (codes "0"))

abbrev always_parse : Bytes → Option Value
always_parse payload = some (json (("info", reply) ∷ []))

abbrev written : Value
written = write (
    Attributes.info (record {
      command = codes "get_version";
      sequence_id = codes "0";
      modules = [];
      result = codes "success";
      reason = [];
    }))

written-included :
    (write (Attributes.message (reply_to (codes "0")))
      ≡ object (entry (codes "info") written no_entries))
    × (includes written reply ≡ true)
unfolding write includes last has distinct same Attributes.message Attributes.info
    Attributes.modules
written-included = (refl, refl)

reply-same_id :
    Message.sequence_id (reply_to (codes "0"))
    ≡ Command.sequence_id (command_for get_version (display connected.next_id))
unfolding new act spawn poll handle_event display
reply-same_id = refl

reply-is_response : is_push_status (reply_to (codes "0")) ≡ false
unfolding is_push_status
reply-is_response = refl

ask-answered_example :
    let json = coding reference print_id (reading always_parse always) in
    let command = command_for get_version (display connected.next_id) in
    let d =
      run json
        (event (publish (codes "reply")) ∷ resume ∷ [])
        (call json true get_version true connected) in
    (returns get_version connected d ≡ some (wanted get_version (reply_to (codes "0"))))
    × (d.answers ≡ connected.answers ++ (command, response (reply_to (codes "0"))) ∷ [])
    × (d.caller ≡ idle)
ask-answered_example =
    ask-answered reference print_id always_parse always true get_version false connected
      (codes "reply") (codes "info") written reply (reply_to (codes "0")) (λ root w f t e i. refl)
      connected-IsReady tt written-included.0 written-included.1 refl reply-is_response
      reply-same_id

-- The same reply to `set_led`.
wrong_reply : wanted (set_led true) (reply_to (codes "0")) ≡ failed panicked
wrong_reply = refl
