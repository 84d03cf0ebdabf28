-- ===== src/Mqtt/Methods.antt =====
-- The public methods of `MqttClient` of src/mqtt.rs that send a command.
use bambu_rs.Prelude.{
  Bool, true, false, Option, none, some, ◌⊎◌, inl, inr, List, Bytes, map, length, get_elem?,
}
use bambu_rs.Outcome.{Outcome, ok, err, panic}
use bambu_rs.Mqtt.Command
use bambu_rs.Mqtt.Command.{Command, LedMode}
use bambu_rs.Mqtt.Message
use bambu_rs.Mqtt.Message.{Message, Info, System}
use bambu_rs.Mqtt.Client.{
  Json, Answer, response, client_error, serde_error, panicked, Client, next_sequence_id, begin,
  send,
}

-- The command of `get_version`, with its sequence id; the same for the methods below.
abbrev pub version_command : Bytes → Command
version_command id = Command.info (record { sequence_id = id; command = Command.get_version })

abbrev pub push_all_command : Bytes → Command
push_all_command id = Command.pushing (record { sequence_id = id; command = Command.push_all 1 1 })

abbrev pub calibration_command : Bytes → Bytes → Bytes → Command
calibration_command filament_id nozzle_diameter id = Command.print (record {
  sequence_id = id;
  command = Command.extrusion_calibration_get filament_id nozzle_diameter;
})

abbrev pub led_mode : Bool → LedMode
led_mode true = Command.on
led_mode false = Command.off

abbrev pub led_command : Bool → Bytes → Command
led_command on id = Command.system (record {
  sequence_id = id;
  command = Command.led_ctrl (record {
    led_node = Command.chamber_light;
    led_mode = led_mode on;
    led_on_time = 500;
    led_off_time = 500;
    loop_times = 0;
    interval_time = 0;
  });
})

module _ (json : Json) where
  abbrev pub with_id :
      (Command → Client → Client) → (Bytes → Command) → Outcome Bytes → Client → Client
  with_id go make (ok id) c = go (make id) c
  with_id go make (err e) c = c
  with_id go make panic c = c

  -- What the methods that wait for a response begin with, up to `rx.await`: the sequence id is drawn,
  -- and the command that is made with it is sent. The flags are those of `next_sequence_id` and
  -- `begin`. What such a method does with its response is `finish` below.
  unfoldable pub ask : Bool → (Bytes → Command) → Bool → Client → Client
  ask checks make publishes c =
      let drawn = next_sequence_id checks c in
      with_id (λ command d. begin json command publishes (json.to_vec command) d) make drawn.0
        drawn.1

  -- `push_all`, which does not wait.
  unfoldable pub push_all : Bool → Bool → Client → Client
  push_all checks publishes c =
      let drawn = next_sequence_id checks c in
      with_id (λ command d. send json command publishes (json.to_vec command) d) push_all_command
        drawn.0 drawn.1

-- `send_command_and_wait`, from the answer on: `T::try_from(message).unwrap()`.
unfoldable pub convert {ℓ} : {A : Type ℓ} → (Message → Option A) → Answer → A ⊎ Answer
convert try_from (response m) = elim (try_from m) [ none ↦ inr panicked | some a ↦ inl a ]
convert try_from client_error = inr client_error
convert try_from serde_error = inr serde_error
convert try_from panicked = inr panicked

-- The methods that wait for a response, with their arguments.
pub data Method : Type 0 where
  get_version : Method
  extrusion_calibration_get : Bytes → Bytes → Method
  set_led : Bool → Method

-- What such a method comes to: a value of its own type, or an error or a panic.
pub data Returned : Type 0 where
  returned_info : Info → Returned
  returned_message : Message → Returned
  returned_system : System → Returned
  failed : Answer → Returned

abbrev pub command_for : Method → Bytes → Command
command_for get_version = version_command
command_for (extrusion_calibration_get filament_id nozzle_diameter) =
    calibration_command filament_id nozzle_diameter
command_for (set_led on) = led_command on

-- `get_version`, `extrusion_calibration_get` and `set_led` up to `rx.await`.
unfoldable pub call : Json → Bool → Method → Bool → Client → Client
unfolding ask
call json checks method publishes c = ask json checks (command_for method) publishes c

-- A converted answer as the result of a method.
abbrev pub converted {ℓ} : {A : Type ℓ} → (A → Returned) → A ⊎ Answer → Returned
converted make (inl a) = make a
converted make (inr e) = failed e

-- The rest of a method, by the answer to its command: `get_version` and `set_led` convert the message
-- to the type that they return, and `extrusion_calibration_get` returns it as it is.
unfoldable pub finish : Method → Answer → Returned
unfolding convert
finish get_version a = converted returned_info (convert Message.to_info a)
finish (extrusion_calibration_get filament_id nozzle_diameter) (response m) = returned_message m
finish (extrusion_calibration_get filament_id nozzle_diameter) e = failed e
finish (set_led on) a = converted returned_system (convert Message.to_system a)

abbrev pub finish_with : Method → Option Answer → Option Returned
finish_with method none = none
finish_with method (some a) = some (finish method a)

abbrev pub answers_of : List (Command × Answer) → List Answer
answers_of answers = map (λ x. x.1) answers

-- What a method that was called on the first client has come to when the client is the second one:
-- nothing yet, or the rest of the method on the first answer since.
abbrev pub returns : Method → Client → Client → Option Returned
returns method before after =
    finish_with method (get_elem? (answers_of after.answers) (length before.answers))
