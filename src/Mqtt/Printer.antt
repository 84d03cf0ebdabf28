-- ===== src/Mqtt/Printer.antt =====
-- How a printer reads the commands of src/mqtt/command.rs: by the JSON in the comments of that file
-- and in its tests, and not by its code.
use bambu_rs.Prelude.{ℕ, String, List, [], ◌∷◌, Option, none, some, Bytes, codes, if◌then◌else◌}
use bambu_rs.Text.Equal.{same}
use bambu_rs.Serde.{Value, string, number, object, Entries, no_entries, entry, last}
use bambu_rs.Mqtt.Command
use bambu_rs.Mqtt.Command.{
  InfoCommand, PrintCommand, PushingCommand, LedNode, LedMode, LedCtrl, SystemCommand, Command,
}

infixl 1 ◌>>=◌
abbrev ◌>>=◌ {ℓ κ} : {A : Type ℓ} {B : Type κ} → Option A → (A → Option B) → Option B
none >>= f = none
some a >>= f = f a

-- What the printer finds under a key: the last entry, if there are two.
abbrev as_text : Option Value → Option Bytes
as_text (some (string t)) = some t
as_text _ = none

abbrev as_number : Option Value → Option ℕ
as_number (some (number n)) = some n
as_number _ = none

abbrev text_at : String → Entries → Option Bytes
text_at key e = as_text (last (codes key) e)

abbrev number_at : String → Entries → Option ℕ
number_at key e = as_number (last (codes key) e)

-- One of the names, with what it stands for.
abbrev choose {ℓ} : {A : Type ℓ} → List (String × A) → Bytes → Option A
choose [] name = none
choose ((word, a) ∷ names) name = if same name (codes word) then some a else choose names name

abbrev read_info : Bytes → Entries → Option InfoCommand
read_info name e = choose (("get_version", Command.get_version) ∷ []) name

abbrev read_print : Bytes → Entries → Option PrintCommand
read_print name e = do
  read ←
      choose
        (("pause", some Command.pause)
          ∷ ("resume", some Command.resume)
          ∷ ("stop", some Command.stop)
          ∷ ("print_speed", do some (Command.print_speed (← text_at "param" e)))
          ∷ ("gcode_line", do some (Command.gcode_line (← text_at "param" e)))
          ∷ (
            "extrusion_cali_get",
            do
              some (
                  Command.extrusion_calibration_get (← text_at "filament_id" e)
                    (← text_at "nozzle_diameter" e)),
          )
          ∷ [])
        name
  read

abbrev read_pushing : Bytes → Entries → Option PushingCommand
read_pushing name e = do
  read ←
      choose
        ((
          "pushall",
          do some (Command.push_all (← number_at "push_target" e) (← number_at "version" e)),
        )
          ∷ ("start", some Command.start)
          ∷ [])
        name
  read

abbrev read_led : Entries → Option LedCtrl
read_led e = do
  node ← choose (("chamber_light", Command.chamber_light) ∷ []) (← text_at "led_node" e)
  mode ← choose (("on", Command.on) ∷ ("off", Command.off) ∷ []) (← text_at "led_mode" e)
  on_time ← number_at "led_on_time" e
  off_time ← number_at "led_off_time" e
  loop_times ← number_at "loop_times" e
  interval_time ← number_at "interval_time" e
  some (record {
    led_node = node;
    led_mode = mode;
    led_on_time = on_time;
    led_off_time = off_time;
    loop_times = loop_times;
    interval_time = interval_time;
  })

abbrev read_system : Bytes → Entries → Option SystemCommand
read_system name e = do
  read ←
      choose
        (("ledctrl", do some (Command.led_ctrl (← read_led e)))
          ∷ (
            "get_accessories",
            do
              some (
                  Command.get_accessories
                    (← choose (("none", Command.no_accessory) ∷ [])
                      (← text_at "accessory_type" e))),
          )
          ∷ [])
        name
  read

abbrev read_payload : Bytes → Bytes → Bytes → Entries → Option Command
read_payload root id name e = do
  read ←
      choose
        ((
          "info",
          do some (Command.info (record { sequence_id = id; command = (← read_info name e) })),
        )
          ∷ (
            "print",
            do some (Command.print (record { sequence_id = id; command = (← read_print name e) })),
          )
          ∷ (
            "pushing",
            do
              some (
                  Command.pushing (record { sequence_id = id; command = (← read_pushing name e) })),
          )
          ∷ (
            "system",
            do
              some (Command.system (record { sequence_id = id; command = (← read_system name e) })),
          )
          ∷ [])
        root
  read

-- The command that a printer takes a value for: an object with one entry, whose key says what kind
-- of command the object in it is.
unfoldable pub read : Value → Option Command
read (object (entry root (object e) no_entries)) = do
  read_payload root (← text_at "sequence_id" e) (← text_at "command" e) e
read _ = none
