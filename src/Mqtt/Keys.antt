-- ===== src/Mqtt/Keys.antt =====
-- The keys of the JSON of the commands of src/mqtt/command.rs.
use bambu_rs.Prelude.{◌≡◌, refl, Bool, true, false, not, some, Bytes, codes, if◌then◌else◌}
use bambu_rs.Text.Equal.{same}
use bambu_rs.Serde.{
  Value, string, object, Entries, no_entries, entry, Writer, Documented, last, first, has, joined,
  distinct, write, value-write,
}
use bambu_rs.Mqtt.Command
use bambu_rs.Mqtt.Command.{
  InfoCommand, PrintCommand, PushingCommand, LedNode, LedMode, LedCtrl, SystemCommand, Command,
}
use bambu_rs.Mqtt.Attributes
use bambu_rs.Mqtt.Supported.{command-IsSupported}

abbrev pub is_led : Command → Bool
is_led (Command.system p) = is_led_ctrl p.command
  where
    is_led_ctrl : SystemCommand → Bool
    is_led_ctrl (Command.led_ctrl c) = true
    is_led_ctrl _ = false
is_led _ = false

-- The object under the one key of a command.
abbrev pub payload_of : Value → Entries
payload_of (object (entry root (object e) no_entries)) = e
payload_of _ = no_entries

abbrev HasKeys : Command → Value → Type 0
HasKeys c v =
    let e = payload_of v in
    (distinct e ≡ not (is_led c))
    × (first (codes "command") e
        ≡ (if is_led c then some (string (codes "LedCtrl")) else last (codes "command") e))

info-HasKeys :
    (id : Bytes) (c : InfoCommand)
    → let c' = Command.info (record { sequence_id = id; command = c }) in
      HasKeys c' (write (Attributes.command c'))
unfolding write last first has joined distinct same Attributes.command Attributes.info_payload
    Attributes.info_command
info-HasKeys id Command.get_version = (refl, refl)

print-HasKeys :
    (id : Bytes) (c : PrintCommand)
    → let c' = Command.print (record { sequence_id = id; command = c }) in
      HasKeys c' (write (Attributes.command c'))
unfolding write last first has joined distinct same Attributes.command Attributes.print_payload
    Attributes.print_command
print-HasKeys id Command.pause = (refl, refl)
print-HasKeys id Command.resume = (refl, refl)
print-HasKeys id Command.stop = (refl, refl)
print-HasKeys id (Command.print_speed param) = (refl, refl)
print-HasKeys id (Command.gcode_line param) = (refl, refl)
print-HasKeys id (Command.extrusion_calibration_get filament_id nozzle_diameter) = (refl, refl)

pushing-HasKeys :
    (id : Bytes) (c : PushingCommand)
    → let c' = Command.pushing (record { sequence_id = id; command = c }) in
      HasKeys c' (write (Attributes.command c'))
unfolding write last first has joined distinct same Attributes.command Attributes.pushing_payload
    Attributes.pushing_command
pushing-HasKeys id (Command.push_all push_target version) = (refl, refl)
pushing-HasKeys id Command.start = (refl, refl)

system-HasKeys :
    (id : Bytes) (c : SystemCommand)
    → let c' = Command.system (record { sequence_id = id; command = c }) in
      HasKeys c' (write (Attributes.command c'))
unfolding write last first has joined distinct same Attributes.command Attributes.system_payload
    Attributes.system_command Attributes.led_ctrl Attributes.accessory_type
system-HasKeys id (Command.led_ctrl c) = (refl, refl)
system-HasKeys id (Command.get_accessories Command.no_accessory) = (refl, refl)

write-HasKeys : (c : Command) → HasKeys c (write (Attributes.command c))
write-HasKeys (Command.info p) = info-HasKeys p.sequence_id p.command
write-HasKeys (Command.print p) = print-HasKeys p.sequence_id p.command
write-HasKeys (Command.pushing p) = pushing-HasKeys p.sequence_id p.command
write-HasKeys (Command.system p) = system-HasKeys p.sequence_id p.command

-- In the JSON of a command no key stands twice, except in that of an LED command, whose `command`
-- does: a reader that keeps the first entry of a key finds the name `LedCtrl` there, which is no
-- command of a printer, while for every other command it finds what a reader finds that keeps the
-- last one.
pub distinct_iff :
    (w : Writer)
    → Documented w
    → (c : Command)
    → let e = payload_of (w.value (Attributes.command c)) in
      (distinct e ≡ not (is_led c))
      × (first (codes "command") e
          ≡ (if is_led c then some (string (codes "LedCtrl")) else last (codes "command") e))
distinct_iff w d c =
    rw (value-write w d (Attributes.command c) (command-IsSupported c)) (write-HasKeys c)
