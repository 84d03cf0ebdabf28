-- ===== src/Mqtt/Wire.antt =====
-- The JSON of the commands of src/mqtt/command.rs, with any writer that is as serde documents it.
use bambu_rs.Prelude.{◌≡◌, refl, ap, ◌∙◌, ℕ, some, Bytes}
use bambu_rs.Text.Equal.{same}
use bambu_rs.Serde.{Writer, Documented, last, has, joined, write, Writer, Documented, value-write}
use bambu_rs.Mqtt.Command
use bambu_rs.Mqtt.Command.{
  InfoCommand, PrintCommand, PushingCommand, LedNode, LedMode, LedCtrl, SystemCommand, Command,
}
use bambu_rs.Mqtt.Attributes
use bambu_rs.Mqtt.Printer.{read}
use bambu_rs.Mqtt.Supported.{command-IsSupported}

-- What the printer reads, when the writer is the reference one.
abbrev IsRead : Command → Type 0
IsRead c = read (write (Attributes.command c)) ≡ some c

info-IsRead :
    (id : Bytes) (c : InfoCommand)
    → IsRead (Command.info (record { sequence_id = id; command = c }))
unfolding read write last has joined same Attributes.command Attributes.info_payload
    Attributes.info_command
info-IsRead id Command.get_version = refl

print-IsRead :
    (id : Bytes) (c : PrintCommand)
    → IsRead (Command.print (record { sequence_id = id; command = c }))
unfolding read write last has joined same Attributes.command Attributes.print_payload
    Attributes.print_command
print-IsRead id Command.pause = refl
print-IsRead id Command.resume = refl
print-IsRead id Command.stop = refl
print-IsRead id (Command.print_speed param) = refl
print-IsRead id (Command.gcode_line param) = refl
print-IsRead id (Command.extrusion_calibration_get filament_id nozzle_diameter) = refl

pushing-IsRead :
    (id : Bytes) (c : PushingCommand)
    → IsRead (Command.pushing (record { sequence_id = id; command = c }))
unfolding read write last has joined same Attributes.command Attributes.pushing_payload
    Attributes.pushing_command
pushing-IsRead id (Command.push_all push_target version) = refl
pushing-IsRead id Command.start = refl

-- An LED command, by its node and its mode.
led-IsRead :
    (id : Bytes) (node : LedNode) (mode : LedMode) (on off times interval : ℕ)
    → IsRead (
        Command.system (record {
          sequence_id = id;
          command = Command.led_ctrl (record {
            led_node = node;
            led_mode = mode;
            led_on_time = on;
            led_off_time = off;
            loop_times = times;
            interval_time = interval;
          });
        }))
unfolding read write last has joined same Attributes.command Attributes.system_payload
    Attributes.system_command Attributes.led_ctrl Attributes.led_node Attributes.led_mode
led-IsRead id Command.chamber_light Command.on on off times interval = refl
led-IsRead id Command.chamber_light Command.off on off times interval = refl

system-IsRead :
    (id : Bytes) (c : SystemCommand)
    → IsRead (Command.system (record { sequence_id = id; command = c }))
unfolding read write last has joined same Attributes.command Attributes.system_payload
    Attributes.system_command Attributes.accessory_type
system-IsRead id (Command.led_ctrl c) =
    led-IsRead id c.led_node c.led_mode c.led_on_time c.led_off_time c.loop_times c.interval_time
system-IsRead id (Command.get_accessories Command.no_accessory) = refl

write-IsRead : (c : Command) → IsRead c
write-IsRead (Command.info p) = info-IsRead p.sequence_id p.command
write-IsRead (Command.print p) = print-IsRead p.sequence_id p.command
write-IsRead (Command.pushing p) = pushing-IsRead p.sequence_id p.command
write-IsRead (Command.system p) = system-IsRead p.sequence_id p.command

-- Any command is read back by the printer from the JSON that is written for it, if the writer is as
-- serde documents it: the one key of the value says which of the four kinds of command it is, and
-- the object under it has the sequence id, the name and the parameters of the command.
pub read-value :
    (w : Writer) → Documented w → (c : Command) → read (w.value (Attributes.command c)) ≡ some c
read-value w d c =
    ap read (value-write w d (Attributes.command c) (command-IsSupported c)) ∙ write-IsRead c
