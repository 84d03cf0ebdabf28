-- ===== src/Mqtt/Attributes.antt =====
-- What the attributes of serde say of the types of src/mqtt/command.rs, src/mqtt/message.rs and the
-- files below them.
use bambu_rs.Prelude.{Option, none, some, List, [], ◌∷◌, Bytes, codes}
use bambu_rs.Serde.{
  Shape, text, integer, float64, absent, sequence, unit_variant, newtype_variant, struct, tagged,
  tagged_newtype, Shapes, no_shapes, shape, no_fields, field, flatten,
}
use bambu_rs.Mqtt.Command
use bambu_rs.Mqtt.Command.{
  InfoCommand, InfoPayload, PrintCommand, PrintPayload, PushingCommand, PushingPayload, LedNode,
  LedMode, LedCtrl, AccessoryType, SystemCommand, SystemPayload, Command,
}
use bambu_rs.Mqtt.Message.{Print, Module, Info, System, Message}

abbrev tag : Bytes
tag = codes "command"

-- A payload has its sequence id, and the entries of its command.
abbrev with_sequence_id : Bytes → Shape → Shape
with_sequence_id id command =
    struct (field (codes "sequence_id") (text id) (flatten command no_fields))

unfoldable pub info_command : InfoCommand → Shape
info_command Command.get_version = tagged tag (codes "get_version") no_fields

unfoldable pub info_payload : InfoPayload → Shape
unfolding info_command
info_payload p = with_sequence_id p.sequence_id (info_command p.command)

unfoldable pub print_command : PrintCommand → Shape
print_command Command.pause = tagged tag (codes "pause") no_fields
print_command Command.resume = tagged tag (codes "resume") no_fields
print_command Command.stop = tagged tag (codes "stop") no_fields
print_command (Command.print_speed param) =
    tagged tag (codes "print_speed") (field (codes "param") (text param) no_fields)
print_command (Command.gcode_line param) =
    tagged tag (codes "gcode_line") (field (codes "param") (text param) no_fields)
print_command (Command.extrusion_calibration_get filament_id nozzle_diameter) =
    tagged tag (codes "extrusion_cali_get") (
      field (codes "filament_id") (text filament_id)
        (field (codes "nozzle_diameter") (text nozzle_diameter) no_fields))

unfoldable pub print_payload : PrintPayload → Shape
unfolding print_command
print_payload p = with_sequence_id p.sequence_id (print_command p.command)

unfoldable pub pushing_command : PushingCommand → Shape
pushing_command (Command.push_all push_target version) = tagged tag (codes "pushall") (
    field (codes "push_target") (integer push_target)
      (field (codes "version") (integer version) no_fields))
pushing_command Command.start = tagged tag (codes "start") no_fields

unfoldable pub pushing_payload : PushingPayload → Shape
unfolding pushing_command
pushing_payload p = with_sequence_id p.sequence_id (pushing_command p.command)

-- `rename_all = "snake_case"`, here and in the two enums below.
unfoldable pub led_node : LedNode → Shape
led_node Command.chamber_light = unit_variant (codes "chamber_light")

unfoldable pub led_mode : LedMode → Shape
led_mode Command.on = unit_variant (codes "on")
led_mode Command.off = unit_variant (codes "off")

-- A struct with a tag of its own.
unfoldable pub led_ctrl : LedCtrl → Shape
unfolding led_node led_mode
led_ctrl c = tagged tag (codes "ledctrl") (
    field (codes "led_node") (led_node c.led_node) (
      field (codes "led_mode") (led_mode c.led_mode) (
        field (codes "led_on_time") (integer c.led_on_time) (
          field (codes "led_off_time") (integer c.led_off_time) (
            field (codes "loop_times") (integer c.loop_times)
              (field (codes "interval_time") (integer c.interval_time) no_fields))))))

unfoldable pub accessory_type : AccessoryType → Shape
accessory_type Command.no_accessory = unit_variant (codes "none")

-- The variant `LedCtrl` has no `rename`.
unfoldable pub system_command : SystemCommand → Shape
unfolding led_ctrl accessory_type
system_command (Command.led_ctrl c) = tagged_newtype tag (codes "LedCtrl") (led_ctrl c)
system_command (Command.get_accessories a) =
    tagged tag (codes "get_accessories")
      (field (codes "accessory_type") (accessory_type a) no_fields)

unfoldable pub system_payload : SystemPayload → Shape
unfolding system_command
system_payload p = with_sequence_id p.sequence_id (system_command p.command)

-- Untagged: each variant is a struct of one field.
unfoldable pub command : Command → Shape
unfolding info_payload print_payload pushing_payload system_payload
command (Command.info p) = struct (field (codes "info") (info_payload p) no_fields)
command (Command.print p) = struct (field (codes "print") (print_payload p) no_fields)
command (Command.pushing p) = struct (field (codes "pushing") (pushing_payload p) no_fields)
command (Command.system p) = struct (field (codes "system") (system_payload p) no_fields)

abbrev optional {ℓ} : {A : Type ℓ} → (A → Shape) → Option A → Shape
optional of none = absent
optional of (some a) = of a

unfoldable pub print : Print → Shape
print p = struct (
    field (codes "bed_temper") (optional float64 p.bed_temper) (
      field (codes "nozzle_temper") (optional float64 p.nozzle_temper) (
        field (codes "command") (text p.command) (
          field (codes "msg") (integer p.msg)
            (field (codes "sequence_id") (text p.sequence_id) no_fields)))))

unfoldable pub module_shape : Module → Shape
module_shape m = struct (
    field (codes "name") (text m.name) (
      field (codes "project_name") (text m.project_name) (
        field (codes "sw_ver") (text m.sw_ver) (
          field (codes "hw_ver") (text m.hw_ver) (
            field (codes "sn") (text m.sn) (
              field (codes "flag") (integer m.flag) (
                field (codes "loader_ver") (optional text m.loader_ver)
                  (field (codes "ota_ver") (optional text m.ota_ver) no_fields))))))))

unfoldable pub modules : List Module → Shapes
unfolding module_shape
modules [] = no_shapes
modules (m ∷ ms) = shape (module_shape m) (modules ms)

unfoldable pub info : Info → Shape
unfolding modules
info i = struct (
    field (codes "command") (text i.command) (
      field (codes "sequence_id") (text i.sequence_id) (
        field (codes "module") (sequence (modules i.modules)) (
          field (codes "result") (text i.result)
            (field (codes "reason") (text i.reason) no_fields)))))

unfoldable pub system : System → Shape
unfolding led_ctrl
system s = struct (
    field (codes "sequence_id") (text s.sequence_id) (
      flatten (led_ctrl s.command) (
        field (codes "reason") (text s.reason) (field (codes "result") (text s.result) no_fields))))

-- Tagged from outside: an object of one entry, by the name of the variant.
unfoldable pub message : Message → Shape
unfolding print info system
message (Message.print p) = newtype_variant (codes "print") (print p)
message (Message.info i) = newtype_variant (codes "info") (info i)
message (Message.system s) = newtype_variant (codes "system") (system s)
