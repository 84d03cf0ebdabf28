-- ===== src/Mqtt/Supported.antt =====
-- The shapes of the commands of src/mqtt/command.rs are ones that serde can flatten and tag.
use bambu_rs.Serde.{Shape, IsObject, IsSupported, Embeds}
use bambu_rs.Mqtt.Command
use bambu_rs.Mqtt.Command.{
  InfoCommand, PrintCommand, PushingCommand, LedNode, LedMode, LedCtrl, SystemCommand, Command,
}
use bambu_rs.Mqtt.Attributes

info_command-Embeds : (c : InfoCommand) → Embeds (Attributes.info_command c)
unfolding Attributes.info_command
info_command-Embeds Command.get_version = (tt, tt)

print_command-Embeds : (c : PrintCommand) → Embeds (Attributes.print_command c)
unfolding Attributes.print_command
print_command-Embeds Command.pause = (tt, tt)
print_command-Embeds Command.resume = (tt, tt)
print_command-Embeds Command.stop = (tt, tt)
print_command-Embeds (Command.print_speed param) = (tt, (tt, tt))
print_command-Embeds (Command.gcode_line param) = (tt, (tt, tt))
print_command-Embeds (Command.extrusion_calibration_get filament_id nozzle_diameter) =
    (tt, (tt, (tt, tt)))

pushing_command-Embeds : (c : PushingCommand) → Embeds (Attributes.pushing_command c)
unfolding Attributes.pushing_command
pushing_command-Embeds (Command.push_all push_target version) = (tt, (tt, (tt, tt)))
pushing_command-Embeds Command.start = (tt, tt)

led_node-IsSupported : (n : LedNode) → IsSupported (Attributes.led_node n)
unfolding Attributes.led_node
led_node-IsSupported Command.chamber_light = tt

led_mode-IsSupported : (m : LedMode) → IsSupported (Attributes.led_mode m)
unfolding Attributes.led_mode
led_mode-IsSupported Command.on = tt
led_mode-IsSupported Command.off = tt

led_ctrl-Embeds : (c : LedCtrl) → Embeds (Attributes.led_ctrl c)
unfolding Attributes.led_ctrl
led_ctrl-Embeds c = (
  tt,
  (led_node-IsSupported c.led_node, (led_mode-IsSupported c.led_mode, (tt, (tt, (tt, (tt, tt)))))),
)

system_command-Embeds : (c : SystemCommand) → Embeds (Attributes.system_command c)
unfolding Attributes.system_command Attributes.accessory_type
system_command-Embeds (Command.led_ctrl c) = (tt, led_ctrl-Embeds c)
system_command-Embeds (Command.get_accessories Command.no_accessory) = (tt, (tt, tt))

embedded : (s : Shape) → Embeds s → Unit {0} × (IsObject s × IsSupported s × Unit {0})
embedded s h = (tt, (h.0, h.1, tt))

pub command-IsSupported : (c : Command) → IsSupported (Attributes.command c)
unfolding Attributes.command Attributes.info_payload Attributes.print_payload
    Attributes.pushing_payload Attributes.system_payload
command-IsSupported (Command.info p) = (embedded _ (info_command-Embeds p.command), tt)
command-IsSupported (Command.print p) = (embedded _ (print_command-Embeds p.command), tt)
command-IsSupported (Command.pushing p) = (embedded _ (pushing_command-Embeds p.command), tt)
command-IsSupported (Command.system p) = (embedded _ (system_command-Embeds p.command), tt)
