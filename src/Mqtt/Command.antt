-- ===== src/Mqtt/Command.antt =====
-- src/mqtt/command.rs and src/mqtt/command/: the commands that are sent to the printer.
use bambu_rs.Prelude.{ℕ, Bytes}

pub data InfoCommand : Type 0 where
  get_version : InfoCommand

pub record InfoPayload : Type 0 where
  pub sequence_id : Bytes
  pub command : InfoCommand

pub data PrintCommand : Type 0 where
  pause : PrintCommand
  resume : PrintCommand
  stop : PrintCommand
  print_speed : Bytes → PrintCommand
  gcode_line : Bytes → PrintCommand
  -- the filament and the diameter of the nozzle
  extrusion_calibration_get : Bytes → Bytes → PrintCommand

pub record PrintPayload : Type 0 where
  pub sequence_id : Bytes
  pub command : PrintCommand

pub data PushingCommand : Type 0 where
  -- the target and the version
  push_all : ℕ → ℕ → PushingCommand
  start : PushingCommand

pub record PushingPayload : Type 0 where
  pub sequence_id : Bytes
  pub command : PushingCommand

pub data LedNode : Type 0 where
  chamber_light : LedNode

pub data LedMode : Type 0 where
  on : LedMode
  off : LedMode

pub record LedCtrl : Type 0 where
  pub led_node : LedNode
  pub led_mode : LedMode
  pub led_on_time : ℕ
  pub led_off_time : ℕ
  pub loop_times : ℕ
  pub interval_time : ℕ

pub data AccessoryType : Type 0 where
  no_accessory : AccessoryType

pub data SystemCommand : Type 0 where
  led_ctrl : LedCtrl → SystemCommand
  get_accessories : AccessoryType → SystemCommand

pub record SystemPayload : Type 0 where
  pub sequence_id : Bytes
  pub command : SystemCommand

pub data Command : Type 0 where
  info : InfoPayload → Command
  print : PrintPayload → Command
  pushing : PushingPayload → Command
  system : SystemPayload → Command

-- `Command::sequence_id`
abbrev pub sequence_id : Command → Bytes
sequence_id (info p) = p.sequence_id
sequence_id (print p) = p.sequence_id
sequence_id (pushing p) = p.sequence_id
sequence_id (system p) = p.sequence_id
