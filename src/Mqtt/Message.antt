-- ===== src/Mqtt/Message.antt =====
-- src/mqtt/message.rs and src/mqtt/message/: the messages that come from the printer. A floating
-- point number is its 64 bits; the client passes it on and computes nothing with it.
use bambu_rs.Prelude.{ℕ, Option, none, some, List, Bytes}
use bambu_rs.Mqtt.Command.{LedCtrl}

pub record Print : Type 0 where
  pub bed_temper : Option ℕ
  pub nozzle_temper : Option ℕ
  pub command : Bytes
  pub msg : ℕ
  pub sequence_id : Bytes

pub record Module : Type 0 where
  pub name : Bytes
  pub project_name : Bytes
  pub sw_ver : Bytes
  pub hw_ver : Bytes
  pub sn : Bytes
  pub flag : ℕ
  pub loader_ver : Option Bytes
  pub ota_ver : Option Bytes

pub record Info : Type 0 where
  pub command : Bytes
  pub sequence_id : Bytes
  pub modules : List Module
  pub result : Bytes
  pub reason : Bytes

pub record System : Type 0 where
  pub sequence_id : Bytes
  pub command : LedCtrl
  pub reason : Bytes
  pub result : Bytes

pub data Message : Type 0 where
  print : Print → Message
  info : Info → Message
  system : System → Message

-- `Message::sequence_id`
abbrev pub sequence_id : Message → Bytes
sequence_id (print p) = p.sequence_id
sequence_id (info i) = i.sequence_id
sequence_id (system s) = s.sequence_id

-- `TryFrom<Message>`; `none` is the error
abbrev pub to_print : Message → Option Print
to_print (print p) = some p
to_print _ = none

abbrev pub to_info : Message → Option Info
to_info (info i) = some i
to_info _ = none

abbrev pub to_system : Message → Option System
to_system (system s) = some s
to_system _ = none
