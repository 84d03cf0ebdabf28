-- ===== src/Mqtt/Reading.antt =====
-- What the derived `Deserialize` of src/mqtt/message.rs reads.
use bambu_rs.Prelude.{◌≡◌, ◌<◌, ◌/◌, ◌%◌, ◌^◌, ℕ, true, Option, none, some, Bytes, All}
use bambu_rs.Serde.{Value, object, no_entries, entry, write, includes}
use bambu_rs.Mqtt.Message.{Message}
use bambu_rs.Mqtt.Attributes

-- The numbers are of their types, and no floating point number is infinite or not a number.
abbrev IsFloat : Option ℕ → Type 0
IsFloat none = Unit
IsFloat (some bits) = (bits < 2 ^ 64) × (bits / 2 ^ 52 % 2 ^ 11 < 2047)

abbrev pub IsTyped : Message → Type 0
IsTyped (Message.print p) = IsFloat p.bed_temper × IsFloat p.nozzle_temper × (p.msg < 2 ^ 64)
IsTyped (Message.info i) = All (λ m. m.flag < 2 ^ 8) i.modules
IsTyped (Message.system s) =
    (s.command.led_on_time < 2 ^ 32)
    × (s.command.led_off_time < 2 ^ 32)
    × (s.command.loop_times < 2 ^ 32)
    × (s.command.interval_time < 2 ^ 32)

-- What serde documents of `from_value::<Message>`, for a message: an object of one entry that includes
-- what would be written for the message is read as the message.
abbrev pub IsReaderOf : (Value → Option Message) → Message → Type 0
IsReaderOf from_value m =
    (root : Bytes) (written found : Value)
    → IsTyped m
    → write (Attributes.message m) ≡ object (entry root written no_entries)
    → includes written found ≡ true
    → from_value (object (entry root found no_entries)) ≡ some m

abbrev pub IsReader : (Value → Option Message) → Type 0
IsReader from_value = (m : Message) → IsReaderOf from_value m
