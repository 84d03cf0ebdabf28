-- ===== src/Mqtt/MessageTests.antt =====
-- The unit tests of src/mqtt/message.rs, as what they assert of the derived `Deserialize`.
use bambu_rs.Prelude.{◌≡◌, refl, Option, none, some, List, [], ◌∷◌, String, Bytes, codes, arith}
use bambu_rs.Text.Equal.{same}
use bambu_rs.Serde.{
  Value, number, array, Items, no_items, item, write, joined, includes, last, has, distinct,
}
use bambu_rs.Mqtt.Command
use bambu_rs.Mqtt.Message.{Module, Message}
use bambu_rs.Mqtt.Attributes
use bambu_rs.Mqtt.Reading.{IsReader}
use bambu_rs.Mqtt.CommandTests.{json, text}

abbrev led_ctrl_response : Value
led_ctrl_response = json (
    ("sequence_id", text "1")
    ∷ ("command", text "ledctrl")
    ∷ ("led_node", text "chamber_light")
    ∷ ("led_mode", text "off")
    ∷ ("led_on_time", number 500)
    ∷ ("led_off_time", number 500)
    ∷ ("loop_times", number 0)
    ∷ ("interval_time", number 0)
    ∷ ("reason", text "success")
    ∷ ("result", text "success")
    ∷ [])

abbrev led_ctrl_message : Message
led_ctrl_message = Message.system (record {
  sequence_id = codes "1";
  command = record {
    led_node = Command.chamber_light;
    led_mode = Command.off;
    led_on_time = 500;
    led_off_time = 500;
    loop_times = 0;
    interval_time = 0;
  };
  reason = codes "success";
  result = codes "success";
})

abbrev DecodeLedCtrlResponse : (Value → Option Message) → Type 0
DecodeLedCtrlResponse from_value =
    from_value (json (("system", led_ctrl_response) ∷ [])) ≡ some led_ctrl_message

abbrev serial_number_1 : String
serial_number_1 = "111111111111111"

abbrev serial_number_2 : String
serial_number_2 = "222222222222222"

abbrev serial_number_3 : String
serial_number_3 = "333333333333333"

abbrev serial_number_4 : String
serial_number_4 = "444444444444444"

abbrev values : List Value → Items
values [] = no_items
values (v ∷ vs) = item v (values vs)

abbrev version_payload : Value
version_payload = json (
    ("command", text "get_version")
    ∷ ("sequence_id", text "0")
    ∷ (
      "module",
      array (
          values (
            json (
              ("name", text "ota")
              ∷ ("project_name", text "N2S")
              ∷ ("sw_ver", text "<sw_ver>")
              ∷ ("hw_ver", text "OTA")
              ∷ ("sn", text serial_number_1)
              ∷ ("flag", number 0)
              ∷ [])
            ∷ json (
                ("name", text "esp32")
                ∷ ("project_name", text "N2S")
                ∷ ("sw_ver", text "<sw_ver>")
                ∷ ("hw_ver", text "AP05")
                ∷ ("sn", text serial_number_1)
                ∷ ("flag", number 0)
                ∷ [])
            ∷ json (
                ("name", text "mc")
                ∷ ("project_name", text "N2S")
                ∷ ("sw_ver", text "00.00.29.76")
                ∷ ("loader_ver", text "<sw_ver>")
                ∷ ("hw_ver", text "MC02")
                ∷ ("sn", text serial_number_2)
                ∷ ("flag", number 0)
                ∷ [])
            ∷ json (
                ("name", text "th")
                ∷ ("project_name", text "N2S")
                ∷ ("sw_ver", text "<sw_ver>")
                ∷ ("loader_ver", text "<s2_ver3>")
                ∷ ("hw_ver", text "TH01")
                ∷ ("sn", text serial_number_3)
                ∷ ("flag", number 0)
                ∷ [])
            ∷ json (
                ("name", text "ams_f1/0")
                ∷ ("project_name", text "")
                ∷ ("sw_ver", text "<sw_ver>")
                ∷ ("loader_ver", text "<ver>")
                ∷ ("ota_ver", text "<ver>")
                ∷ ("hw_ver", text "AMS_F102")
                ∷ ("sn", text serial_number_4)
                ∷ ("flag", number 0)
                ∷ [])
            ∷ [])),
    )
    ∷ ("result", text "success")
    ∷ ("reason", text "")
    ∷ [])

-- `from_value::<Message>(payload).unwrap()` is some message.
abbrev TestGetVersionParser : (Value → Option Message) → Type 0
TestGetVersionParser from_value =
    (m : Message) × (from_value (json (("info", version_payload) ∷ [])) ≡ some m)

abbrev module_of : String → String → String → String → String → Option Bytes → Option Bytes → Module
module_of name project sw hw sn loader ota = record {
  name = codes name;
  project_name = codes project;
  sw_ver = codes sw;
  hw_ver = codes hw;
  sn = codes sn;
  flag = 0;
  loader_ver = loader;
  ota_ver = ota;
}

abbrev version_message : Message
version_message = Message.info (record {
  command = codes "get_version";
  sequence_id = codes "0";
  modules =
      module_of "ota" "N2S" "<sw_ver>" "OTA" serial_number_1 none none
      ∷ module_of "esp32" "N2S" "<sw_ver>" "AP05" serial_number_1 none none
      ∷ module_of "mc" "N2S" "00.00.29.76" "MC02" serial_number_2 (some (codes "<sw_ver>")) none
      ∷ module_of "th" "N2S" "<sw_ver>" "TH01" serial_number_3 (some (codes "<s2_ver3>")) none
      ∷ module_of "ams_f1/0" "" "<sw_ver>" "AMS_F102" serial_number_4 (some (codes "<ver>"))
          (some (codes "<ver>"))
      ∷ [];
  result = codes "success";
  reason = [];
})

led_test-IsReader :
    (from_value : Value → Option Message) → IsReader from_value → DecodeLedCtrlResponse from_value
unfolding write joined includes last has distinct same Attributes.message Attributes.system
    Attributes.led_ctrl Attributes.led_node Attributes.led_mode
led_test-IsReader from_value reads =
    reads led_ctrl_message (codes "system") _ led_ctrl_response (omega arith) refl refl

version_test-IsReader :
    (from_value : Value → Option Message) → IsReader from_value → TestGetVersionParser from_value
unfolding write joined includes last has distinct same Attributes.message Attributes.info
    Attributes.modules Attributes.module_shape
version_test-IsReader from_value reads = (
  version_message,
  reads version_message (codes "info") _ version_payload (omega arith) refl refl,
)
