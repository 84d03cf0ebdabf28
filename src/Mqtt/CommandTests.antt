-- ===== src/Mqtt/CommandTests.antt =====
-- The unit tests of src/mqtt/command.rs, for any writer.
use bambu_rs.Prelude.{Bool, true, String, List, [], ◌∷◌, codes, if◌then◌else◌}
use bambu_rs.Serde.{
  Value, string, number, object, Entries, no_entries, entry, Writer, to_value, equal,
}
use bambu_rs.Mqtt.Command
use bambu_rs.Mqtt.Command.{Command}
use bambu_rs.Mqtt.Attributes

-- `json!`
abbrev pub json : List (String × Value) → Value
json members = object (entries members)
  where
    entries : List (String × Value) → Entries
    entries [] = no_entries
    entries ((key, v) ∷ members) = entry (codes key) v (entries members)

abbrev pub text : String → Value
text t = string (codes t)

-- What a test serialises, and what it expects.
pub record Test : Type 0 where
  pub cmd : Command
  pub expected : Value

-- `assert_eq!(serde_json::to_value(&cmd).unwrap(), expected)`
abbrev pub passes : Writer → Test → Bool
passes w t = equal (to_value (w.value (Attributes.command t.cmd))) t.expected

abbrev pub test_get_version : Test
test_get_version = record {
  cmd = Command.info (record { sequence_id = codes "999"; command = Command.get_version });
  expected =
      json
        (("info", json (("sequence_id", text "999") ∷ ("command", text "get_version") ∷ [])) ∷ []);
}

abbrev pub test_pause : Test
test_pause = record {
  cmd = Command.print (record { sequence_id = codes "123"; command = Command.pause });
  expected =
      json (("print", json (("sequence_id", text "123") ∷ ("command", text "pause") ∷ [])) ∷ []);
}

abbrev pub test_resume : Test
test_resume = record {
  cmd = Command.print (record { sequence_id = codes "10"; command = Command.resume });
  expected =
      json (("print", json (("sequence_id", text "10") ∷ ("command", text "resume") ∷ [])) ∷ []);
}

abbrev pub test_stop : Test
test_stop = record {
  cmd = Command.print (record { sequence_id = codes "7777"; command = Command.stop });
  expected =
      json (("print", json (("sequence_id", text "7777") ∷ ("command", text "stop") ∷ [])) ∷ []);
}

abbrev pub test_push_all : Test
test_push_all = record {
  cmd = Command.pushing (record { sequence_id = codes "555"; command = Command.push_all 0 0 });
  expected = json (
      (
        "pushing",
        json (
            ("sequence_id", text "555")
            ∷ ("command", text "pushall")
            ∷ ("push_target", number 0)
            ∷ ("version", number 0)
            ∷ []),
      )
      ∷ []);
}

abbrev pub test_start_push : Test
test_start_push = record {
  cmd = Command.pushing (record { sequence_id = codes "2020"; command = Command.start });
  expected =
      json (("pushing", json (("sequence_id", text "2020") ∷ ("command", text "start") ∷ [])) ∷ []);
}

abbrev pub test_set_chamber_light_on : Test
test_set_chamber_light_on = record {
  cmd = Command.system (record {
    sequence_id = codes "42";
    command = Command.led_ctrl (record {
      led_node = Command.chamber_light;
      led_mode = if true then Command.on else Command.off;
      led_on_time = 500;
      led_off_time = 500;
      loop_times = 0;
      interval_time = 0;
    });
  });
  expected = json (
      (
        "system",
        json (
            ("sequence_id", text "42")
            ∷ ("command", text "ledctrl")
            ∷ ("led_node", text "chamber_light")
            ∷ ("led_mode", text "on")
            ∷ ("led_on_time", number 500)
            ∷ ("led_off_time", number 500)
            ∷ ("loop_times", number 0)
            ∷ ("interval_time", number 0)
            ∷ []),
      )
      ∷ []);
}

abbrev pub test_set_speed_profile : Test
test_set_speed_profile = record {
  cmd =
      Command.print
        (record { sequence_id = codes "8910"; command = Command.print_speed (codes "fast") });
  expected = json (
      (
        "print",
        json (
            ("sequence_id", text "8910")
            ∷ ("command", text "print_speed")
            ∷ ("param", text "fast")
            ∷ []),
      )
      ∷ []);
}

abbrev pub test_send_gcode_template : Test
test_send_gcode_template = record {
  cmd =
      Command.print
        (record { sequence_id = codes "1234"; command = Command.gcode_line (codes "G28") });
  expected = json (
      (
        "print",
        json (
            ("sequence_id", text "1234")
            ∷ ("command", text "gcode_line")
            ∷ ("param", text "G28")
            ∷ []),
      )
      ∷ []);
}

abbrev pub test_get_accessories : Test
test_get_accessories = record {
  cmd = Command.system (record {
    sequence_id = codes "9999";
    command = Command.get_accessories Command.no_accessory;
  });
  expected = json (
      (
        "system",
        json (
            ("sequence_id", text "9999")
            ∷ ("command", text "get_accessories")
            ∷ ("accessory_type", text "none")
            ∷ []),
      )
      ∷ []);
}

abbrev pub test_extrusion_cali_get : Test
test_extrusion_cali_get = record {
  cmd = Command.print (record {
    sequence_id = codes "20005";
    command = Command.extrusion_calibration_get (codes "") (codes "0");
  });
  expected = json (
      (
        "print",
        json (
            ("command", text "extrusion_cali_get")
            ∷ ("filament_id", text "")
            ∷ ("nozzle_diameter", text "0")
            ∷ ("sequence_id", text "20005")
            ∷ []),
      )
      ∷ []);
}
