-- ===== src/Mqtt/CommandRuns.antt =====
-- The unit tests of src/mqtt/command.rs, with every writer that is as serde documents it.
use bambu_rs.Prelude.{◌≡◌, refl, ap, ◌∙◌, true, All, All-mono, List, [], ◌∷◌}
use bambu_rs.Text.Equal.{same}
use bambu_rs.Serde.{
  Writer, Documented, write, joined, has, last, to_value, equal, value-write, reference,
}
use bambu_rs.Mqtt.Attributes
use bambu_rs.Mqtt.Supported.{command-IsSupported}
use bambu_rs.Mqtt.CommandTests.{
  Test, passes, test_get_version, test_pause, test_resume, test_stop, test_push_all,
  test_start_push, test_set_chamber_light_on, test_set_speed_profile, test_send_gcode_template,
  test_get_accessories, test_extrusion_cali_get,
}

-- Every test of the file.
abbrev tests : List Test
tests =
    test_get_version ∷ test_pause ∷ test_resume ∷ test_stop ∷ test_push_all ∷ test_start_push
    ∷ test_set_chamber_light_on ∷ test_set_speed_profile ∷ test_send_gcode_template
    ∷ test_get_accessories ∷ test_extrusion_cali_get ∷ []

passes-any :
    (w : Writer) → Documented w → (t : Test) → passes reference t ≡ true → passes w t ≡ true
passes-any w d t h =
    ap (λ v. equal (to_value v) t.expected)
      (value-write w d (Attributes.command t.cmd) (command-IsSupported t.cmd))
    ∙ h

tests-pass_reference : All (λ t. passes reference t ≡ true) tests
unfolding write joined has last to_value equal same Attributes.command Attributes.info_payload
    Attributes.print_payload Attributes.pushing_payload Attributes.system_payload
    Attributes.info_command Attributes.print_command Attributes.pushing_command
    Attributes.system_command Attributes.led_ctrl Attributes.led_node Attributes.led_mode
    Attributes.accessory_type
tests-pass_reference =
    (refl, (refl, (refl, (refl, (refl, (refl, (refl, (refl, (refl, (refl, (refl, tt)))))))))))

tests-pass : (w : Writer) → Documented w → All (λ t. passes w t ≡ true) tests
tests-pass w d = All-mono (λ t h. passes-any w d t h) tests tests-pass_reference
