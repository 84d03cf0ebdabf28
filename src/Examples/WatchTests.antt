-- ===== src/Examples/WatchTests.antt =====
-- Runs of examples/mqtt_client.rs on concrete inputs.
use bambu_rs.Prelude.{◌≡◌, refl, true, none, some, List, [], ◌∷◌, ◌++◌, codes, map, inl, All}
use bambu_rs.Outcome.{panic}
use bambu_rs.Text.Decimal.{parse}
use bambu_rs.Text.Equal.{same}
use bambu_rs.Mqtt.Command
use bambu_rs.Mqtt.Client.{
  Json, Event, conn_ack, publish, other, failure, event, run, act, spawn, poll, handle_event, new,
}
use bambu_rs.Mqtt.Ignored.{IsIgnored}
use bambu_rs.Examples.Config.{from_env}
use bambu_rs.Examples.Watch.{expect_task, await_start, main, pushed, main-pushed}
use bambu_rs.Examples.Tests.{environment, config, environment-config}

-- A coding that writes the sequence id alone and reads nothing.
abbrev ids_only : Json
ids_only = record {
  to_vec = λ command. some (Command.sequence_id command);
  from_slice = λ payload. none;
}

-- A packet that is no publication, and a publication that is no message.
abbrev noise : List Event
noise = other ∷ publish (codes "?") ∷ []

noise-IsIgnored : All (IsIgnored ids_only []) noise
noise-IsIgnored = (tt, (inl refl, tt))

main-pushed_example :
    main ids_only true true environment (noise ++ (conn_ack true true ∷ other ∷ []))
    ≡ some (
        expect_task ids_only
          (run ids_only (map event (other ∷ [])) (pushed (codes "01P00A") (codes "0"))))
main-pushed_example =
    main-pushed ids_only true environment config noise (other ∷ []) (codes "0") environment-config
      noise-IsIgnored refl

-- A connection that fails makes the program panic.
refused : main ids_only true true environment (failure true ∷ []) ≡ some panic
unfolding main await_start from_env same parse act spawn poll handle_event new
refused = refl
