-- ===== src/Examples/Watch.antt =====
-- `main` of examples/mqtt_client.rs. Its `Config` is that of examples/mjpeg_stream.rs.
use bambu_rs.Prelude.{
  ◌≡◌, refl, ap, ◌∙◌, Bool, true, false, Option, none, some, List, [], ◌∷◌, ◌++◌, map, Bytes, All,
  codes, length, ◌==◌, if◌then◌else◌,
}
use bambu_rs.Outcome.{Outcome, ok, err, panic}
use bambu_rs.Text.Decimal.{display}
use bambu_rs.Mqtt.Client.{
  Json, Worker, not_started, running, ended, crashed, Client, new, topic, Event, conn_ack, start,
  event, spawn, act, poll, handle_event, send, step, run, next_sequence_id,
}
use bambu_rs.Mqtt.Methods.{push_all, push_all_command}
use bambu_rs.Mqtt.Ignored.{IsIgnored, step-ignored}
use bambu_rs.Examples.Config.{Config, from_env}

-- What the task tells `start` after an event, by the task: to wait for `later`, that the connection is
-- made, or an error, which it is, too, if the task ends and tells nothing.
abbrev pub told :
    Option (Outcome (Client × List Event))
    → Client
    → List Event
    → Worker
    → Option (Outcome (Client × List Event))
told later d events not_started = none
told later d events (running pending) = if pending then later else some (ok (d, events))
told later d events ended = some panic
told later d events crashed = some panic

module _ (json : Json) where
  -- `client.start().await.expect(…)`, with the events that are left; `none` while it waits.
  unfoldable pub await_start : List Event → Client → Option (Outcome (Client × List Event))
  await_start [] c = none
  await_start (e ∷ events) c =
      let d = step json (event e) c in told (await_start events d) d events d.worker

  -- `.expect(…)` on what `push_all` returns: an error is an answer.
  abbrev pub expect_pushed : Client → Client → Outcome Client
  expect_pushed before after =
      if length after.answers == length before.answers then ok after else panic

  -- `task.await.expect(…)`: the events that are left, and whether the task panicked.
  abbrev pub expect_task : Client → Outcome Client
  expect_task c = elim c.worker [
    | not_started ↦ ok c
    | running pending ↦ ok c
    | ended ↦ ok c
    | crashed ↦ panic
  ]

  module _ (checks publishes : Bool) where
    -- What follows `push_all`.
    abbrev pub watch : List Event → Outcome Client → Outcome Client
    watch events (ok c) = expect_task (run json (map event events) c)
    watch events (err e) = err e
    watch events panic = panic

    -- What follows `start`.
    abbrev pub go_on : Outcome (Client × List Event) → Outcome Client
    go_on (ok (c, events)) = watch events (expect_pushed c (push_all json checks publishes c))
    go_on (err e) = err e
    go_on panic = panic

    abbrev pub after_start : Option (Outcome (Client × List Event)) → Option (Outcome Client)
    after_start none = none
    after_start (some o) = some (go_on o)

    abbrev pub after_env : List Event → Outcome Config → Option (Outcome Client)
    after_env events (ok config) =
        after_start (await_start events (step json start (new config.serial_number)))
    after_env events (err e) = some (err e)
    after_env events panic = some panic

    -- `main`, with what the event loop yields; `none` while it waits for the connection.
    unfoldable pub main : (Bytes → Option Bytes) → List Event → Option (Outcome Client)
    main var events = after_env events (from_env var)

  await_start-ignored :
      (noise events : List Event) (c : Client)
      → c.worker ≡ running true
      → All (IsIgnored json c.inflight) noise
      → await_start (noise ++ events) c ≡ await_start events c
  unfolding await_start
  await_start-ignored [] events c w h = refl
  await_start-ignored (e ∷ noise) events c w (h, hs) =
      let rest = noise ++ events in
      ap (λ (d : Client). told (await_start rest d) d rest d.worker)
        (step-ignored json true e c w h)
      ∙ ap (told (await_start rest c) c rest) w
      ∙ await_start-ignored noise events c w hs

-- The client when `start` is called, when it returns, and after `push_all`.
abbrev launched : Bytes → Client
launched serial = record (new serial) { connected = true; worker = running true }

abbrev connected : Bytes → Client
connected serial = record (launched serial) {
  subscribed = topic serial (codes "report") ∷ [];
  worker = running false;
}

abbrev pub pushed : Bytes → Bytes → Client
pushed serial payload = record (connected serial) {
  next_id = 1;
  published = (topic serial (codes "request"), payload) ∷ [];
}

push_all-connected :
    (json : Json) (checks : Bool) (serial payload : Bytes)
    → json.to_vec (push_all_command (codes "0")) ≡ some payload
    → push_all json checks true (connected serial) ≡ pushed serial payload
unfolding push_all next_sequence_id send new display
push_all-connected json checks serial payload e =
    ap
      (λ o.
        send json (push_all_command (codes "0")) true o (record (connected serial) { next_id = 1 }))
      e

main-launched :
    (json : Json) (checks : Bool) (var : Bytes → Option Bytes) (config : Config)
    (events : List Event)
    → from_env var ≡ ok config
    → main json checks true var events
      ≡ after_start json checks true (await_start json events (launched config.serial_number))
unfolding main act spawn new
main-launched json checks var config events e = ap (after_env json checks true events) e

await_start-made :
    (json : Json) (later : List Event) (serial : Bytes)
    → await_start json (conn_ack true true ∷ later) (launched serial)
      ≡ some (ok (connected serial, later))
unfolding await_start act poll handle_event new
await_start-made json later serial = refl

after_start-made :
    (json : Json) (checks : Bool) (later : List Event) (serial payload : Bytes)
    → json.to_vec (push_all_command (codes "0")) ≡ some payload
    → after_start json checks true (some (ok (connected serial, later)))
      ≡ some (expect_task json (run json (map event later) (pushed serial payload)))
unfolding new
after_start-made json checks later serial payload e =
    ap (λ d. some (watch json checks true later (expect_pushed json (connected serial) d)))
      (push_all-connected json checks serial payload e)

-- If the environment is complete, the connection is made after any packets that are read and dropped,
-- the publish succeeds and the command is serialised, then the program goes on with a client that has
-- subscribed to `device/{serial}/report`, has published `pushall` with the sequence id 0 on
-- `device/{serial}/request` and nothing else, and awaits nothing; its task takes the events that follow,
-- and the program panics if the task does.
pub main-pushed :
    (json : Json) (checks : Bool) (var : Bytes → Option Bytes) (config : Config)
    (noise later : List Event) (payload : Bytes)
    → from_env var ≡ ok config
    → All (IsIgnored json []) noise
    → json.to_vec (push_all_command (codes "0")) ≡ some payload
    → main json checks true var (noise ++ (conn_ack true true ∷ later))
      ≡ some (expect_task json (run json (map event later) (pushed config.serial_number payload)))
unfolding new
main-pushed json checks var config noise later payload env quiet e =
    let serial = config.serial_number in
    main-launched json checks var config (noise ++ (conn_ack true true ∷ later)) env
    ∙ ap (after_start json checks true) (
        await_start-ignored json noise (conn_ack true true ∷ later) (launched serial) refl quiet
        ∙ await_start-made json later serial)
    ∙ after_start-made json checks later serial payload e
