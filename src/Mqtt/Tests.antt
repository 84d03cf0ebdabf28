-- ===== src/Mqtt/Tests.antt =====
-- Runs of the client of src/mqtt.rs on concrete inputs.
use bambu_rs.Prelude.{
  ◌^◌, ◌+◌, ◌<◌, ◌≡◌, ◌≢◌, refl, true, false, some, List, [], ◌∷◌, arith, Bytes, codes, All, ◌++◌,
  inr, map,
}
use bambu_rs.Text.Equal.{same}
use bambu_rs.Mqtt.Command
use bambu_rs.Mqtt.Command.{Command}
use bambu_rs.Mqtt.Message
use bambu_rs.Mqtt.Message.{Message}
use bambu_rs.Mqtt.Client.{
  Json, response, running, ended, crashed, stop, tick, older_tick, Client, new, find, remove,
  answer, register, receive, deliver, route, handle_message, is_push_status, conn_ack, publish,
  failure, handle_event, poll, Action, start, request, resume, give_up, event, begin, spawn, act,
  run, step, idle, panicked, Event, other,
}
use bambu_rs.Mqtt.Methods.{version_command, convert}
use bambu_rs.Mqtt.Invariant.{IsValid, Matches, new-IsValid}
use bambu_rs.Mqtt.Reachable.{step-IsValid, run-IsValid, run-Matches}
use bambu_rs.Mqtt.Service.{ServesAll}
use bambu_rs.Mqtt.Refine.{run-Serves}
use bambu_rs.Mqtt.Stop.{run-stop}
use bambu_rs.Mqtt.Restart.{newest, earlier, restarted, run-restarted}
use bambu_rs.Mqtt.Requests.{IsReady}
use bambu_rs.Mqtt.Ignored.{IsIgnored, run-ignored-answered}
use bambu_rs.Mqtt.Progress.{Pending, Responds, answered, run-failure, run-late}

-- A reply that has the payload as its sequence id.
abbrev pub reply_to : Bytes → Message
reply_to id = Message.info (record {
  command = codes "get_version";
  sequence_id = id;
  modules = [];
  result = codes "success";
  reason = [];
})

-- A coding that keeps the sequence id alone.
abbrev ids_only : Json
ids_only = record {
  to_vec = λ command. some (Command.sequence_id command);
  from_slice = λ payload. some (reply_to payload);
}

abbrev serial : Bytes
serial = codes "01P00A"

abbrev connects : List Action
connects = start ∷ event (conn_ack true true) ∷ []

abbrev asks : List Action
asks = start ∷ event (conn_ack true true) ∷ request (version_command (codes "7")) true ∷ []

-- A client that awaits the response to the command 7.
abbrev asking : Client
asking = run ids_only asks (new serial)

asking-alone : asking.older ≡ []
unfolding new act spawn poll handle_event begin register find remove
asking-alone = refl

asking-IsValid : IsValid asking
asking-IsValid = run-IsValid ids_only asks (new serial) (new-IsValid serial)

asking-Pending : Pending (version_command (codes "7")) 0 false asking
unfolding new act spawn poll handle_event begin register find remove
asking-Pending = record { caller_waits = refl; no_response = refl; runs = refl }

reply-Responds : Responds ids_only (codes "7") (reply_to (codes "7")) (version_command (codes "7"))
unfolding is_push_status
reply-Responds = record { parses = refl; is_response = refl; same_id = refl }

-- A response, after a message for another command.
round :
    (run ids_only
      (event (publish (codes "5")) ∷ event (publish (codes "7")) ∷ resume ∷ [])
      asking).answers
    ≡ (version_command (codes "7"), response (reply_to (codes "7"))) ∷ []
unfolding new act spawn poll handle_event begin register find remove handle_message route deliver
    receive is_push_status same
round = refl

run-Matches_example :
    All Matches
      (run ids_only
        (start
          ∷ request (version_command (codes "7")) true
          ∷ event (publish (codes "7"))
          ∷ resume
          ∷ [])
        (new serial)).answers
run-Matches_example =
    run-Matches ids_only serial (
      start
      ∷ request (version_command (codes "7")) true
      ∷ event (publish (codes "7"))
      ∷ resume
      ∷ [])

-- A packet that is no publication, and a message for a command that nobody sent.
abbrev noise : List Event
noise = other ∷ publish (codes "5") ∷ []

noise-IsIgnored : All (IsIgnored ids_only asking.inflight) noise
unfolding new act spawn poll handle_event begin register find remove same
noise-IsIgnored = (tt, (inr (reply_to (codes "5"), refl, inr refl), tt))

run-ignored-answered_example :
    run ids_only (map event noise ++ (event (publish (codes "7")) ∷ resume ∷ [])) asking
    ≡ answer
        (version_command (codes "7"))
        (response (reply_to (codes "7")))
        (answered (reply_to (codes "7")) 0 asking)
run-ignored-answered_example =
    run-ignored-answered ids_only (version_command (codes "7")) 0 false noise (codes "7")
      (reply_to (codes "7")) asking asking-IsValid asking-Pending noise-IsIgnored reply-Responds

run-failure_example :
    run ids_only (event (failure false) ∷ resume ∷ event (publish (codes "7")) ∷ resume ∷ []) asking
    ≡ record asking { worker = ended }
run-failure_example =
    run-failure ids_only (version_command (codes "7")) 0 false
      (resume ∷ event (publish (codes "7")) ∷ resume ∷ []) asking asking-Pending asking-alone
      (tt, (tt, (tt, tt)))

run-late_example :
    (run ids_only (give_up ∷ event (publish (codes "7")) ∷ []) asking).worker ≡ crashed
run-late_example =
    run-late ids_only (version_command (codes "7")) 0 false (codes "7") (reply_to (codes "7"))
      asking asking-IsValid asking-Pending reply-Responds

new-next_id : (new serial).next_id + 12 + 1 < 2 ^ 64
unfolding new
new-next_id = omega arith

abbrev pub connected : Client
connected = run ids_only connects (new serial)

pub connected-IsReady : IsReady false connected
unfolding new act spawn poll handle_event
connected-IsReady = record {
  valid = run-IsValid ids_only connects (new serial) (new-IsValid serial);
  is_connected = refl;
  runs = refl;
  counts = omega arith;
}

-- A method that expects another kind of message panics on it.
wrong_kind : convert Message.to_system (response (reply_to [])) ≡ inr panicked
unfolding convert
wrong_kind = refl

step-IsValid_example : IsValid (step ids_only (event (publish (codes "7"))) asking)
step-IsValid_example = step-IsValid ids_only (event (publish (codes "7"))) asking asking-IsValid

run-Serves_example : ServesAll ids_only asks (new serial)
run-Serves_example = run-Serves ids_only serial asks

connected-idle : connected.caller ≡ idle
unfolding new act spawn poll handle_event
connected-idle = refl

run-stop_example :
    (run ids_only
      (stop ∷ (event other ∷ event (publish (codes "7")) ∷ []) ++ tick ∷ [])
      connected).worker
    ≢ running false
run-stop_example =
    run-stop ids_only (event other ∷ event (publish (codes "7")) ∷ []) connected false
      connected-idle (λ h. cc, (λ h. cc, tt))

connected-running : connected.worker ≡ running false
unfolding new act spawn poll handle_event
connected-running = refl

run-restarted_example :
    run ids_only (stop ∷ start ∷ tick ∷ older_tick 0 ∷ older_tick 0 ∷ []) connected
    ≡ restarted false connected
run-restarted_example =
    run-restarted ids_only (tick ∷ older_tick 0 ∷ older_tick 0 ∷ []) connected false connected-idle
      connected-running (newest, (earlier 0, (earlier 0, tt)))
