-- ===== src/Mqtt/Restart.antt =====
-- `stop` and `start` of src/mqtt.rs, called before the task has looked at the flag.
use bambu_rs.Prelude.{
  ℕ, zero, suc, ◌≡◌, refl, ap, ◌∙◌, Bool, true, false, Option, none, some, List, [], ◌∷◌, All,
  get_elem?, if◌then◌else◌,
}
use bambu_rs.Mqtt.Client.{
  Json, Caller, idle, waiting, Worker, not_started, running, ended, crashed, Client, replace,
  in_place, older_task, Action, start, stop, tick, older_tick, spawn, see_stop, act, step, run,
}

-- A task looks at the flag.
pub data IsTick : Action → Type 0 where
  newest : IsTick tick
  earlier : (i : ℕ) → IsTick (older_tick i)

-- Two tasks, and the flag is not set.
abbrev pub restarted : Bool → Client → Client
restarted pending c = record c {
  connected = true;
  stop_flag = false;
  worker = running true;
  older = running pending ∷ c.older;
}

replace_same : (i : ℕ) (w : Worker) (s : List Worker) → get_elem? s i ≡ some w → replace i w s ≡ s
replace_same i w [] e = refl
replace_same zero w (x ∷ s) e = let same : w ≡ x = cc in ap (λ y. y ∷ s) same
replace_same (suc i) w (x ∷ s) e = ap (◌∷◌ x) (replace_same i w s e)

see_stop-unset :
    (json : Json) (worker : Worker) (c : Client) → c.stop_flag ≡ false → see_stop json worker c ≡ c
unfolding see_stop
see_stop-unset json (running pending) c e = ap (λ b. if b then record c { worker = ended } else c) e
see_stop-unset json not_started c e = refl
see_stop-unset json ended c e = refl
see_stop-unset json crashed c e = refl

older_tick-unset :
    (json : Json) (i : ℕ) (c : Client)
    → c.stop_flag ≡ false
    → older_task i (λ d. see_stop json d.worker d) c ≡ c
unfolding in_place
older_tick-unset json i c e = go (get_elem? c.older i) refl
  where
    go :
        (o : Option Worker)
        → get_elem? c.older i ≡ o
        → in_place o i (λ d. see_stop json d.worker d) c ≡ c
    go none q = refl
    go (some w) q =
        ap (λ (d : Client). record d { worker = c.worker; older = replace i d.worker d.older })
          (see_stop-unset json w (record c { worker = w }) e)
        ∙ ap {B = Client} (λ tasks. record c { older = tasks }) (replace_same i w c.older q)

act-unset :
    (json : Json) (caller : Caller) {a : Action} (c : Client)
    → c.stop_flag ≡ false
    → IsTick a
    → act json caller a c ≡ c
unfolding act
act-unset json idle c e newest = see_stop-unset json c.worker c e
act-unset json (waiting command ch) c e newest = see_stop-unset json c.worker c e
act-unset json idle c e (earlier i) = older_tick-unset json i c e
act-unset json (waiting command ch) c e (earlier i) = older_tick-unset json i c e

run-unset :
    (json : Json) (ticks : List Action) (c : Client)
    → c.stop_flag ≡ false
    → All IsTick ticks
    → run json ticks c ≡ c
run-unset json [] c e t = refl
run-unset json (a ∷ ticks) c e (t, ts) =
    ap (run json ticks) (act-unset json c.caller c e t) ∙ run-unset json ticks c e ts

-- When the caller stops a running client and starts it again before the task has looked at the flag,
-- the old task goes on beside the new one, and no task ends however often they look at the flag.
pub run-restarted :
    (json : Json) (ticks : List Action) (c : Client) (pending : Bool)
    → c.caller ≡ idle
    → c.worker ≡ running pending
    → All IsTick ticks
    → run json (stop ∷ start ∷ ticks) c ≡ restarted pending c
unfolding act spawn
run-restarted json ticks c pending e w ts =
    let d = record c { stop_flag = true } in
    let first : step json stop c ≡ d = ap (λ caller. act json caller stop c) e in
    let second : step json start d ≡ restarted pending c =
      ap (λ caller. act json caller start d) e ∙ ap (λ worker. spawn json worker d) w in
    ap (λ x. run json ticks (step json start x)) first
    ∙ ap (run json ticks) second
    ∙ run-unset json ticks (restarted pending c) refl ts
