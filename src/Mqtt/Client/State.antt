-- ===== src/Mqtt/Client/State.antt =====
-- The state of `MqttClient` of src/mqtt.rs and of the task that `start` spawns. The host name and the
-- access code only go to the options of `rumqttc`, and are left out.
use bambu_rs.Prelude.{
  ℕ, zero, suc, Bool, false, Option, none, some, List, [], ◌∷◌, Bytes, ◌==◌, if◌then◌else◌,
}
use bambu_rs.Text.Equal.{same}
use bambu_rs.Mqtt.Command.{Command}
use bambu_rs.Mqtt.Message.{Message}

-- `serde_json::to_vec` and `serde_json::from_slice::<Message>`; `none` is an error.
pub record Json : Type 0 where
  pub to_vec : Command → Option Bytes
  pub from_slice : Bytes → Option Message

-- A `oneshot` channel: its sender is in the map of inflight commands until it is used, and its
-- receiver is with the caller until that is answered or gives up.
pub data Channel : Type 0 where
  empty : Channel
  filled : Message → Channel
  -- the receiver was dropped
  deaf : Channel
  -- the sender was dropped unused
  mute : Channel

-- What the method that is being awaited ends with.
pub data Answer : Type 0 where
  response : Message → Answer
  client_error : Answer
  serde_error : Answer
  panicked : Answer

pub data Caller : Type 0 where
  idle : Caller
  -- `rx.await` for this command, on this channel
  waiting : Command → ℕ → Caller

-- The spawned task. While it runs, the flag says whether `connected_tx` is still there.
pub data Worker : Type 0 where
  not_started : Worker
  running : Bool → Worker
  ended : Worker
  crashed : Worker

pub record Client : Type 0 where
  pub serial : Bytes
  -- `client.is_some()`
  pub connected : Bool
  pub stop_flag : Bool
  -- the hash map, an entry for each key
  pub inflight : List (Bytes × ℕ)
  pub next_id : ℕ
  pub channels : ℕ → Channel
  -- channels made so far
  pub made : ℕ
  pub caller : Caller
  pub worker : Worker
  -- the tasks that ran when `start` was called again, the newest first
  pub older : List Worker
  -- topics and payloads, in the order of publication
  pub published : List (Bytes × Bytes)
  -- topics subscribed to
  pub subscribed : List Bytes
  pub answers : List (Command × Answer)

-- `MqttClient::new`
unfoldable pub new : Bytes → Client
new serial = record {
  serial = serial;
  connected = false;
  stop_flag = false;
  inflight = [];
  next_id = 0;
  channels = λ _. empty;
  made = 0;
  caller = idle;
  worker = not_started;
  older = [];
  published = [];
  subscribed = [];
  answers = [];
}

abbrev pub update {ℓ} : {A : Type ℓ} → (ℕ → A) → ℕ → A → ℕ → A
update f i a j = if i == j then a else f j

abbrev pub replace {ℓ} : {A : Type ℓ} → ℕ → A → List A → List A
replace i a [] = []
replace zero a (b ∷ s) = a ∷ s
replace (suc i) a (b ∷ s) = b ∷ replace i a s

-- `HashMap::get`, `remove` and `insert`.
unfoldable pub find : Bytes → List (Bytes × ℕ) → Option ℕ
find k [] = none
find k ((j, v) ∷ m) = if same j k then some v else find k m

unfoldable pub remove : Bytes → List (Bytes × ℕ) → List (Bytes × ℕ)
remove k [] = []
remove k ((j, v) ∷ m) = let rest = remove k m in if same j k then rest else (j, v) ∷ rest

abbrev pub insert : Bytes → ℕ → List (Bytes × ℕ) → List (Bytes × ℕ)
insert k v m = (k, v) ∷ remove k m

-- A sender that `insert` replaces is dropped, and its channel is mute.
abbrev pub sever : Option ℕ → (ℕ → Channel) → ℕ → Channel
sever none channels = channels
sever (some old) channels = update channels old mute
