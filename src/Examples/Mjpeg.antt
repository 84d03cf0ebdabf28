-- ===== src/Examples/Mjpeg.antt =====
-- The server of examples/mjpeg_stream.rs: the task that reads the camera, and the body of a response.
-- The crates axum, turbojpeg and tokio are parameters. What is printed is left out.
use bambu_rs.Prelude.{
  ℕ, ◌+◌, ◌-◌, ◌==◌, Bool, true, false, Option, none, some, List, [], ◌∷◌, ◌++◌, Bytes, codes,
  length, if◌then◌else◌,
}
use bambu_rs.Text.Decimal.{display}
use bambu_rs.Outcome.{Outcome, ok, err, panic}
use bambu_rs.Crates.{Crates}
use bambu_rs.Camera.Client
use bambu_rs.Camera.Client.{Transport, connect_and_stream_codec}
use bambu_rs.Examples.Config.{Config}
use bambu_rs.Camera.Codec.{CameraPacket, auth, jpeg}

abbrev pub boundary : Bytes
boundary = codes "donotcrossboundary"

abbrev pub crlf : Bytes
crlf = 0x0d ∷ 0x0a ∷ []

-- The header of a part, for a frame of so many bytes.
abbrev pub part_header : ℕ → Bytes
part_header len =
    codes "--"
    ++ (boundary
        ++ (crlf
            ++ (codes "Content-Type: image/jpeg"
                ++ (crlf ++ (codes "Content-Length: " ++ (display len ++ (crlf ++ crlf)))))))

-- The three items that are yielded for a frame.
abbrev pub part : Bytes → List Bytes
part frame = part_header (length frame) ∷ frame ∷ crlf ∷ []

-- The loop of `mjpeg_stream`, by what `rx.recv()` returns; `none` for an error.
unfoldable pub live : List (Option Bytes) → List Bytes
live [] = []
live (none ∷ rest) = []
live (some frame ∷ rest) = part frame ++ live rest

-- `mjpeg_stream`, by the last frame, if there is one.
unfoldable pub mjpeg_stream : Option Bytes → List (Option Bytes) → List Bytes
unfolding live
mjpeg_stream none received = live received
mjpeg_stream (some frame) received = part frame ++ live received

-- The task that reads the camera.
pub data Camera : Type 0 where
  reading : Camera
  -- waits for the lock on `last_frame`
  storing : Bytes → Camera
  -- the frame is in `last_frame`, and goes to the broadcast channel next
  sending : Bytes → Camera
  -- the stream ended, or nobody listened
  finished : Camera
  crashed : Camera

-- One connection to `/stream/live.mjpeg`.
pub data Viewer : Type 0 where
  absent : Viewer
  -- `state.tx.subscribe()`, after so many frames were sent
  subscribed : ℕ → Viewer
  -- yields the last frame; the guard of the lock lives as long as the `if let`
  holding : ℕ → Bytes → Viewer
  -- in the loop, behind the last frame, if there was one
  watching : ℕ → Option Bytes → Viewer

-- What the task and the connections share, the task, and one of the connections. Of the others, what
-- counts is how many of them hold the lock.
pub record AppState : Type 0 where
  -- all that was sent to the broadcast channel
  pub sent : List Bytes
  pub last_frame : Option Bytes
  pub camera : Camera
  pub viewer : Viewer
  pub holders : ℕ

abbrev pub started : AppState
started = record { sent = []; last_frame = none; camera = reading; viewer = absent; holders = 0 }

-- The task after `connect_and_stream_codec`.
abbrev pub connected {ℓ} : {A : Type ℓ} → Outcome A → Camera
connected (ok stream) = reading
connected (err e) = finished
connected panic = crashed

-- `main`, up to the server: the state is shared, and the task has connected or failed to.
abbrev pub launch : Crates → {Address : Type 0} → Transport Address → Config → AppState
launch c net config = record started {
  camera = connected (
      connect_and_stream_codec c net
        (Client.new config.printer_ip config.access_code config.camera_port));
}

-- What `frame_stream.next()` yields.
pub data Item : Type 0 where
  packet : CameraPacket → Item
  failure : Item
  closed : Item

-- What another connection does with a guard of the lock on `last_frame`.
pub data Guard : Type 0 where
  taken : Guard
  dropped : Guard

pub data Action : Type 0 where
  -- the task takes an item
  next : Item → Action
  -- the task gets the lock, unless a connection has it
  store : Action
  -- the task sends its frame; whether there is a receiver
  send : Bool → Action
  -- `mjpeg_live_stream`
  subscribe : Action
  -- the body is polled for the first time
  open_body : Action
  -- the body is polled behind the last frame
  leave_frame : Action
  -- the client disconnects or the loop ends: the body is dropped, and a guard that it holds with it
  hang_up : Action
  -- another connection takes a guard or drops it
  elsewhere : Guard → Action

-- Whether the lock on `last_frame` is free for the task, by the connection and the number of others
-- that hold it.
abbrev pub is_free : Viewer → ℕ → Bool
is_free (holding from frame) holders = false
is_free _ holders = holders == 0

-- The first poll of the body, by the last frame.
abbrev pub first_poll : ℕ → Option Bytes → Viewer
first_poll from none = watching from none
first_poll from (some frame) = holding from frame

module _ (read_header : Bytes → Bool) where
  -- The loop of the task, up to the lock.
  unfoldable pub handle : Item → AppState → AppState
  handle (packet (auth username access_code)) s = record s { camera = crashed }
  handle (packet (jpeg frame)) s =
      if read_header frame then record s { camera = storing frame } else s
  handle failure s = s
  handle closed s = record s { camera = finished }

  -- `*last_frame = Some(frame)`
  unfoldable pub remember : Bytes → AppState → AppState
  remember frame s =
      if is_free s.viewer s.holders
      then record s { last_frame = some frame; camera = sending frame }
      else s

  -- `tx.send(frame)`
  unfoldable pub broadcast : Bool → Bytes → AppState → AppState
  broadcast true frame s = record s { sent = s.sent ++ frame ∷ []; camera = reading }
  broadcast false frame s = record s { camera = finished }

  -- The task does one thing after the other.
  unfoldable pub act : Camera → Action → AppState → AppState
  act reading (next item) s = handle item s
  act (storing frame) store s = remember frame s
  act (sending frame) (send listened) s = broadcast listened frame s
  act _ _ s = s

  -- So does the connection.
  unfoldable pub serve : Viewer → Action → AppState → AppState
  serve absent subscribe s = record s { viewer = subscribed (length s.sent) }
  serve (subscribed from) open_body s = record s { viewer = first_poll from s.last_frame }
  serve (holding from frame) leave_frame s = record s { viewer = watching from (some frame) }
  serve _ hang_up s = record s { viewer = absent }
  serve _ _ s = s

  -- The other connections, which read at the same time.
  abbrev pub guard : Action → AppState → AppState
  guard (elsewhere taken) s = record s { holders = s.holders + 1 }
  guard (elsewhere dropped) s = record s { holders = s.holders - 1 }
  guard _ s = s

  abbrev pub step : Action → AppState → AppState
  step a s = let t = act s.camera a s in guard a (serve t.viewer a t)

  abbrev pub run : List Action → AppState → AppState
  run [] s = s
  run (a ∷ actions) s = run actions (step a s)
