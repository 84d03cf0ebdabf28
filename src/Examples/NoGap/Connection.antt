-- ===== src/Examples/NoGap/Connection.antt =====
-- A connection to examples/mjpeg_stream.rs, beside the task that reads the camera.
use bambu_rs.Prelude.{
  ℕ, ◌+◌, ◌-◌, ◌≤◌, ◌≡◌, refl, sym, ap, subst, Bool, Option, none, some, inl, inr, List, [], ◌∷◌,
  arith, Bytes, length,
}
use bambu_rs.Outcome.{Outcome, ok, err, panic}
use bambu_rs.Crates.{Crates}
use bambu_rs.Camera.Client
use bambu_rs.Camera.Client.{Transport, connect_and_stream_codec}
use bambu_rs.Examples.Config.{Config}
use bambu_rs.Examples.Mjpeg.{
  Camera, Viewer, absent, subscribed, holding, watching, AppState, started, connected, launch,
  Action, next, store, send, subscribe, open_body, leave_frame, hang_up, taken, dropped, elsewhere,
  guard, first_poll, act, serve, step, run,
}
use bambu_rs.Examples.NoGap.{MissesNothing, IsLatest, IsStored, IsValid, Follows}
use bambu_rs.Examples.NoGap.Task.{act-Follows, act-IsValid}

MissesNothing-Follows :
    (viewer : Viewer) (s t : AppState)
    → Follows s t
    → MissesNothing viewer s
    → MissesNothing viewer t
MissesNothing-Follows absent s t f h = tt
MissesNothing-Follows (subscribed from) s t f h = (let longer = f.longer in omega arith)
MissesNothing-Follows (holding from frame) s t f (h, r) =
    ((let longer = f.longer in omega arith), f.recent frame from h r)
MissesNothing-Follows (watching from (some frame)) s t f (h, r) =
    ((let longer = f.longer in omega arith), f.recent frame from h r)
MissesNothing-Follows (watching from none) s t f h = h

-- The viewer reads `last_frame`.
first_poll-MissesNothing :
    (from : ℕ) (last : Option Bytes) (s : AppState)
    → from ≤ length s.sent
    → IsLatest last s
    → MissesNothing (first_poll from last) s
first_poll-MissesNothing from none s h l =
    let none_sent : length s.sent ≡ 0 = ap length l in omega arith
first_poll-MissesNothing from (some frame) s h l =
    (h, elim l [ inl (i, k, q) ↦ inl (i, omega arith, q) | inr q ↦ inr q ])

-- What a step needs and keeps.
abbrev IsSafe : AppState → Type 0
IsSafe s = IsValid s × MissesNothing s.viewer s

IsLatest-viewer :
    (last : Option Bytes) (viewer : Viewer) (s : AppState)
    → IsLatest last s
    → IsLatest last (record s { viewer = viewer })
IsLatest-viewer none viewer s h = h
IsLatest-viewer (some frame) viewer s h = h

MissesNothing-viewer :
    (viewer other : Viewer) (s : AppState)
    → MissesNothing viewer s
    → MissesNothing viewer (record s { viewer = other })
MissesNothing-viewer absent other s h = h
MissesNothing-viewer (subscribed from) other s h = h
MissesNothing-viewer (holding from frame) other s h = h
MissesNothing-viewer (watching from (some frame)) other s h = h
MissesNothing-viewer (watching from none) other s h = h

viewer-IsSafe :
    (viewer : Viewer) (s : AppState)
    → IsValid s
    → MissesNothing viewer s
    → IsSafe (record s { viewer = viewer })
viewer-IsSafe viewer s v m = (
  record { latest = IsLatest-viewer s.last_frame viewer s v.latest; stored = v.stored },
  MissesNothing-viewer viewer viewer s m,
)

IsLatest-holders :
    (last : Option Bytes) (n : ℕ) (s : AppState)
    → IsLatest last s
    → IsLatest last (record s { holders = n })
IsLatest-holders none n s h = h
IsLatest-holders (some frame) n s h = h

MissesNothing-holders :
    (viewer : Viewer) (n : ℕ) (s : AppState)
    → MissesNothing viewer s
    → MissesNothing viewer (record s { holders = n })
MissesNothing-holders absent n s h = h
MissesNothing-holders (subscribed from) n s h = h
MissesNothing-holders (holding from frame) n s h = h
MissesNothing-holders (watching from (some frame)) n s h = h
MissesNothing-holders (watching from none) n s h = h

-- What the other connections do is nothing to this one.
holders-IsSafe : (n : ℕ) (s : AppState) → IsSafe s → IsSafe (record s { holders = n })
holders-IsSafe n s (v, m) = (
  record { latest = IsLatest-holders s.last_frame n s v.latest; stored = v.stored },
  MissesNothing-holders s.viewer n s m,
)

module _ (read_header : Bytes → Bool) where
  serve-IsSafe :
      (viewer : Viewer) (a : Action) (s : AppState)
      → IsSafe s
      → MissesNothing viewer s
      → IsSafe (serve read_header viewer a s)
  unfolding serve
  serve-IsSafe absent subscribe s v m =
      viewer-IsSafe (subscribed (length s.sent)) s v.0 (omega arith)
  serve-IsSafe (subscribed from) open_body s v m =
      viewer-IsSafe (first_poll from s.last_frame) s v.0
        (first_poll-MissesNothing from s.last_frame s m ((v.0).latest))
  serve-IsSafe (holding from frame) leave_frame s v m =
      viewer-IsSafe (watching from (some frame)) s v.0 m
  serve-IsSafe absent (next item) s v m = v
  serve-IsSafe absent store s v m = v
  serve-IsSafe absent (send listened) s v m = v
  serve-IsSafe absent open_body s v m = v
  serve-IsSafe absent leave_frame s v m = v
  serve-IsSafe (subscribed from) (next item) s v m = v
  serve-IsSafe (subscribed from) store s v m = v
  serve-IsSafe (subscribed from) (send listened) s v m = v
  serve-IsSafe (subscribed from) subscribe s v m = v
  serve-IsSafe (subscribed from) leave_frame s v m = v
  serve-IsSafe (holding from frame) (next item) s v m = v
  serve-IsSafe (holding from frame) store s v m = v
  serve-IsSafe (holding from frame) (send listened) s v m = v
  serve-IsSafe (holding from frame) subscribe s v m = v
  serve-IsSafe (holding from frame) open_body s v m = v
  serve-IsSafe (watching from first) (next item) s v m = v
  serve-IsSafe (watching from first) store s v m = v
  serve-IsSafe (watching from first) (send listened) s v m = v
  serve-IsSafe (watching from first) subscribe s v m = v
  serve-IsSafe (watching from first) open_body s v m = v
  serve-IsSafe (watching from first) leave_frame s v m = v
  serve-IsSafe absent hang_up s v m = viewer-IsSafe absent s v.0 tt
  serve-IsSafe absent (elsewhere g) s v m = v
  serve-IsSafe (subscribed from) hang_up s v m = viewer-IsSafe absent s v.0 tt
  serve-IsSafe (subscribed from) (elsewhere g) s v m = v
  serve-IsSafe (holding from frame) hang_up s v m = viewer-IsSafe absent s v.0 tt
  serve-IsSafe (holding from frame) (elsewhere g) s v m = v
  serve-IsSafe (watching from first) hang_up s v m = viewer-IsSafe absent s v.0 tt
  serve-IsSafe (watching from first) (elsewhere g) s v m = v

  guard-IsSafe : (a : Action) (s : AppState) → IsSafe s → IsSafe (guard read_header a s)
  guard-IsSafe (elsewhere taken) s v = holders-IsSafe (s.holders + 1) s v
  guard-IsSafe (elsewhere dropped) s v = holders-IsSafe (s.holders - 1) s v
  guard-IsSafe (next item) s v = v
  guard-IsSafe store s v = v
  guard-IsSafe (send listened) s v = v
  guard-IsSafe subscribe s v = v
  guard-IsSafe open_body s v = v
  guard-IsSafe leave_frame s v = v
  guard-IsSafe hang_up s v = v

  step-IsSafe : (a : Action) (s : AppState) → IsSafe s → IsSafe (step read_header a s)
  step-IsSafe a s (v, m) =
      let t = act read_header s.camera a s in
      let follows = act-Follows read_header s.camera a s refl in
      let kept : MissesNothing t.viewer t =
        subst (λ viewer. MissesNothing viewer t) (sym follows.same_viewer)
          (MissesNothing-Follows s.viewer s t follows m) in
      guard-IsSafe a (serve read_header t.viewer a t)
        (serve-IsSafe t.viewer a t (act-IsValid read_header s.camera a s refl v, kept) kept)

  run-IsSafe :
      (actions : List Action) (s : AppState) → IsSafe s → IsSafe (run read_header actions s)
  run-IsSafe [] s v = v
  run-IsSafe (a ∷ actions) s v = run-IsSafe actions (step read_header a s) (step-IsSafe a s v)

  start-IsSafe :
      (camera : Camera) → IsStored camera none → IsSafe (record started { camera = camera })
  start-IsSafe camera stored = (record { latest = refl; stored = stored }, tt)

  connected-IsStored : {A : Type 0} (o : Outcome A) → IsStored (connected o) none
  connected-IsStored (ok stream) = tt
  connected-IsStored (err e) = tt
  connected-IsStored panic = tt

  -- After `main` has started the task, and any steps of it and of a connection, in any order and
  -- with any frames, the connection misses nothing: if it started with a frame, then that frame is
  -- the last one that was sent before it subscribed, or was sent later, or the task was still to
  -- send it, or ended before it did; if it started with none, then none had been sent before it
  -- subscribed.
  pub run-MissesNothing :
      (c : Crates) {Address : Type 0} (net : Transport Address) (config : Config)
      (actions : List Action)
      → let s = run read_header actions (launch c net config) in MissesNothing s.viewer s
  run-MissesNothing c net config actions =
      let o =
        connect_and_stream_codec c net
          (Client.new config.printer_ip config.access_code config.camera_port) in
      (run-IsSafe actions (launch c net config)
        (start-IsSafe (connected o) (connected-IsStored o))).1
