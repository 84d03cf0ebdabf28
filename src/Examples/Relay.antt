-- ===== src/Examples/Relay.antt =====
-- A frame of the camera on its way through examples/mjpeg_stream.rs: the codec, the task, the channel
-- and the body of a response.
use bambu_rs.Prelude.{
  ℕ, ◌^◌, ◌<◌, ◌≡◌, refl, sym, ap, ◌∙◌, subst, Bool, true, Option, none, some, List, [], ◌∷◌, ◌++◌,
  map, Bytes, All, All-weaken, length, drop, drop-append, append-nil, append_assoc, if◌then◌else◌,
}
use bambu_rs.Outcome.{ok}
use bambu_rs.Crates.{Crates, Documented}
use bambu_rs.Framed.{left, concat, Receives}
use bambu_rs.Camera.Codec.{CameraPacket, auth, jpeg, decode}
use bambu_rs.Camera.Playback.{IsSendable, stream_of, encode_all-stream_of, decode-bytes_of}
use bambu_rs.Camera.Auth.{Fits, auth_bytes}
use bambu_rs.Camera.Chunks.{Receives-encode_all}
use bambu_rs.Examples.Mjpeg.{
  AppState, Viewer, absent, subscribed, holding, reading, storing, crashed, watching, packet,
  Action, next, store, send, handle, remember, broadcast, act, serve, step, run, live,
}
use bambu_rs.Examples.Multipart.{Parts, body, Parts-body}

-- What the task does for the items that the codec yields, when it always gets the lock and the
-- channel has a receiver.
abbrev pub relay : List CameraPacket → List Action
relay [] = []
relay (item ∷ items) = next (packet item) ∷ store ∷ send true ∷ relay items

-- A connection in its loop, which subscribed after so many frames, and a task that waits for the
-- next.
abbrev pub watched : ℕ → Option Bytes → List Bytes → Option Bytes → AppState
watched from first sent last = record {
  sent = sent;
  last_frame = last;
  camera = reading;
  viewer = watching from first;
  holders = 0;
}

abbrev last_of : Option Bytes → List Bytes → Option Bytes
last_of last [] = last
last_of last (frame ∷ frames) = last_of (some frame) frames

module _ (read_header : Bytes → Bool) (from : ℕ) (first : Option Bytes) where
  relay_one :
      (frame : Bytes) (actions : List Action) (sent : List Bytes) (last : Option Bytes)
      → read_header frame ≡ true
      → run read_header
          (next (packet (jpeg frame)) ∷ store ∷ send true ∷ actions)
          (watched from first sent last)
        ≡ run read_header actions (watched from first (sent ++ frame ∷ []) (some frame))
  unfolding act handle remember broadcast serve
  relay_one frame actions sent last e =
      let s = watched from first sent last in
      ap
        (λ b.
          let t = if b then record s { camera = storing frame } else s in
          run read_header (store ∷ send true ∷ actions)
            (serve read_header t.viewer (next (packet (jpeg frame))) t))
        e

  relay_every :
      (frames : List Bytes) (sent : List Bytes) (last : Option Bytes)
      → All (λ frame. read_header frame ≡ true) frames
      → run read_header (relay (map jpeg frames)) (watched from first sent last)
        ≡ watched from first (sent ++ frames) (last_of last frames)
  relay_every [] sent last h = ap (λ l. watched from first l last) (sym (append-nil sent))
  relay_every (frame ∷ frames) sent last (h, hs) =
      relay_one frame (relay (map jpeg frames)) sent last h
      ∙ relay_every frames (sent ++ frame ∷ []) (some frame) hs
      ∙ ap (λ l. watched from first l (last_of (some frame) frames))
          (append_assoc sent (frame ∷ []) frames)

All-map {ℓ κ} :
    {A : Type ℓ} {B : Type ℓ} (P : B → Type κ) (f : A → B) (xs : List A)
    → All (λ x. P (f x)) xs
    → All P (map f xs)
All-map P f [] h = tt
All-map P f (x ∷ xs) (h, hs) = (h, All-map P f xs hs)

stream_of-jpeg : (frames : List Bytes) → stream_of (map jpeg frames) ≡ concat frames
stream_of-jpeg [] = refl
stream_of-jpeg (frame ∷ frames) = ap (◌++◌ frame) (stream_of-jpeg frames)

-- A frame that goes all the way: it begins with the start marker and has the end marker at its end
-- and, behind the start marker, nowhere before; its header is read; and its length fits a machine
-- word.
pub record IsGood (read_header : Bytes → Bool) (frame : Bytes) : Type 0 where
  pub sendable : IsSendable (jpeg frame)
  pub readable : read_header frame ≡ true
  pub short : length frame < 2 ^ 64

All-IsGood {κ} :
    (read_header : Bytes → Bool) (P : Bytes → Type κ) (frames : List Bytes)
    → ((frame : Bytes) → IsGood read_header frame → P frame)
    → All (IsGood read_header) frames
    → All P frames
All-IsGood read_header P frames f h = All-weaken (IsGood read_header) P frames f h

-- Let the camera send good frames, one after the other, cut into pieces in any way, while a
-- connection is in its loop that got no frame to start with, and let the task get the lock and send
-- each time. Then the codec yields these frames, the task sends them and nothing else, and the
-- client of the connection, if it keeps up, reads them back from the body of the response, in order.
pub run-relay :
    {c : Crates}
    → Documented c
    → (read_header : Bytes → Bool) (frames chunks sent : List Bytes) (last : Option Bytes)
    → All (IsGood read_header) frames
    → concat chunks ≡ concat frames
    → (items : List CameraPacket) × Receives (decode c) [] chunks items (left [])
      × (let t = run read_header (relay items) (watched (length sent) none sent last) in
          (t.sent ≡ sent ++ frames) × Parts (body none (drop (length sent) t.sent) []) frames)
run-relay doc read_header frames chunks sent last good e =
    let sendable =
      All-map IsSendable jpeg frames
        (All-IsGood read_header _ frames (λ frame g. g.sendable) good) in
    let written =
      e ∙ sym (stream_of-jpeg frames) ∙ sym (encode_all-stream_of doc (map jpeg frames) []) in
    let done : (run read_header (relay (map jpeg frames))
          (watched (length sent) none sent last)).sent
        ≡ sent ++ frames =
      ap (λ s. s.sent)
        (relay_every read_header (length sent) none frames sent last
          (All-IsGood read_header _ frames (λ frame g. g.readable) good)) in
    let behind = ap (drop (length sent)) done ∙ drop-append sent frames (length sent) refl in
    let parts =
      Parts-body none frames [] (unfold live in refl)
        (All-IsGood read_header _ frames (λ frame g. g.short) good) in
    (
      map jpeg frames,
      Receives-encode_all doc (map jpeg frames) chunks sendable written,
      (done, subst (λ received. Parts (body none received []) frames) (sym behind) parts),
    )

-- When what the camera sends is, at the front of the buffer, a packet of credentials, each of them
-- UTF-8 of at most 32 bytes that does not end in a zero, the task panics on what the codec yields.
pub step-credentials :
    {c : Crates}
    → Documented c
    → (read_header : Bytes → Bool) (username access_code rest : Bytes) (s : AppState)
    → Fits username
    → Fits access_code
    → s.camera ≡ reading
    → (item : CameraPacket) × (decode c (auth_bytes username access_code ++ rest)
        ≡ (ok (some item), rest))
      × ((step read_header (next (packet item)) s).camera ≡ crashed)
unfolding act handle serve
step-credentials doc read_header u a rest s fu fa e =
    (auth u a, decode-bytes_of doc (auth u a) rest (fu, fa), ap (λ t. t.camera) stepped)
  where
    panics : act read_header s.camera (next (packet (auth u a))) s ≡ record s { camera = crashed }
    panics = ap (λ camera. act read_header camera (next (packet (auth u a))) s) e

    kept :
        (viewer : Viewer) (t : AppState) → serve read_header viewer (next (packet (auth u a))) t ≡ t
    kept absent t = refl
    kept (subscribed from) t = refl
    kept (holding from frame) t = refl
    kept (watching from first) t = refl

    stepped : step read_header (next (packet (auth u a))) s ≡ record s { camera = crashed }
    stepped = kept _ _ ∙ panics
