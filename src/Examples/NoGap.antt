-- ===== src/Examples/NoGap.antt =====
-- What a connection to examples/mjpeg_stream.rs can miss, by what was sent before and after it
-- subscribed.
pub mod Task
pub mod Connection
use bambu_rs.Prelude.{
  ℕ, zero, suc, ◌+◌, ◌<◌, ◌≤◌, ◌≡◌, refl, sym, ap, ◌∙◌, subst, ◌⊎◌, Bool, true, false, Option, none,
  some, inl, inr, List, [], ◌∷◌, ◌++◌, arith, Bytes, length, length-append, get_elem?,
  if◌then◌else◌,
}
use bambu_rs.Camera.Codec.{CameraPacket, auth, jpeg}
use bambu_rs.Examples.Mjpeg.{
  Camera, reading, storing, sending, finished, crashed, Viewer, absent, subscribed, holding,
  watching, AppState, started, Item, packet, failure, closed, Action, next, store, send, subscribe,
  open_body, leave_frame, is_free, handle, remember, broadcast, first_poll, act, serve, step, run,
}

-- `frame` is the last of the first `from` frames that were sent, or a later one.
abbrev pub SentSince : Bytes → ℕ → List Bytes → Type 0
SentSince frame from sent = (i : ℕ) × (from ≤ i + 1) × (get_elem? sent i ≡ some frame)

-- `frame` is the last frame, and the task is about to send it or has ended.
abbrev pub IsUnsent : Bytes → AppState → Type 0
IsUnsent frame s =
    ((s.camera ≡ sending frame) ⊎ (s.camera ≡ finished)) × (s.last_frame ≡ some frame)

abbrev pub IsRecent : Bytes → ℕ → AppState → Type 0
IsRecent frame from s = SentSince frame from s.sent ⊎ IsUnsent frame s

-- Nothing is missing between the frame that a connection starts with, if there is one, and those that
-- are sent after it has subscribed.
abbrev pub MissesNothing : Viewer → AppState → Type 0
MissesNothing absent s = Unit
MissesNothing (subscribed from) s = from ≤ length s.sent
MissesNothing (holding from frame) s = (from ≤ length s.sent) × IsRecent frame from s
MissesNothing (watching from (some frame)) s = (from ≤ length s.sent) × IsRecent frame from s
MissesNothing (watching from none) s = from ≡ 0

abbrev pub IsLatest : Option Bytes → AppState → Type 0
IsLatest none s = s.sent ≡ []
IsLatest (some frame) s = IsRecent frame (length s.sent) s

abbrev pub IsStored : Camera → Option Bytes → Type 0
IsStored (sending frame) last = last ≡ some frame
IsStored _ last = Unit

pub record IsValid (s : AppState) : Type 0 where
  pub latest : IsLatest s.last_frame s
  pub stored : IsStored s.camera s.last_frame

pub record Follows (s t : AppState) : Type 0 where
  pub same_viewer : t.viewer ≡ s.viewer
  pub longer : length s.sent ≤ length t.sent
  pub recent :
      (frame : Bytes) (from : ℕ)
      → from ≤ length s.sent
      → IsRecent frame from s
      → IsRecent frame from t

get_elem?-append :
    (sent : List Bytes) (frame g : Bytes) (i : ℕ)
    → get_elem? sent i ≡ some frame
    → get_elem? (sent ++ g ∷ []) i ≡ some frame
get_elem?-append [] frame g i h = cc
get_elem?-append (f ∷ sent) frame g zero h = h
get_elem?-append (f ∷ sent) frame g (suc i) h = get_elem?-append sent frame g i h

pub get_elem?-append_length :
    (sent : List Bytes) (g : Bytes) → get_elem? (sent ++ g ∷ []) (length sent) ≡ some g
get_elem?-append_length [] g = refl
get_elem?-append_length (f ∷ sent) g = get_elem?-append_length sent g

pub SentSince-append :
    (frame g : Bytes) (from : ℕ) (sent : List Bytes)
    → SentSince frame from sent
    → SentSince frame from (sent ++ g ∷ [])
SentSince-append frame g from sent (i, h, q) = (i, h, get_elem?-append sent frame g i q)

pub Follows-refl : (s : AppState) → Follows s s
Follows-refl s = record { same_viewer = refl; longer = omega arith; recent = λ frame from h r. r }

-- The task has nothing to send, and goes on or ends.
pub Follows-camera :
    (camera : Camera) (s : AppState)
    → ((frame : Bytes) → IsUnsent frame s → IsUnsent frame (record s { camera = camera }))
    → Follows s (record s { camera = camera })
Follows-camera camera s keep = record {
  same_viewer = refl;
  longer = omega arith;
  recent = λ frame from h r. elim r [ inl q ↦ inl q | inr q ↦ inr (keep frame q) ];
}

pub reading-sending :
    (frame : Bytes) (s : AppState) {P : Type 0} → s.camera ≡ reading → IsUnsent frame s → P
reading-sending frame s e (inl q, h) = cc
reading-sending frame s e (inr q, h) = cc

pub storing-sending :
    (frame g : Bytes) (s : AppState) {P : Type 0} → s.camera ≡ storing g → IsUnsent frame s → P
storing-sending frame g s e (inl q, h) = cc
storing-sending frame g s e (inr q, h) = cc

pub Follows-if :
    (s : AppState) (b : Bool) (x y : AppState)
    → Follows s x
    → Follows s y
    → Follows s (if b then x else y)
Follows-if s true x y h k = h
Follows-if s false x y h k = k

pub IsValid-if : (b : Bool) (x y : AppState) → IsValid x → IsValid y → IsValid (if b then x else y)
IsValid-if true x y h k = h
IsValid-if false x y h k = k

pub IsLatest-Follows :
    (last : Option Bytes) (s t : AppState)
    → Follows s t
    → t.sent ≡ s.sent
    → IsLatest last s
    → IsLatest last t
IsLatest-Follows none s t f e h = e ∙ h
IsLatest-Follows (some frame) s t f e h =
    subst (λ n. IsRecent frame n t) (ap length (sym e))
      (f.recent frame (length s.sent) (omega arith) h)

-- The task leaves `last_frame` and the channel alone.
pub camera-IsValid :
    (camera : Camera) (s : AppState)
    → s.camera ≡ reading
    → IsStored camera s.last_frame
    → IsValid s
    → IsValid (record s { camera = camera })
camera-IsValid camera s e stored v = record {
  latest =
      IsLatest-Follows s.last_frame s _ (Follows-camera camera s (λ g q. reading-sending g s e q))
        refl v.latest;
  stored = stored;
}

-- The frame that is about to be sent is the last frame.
pub sending-stored :
    (frame : Bytes) (s : AppState)
    → s.camera ≡ sending frame
    → IsValid s
    → s.last_frame ≡ some frame
sending-stored frame s e v = subst (λ c. IsStored c s.last_frame) e v.stored
