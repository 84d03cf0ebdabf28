-- ===== src/Examples/Multipart.antt =====
-- The body of a response of examples/mjpeg_stream.rs, read as a client of `multipart/x-mixed-replace`
-- reads it: by the length that each part announces.
use bambu_rs.Prelude.{
  ℕ, ◌^◌, ◌<◌, ◌≡◌, refl, sym, ap, ap₂, subst, ◌∙◌, Option, none, some, List, [], ◌∷◌, ◌++◌, map,
  arith, Bytes, codes, All, All-weaken, Lacks, length, take, drop, take-append, drop-append,
  append_assoc, if◌then◌else◌,
}
use bambu_rs.Crates.{is_prefix, is_prefix-append}
use bambu_rs.Text.Decimal.{display, parse}
use bambu_rs.Text.Decimal.RoundTrip.{IsDigit, parse-display, display-IsDigit}
use bambu_rs.Text.Split.{splitn_2, splitn_2-append}
use bambu_rs.Framed.{concat, concat-append}
use bambu_rs.Examples.Mjpeg.{boundary, crlf, part, live, mjpeg_stream}

-- What a client receives: the frames, and then an error or nothing yet. The channel passes on every
-- frame that is sent after `subscribe`, in order, until a receiver falls too far behind, which is an
-- error.
abbrev pub body : Option Bytes → List Bytes → List (Option Bytes) → Bytes
body first frames after = concat (mjpeg_stream first (map some frames ++ after))

-- The text before the length.
abbrev pub lead : Bytes
lead =
    codes "--"
    ++ (boundary
        ++ (crlf ++ (codes "Content-Type: image/jpeg" ++ (crlf ++ codes "Content-Length: "))))

-- `text` without this text in front.
abbrev pub strip : Bytes → Bytes → Option Bytes
strip front text = if is_prefix front text then some (drop (length front) text) else none

abbrev pub read_end : Bytes → Option Bytes → Option (Bytes × Bytes)
read_end frame none = none
read_end frame (some rest) = some (frame, rest)

-- The body of a part, behind its header, and what follows the part.
abbrev pub read_body : Option ℕ → Option Bytes → Option (Bytes × Bytes)
read_body (some len) (some text) = read_end (take len text) (strip crlf (drop len text))
read_body _ _ = none

-- The length, and the rest of the blank line.
abbrev pub read_split : Bytes × Option Bytes → Option (Bytes × Bytes)
read_split (digits, none) = none
read_split (digits, some behind) = read_body (parse (2 ^ 64) digits) (strip (0x0a ∷ crlf) behind)

abbrev pub read_length : Option Bytes → Option (Bytes × Bytes)
read_length none = none
read_length (some text) = read_split (splitn_2 0x0d text)

abbrev pub read_part : Bytes → Option (Bytes × Bytes)
read_part text = read_length (strip lead text)

-- Part after part, until nothing is left. A part has more bytes than one, so as many rounds as bytes
-- are enough.
pub data Parts : Bytes → List Bytes → Type 0 where
  none_left : Parts [] []
  one_more :
      {text rest frame : Bytes} {frames : List Bytes}
      → read_part text ≡ some (frame, rest)
      → Parts rest frames
      → Parts text (frame ∷ frames)

strip-append : (front text : Bytes) → strip front (front ++ text) ≡ some text
strip-append front text =
    rw (is_prefix-append front text) (ap some (drop-append front text (length front) refl))

part_text :
    (frame rest : Bytes)
    → concat (part frame) ++ rest
      ≡ lead ++ (display (length frame) ++ (0x0d ∷ ((0x0a ∷ crlf) ++ (frame ++ (crlf ++ rest)))))
part_text frame rest = simp append_assoc

read_body-frame :
    (frame rest : Bytes)
    → read_body (some (length frame)) (some (frame ++ (crlf ++ rest))) ≡ some (frame, rest)
read_body-frame frame rest =
    let text = crlf ++ rest in
    ap₂ read_end (take-append frame text (length frame) refl)
      (ap (strip crlf) (drop-append frame text (length frame) refl) ∙ strip-append crlf rest)

read_part-part :
    (frame rest : Bytes)
    → length frame < 2 ^ 64
    → read_part (concat (part frame) ++ rest) ≡ some (frame, rest)
read_part-part frame rest small =
    let n = length frame in
    let behind = (0x0a ∷ crlf) ++ (frame ++ (crlf ++ rest)) in
    let digits_plain : Lacks 0x0d (display n) =
      All-weaken IsDigit _ (display n) (λ c h. omega arith) (display-IsDigit n) in
    ap read_part (part_text frame rest)
    ∙ ap read_length (strip-append lead (display n ++ (0x0d ∷ behind)))
    ∙ ap read_split (splitn_2-append 0x0d (display n) behind digits_plain)
    ∙ ap₂ read_body (parse-display (2 ^ 64) n small) (strip-append (0x0a ∷ crlf) _)
    ∙ read_body-frame frame rest

-- A channel that says nothing more, for now or for ever.
abbrev IsSilent : List (Option Bytes) → Type 0
IsSilent after = live after ≡ []

-- The frames of the channel, read back.
Parts-live :
    (frames : List Bytes) (after : List (Option Bytes))
    → IsSilent after
    → All (λ frame. length frame < 2 ^ 64) frames
    → Parts (concat (live (map some frames ++ after))) frames
unfolding live
Parts-live [] after silent small = subst (λ w. Parts (concat w) []) (sym silent) none_left
Parts-live (frame ∷ frames) after silent (small, rest_small) =
    let behind = live (map some frames ++ after) in
    one_more
      (ap read_part (concat-append (part frame) behind)
        ∙ read_part-part frame (concat behind) small)
      (Parts-live frames after silent rest_small)

-- The frames of `first`.
abbrev pub to_list : Option Bytes → List Bytes
to_list none = []
to_list (some frame) = frame ∷ []

-- Take a frame to start with, if there is one, and the frames that the channel passes on before it
-- fails or has nothing more, each of less than 2^64 bytes. What the client receives is read, part
-- after part and by the lengths that the parts announce, as these frames in this order, to the last
-- byte.
pub Parts-body :
    (first : Option Bytes) (frames : List Bytes) (after : List (Option Bytes))
    → IsSilent after
    → All (λ frame. length frame < 2 ^ 64) (to_list first ++ frames)
    → Parts (body first frames after) (to_list first ++ frames)
unfolding mjpeg_stream
Parts-body none frames after silent small = Parts-live frames after silent small
Parts-body (some frame) frames after silent (small, rest_small) =
    let behind = live (map some frames ++ after) in
    one_more
      (ap read_part (concat-append (part frame) behind)
        ∙ read_part-part frame (concat behind) small)
      (Parts-live frames after silent rest_small)
