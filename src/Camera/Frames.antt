-- ===== src/Camera/Frames.antt =====
-- What `decode_jpeg_packet` of src/camera/codec.rs takes out of the buffer.
use bambu_rs.Prelude.{
  ℕ, ◌+◌, ◌≤◌, ◌<◌, ◌≡◌, ◌↔◌, inl, inr, refl, sym, ap, ap₂, subst, ◌∙◌, Option, none, some, ◌++◌,
  arith, Bytes, length, take, drop, length-append, length-take, length-drop, drop-append, drop-take,
  append_assoc, Option-cases,
}
use bambu_rs.Outcome.{Outcome, ok}
use bambu_rs.Crates.{
  Crates, Documented, IsFirst, IsFirst-length, IsFirst-append, first_match, first_match_sound,
  first_match_complete, find-eq,
}
use bambu_rs.Camera.Codec.{jpeg_start_marker, jpeg_end_marker, decode_jpeg_packet}

-- `frame` reaches from the first start marker of `src` to the first end marker behind that marker,
-- and `rest` is what follows it.
pub record IsFrame (src frame rest : Bytes) : Type 0 where
  pub before : Bytes
  pub body : Bytes
  pub frame_is : frame ≡ jpeg_start_marker ++ (body ++ jpeg_end_marker)
  pub splits : src ≡ before ++ (jpeg_start_marker ++ (body ++ (jpeg_end_marker ++ rest)))
  pub first_start : IsFirst jpeg_start_marker src (length before)
  pub first_end : IsFirst jpeg_end_marker (body ++ (jpeg_end_marker ++ rest)) (length body)

module _ {c : Crates} (doc : Documented c) (src : Bytes) where
  pub no_start :
      first_match jpeg_start_marker src ≡ none → decode_jpeg_packet c src ≡ (ok none, src)
  unfolding decode_jpeg_packet
  no_start h = ground (arith, find-eq doc src jpeg_start_marker)

  module _ (i : ℕ) (started : first_match jpeg_start_marker src ≡ some i) where
    start_fits : i + 4 ≤ length src
    start_fits = IsFirst-length (first_match_sound jpeg_start_marker src i started)

    no_end :
        first_match jpeg_end_marker (drop (i + 4) src) ≡ none
        → decode_jpeg_packet c src ≡ (ok none, src)
    unfolding decode_jpeg_packet
    no_end h = ground (
      arith,
      start_fits,
      find-eq doc src jpeg_start_marker,
      find-eq doc (drop (i + 4) src) jpeg_end_marker,
    )

    module _ (j : ℕ) (ended : first_match jpeg_end_marker (drop (i + 4) src) ≡ some j) where
      end_fits : i + 4 + j + 2 ≤ length src
      end_fits = omega (
        arith,
        IsFirst-length (first_match_sound jpeg_end_marker (drop (i + 4) src) j ended),
        length-drop (i + 4) src,
        start_fits,
      )

      found :
          decode_jpeg_packet c src
          ≡ (ok (some (drop i (take (i + 4 + j + 2) src))), drop (i + 4 + j + 2) src)
      unfolding decode_jpeg_packet
      found = ground (
        arith,
        start_fits,
        end_fits,
        length-take (i + 4 + j + 2) src,
        find-eq doc src jpeg_start_marker,
        find-eq doc (drop (i + 4) src) jpeg_end_marker,
        doc.split_to_lem src (i + 4 + j + 2),
        doc.split_off_lem (take (i + 4 + j + 2) src) i,
      )

-- A buffer that holds a frame, and its cuts.
module _ (b m r : Bytes) where
  abbrev around : Bytes
  around = b ++ (jpeg_start_marker ++ (m ++ (jpeg_end_marker ++ r)))

  drop-start : (i : ℕ) → i ≡ length b → drop (i + 4) around ≡ m ++ (jpeg_end_marker ++ r)
  drop-start i e =
      ap (drop (i + 4)) (sym (append_assoc b jpeg_start_marker (m ++ (jpeg_end_marker ++ r))))
      ∙ drop-append (b ++ jpeg_start_marker) _ (i + 4)
          (omega (arith, length-append b jpeg_start_marker))

  module _ (i j : ℕ) (at_start : i ≡ length b) (at_end : j ≡ length m) where
    drop-take-frame :
        drop i (take (i + 4 + j + 2) around) ≡ jpeg_start_marker ++ (m ++ jpeg_end_marker)
    drop-take-frame =
        ap (λ t. drop i (take (i + 4 + j + 2) (b ++ (jpeg_start_marker ++ t))))
          (sym (append_assoc m jpeg_end_marker r))
        ∙ drop-take b (jpeg_start_marker ++ (m ++ jpeg_end_marker)) r i (i + 4 + j + 2) at_start
            (omega (arith, length-append m jpeg_end_marker))

    drop-frame : drop (i + 4 + j + 2) around ≡ r
    drop-frame =
        ap (λ t. drop (i + 4 + j + 2) (b ++ (jpeg_start_marker ++ t)))
          (sym (append_assoc m jpeg_end_marker r))
        ∙ ap (drop (i + 4 + j + 2))
            (sym (append_assoc b (jpeg_start_marker ++ (m ++ jpeg_end_marker)) r))
        ∙ drop-append (b ++ (jpeg_start_marker ++ (m ++ jpeg_end_marker))) r (i + 4 + j + 2) (
            omega (
              arith,
              length-append b (jpeg_start_marker ++ (m ++ jpeg_end_marker)),
              length-append m jpeg_end_marker,
            ))

-- The markers that the two searches hit delimit a frame.
found-IsFrame :
    (src : Bytes) (i j : ℕ)
    → first_match jpeg_start_marker src ≡ some i
    → first_match jpeg_end_marker (drop (i + 4) src) ≡ some j
    → IsFrame src (drop i (take (i + 4 + j + 2) src)) (drop (i + 4 + j + 2) src)
found-IsFrame src i j started ended =
    let f = first_match_sound jpeg_start_marker src i started in
    let g = first_match_sound jpeg_end_marker (drop (i + 4) src) j ended in
    let behind : drop (i + 4) src ≡ f.after =
      ap (drop (i + 4)) (f.splits ∙ sym (append_assoc f.before jpeg_start_marker f.after))
      ∙ drop-append (f.before ++ jpeg_start_marker) f.after (i + 4)
          (omega (arith, f.at, length-append f.before jpeg_start_marker)) in
    let whole : src ≡ around f.before g.before g.after =
      f.splits ∙ ap (λ t. f.before ++ (jpeg_start_marker ++ t)) (sym behind ∙ g.splits) in
    let remains : drop (i + 4 + j + 2) src ≡ g.after =
      ap (drop (i + 4 + j + 2)) whole
      ∙ drop-frame f.before g.before g.after i j (sym f.at) (sym g.at) in
    record {
      before = f.before;
      body = g.before;
      frame_is =
          ap (λ t. drop i (take (i + 4 + j + 2) t)) whole
          ∙ drop-take-frame f.before g.before g.after i j (sym f.at) (sym g.at);
      splits = whole ∙ ap (around f.before g.before) (sym remains);
      first_start = subst (IsFirst jpeg_start_marker src) (sym f.at) f;
      first_end =
          subst (λ t. IsFirst jpeg_end_marker t (length g.before))
            (g.splits ∙ ap (λ t. g.before ++ (jpeg_end_marker ++ t)) (sym remains))
            (subst (IsFirst jpeg_end_marker (drop (i + 4) src)) (sym g.at) g);
    }

pub IsFrame-decode :
    {c : Crates} (doc : Documented c) (src frame rest : Bytes)
    → IsFrame src frame rest
    → decode_jpeg_packet c src ≡ (ok (some frame), rest)
IsFrame-decode doc src frame rest f =
    let i = length f.before in
    let j = length f.body in
    let started = first_match_complete jpeg_start_marker src i f.first_start in
    let behind : drop (i + 4) src ≡ f.body ++ (jpeg_end_marker ++ rest) =
      ap (drop (i + 4)) f.splits ∙ drop-start f.before f.body rest i refl in
    let ended : first_match jpeg_end_marker (drop (i + 4) src) ≡ some j =
      ap (first_match jpeg_end_marker) behind
      ∙ first_match_complete jpeg_end_marker _ j f.first_end in
    found doc src i started j ended
    ∙ ap₂ (λ (x y : Bytes). (ok (some x), y))
        (ap (λ t. drop i (take (i + 4 + j + 2) t)) f.splits
          ∙ drop-take-frame f.before f.body rest i j refl refl
          ∙ sym f.frame_is)
        (ap (drop (i + 4 + j + 2)) f.splits ∙ drop-frame f.before f.body rest i j refl refl)

-- The two ways in which `decode_jpeg_packet` ends: it takes a frame, or it waits for more bytes.
pub data Taken (src : Bytes) (r : Outcome (Option Bytes) × Bytes) : Type 0 where
  taken : (frame rest : Bytes) → r ≡ (ok (some frame), rest) → IsFrame src frame rest → Taken src r
  waits : r ≡ (ok none, src) → Taken src r

pub decode_jpeg-Taken :
    {c : Crates} (doc : Documented c) (src : Bytes) → Taken src (decode_jpeg_packet c src)
decode_jpeg-Taken doc src = elim (Option-cases (first_match jpeg_start_marker src)) [
  | inl h ↦ waits (no_start doc src h)
  | inr (i, h) ↦ elim (Option-cases (first_match jpeg_end_marker (drop (i + 4) src))) [
    | inl k ↦ waits (no_end doc src i h k)
    | inr (j, k) ↦ taken _ _ (found doc src i h j k) (found-IsFrame src i j h k)
  ]
]

-- `decode_jpeg_packet` returns `frame` and leaves `rest` exactly when `frame` is the first frame of
-- the buffer and `rest` is what follows it.
pub decode_jpeg_iff :
    {c : Crates} (doc : Documented c) (src frame rest : Bytes)
    → (decode_jpeg_packet c src ≡ (ok (some frame), rest)) ↔ IsFrame src frame rest
decode_jpeg_iff {c} doc src frame rest =
    (λ h. sound (decode_jpeg-Taken doc src) h, IsFrame-decode doc src frame rest)
  where
    sound :
        Taken src (decode_jpeg_packet c src)
        → decode_jpeg_packet c src ≡ (ok (some frame), rest)
        → IsFrame src frame rest
    sound (taken f r e is) h =
        let same_frame : f ≡ frame = ground arith in
        let same_rest : r ≡ rest = ground arith in
        subst (IsFrame src frame) same_rest (subst (λ x. IsFrame src x r) same_frame is)
    sound (waits e) h = absurd (ground arith)

-- A frame is shorter than the buffer it was taken from.
pub IsFrame-length : {src frame rest : Bytes} → IsFrame src frame rest → length rest < length src
IsFrame-length {src} {frame} {rest} f = rw f.splits (
    omega (
      arith,
      length-append f.before (jpeg_start_marker ++ (f.body ++ (jpeg_end_marker ++ rest))),
      length-append f.body (jpeg_end_marker ++ rest),
    ))

-- More bytes behind the buffer change neither the frame nor where it ends.
pub IsFrame-append :
    (src frame rest more : Bytes)
    → IsFrame src frame rest
    → IsFrame (src ++ more) frame (rest ++ more)
IsFrame-append src frame rest more f = record {
  before = f.before;
  body = f.body;
  frame_is = f.frame_is;
  splits = ap (λ t. t ++ more) f.splits ∙ simp append_assoc;
  first_start = IsFirst-append f.first_start more;
  first_end =
      subst (λ t. IsFirst jpeg_end_marker t (length f.body))
        (append_assoc f.body (jpeg_end_marker ++ rest) more) (IsFirst-append f.first_end more);
}

-- Bytes that arrive later change no frame that was taken, and stand behind what was left.
pub decode_jpeg-append :
    {c : Crates} (doc : Documented c) (src frame rest more : Bytes)
    → decode_jpeg_packet c src ≡ (ok (some frame), rest)
    → decode_jpeg_packet c (src ++ more) ≡ (ok (some frame), rest ++ more)
decode_jpeg-append doc src frame rest more h =
    IsFrame-decode doc (src ++ more) frame (rest ++ more)
      (IsFrame-append src frame rest more ((decode_jpeg_iff doc src frame rest).0 h))
