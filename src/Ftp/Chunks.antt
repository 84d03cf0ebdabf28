-- ===== src/Ftp/Chunks.antt =====
-- The decoder of src/file/ftp/codec.rs on bytes that come in pieces.
use bambu_rs.Prelude.{
  ◌≡◌, ◌≢◌, ◌↔◌, refl, sym, ap, ap₂, ◌∙◌, Bool, Option, none, some, List, [], ◌++◌, arith, Bytes,
  length, take, drop, take-append, drop-append, append_assoc, length-append, ◌+◌, ◌<◌, subst, All,
}
use bambu_rs.Outcome
use bambu_rs.Outcome.{Outcome, ok, err, panic}
use bambu_rs.Crates.{Crates, Documented, IsFirst-append, first_match_complete}
use bambu_rs.Text.Utf8.{from_utf8}
use bambu_rs.Framed.{
  End, left, concat, Drains, Receives, Prefix, waiting, deciding, Incremental, Shrinks, Keeps,
  Receives-total, Receives-Drains, Drains-Receives,
}
use bambu_rs.Framed
use bambu_rs.Ftp.Response.{FtpResponse, from_response_string}
use bambu_rs.Ftp.Codec.{crlf, decode}
use bambu_rs.Ftp.Lines.{IsLine, Read, line, waits, read_line, decode-Read, decode-found}
use bambu_rs.Ftp.Stream.{IsSent, replies_bytes, Reads, stop, next, Reads-replies_bytes}

IsLine-append :
    (src text rest more : Bytes) → IsLine src text rest → IsLine (src ++ more) text (rest ++ more)
IsLine-append src text rest more l = record {
  splits = ap (λ t. t ++ more) l.splits ∙ append_assoc text (crlf ++ rest) more;
  first = IsFirst-append l.first more;
}

-- No line is read as nothing.
read_line-ne-none : (c : Crates) (checks : Bool) (text : Bytes) → read_line c checks text ≢ ok none
read_line-ne-none c checks text = outer (from_utf8 text)
  where
    inner :
        (r : Outcome FtpResponse)
        → ◌≢◌ {A = Outcome (Option FtpResponse)} (Outcome.◌>>=◌ r (λ x. ok (some x))) (ok none)
    inner (ok x) h = cc
    inner (err e) h = cc
    inner panic h = cc

    outer :
        (o : Outcome Bytes)
        → ◌≢◌ {A = Outcome (Option FtpResponse)}
            (Outcome.◌>>=◌ o
              (λ t. Outcome.◌>>=◌ (from_response_string c checks t) (λ x. ok (some x))))
            (ok none)
    outer (ok t) h = inner (from_response_string c checks t) h
    outer (err e) h = cc
    outer panic h = cc

abbrev Any : Bytes → Type 0
Any src = Unit

module _ {c : Crates} (doc : Documented c) (checks : Bool) where
  IsLine-decode :
      (src text rest : Bytes)
      → IsLine src text rest
      → decode c checks src ≡ (read_line c checks text, rest)
  IsLine-decode src text rest l =
      let i = length text in
      decode-found doc checks src i (first_match_complete crlf src i l.first)
      ∙ ap₂ (λ (x y : Bytes). (read_line c checks x, y))
          (ap (take i) l.splits ∙ take-append text (crlf ++ rest) i refl)
          (ap (drop (i + 2)) (l.splits ∙ sym (append_assoc text crlf rest))
            ∙ drop-append (text ++ crlf) rest (i + 2) (omega (arith, length-append text crlf)))

  decode-Incremental : Incremental (decode c checks) Any
  decode-Incremental buf more _ = go (decode-Read doc checks buf)
    where
      go : Read c checks buf (decode c checks buf) → Prefix (decode c checks) Any buf more
      go (line text rest l e) =
          deciding (read_line c checks text) rest (read_line-ne-none c checks text) e
            (IsLine-decode (buf ++ more) text (rest ++ more) (IsLine-append buf text rest more l))
            tt
      go (waits no_line e) = waiting e

  -- However a stream of bytes is cut into pieces, the replies that the decoder yields, and how it
  -- ends (with bytes left over, with an error, or with a panic), are those of the whole stream in
  -- one buffer.
  pub decode_chunks :
      (chunks : List Bytes) (items : List FtpResponse) (end : End)
      → Receives (decode c checks) [] chunks items end
        ↔ Drains (decode c checks) (concat chunks) items end
  decode_chunks chunks items end = (
    λ r. Receives-Drains (decode c checks) Any decode-Incremental r tt,
    λ d. Drains-Receives (decode c checks) Any decode-Incremental d [] chunks refl tt,
  )

  IsLine-length : {src text rest : Bytes} → IsLine src text rest → length rest < length src
  IsLine-length {src} {text} {rest} l =
      rw l.splits (omega (arith, length-append text (crlf ++ rest)))

  decode-Shrinks : Shrinks (decode c checks)
  decode-Shrinks src a rest h = go (decode-Read doc checks src)
    where
      go : Read c checks src (decode c checks src) → length rest < length src
      go (line text behind l e) =
          let same : behind ≡ rest = ap (λ r. r.1) (sym e ∙ h) in
          subst (λ t. length t < length src) same (IsLine-length l)
      go (waits no_line e) = absurd (ground arith)

  decode-Keeps : Keeps (decode c checks)
  decode-Keeps src rest h = go (decode-Read doc checks src)
    where
      go : Read c checks src (decode c checks src) → rest ≡ src
      go (line text behind l e) =
          absurd (read_line-ne-none c checks text (ap (λ r. r.0) (sym e ∙ h)))
      go (waits no_line e) = ap (λ r. r.1) (sym h ∙ e)

  -- The decoder comes to an end on every stream of bytes, however it is cut into pieces.
  pub decode_total :
      (chunks : List Bytes)
      → (items : List FtpResponse) × (end : End) × Receives (decode c checks) [] chunks items end
  decode_total chunks = Receives-total (decode c checks) decode-Shrinks decode-Keeps [] chunks

  Reads-Drains :
      {src left_over : Bytes} {rs : List FtpResponse}
      → Reads c checks src rs left_over
      → Drains (decode c checks) src rs (left left_over)
  Reads-Drains (stop h) = Framed.waits h
  Reads-Drains (next h r) = Framed.item h (Reads-Drains r)

  -- Take any list of responses with an IPv4 address and a port of 16 bits, if any, and with a code
  -- of 16 bits that has no constructor of its own, if `other`, whose texts are UTF-8 without a
  -- carriage return. However the bytes of their reply lines, each with its CRLF, are cut into pieces
  -- on the way, the decoder yields these responses, in order, and has nothing left over.
  pub Receives-replies_bytes :
      (rs : List FtpResponse) (chunks : List Bytes)
      → All IsSent rs
      → concat chunks ≡ replies_bytes rs
      → Receives (decode c checks) [] chunks rs (left [])
  Receives-replies_bytes rs chunks h e = (decode_chunks chunks rs (left [])).1 (
      subst (λ s. Drains (decode c checks) s rs (left [])) (sym e)
        (Reads-Drains (Reads-replies_bytes doc checks rs h)))
