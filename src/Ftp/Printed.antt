-- ===== src/Ftp/Printed.antt =====
-- The lines of a listing that src/file/ftp.rs reads, as bytes on the data connection.
use bambu_rs.Prelude.{
  ℕ, ◌≤◌, ◌<◌, ◌≡◌, refl, sym, ap, ◌∙◌, Option, some, List, [], ◌∷◌, ◌++◌, map, arith, Bytes, codes,
  All, All-append, All-mono, All-replicate, replicate, append_assoc, append-nil,
}
use bambu_rs.Outcome.{ok}
use bambu_rs.Text.Split.{join}
use bambu_rs.Text.Words.RoundTrip.{IsWord, word_of, spaced_tail}
use bambu_rs.Ftp.Metadata
use bambu_rs.Ftp.Metadata.{Parsed, parsed, or_refuse, FileMetadata, from_str}
use bambu_rs.Ftp.Client.{Network, read_lines}
use bambu_rs.Ftp.Chmod.{chmod_text, permissions, chmod_text-IsWord}
use bambu_rs.Ftp.Dates.{date_text, refusal}
use bambu_rs.Ftp.Listing.{Entry, IsEntry, entry_line, fields, fields-IsWord, from_str-entry_line}

-- A line of printed ASCII characters and blanks.
abbrev pub IsPrinted : Bytes → Type 0
IsPrinted = All (λ c. (0x20 ≤ c) × (c < 0x7f))

word-IsPrinted : (w : Bytes) → IsWord w → IsPrinted w
word-IsPrinted w h = All-mono (λ c v. (omega arith, v.1)) w h.1

spaced_tail-IsPrinted :
    (rest : List (ℕ × Bytes)) → All (λ f. IsWord (word_of f)) rest → IsPrinted (spaced_tail rest)
spaced_tail-IsPrinted [] h = tt
spaced_tail-IsPrinted ((gap, w) ∷ rest) (hw, hs) = (
  omega arith,
  All-append _ (replicate gap 0x20) (w ++ spaced_tail rest) (All-replicate _ gap 0x20 (omega arith))
      (All-append _ w (spaced_tail rest) (word-IsPrinted w hw) (spaced_tail-IsPrinted rest hs)),
)

pub entry_line-IsPrinted : (gap : ℕ → ℕ) (e : Entry) → IsEntry e → IsPrinted (entry_line gap e)
entry_line-IsPrinted gap e is =
    All-append _ (chmod_text e.chmod) (spaced_tail (fields gap e))
      (word-IsPrinted (chmod_text e.chmod) (chmod_text-IsWord e.chmod is.kind_visible))
      (spaced_tail-IsPrinted (fields gap e) (fields-IsWord gap e is))

-- A file as a server prints it, and the moment that its date stands for.
pub record Printed (DateTime : Type 0) : Type 0 where
  pub gap : ℕ → ℕ
  pub entry : Entry
  pub date : DateTime

abbrev pub line_of : {DateTime : Type 0} → Printed DateTime → Bytes
line_of p = entry_line p.gap p.entry

-- What the client is to return for it.
abbrev pub file_of : {DateTime : Type 0} → Printed DateTime → FileMetadata DateTime
file_of p = record {
  chmod = permissions p.entry.chmod;
  user = p.entry.user;
  group = p.entry.group;
  size = p.entry.size;
  date = p.date;
  filename = join b' ' (p.entry.name ∷ map word_of p.entry.more);
}

read_lines-parsed :
    {DateTime : Type 0} (net : Network) (read : Bytes → Parsed (FileMetadata DateTime))
    (line : Bytes) (m : FileMetadata DateTime) (rest : List (Option Bytes))
    (files : List (FileMetadata DateTime))
    → read line ≡ parsed m
    → read_lines net read (some line ∷ rest) files ≡ read_lines net read rest (files ++ m ∷ [])
unfolding read_lines
read_lines-parsed net read line m rest files h = rw (h, read_lines) refl

module _ {DateTime : Type 0} (parse_from_str : Bytes → Bytes → Option DateTime)
    (current_year : ℕ) where
  -- The calendar reads the date.
  pub record IsDated (p : Printed DateTime) : Type 0 where
    pub is_entry : IsEntry p.entry
    pub dated :
        parse_from_str
          (date_text current_year p.entry.month p.entry.day p.entry.when)
          (codes "%Y %b %d %H:%M")
        ≡ some p.date

  from_str-line_of :
      (p : Printed DateTime)
      → IsDated p
      → from_str parse_from_str current_year (line_of p) ≡ parsed (file_of p)
  from_str-line_of p d =
      from_str-entry_line parse_from_str current_year p.gap p.entry d.is_entry
      ∙ ap
          (λ o. Metadata.◌>>=◌ (or_refuse o (refusal p.entry.when)) (λ date. parsed (record {
            chmod = permissions p.entry.chmod;
            user = p.entry.user;
            group = p.entry.group;
            size = p.entry.size;
            date = date;
            filename = join b' ' (p.entry.name ∷ map word_of p.entry.more);
          })))
          d.dated

  -- Lines of files are all read.
  pub read_lines-line_of :
      (net : Network) (ps : List (Printed DateTime)) (files : List (FileMetadata DateTime))
      → All IsDated ps
      → read_lines net (from_str parse_from_str current_year) (map (λ p. some (line_of p)) ps) files
        ≡ ok (files ++ map file_of ps)
  unfolding read_lines
  read_lines-line_of net [] files h = ap ok (sym (append-nil files))
  read_lines-line_of net (p ∷ ps) files (h, hs) =
      read_lines-parsed net (from_str parse_from_str current_year) (line_of p) (file_of p) _ files
        (from_str-line_of p h)
      ∙ read_lines-line_of net ps (files ++ file_of p ∷ []) hs
      ∙ ap ok (append_assoc files (file_of p ∷ []) (map file_of ps))
