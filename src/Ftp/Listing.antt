-- ===== src/Ftp/Listing.antt =====
-- Which lines the parser of src/file/ftp/metadata.rs reads, and as what.
use bambu_rs.Prelude.{
  ℕ, ◌^◌, ◌<◌, ◌≡◌, ap, ◌∙◌, Option, List, [], ◌∷◌, map, arith, Bytes, codes, All,
}
use bambu_rs.Text.Decimal.{display}
use bambu_rs.Text.Decimal.RoundTrip.{
  IsDigit, parse-display, display-IsDigit, display-ne-nil, padded, padded-IsDigit, padded-ne-nil,
  parse-padded,
}
use bambu_rs.Text.Split.{join}
use bambu_rs.Text.Words.RoundTrip.{IsVisible, IsWord, word_of, spaced, split_whitespace-spaced}
use bambu_rs.Ftp.Metadata
use bambu_rs.Ftp.Metadata.{parsed, or_refuse, from_parts, from_str}
use bambu_rs.Ftp.Chmod.{Chmod, chmod_text, permissions, chmod_text-IsWord, from_chmod-chmod_text}
use bambu_rs.Ftp.Dates.{When, when_text, IsWhen, date_text, refusal, parse_date-date_text}

-- What a server prints for a file. The name is its first word and the others, each with the number
-- of further blanks in front of it.
pub record Entry : Type 0 where
  pub chmod : Chmod
  pub links : Bytes
  pub user : Bytes
  pub group : Bytes
  pub size : ℕ
  pub month : Bytes
  pub day : ℕ
  -- how many zeros stand in front of the day
  pub day_zeros : ℕ
  pub when : When
  pub name : Bytes
  pub more : List (ℕ × Bytes)

pub record IsEntry (e : Entry) : Type 0 where
  pub kind_visible : IsVisible e.chmod.kind
  pub links_word : IsWord e.links
  pub user_word : IsWord e.user
  pub group_word : IsWord e.group
  pub month_word : IsWord e.month
  pub when_word : IsWord (when_text e.when)
  pub when_shown : IsWhen e.when
  pub name_word : IsWord e.name
  pub more_words : All (λ w. IsWord (word_of w)) e.more
  pub size_small : e.size < 2 ^ 64
  pub day_small : e.day < 2 ^ 32

-- The fields behind the permissions, with `gap i` further blanks in front of field `i`.
abbrev pub fields : (ℕ → ℕ) → Entry → List (ℕ × Bytes)
fields gap e =
    (gap 1, e.links)
    ∷ (gap 2, e.user)
    ∷ (gap 3, e.group)
    ∷ (gap 4, display e.size)
    ∷ (gap 5, e.month)
    ∷ (gap 6, padded e.day_zeros e.day)
    ∷ (gap 7, when_text e.when)
    ∷ (gap 8, e.name)
    ∷ e.more

abbrev pub entry_line : (ℕ → ℕ) → Entry → Bytes
entry_line gap e = spaced (chmod_text e.chmod) (fields gap e)

digits-IsVisible : (s : Bytes) → All IsDigit s → All IsVisible s
digits-IsVisible [] h = tt
digits-IsVisible (c ∷ s) (hc, hs) = (omega arith, digits-IsVisible s hs)

display-IsWord : (n : ℕ) → IsWord (display n)
display-IsWord n = (display-ne-nil n, digits-IsVisible (display n) (display-IsDigit n))

padded-IsWord : (zeros n : ℕ) → IsWord (padded zeros n)
padded-IsWord zeros n =
    (padded-ne-nil zeros n, digits-IsVisible (padded zeros n) (padded-IsDigit zeros n))

-- The fields behind the permissions are words.
pub fields-IsWord :
    (gap : ℕ → ℕ) (e : Entry) → IsEntry e → All (λ f. IsWord (word_of f)) (fields gap e)
fields-IsWord gap e is = (
  is.links_word,
  (
    is.user_word,
    (
      is.group_word,
      (
        display-IsWord e.size,
        (
          is.month_word,
          (padded-IsWord e.day_zeros e.day, (is.when_word, (is.name_word, is.more_words))),
        ),
      ),
    ),
  ),
)

module _ {DateTime : Type 0} (parse_from_str : Bytes → Bytes → Option DateTime)
    (current_year : ℕ) where
  -- A line for a file is read back whatever runs of blanks separate its fields. Its texts are words
  -- of printed ASCII characters, its kind is such a character, its size has 64 bits and its day 32,
  -- with any number of zeros in front. The user, the group and the size are read as they are; the
  -- file is a directory if its kind is `d`; it is readable, writable or executable if it is so for
  -- the owner, for the group and for all others. The date is what the calendar reads for the year,
  -- the month, the day and the time: midnight if the line shows a year, which is a text without a
  -- colon, and the current year if it shows an hour and a minute. If the calendar reads none, the
  -- line is refused as an invalid date or an invalid time. The words of the name are joined by one
  -- blank each, so longer runs of blanks in a name are lost.
  pub from_str-entry_line :
      (gap : ℕ → ℕ) (e : Entry)
      → IsEntry e
      → from_str parse_from_str current_year (entry_line gap e)
        ≡ Metadata.◌>>=◌
            (or_refuse
              (parse_from_str
                (date_text current_year e.month e.day e.when)
                (codes "%Y %b %d %H:%M"))
              (refusal e.when))
            (λ date. parsed (record {
              chmod = permissions e.chmod;
              user = e.user;
              group = e.group;
              size = e.size;
              date = date;
              filename = join b' ' (e.name ∷ map word_of e.more);
            }))
  unfolding from_str from_parts
  from_str-entry_line gap e is =
      ap (from_parts parse_from_str current_year) (
        split_whitespace-spaced (chmod_text e.chmod) (fields gap e)
          (chmod_text-IsWord e.chmod is.kind_visible) (fields-IsWord gap e is))
      ∙ rw (
        from_chmod-chmod_text e.chmod is.kind_visible,
        parse-display (2 ^ 64) e.size is.size_small,
        parse-padded (2 ^ 32) e.day_zeros e.day is.day_small,
        parse_date-date_text parse_from_str current_year e.month e.day e.when is.when_shown,
      )
