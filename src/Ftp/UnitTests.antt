-- ===== src/Ftp/UnitTests.antt =====
-- The unit tests of src/file/ftp/codec.rs and src/file/ftp/metadata.rs, as what they assert.
use bambu_rs.Prelude.{
  ℕ, String, ◌≡◌, refl, Bool, true, false, Option, some, ◌++◌, Bytes, codes, ap, ◌∙◌,
}
use bambu_rs.Outcome.{ok}
use bambu_rs.Crates.{Crates, first_match}
use bambu_rs.Crates.Reference.{reference}
use bambu_rs.Text.Decimal.{display, parse}
use bambu_rs.Text.Split.{split, splitn_2}
use bambu_rs.Text.Words.{split_whitespace}
use bambu_rs.Ftp.Response.{entering_passive_mode, v4, from_response_string, parse_address}
use bambu_rs.Ftp.Metadata.{
  FileMetadata, from_chmod, parse_date, from_str, Parsed, parsed, or_refuse, ◌>>=◌,
}

module _ (c : Crates) (checks : Bool) where
  -- The address that the response is matched for.
  abbrev TestPasvResponse : Type 0
  TestPasvResponse =
      from_response_string c checks (codes "227 Entering Passive Mode (192,168,1,2,4,3)")
      ≡ ok (entering_passive_mode (record { ip = v4 192 168 1 2; port = 1027 }))

  -- The same text and the same assertion, in spite of the name.
  abbrev TestInvalidPasvResponse : Type 0
  TestInvalidPasvResponse =
      from_response_string c checks (codes "227 Entering Passive Mode (192,168,1,2,4,3)")
      ≡ ok (entering_passive_mode (record { ip = v4 192 168 1 2; port = 1027 }))

pasv_tests-reference :
    (checks : Bool) → TestPasvResponse reference checks × TestInvalidPasvResponse reference checks
unfolding from_response_string parse splitn_2 first_match parse_address split
pasv_tests-reference true = (refl, refl)
pasv_tests-reference false = (refl, refl)

abbrev testvec1 : Bytes
testvec1 = codes "drw-rw-rw-   1 usr1  grp1           0 Jan 01 1980 foo bar"

abbrev testvec2 : Bytes
testvec2 = codes "-rw-rw-rw-   1 user2 grp2   912934592 Jan 23 01:27 3D Benchy.gcode.3mf"

abbrev testvec3 : Bytes
testvec3 = codes "-rw-rw-rw-   1 root  root   124213455 Jul 23 2024 Foo Bar Baz Bar.gcode.3mf"

-- The file of a line whose permissions are read and write for everybody.
abbrev file :
    {DateTime : Type 0} → Bool → Bytes → Bytes → ℕ → Bytes → DateTime → FileMetadata DateTime
file directory user group size filename date = record {
  chmod = record { directory = directory; readable = true; writable = true; executable = false };
  user = user;
  group = group;
  size = size;
  date = date;
  filename = filename;
}

-- The calendar: `NaiveDateTime::parse_from_str`, the year of `Local::now`, and
-- `NaiveDate::from_ymd_opt(year, month, day).unwrap().and_hms_opt(hour, minute, 0).unwrap()`.
module _ {DateTime : Type 0} (parse_from_str : Bytes → Bytes → Option DateTime) (current_year : ℕ)
    (date_time : ℕ → ℕ → ℕ → ℕ → ℕ → DateTime) where
  abbrev TestParseFileMetadata : Type 0
  TestParseFileMetadata =
      (from_str parse_from_str current_year testvec1
        ≡ parsed
            (file true (codes "usr1") (codes "grp1") 0 (codes "foo bar") (date_time 1980 1 1 0 0)))
      × (from_str parse_from_str current_year testvec2
          ≡ parsed (
              file false (codes "user2") (codes "grp2") 912934592 (codes "3D Benchy.gcode.3mf")
                (date_time current_year 1 23 1 27)))
      × (from_str parse_from_str current_year testvec3
          ≡ parsed (
              file false (codes "root") (codes "root") 124213455 (codes "Foo Bar Baz Bar.gcode.3mf")
                (date_time 2024 7 23 0 0)))

  -- The lines, up to what the calendar says of their dates.
  abbrev dated :
      Option DateTime → String → (DateTime → FileMetadata DateTime) → Parsed (FileMetadata DateTime)
  dated date refusal make = or_refuse date refusal >>= λ d. parsed (make d)

  testvec1-dated :
      from_str parse_from_str current_year testvec1
      ≡ dated
          (parse_from_str (codes "1980 Jan 1 00:00") (codes "%Y %b %d %H:%M"))
          "Invalid date format"
          (file true (codes "usr1") (codes "grp1") 0 (codes "foo bar"))
  unfolding from_str from_chmod parse_date parse display split_whitespace first_match
  testvec1-dated = refl

  testvec2-dated :
      from_str parse_from_str current_year testvec2
      ≡ dated
          (parse_from_str (display current_year ++ codes " Jan 23 01:27") (codes "%Y %b %d %H:%M"))
          "Invalid time format"
          (file false (codes "user2") (codes "grp2") 912934592 (codes "3D Benchy.gcode.3mf"))
  unfolding from_str from_chmod parse_date parse display split_whitespace first_match
  testvec2-dated = refl

  testvec3-dated :
      from_str parse_from_str current_year testvec3
      ≡ dated
          (parse_from_str (codes "2024 Jul 23 00:00") (codes "%Y %b %d %H:%M"))
          "Invalid date format"
          (file false (codes "root") (codes "root") 124213455 (codes "Foo Bar Baz Bar.gcode.3mf"))
  unfolding from_str from_chmod parse_date parse display split_whitespace first_match
  testvec3-dated = refl

  -- The test passes with a calendar that reads the three dates.
  metadata_test-calendar :
      parse_from_str (codes "1980 Jan 1 00:00") (codes "%Y %b %d %H:%M")
        ≡ some (date_time 1980 1 1 0 0)
      → parse_from_str (display current_year ++ codes " Jan 23 01:27") (codes "%Y %b %d %H:%M")
        ≡ some (date_time current_year 1 23 1 27)
      → parse_from_str (codes "2024 Jul 23 00:00") (codes "%Y %b %d %H:%M")
        ≡ some (date_time 2024 7 23 0 0)
      → TestParseFileMetadata
  metadata_test-calendar h k l = (
    testvec1-dated
        ∙ ap
            (λ o.
              dated o "Invalid date format"
                (file true (codes "usr1") (codes "grp1") 0 (codes "foo bar")))
            h,
    testvec2-dated
        ∙ ap
            (λ o.
              dated o "Invalid time format"
                (file false (codes "user2") (codes "grp2") 912934592 (codes "3D Benchy.gcode.3mf")))
            k,
    testvec3-dated
        ∙ ap
            (λ o. dated o "Invalid date format" (
              file false (codes "root") (codes "root") 124213455
                (codes "Foo Bar Baz Bar.gcode.3mf")))
            l,
  )
