-- ===== src/Ftp/SessionTests.antt =====
-- Runs of src/file/ftp.rs and src/file/ftp/metadata.rs on concrete inputs, among them those of the
-- unit tests.
use bambu_rs.Prelude.{
  ◌≡◌, refl, Bool, true, false, Option, none, some, List, [], ◌∷◌, ◌++◌, arith, Bytes, codes,
}
use bambu_rs.Outcome.{Outcome, ok, err, panic, invalid_data}
use bambu_rs.Crates.{first_match}
use bambu_rs.Text.Decimal.{display, parse}
use bambu_rs.Text.Words.{split_whitespace}
use bambu_rs.Ftp.Request.{FtpRequest, quit, pwd, enter_passive_mode, list}
use bambu_rs.Ftp.Response.{
  FtpResponse, v4, SocketAddr, other, service_ready, command_okay, user_logged_in,
  user_name_okay_need_password, directory_action_okay, file_status_okay, entering_passive_mode,
}
use bambu_rs.Ftp.Metadata.{FileMetadata, Permissions, from_chmod, parse_date, from_str, parsed}
use bambu_rs.Ftp.Client.{
  Network, FtpClient, session, read_lines, authenticate, next, next_of, send_command, send,
  received, fix_response,
}
use bambu_rs.Ftp.Chmod.{Mode, Chmod, letter}
use bambu_rs.Ftp.Dates.{in_year, at_time}
use bambu_rs.Ftp.Listing.{Entry, IsEntry, entry_line, from_str-entry_line}
use bambu_rs.Ftp.Login.{LoggedIn, authenticate-LoggedIn}
use bambu_rs.Ftp.Unspecified.{session-unspecified}
use bambu_rs.Ftp.Sends.{Sends}
use bambu_rs.Ftp.Failed.{fetched, session-failed}
use bambu_rs.Ftp.Order.{session-Sends}
use bambu_rs.Ftp.Session.{
  Delivers, conn, logins, login_requests, listing, list_requests, session-listing,
}

-- A network on which everything opens, and a listing of two lines.
abbrev lan : Network
lan = record {
  send_error = λ n. none;
  data_lines = λ addr. ok (
      some (codes "drw-rw-rw-   1 usr1  grp1           0 Jan 01 1980 foo bar")
      ∷ some (codes "-rw-rw-rw-   1 root  root   124213455 Jul 23 2024 Foo Bar Baz Bar.gcode.3mf")
      ∷ []);
  to_socket_addrs = λ hostname port. ok [];
  control_replies = λ addr. ok [];
  parse_ip = λ s. none;
}

lan-Delivers : Delivers lan
lan-Delivers n = refl

-- A calendar that keeps the text of the date.
abbrev pub as_text : Bytes → Bytes → Option Bytes
as_text text format = some text

abbrev plain : Bool → Permissions
plain directory = record {
  directory = directory;
  readable = true;
  writable = true;
  executable = false;
}

abbrev pub home : SocketAddr
home = record { ip = v4 192 168 1 2; port = 1027 }

abbrev files : List (FileMetadata Bytes)
files =
    record {
      chmod = plain true;
      user = codes "usr1";
      group = codes "grp1";
      size = 0;
      date = codes "1980 Jan 1 00:00";
      filename = codes "foo bar";
    }
    ∷ record {
      chmod = plain false;
      user = codes "root";
      group = codes "root";
      size = 124213455;
      date = codes "2024 Jul 23 00:00";
      filename = codes "Foo Bar Baz Bar.gcode.3mf";
    }
    ∷ []

-- The lines of the unit test `test_parse_file_metadata`.
lan-files :
    read_lines lan
      (from_str as_text 2025)
      (some (codes "drw-rw-rw-   1 usr1  grp1           0 Jan 01 1980 foo bar")
        ∷ some (codes "-rw-rw-rw-   1 root  root   124213455 Jul 23 2024 Foo Bar Baz Bar.gcode.3mf")
        ∷ [])
      []
    ≡ ok files
unfolding read_lines from_str split_whitespace from_chmod parse parse_date first_match display
lan-files = refl

abbrev pub nas : List (Outcome FtpResponse) → List FtpRequest → FtpClient
nas = conn (codes "printer") (codes "bblp") (codes "1234")

session-listing_example :
    session lan
      (from_str as_text 2025)
      (codes "/")
      (nas (logins [] [] [] [] [] (listing [] home [] [] [])) [])
    ≡ (
      ok files,
      nas [] (
          login_requests (codes "bblp") (codes "1234") ++ (list_requests (codes "/") ++ quit ∷ [])),
    )
session-listing_example =
    session-listing lan lan-Delivers (codes "printer") (codes "bblp") (codes "1234")
      (from_str as_text 2025) (codes "/") [] [] [] [] home refl
      (some (codes "drw-rw-rw-   1 usr1  grp1           0 Jan 01 1980 foo bar")
        ∷ some (codes "-rw-rw-rw-   1 root  root   124213455 Jul 23 2024 Foo Bar Baz Bar.gcode.3mf")
        ∷ [])
      refl files lan-files [] [] [] [] []

-- A file that may be read and written by all.
abbrev shared : Chmod
shared =
    let mode : Mode = record { readable = true; writable = true; executable = false } in
    record { kind = b'-'; owner = mode; group = mode; others = mode }

-- A line with runs of blanks between the fields and inside the name.
abbrev pub benchy : Entry
benchy = record {
  chmod = shared;
  links = codes "1";
  user = codes "user2";
  group = codes "grp2";
  size = 912934592;
  month = codes "Jan";
  day = 23;
  day_zeros = 0;
  when = at_time (codes "01") (codes "27");
  name = codes "3D";
  more = (2, codes "Benchy.gcode.3mf") ∷ [];
}

pub benchy-IsEntry : IsEntry benchy
benchy-IsEntry = record {
  kind_visible = omega arith;
  links_word = (λ h. cc, omega arith);
  user_word = (λ h. cc, omega arith);
  group_word = (λ h. cc, omega arith);
  month_word = (λ h. cc, omega arith);
  when_word = (λ h. cc, omega arith);
  when_shown = tt;
  name_word = (λ h. cc, omega arith);
  more_words = ((λ h. cc, omega arith), tt);
  size_small = omega arith;
  day_small = omega arith;
}

-- A file that only its owner may write, with a day of two digits and a year.
abbrev pub report : Entry
report = record {
  chmod = record {
    kind = b'-';
    owner = record { readable = true; writable = true; executable = false };
    group = record { readable = true; writable = false; executable = false };
    others = record { readable = true; writable = false; executable = false };
  };
  links = codes "1";
  user = codes "root";
  group = codes "root";
  size = 512;
  month = codes "Feb";
  day = 1;
  day_zeros = 1;
  when = in_year (codes "2023");
  name = codes "report.txt";
  more = [];
}

pub report-IsEntry : IsEntry report
report-IsEntry = record {
  kind_visible = omega arith;
  links_word = (λ h. cc, omega arith);
  user_word = (λ h. cc, omega arith);
  group_word = (λ h. cc, omega arith);
  month_word = (λ h. cc, omega arith);
  when_word = (λ h. cc, omega arith);
  when_shown = omega arith;
  name_word = (λ h. cc, omega arith);
  more_words = tt;
  size_small = omega arith;
  day_small = omega arith;
}

report_line : entry_line (λ i. 0) report ≡ codes "-rw-r--r-- 1 root root 512 Feb 01 2023 report.txt"
unfolding letter display
report_line = refl

from_str-entry_line_example :
    from_str as_text 2025 (entry_line (λ i. 0) report)
    ≡ parsed (record {
      chmod = record { directory = false; readable = true; writable = false; executable = false };
      user = codes "root";
      group = codes "root";
      size = 512;
      date = codes "2023 Feb 1 00:00";
      filename = codes "report.txt";
    })
unfolding display
from_str-entry_line_example = from_str-entry_line as_text 2025 (λ i. 0) report report-IsEntry

-- A login whose greeting is no 220.
abbrev greeted : FtpClient
greeted =
    nas
      (ok (command_okay [])
        ∷ ok (user_name_okay_need_password [])
        ∷ ok (user_logged_in [])
        ∷ ok (command_okay [])
        ∷ ok (command_okay [])
        ∷ [])
      []

greeted-authenticate :
    authenticate lan greeted ≡ (ok none, nas [] (login_requests (codes "bblp") (codes "1234")))
unfolding authenticate next next_of send_command send received fix_response
greeted-authenticate = refl

authenticate-LoggedIn_example :
    LoggedIn greeted none (nas [] (login_requests (codes "bblp") (codes "1234")))
authenticate-LoggedIn_example =
    authenticate-LoggedIn lan greeted (nas [] (login_requests (codes "bblp") (codes "1234"))) none
      greeted-authenticate

-- A server that refuses the user.
abbrev refused_user : FtpClient
refused_user = nas (ok (service_ready []) ∷ ok (other 530 []) ∷ []) []

abbrev unspecified : SocketAddr
unspecified = record { ip = v4 0 0 0 0; port = 1027 }

session-unspecified_example :
    session lan (from_str as_text 2025) (codes "/") (
      nas
        (logins [] [] [] [] []
          (ok (directory_action_okay []) ∷ ok (entering_passive_mode unspecified) ∷ []))
        [])
    ≡ (
      panic,
      nas [] (login_requests (codes "bblp") (codes "1234") ++ (pwd ∷ enter_passive_mode ∷ [])),
    )
session-unspecified_example =
    session-unspecified lan lan-Delivers (codes "printer") (codes "bblp") (codes "1234")
      (from_str as_text 2025) (codes "/") [] [] [] [] [] [] unspecified [] refl refl

-- A session that ends at the answer to USER.
session-Sends_example :
    Sends
      (login_requests (codes "bblp") (codes "1234") ++ (list_requests (codes "/") ++ quit ∷ []))
      refused_user
      (session lan (from_str as_text 2025) (codes "/") refused_user)
session-Sends_example = session-Sends lan (from_str as_text 2025) (codes "/") refused_user

-- The second line has a word too few.
abbrev broken_lan : Network
broken_lan = record lan {
  data_lines = λ addr. ok (
      some (codes "drw-rw-rw-   1 usr1  grp1           0 Jan 01 1980 foo bar")
      ∷ some (codes "drw-rw-rw-   1 usr1")
      ∷ []);
}

broken_lan-fetched :
    fetched broken_lan (from_str as_text 2025) home ≡ err (invalid_data "Invalid FTP LIST line")
unfolding read_lines from_str split_whitespace from_chmod parse parse_date first_match display
broken_lan-fetched = refl

session-failed_example :
    session broken_lan (from_str as_text 2025) (codes "/") (
      nas
        (logins [] [] [] [] [] (
          ok (directory_action_okay [])
          ∷ ok (entering_passive_mode home)
          ∷ ok (file_status_okay [])
          ∷ []))
        [])
    ≡ (
      err (invalid_data "Invalid FTP LIST line"),
      nas [] (
          login_requests (codes "bblp") (codes "1234")
          ++ (pwd ∷ enter_passive_mode ∷ list (codes "/") ∷ [])),
    )
session-failed_example =
    session-failed broken_lan lan-Delivers (codes "printer") (codes "bblp") (codes "1234")
      (from_str as_text 2025) (codes "/") [] [] [] [] [] [] [] home []
      (invalid_data "Invalid FTP LIST line") refl broken_lan-fetched
