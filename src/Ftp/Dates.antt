-- ===== src/Ftp/Dates.antt =====
-- The date in a line of a listing, which src/file/ftp/metadata.rs reads.
use bambu_rs.Prelude.{
  ℕ, ◌≡◌, ◌≢◌, refl, subst, true, false, Option, inl, inr, String, [], ◌∷◌, ◌++◌, Bytes, codes,
  Lacks, Option-cases,
}
use bambu_rs.Crates.{index_of, index_of-none, index_of-some}
use bambu_rs.Text.Decimal.{display}
use bambu_rs.Text.Split.{join}
use bambu_rs.Ftp.Response.{is_some}
use bambu_rs.Ftp.Metadata.{parse_date, or_refuse}

-- A server shows the year of an old file, and the hour and the minute of a recent one.
pub data When : Type 0 where
  in_year : Bytes → When
  at_time : Bytes → Bytes → When

abbrev pub when_text : When → Bytes
when_text (in_year year) = year
when_text (at_time hour minute) = hour ++ (b':' ∷ minute)

-- The year is a text without a colon.
abbrev pub IsWhen : When → Type 0
IsWhen (in_year year) = Lacks b':' year
IsWhen (at_time hour minute) = Unit

-- The date in the order year, month, day, hour and minute, at midnight if a year is shown, and in the
-- current year if a time is.
abbrev pub date_text : ℕ → Bytes → ℕ → When → Bytes
date_text current_year month day (in_year year) =
    join b' ' (year ∷ month ∷ display day ∷ codes "00:00" ∷ [])
date_text current_year month day (at_time hour minute) =
    join b' ' (display current_year ∷ month ∷ display day ∷ join b':' (hour ∷ minute ∷ []) ∷ [])

abbrev pub refusal : When → String
refusal (in_year year) = "Invalid date format"
refusal (at_time hour minute) = "Invalid time format"

Lacks-ne : (b : ℕ) (p s : Bytes) → Lacks b (p ++ b ∷ s) → (n : ℕ) → n ≢ n
Lacks-ne b [] s (h, hs) n = absurd (h refl)
Lacks-ne b (c ∷ p) s (h, hs) n = Lacks-ne b p s hs n

colon : (b : ℕ) (p s : Bytes) → is_some (index_of b (p ++ b ∷ s)) ≡ true
colon b p s = elim (Option-cases (index_of b (p ++ b ∷ s))) [
  | inl e ↦ absurd (Lacks-ne b p s (index_of-none b (p ++ b ∷ s) e) 0 refl)
  | inr (i, e) ↦ rw e refl
]

no_colon : (b : ℕ) (s : Bytes) → Lacks b s → is_some (index_of b s) ≡ false
no_colon b s h = elim (Option-cases (index_of b s)) [
  | inl e ↦ rw e refl
  | inr (i, e) ↦
      let (before, after, splits, lacks, size) = index_of-some b s i e in
      absurd (Lacks-ne b before after (subst (Lacks b) splits h) 0 refl)
]

module _ {DateTime : Type 0} (parse_from_str : Bytes → Bytes → Option DateTime)
    (current_year : ℕ) where
  pub parse_date-date_text :
      (month : Bytes) (day : ℕ) (when : When)
      → IsWhen when
      → parse_date parse_from_str current_year month day (when_text when)
        ≡ or_refuse
            (parse_from_str (date_text current_year month day when) (codes "%Y %b %d %H:%M"))
            (refusal when)
  unfolding parse_date
  parse_date-date_text month day (in_year year) h = rw (no_colon b':' year h) refl
  parse_date-date_text month day (at_time hour minute) h = rw (colon b':' hour minute) refl
