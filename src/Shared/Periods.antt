-- ===== src/Shared/Periods.antt =====
-- parsePeriod of dates.ts, with its five forms of a period.
pub mod Quarters
pub mod RoundTrip
mod Tests
use mathlib.Core.Option
use brsr_v.Prelude.{
  ℕ, zero, suc, ◌+◌, ◌-◌, ◌*◌, ◌%◌, Bool, false, Option, none, some, ◌&&◌, ◌||◌, List, [], ◌∷◌,
  length, take, ltb, leb, ◌==◌, Text, text_eq, codes, if◌then◌else◌,
}
use brsr_v.Cel.Lexer.{is_digit}
use brsr_v.Shared.Letters.{is_white_space, lower_unit, to_lower_case, trim, trim_start}
use brsr_v.Shared.Dates.{
  Time, ms_per_day, month_start, get_utc_full_year, get_utc_month, get_utc_date, utc,
  end_of_day_utc, FiscalYearConfig, label_year, fy_from_label,
}

-- A range of dates, where `none` is an invalid `Date`.
pub record DateRange : Type 0 where
  pub start : Option Time
  pub end : Option Time

abbrev pub value : ℕ → ℕ
value c = c - b'0'

unfoldable pub is_iso_day : Text → Bool
is_iso_day (a ∷ b ∷ c ∷ d ∷ e ∷ f ∷ g ∷ h ∷ i ∷ j ∷ []) =
    is_digit a
    && is_digit b
    && is_digit c
    && is_digit d
    && (e == b'-')
    && is_digit f
    && is_digit g
    && (h == b'-')
    && is_digit i
    && is_digit j
is_iso_day _ = false

abbrev pub number4 : ℕ → ℕ → ℕ → ℕ → ℕ
number4 a b c d = 1000 * value a + 100 * value b + 10 * value c + value d

abbrev pub number2 : ℕ → ℕ → ℕ
number2 a b = 10 * value a + value b

-- The time string format of the language leaves a day that its month does not have to the host:
-- `host year month day` is what the host makes of it.
module _ (host : ℕ → ℕ → ℕ → Option Time) where
  -- `new Date` of a day at midnight in UTC
  unfoldable pub midnight : ℕ → ℕ → ℕ → Option Time
  midnight year month day =
      if leb 1 month
        && leb month 12
        && leb 1 day
        && leb day (month_start (12 * year + month) - month_start (12 * year + month - 1))
      then some ((month_start (12 * year + month - 1) + day - 1) * ms_per_day)
      else host year month day

  -- `toDate` of a text that is `YYYY-MM-DD`
  unfoldable pub to_date : Text → Option Time
  to_date (a ∷ b ∷ c ∷ d ∷ _ ∷ f ∷ g ∷ _ ∷ i ∷ j ∷ []) =
      midnight (number4 a b c d) (number2 f g) (number2 i j)
  to_date _ = none

  -- the range form, `YYYY-MM-DD..YYYY-MM-DD`, of the first ten code units and the rest
  unfoldable pub range_form : Text → Text → Option DateRange
  unfolding is_iso_day
  range_form first (c ∷ d ∷ second) =
      if is_iso_day first && (c == b'.') && (d == b'.') && is_iso_day second
      then some (record { start = to_date first; end = Option.map end_of_day_utc (to_date second) })
      else none
  range_form first _ = none

abbrev pub drop : ℕ → Text → Text
drop zero s = s
drop (suc n) [] = []
drop (suc n) (c ∷ s) = drop n s

-- a range between two valid dates
abbrev pub between : Time → Time → DateRange
between start end = record { start = some start; end = some end }

abbrev pub same_letter : ℕ → ℕ → Bool
same_letter c d = text_eq (lower_unit c) (lower_unit d)

-- `/^FY\d{4}-\d{2}$/i`, and the label in capital letters
unfoldable pub any_case_label : Text → Option Text
any_case_label (f ∷ y ∷ rest) =
    let label = b'F' ∷ b'Y' ∷ rest in
    if same_letter f b'f' && same_letter y b'y'
    then Option.map (λ _. label) (label_year label)
    else none
any_case_label _ = none

-- `setUTCMonth(month)`, with the day and the time of the date
unfoldable pub set_utc_month : Time → ℕ → Time
set_utc_month t month =
    (month_start (12 * get_utc_full_year t + month) + get_utc_date t - 1) * ms_per_day
    + t % ms_per_day

-- a quarter of a fiscal year, from 1 to 4
unfoldable pub quarter_range : FiscalYearConfig → ℕ → ℕ → DateRange
quarter_range config q year =
    let q_start_month = (config.start_month - 1 + (q - 1) * 3) % 12 + 1 in
    let q_start_year = if ltb 12 (config.start_month + (q - 1) * 3) then year + 1 else year in
    let q_start = utc q_start_year q_start_month config.start_day in
    let next_q = set_utc_month q_start (get_utc_month q_start + 3) in between q_start (next_q - 1)

-- `/^Q([1-4])\s+FY(\d{4})-(\d{2})$/i`
unfoldable pub quarter_form : Text → FiscalYearConfig → Option DateRange
quarter_form (q ∷ d ∷ w ∷ rest) config =
    if same_letter q b'q' && leb b'1' d && leb d b'4' && is_white_space w
    then Option.bind (any_case_label (trim_start rest)) (λ label.
      Option.map (λ fy. quarter_range config (value d) fy.year) (fy_from_label label config))
    else none
quarter_form _ config = none

-- the form of a fiscal year's label
unfoldable pub label_form : Text → FiscalYearConfig → Option DateRange
label_form raw config =
    Option.bind (any_case_label raw)
      (λ label. Option.map (λ fy. between fy.starts_at fy.ends_at) (fy_from_label label config))

-- the month of a year, both counted from 1; a month above 12 carries into the year
unfoldable pub month_range : ℕ → ℕ → DateRange
month_range year month = between (utc year month 1) (utc year (month + 1) 1 - 1)

abbrev pub month_names : List Text
month_names =
    codes "jan"
    ∷ codes "feb"
    ∷ codes "mar"
    ∷ codes "apr"
    ∷ codes "may"
    ∷ codes "jun"
    ∷ codes "jul"
    ∷ codes "aug"
    ∷ codes "sep"
    ∷ codes "oct"
    ∷ codes "nov"
    ∷ codes "dec"
    ∷ []

-- `indexOf`, counted from the given number
unfoldable pub index_from : ℕ → Text → List Text → Option ℕ
index_from i s [] = none
index_from i s (t ∷ ts) = let rest = index_from (suc i) s ts in if text_eq s t then some i else rest

abbrev pub is_letter : ℕ → Bool
is_letter c = leb b'A' c && leb c b'Z' || leb b'a' c && leb c b'z'

-- the letters in front, and what follows them
unfoldable pub letters : Text → Text
letters [] = []
letters (c ∷ s) = let rest = letters s in if is_letter c then c ∷ rest else []

-- four digits
unfoldable pub year_text : Text → Option ℕ
year_text (a ∷ b ∷ c ∷ d ∷ []) =
    if is_digit a && is_digit b && is_digit c && is_digit d then some (number4 a b c d) else none
year_text _ = none

-- white space and four digits
abbrev pub year_after : Text → Option ℕ
year_after [] = none
year_after (w ∷ s) = if is_white_space w then year_text (trim_start s) else none

-- `/^([A-Za-z]{3,9})\s+(\d{4})$/`, of a month by its first three letters
unfoldable pub name_form : Text → Option DateRange
name_form raw =
    let name = letters raw in
    if leb 3 (length name) && leb (length name) 9
    then Option.bind (year_after (drop (length name) raw)) (λ year.
      Option.map (λ i. month_range year (i + 1))
        (index_from 0 (to_lower_case (take 3 name)) month_names))
    else none

-- `/^(\d{4})-(\d{2})$/`
unfoldable pub iso_month_form : Text → Option DateRange
iso_month_form (a ∷ b ∷ c ∷ d ∷ dash ∷ e ∷ f ∷ []) =
    if is_digit a
      && is_digit b
      && is_digit c
      && is_digit d
      && (dash == b'-')
      && is_digit e
      && is_digit f
    then some (month_range (number4 a b c d) (number2 e f))
    else none
iso_month_form _ = none

-- the first form that a text has
abbrev pub or_else : Option DateRange → Option DateRange → Option DateRange
or_else (some r) later = some r
or_else none later = later

-- `none` where the period is not recognized
unfoldable pub parse_period : (ℕ → ℕ → ℕ → Option Time) → Text → FiscalYearConfig → Option DateRange
parse_period host s config =
    let raw = trim s in
    or_else (range_form host (take 10 raw) (drop 10 raw)) (
      or_else (quarter_form raw config)
        (or_else (label_form raw config) (or_else (name_form raw) (iso_month_form raw))))
