-- ===== src/Shared/Dates.antt =====
-- dates.ts of packages/shared. A valid `Date` is its milliseconds in UTC, counted from the start of
-- the year 0; `Date.UTC` and the getters are those of the language, for years from 0 on.
pub mod Calendar
pub mod Days
pub mod Digits
pub mod Fiscal
pub mod Labels
pub mod Months
use mathlib.Core.Option
use brsr_v.Cel.Lexer.{is_digit}
use brsr_v.Prelude.Int.{ℤ, pos, negsuc, ◌+ℤ◌}
use brsr_v.Prelude.{
  ℕ, zero, suc, ◌+◌, ◌-◌, ◌*◌, ◌/◌, ◌%◌, Bool, true, false, Option, none, some, not, ◌&&◌, ◌||◌,
  List, [], ◌∷◌, ◌++◌, ltb, Text, codes, leb, ◌==◌, if◌then◌else◌,
}

abbrev pub Time : Type 0
Time = ℕ

unfoldable pub ms_per_day : ℕ
ms_per_day = 86400000

-- the days from the start of the year 0 to that of the given year
unfoldable pub day_from_year : ℕ → ℕ
day_from_year y = (365 * y + (y + 3) / 4 + (y + 399) / 400) - (y + 99) / 100

unfoldable pub leap_days : ℕ → ℕ
leap_days y = if (y % 4 == 0) && (not (y % 100 == 0) || (y % 400 == 0)) then 1 else 0

-- the days of a year before its month, counted from 0
unfoldable pub days_before_month : ℕ → ℕ → ℕ
days_before_month y m = if ltb m 2 then 31 * m else 59 + leap_days y + (153 * (m - 2) + 2) / 5

-- Months are counted from January of the year 0; a month above 12 carries into the year.
unfoldable pub month_start : ℕ → ℕ
month_start k = day_from_year (k / 12) + days_before_month (k / 12) (k % 12)

-- the last month up to `k` that starts on the day or before it
unfoldable pub month_below : ℕ → ℕ → ℕ
month_below d zero = 0
month_below d (suc k) = elim (leb (month_start (suc k)) d) [
  | true ↦ suc k
  | false ↦ month_below d k
]

unfoldable pub month_of : Time → ℕ
month_of t = let d = t / ms_per_day in month_below d (12 * (d / 365) + 11)

abbrev pub get_utc_full_year : Time → ℕ
get_utc_full_year t = month_of t / 12

-- `getUTCMonth`, which counts from 0
abbrev pub get_utc_month : Time → ℕ
get_utc_month t = month_of t % 12

abbrev pub get_utc_date : Time → ℕ
get_utc_date t = t / ms_per_day - month_start (month_of t) + 1

-- `Date.UTC` reads the years 0 to 99 as 1900 to 1999.
unfoldable pub full_year : ℕ → ℕ
full_year y = if ltb y 100 then 1900 + y else y

-- `utc(year, month, day)`, with `Date.UTC(year, month - 1, day)`
unfoldable pub utc : ℕ → ℕ → ℕ → Time
utc year month day = (month_start (12 * full_year year + month - 1) + day - 1) * ms_per_day

-- `Date.UTC(year, month - 1, day, 23, 59, 59, 999)` with the date's own fields
unfoldable pub end_of_day_utc : Time → Time
end_of_day_utc d = utc (get_utc_full_year d) (get_utc_month d + 1) (get_utc_date d) + 86399999

pub record FiscalYearConfig : Type 0 where
  pub start_month : ℕ
  pub start_day : ℕ

abbrev pub default_fy : FiscalYearConfig
default_fy = record { start_month = 4; start_day = 1 }

pub record FiscalYearInfo : Type 0 where
  pub fy_label : Text
  pub starts_at : Time
  pub ends_at : Time
  pub year : ℕ

-- `String(n)`, whose digits are no more than `n` and one
unfoldable pub digits : ℕ → ℕ → Text
digits zero n = (b'0' + n % 10) ∷ []
digits (suc left) n =
    let rest = digits left (n / 10) in
    if ltb n 10 then (b'0' + n) ∷ [] else rest ++ (b'0' + n % 10) ∷ []

abbrev pub decimal : ℕ → Text
decimal n = digits n n

-- `String(n).padStart(2, '0')` of a number below 100
abbrev pub pad2 : ℕ → Text
pad2 n = if ltb n 10 then b'0' ∷ decimal n else decimal n

-- the fiscal year that starts in a year, which both functions below write out
unfoldable pub fiscal_year : FiscalYearConfig → ℕ → FiscalYearInfo
fiscal_year config y = record {
  fy_label = codes "FY" ++ decimal y ++ b'-' ∷ pad2 ((y + 1) % 100);
  starts_at = utc y config.start_month config.start_day;
  ends_at = utc (y + 1) config.start_month config.start_day - 1;
  year = y;
}

-- the year in which the fiscal year of a date starts
unfoldable pub starts_in_year : FiscalYearConfig → Time → ℕ
starts_in_year config d =
    let m = get_utc_month d + 1 in
    let y = get_utc_full_year d in
    if ltb config.start_month m
      || (m == config.start_month) && leb config.start_day (get_utc_date d)
    then y
    else y - 1

unfoldable pub get_fiscal_year : FiscalYearConfig → Time → FiscalYearInfo
get_fiscal_year config d = fiscal_year config (starts_in_year config d)

-- `/^FY(\d{4})-(\d{2})$/` and the number of its first group
unfoldable pub label_year : Text → Option ℕ
label_year (f ∷ y ∷ a ∷ b ∷ c ∷ d ∷ dash ∷ e ∷ g ∷ []) =
    if (f == b'F')
      && (y == b'Y')
      && is_digit a
      && is_digit b
      && is_digit c
      && is_digit d
      && (dash == b'-')
      && is_digit e
      && is_digit g
    then some (1000 * (a - b'0') + 100 * (b - b'0') + 10 * (c - b'0') + (d - b'0'))
    else none
label_year _ = none

-- `none` where the label is refused
unfoldable pub fy_from_label : Text → FiscalYearConfig → Option FiscalYearInfo
fy_from_label label config = Option.map (fiscal_year config) (label_year label)

-- `YYYY-MM-DD` of a date
unfoldable pub iso_date : Time → Text
iso_date d =
    decimal (get_utc_full_year d)
    ++ b'-' ∷ pad2 (get_utc_month d + 1)
    ++ b'-' ∷ pad2 (get_utc_date d)

unfoldable pub format_period : Time → Time → Text
format_period start end = iso_date start ++ b'.' ∷ b'.' ∷ iso_date end

-- `Date.UTC` of the day of a date
unfoldable pub day_utc : Time → Time
day_utc d = utc (get_utc_full_year d) (get_utc_month d + 1) (get_utc_date d)

-- the quotient of the difference, rounded down
unfoldable pub floor_days : Time → Time → ℤ
floor_days start_day end_day =
    if leb start_day end_day
    then pos ((end_day - start_day) / ms_per_day)
    else negsuc ((start_day - end_day - 1) / ms_per_day)

unfoldable pub days_in_period : Time → Time → ℤ
days_in_period start end = floor_days (day_utc start) (day_utc end) +ℤ pos 1

pub record Period : Type 0 where
  pub start : Time
  pub end : Time

unfoldable pub overlap_days : Period → Period → ℤ
overlap_days a b =
    let start = if ltb b.start a.start then a.start else b.start in
    let end = if ltb a.end b.end then a.end else b.end in
    if ltb end start then pos 0 else days_in_period start end

pub record MonthBucket : Type 0 where
  pub start : Time
  pub end : Time
  pub year : ℕ
  pub month : ℕ

abbrev pub min : ℕ → ℕ → ℕ
min a b = if leb a b then a else b

-- the loop on the cursor
unfoldable pub split_rest : ℕ → Time → Time → List MonthBucket
split_rest zero cursor end = []
split_rest (suc left) cursor end =
    let y = get_utc_full_year cursor in
    let m = get_utc_month cursor + 1 in
    let next_month_start = utc y (m + 1) 1 in
    let rest = split_rest left next_month_start end in
    if leb cursor end
    then record { start = cursor; end = min (next_month_start - 1) end; year = y; month = m } ∷ rest
    else []

-- Each round takes a month, so that the number of the last month is enough rounds.
unfoldable pub split_into_months : Time → Time → List MonthBucket
split_into_months start end =
    let first_next_month = utc (get_utc_full_year start) (get_utc_month start + 2) 1 in
    record {
      start = start;
      end = min (first_next_month - 1) end;
      year = get_utc_full_year start;
      month = get_utc_month start + 1;
    }
    ∷ split_rest (month_of end) first_next_month end
