-- ===== src/Shared/Periods/Tests.antt =====
-- Dates and periods of dates.ts at concrete inputs.
use brsr_v.Prelude.{
  ℕ, ◌+◌, ◌-◌, ◌*◌, ◌/◌, ◌≤◌, ◌<◌, ◌≡◌, refl, ◌↔◌, Option, none, some, length, codes, arith,
}
use brsr_v.Prelude.Int.{pos}
use brsr_v.Shared.Dates.{
  Time, ms_per_day, month_start, month_of, month_below, day_from_year, days_before_month, leap_days,
  full_year, get_utc_full_year, get_utc_month, get_utc_date, utc, digits, default_fy, fiscal_year,
  starts_in_year, get_fiscal_year, label_year, fy_from_label, iso_date, format_period, day_utc,
  floor_days, days_in_period, split_rest, split_into_months,
}
use brsr_v.Shared.Dates.Fiscal.{IsConfig, get_fiscal_year_iff}
use brsr_v.Shared.Dates.Months.{Tiles, split_into_months-Tiles}
use mathlib.Core.Option
use brsr_v.Prelude.{text_eq}
use brsr_v.Shared.Letters.{trim, to_lower_case}
use brsr_v.Shared.Periods.{
  between, range_form, quarter_form, label_form, name_form, iso_month_form, any_case_label, letters,
  year_text, index_from, month_range, parse_period, quarter_range,
}
use brsr_v.Shared.Periods.Quarters.{quarter_range-fiscal_year}
use brsr_v.Shared.Periods.RoundTrip.{parse_period-format_period}

-- 20 January 2024 at one in the morning, and 10 March 2024 at noon
abbrev january : Time
january = 739270 * 86400000 + 3600000

abbrev march : Time
march = 739320 * 86400000 + 43200000

january_date :
    (get_utc_full_year january ≡ 2024) × (get_utc_month january ≡ 0) × (get_utc_date january ≡ 20)
unfolding month_of month_start month_below day_from_year days_before_month leap_days ms_per_day
january_date = (refl, refl, refl)

march_date :
    (get_utc_full_year march ≡ 2024) × (get_utc_month march ≡ 2) × (get_utc_date march ≡ 10)
unfolding month_of month_start month_below day_from_year days_before_month leap_days ms_per_day
march_date = (refl, refl, refl)

default_fy-IsConfig : IsConfig default_fy
default_fy-IsConfig = record { month_in = omega arith; day_in = omega arith }

get_fiscal_year_iff_example :
    ((get_fiscal_year default_fy january).year ≡ 2023)
    ↔ ((utc 2023 4 1 ≤ january) × (january < utc 2024 4 1))
get_fiscal_year_iff_example =
    get_fiscal_year_iff default_fy january 2023 default_fy-IsConfig (omega (arith, january_date))
      (omega arith)

label_test : (get_fiscal_year default_fy january).fy_label ≡ codes "FY2023-24"
unfolding get_fiscal_year starts_in_year fiscal_year digits month_of month_start month_below
    day_from_year days_before_month leap_days ms_per_day
label_test = refl

january_year : (get_fiscal_year default_fy january).year ≡ 2023
unfolding get_fiscal_year starts_in_year fiscal_year month_of month_start month_below day_from_year
    days_before_month leap_days ms_per_day
january_year = refl

split_into_months-Tiles_example : Tiles march january (split_into_months january march)
split_into_months-Tiles_example =
    split_into_months-Tiles january march (omega (arith, january_date)) (omega arith)

-- 12 days of January, 29 of February and 10 of March
days_test : days_in_period january march ≡ pos 51
unfolding days_in_period floor_days day_utc utc full_year month_of month_start month_below
    day_from_year days_before_month leap_days ms_per_day
days_test = refl

months_test : length (split_into_months january march) ≡ 3
unfolding split_into_months split_rest utc full_year month_of month_start month_below day_from_year
    days_before_month leap_days ms_per_day
months_test = refl

no_host : ℕ → ℕ → ℕ → Option Time
no_host year month day = none

quarter_range-fiscal_year_example :
    (t1 : Time) × (t2 : Time) × (t3 : Time) × (quarter_range default_fy 1 2024
      ≡ between (fiscal_year default_fy 2024).starts_at (t1 - 1))
    × (quarter_range default_fy 2 2024 ≡ between t1 (t2 - 1))
    × (quarter_range default_fy 3 2024 ≡ between t2 (t3 - 1))
    × (quarter_range default_fy 4 2024 ≡ between t3 (fiscal_year default_fy 2024).ends_at)
    × ((fiscal_year default_fy 2024).starts_at < t1)
    × (t1 < t2)
    × (t2 < t3)
    × (t3 < (fiscal_year default_fy 2024).ends_at)
quarter_range-fiscal_year_example =
    quarter_range-fiscal_year default_fy 2024 default_fy-IsConfig (omega arith)

parse_period-format_period_example :
    parse_period no_host (format_period january march) default_fy
    ≡ some (
        between
          (january / ms_per_day * ms_per_day)
          (march / ms_per_day * ms_per_day + (ms_per_day - 1)))
parse_period-format_period_example =
    parse_period-format_period no_host january march default_fy
      (omega (arith, january_date), omega (arith, january_date))
      (omega (arith, march_date), omega (arith, march_date))

format_test : format_period january march ≡ codes "2024-01-20..2024-03-10"
unfolding format_period iso_date digits month_of month_start month_below day_from_year
    days_before_month leap_days ms_per_day
format_test = refl

-- the label's second year is not compared, and a month above 12 carries into the next year
loose_test :
    (fy_from_label (codes "FY2024-99") default_fy ≡ some (fiscal_year default_fy 2024))
    × (parse_period no_host (codes "2024-13") default_fy
        ≡ parse_period no_host (codes "Jan 2025") default_fy)
    × (parse_period no_host (codes " q2 fy2024-25 ") default_fy
        ≡ some (quarter_range default_fy 2 2024))
    × (parse_period no_host (codes "later") default_fy ≡ none)
unfolding fy_from_label label_year parse_period trim range_form quarter_form label_form name_form
    iso_month_form text_eq any_case_label quarter_range letters Option.bind year_text index_from
    to_lower_case month_range utc full_year fiscal_year
loose_test = (refl, refl, refl, refl)
