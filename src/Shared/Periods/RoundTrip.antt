-- ===== src/Shared/Periods/RoundTrip.antt =====
-- parsePeriod reads back what formatPeriod writes.
use brsr_v.Prelude.{
  ℕ, suc, ◌+◌, ◌-◌, ◌*◌, ◌/◌, ◌%◌, ◌≤◌, ◌<◌, ◌≡◌, refl, ◌∙◌, ap, true, false, Option, some, [], ◌∷◌,
  ◌++◌, Text, leb, arith,
}
use brsr_v.Shared.Letters.{is_white_space, trim, trim_start, trim_end, before_trimmed}
use brsr_v.Shared.Dates.{
  Time, ms_per_day, month_start, month_of, utc, get_utc_full_year, get_utc_date, get_utc_month,
  FiscalYearConfig, iso_date, format_period, day_utc, end_of_day_utc,
}
use brsr_v.Shared.Dates.Calendar.{month_of_range, month_of_unique, month_start_range}
use brsr_v.Shared.Dates.Days.{day_utc_lem}
use brsr_v.Shared.Dates.Digits.{decimal_four, pad2_lem, digit}
use brsr_v.Shared.Periods.{
  between, midnight, to_date, number4, number2, is_iso_day, range_form, parse_period,
}

-- `YYYY-MM-DD` of a year, a month and a day
abbrev day_text : ℕ → ℕ → ℕ → Text
day_text y m d =
    (b'0' + y / 1000)
    ∷ (b'0' + y / 100 % 10)
    ∷ (b'0' + y / 10 % 10)
    ∷ (b'0' + y % 10)
    ∷ b'-'
    ∷ (b'0' + m / 10)
    ∷ (b'0' + m % 10)
    ∷ b'-'
    ∷ (b'0' + d / 10)
    ∷ (b'0' + d % 10)
    ∷ []

get_utc_date_le : (t : Time) → (1 ≤ get_utc_date t) × (get_utc_date t ≤ 31)
get_utc_date_le t = omega (arith, month_of_range t, month_start_range (month_of t))

iso_date_lem :
    (t : Time)
    → 1000 ≤ get_utc_full_year t
    → get_utc_full_year t ≤ 9999
    → iso_date t ≡ day_text (get_utc_full_year t) (get_utc_month t + 1) (get_utc_date t)
unfolding iso_date
iso_date_lem t lo hi =
    rw
      (
        decimal_four (get_utc_full_year t) lo hi,
        pad2_lem (get_utc_month t + 1) (omega arith),
        pad2_lem (get_utc_date t) (omega (arith, get_utc_date_le t)),
      )
      refl

is_iso_day-day_text :
    (y m d : ℕ) → y ≤ 9999 → m < 100 → d < 100 → is_iso_day (day_text y m d) ≡ true
unfolding is_iso_day
is_iso_day-day_text y m d hy hm hd =
    rw
      (
        digit (y / 1000) (omega arith),
        digit (y / 100 % 10) (omega arith),
        digit (y / 10 % 10) (omega arith),
        digit (y % 10) (omega arith),
        digit (m / 10) (omega arith),
        digit (m % 10) (omega arith),
        digit (d / 10) (omega arith),
        digit (d % 10) (omega arith),
      )
      refl

to_date-day_text :
    (host : ℕ → ℕ → ℕ → Option Time) (y m d : ℕ)
    → y ≤ 9999
    → m < 100
    → d < 100
    → to_date host (day_text y m d) ≡ midnight host y m d
unfolding to_date
to_date-day_text host y m d hy hm hd = rw (four, two m hm, two d hd) refl
  where
    four : number4 (b'0' + y / 1000) (b'0' + y / 100 % 10) (b'0' + y / 10 % 10) (b'0' + y % 10) ≡ y
    four = omega arith

    two : (n : ℕ) → n < 100 → number2 (b'0' + n / 10) (b'0' + n % 10) ≡ n
    two n h = omega arith

-- the day's own month
same_month : (t : Time) → 12 * get_utc_full_year t + (get_utc_month t + 1) - 1 ≡ month_of t
same_month t = omega arith

next_month : (t : Time) → 12 * get_utc_full_year t + (get_utc_month t + 1) ≡ suc (month_of t)
next_month t = omega arith

midnight_lem :
    (host : ℕ → ℕ → ℕ → Option Time) (t : Time)
    → 100 ≤ get_utc_full_year t
    → midnight host (get_utc_full_year t) (get_utc_month t + 1) (get_utc_date t) ≡ some (day_utc t)
unfolding midnight
midnight_lem host t h =
    rw
      (
        same_month t,
        next_month t,
        le 1 (get_utc_month t + 1) (omega arith),
        le (get_utc_month t + 1) 12 (omega arith),
        le 1 (get_utc_date t) (omega arith),
        le (get_utc_date t) (month_start (suc (month_of t)) - month_start (month_of t))
            (omega (arith, month_of_range t)),
        day_utc_lem t h,
      )
      (ap (λ d. some (d * ms_per_day)) (omega (arith, month_of_range t)))
  where
    le : (a b : ℕ) → a ≤ b → leb a b ≡ true
    le a b h = ground arith

no_space : (n : ℕ) → n < 10 → is_white_space (b'0' + n) ≡ false
no_space n h = ground arith

trim_end-kept :
    (c z : ℕ) (mid : Text)
    → is_white_space z ≡ false
    → trim_end (c ∷ mid ++ z ∷ []) ≡ c ∷ mid ++ z ∷ []
unfolding trim_end
trim_end-kept c z [] h = rw h refl
trim_end-kept c z (m ∷ mid) h = ap (before_trimmed c) (trim_end-kept m z mid h)

-- the text of a range has no white space around it
trim_kept :
    (c z : ℕ) (mid : Text)
    → is_white_space c ≡ false
    → is_white_space z ≡ false
    → trim (c ∷ mid ++ z ∷ []) ≡ c ∷ mid ++ z ∷ []
unfolding trim trim_start
trim_kept c z mid hc hz = rw hc (trim_end-kept c z mid hz)

abbrev range_text : ℕ → ℕ → ℕ → ℕ → ℕ → ℕ → Text
range_text y m d y' m' d' = day_text y m d ++ b'.' ∷ b'.' ∷ day_text y' m' d'

trim-range_text :
    (y m d y' m' d' : ℕ)
    → y ≤ 9999
    → d' < 100
    → trim (range_text y m d y' m' d') ≡ range_text y m d y' m' d'
trim-range_text y m d y' m' d' hy hd =
    trim_kept (b'0' + y / 1000) (b'0' + d' % 10)
      ((b'0' + y / 100 % 10)
        ∷ (b'0' + y / 10 % 10)
        ∷ (b'0' + y % 10)
        ∷ b'-'
        ∷ (b'0' + m / 10)
        ∷ (b'0' + m % 10)
        ∷ b'-'
        ∷ (b'0' + d / 10)
        ∷ (b'0' + d % 10)
        ∷ b'.'
        ∷ b'.'
        ∷ (b'0' + y' / 1000)
        ∷ (b'0' + y' / 100 % 10)
        ∷ (b'0' + y' / 10 % 10)
        ∷ (b'0' + y' % 10)
        ∷ b'-'
        ∷ (b'0' + m' / 10)
        ∷ (b'0' + m' % 10)
        ∷ b'-'
        ∷ (b'0' + d' / 10)
        ∷ [])
      (no_space (y / 1000) (omega arith)) (no_space (d' % 10) (omega arith))

same_day : (t : Time) → 100 ≤ get_utc_full_year t → month_of (day_utc t) ≡ month_of t
unfolding ms_per_day
same_day t h =
    ap month_of (day_utc_lem t h)
    ∙ month_of_unique (t / ms_per_day * ms_per_day) (month_of t) (omega (arith, month_of_range t))
        (omega (arith, month_of_range t))

-- the last millisecond of a day
end_of_day_utc_lem :
    (t : Time)
    → 100 ≤ get_utc_full_year t
    → end_of_day_utc (day_utc t) ≡ t / ms_per_day * ms_per_day + (ms_per_day - 1)
unfolding end_of_day_utc ms_per_day utc day_utc
end_of_day_utc_lem t h =
    ap (λ d. d + 86399999)
      (day_utc_lem (day_utc t) (omega (arith, same_day t h))
        ∙ ap (λ d. d / ms_per_day * ms_per_day) (day_utc_lem t h)
        ∙ omega arith)

module _ (host : ℕ → ℕ → ℕ → Option Time) where
  range_form-day_text :
      (y m d y' m' d' : ℕ) (start end : Time)
      → (y ≤ 9999) × (m < 100) × (d < 100)
      → (y' ≤ 9999) × (m' < 100) × (d' < 100)
      → midnight host y m d ≡ some start
      → midnight host y' m' d' ≡ some end
      → range_form host (day_text y m d) (b'.' ∷ b'.' ∷ day_text y' m' d')
        ≡ some (between start (end_of_day_utc end))
  unfolding range_form
  range_form-day_text y m d y' m' d' start end (hy, hm, hd) (hy', hm', hd') s e =
      rw
        (
          is_iso_day-day_text y m d hy hm hd,
          is_iso_day-day_text y' m' d' hy' hm' hd',
          to_date-day_text host y m d hy hm hd,
          to_date-day_text host y' m' d' hy' hm' hd',
          s,
          e,
        )
        refl

  -- `parse_period` reads the text that `format_period` writes for two dates of the years 1000 to 9999
  -- back as the range from the start of the first date's day to the last millisecond of the second's.
  pub parse_period-format_period :
      (start end : Time) (config : FiscalYearConfig)
      → (1000 ≤ get_utc_full_year start) × (get_utc_full_year start ≤ 9999)
      → (1000 ≤ get_utc_full_year end) × (get_utc_full_year end ≤ 9999)
      → parse_period host (format_period start end) config
        ≡ some (
            between
              (start / ms_per_day * ms_per_day)
              (end / ms_per_day * ms_per_day + (ms_per_day - 1)))
  unfolding parse_period format_period
  parse_period-format_period start end config (lo, hi) (lo', hi') =
      rw
        (
          iso_date_lem start lo hi,
          iso_date_lem end lo' hi',
          trim-range_text (get_utc_full_year start) (get_utc_month start + 1) (get_utc_date start)
              (get_utc_full_year end) (get_utc_month end + 1) (get_utc_date end) hi
              (omega (arith, get_utc_date_le end)),
          range_form-day_text (get_utc_full_year start) (get_utc_month start + 1)
              (get_utc_date start) (get_utc_full_year end) (get_utc_month end + 1)
              (get_utc_date end) (day_utc start) (day_utc end)
              (hi, omega arith, omega (arith, get_utc_date_le start))
              (hi', omega arith, omega (arith, get_utc_date_le end))
              (midnight_lem host start (omega arith)) (midnight_lem host end (omega arith)),
          day_utc_lem start (omega arith),
          end_of_day_utc_lem end (omega arith),
        )
        refl
