-- ===== src/Shared/Periods/Quarters.antt =====
-- The quarters of parsePeriod and the fiscal year.
use brsr_v.Prelude.{
  ℕ, ◌+◌, ◌-◌, ◌*◌, ◌/◌, ◌%◌, ◌≤◌, ◌<◌, ◌≡◌, sym, ◌∙◌, ap, subst, inl, inr, Bool-cases, false, ltb,
  ltb→lt, if◌then◌else◌, arith,
}
use brsr_v.Shared.Dates.{
  Time, ms_per_day, month_start, month_of, utc, get_utc_month, FiscalYearConfig, fiscal_year,
}
use brsr_v.Shared.Dates.Calendar.{month_of_unique, month_start_range, month_start_lt}
use brsr_v.Shared.Dates.Fiscal.{IsConfig, utc-full_year}
use brsr_v.Shared.Periods.{between, set_utc_month, quarter_range}

-- the first moment of the fiscal year's month `n` (from 0), counted from January of the year 0
abbrev quarter_start : FiscalYearConfig → ℕ → ℕ → Time
quarter_start config year n =
    (month_start (12 * year + (config.start_month - 1 + n)) + config.start_day - 1) * ms_per_day

quarter_start-month :
    (config : FiscalYearConfig) (year n : ℕ)
    → IsConfig config
    → month_of (quarter_start config year n) ≡ 12 * year + (config.start_month - 1 + n)
unfolding ms_per_day
quarter_start-month config year n c =
    month_of_unique _ _ (omega (arith, c.day_in))
      (omega (arith, c.day_in, month_start_range (12 * year + (config.start_month - 1 + n))))

quarter_start_lt :
    (config : FiscalYearConfig) (year m n : ℕ)
    → IsConfig config
    → m < n
    → quarter_start config year m + 1 < quarter_start config year n
unfolding ms_per_day
quarter_start_lt config year m n c h = omega (
  arith,
  c.day_in,
  month_start_lt (12 * year + (config.start_month - 1 + m))
      (12 * year + (config.start_month - 1 + n)) (omega arith),
)

q_start_lem :
    (config : FiscalYearConfig) (q year : ℕ)
    → IsConfig config
    → 100 ≤ year
    → 1 ≤ q
    → q ≤ 4
    → utc
        (if ltb 12 (config.start_month + (q - 1) * 3) then year + 1 else year)
        ((config.start_month - 1 + (q - 1) * 3) % 12 + 1)
        config.start_day
      ≡ quarter_start config year ((q - 1) * 3)
q_start_lem config q year c late lo hi =
    elim (Bool-cases (ltb 12 (config.start_month + (q - 1) * 3))) [
      | inl e ↦ rw e (
          utc-full_year (year + 1) _ config.start_day (omega arith)
          ∙ ap (λ k. (month_start k + config.start_day - 1) * ms_per_day)
              (omega (arith, c.month_in, ltb→lt _ _ e)))
      | inr e ↦ rw e (
          utc-full_year year _ config.start_day late
          ∙ ap (λ k. (month_start k + config.start_day - 1) * ms_per_day)
              (omega (arith, c.month_in, not_lt _ _ e)))
    ]
  where
    not_lt : (a b : ℕ) → ltb a b ≡ false → b ≤ a
    not_lt a b h = ground arith

day_of_start : (a d : ℕ) → 1 ≤ d → (a + d - 1) * ms_per_day / ms_per_day - a + 1 ≡ d
unfolding ms_per_day
day_of_start a d h = omega arith

no_time : (a : ℕ) → a * ms_per_day % ms_per_day ≡ 0
unfolding ms_per_day
no_time a = omega arith

next_quarter :
    (config : FiscalYearConfig) (year n : ℕ)
    → IsConfig config
    → set_utc_month (quarter_start config year n) (get_utc_month (quarter_start config year n) + 3)
      ≡ quarter_start config year (n + 3)
unfolding set_utc_month
next_quarter config year n c =
    rw
      (
        quarter_start-month config year n c,
        day_of_start (month_start k) config.start_day c.day_in.0,
        no_time (month_start k + config.start_day - 1),
      )
      (plus_zero _ ∙ ap (λ k. (month_start k + config.start_day - 1) * ms_per_day) (omega arith))
  where
    k : ℕ
    k = 12 * year + (config.start_month - 1 + n)

    plus_zero : (a : ℕ) → a + 0 ≡ a
    plus_zero a = omega arith

quarter_range_lem :
    (config : FiscalYearConfig) (q year : ℕ)
    → IsConfig config
    → 100 ≤ year
    → 1 ≤ q
    → q ≤ 4
    → quarter_range config q year
      ≡ between (quarter_start config year ((q - 1) * 3)) (quarter_start config year (q * 3) - 1)
unfolding quarter_range
quarter_range_lem config q year c late lo hi =
    rw (q_start_lem config q year c late lo hi, next_quarter config year ((q - 1) * 3) c)
      (ap (λ n. between (quarter_start config year ((q - 1) * 3)) (quarter_start config year n - 1))
        (omega arith))

-- From a year 100 on, where the fiscal year starts on a day that every month has, its four quarters
-- follow one another without a gap and make up the fiscal year.
pub quarter_range-fiscal_year :
    (config : FiscalYearConfig) (year : ℕ)
    → IsConfig config
    → 100 ≤ year
    → (t1 : Time) × (t2 : Time) × (t3 : Time) × (quarter_range config 1 year
        ≡ between (fiscal_year config year).starts_at (t1 - 1))
      × (quarter_range config 2 year ≡ between t1 (t2 - 1))
      × (quarter_range config 3 year ≡ between t2 (t3 - 1))
      × (quarter_range config 4 year ≡ between t3 (fiscal_year config year).ends_at)
      × ((fiscal_year config year).starts_at < t1)
      × (t1 < t2)
      × (t2 < t3)
      × (t3 < (fiscal_year config year).ends_at)
unfolding fiscal_year
quarter_range-fiscal_year config year c late = (
  quarter_start config year 3,
  quarter_start config year 6,
  quarter_start config year 9,
  quarter_range_lem config 1 year c late (omega arith) (omega arith)
      ∙ ap (λ t. between t (quarter_start config year 3 - 1)) (sym first),
  quarter_range_lem config 2 year c late (omega arith) (omega arith),
  quarter_range_lem config 3 year c late (omega arith) (omega arith),
  quarter_range_lem config 4 year c late (omega arith) (omega arith)
      ∙ ap (λ t. between (quarter_start config year 9) (t - 1)) (sym after),
  subst (λ t. t < quarter_start config year 3) (sym first) (later 0),
  later 3,
  later 6,
  subst (λ t. quarter_start config year 9 < t - 1) (sym after) (well_before 9),
)
  where
    at :
        (a b : ℕ)
        → a ≡ b
        → (month_start a + config.start_day - 1) * ms_per_day
          ≡ (month_start b + config.start_day - 1) * ms_per_day
    at a b e = ap (λ k. (month_start k + config.start_day - 1) * ms_per_day) e

    first : utc year config.start_month config.start_day ≡ quarter_start config year 0
    first = utc-full_year year _ config.start_day late ∙ at _ _ (omega (arith, c.month_in))

    after : utc (year + 1) config.start_month config.start_day ≡ quarter_start config year 12
    after =
        utc-full_year (year + 1) _ config.start_day (omega arith)
        ∙ at _ _ (omega (arith, c.month_in))

    later : (n : ℕ) → quarter_start config year n < quarter_start config year (n + 3)
    later n = omega (arith, quarter_start_lt config year n (n + 3) c (omega arith))

    well_before : (n : ℕ) → quarter_start config year n < quarter_start config year (n + 3) - 1
    well_before n = omega (arith, quarter_start_lt config year n (n + 3) c (omega arith))
