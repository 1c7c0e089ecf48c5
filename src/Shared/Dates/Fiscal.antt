-- ===== src/Shared/Dates/Fiscal.antt =====
-- The fiscal years of getFiscalYear.
use brsr_v.Prelude.{ℕ, suc, ◌+◌, ◌-◌, ◌*◌, ◌/◌, ◌≤◌, ◌<◌, ◌≡◌, ap, ◌⊎◌, inl, inr, ◌↔◌, subst, arith}
use brsr_v.Shared.Dates.{
  Time, ms_per_day, month_start, month_of, get_utc_full_year, get_utc_month, get_utc_date,
  full_year, utc, FiscalYearConfig, fiscal_year, starts_in_year, get_fiscal_year,
}
use brsr_v.Shared.Dates.Calendar.{month_start_mono, month_start_lt, month_of_range}

-- a day that every month has
pub record IsConfig (config : FiscalYearConfig) : Type 0 where
  pub month_in : (1 ≤ config.start_month) × (config.start_month ≤ 12)
  pub day_in : (1 ≤ config.start_day) × (config.start_day ≤ 28)

pub utc-full_year :
    (y m d : ℕ) → 100 ≤ y → utc y m d ≡ (month_start (12 * y + m - 1) + d - 1) * ms_per_day
unfolding utc full_year
utc-full_year y m d h = ground arith

starts_in_year_late :
    (config : FiscalYearConfig) (d : Time)
    → (config.start_month < get_utc_month d + 1)
      ⊎ ((config.start_month ≡ get_utc_month d + 1) × (config.start_day ≤ get_utc_date d))
    → starts_in_year config d ≡ get_utc_full_year d
unfolding starts_in_year
starts_in_year_late config d h = ground arith

starts_in_year_early :
    (config : FiscalYearConfig) (d : Time)
    → (get_utc_month d + 1 < config.start_month)
      ⊎ ((config.start_month ≡ get_utc_month d + 1) × (get_utc_date d < config.start_day))
    → starts_in_year config d ≡ get_utc_full_year d - 1
unfolding starts_in_year
starts_in_year_early config d h = ground arith

starts_in_year_ge :
    (config : FiscalYearConfig) (d : Time)
    → 100 < get_utc_full_year d
    → 100 ≤ starts_in_year config d
unfolding starts_in_year
starts_in_year_ge config d h = ground arith

position :
    (m date start_month start_day : ℕ)
    → ((start_month < m) ⊎ ((start_month ≡ m) × (start_day ≤ date)))
      ⊎ ((m < start_month) ⊎ ((start_month ≡ m) × (date < start_day)))
position m date start_month start_day = omega arith

-- The day of a date is between the starts of its fiscal year and of the next.
starts_in_year_range :
    (config : FiscalYearConfig) (d : Time)
    → IsConfig config
    → 100 < get_utc_full_year d
    → (month_start (12 * starts_in_year config d + config.start_month - 1) + config.start_day
        ≤ d / ms_per_day + 1)
      × (d / ms_per_day + 1
          < month_start (12 * suc (starts_in_year config d) + config.start_month - 1)
            + config.start_day)
starts_in_year_range config d c h =
    elim (position (get_utc_month d + 1) (get_utc_date d) config.start_month config.start_day) [
      | inl late ↦ rw (starts_in_year_late config d late) (elim late [
        | inl lt ↦ omega (
          arith,
          c.month_in,
          c.day_in,
          month_of_range d,
          month_start_lt (12 * (k / 12) + config.start_month - 1) k (omega arith),
          month_start_mono (suc k) (12 * suc (k / 12) + config.start_month - 1)
              (omega (arith, c.month_in)),
        )
        | inr (e, le) ↦ omega (
          arith,
          c.month_in,
          c.day_in,
          month_of_range d,
          month_start_mono (12 * (k / 12) + config.start_month - 1) k (omega arith),
          month_start_mono (suc k) (12 * suc (k / 12) + config.start_month - 1)
              (omega (arith, c.month_in)),
        )
      ])
      | inr early ↦
          rw (starts_in_year_early config d early, next)
            (elim early [
              | inl lt ↦ omega (
                arith,
                c.month_in,
                c.day_in,
                month_of_range d,
                month_start_lt (12 * (k / 12 - 1) + config.start_month - 1) k
                    (omega (arith, c.month_in)),
                month_start_mono (suc k) (12 * (k / 12) + config.start_month - 1) (omega arith),
              )
              | inr (e, le) ↦ omega (
                arith,
                c.month_in,
                c.day_in,
                month_of_range d,
                month_start_lt (12 * (k / 12 - 1) + config.start_month - 1) k
                    (omega (arith, c.month_in)),
                month_start_mono k (12 * (k / 12) + config.start_month - 1) (omega arith),
              )
            ])
    ]
  where
    k : ℕ
    k = month_of d

    next : suc (get_utc_full_year d - 1) ≡ get_utc_full_year d
    next = omega arith

before_ms : (a d : ℕ) → a ≤ d / ms_per_day → a * ms_per_day ≤ d
unfolding ms_per_day
before_ms a d h = omega arith

after_ms : (a d : ℕ) → d / ms_per_day < a → d < a * ms_per_day
unfolding ms_per_day
after_ms a d h = omega arith

-- A date lies in its fiscal year: from its start up to the start of the next.
pub in_fiscal_year :
    (config : FiscalYearConfig) (d : Time)
    → IsConfig config
    → 100 < get_utc_full_year d
    → let y = starts_in_year config d in
      (utc y config.start_month config.start_day ≤ d)
      × (d < utc (y + 1) config.start_month config.start_day)
in_fiscal_year config d c h =
    rw
      (
        utc-full_year y config.start_month config.start_day
            (omega (arith, starts_in_year_ge config d h)),
        utc-full_year (y + 1) config.start_month config.start_day
            (omega (arith, starts_in_year_ge config d h)),
      )
      (
        before_ms _ d (omega (arith, starts_in_year_range config d c h)),
        after_ms _ d (omega (arith, starts_in_year_range config d c h, next, c.day_in)),
      )
  where
    y : ℕ
    y = starts_in_year config d

    next :
        month_start (12 * (y + 1) + config.start_month - 1)
        ≡ month_start (12 * suc y + config.start_month - 1)
    next = ap (λ n. month_start (12 * n + config.start_month - 1)) (omega arith)

utc_mono :
    (config : FiscalYearConfig) (a b : ℕ)
    → IsConfig config
    → 100 ≤ a
    → a ≤ b
    → utc a config.start_month config.start_day ≤ utc b config.start_month config.start_day
unfolding ms_per_day
utc_mono config a b c h le =
    rw
      (
        utc-full_year a config.start_month config.start_day h,
        utc-full_year b config.start_month config.start_day (omega arith),
      )
      (omega (
        arith,
        month_start_mono (12 * a + config.start_month - 1) (12 * b + config.start_month - 1)
            (omega arith),
      ))

-- A date lies between the first days of two successive fiscal years if and only if `get_fiscal_year`
-- gives it the first of them, where the fiscal year starts on a day that every month has and all
-- years are from 100 on.
pub get_fiscal_year_iff :
    (config : FiscalYearConfig) (d : Time) (y : ℕ)
    → IsConfig config
    → 100 < get_utc_full_year d
    → 100 ≤ y
    → ((get_fiscal_year config d).year ≡ y) ↔ (
        (utc y config.start_month config.start_day ≤ d)
        × (d < utc (y + 1) config.start_month config.start_day))
unfolding get_fiscal_year fiscal_year
get_fiscal_year_iff config d y c h hy = (
  λ e.
      subst
        (λ y.
          (utc y config.start_month config.start_day ≤ d)
          × (d < utc (y + 1) config.start_month config.start_day))
        e (in_fiscal_year config d c h),
  λ (lo, hi). elim (order (starts_in_year config d) y) [
    | inl e ↦ e
    | inr (inl lt) ↦ absurd (
        omega (
          arith,
          in_fiscal_year config d c h,
          utc_mono config (starts_in_year config d + 1) y c
              (omega (arith, starts_in_year_ge config d h)) (omega arith),
        ))
    | inr (inr gt) ↦ absurd (
        omega (
          arith,
          in_fiscal_year config d c h,
          utc_mono config (y + 1) (starts_in_year config d) c (omega arith) (omega arith),
        ))
  ],
)
  where
    order : (a b : ℕ) → (a ≡ b) ⊎ (a < b) ⊎ (b < a)
    order a b = omega arith
