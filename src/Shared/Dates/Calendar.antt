-- ===== src/Shared/Dates/Calendar.antt =====
-- The calendar under dates.ts: months follow one another without a gap, and a day lies in its month.
use native.Mathlib.Nat.{le_refl}
use native.Mathlib.Decide.{le_ind}
use brsr_v.Prelude.{
  ℕ, zero, suc, Bool-cases, ◌+◌, ◌*◌, ◌/◌, ◌%◌, ◌≤◌, ◌<◌, ◌≡◌, refl, ◌⊎◌, inl, inr, leb, arith,
  leb→le,
}
use brsr_v.Shared.Dates.{
  ms_per_day, day_from_year, leap_days, days_before_month, month_start, month_below, month_of,
}

leap_days_le : (y : ℕ) → leap_days y ≤ 1
unfolding leap_days
leap_days_le y = ground arith

-- a year has 365 days, or 366 in a leap year
day_from_year-suc : (y : ℕ) → day_from_year (suc y) ≡ day_from_year y + 365 + leap_days y
unfolding day_from_year leap_days
day_from_year-suc y = ground arith

days_before_month_range :
    (y m : ℕ)
    → m < 11
    → (days_before_month y m + 28 ≤ days_before_month y (suc m))
      × (days_before_month y (suc m) ≤ days_before_month y m + 31)
unfolding days_before_month leap_days
days_before_month_range y m h = ground arith

last_month : (y : ℕ) → days_before_month y 11 ≡ 334 + leap_days y
unfolding days_before_month
last_month y = omega arith

first_month : (y : ℕ) → days_before_month y 0 ≡ 0
unfolding days_before_month
first_month y = refl

-- A month has from 28 to 31 days.
pub month_start_range :
    (k : ℕ)
    → (month_start k + 28 ≤ month_start (suc k)) × (month_start (suc k) ≤ month_start k + 31)
unfolding month_start
month_start_range k = elim (within (k % 12)) [
  | inl h ↦
      rw (quotient k h, remainder k h) (omega (arith, days_before_month_range (k / 12) (k % 12) h))
  | inr h ↦
      rw (next_quotient k (last k h), next_remainder k (last k h), last k h)
        (omega (
          arith,
          last_month (k / 12),
          leap_days_le (k / 12),
          first_month (suc (k / 12)),
          day_from_year-suc (k / 12),
        ))
]
  where
    within : (r : ℕ) → (r < 11) ⊎ (11 ≤ r)
    within r = omega arith

    quotient : (k : ℕ) → k % 12 < 11 → suc k / 12 ≡ k / 12
    quotient k h = omega arith

    remainder : (k : ℕ) → k % 12 < 11 → suc k % 12 ≡ suc (k % 12)
    remainder k h = omega arith

    next_quotient : (k : ℕ) → k % 12 ≡ 11 → suc k / 12 ≡ suc (k / 12)
    next_quotient k h = omega arith

    next_remainder : (k : ℕ) → k % 12 ≡ 11 → suc k % 12 ≡ 0
    next_remainder k h = omega arith

    last : (k : ℕ) → 11 ≤ k % 12 → k % 12 ≡ 11
    last k h = omega arith

pub month_start_mono : (a b : ℕ) → a ≤ b → month_start a ≤ month_start b
month_start_mono a b h =
    le_ind (λ m. month_start a ≤ month_start m) (le_refl _)
      (λ m le ih. omega (arith, month_start_range m)) b h

-- A later month starts after the end of an earlier one.
pub month_start_lt : (a b : ℕ) → a < b → month_start a + 28 ≤ month_start b
month_start_lt a b h = omega (arith, month_start_range a, month_start_mono (suc a) b (omega arith))

origin : month_start 0 ≡ 0
unfolding month_start day_from_year days_before_month
origin = refl

month_below_range :
    (d k : ℕ)
    → d < month_start (suc k)
    → (month_start (month_below d k) ≤ d) × (d < month_start (suc (month_below d k)))
unfolding month_below
month_below_range d zero h = (omega (arith, origin), h)
month_below_range d (suc k) h = elim (Bool-cases (leb (month_start (suc k)) d)) [
  | inl e ↦ rw (e, month_below) (leb→le _ _ e, h)
  | inr e ↦ rw (e, month_below) (month_below_range d k (ground arith))
]

next_year : (d : ℕ) → d < month_start (suc (12 * (d / 365) + 11))
unfolding month_start day_from_year
next_year d = omega arith

-- The day of a date lies in the month that its getters give.
pub month_of_range :
    (t : ℕ)
    → (month_start (month_of t) ≤ t / ms_per_day)
      × (t / ms_per_day < month_start (suc (month_of t)))
unfolding month_of
month_of_range t = month_below_range d (12 * (d / 365) + 11) (next_year d)
  where
    d : ℕ
    d = t / ms_per_day

-- That month is the only one.
pub month_of_unique :
    (t k : ℕ)
    → month_start k ≤ t / ms_per_day
    → t / ms_per_day < month_start (suc k)
    → month_of t ≡ k
month_of_unique t k lo hi = elim (order (month_of t) k) [
  | inl e ↦ e
  | inr (inl lt) ↦
      absurd (omega (arith, month_of_range t, month_start_mono (suc (month_of t)) k lt))
  | inr (inr gt) ↦
      absurd (omega (arith, month_of_range t, month_start_mono (suc k) (month_of t) gt))
]
  where
    order : (a b : ℕ) → (a ≡ b) ⊎ (a < b) ⊎ (b < a)
    order a b = omega arith
