-- ===== src/Shared/Dates/Days.antt =====
-- daysInPeriod and overlapDays.
use brsr_v.Prelude.Int.{ℤ, pos, ◌+ℤ◌}
use brsr_v.Prelude.{
  ℕ, suc, ◌+◌, ◌-◌, ◌*◌, ◌/◌, ◌%◌, ◌≤◌, ◌<◌, ◌≡◌, ◌⊎◌, inl, inr, leb, true, ◌∙◌, ap, List, [], ◌∷◌,
  arith,
}
use brsr_v.Shared.Dates.{
  Time, MonthBucket, ms_per_day, month_start, month_of, get_utc_full_year, get_utc_date,
  get_utc_month, day_utc, floor_days, days_in_period, split_into_months,
}
use brsr_v.Shared.Dates.Calendar.{month_of_range, month_start_mono}
use brsr_v.Shared.Dates.Fiscal.{utc-full_year}
use brsr_v.Shared.Dates.Months.{Tiles, last, next, split_into_months-Tiles}

pub day_utc_lem : (d : Time) → 100 ≤ get_utc_full_year d → day_utc d ≡ d / ms_per_day * ms_per_day
unfolding day_utc
day_utc_lem d h =
    utc-full_year (get_utc_full_year d) (get_utc_month d + 1) (get_utc_date d) h
    ∙ ap (λ n. n * ms_per_day)
        (ap (λ k. month_start k + get_utc_date d - 1) (same (month_of d))
          ∙ day (month_start (month_of d)) (d / ms_per_day) (month_of_range d).0)
  where
    same : (k : ℕ) → 12 * (k / 12) + (k % 12 + 1) - 1 ≡ k
    same k = omega arith

    day : (a d : ℕ) → a ≤ d → a + (d - a + 1) - 1 ≡ d
    day a d h = omega arith

later_month : (start end : Time) → start ≤ end → month_of start ≤ month_of end
unfolding ms_per_day
later_month start end h = elim (order (month_of start) (month_of end)) [
  | inl le ↦ le
  | inr lt ↦ absurd (
      omega (
        arith,
        month_of_range start,
        month_of_range end,
        month_start_mono (suc (month_of end)) (month_of start) (omega arith),
      ))
]
  where
    order : (a b : ℕ) → (a ≤ b) ⊎ (b < a)
    order a b = omega arith

pub later_year :
    (start end : Time) → 100 ≤ get_utc_full_year start → start ≤ end → 100 ≤ get_utc_full_year end
later_year start end h le = omega (arith, later_month start end le)

pos-add : (a b : ℕ) → pos a +ℤ pos b ≡ pos (a + b)
pos-add a b = ground arith

floor_days_lem :
    (a b : ℕ) → a ≤ b → floor_days (a * ms_per_day) (b * ms_per_day) +ℤ pos 1 ≡ pos (b - a + 1)
unfolding floor_days ms_per_day
floor_days_lem a b h =
    rw (le (a * 86400000) (b * 86400000) (omega arith), days a b) (pos-add (b - a) 1)
  where
    le : (a b : ℕ) → a ≤ b → leb a b ≡ true
    le a b h = ground arith

    days : (a b : ℕ) → (b * 86400000 - a * 86400000) / 86400000 ≡ b - a
    days a b = omega arith

day_le : (start end : Time) → start ≤ end → start / ms_per_day ≤ end / ms_per_day
unfolding ms_per_day
day_le start end h = omega arith

-- Both ends count, and times of the day do not.
pub days_in_period_lem :
    (start end : Time)
    → 100 ≤ get_utc_full_year start
    → start ≤ end
    → days_in_period start end ≡ pos (end / ms_per_day - start / ms_per_day + 1)
unfolding days_in_period
days_in_period_lem start end h le =
    rw (day_utc_lem start h, day_utc_lem end (later_year start end h le))
      (floor_days_lem (start / ms_per_day) (end / ms_per_day) (day_le start end le))

unfoldable pub total_days : List MonthBucket → ℤ
total_days [] = pos 0
total_days (b ∷ bs) = days_in_period b.start b.end +ℤ total_days bs

Tiles-le : (end start : Time) (bs : List MonthBucket) → Tiles end start bs → start ≤ end
Tiles-le end start bs (last b inside e) = omega (arith, inside.ordered)
Tiles-le end start bs (next b bs' inside m rest) =
    omega (arith, inside.ordered, Tiles-le end (b.end + 1) bs' rest)

-- the day after the last of a month
next_day :
    (t : Time) → month_of (t + 1) ≡ suc (month_of t) → (t + 1) / ms_per_day ≡ t / ms_per_day + 1
unfolding ms_per_day
next_day t h = omega (arith, month_of_range t, month_of_range (t + 1), ap month_start h)

Tiles-days :
    (end start : Time) (bs : List MonthBucket)
    → Tiles end start bs
    → 100 ≤ get_utc_full_year start
    → total_days bs ≡ days_in_period start end
unfolding total_days
Tiles-days end start bs (last b inside e) late =
    rw (e, days_in_period_lem b.start end late (omega (arith, e, inside.ordered)))
      (pos-add (end / ms_per_day - start / ms_per_day + 1) 0 ∙ ap pos (omega arith))
Tiles-days end start bs (next b bs' inside m rest) late =
    rw
      (
        Tiles-days end (b.end + 1) bs' rest late',
        days_in_period_lem b.start b.end late inside.ordered,
        days_in_period_lem (b.end + 1) end late' le,
        days_in_period_lem b.start end late (omega (arith, inside.ordered, le)),
        next_day b.end m,
      )
      (pos-add (b.end / ms_per_day - b.start / ms_per_day + 1)
          (end / ms_per_day - (b.end / ms_per_day + 1) + 1)
        ∙ ap pos (
            omega (
              arith,
              day_le b.start b.end inside.ordered,
              day_le (b.end + 1) end le,
              next_day b.end m,
            )))
  where
    le : b.end + 1 ≤ end
    le = Tiles-le end (b.end + 1) bs' rest

    late' : 100 ≤ get_utc_full_year (b.end + 1)
    late' = later_year b.start (b.end + 1) late (omega (arith, inside.ordered))

-- The days of the buckets of a period add up to the days of the period.
pub split_into_months_days :
    (start end : Time)
    → 100 ≤ get_utc_full_year start
    → start ≤ end
    → total_days (split_into_months start end) ≡ days_in_period start end
split_into_months_days start end late h =
    Tiles-days end start (split_into_months start end) (split_into_months-Tiles start end late h)
      late
