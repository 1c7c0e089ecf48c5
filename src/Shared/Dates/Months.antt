-- ===== src/Shared/Dates/Months.antt =====
-- splitIntoMonths cuts a period into one bucket per calendar month.
use brsr_v.Prelude.{
  ℕ, zero, suc, ◌+◌, ◌-◌, ◌*◌, ◌/◌, ◌%◌, ◌≤◌, ◌<◌, ◌≡◌, refl, sym, ◌∙◌, ap, ◌⊎◌, inl, inr, true,
  false, List, [], ◌∷◌, leb, arith,
}
use brsr_v.Shared.Dates.{
  Time, MonthBucket, ms_per_day, month_start, month_of, utc, min, get_utc_full_year, split_rest,
  split_into_months,
}
use brsr_v.Shared.Dates.Calendar.{
  month_start_range, month_start_mono, month_of_range, month_of_unique,
}
use brsr_v.Shared.Dates.Fiscal.{utc-full_year}

-- a bucket that is not empty and lies in the month that it names
pub record IsInMonth (b : MonthBucket) : Type 0 where
  pub month_in : (1 ≤ b.month) × (b.month ≤ 12)
  pub ordered : b.start ≤ b.end
  pub start_in : month_of b.start + 1 ≡ 12 * b.year + b.month
  pub end_in : month_of b.end + 1 ≡ 12 * b.year + b.month

-- The buckets follow one another from the start to the end, without a gap and month by month.
pub data Tiles (end : Time) : Time → List MonthBucket → Type 0 where
  last : (b : MonthBucket) → IsInMonth b → b.end ≡ end → Tiles end b.start (b ∷ [])
  next :
      (b : MonthBucket) (bs : List MonthBucket)
      → IsInMonth b
      → month_of (b.end + 1) ≡ suc (month_of b.end)
      → Tiles end (b.end + 1) bs
      → Tiles end b.start (b ∷ bs)

pub month_of-start : (k : ℕ) → month_of (month_start k * ms_per_day) ≡ k
unfolding ms_per_day
month_of-start k =
    month_of_unique (month_start k * ms_per_day) k (omega arith)
      (omega (arith, month_start_range k))

next_month : (k : ℕ) → 100 ≤ k / 12 → utc (k / 12) (k % 12 + 2) 1 ≡ month_start (suc k) * ms_per_day
next_month k h =
    utc-full_year (k / 12) (k % 12 + 2) 1 h
    ∙ ap (λ d. d * ms_per_day)
        (day_one (month_start (12 * (k / 12) + (k % 12 + 2) - 1)) ∙ ap month_start (omega arith))
  where
    day_one : (d : ℕ) → d + 1 - 1 ≡ d
    day_one d = omega arith

split_rest_past : (n cursor end : ℕ) → end < cursor → split_rest n cursor end ≡ []
unfolding split_rest
split_rest_past zero cursor end h = refl
split_rest_past (suc n) cursor end h = rw (gt cursor end h) refl
  where
    gt : (a b : ℕ) → b < a → leb a b ≡ false
    gt a b h = ground arith

-- the bucket of a month from one of its moments on
abbrev bucket : ℕ → Time → Time → MonthBucket
bucket k s end = record {
  start = s;
  end = min (month_start (suc k) * ms_per_day - 1) end;
  year = k / 12;
  month = k % 12 + 1;
}

split_rest-next :
    (n k end : ℕ)
    → 100 ≤ k / 12
    → month_start k * ms_per_day ≤ end
    → split_rest (suc n) (month_start k * ms_per_day) end
      ≡ bucket k (month_start k * ms_per_day) end
        ∷ split_rest n (month_start (suc k) * ms_per_day) end
unfolding split_rest
split_rest-next n k end late h = rw (month_of-start k, next_month' k late, le _ _ h) refl
  where
    le : (a b : ℕ) → a ≤ b → leb a b ≡ true
    le a b h = ground arith

    next_month' :
        (k : ℕ) → 100 ≤ k / 12 → utc (k / 12) (k % 12 + 1 + 1) 1 ≡ month_start (suc k) * ms_per_day
    next_month' k h = ap (λ m. utc (k / 12) m 1) (omega arith) ∙ next_month k h

in_month :
    (k s e : ℕ) → month_of s ≡ k → s ≤ e → e < month_start (suc k) * ms_per_day → month_of e ≡ k
unfolding ms_per_day
in_month k s e h le lt =
    month_of_unique e k (omega (arith, month_of_range s, ap month_start h)) (omega arith)

start_before : (k s : ℕ) → month_of s ≡ k → s < month_start (suc k) * ms_per_day
unfolding ms_per_day
start_before k s h = omega (arith, month_of_range s, ap (λ k. month_start (suc k)) h)

bucket-IsInMonth : (k s end : ℕ) → month_of s ≡ k → s ≤ end → IsInMonth (bucket k s end)
bucket-IsInMonth k s end h le = record {
  month_in = omega arith;
  ordered = inside.0;
  start_in = omega arith;
  end_in = omega (arith, in_month k s (bucket k s end).end h inside.0 inside.1);
}
  where
    before : (a s end : ℕ) → s < a → s ≤ end → (s ≤ min (a - 1) end) × (min (a - 1) end < a)
    before a s end lt le = ground arith

    inside : (s ≤ (bucket k s end).end) × ((bucket k s end).end < month_start (suc k) * ms_per_day)
    inside = before _ s end (start_before k s h) le

bucket-last :
    (n k s end : ℕ)
    → month_of s ≡ k
    → s ≤ end
    → end < month_start (suc k) * ms_per_day
    → Tiles end s (bucket k s end ∷ split_rest n (month_start (suc k) * ms_per_day) end)
bucket-last n k s end h le lt =
    rw (split_rest_past n (month_start (suc k) * ms_per_day) end lt)
      (last (bucket k s end) (bucket-IsInMonth k s end h le) (end_first _ end lt))
  where
    end_first : (a end : ℕ) → end < a → min (a - 1) end ≡ end
    end_first a end h = ground arith

before_end : (k end : ℕ) → month_of end ≤ k → end < month_start (suc k) * ms_per_day
unfolding ms_per_day
before_end k end h =
    omega (arith, month_of_range end, month_start_mono (suc (month_of end)) (suc k) (omega arith))

-- As many rounds as there are months left are enough to reach the end.
bucket-Tiles :
    (n k s end : ℕ)
    → month_of s ≡ k
    → 100 ≤ k / 12
    → s ≤ end
    → month_of end < suc k + n
    → Tiles end s (bucket k s end ∷ split_rest n (month_start (suc k) * ms_per_day) end)
bucket-Tiles zero k s end h late le enough =
    bucket-last zero k s end h le (before_end k end (omega arith))
bucket-Tiles (suc n) k s end h late le enough = elim (order end start') [
  | inl lt ↦ bucket-last (suc n) k s end h le lt
  | inr ge ↦ rw (split_rest-next n (suc k) end (omega arith) ge) (
      next (bucket k s end) _ (bucket-IsInMonth k s end h le)
        (ap month_of (end_next _ end (start_before k s h) ge)
          ∙ month_of-start (suc k)
          ∙ ap suc (
              sym (
                in_month k s _ h (within _ end (start_before k s h) le)
                  (cut _ end (start_before k s h)))))
        (rw (end_next _ end (start_before k s h) ge) (
          bucket-Tiles n (suc k) start' end (month_of-start (suc k)) (omega arith) ge
            (omega arith))))
]
  where
    start' : ℕ
    start' = month_start (suc k) * ms_per_day

    order : (a b : ℕ) → (a < b) ⊎ (b ≤ a)
    order a b = omega arith

    end_next : (a end : ℕ) → s < a → a ≤ end → min (a - 1) end + 1 ≡ a
    end_next a end lt h = ground arith

    within : (a end : ℕ) → s < a → s ≤ end → s ≤ min (a - 1) end
    within a end lt h = ground arith

    cut : (a end : ℕ) → s < a → min (a - 1) end < a
    cut a end lt = ground arith

-- A period from the year 100 on that does not end before it starts is cut, without a gap, into
-- one bucket for each of its months, in their order, which lies in the month that it names.
pub split_into_months-Tiles :
    (start end : Time)
    → 100 ≤ get_utc_full_year start
    → start ≤ end
    → Tiles end start (split_into_months start end)
unfolding split_into_months
split_into_months-Tiles start end late h =
    rw (next_month (month_of start) late)
      (bucket-Tiles (month_of end) (month_of start) start end refl late h (omega arith))
