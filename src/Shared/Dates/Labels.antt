-- ===== src/Shared/Dates/Labels.antt =====
-- The label of a fiscal year (fyFromLabel).
use brsr_v.Prelude.{ℕ, ◌+◌, ◌/◌, ◌%◌, ◌≤◌, ◌≡◌, refl, ap, some, arith}
use brsr_v.Shared.Dates.{
  Time, FiscalYearConfig, fiscal_year, label_year, get_fiscal_year, fy_from_label,
}
use brsr_v.Shared.Dates.Digits.{decimal_four, pad2_lem, digit}

label_year-fy_label :
    (config : FiscalYearConfig) (y : ℕ)
    → 1000 ≤ y
    → y ≤ 9999
    → label_year (fiscal_year config y).fy_label ≡ some y
unfolding label_year fiscal_year
label_year-fy_label config y lo hi =
    rw
      (
        decimal_four y lo hi,
        pad2_lem ((y + 1) % 100) (omega arith),
        digit (y / 1000) (omega arith),
        digit (y / 100 % 10) (omega arith),
        digit (y / 10 % 10) (omega arith),
        digit (y % 10) (omega arith),
        digit ((y + 1) % 100 / 10) (omega arith),
        digit ((y + 1) % 100 % 10) (omega arith),
      )
      (ap some (omega arith))

-- `fy_from_label` gives back the fiscal year of a date from its label, where that year starts in the
-- years 1000 to 9999.
pub fy_from_label-get_fiscal_year :
    (config : FiscalYearConfig) (d : Time)
    → 1000 ≤ (get_fiscal_year config d).year
    → (get_fiscal_year config d).year ≤ 9999
    → fy_from_label (get_fiscal_year config d).fy_label config ≡ some (get_fiscal_year config d)
unfolding fy_from_label get_fiscal_year fiscal_year
fy_from_label-get_fiscal_year config d lo hi = rw (label_year-fy_label config _ lo hi) refl
