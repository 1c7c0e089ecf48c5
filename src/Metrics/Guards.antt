-- ===== src/Metrics/Guards.antt =====
-- What the guards of metrics.service.ts say when they do not refuse.
use brsr_v.Prelude.{ℕ, ◌≤◌, ◌≡◌, refl, Bool, true, false, not, ltb, arith}
use brsr_v.Schema.{MetricStatus, draft, submitted, reviewed, approved, rejected, locked}
use brsr_v.Metrics.{is_draft, is_submitted, is_approved}

pub is_draft-inv : (s : MetricStatus) → not (is_draft s) ≡ false → s ≡ draft
is_draft-inv draft h = refl
is_draft-inv submitted h = cc
is_draft-inv reviewed h = cc
is_draft-inv approved h = cc
is_draft-inv rejected h = cc
is_draft-inv locked h = cc

pub is_submitted-inv : (s : MetricStatus) → not (is_submitted s) ≡ false → s ≡ submitted
is_submitted-inv submitted h = refl
is_submitted-inv draft h = cc
is_submitted-inv reviewed h = cc
is_submitted-inv approved h = cc
is_submitted-inv rejected h = cc
is_submitted-inv locked h = cc

pub is_approved-inv : (s : MetricStatus) → not (is_approved s) ≡ false → s ≡ approved
is_approved-inv approved h = refl
is_approved-inv draft h = cc
is_approved-inv submitted h = cc
is_approved-inv reviewed h = cc
is_approved-inv rejected h = cc
is_approved-inv locked h = cc

pub not-inv : (b : Bool) → not b ≡ false → b ≡ true
not-inv true h = refl
not-inv false h = cc

pub ltb-le : (a b : ℕ) → ltb a b ≡ false → b ≤ a
ltb-le a b h = ground arith
