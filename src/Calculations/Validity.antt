-- ===== src/Calculations/Validity.antt =====
-- The tests that `createFormula` makes of a request.
use brsr_v.Prelude.{
  text_eq, text_eq_iff, is_one_of, ◌≡◌, ◌≢◌, refl, sym, ◌∙◌, ◌⊎◌, inl, inr, true, false, Option,
  none, some, List, [], Text, Bool-cases,
}
use brsr_v.Cel.Outcome.{CelError, fail}
use brsr_v.Cel.Value.{CelContext}
use brsr_v.Cel.Eval.{validate, evaluate}
use brsr_v.Cel.Eval.Errors.{Evaluates}
use brsr_v.Cel.Eval.Safety.{validate_decides}
use brsr_v.Schema.{CanonicalMetric}
use brsr_v.Platform.{Platform, Number}
use brsr_v.Metrics.{unit_allowed}
use brsr_v.Shared.Ltree.Labels.{false_ne_true}
use brsr_v.Calculations.Service.{listed_or_none, is_valid}

pub unit_allowed-inv :
    (reg : CanonicalMetric) (unit : Text)
    → unit_allowed reg unit ≡ true
    → (reg.canonical_unit ≡ [])
      ⊎ (reg.canonical_unit ≡ unit)
      ⊎ (is_one_of unit reg.allowed_units ≡ true)
unfolding unit_allowed
unit_allowed-inv reg unit h = elim (Bool-cases (text_eq reg.canonical_unit [])) [
  | inl p ↦ inl ((text_eq_iff _ _).0 p)
  | inr p ↦ elim (Bool-cases (text_eq reg.canonical_unit unit)) [
    | inl q ↦ inr (inl ((text_eq_iff _ _).0 q))
    | inr q ↦ inr (inr (rw (p, q) at h))
  ]
]

pub unit_not_allowed :
    (reg : CanonicalMetric) (unit : Text)
    → unit_allowed reg unit ≡ false
    → (reg.canonical_unit ≢ [])
      × (reg.canonical_unit ≢ unit)
      × (is_one_of unit reg.allowed_units ≡ false)
unfolding unit_allowed
unit_not_allowed reg unit h = elim (Bool-cases (text_eq reg.canonical_unit [])) [
  | inl p ↦ absurd (false_ne_true (sym (rw p at h)))
  | inr p ↦ elim (Bool-cases (text_eq reg.canonical_unit unit)) [
    | inl q ↦ absurd (false_ne_true (sym (rw (p, q) at h)))
    | inr q ↦ (
      λ e. false_ne_true (sym p ∙ (text_eq_iff _ _).1 e),
      λ e. false_ne_true (sym q ∙ (text_eq_iff _ _).1 e),
      rw (p, q) at h,
    )
  ]
]

pub listed_or_none-cases :
    (o : Option (List Text))
    → (o ≡ some (listed_or_none o)) ⊎ ((o ≡ none) × (listed_or_none o ≡ []))
listed_or_none-cases none = inr (refl, refl)
listed_or_none-cases (some ks) = inl refl

module _ (𝓟 : Platform) where
  open 𝓟 use {numbers}

  pub Evaluates-valid :
      (s : Text) (ctx : CelContext (Number 𝓟))
      → is_valid (validate numbers s) ≡ true
      → Evaluates (evaluate numbers s ctx)
  Evaluates-valid s ctx h = elim (validate_decides numbers s ctx) [
    | inl p ↦ p.1
    | inr (e, p, q) ↦ absurd (false_ne_true (rw p at h))
  ]

  pub not_valid-fails :
      (s : Text) (ctx : CelContext (Number 𝓟))
      → is_valid (validate numbers s) ≡ false
      → (e : CelError) × (validate numbers s ≡ fail e) × (evaluate numbers s ctx ≡ fail e)
  not_valid-fails s ctx h = elim (validate_decides numbers s ctx) [
    | inl p ↦ absurd (false_ne_true (sym (rw p.0 at h)))
    | inr q ↦ q
  ]
