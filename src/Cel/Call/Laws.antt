-- ===== src/Cel/Call/Laws.antt =====
-- The aggregate functions of formulas (`evalCall` of cel-evaluator.ts): when they give a value,
-- and which.
use mathlib.Core.Path.{ap₂}
use mathlib.Core.List.{foldl}
use brsr_v.Prelude.{
  ◌≡◌, refl, sym, ap, ◌∙◌, ◌↔◌, Bool, true, false, Option, none, some, List, [], ◌∷◌, map, Text,
  text_eq_iff, if◌then◌else◌,
}
use brsr_v.Cel.Decimal.{Decimal}
use brsr_v.Cel.Outcome.{
  returned-inv, CelError, Outcome, ok, fail, requires_numbers, call_unit_mismatch, ◌>>=◌,
}
use brsr_v.Cel.Value.{Value, CelValue, dec, null, unit_eq}
use brsr_v.Cel.Call.{number, total, eval_sum}

pub unit_eq_iff : (u v : Option Text) → (unit_eq u v ≡ true) ↔ (u ≡ v)
unfolding unit_eq
unit_eq_iff none none = (λ _. refl, λ _. refl)
unit_eq_iff none (some v) = (λ h. cc, λ h. cc)
unit_eq_iff (some u) none = (λ h. cc, λ h. cc)
unit_eq_iff (some u) (some v) =
    (λ h. ap some ((text_eq_iff u v).0 h), λ h. (text_eq_iff u v).1 (cc))

if-inv :
    {A : Type 0} (b : Bool) (x : Outcome A) (e : CelError) {a : A}
    → (if b then x else fail e) ≡ ok a
    → (b ≡ true) × (x ≡ ok a)
if-inv true x e h = (refl, h)
if-inv false x e h = cc

ok-injective : {A : Type 0} {a b : A} → ok a ≡ ok b → a ≡ b
ok-injective h = cc

module _ (𝓓 : Decimal) where
  open 𝓓 use {D, of_nat, plus, cmp}

  number-inv :
      {A : Type 0} (v : Value D) (e : CelError) (f : D → Outcome A) {a : A}
      → number 𝓓 v (fail e) f ≡ ok a
      → (d : D) × (v ≡ dec d) × (f d ≡ ok a)
  number-inv (dec d) e f h = (d, refl, h)
  number-inv null e f h = cc
  number-inv _ e f h = cc

  -- the numbers `ds`, each in the unit `u`
  abbrev pub quantity : Option Text → D → CelValue D
  quantity u d = record { value = dec d; unit = u }

  abbrev pub quantities : Option Text → List D → List (CelValue D)
  quantities u = map (quantity u)

  quantity-eq :
      (v : CelValue D) {u : Option Text} {d : D} → v.value ≡ dec d → v.unit ≡ u → v ≡ quantity u d
  quantity-eq v p q = λ i. record { value = p i; unit = q i }

  total-quantities :
      (u : Option Text) (acc : D) (ds : List D)
      → total 𝓓 u acc (quantities u ds) ≡ ok (foldl plus acc ds)
  unfolding total
  total-quantities u acc [] = refl
  total-quantities u acc (d ∷ ds) =
      rw ((unit_eq_iff u u).1 refl) (total-quantities u (plus acc d) ds)

  -- A sum that ends in a value was over numbers of one unit.
  total-inv :
      (u : Option Text) (acc : D) (vs : List (CelValue D)) {t : D}
      → total 𝓓 u acc vs ≡ ok t
      → (ds : List D) × (vs ≡ quantities u ds)
  unfolding total
  total-inv u acc [] h = ([], refl)
  total-inv u acc (v ∷ vs) h =
      let (d, e, k) = number-inv v.value requires_numbers _ h in
      let (same_unit, k') = if-inv (unit_eq v.unit u) _ call_unit_mismatch k in
      let (ds, rest) = total-inv u (plus acc d) vs k' in
      (d ∷ ds, ap₂ ◌∷◌ (quantity-eq v e ((unit_eq_iff _ _).0 same_unit)) rest)

  -- The sum of arguments has a value exactly if all are numbers in the unit of the first; the value
  -- is then their sum from zero, in that unit.
  pub eval_sum-eq-ok_iff :
      (v : CelValue D) (vs : List (CelValue D)) (r : CelValue D)
      → (eval_sum 𝓓 (v ∷ vs) ≡ ok r) ↔ (
          (ds : List D) × (v ∷ vs ≡ quantities v.unit ds)
          × (r ≡ quantity v.unit (foldl plus (of_nat 0) ds)))
  unfolding eval_sum
  eval_sum-eq-ok_iff v vs r = (
    λ h.
        let (t, k, e) = returned-inv (total 𝓓 v.unit (of_nat 0) (v ∷ vs)) _ h in
        let (ds, q) = total-inv v.unit (of_nat 0) (v ∷ vs) k in
        (
          ds,
          q,
          ok-injective (sym e)
              ∙ ap (quantity v.unit) (
                  ok-injective (
                    sym k
                    ∙ ap (total 𝓓 v.unit (of_nat 0)) q
                    ∙ total-quantities v.unit (of_nat 0) ds)),
        ),
    λ (ds, q, e). rw e (
        ap (λ t. t >>= λ s. ok (quantity v.unit s))
          (ap (total 𝓓 v.unit (of_nat 0)) q ∙ total-quantities v.unit (of_nat 0) ds)),
  )
