-- ===== src/Cel/Call.antt =====
-- `evalCall`: the functions that a formula may call.
pub mod Laws
pub mod Extremes
use brsr_v.Prelude.{
  ℕ, zero, suc, Bool, true, false, not, Option, none, some, List, [], ◌∷◌, Text, text_eq, codes,
  if◌then◌else◌, length,
}
use brsr_v.Cel.Decimal.{Decimal, Sign, less, more}
use brsr_v.Cel.Outcome.{
  Outcome, ok, fail, out_of_fuel, function_not_allowed, requires_numbers, requires_args,
  call_unit_mismatch, ratio_arity, ratio_needs_numbers, ratio_by_zero, abs_needs_number,
  round_needs_number, round_places, use_bare_reference, ◌>>=◌,
}
use brsr_v.Cel.Value.{Value, CelValue, dec, str, bool, null, undefined, plain, unit_eq, combine_div}

-- the names in `FUNCTIONS`
pub data Function : Type 0 where
  sum avg min max ratio abs round coalesce factor metric : Function

unfoldable pub function_of : Text → Option Function
unfolding text_eq
function_of s =
    if text_eq s (codes "sum")
    then some sum
    else if text_eq s (codes "avg")
    then some avg
    else if text_eq s (codes "min")
    then some min
    else if text_eq s (codes "max")
    then some max
    else if text_eq s (codes "ratio")
    then some ratio
    else if text_eq s (codes "abs")
    then some abs
    else if text_eq s (codes "round")
    then some round
    else if text_eq s (codes "coalesce")
    then some coalesce
    else if text_eq s (codes "factor")
    then some factor
    else if text_eq s (codes "metric")
    then some metric
    else none

module _ (𝓓 : Decimal) where
  open 𝓓 use {D, of_nat, plus, div, cmp, is_zero, to_places, abs as magnitude}

  abbrev pub number : {A : Type 0} → Value D → Outcome A → (D → Outcome A) → Outcome A
  number (dec d) other f = f d
  number _ other f = other

  -- the loop of sum and avg
  unfoldable pub total : Option Text → D → List (CelValue D) → Outcome D
  unfolding unit_eq
  total unit acc [] = ok acc
  total unit acc (a ∷ as') = number a.value (fail requires_numbers) λ d.
      let rest = total unit (plus acc d) as' in
      if unit_eq a.unit unit then rest else fail call_unit_mismatch

  abbrev pub first_unit : List (CelValue D) → Option Text
  first_unit [] = none
  first_unit (a ∷ as') = a.unit

  -- the loop of min and max; `better` is the test on the sign of `a.value.cmp(best)`
  unfoldable pub best : (Sign → Bool) → Option Text → D → List (CelValue D) → Outcome D
  unfolding unit_eq
  best better unit top [] = ok top
  best better unit top (a ∷ as') = number a.value (fail requires_numbers) λ d.
      let rest = best better unit (if better (cmp d top) then d else top) as' in
      if unit_eq a.unit unit then rest else fail call_unit_mismatch

  abbrev pub is_less : Sign → Bool
  is_less less = true
  is_less _ = false

  abbrev pub is_more : Sign → Bool
  is_more more = true
  is_more _ = false

  unfoldable pub eval_sum : List (CelValue D) → Outcome (CelValue D)
  unfolding total
  eval_sum [] = ok (plain (dec (of_nat 0)))
  eval_sum (a ∷ as') =
      total a.unit (of_nat 0) (a ∷ as') >>= λ t. ok (record { value = dec t; unit = a.unit })

  unfoldable pub eval_avg : List (CelValue D) → Outcome (CelValue D)
  unfolding total
  eval_avg [] = ok (plain (dec (of_nat 0)))
  eval_avg (a ∷ as') = total a.unit (of_nat 0) (a ∷ as') >>= λ t.
      ok (record { value = dec (div t (of_nat (length (a ∷ as')))); unit = a.unit })

  -- a first argument that is no number is refused by the first round of the loop
  unfoldable pub eval_best : (Sign → Bool) → List (CelValue D) → Outcome (CelValue D)
  unfolding best
  eval_best better [] = fail requires_args
  eval_best better (a ∷ as') =
      number a.value (fail requires_numbers)
        λ d. best better a.unit d (a ∷ as') >>= λ t. ok (record { value = dec t; unit = a.unit })

  unfoldable pub eval_ratio : List (CelValue D) → Outcome (CelValue D)
  unfolding combine_div
  eval_ratio (n ∷ d ∷ []) = number n.value (fail ratio_needs_numbers) λ x.
      number d.value (fail ratio_needs_numbers) λ y.
        if is_zero y
        then fail ratio_by_zero
        else ok (record { value = dec (div x y); unit = combine_div n.unit d.unit })
  eval_ratio _ = fail ratio_arity

  unfoldable pub eval_abs : List (CelValue D) → Outcome (CelValue D)
  eval_abs [] = fail abs_needs_number
  eval_abs (a ∷ as') =
      number a.value (fail abs_needs_number)
        λ d. ok (record { value = dec (magnitude d); unit = a.unit })

  abbrev pub places : List (CelValue D) → Option D
  places [] = none
  places (dp ∷ as') = elim dp.value [ dec n ↦ some n | _ ↦ none ]

  abbrev pub rounded : Option Text → Option D → Outcome (CelValue D)
  rounded unit none = fail round_places
  rounded unit (some d) = ok (record { value = dec d; unit = unit })

  unfoldable pub eval_round : List (CelValue D) → Outcome (CelValue D)
  eval_round [] = fail round_needs_number
  eval_round (a ∷ as') =
      number a.value (fail round_needs_number) λ d. rounded a.unit (to_places d (places as'))

  abbrev pub is_nullish : Value D → Bool
  is_nullish null = true
  is_nullish undefined = true
  is_nullish _ = false

  unfoldable pub coalesced : List (CelValue D) → CelValue D
  coalesced [] = plain null
  coalesced (a ∷ as') = let rest = coalesced as' in if is_nullish a.value then rest else a

  abbrev pub apply_function : Function → List (CelValue D) → Outcome (CelValue D)
  apply_function sum as' = eval_sum as'
  apply_function avg as' = eval_avg as'
  apply_function min as' = eval_best is_less as'
  apply_function max as' = eval_best is_more as'
  apply_function ratio as' = eval_ratio as'
  apply_function abs as' = eval_abs as'
  apply_function round as' = eval_round as'
  apply_function coalesce as' = ok (coalesced as')
  apply_function factor as' = fail use_bare_reference
  apply_function metric as' = fail use_bare_reference

  abbrev pub call_or_refuse : Text → Option Function → List (CelValue D) → Outcome (CelValue D)
  call_or_refuse name none as' = fail (function_not_allowed name)
  call_or_refuse name (some f) as' = apply_function f as'

  unfoldable pub eval_call : Text → List (CelValue D) → Outcome (CelValue D)
  unfolding function_of eval_sum eval_avg eval_best eval_ratio eval_abs eval_round coalesced
  eval_call name as' = call_or_refuse name (function_of name) as'
