-- ===== src/Calculations/Process.antt =====
-- What the processor of calculation.processor.ts does with a run: the formulas of the framework
-- mappings are sorted, the approved metric events of the run's scope and period are added up, and
-- every formula that has a value becomes an approved event.
use brsr_v.Prelude.{
  ℕ, ◌+◌, ◌-◌, ◌*◌, ◌/◌, Bool, true, false, not, ◌&&◌, ◌||◌, Option, none, some, List, [], ◌∷◌,
  ◌++◌, Text, text_eq, codes, is_one_of, ltb, ◌==◌, if◌then◌else◌,
}
use brsr_v.Cel.Decimal.{Decimal}
use brsr_v.Cel.Outcome.{Outcome, ok, fail, out_of_fuel}
use brsr_v.Cel.Value.{Value, CelValue, Object, dec, unit_eq}
use brsr_v.Cel.Eval.{Found, found, find, evaluate}
use brsr_v.Schema.{MetricStatus, FrameworkMapping, FormulaJson, approved, locked}
use brsr_v.Calculations.{Formula, has_key}

-- `if (text)` on a text
abbrev pub is_empty : Text → Bool
is_empty [] = true
is_empty (c ∷ s) = false

abbrev pub text_or_empty : Option Text → Text
text_or_empty none = []
text_or_empty (some s) = s

abbrev pub first_key : List Text → Text
first_key [] = []
first_key (k ∷ ks) = k

abbrev pub listed : Option (List Text) → List Text
listed none = []
listed (some ks) = ks

abbrev pub has_some : List Text → List Text → Bool
has_some [] wanted = false
has_some (k ∷ ks) wanted = is_one_of k wanted || has_some ks wanted

-- a mapping as a formula, if it has an expression and a key
abbrev pub as_formula : FrameworkMapping → Option FormulaJson → Option Formula
as_formula m none = none
as_formula m (some f) =
    if is_empty (text_or_empty f.expression) || is_empty (first_key m.canonical_keys)
    then none
    else some (record {
      id = m.id;
      output_key = first_key m.canonical_keys;
      expression = text_or_empty f.expression;
      unit = text_or_empty f.unit;
      inputs = listed f.inputs;
      version = m.version;
    })

abbrev pub kept_formula : Option Formula → List Formula → List Formula
kept_formula none fs = fs
kept_formula (some f) fs = f ∷ fs

abbrev pub requested : List Text → FrameworkMapping → Bool
requested [] m = true
requested (k ∷ ks) m = has_some m.canonical_keys (k ∷ ks)

unfoldable pub mapped_formulas : List Text → List FrameworkMapping → List Formula
unfolding is_one_of
mapped_formulas keys [] = []
mapped_formulas keys (m ∷ ms) =
    let rest = mapped_formulas keys ms in
    if requested keys m then kept_formula (as_formula m m.formula) rest else rest

-- India CEA grid factor: the fallback for scope 2 by location
abbrev pub builtin_scope2 : Formula
builtin_scope2 = record {
  id = codes "builtin:scope2_location_from_electricity";
  output_key = codes "ghg_scope2_location";
  expression = codes "purchased_electricity_kwh * 0.000716";
  unit = codes "tCO2e";
  inputs = codes "purchased_electricity_kwh" ∷ [];
  version = codes "builtin-v1";
}

abbrev pub wants_scope2 : List Text → Bool
wants_scope2 [] = true
wants_scope2 (k ∷ ks) = is_one_of (codes "ghg_scope2_location") (k ∷ ks)

unfoldable pub with_builtin : List Text → List Formula → List Formula
unfolding is_one_of has_key
with_builtin keys fs =
    if wants_scope2 keys && not (has_key (codes "ghg_scope2_location") fs)
    then fs ++ builtin_scope2 ∷ []
    else fs

-- `new Set` of the inputs of all formulas; a set that is empty restricts nothing
unfoldable pub required_keys : List Formula → List Text
required_keys [] = []
required_keys (f ∷ fs) = f.inputs ++ required_keys fs

abbrev pub in_keys : List Text → Text → Bool
in_keys [] key = true
in_keys (k ∷ ks) key = is_one_of key (k ∷ ks)

unfoldable pub node_among : ℕ → List ℕ → Bool
node_among n [] = false
node_among n (m ∷ ms) = n == m || node_among n ms

abbrev pub is_final : MetricStatus → Bool
is_final approved = true
is_final locked = true
is_final _ = false

abbrev pub day : ℕ
day = 86400000

-- `Math.max(1, Math.round((end - start) / day))`
abbrev pub period_days : ℕ → ℕ → ℕ
period_days start end =
    let rounded = ((end - start) * 2 + day) / (2 * day) in if ltb rounded 1 then 1 else rounded

-- Why a run is given up: formulas that depend on themselves, units that differ, or a run without a
-- scope node, whose first output the database does not take.
pub data Failure : Type 0 where
  formula_cycle : Text → Failure
  unit_mismatch : Text → Failure
  no_scope_node : Failure

pub data Attempt {ℓ} (A : Type ℓ) : Type ℓ where
  success : A → Attempt A
  failure : Failure → Attempt A

module _ (𝓓 : Decimal) where
  open 𝓓 use {D, of_nat, plus}

  abbrev pub quantity : D → Text → CelValue D
  quantity d u = record { value = dec d; unit = some u }

  -- `object[key] = value`
  abbrev pub with_entry : Object D → Text → CelValue D → Object D
  with_entry o key v = λ name. if text_eq key name then some (some v) else o name

  abbrev pub no_entries : Object D
  no_entries = λ name. none

  -- what a metric event contributes
  pub record Input : Type 0 where
    pub key : Text
    pub value : D
    pub unit : Text

  abbrev pub number_of : Value D → D
  number_of (dec d) = d
  number_of _ = of_nat 0

  abbrev pub added : Object D → Input → Found D → Attempt (Object D)
  added o m (found v) =
      if unit_eq v.unit (some m.unit)
      then success (
          with_entry o m.key
            (record { value = dec (plus (number_of v.value) m.value); unit = v.unit }))
      else failure (unit_mismatch m.key)
  added o m _ = success (with_entry o m.key (quantity (plus (of_nat 0) m.value) m.unit))

  abbrev pub then_aggregate :
      Attempt (Object D) → (Object D → Attempt (Object D)) → Attempt (Object D)
  then_aggregate (success o) k = k o
  then_aggregate (failure e) k = failure e

  -- the loop that adds equal keys up and refuses to mix units
  unfoldable pub aggregate : Object D → List Input → Attempt (Object D)
  unfolding find unit_eq text_eq
  aggregate o [] = success o
  aggregate o (m ∷ ms) = then_aggregate (added o m (find o m.key)) λ o'. aggregate o' ms

  abbrev pub numeric : Outcome (CelValue D) → Option D
  numeric (ok v) = elim v.value [ dec d ↦ some d | _ ↦ none ]
  numeric (fail e) = none
  numeric out_of_fuel = none

  -- the value of a formula, or none where it fails or gives no number
  unfoldable pub computed : Option (Object D) → ℕ → Object D → Formula → Option D
  unfolding evaluate
  computed factors days metrics f = numeric (
      evaluate 𝓓 f.expression
        (record { metrics = metrics; factors = factors; period_days = some days }))

  -- the metrics once the formula has been evaluated
  abbrev pub entered : Object D → Formula → Option D → Object D
  entered metrics f none = metrics
  entered metrics f (some d) = with_entry metrics f.output_key (quantity d f.unit)
