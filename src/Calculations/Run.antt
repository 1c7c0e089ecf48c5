-- ===== src/Calculations/Run.antt =====
-- `CalculationProcessor.process` of calculation.processor.ts: the loop over the sorted formulas and
-- the rows that it writes.
use brsr_v.Prelude.{
  ℕ, Bool, true, false, ◌&&◌, Option, none, some, List, [], ◌∷◌, ◌++◌, Text, codes, is_one_of, leb,
  ◌==◌, if◌then◌else◌,
}
use mathlib.Core.List.{reverse}
use brsr_v.Cel.Decimal.{Decimal}
use brsr_v.Cel.Value.{Object}
use brsr_v.Cel.Eval.{Found, found, find}
use brsr_v.Schema.{Event, CalcRun, EmissionFactor, approved, calculation}
use brsr_v.Platform.{Platform, Number, Db}
use brsr_v.Calculations.{Formula, Sorted, sorted, cycle_at, out_of_fuel, topo_sort}
use brsr_v.Calculations.Process.{
  Failure, Attempt, Input, success, failure, formula_cycle, no_scope_node, quantity, with_entry,
  no_entries, aggregate, computed, mapped_formulas, with_builtin, required_keys, in_keys,
  node_among, is_final, period_days,
}

module _ (𝓟 : Platform) where
  open 𝓟 use {Rows, get, put, create, many, json_object, numbers}

  -- the last formula that had a value, and the value
  pub record Output : Type 0 where
    pub formula : Formula
    pub value : Number 𝓟

  -- the variables of the loop
  pub record Progress : Type 0 where
    pub db : Db 𝓟
    pub metrics : Object (Number 𝓟)
    pub last : Option Output
    pub used_inputs : List Text
    pub used_factors : List Text

  abbrev pub is_found : Found (Number 𝓟) → Bool
  is_found (found v) = true
  is_found _ = false

  -- `set.add(key)`
  abbrev pub add_key : Text → List Text → List Text
  add_key k ks = if is_one_of k ks then ks else ks ++ k ∷ []

  -- the keys of the inputs that the metrics have, else the factors
  unfoldable pub note_inputs :
      Object (Number 𝓟)
      → Object (Number 𝓟)
      → List Text
      → List Text × List Text
      → List Text × List Text
  unfolding find is_one_of
  note_inputs metrics factors [] used = used
  note_inputs metrics factors (k ∷ ks) (inputs, others) = note_inputs metrics factors ks (
      if is_found (find metrics k)
      then (add_key k inputs, others)
      else if is_found (find factors k)
      then (inputs, add_key k others)
      else (inputs, others))

  abbrev pub output_event : ℕ → CalcRun (Number 𝓟) → ℕ → ℕ → Formula → Number 𝓟 → Event (Number 𝓟)
  output_event run_id run node now f value = record {
    tenant = run.tenant;
    scope_node = node;
    canonical_key = f.output_key;
    period_start = run.period_start;
    period_end = run.period_end;
    value = value;
    unit = f.unit;
    dimensions = json_object ((codes "formulaVersion", f.version) ∷ (codes "formulaId", f.id) ∷ []);
    source_type = calculation;
    source_extraction = none;
    source_calc_run = some run_id;
    status = approved;
    submitted_by = run.computed_by;
    submitted_at = now;
    approved_by = none;
    approved_at = none;
    comment = none;
  }

  module _ (run_id : ℕ) (run : CalcRun (Number 𝓟)) (factors : Object (Number 𝓟)) (now : ℕ) where
    abbrev pub record_output : Progress → Formula → Number 𝓟 → ℕ → Progress
    record_output p f value node =
        let metrics = with_entry numbers p.metrics f.output_key (quantity numbers value f.unit) in
        let (inputs, others) =
          note_inputs metrics factors f.inputs (p.used_inputs, p.used_factors) in
        record {
          db = record p.db {
            events = (create p.db.events (output_event run_id run node now f value)).1;
          };
          metrics = metrics;
          last = some (record { formula = f; value = value });
          used_inputs = inputs;
          used_factors = others;
        }

    -- a value is stored at the run's first scope node
    abbrev pub store_output : Progress → Formula → Number 𝓟 → List ℕ → Attempt Progress
    store_output p f value [] = failure no_scope_node
    store_output p f value (node ∷ nodes) = success (record_output p f value node)

    abbrev pub finish_formula : Progress → Formula → Option (Number 𝓟) → Attempt Progress
    finish_formula p f none = success p
    finish_formula p f (some value) = store_output p f value run.scope_nodes

    unfoldable pub step : Progress → Formula → Attempt Progress
    unfolding computed
    step p f =
        finish_formula p f (
          computed numbers (some factors) (period_days run.period_start run.period_end) p.metrics f)

    abbrev pub then_run : Attempt Progress → (Progress → Attempt Progress) → Attempt Progress
    then_run (success p) k = k p
    then_run (failure e) k = failure e

    unfoldable pub evaluate_all : Progress → List Formula → Attempt Progress
    unfolding step
    evaluate_all p [] = success p
    evaluate_all p (f ∷ fs) = then_run (step p f) λ p'. evaluate_all p' fs

  abbrev pub is_for : ℕ → Option ℕ → Bool
  is_for tenant none = true
  is_for tenant (some t) = t == tenant

  unfoldable pub factor_entries :
      ℕ → Object (Number 𝓟) → List (EmissionFactor (Number 𝓟)) → Object (Number 𝓟)
  factor_entries tenant o [] = o
  factor_entries tenant o (f ∷ fs) =
      factor_entries tenant
        (if is_for tenant f.tenant
          then with_entry numbers o f.activity_type (quantity numbers f.value f.unit)
          else o)
        fs

  -- whether an event is an input of a run
  abbrev pub is_input : CalcRun (Number 𝓟) → List Text → Event (Number 𝓟) → Bool
  is_input run keys e =
      e.tenant == run.tenant
      && in_keys keys e.canonical_key
      && node_among e.scope_node run.scope_nodes
      && leb run.period_start e.period_start
      && leb e.period_end run.period_end
      && is_final e.status

  unfoldable pub as_inputs : List (ℕ × Event (Number 𝓟)) → List (Input numbers)
  as_inputs [] = []
  as_inputs ((id, e) ∷ es) =
      record { key = e.canonical_key; value = e.value; unit = e.unit } ∷ as_inputs es

  -- the run's row behind the loop
  abbrev pub completed : CalcRun (Number 𝓟) → Progress → ℕ → Option Output → CalcRun (Number 𝓟)
  completed run p duration none = record run {
    formula_version = codes "none";
    output_value = Decimal.of_nat numbers 0;
    output_unit = [];
    input_metrics = p.used_inputs;
    factor_ids = p.used_factors;
    duration = duration;
  }
  completed run p duration (some o) = record run {
    formula_version = o.formula.id;
    output_key = o.formula.output_key;
    output_value = o.value;
    output_unit = o.formula.unit;
    input_metrics = p.used_inputs;
    factor_ids = p.used_factors;
    duration = duration;
  }

  pub data RunEnd : Type 0 where
    completed_run no_such_run timed_out : RunEnd
    gave_up : Failure → RunEnd

  -- a run that is given up keeps the time that it took
  abbrev pub give_up : Db 𝓟 → ℕ → CalcRun (Number 𝓟) → ℕ → Failure → Db 𝓟 × RunEnd
  give_up db run_id run duration e =
      (record db { runs = put db.runs run_id (record run { duration = duration }) }, gave_up e)

  abbrev pub finish_run : Db 𝓟 → ℕ → CalcRun (Number 𝓟) → ℕ → Attempt Progress → Db 𝓟 × RunEnd
  finish_run db run_id run duration (failure e) = give_up db run_id run duration e
  finish_run db run_id run duration (success p) =
      (record p.db { runs = put p.db.runs run_id (completed run p duration p.last) }, completed_run)

  abbrev pub evaluate_run :
      Db 𝓟
      → ℕ
      → CalcRun (Number 𝓟)
      → ℕ
      → ℕ
      → List Formula
      → Attempt (Object (Number 𝓟))
      → Db 𝓟 × RunEnd
  evaluate_run db run_id run now duration ordered (failure e) = give_up db run_id run duration e
  evaluate_run db run_id run now duration ordered (success metrics) =
      finish_run db run_id run duration (
        evaluate_all run_id run (factor_entries run.tenant (no_entries numbers) db.factors) now
          (record { db = db; metrics = metrics; last = none; used_inputs = []; used_factors = [] })
          ordered)

  -- the inputs of the run, added up
  abbrev pub run_inputs : Db 𝓟 → CalcRun (Number 𝓟) → List Formula → Attempt (Object (Number 𝓟))
  run_inputs db run fs =
      aggregate numbers (no_entries numbers)
        (as_inputs (many db.events (is_input run (required_keys fs))))

  abbrev pub sorted_run :
      Db 𝓟 → ℕ → CalcRun (Number 𝓟) → ℕ → ℕ → List Formula → Sorted → Db 𝓟 × RunEnd
  sorted_run db run_id run now duration fs (sorted rs) =
      evaluate_run db run_id run now duration (reverse rs) (run_inputs db run fs)
  sorted_run db run_id run now duration fs (cycle_at key) =
      give_up db run_id run duration (formula_cycle key)
  sorted_run db run_id run now duration fs out_of_fuel = (db, timed_out)

  unfoldable pub run_formulas : Db 𝓟 → List Text → List Formula
  unfolding mapped_formulas with_builtin
  run_formulas db keys = with_builtin keys (mapped_formulas keys db.mappings)

  abbrev pub process_run :
      Db 𝓟 → ℕ → ℕ → List Text → ℕ → ℕ → Option (CalcRun (Number 𝓟)) → Db 𝓟 × RunEnd
  process_run db run_id tenant keys now duration none = (db, no_such_run)
  process_run db run_id tenant keys now duration (some run) =
      if run.tenant == tenant
      then sorted_run db run_id run now duration (run_formulas db keys)
          (topo_sort (run_formulas db keys))
      else (db, no_such_run)

  -- `now` is the database's clock, `duration` the time that the run takes.
  unfoldable pub process : Db 𝓟 → ℕ → ℕ → List Text → ℕ → ℕ → Db 𝓟 × RunEnd
  unfolding aggregate as_inputs required_keys evaluate_all factor_entries run_formulas topo_sort
  process db run_id tenant keys now duration =
      process_run db run_id tenant keys now duration (get db.runs run_id)
