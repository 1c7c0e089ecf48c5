-- ===== src/Calculations/Start.antt =====
-- What calculations.service.ts stores is fit for the evaluator and for the processor of runs.
mod Tests
use mathlib.Core.List.{reverse}
use brsr_v.Prelude.{
  ltb→lt, All, All-map, ==_iff, text_eq, text_eq_iff, is_one_of, ◌<◌, ℕ, ◌≤◌, ◌≡◌, ◌≢◌, refl, sym,
  ap, ◌∙◌, subst, ◌⊎◌, inl, inr, Bool, true, false, not, Option, none, some, List, [], ◌∷◌, ◌++◌,
  Text, ltb, ◌==◌, length, if◌then◌else◌, Bool-cases, Option-cases, arith, take,
}
use brsr_v.Cel.Outcome.{Outcome, CelError, ok, fail}
use brsr_v.Cel.Value.{CelContext, Object}
use brsr_v.Cel.Eval.{validate, evaluate}
use brsr_v.Cel.Eval.Errors.{Evaluates}
use brsr_v.Cel.Eval.Safety.{validate_decides}
use brsr_v.Schema.{CanonicalMetric, FrameworkMapping, CalcRun, EntityNode}
use brsr_v.Platform.{Platform, Number, Db, Answer, Refusal, done, refused, bad_request}
use brsr_v.Platform.Laws.{IsDatabase}
use brsr_v.Audit.{AuditLogInput, audit_row, log}
use brsr_v.Metrics.{unit_allowed}
use brsr_v.Metrics.Guards.{ltb-le}
use brsr_v.Shared.Ltree.Labels.{false_ne_true}
use brsr_v.Calculations.{Formula}
use brsr_v.Calculations.Process.{success}
use brsr_v.Calculations.Run.{Progress, evaluate_all}
use brsr_v.Calculations.Loop.{evaluate_all-total}
use brsr_v.Calculations.Service.{
  listed_or_none, ids_of, count_listed, nodes_of, CreateFormulaDto, RunRequest, is_valid,
  formula_row, formula_entry, store_formula, create_formula, none_refused, scope_of, new_run,
  run_entry, store_run, start_run,
}
use brsr_v.Calculations.Scope.{
  Distinct, occurrences, FindsOnce, full_count, is_full_count, ids_of-Distinct, take-Distinct,
  All-take, length-take_le, Owned, occurs-Owned, Owned-occurs, ids_of-Owned,
}
use brsr_v.Calculations.Validity.{
  unit_allowed-inv, unit_not_allowed, Evaluates-valid, not_valid-fails, listed_or_none-cases,
}
use brsr_v.Calculations.Scoped.{Scoped, nothing_there, wrong, scope, scope_of-Scoped}

module _ (𝓟 : Platform) where
  open 𝓟 use {numbers, get, create, takes}

  -- the log changes no formulas and no runs
  log_calculations :
      (i : AuditLogInput 𝓟) (db : Db 𝓟)
      → ((log 𝓟 i db).mappings ≡ db.mappings) × ((log 𝓟 i db).runs ≡ db.runs)
  unfolding log
  log_calculations i db = elim (Bool-cases (takes (audit_row 𝓟 i))) [
    | inl p ↦ (rw p refl, rw p refl)
    | inr p ↦ (rw p refl, rw p refl)
  ]

  -- A formula that the service has stored, by what its row holds: the registry has its metric and
  -- allows its unit, it is the last of the mappings, and its expression evaluates in any context, to a
  -- value or to an error of evaluation, with no error of the tokenizer or the parser.
  pub record IsFit (db db' : Db 𝓟) (dto : CreateFormulaDto) (row : FrameworkMapping) : Type 0 where
    pub key : Text
    pub expression : Text
    pub unit : Text
    pub inputs : List Text
    pub keys_stored : row.canonical_keys ≡ key ∷ inputs
    pub formula_stored :
        row.formula
        ≡ some (record { expression = some expression; unit = some unit; inputs = some inputs })
    pub as_asked : (key ≡ dto.output_key) × (expression ≡ dto.expression) × (unit ≡ dto.unit)
    pub inputs_asked : (dto.inputs ≡ some inputs) ⊎ ((dto.inputs ≡ none) × (inputs ≡ []))
    pub entry : CanonicalMetric
    pub registered : db.registry key ≡ some entry
    pub unit_is_allowed :
        (entry.canonical_unit ≡ [])
        ⊎ (entry.canonical_unit ≡ unit)
        ⊎ (is_one_of unit entry.allowed_units ≡ true)
    pub appended : db'.mappings ≡ db.mappings ++ row ∷ []
    pub evaluates : (ctx : CelContext (Number 𝓟)) → Evaluates (evaluate numbers expression ctx)

  -- A request to create a formula is refused for one of three reasons and changes nothing, or it stores
  -- one.
  pub data Created (db : Db 𝓟) (dto : CreateFormulaDto)
      : Db 𝓟 × Answer FrameworkMapping → Type 0 where
    not_valid :
        ((ctx : CelContext (Number 𝓟))
          → (e : CelError) × (validate numbers dto.expression ≡ fail e)
            × (evaluate numbers dto.expression ctx ≡ fail e))
        → Created db dto (db, refused bad_request)
    not_registered : db.registry dto.output_key ≡ none → Created db dto (db, refused bad_request)
    not_allowed :
        (entry : CanonicalMetric)
        → db.registry dto.output_key ≡ some entry
        → entry.canonical_unit ≢ []
        → entry.canonical_unit ≢ dto.unit
        → is_one_of dto.unit entry.allowed_units ≡ false
        → Created db dto (db, refused bad_request)
    stored :
        (db' : Db 𝓟) (row : FrameworkMapping)
        → IsFit db db' dto row
        → Created db dto (db', done row)

  store_formula-Created :
      (db : Db 𝓟) (tenant : ℕ) (dto : CreateFormulaDto) (actor id : ℕ) (o : Option CanonicalMetric)
      → db.registry dto.output_key ≡ o
      → is_valid (validate numbers dto.expression) ≡ true
      → Created db dto (store_formula 𝓟 db tenant dto actor id o)
  unfolding store_formula
  store_formula-Created db tenant dto actor id none e v = not_registered e
  store_formula-Created db tenant dto actor id (some reg) e v =
      elim (Bool-cases (unit_allowed reg dto.unit)) [
        | inr u ↦ let (p, q, r) = unit_not_allowed reg dto.unit u in rw u (not_allowed reg e p q r)
        | inl u ↦ rw u (
            stored _ (formula_row 𝓟 id dto) (record {
              key = dto.output_key;
              expression = dto.expression;
              unit = dto.unit;
              inputs = listed_or_none dto.inputs;
              keys_stored = refl;
              formula_stored = refl;
              as_asked = (refl, refl, refl);
              inputs_asked = listed_or_none-cases dto.inputs;
              entry = reg;
              registered = e;
              unit_is_allowed = unit_allowed-inv reg dto.unit u;
              appended =
                  (log_calculations (formula_entry 𝓟 tenant actor id (formula_row 𝓟 id dto))
                    (record db { mappings = db.mappings ++ formula_row 𝓟 id dto ∷ [] })).0;
              evaluates = λ ctx. Evaluates-valid 𝓟 dto.expression ctx v;
            }))
      ]

  -- Creating a formula changes nothing and is refused where the tokenizer or the parser fails on the
  -- expression, as evaluating it then does in any context, the metric is not registered or the unit is
  -- not allowed for it; or it stores, behind the other mappings, a row with the metric, the inputs, the
  -- expression and the unit of the request, where that metric is registered, the registry allows that
  -- unit, and that expression evaluates in any context to a value or to an error of evaluation.
  pub create_formula-Created :
      (db : Db 𝓟) (tenant : ℕ) (dto : CreateFormulaDto) (actor id : ℕ)
      → Created db dto (create_formula 𝓟 db tenant dto actor id)
  unfolding create_formula
  create_formula-Created db tenant dto actor id =
      elim (Bool-cases (is_valid (validate numbers dto.expression))) [
        | inr v ↦ rw v (not_valid λ ctx. not_valid-fails 𝓟 dto.expression ctx v)
        | inl v ↦
            rw v (store_formula-Created db tenant dto actor id (db.registry dto.output_key) refl v)
      ]

  -- A run that the service has stored for a request: its row is there, with the tenant, the period and
  -- the user of the request; its scope nodes, of which there is one at least, are nodes of the tenant's,
  -- none is there twice, and they are the nodes asked for, or at most 50 where none are asked for; its
  -- period is in order, and the processor's loop over any formulas, on any metrics and factors, ends
  -- in a result.
  pub record IsReady (db db' : Db 𝓟) (tenant : ℕ) (dto : RunRequest) (actor id : ℕ)
      (run : CalcRun (Number 𝓟)) : Type 0 where
    pub run_stored : get db'.runs id ≡ some run
    pub of_tenant : run.tenant ≡ tenant
    pub by_actor : run.computed_by ≡ actor
    pub of_period : (run.period_start ≡ dto.period_start) × (run.period_end ≡ dto.period_end)
    pub period_ordered : run.period_start ≤ run.period_end
    pub has_scope : 1 ≤ length run.scope_nodes
    pub owned : All (Owned 𝓟 db tenant) run.scope_nodes
    pub apart : Distinct run.scope_nodes
    pub of_request :
        (run.scope_nodes ≡ dto.scope_nodes)
        ⊎ ((dto.scope_nodes ≡ []) × (length run.scope_nodes ≤ 50))
    pub ends :
        (factors : Object (Number 𝓟)) (now : ℕ) (p : Progress 𝓟) (rs : List Formula)
        → (q : Progress 𝓟) × (evaluate_all 𝓟 id run factors now p (reverse rs) ≡ success q)

  -- A request to start a run is refused for one of three reasons and changes nothing, or it stores one.
  pub data Started (db : Db 𝓟) (tenant : ℕ) (dto : RunRequest) (actor : ℕ)
      : Db 𝓟 × Answer (ℕ × CalcRun (Number 𝓟)) → Type 0 where
    period_reversed :
        dto.period_end < dto.period_start → Started db tenant dto actor (db, refused bad_request)
    no_nodes :
        dto.scope_nodes ≡ []
        → ((id : ℕ) → ¬ Owned 𝓟 db tenant id)
        → Started db tenant dto actor (db, refused bad_request)
    not_owned :
        ¬ (All (Owned 𝓟 db tenant) dto.scope_nodes × Distinct dto.scope_nodes)
        → Started db tenant dto actor (db, refused bad_request)
    ready :
        (db' : Db 𝓟) (id : ℕ) (run : CalcRun (Number 𝓟))
        → IsReady db db' tenant dto actor id run
        → Started db tenant dto actor (db', done (id, run))

  module _ (laws : IsDatabase 𝓟) (db : Db 𝓟) (finds : FindsOnce 𝓟 db.nodes) (tenant : ℕ) where
    store_run-Started :
        (dto : RunRequest) (actor : ℕ) (o : Option (List ℕ))
        → ltb dto.period_end dto.period_start ≡ false
        → Scoped 𝓟 db tenant dto.scope_nodes o
        → Started db tenant dto actor (store_run 𝓟 db tenant dto actor o)
    unfolding store_run
    store_run-Started dto actor none p (nothing_there e h) = no_nodes e h
    store_run-Started dto actor none p (wrong h) = not_owned h
    store_run-Started dto actor (some []) p found = elim found [ ]
    store_run-Started dto actor (some (node ∷ rest)) p (scope node' rest' owned apart asked) =
        let run = new_run 𝓟 tenant dto actor (node ∷ rest) in
        ready _ (create db.runs run).0 run (record {
          run_stored =
              ap (λ t. get t (create db.runs run).0)
                (log_calculations (run_entry 𝓟 tenant actor (create db.runs run).0)
                  (record db { runs = (create db.runs run).1 })).1
              ∙ laws.get-create db.runs run;
          of_tenant = refl;
          by_actor = refl;
          of_period = (refl, refl);
          period_ordered = ltb-le dto.period_end dto.period_start p;
          has_scope = omega arith;
          owned = owned;
          apart = apart;
          of_request = asked;
          ends = λ factors now p rs.
              let (q, a, b) =
                evaluate_all-total 𝓟 (create db.runs run).0 run factors now p rs node rest refl in
              (q, a);
        })

    -- Where the database finds each node that meets a condition, and none twice, starting a run
    -- changes nothing and is refused where the period ends before it starts, where no nodes are asked
    -- for and the tenant has none, or where a node asked for is not one of the tenant's or is named
    -- twice; or it stores one that the processor can take up: its row is found under its id, with the
    -- tenant, the user and the period of the request, the period in order; its scope nodes are one or
    -- more different nodes of the tenant's, those asked for or at most 50 where none are; and the loop
    -- over any sorted formulas, whatever the metrics, the factors and the time, ends with a result and
    -- does not give up.
    pub start_run-Started :
        (dto : RunRequest) (actor : ℕ)
        → Started db tenant dto actor (start_run 𝓟 db tenant dto actor)
    unfolding start_run
    start_run-Started dto actor = elim (Bool-cases (ltb dto.period_end dto.period_start)) [
      | inl p ↦ rw p (period_reversed (ltb→lt dto.period_end dto.period_start p))
      | inr p ↦
          rw p (
            store_run-Started dto actor _ p
              (scope_of-Scoped 𝓟 laws db finds tenant dto.scope_nodes))
    ]
