-- ===== src/Calculations/Service.antt =====
-- Formulas and runs as users ask for them: `CalculationsService`
-- (services/api/src/calculations/calculations.service.ts). The queue is a service: a request to start
-- a run answers with the run, which the processor takes up later. `now` is the time that it reads.
use brsr_v.Prelude.{
  ℕ, suc, Bool, true, false, not, ◌||◌, Option, none, some, List, [], ◌∷◌, ◌++◌, Text, codes, ltb,
  ◌==◌, if◌then◌else◌, length, take,
}
use brsr_v.Cel.Decimal.{Decimal}
use brsr_v.Cel.Outcome.{Outcome, ok, fail, out_of_fuel}
use brsr_v.Cel.Eval.{validate}
use brsr_v.Schema.{CanonicalMetric, FrameworkMapping, mapping_data, CalcRun, EntityNode}
use brsr_v.Platform.{Platform, Number, Db, Answer, bad_request, done, refused}
use brsr_v.Audit.{AuditLogInput, log}
use brsr_v.Metrics.{unit_allowed, or_else}

-- `CreateFormulaDto`, without the columns that no run reads
pub record CreateFormulaDto : Type 0 where
  pub output_key : Text
  pub expression : Text
  pub unit : Text
  pub version : Option Text
  pub inputs : Option (List Text)

-- `ScopeWindowDto`, and `outputKeys` of `CalcRunRequestDto`
pub record RunRequest : Type 0 where
  pub period_start : ℕ
  pub period_end : ℕ
  pub scope_nodes : List ℕ
  pub output_keys : List Text

abbrev pub is_valid : Outcome {0} Unit → Bool
is_valid (ok x) = true
is_valid (fail e) = false
is_valid out_of_fuel = false

abbrev pub listed_or_none : Option (List Text) → List Text
listed_or_none none = []
listed_or_none (some ks) = ks

abbrev pub first_or_empty : List Text → Text
first_or_empty [] = []
first_or_empty (k ∷ ks) = k

-- one of the ids
unfoldable pub is_listed : ℕ → List ℕ → Bool
is_listed id [] = false
is_listed id (j ∷ ids) = id == j || is_listed id ids

module _ (𝓟 : Platform) where
  open 𝓟 use {numbers, Rows, create, many, id_string}

  -- the row that `createFormula` stores under the id that the database gives it
  abbrev pub formula_row : ℕ → CreateFormulaDto → FrameworkMapping
  formula_row id dto = record {
    id = id_string id;
    canonical_keys = dto.output_key ∷ listed_or_none dto.inputs;
    formula = some (record {
      expression = some dto.expression;
      unit = some dto.unit;
      inputs = some (listed_or_none dto.inputs);
    });
    version = or_else dto.version (codes "v1");
  }

  abbrev pub formula_entry : ℕ → ℕ → ℕ → FrameworkMapping → AuditLogInput 𝓟
  formula_entry tenant actor id row = record {
    tenant = tenant;
    user = actor;
    entity = codes "FrameworkMapping";
    entity_id = some id;
    action = codes "CREATE";
    before = none;
    after = some (mapping_data row);
  }

  -- `createFormula`, once the expression is valid and the registry has answered
  unfoldable pub store_formula :
      Db 𝓟 → ℕ → CreateFormulaDto → ℕ → ℕ → Option CanonicalMetric → Db 𝓟 × Answer FrameworkMapping
  unfolding unit_allowed log
  store_formula db tenant dto actor id none = (db, refused bad_request)
  store_formula db tenant dto actor id (some reg) =
      if not (unit_allowed reg dto.unit) then (db, refused bad_request) else (
        log 𝓟 (formula_entry tenant actor id (formula_row id dto))
            (record db { mappings = db.mappings ++ formula_row id dto ∷ [] }),
        done (formula_row id dto),
      )

  unfoldable pub create_formula :
      Db 𝓟 → ℕ → CreateFormulaDto → ℕ → ℕ → Db 𝓟 × Answer FrameworkMapping
  unfolding validate store_formula
  create_formula db tenant dto actor id =
      if not (is_valid (validate numbers dto.expression))
      then (db, refused bad_request)
      else store_formula db tenant dto actor id (db.registry dto.output_key)

  unfoldable pub ids_of : {A : Type 0} → List (ℕ × A) → List ℕ
  ids_of [] = []
  ids_of ((id, a) ∷ rest) = id ∷ ids_of rest

  -- how many of the rows have one of the ids
  unfoldable pub count_listed : {A : Type 0} → List ℕ → List (ℕ × A) → ℕ
  unfolding is_listed
  count_listed ids [] = 0
  count_listed ids ((id, a) ∷ rest) =
      let n = count_listed ids rest in if is_listed id ids then suc n else n

  abbrev pub nodes_of : Db 𝓟 → ℕ → List (ℕ × EntityNode (Number 𝓟))
  nodes_of db tenant = many db.nodes (λ n. n.tenant == tenant)

  abbrev pub none_refused : List ℕ → Option (List ℕ)
  none_refused [] = none
  none_refused (id ∷ ids) = some (id ∷ ids)

  -- the scope nodes of a run: by default the first 50 nodes of the tenant that the database gives
  unfoldable pub scope_of : Db 𝓟 → ℕ → List ℕ → Option (List ℕ)
  unfolding ids_of count_listed
  scope_of db tenant [] = none_refused (take 50 (ids_of (nodes_of db tenant)))
  scope_of db tenant (id ∷ ids) =
      if count_listed (id ∷ ids) (nodes_of db tenant) == length (id ∷ ids)
      then some (id ∷ ids)
      else none

  abbrev pub new_run : ℕ → RunRequest → ℕ → List ℕ → CalcRun (Number 𝓟)
  new_run tenant dto actor nodes = record {
    tenant = tenant;
    scope_nodes = nodes;
    period_start = dto.period_start;
    period_end = dto.period_end;
    computed_by = actor;
    formula_version = codes "pending";
    output_key = first_or_empty dto.output_keys;
    output_value = Decimal.of_nat numbers 0;
    output_unit = [];
    input_metrics = [];
    factor_ids = [];
    duration = 0;
  }

  abbrev pub run_entry : ℕ → ℕ → ℕ → AuditLogInput 𝓟
  run_entry tenant actor id = record {
    tenant = tenant;
    user = actor;
    entity = codes "CalcRun";
    entity_id = some id;
    action = codes "CREATE";
    before = none;
    after = none;
  }

  abbrev pub RunHandled : Type 0
  RunHandled = Db 𝓟 × Answer (ℕ × CalcRun (Number 𝓟))

  -- `startRun`, once the scope is known
  unfoldable pub store_run : Db 𝓟 → ℕ → RunRequest → ℕ → Option (List ℕ) → RunHandled
  unfolding log
  store_run db tenant dto actor none = (db, refused bad_request)
  store_run db tenant dto actor (some nodes) =
      let run = new_run tenant dto actor nodes in
      let (id, runs) = create db.runs run in
      (log 𝓟 (run_entry tenant actor id) (record db { runs = runs }), done (id, run))

  unfoldable pub start_run : Db 𝓟 → ℕ → RunRequest → ℕ → RunHandled
  unfolding scope_of store_run
  start_run db tenant dto actor =
      if ltb dto.period_end dto.period_start
      then (db, refused bad_request)
      else store_run db tenant dto actor (scope_of db tenant dto.scope_nodes)

  abbrev pub scope1_keys : List Text
  scope1_keys =
      codes "ghg_scope1_total"
      ∷ codes "ghg_scope1_stationary"
      ∷ codes "ghg_scope1_mobile"
      ∷ codes "ghg_scope1_process"
      ∷ codes "ghg_scope1_fugitive"
      ∷ []

  unfoldable pub run_scope1 : Db 𝓟 → ℕ → RunRequest → ℕ → RunHandled
  unfolding start_run
  run_scope1 db tenant w actor = start_run db tenant (record w { output_keys = scope1_keys }) actor

  abbrev pub scope2_keys : List Text
  scope2_keys = codes "ghg_scope2_location" ∷ codes "ghg_scope2_market" ∷ []

  unfoldable pub run_scope2 : Db 𝓟 → ℕ → RunRequest → ℕ → RunHandled
  unfolding start_run
  run_scope2 db tenant w actor = start_run db tenant (record w { output_keys = scope2_keys }) actor

  -- The category is a whole number, which the request's validation has made sure of; `digits` is its
  -- string.
  unfoldable pub run_scope3_category : Db 𝓟 → ℕ → RunRequest → ℕ → (ℕ → Text) → ℕ → RunHandled
  unfolding start_run
  run_scope3_category db tenant w category digits actor =
      if ltb category 1 || ltb 15 category
      then (db, refused bad_request)
      else start_run db tenant
          (record w { output_keys = (codes "ghg_scope3_cat" ++ digits category) ∷ [] }) actor
