-- ===== src/Calculations/Start/Tests.antt =====
-- Requests to calculations.service.ts run on a small database, and the theorems at some.
use brsr_v.Prelude.{
  ℕ, ◌≡◌, refl, ap, ◌∙◌, Bool-cases, inl, inr, ◌==◌, arith, none, some, List, [], ◌∷◌, codes,
}
use brsr_v.Prelude.Int.{ℤ}
use brsr_v.Schema.{EntityNode, EntityType}
use brsr_v.Platform.{Db, refused, done, bad_request}
use brsr_v.Platform.Memory.{memory, memory-IsDatabase, fresh, rows_with, get_row}
use brsr_v.Calculations.Service.{
  CreateFormulaDto, RunRequest, create_formula, start_run, run_scope3_category, new_run,
}
use brsr_v.Calculations.Start.{Created, Started, create_formula-Created, start_run-Started}
use brsr_v.Calculations.Scope.{FindsOnce, occurrences}

abbrev plant : EntityNode ℤ
plant = record {
  tenant = 1;
  parent = none;
  type = EntityType.group;
  code = codes "plant";
  name = codes "Plant";
  ltree_path = codes "plant";
  country = codes "IN";
  state = none;
  lat = none;
  lng = none;
  effective_from = 0;
  effective_to = none;
  metadata = codes "{}";
  employee_count = none;
  revenue = none;
}

abbrev database : Db memory
database = record {
  events = [];
  fields = [];
  documents = [];
  nodes = (5, plant) ∷ [];
  snapshots = [];
  exceptions = [];
  registry = λ key. some (record { canonical_unit = codes "t"; allowed_units = [] });
  runs = [];
  mappings = [];
  factors = [];
  audit = [];
}

abbrev asks : List ℕ → RunRequest
asks nodes = record {
  period_start = 0;
  period_end = 86400000;
  scope_nodes = nodes;
  output_keys = codes "waste" ∷ [];
}

-- by default, the nodes of the tenant
default_test :
    (start_run memory database 1 (asks []) 7).1 ≡ done (0, new_run memory 1 (asks []) 7 (5 ∷ []))
unfolding start_run rows_with fresh
default_test = refl

-- a node that is named twice
twice_test : start_run memory database 1 (asks (5 ∷ 5 ∷ [])) 7 ≡ (database, refused bad_request)
unfolding start_run rows_with
twice_test = refl

sixteenth_test :
    run_scope3_category memory database 1 (asks []) 16 (λ n. codes "16") 7
    ≡ (database, refused bad_request)
unfolding run_scope3_category
sixteenth_test = refl

abbrev doubled : CreateFormulaDto
doubled = record {
  output_key = codes "waste";
  expression = codes "2 * solid_waste";
  unit = codes "t";
  version = none;
  inputs = some (codes "solid_waste" ∷ []);
}

create_formula-Created_example :
    Created memory database doubled (create_formula memory database 1 doubled 7 3)
create_formula-Created_example = create_formula-Created memory database 1 doubled 7 3

-- the table with one node
node_once : FindsOnce memory database.nodes
unfolding rows_with get_row occurrences
node_once = record {
  at_most_once = λ test id. elim (Bool-cases (test plant)) [
    | inl p ↦ rw p (ground arith)
    | inr p ↦ rw p (omega arith)
  ];
  is_found = λ test id n there meets. elim (Bool-cases (5 == id)) [
    | inl p ↦ let q = rw p at there in rw (ap test (some-inj q) ∙ meets) (rw p (omega arith))
    | inr p ↦ absurd (none-ne (rw p at there))
  ];
}
  where
    some-inj : {a b : EntityNode ℤ} → some a ≡ some b → a ≡ b
    some-inj h = cc

    none-ne : {a : EntityNode ℤ} → none ≡ some a → ⊥
    none-ne h = cc

start_run-Started_example :
    Started memory database 1 (asks []) 7 (start_run memory database 1 (asks []) 7)
start_run-Started_example =
    start_run-Started memory memory-IsDatabase database node_once 1 (asks []) 7
