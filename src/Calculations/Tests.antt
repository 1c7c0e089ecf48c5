-- ===== src/Calculations/Tests.antt =====
-- A run of calculation.processor.ts on a small database, and the theorems at some inputs.
use mathlib.Core.List.{Memᴰ, reverse}
use brsr_v.Prelude.{
  ℕ, ◌≡◌, ◌<◌, refl, ◌⊎◌, inl, inr, none, some, true, List, [], ◌∷◌, Text, text_eq, codes,
  is_one_of, arith, All, if◌then◌else◌, map,
}
use brsr_v.Prelude.Int.{ℤ, pos}
use brsr_v.Cel.Eval.{evaluate, eval, find}
use brsr_v.Cel.Eval.Frame.{names}
use brsr_v.Cel.Lexer.{tokenize}
use brsr_v.Cel.Parser.{parse}
use brsr_v.Cel.Value.{Object, unit_eq}
use brsr_v.Cel.Integers.{integers}
use brsr_v.Schema.{Event, CalcRun, FrameworkMapping, approved, manual}
use brsr_v.Platform.{Db}
use brsr_v.Platform.Memory.{memory, memory-IsDatabase, get_row, put_row, rows_with, fresh}
use brsr_v.Calculations.{Formula, sorted, cycle_at, by_key, has_key, topo_sort}
use brsr_v.Calculations.Order.{Holds, IsOrdered, topo_sort-Holds}
use brsr_v.Calculations.Acyclic.{topo_sort-acyclic}
use brsr_v.Calculations.Process.{
  node_among, aggregate, computed, no_entries, quantity, success, with_entry,
}
use brsr_v.Calculations.Consistency.{metrics_after, mentioned, IsHonest}
use brsr_v.Calculations.Loop.{evaluate_all-total, run-consistent}
use brsr_v.Calculations.Isolation.{process-keeps}
use brsr_v.Calculations.Run.{Progress, evaluate_all, process}

abbrev formula : Text → Text → List Text → Formula
formula key expression inputs = record {
  id = key;
  output_key = key;
  expression = expression;
  unit = codes "t";
  inputs = inputs;
  version = codes "v1";
}

-- b reads a, and a reads the metric x
abbrev sum_b : Formula
sum_b = formula (codes "b") (codes "a + a") (codes "a" ∷ [])

abbrev twice_a : Formula
twice_a = formula (codes "a") (codes "x * 2") (codes "x" ∷ [])

abbrev pair : List Formula
pair = sum_b ∷ twice_a ∷ []

pair-sorted : topo_sort pair ≡ sorted (sum_b ∷ twice_a ∷ [])
unfolding topo_sort text_eq
pair-sorted = refl

cycle_test :
    topo_sort
      (formula (codes "a") [] (codes "b" ∷ []) ∷ formula (codes "b") [] (codes "a" ∷ []) ∷ [])
    ≡ cycle_at (codes "a")
unfolding topo_sort text_eq
cycle_test = refl

topo_sort-Holds_example :
    Holds
      (λ rs. IsOrdered pair rs × All (λ f. has_key f.output_key rs ≡ true) pair)
      (topo_sort pair)
topo_sort-Holds_example = topo_sort-Holds pair

abbrev rank : Text → ℕ
rank key = if text_eq key (codes "b") then 1 else 0

pair-ranked :
    All (λ f. All (λ k. (by_key pair k ≡ none) ⊎ (rank k < rank f.output_key)) f.inputs) pair
unfolding by_key text_eq
pair-ranked = ((inr (omega arith), tt), ((inl refl, tt), tt))

topo_sort-acyclic_example :
    (rs : List Formula) × (topo_sort pair ≡ sorted rs)
    × IsOrdered pair rs
    × All (λ f. has_key f.output_key rs ≡ true) pair
topo_sort-acyclic_example = topo_sort-acyclic rank pair pair-ranked

abbrev energy : Event ℤ
energy = record {
  tenant = 1;
  scope_node = 5;
  canonical_key = codes "x";
  period_start = 0;
  period_end = 86400000;
  value = pos 3;
  unit = codes "t";
  dimensions = codes "{}";
  source_type = manual;
  source_extraction = none;
  source_calc_run = none;
  status = approved;
  submitted_by = 7;
  submitted_at = 1;
  approved_by = some 8;
  approved_at = some 2;
  comment = none;
}

abbrev calc_run : CalcRun ℤ
calc_run = record {
  tenant = 1;
  scope_nodes = 5 ∷ [];
  period_start = 0;
  period_end = 86400000;
  computed_by = 9;
  formula_version = codes "pending";
  output_key = [];
  output_value = pos 0;
  output_unit = [];
  input_metrics = [];
  factor_ids = [];
  duration = 0;
}

abbrev mapping : Text → Text → List Text → FrameworkMapping
mapping key expression inputs = record {
  id = key;
  canonical_keys = key ∷ [];
  formula =
      some (record { expression = some expression; unit = some (codes "t"); inputs = some inputs });
  version = codes "v1";
}

abbrev database : Db memory
database = record {
  events = (0, energy) ∷ [];
  fields = [];
  documents = [];
  nodes = [];
  runs = (3, calc_run) ∷ [];
  mappings =
      mapping (codes "b") (codes "a + a") (codes "a" ∷ [])
      ∷ mapping (codes "a") (codes "x * 2") (codes "x" ∷ [])
      ∷ [];
  factors = [];
  snapshots = [];
  exceptions = [];
  registry = λ key. none;
  audit = [];
}

abbrev keys : List Text
keys = codes "a" ∷ codes "b" ∷ []

held : get_row database.events 0 ≡ some energy
unfolding get_row
held = refl

process-keeps_example : get_row (process memory database 3 1 keys 50 4).0.events 0 ≡ some energy
process-keeps_example = process-keeps memory memory-IsDatabase 0 energy database 3 1 keys 50 4 held

-- the values of the events that the run leaves, newest first
process_test :
    map {B = Text × ℤ}
      (λ row. (row.1.canonical_key, row.1.value))
      (process memory database 3 1 keys 50 4).0.events
    ≡ (codes "b", pos 12) ∷ (codes "a", pos 6) ∷ (codes "x", pos 3) ∷ []
unfolding process get_row put_row rows_with fresh topo_sort aggregate evaluate_all evaluate tokenize
    parse eval text_eq unit_eq find computed node_among
process_test = refl

abbrev start : Object ℤ
start =
    with_entry integers (no_entries integers) (codes "x") (quantity integers (pos 3) (codes "t"))

abbrev begin : Progress memory
begin = record { db = database; metrics = start; last = none; used_inputs = []; used_factors = [] }

evaluate_all-total_example :
    (q : Progress memory) × (evaluate_all memory 3 calc_run
        (no_entries integers)
        50
        begin
        (reverse (sum_b ∷ twice_a ∷ []))
      ≡ success q)
    × (q.metrics
        ≡ metrics_after integers (some (no_entries integers)) 1 start (sum_b ∷ twice_a ∷ []))
evaluate_all-total_example =
    evaluate_all-total memory 3 calc_run (no_entries integers) 50 begin (sum_b ∷ twice_a ∷ []) 5 []
      refl

sum_b-IsHonest : IsHonest integers (some (no_entries integers)) 1 sum_b
unfolding mentioned names tokenize parse is_one_of text_eq
sum_b-IsHonest = (refl, (refl, tt))

sum_b-computed :
    computed integers
      (some (no_entries integers))
      1
      (metrics_after integers (some (no_entries integers)) 1 start (sum_b ∷ twice_a ∷ []))
      sum_b
    ≡ some (pos 12)
unfolding computed metrics_after evaluate tokenize parse eval text_eq unit_eq find
sum_b-computed = refl

run-consistent_example :
    metrics_after integers (some (no_entries integers)) 1 start (sum_b ∷ twice_a ∷ []) (codes "b")
    ≡ some (some (quantity integers (pos 12) (codes "t")))
run-consistent_example =
    run-consistent memory 3 calc_run (no_entries integers) 50 pair (sum_b ∷ twice_a ∷ []) start
      sum_b (pos 12) pair-sorted (Memᴰ.head refl) sum_b-IsHonest sum_b-computed
