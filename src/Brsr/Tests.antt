-- ===== src/Brsr/Tests.antt =====
-- A section of a report from two figures.
use brsr_v.Prelude.{ℕ, ◌≡◌, refl, none, some, List, [], ◌∷◌, Text, text_eq, codes}
use brsr_v.Prelude.Int.{pos}
use brsr_v.Schema.{approved, calculation}
use brsr_v.Platform.Memory.{memory}
use brsr_v.Assurance.Sampling.{insert, sort_falling}
use brsr_v.Cel.Integers.{integers-IsOrdered}
use brsr_v.Brsr.{
  Figure, ReportMapping, aggregation_named, aggregate_figures, bucket_of, candidates, last_of,
  resolve_mapping,
}
use brsr_v.Brsr.Choice.{Shown, resolve_mapping-Shown}

abbrev figure : ℕ → ℕ → ℕ → Figure memory
figure id ends n = (
  id,
  record {
    tenant = 1;
    scope_node = 5;
    canonical_key = codes "energy";
    period_start = 0;
    period_end = ends;
    value = pos n;
    unit = codes "kWh";
    dimensions = codes "{}";
    source_type = calculation;
    source_extraction = none;
    source_calc_run = some id;
    status = approved;
    submitted_by = 7;
    submitted_at = 101;
    approved_by = none;
    approved_at = none;
    comment = none;
  },
)

abbrev by_key : List (Text × List (Figure memory))
by_key = (codes "energy", figure 3 20 300 ∷ figure 4 30 250 ∷ []) ∷ []

abbrev question : Text → ReportMapping
question how = record {
  framework = codes "BRSR";
  framework_code = codes "P6-Q1";
  framework_section = none;
  canonical_keys = codes "energy" ∷ [];
  aggregation = some how;
}

resolve_mapping-Shown_example :
    let r = resolve_mapping memory by_key (question (codes "LATEST")) in
    Shown memory
      (candidates memory by_key (codes "energy" ∷ []))
      (codes "LATEST")
      (r.value, r.calc_run)
resolve_mapping-Shown_example =
    resolve_mapping-Shown memory integers-IsOrdered by_key (question (codes "LATEST"))

latest_test : (resolve_mapping memory by_key (question (codes "LATEST"))).value ≡ some (pos 250)
unfolding resolve_mapping aggregate_figures candidates bucket_of sort_falling insert
    aggregation_named text_eq
latest_test = refl

first_test : (resolve_mapping memory by_key (question (codes "FIRST"))).calc_run ≡ some 3
unfolding resolve_mapping aggregate_figures candidates bucket_of sort_falling insert
    aggregation_named last_of text_eq
first_test = refl
