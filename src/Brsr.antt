-- ===== src/Brsr.antt =====
-- The figures of a report: `resolve` of services/api/src/brsr/brsr.service.ts. The bounds of the
-- fiscal year, which `parseFy` takes in the local time of the server, are arguments.
pub mod Choice
pub mod Extremes
pub mod Order
mod Tests
use brsr_v.Prelude.{
  ℕ, Bool, true, false, not, ◌&&◌, ◌||◌, Option, none, some, List, [], ◌∷◌, ◌++◌, map, Text,
  text_eq, codes, is_one_of, ltb, leb, ◌==◌, if◌then◌else◌,
}
use brsr_v.Schema.{Event}
use brsr_v.Platform.{Platform, Number, Db, Answer, bad_request, done, refused}
use brsr_v.Cel.Decimal.{Decimal, Sign, less, more}
use brsr_v.Calculations.Process.{is_final}
use brsr_v.Calculations.Service.{is_listed, ids_of}
use brsr_v.Metrics.{or_else}
use brsr_v.Assurance.Sampling.{sort_falling, fill_buckets}

-- a row of framework_mapping, by the columns that the report reads
pub record ReportMapping : Type 0 where
  pub framework : Text
  pub framework_code : Text
  pub framework_section : Option Text
  pub canonical_keys : List Text
  pub aggregation : Option Text

pub data Aggregation : Type 0 where
  summed lowest highest latest first : Aggregation

-- the `switch`, where every name without a case of its own adds up
unfoldable pub aggregation_named : Text → Aggregation
unfolding text_eq
aggregation_named s =
    if text_eq s (codes "MIN")
    then lowest
    else if text_eq s (codes "MAX")
    then highest
    else if text_eq s (codes "LATEST")
    then latest
    else if text_eq s (codes "FIRST")
    then first
    else summed

-- `FRAMEWORK_ENUM`
abbrev pub known_frameworks : List Text
known_frameworks =
    codes "BRSR"
    ∷ codes "BRSR_CORE"
    ∷ codes "GRI"
    ∷ codes "SASB"
    ∷ codes "TCFD"
    ∷ codes "IFRS_S1"
    ∷ codes "IFRS_S2"
    ∷ codes "CSRD_ESRS"
    ∷ codes "CDP"
    ∷ []

abbrev pub is_less : Sign → Bool
is_less less = true
is_less _ = false

abbrev pub is_more : Sign → Bool
is_more more = true
is_more _ = false

module _ (𝓟 : Platform) where
  open 𝓟 use {numbers, many}

  abbrev pub Figure : Type 0
  Figure = ℕ × Event (Number 𝓟)

  -- `ResolvedSectionDto`, without the documents, and with the number in place of its text
  pub record ResolvedSection : Type 0 where
    pub section : Text
    pub label : Text
    pub value : Option (Number 𝓟)
    pub unit : Option Text
    pub source_events : List ℕ
    pub calc_run : Option ℕ
    pub extraction_fields : List ℕ

  -- the latest figures to the front
  abbrev pub ends_earlier : Figure → Figure → Bool
  ends_earlier a b = ltb a.1.period_end b.1.period_end

  unfoldable pub summed_up : Number 𝓟 → List Figure → Number 𝓟
  summed_up total [] = total
  summed_up total (x ∷ xs) = summed_up (numbers.plus total x.1.value) xs

  unfoldable pub lowest_of : Number 𝓟 → List Figure → Number 𝓟
  lowest_of best [] = best
  lowest_of best (x ∷ xs) =
      lowest_of (if is_less (numbers.cmp x.1.value best) then x.1.value else best) xs

  unfoldable pub highest_of : Number 𝓟 → List Figure → Number 𝓟
  highest_of best [] = best
  highest_of best (x ∷ xs) =
      highest_of (if is_more (numbers.cmp x.1.value best) then x.1.value else best) xs

  unfoldable pub last_of : Figure → List Figure → Figure
  last_of x [] = x
  last_of x (y ∷ ys) = last_of y ys

  -- the value of the sorted figures, and the run that it comes from where it is one figure's
  unfoldable pub aggregate_figures : Aggregation → List Figure → Option (Number 𝓟) × Option ℕ
  unfolding summed_up lowest_of highest_of last_of
  aggregate_figures how [] = (none, none)
  aggregate_figures summed (x ∷ xs) = (some (summed_up (numbers.of_nat 0) (x ∷ xs)), none)
  aggregate_figures lowest (x ∷ xs) = (some (lowest_of x.1.value (x ∷ xs)), none)
  aggregate_figures highest (x ∷ xs) = (some (highest_of x.1.value (x ∷ xs)), none)
  aggregate_figures latest (x ∷ xs) = (some x.1.value, x.1.source_calc_run)
  aggregate_figures first (x ∷ xs) = (some (last_of x xs).1.value, (last_of x xs).1.source_calc_run)

  unfoldable pub bucket_of : Text → List (Text × List Figure) → List Figure
  unfolding text_eq
  bucket_of k [] = []
  bucket_of k ((l, figures) ∷ bs) =
      let rest = bucket_of k bs in if text_eq l k then figures else rest

  -- the figures of all keys of a mapping
  unfoldable pub candidates : List (Text × List Figure) → List Text → List Figure
  unfolding bucket_of
  candidates by_key [] = []
  candidates by_key (k ∷ ks) = bucket_of k by_key ++ candidates by_key ks

  abbrev pub unit_of : List Figure → Option Text
  unit_of [] = none
  unit_of (x ∷ xs) = some x.1.unit

  -- the extraction fields that the figures come from
  unfoldable pub fields_of : List Figure → List ℕ
  fields_of [] = []
  fields_of (x ∷ xs) = some_before x.1.source_extraction (fields_of xs)
    where
      some_before : Option ℕ → List ℕ → List ℕ
      some_before none ids = ids
      some_before (some id) ids = id ∷ ids

  unfoldable pub resolve_mapping : List (Text × List Figure) → ReportMapping → ResolvedSection
  unfolding aggregate_figures candidates fields_of sort_falling aggregation_named ids_of
  resolve_mapping by_key m =
      let found = candidates by_key m.canonical_keys in
      let (value, calc_run) =
        aggregate_figures (aggregation_named (or_else m.aggregation (codes "SUM")))
          (sort_falling ends_earlier found) in
      record {
        section = or_else m.framework_section m.framework_code;
        label = m.framework_code;
        value = value;
        unit = unit_of found;
        source_events = ids_of 𝓟 found;
        calc_run = calc_run;
        extraction_fields = fields_of found;
      }

  pub record ResolveBrsr : Type 0 where
    pub framework : Text
    pub period_start : ℕ
    pub period_end : ℕ
    pub scope_nodes : List ℕ
    pub section : Option Text

  -- an empty section is no restriction
  abbrev pub is_wanted : ResolveBrsr → ReportMapping → Bool
  unfolding text_eq
  is_wanted dto m = text_eq m.framework dto.framework && is_section dto.section m.framework_code
    where
      is_section : Option Text → Text → Bool
      is_section none code = true
      is_section (some s) code = text_eq s [] || text_eq code s

  unfoldable pub wanted_rows : ResolveBrsr → List ReportMapping → List ReportMapping
  wanted_rows dto [] = []
  wanted_rows dto (m ∷ ms) =
      let rest = wanted_rows dto ms in if is_wanted dto m then m ∷ rest else rest

  unfoldable pub keys_of : List ReportMapping → List Text
  keys_of [] = []
  keys_of (m ∷ ms) = m.canonical_keys ++ keys_of ms

  -- the condition of `findMany` on events
  abbrev pub is_reported : ℕ → ResolveBrsr → List Text → Event (Number 𝓟) → Bool
  unfolding is_listed is_one_of
  is_reported tenant dto keys e =
      e.tenant == tenant
      && is_listed e.scope_node dto.scope_nodes
      && leb dto.period_start e.period_start
      && leb e.period_end dto.period_end
      && is_final e.status
      && is_one_of e.canonical_key keys

  -- `by_code` and `by_period` are the two `ORDER BY`.
  module _ (by_code : List ReportMapping → List ReportMapping)
      (by_period : List Figure → List Figure) where
    unfoldable pub resolve_rows : Db 𝓟 → ℕ → ResolveBrsr → List ReportMapping → List ResolvedSection
    unfolding fill_buckets keys_of is_reported resolve_mapping
    resolve_rows db tenant dto rows =
        map
          (resolve_mapping (
            fill_buckets (λ x. x.1.canonical_key) []
              (by_period (many db.events (is_reported tenant dto (keys_of rows))))))
          rows

    unfoldable pub resolve :
        Db 𝓟 → List ReportMapping → ℕ → ResolveBrsr → Answer (List ResolvedSection)
    unfolding is_one_of wanted_rows resolve_rows
    resolve db mappings tenant dto =
        if not (is_one_of dto.framework known_frameworks)
        then refused bad_request
        else done (resolve_rows db tenant dto (by_code (wanted_rows dto mappings)))
