-- ===== src/Assurance/Tests.antt =====
-- Snapshots, samples and exceptions on a small database.
use mathlib.Core.List.{Subperm}
use brsr_v.Prelude.{
  ℕ, ◌≡◌, ◌≢◌, refl, ◌⊎◌, none, some, List, [], ◌∷◌, Text, codes, length, ltb, if◌then◌else◌, arith,
}
use brsr_v.Prelude.Int.{ℤ, pos}
use brsr_v.Schema.{
  Event, approved, draft, MetricStatus, manual, AssuranceSnapshot, AuditException, high, raised,
}
use brsr_v.Platform.{Db}
use brsr_v.Platform.Memory.{memory, memory-IsDatabase, get_row}
use brsr_v.Assurance.Anchor.{Hashing, Member, stable_stringify}
use brsr_v.Assurance.Binding.{heads, tails, IsJson, hash_object-binds}
use brsr_v.Assurance.Sampling.{stratified, sample_items}
use brsr_v.Assurance.Samples.{HasSize, sample_items-Subperm}
use brsr_v.Assurance.Exceptions.{to_closed}
use brsr_v.Assurance.History.{
  ExceptionCall, respond_call, run_exceptions, Keeps, run_exceptions-Keeps,
}
use brsr_v.Assurance.{CreateSnapshotDto}

abbrev energy : MetricStatus → Event ℤ
energy s = record {
  tenant = 1;
  scope_node = 5;
  canonical_key = codes "energy";
  period_start = 10;
  period_end = 20;
  value = pos 300;
  unit = codes "kWh";
  dimensions = codes "{}";
  source_type = manual;
  source_extraction = none;
  source_calc_run = none;
  status = s;
  submitted_by = 7;
  submitted_at = 101;
  approved_by = none;
  approved_at = none;
  comment = none;
}

abbrev snapshot : AssuranceSnapshot
snapshot = record {
  tenant = 1;
  fy = codes "FY2024-25";
  framework = codes "BRSR";
  scope_nodes = 5 ∷ [];
  metric_events = 0 ∷ [];
  note = none;
  metric_count = 1;
  evidence_count = 0;
  hash_anchor = codes "h";
}

abbrev finding : AuditException
finding = record {
  snapshot = 3;
  metric_event = none;
  severity = high;
  description = codes "no meter";
  management_response = none;
  status = raised;
  raised_by = 8;
  closed_at = none;
}

-- an approved event and a draft, a snapshot and an exception on it
abbrev database : Db memory
database = record {
  events = (0, energy approved) ∷ (1, energy draft) ∷ [];
  fields = [];
  documents = [];
  nodes = [];
  snapshots = (3, snapshot) ∷ [];
  exceptions = (4, finding) ∷ [];
  registry = λ key. none;
  runs = [];
  mappings = [];
  factors = [];
  audit = [];
}

-- The exception is closed, and a response that would open it again is refused.
abbrev calls : List ExceptionCall
calls =
    respond_call 1 4 (record { response = some (codes "fixed"); status = some to_closed }) 9 50
    ∷ respond_call 1 4 (record { response = none; status = none }) 9 60
    ∷ []

run_exceptions-Keeps_example :
    (e : AuditException) × (get_row (run_exceptions memory database calls).exceptions 4 ≡ some e)
    × Keeps finding e
unfolding get_row
run_exceptions-Keeps_example =
    run_exceptions-Keeps memory memory-IsDatabase calls database 4 finding refl

-- each code unit after a 1, and a 0 at the end
unfoldable quoted : Text → Text
quoted [] = 0 ∷ []
quoted (c ∷ s) = 1 ∷ c ∷ quoted s

-- a text that can be told from what follows it, and the text itself as the hash
abbrev plain : Hashing
plain = record { sha256 = λ s. s; json_string = quoted }

plain-IsJson : IsJson plain
unfolding quoted
plain-IsJson [] [] s t h = (refl, tails _ _ _ _ h)
plain-IsJson [] (b ∷ bs) s t h = absurd (omega (arith, heads _ _ _ _ h))
plain-IsJson (a ∷ as') [] s t h = absurd (omega (arith, heads _ _ _ _ h))
plain-IsJson (a ∷ as') (b ∷ bs) s t h =
    let k = tails _ _ _ _ h in
    let (e, r) = plain-IsJson as' bs s t (tails _ _ _ _ k) in (same (heads _ _ _ _ k) e, r)
  where
    same : a ≡ b → as' ≡ bs → a ∷ as' ≡ b ∷ bs
    same e f = cc

abbrev anchored : List Member
anchored = record { id = codes "e1"; value = codes "300"; unit = codes "kWh" } ∷ []

abbrev dto : CreateSnapshotDto
dto = record { fy = codes "FY2024-25"; framework = codes "BRSR"; scope_nodes = 5 ∷ []; note = none }

hash_object-binds_example :
    (anchored ≡ anchored)
    ⊎ ((stable_stringify plain anchored ≢ stable_stringify plain anchored)
        × (stable_stringify plain anchored ≡ stable_stringify plain anchored))
hash_object-binds_example = hash_object-binds plain plain-IsJson anchored anchored refl

-- five items under two keys
abbrev items : List ℕ
items = 1 ∷ 2 ∷ 3 ∷ 4 ∷ 5 ∷ []

abbrev key_of : ℕ → Text
key_of n = if ltb n 3 then codes "a" else codes "b"

sample_items-Subperm_example :
    Subperm (sample_items key_of ltb (λ n i. 0) stratified 4 items) items
    × HasSize stratified (length (sample_items key_of ltb (λ n i. 0) stratified 4 items)) 4
sample_items-Subperm_example =
    sample_items-Subperm key_of ltb (λ n i. 0) stratified 4 1 (2 ∷ 3 ∷ 4 ∷ 5 ∷ [])
