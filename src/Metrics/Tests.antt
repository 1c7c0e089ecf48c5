-- ===== src/Metrics/Tests.antt =====
-- Requests to metrics.service.ts run on a small database, and the theorems at some.
use brsr_v.Prelude.{ℕ, ◌≡◌, refl, Option, none, some, List, [], ◌∷◌, codes, arith}
use brsr_v.Prelude.Int.{ℤ, pos}
use brsr_v.Schema.{Event, EntityNode, site, MetricStatus, submitted, approved, locked, manual}
use brsr_v.Platform.{Db, refused, conflict}
use brsr_v.Platform.Memory.{memory, memory-IsDatabase, get_row, put_row, fresh}
use brsr_v.Metrics.{
  CreateMetricEventDto, handle, create_one, submit_one, approve_one, lock_one, reject_one,
  update_one,
}
use brsr_v.Metrics.Lifecycle.{Change}
use brsr_v.Metrics.Refinement.{handle-refines, handle-refused}
use brsr_v.Metrics.History.{Call, run, run-locked, run-foreign}
use brsr_v.Metrics.Soundness.{IsSound, run-IsSound}
use brsr_v.Metrics.Editing.{revalued, update-then_approve}

abbrev plant : EntityNode ℤ
plant = record {
  tenant = 1;
  parent = none;
  type = site;
  code = codes "plant";
  name = codes "Plant";
  ltree_path = codes "plant";
  country = codes "IN";
  state = none;
  lat = none;
  lng = none;
  effective_from = 0;
  effective_to = none;
  metadata = codes "{}";
  employee_count = none;
  revenue = none;
}

-- tenant 1 owns node 5, and the registry knows energy in kWh
abbrev empty : Db memory
empty = record {
  events = [];
  fields = [];
  documents = [];
  nodes = (5, plant) ∷ [];
  snapshots = [];
  exceptions = [];
  registry = λ key. some (record { canonical_unit = codes "kWh"; allowed_units = [] });
  runs = [];
  mappings = [];
  factors = [];
  audit = [];
}

abbrev energy : CreateMetricEventDto memory
energy = record {
  canonical_key = codes "energy";
  scope_node = 5;
  period_start = 10;
  period_end = 20;
  value = pos 300;
  unit = codes "kWh";
  source = none;
  extraction_field = none;
  notes = none;
  metadata = none;
}

-- user 7 creates and submits, user 8 approves, user 9 locks
abbrev life : List (Call memory)
life =
    record { tenant = 1; actor = 7; now = 100; request = create_one energy }
    ∷ record { tenant = 1; actor = 7; now = 101; request = submit_one 0 }
    ∷ record { tenant = 1; actor = 8; now = 102; request = approve_one 0 }
    ∷ record { tenant = 1; actor = 9; now = 103; request = lock_one 0 }
    ∷ []

abbrev event_in : MetricStatus → Option ℕ → Option ℕ → Event ℤ
event_in s by at = record {
  tenant = 1;
  scope_node = 5;
  canonical_key = codes "energy";
  period_start = 10;
  period_end = 20;
  value = pos 300;
  unit = codes "kWh";
  dimensions = codes "{}";
  source_type = manual;
  source_extraction = none;
  source_calc_run = none;
  status = s;
  submitted_by = 7;
  submitted_at = 101;
  approved_by = by;
  approved_at = at;
  comment = none;
}

life_test : (run memory empty life).events ≡ (0, event_in locked (some 8) (some 102)) ∷ []
unfolding handle get_row put_row fresh
life_test = refl

abbrev submitted_db : Db memory
submitted_db = record empty { events = (0, event_in submitted none none) ∷ [] }

abbrev locked_db : Db memory
locked_db = record empty { events = (0, event_in locked (some 8) (some 102)) ∷ [] }

stored :
    (s : MetricStatus) (by at : Option ℕ)
    → get_row ((0, event_in s by at) ∷ []) 0 ≡ some (event_in s by at)
unfolding get_row
stored s by at = refl

self_approval_refused : (handle memory 1 7 102 submitted_db (approve_one 0)).1 ≡ refused conflict
unfolding handle get_row
self_approval_refused = refl

handle-refines_example :
    Change memory submitted_db 1 8 102
      (get_row submitted_db.events 0)
      (get_row (handle memory 1 8 102 submitted_db (approve_one 0)).0.events 0)
handle-refines_example =
    handle-refines memory memory-IsDatabase submitted_db 1 8 102 (approve_one 0) 0

handle-refused_example : (handle memory 1 7 102 submitted_db (approve_one 0)).0 ≡ submitted_db
handle-refused_example =
    handle-refused memory memory-IsDatabase submitted_db 1 7 102 (approve_one 0)
      self_approval_refused

run-locked_example :
    get_row (run memory locked_db life).events 0 ≡ some (event_in locked (some 8) (some 102))
run-locked_example =
    run-locked memory memory-IsDatabase locked_db life 0 (stored locked (some 8) (some 102)) refl

-- requests of another tenant on the same id
abbrev foreign : List (Call memory)
foreign =
    record { tenant = 2; actor = 8; now = 102; request = approve_one 0 }
    ∷ record { tenant = 2; actor = 8; now = 103; request = reject_one 0 (codes "no") }
    ∷ []

run-foreign_example :
    get_row (run memory submitted_db foreign).events 0 ≡ some (event_in submitted none none)
run-foreign_example =
    run-foreign memory memory-IsDatabase submitted_db foreign 0 (stored submitted none none)
      (omega arith, (omega arith, tt))

empty-IsSound : IsSound memory empty
unfolding get_row
empty-IsSound id e h = cc

run-IsSound_example : IsSound memory (run memory empty life)
run-IsSound_example = run-IsSound memory memory-IsDatabase empty life empty-IsSound

update-then_approve_example :
    get_row
      (run memory submitted_db (
        record {
          tenant = 1;
          actor = 8;
          now = 102;
          request = update_one 0 (revalued memory (some (pos 999)) none none);
        }
        ∷ record { tenant = 1; actor = 8; now = 102; request = approve_one 0 }
        ∷ [])).events
      0
    ≡ some (record (event_in approved (some 8) (some 102)) { value = pos 999 })
update-then_approve_example =
    update-then_approve memory memory-IsDatabase submitted_db 1 8 102 0 (pos 999)
      (event_in submitted none none) (stored submitted none none) refl refl (omega arith)
