-- ===== src/Extraction/Tests.antt =====
-- Requests to extraction.service.ts run on a small database, and the theorems at some.
use brsr_v.Prelude.{◌≡◌, refl, true, false, none, some, List, [], ◌∷◌, codes, length, arith}
use brsr_v.Prelude.Int.{ℤ, pos}
use brsr_v.Schema.{ExtractionField, CanonicalMetric, needs_review}
use brsr_v.Platform.{Db}
use brsr_v.Platform.Memory.{memory, memory-IsDatabase, get_row, put_row, fresh, rows_with}
use brsr_v.Extraction.{find_field, approve_field, is_decimal_text, string_value}
use brsr_v.Metrics.{unit_allowed}
use brsr_v.Extraction.Bulk.{
  FieldCall, update_one, reject_one, approve_one, approve_many, run_fields,
}
use brsr_v.Extraction.Promotion.{IsComplete, HasEvent, approve_field-HasEvent}
use brsr_v.Extraction.Single.{AtMostOne, run_fields-AtMostOne}

-- a number of kWh read from document 9 for the metric `energy`
abbrev meter : ExtractionField ℤ
meter = record {
  tenant = 1;
  document = 9;
  canonical_key = codes "energy";
  value_text = none;
  value_num = some (pos 300);
  unit_extracted = some (codes "kWh");
  period_start = some 10;
  period_end = some 20;
  status = needs_review;
  reviewed_by = none;
  reviewed_at = none;
  override_reason = none;
}

abbrev energy_entry : CanonicalMetric
energy_entry = record { canonical_unit = codes "kWh"; allowed_units = [] }

abbrev database : Db memory
database = record {
  events = [];
  fields = (4, meter) ∷ [];
  documents = (9, record { tenant = 1; scope_node = 5 }) ∷ [];
  nodes = [];
  snapshots = [];
  exceptions = [];
  registry = λ key. some energy_entry;
  runs = [];
  mappings = [];
  factors = [];
  audit = [];
}

decimal_test : is_decimal_text (codes "-12.50") ≡ true
unfolding is_decimal_text
decimal_test = refl

no_decimal_test : is_decimal_text (codes "12.") ≡ false
unfolding is_decimal_text
no_decimal_test = refl

-- approved, rejected, approved again, corrected too late, and approved in bulk twice over
abbrev calls : List (FieldCall memory)
calls =
    record { tenant = 1; actor = 7; now = 30; request = approve_one 4 }
    ∷ record { tenant = 1; actor = 7; now = 31; request = reject_one 4 (codes "wrong") }
    ∷ record { tenant = 1; actor = 7; now = 32; request = approve_one 4 }
    ∷ record {
      tenant = 1;
      actor = 7;
      now = 33;
      request =
          update_one 4 (record { value = string_value (codes "5"); unit = none; notes = none });
    }
    ∷ record { tenant = 1; actor = 7; now = 34; request = approve_many (4 ∷ 4 ∷ []) }
    ∷ []

calls_test : length (run_fields memory database calls).events ≡ 1
unfolding run_fields get_row put_row fresh rows_with
calls_test = refl

database-AtMostOne : AtMostOne memory database.events
unfolding AtMostOne rows_with
database-AtMostOne tenant id = omega arith

run_fields-AtMostOne_example : AtMostOne memory (run_fields memory database calls).events
run_fields-AtMostOne_example =
    run_fields-AtMostOne memory memory-IsDatabase database calls database-AtMostOne

meter_found : find_field memory database 1 4 ≡ some meter
unfolding find_field get_row
meter_found = refl

meter-IsComplete : IsComplete memory database meter
unfolding get_row unit_allowed
meter-IsComplete = record {
  entry = energy_entry;
  registered = refl;
  parts = record { start = 10; end = 20; value = pos 300; node = 5 };
  parts_known = refl;
  unit_is_allowed = refl;
}

approve_field-HasEvent_example :
    HasEvent memory (approve_field memory database 1 4 7 30).0.events 1 4
approve_field-HasEvent_example =
    approve_field-HasEvent memory memory-IsDatabase database 1 4 7 30 meter meter_found refl
      meter-IsComplete
