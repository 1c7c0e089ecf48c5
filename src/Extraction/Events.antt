-- ===== src/Extraction/Events.antt =====
-- The metric event of an extracted field: the search for it, and its row (extraction.service.ts).
use brsr_v.Prelude.{ℕ, Bool, false, ◌&&◌, Option, none, some, ◌++◌, Text, codes, ◌==◌}
use brsr_v.Schema.{ExtractionField, Event, MetricStatus, event_data, extraction}
use brsr_v.Platform.{Platform, Number, Db}
use brsr_v.Audit.{AuditLogInput, log}

module _ (𝓟 : Platform) where
  open 𝓟 use {create, id_string}

  abbrev pub is_source : ℕ → Option ℕ → Bool
  is_source id none = false
  is_source id (some x) = x == id

  -- `{ tenantId, sourceExtractionId }`
  abbrev pub comes_from : ℕ → ℕ → Event (Number 𝓟) → Bool
  comes_from tenant id e = e.tenant == tenant && is_source id e.source_extraction

  abbrev pub promotion_entry :
      ExtractionField (Number 𝓟) → ℕ → ℕ → Event (Number 𝓟) → AuditLogInput 𝓟
  promotion_entry f actor id e = record {
    tenant = f.tenant;
    user = actor;
    entity = codes "MetricEvent";
    entity_id = some id;
    action = codes "CREATE";
    before = none;
    after = some (event_data e);
  }

  abbrev pub promoted_event :
      ℕ → ExtractionField (Number 𝓟) → Number 𝓟 → ℕ → ℕ → Text → ℕ → ℕ → ℕ → Event (Number 𝓟)
  promoted_event id f value start end unit node actor now = record {
    tenant = f.tenant;
    scope_node = node;
    canonical_key = f.canonical_key;
    period_start = start;
    period_end = end;
    value = value;
    unit = unit;
    dimensions = codes "{}";
    source_type = extraction;
    source_extraction = some id;
    source_calc_run = none;
    status = MetricStatus.draft;
    submitted_by = actor;
    submitted_at = now;
    approved_by = none;
    approved_at = none;
    comment = some (codes "Auto-promoted from approved extraction " ++ id_string id);
  }

  unfoldable pub store_promoted :
      Db 𝓟 → ExtractionField (Number 𝓟) → ℕ → Event (Number 𝓟) → Db 𝓟 × Option ℕ
  unfolding log
  store_promoted db f actor e =
      let (id, events) = create db.events e in
      (log 𝓟 (promotion_entry f actor id e) (record db { events = events }), some id)
