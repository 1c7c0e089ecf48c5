-- ===== src/Metrics.antt =====
-- The life of a metric event: `MetricsService` (services/api/src/metrics/metrics.service.ts). A
-- handler gives the database that it leaves and its answer; `now` is the time it reads.
pub mod Lifecycle
pub mod Guards
pub mod Refinement
pub mod History
pub mod Soundness
pub mod Editing
mod Tests
use brsr_v.Prelude.{
  is_one_of, ℕ, Bool, true, false, not, ◌&&◌, ◌||◌, Option, none, some, List, [], ◌∷◌, ◌++◌, Text,
  text_eq, codes, ltb, ◌==◌, if◌then◌else◌,
}
use brsr_v.Schema.{
  MetricStatus, MetricSourceType, Event, EntityNode, Audited, event_data, CanonicalMetric, draft,
  submitted, approved, locked, extraction, manual, calculation, api,
}
use brsr_v.Platform.{
  Platform, Number, Db, Refusal, Answer, bad_request, not_found, conflict, done, refused,
}
use brsr_v.Audit.{AuditLogInput, log}

-- `MetricSource`
pub data MetricSource : Type 0 where
  from_manual extracted imported calculated erp : MetricSource

abbrev pub map_source : Option MetricSource → MetricSourceType
map_source (some extracted) = extraction
map_source (some calculated) = calculation
map_source (some erp) = api
map_source _ = manual

abbrev pub is_draft : MetricStatus → Bool
is_draft draft = true
is_draft _ = false

abbrev pub is_submitted : MetricStatus → Bool
is_submitted submitted = true
is_submitted _ = false

abbrev pub is_approved : MetricStatus → Bool
is_approved approved = true
is_approved _ = false

abbrev pub is_editable : MetricStatus → Bool
is_editable s = is_draft s || is_submitted s

-- `!(reg.canonicalUnit && reg.canonicalUnit !== unit && !allowed.includes(unit))`
unfoldable pub unit_allowed : CanonicalMetric → Text → Bool
unfolding is_one_of
unit_allowed reg unit =
    text_eq reg.canonical_unit []
    || text_eq reg.canonical_unit unit
    || is_one_of unit reg.allowed_units

abbrev pub or_else : {A : Type 0} → Option A → A → A
or_else none a = a
or_else (some b) a = b

abbrev pub or_kept : {A : Type 0} → Option A → Option A → Option A
or_kept none a = a
or_kept (some b) a = some b

module _ (𝓟 : Platform) where
  open 𝓟 use {get, put, create, iso_string, id_string}

  -- `CreateMetricEventDto`; `value` is the decimal that the number in the request converts to
  pub record CreateMetricEventDto : Type 0 where
    pub canonical_key : Text
    pub scope_node : ℕ
    pub period_start : ℕ
    pub period_end : ℕ
    pub value : Number 𝓟
    pub unit : Text
    pub source : Option MetricSource
    pub extraction_field : Option ℕ
    pub notes : Option Text
    pub metadata : Option Text

  -- `UpdateMetricEventDto`, the fields that the update reads
  pub record UpdateMetricEventDto : Type 0 where
    pub scope_node : Option ℕ
    pub period_start : Option ℕ
    pub period_end : Option ℕ
    pub value : Option (Number 𝓟)
    pub unit : Option Text
    pub notes : Option Text
    pub metadata : Option Text

  abbrev pub of_tenant : ℕ → Option (Event (Number 𝓟)) → Option (Event (Number 𝓟))
  of_tenant tenant none = none
  of_tenant tenant (some e) = if e.tenant == tenant then some e else none

  -- the event of the tenant with an id
  unfoldable pub find_one : Db 𝓟 → ℕ → ℕ → Option (Event (Number 𝓟))
  find_one db tenant id = of_tenant tenant (get db.events id)

  abbrev pub is_owner : ℕ → Option (EntityNode (Number 𝓟)) → Bool
  is_owner tenant none = false
  is_owner tenant (some n) = n.tenant == tenant

  -- `entityNode.findFirst({ where: { id, tenantId } })` finds one
  unfoldable pub owns_node : Db 𝓟 → ℕ → ℕ → Bool
  owns_node db tenant id = is_owner tenant (get db.nodes id)

  abbrev pub Handled : Type 0
  Handled = Db 𝓟 × Answer (ℕ × Event (Number 𝓟))

  abbrev pub refuse : Db 𝓟 → Refusal → Handled
  refuse db r = (db, refused r)

  abbrev pub Handler : Type 0
  Handler = Event (Number 𝓟) → Handled

  -- `findOne`, which throws when there is no such event
  abbrev pub with_event : Db 𝓟 → Option (Event (Number 𝓟)) → Handler → Handled
  with_event db none handle = refuse db not_found
  with_event db (some e) handle = handle e

  abbrev pub audited : Option (Event (Number 𝓟)) → Option (Audited (Number 𝓟))
  audited none = none
  audited (some e) = some (event_data e)

  -- what the audit log is told of an event
  abbrev pub event_entry :
      ℕ → ℕ → Text → ℕ → Option (Event (Number 𝓟)) → Event (Number 𝓟) → AuditLogInput 𝓟
  event_entry tenant actor action id before after = record {
    tenant = tenant;
    user = actor;
    entity = codes "MetricEvent";
    entity_id = some id;
    action = action;
    before = audited before;
    after = some (event_data after);
  }

  -- the update of an event, with its entry in the audit log
  unfoldable pub save : Db 𝓟 → ℕ → ℕ → Text → ℕ → Event (Number 𝓟) → Event (Number 𝓟) → Handled
  unfolding log
  save db tenant actor action id before after = (
    log 𝓟 (event_entry tenant actor action id (some before) after)
        (record db { events = put db.events id after }),
    done (id, after),
  )

  -- the event that `create` stores; `now` is the database's default for the time of submission
  abbrev pub new_event : ℕ → CreateMetricEventDto → ℕ → ℕ → Event (Number 𝓟)
  new_event tenant dto actor now = record {
    tenant = tenant;
    scope_node = dto.scope_node;
    canonical_key = dto.canonical_key;
    period_start = dto.period_start;
    period_end = dto.period_end;
    value = dto.value;
    unit = dto.unit;
    dimensions = or_else dto.metadata (codes "{}");
    source_type = map_source dto.source;
    source_extraction = dto.extraction_field;
    source_calc_run = none;
    status = draft;
    submitted_by = actor;
    submitted_at = now;
    approved_by = none;
    approved_at = none;
    comment = dto.notes;
  }

  unfoldable pub store_new : Db 𝓟 → ℕ → ℕ → Event (Number 𝓟) → Handled
  unfolding log
  store_new db tenant actor e =
      let (id, events) = create db.events e in
      (
        log 𝓟 (event_entry tenant actor (codes "create") id none e) (record db { events = events }),
        done (id, e),
      )

  -- `create`, once the registry has answered
  abbrev pub create_registered :
      Db 𝓟 → ℕ → CreateMetricEventDto → ℕ → ℕ → Option CanonicalMetric → Handled
  create_registered db tenant dto actor now none = refuse db bad_request
  create_registered db tenant dto actor now (some reg) =
      if not (unit_allowed reg dto.unit)
      then refuse db bad_request
      else if ltb dto.period_end dto.period_start
      then refuse db bad_request
      else store_new db tenant actor (new_event tenant dto actor now)

  unfoldable pub create_event : Db 𝓟 → ℕ → CreateMetricEventDto → ℕ → ℕ → Handled
  unfolding owns_node unit_allowed store_new
  create_event db tenant dto actor now =
      if not (owns_node db tenant dto.scope_node)
      then refuse db bad_request
      else create_registered db tenant dto actor now (db.registry dto.canonical_key)

  abbrev pub edited : Event (Number 𝓟) → UpdateMetricEventDto → Event (Number 𝓟)
  edited e dto = record e {
    value = or_else dto.value e.value;
    unit = or_else dto.unit e.unit;
    scope_node = or_else dto.scope_node e.scope_node;
    period_start = or_else dto.period_start e.period_start;
    period_end = or_else dto.period_end e.period_end;
    comment = or_kept dto.notes e.comment;
    dimensions = or_else dto.metadata e.dimensions;
  }

  -- whether an update may move the event to the scope node that it names
  abbrev pub scope_allowed : Db 𝓟 → ℕ → Event (Number 𝓟) → Option ℕ → Bool
  scope_allowed db tenant e none = true
  scope_allowed db tenant e (some node) = node == e.scope_node || owns_node db tenant node

  unfoldable pub update_event : Db 𝓟 → ℕ → ℕ → UpdateMetricEventDto → ℕ → Handled
  unfolding find_one owns_node save
  update_event db tenant id dto actor = with_event db (find_one db tenant id) λ e.
      if not (is_editable e.status)
      then refuse db conflict
      else if not (scope_allowed db tenant e dto.scope_node)
      then refuse db bad_request
      else save db tenant actor (codes "UPDATE") id e (edited e dto)

  unfoldable pub submit : Db 𝓟 → ℕ → ℕ → ℕ → ℕ → Handled
  unfolding find_one save
  submit db tenant id actor now = with_event db (find_one db tenant id) λ e.
      if not (is_draft e.status)
      then refuse db conflict
      else save db tenant actor (codes "UPDATE") id e
          (record e { status = submitted; submitted_at = now; submitted_by = actor })

  unfoldable pub approve : Db 𝓟 → ℕ → ℕ → ℕ → ℕ → Handled
  unfolding find_one save
  approve db tenant id actor now = with_event db (find_one db tenant id) λ e.
      if not (is_submitted e.status)
      then refuse db conflict
      else if e.submitted_by == actor
      then refuse db conflict
      else save db tenant actor (codes "APPROVE") id e
          (record e { status = approved; approved_at = some now; approved_by = some actor })

  abbrev pub rejection : ℕ → ℕ → Text → Text
  rejection now actor reason =
      codes "[REJECTED "
      ++ iso_string now
      ++ codes " by "
      ++ id_string actor
      ++ codes "] "
      ++ reason

  unfoldable pub reject : Db 𝓟 → ℕ → ℕ → Text → ℕ → ℕ → Handled
  unfolding find_one save
  reject db tenant id reason actor now = with_event db (find_one db tenant id) λ e.
      if not (is_submitted e.status)
      then refuse db conflict
      else save db tenant actor (codes "REJECT") id e
          (record e { status = draft; comment = some (rejection now actor reason) })

  unfoldable pub lock : Db 𝓟 → ℕ → ℕ → ℕ → Handled
  unfolding find_one save
  lock db tenant id actor = with_event db (find_one db tenant id) λ e.
      if not (is_approved e.status)
      then refuse db conflict
      else save db tenant actor (codes "LOCK") id e (record e { status = locked })

  -- the requests that change an event, by the controller's routes
  pub data Request : Type 0 where
    create_one : CreateMetricEventDto → Request
    update_one : ℕ → UpdateMetricEventDto → Request
    submit_one approve_one lock_one : ℕ → Request
    reject_one : ℕ → Text → Request

  unfoldable pub handle : ℕ → ℕ → ℕ → Db 𝓟 → Request → Handled
  unfolding create_event update_event submit approve reject lock
  handle tenant actor now db (create_one dto) = create_event db tenant dto actor now
  handle tenant actor now db (update_one id dto) = update_event db tenant id dto actor
  handle tenant actor now db (submit_one id) = submit db tenant id actor now
  handle tenant actor now db (approve_one id) = approve db tenant id actor now
  handle tenant actor now db (reject_one id reason) = reject db tenant id reason actor now
  handle tenant actor now db (lock_one id) = lock db tenant id actor
