-- ===== src/Metrics/Lifecycle.antt =====
-- The state machine that the handlers of metrics.service.ts follow, as a relation on events.
use brsr_v.Prelude.{ℕ, ◌≤◌, ◌≡◌, ◌≢◌, true, Option, none, some, Text}
use brsr_v.Schema.{Event, CanonicalMetric, draft, submitted, approved, locked}
use brsr_v.Platform.{Platform, Number, Db}
use brsr_v.Metrics.{
  CreateMetricEventDto, UpdateMetricEventDto, is_editable, unit_allowed, edited, new_event,
  owns_node, scope_allowed, rejection,
}

module _ (𝓟 : Platform) where
  -- what a user of a tenant may make of an event of it
  pub data Step (db : Db 𝓟) (tenant : ℕ) (actor : ℕ) (now : ℕ)
      : Event (Number 𝓟) → Event (Number 𝓟) → Type 0 where
    edits :
        {e : Event (Number 𝓟)} (dto : UpdateMetricEventDto 𝓟)
        → is_editable e.status ≡ true
        → scope_allowed 𝓟 db tenant e dto.scope_node ≡ true
        → Step db tenant actor now e (edited 𝓟 e dto)
    submits :
        {e : Event (Number 𝓟)}
        → e.status ≡ draft
        → Step db tenant actor now e
            (record e { status = submitted; submitted_at = now; submitted_by = actor })
    approves :
        {e : Event (Number 𝓟)}
        → e.status ≡ submitted
        → e.submitted_by ≢ actor
        → Step db tenant actor now e
            (record e { status = approved; approved_at = some now; approved_by = some actor })
    rejects :
        {e : Event (Number 𝓟)} (reason : Text)
        → e.status ≡ submitted
        → Step db tenant actor now e
            (record e { status = draft; comment = some (rejection 𝓟 now actor reason) })
    locks :
        {e : Event (Number 𝓟)}
        → e.status ≡ approved
        → Step db tenant actor now e (record e { status = locked })

  -- the conditions under which an event is created
  pub record Admissible (db : Db 𝓟) (tenant : ℕ) (dto : CreateMetricEventDto 𝓟) : Type 0 where
    pub owned : owns_node 𝓟 db tenant dto.scope_node ≡ true
    pub entry : CanonicalMetric
    pub registered : db.registry dto.canonical_key ≡ some entry
    pub unit_is_allowed : unit_allowed entry dto.unit ≡ true
    pub period_ordered : dto.period_start ≤ dto.period_end

  -- What a request makes of the row under an id: nothing, a step, or a new event where none was.
  pub data Change (db : Db 𝓟) (tenant : ℕ) (actor : ℕ) (now : ℕ)
      : Option (Event (Number 𝓟)) → Option (Event (Number 𝓟)) → Type 0 where
    kept : {o o' : Option (Event (Number 𝓟))} → o' ≡ o → Change db tenant actor now o o'
    stepped :
        {o o' : Option (Event (Number 𝓟))} {e e' : Event (Number 𝓟)}
        → o ≡ some e
        → o' ≡ some e'
        → e.tenant ≡ tenant
        → Step db tenant actor now e e'
        → Change db tenant actor now o o'
    born :
        {o o' : Option (Event (Number 𝓟))} (dto : CreateMetricEventDto 𝓟)
        → o ≡ none
        → o' ≡ some (new_event 𝓟 tenant dto actor now)
        → Admissible db tenant dto
        → Change db tenant actor now o o'
