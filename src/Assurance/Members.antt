-- ===== src/Assurance/Members.antt =====
-- The members of a stored snapshot.
use brsr_v.Prelude.{ℕ, suc, ◌≡◌, true, none, some, List, [], ◌∷◌, All, Somewhere, map, length, Text}
use brsr_v.Schema.{Event, AssuranceSnapshot}
use brsr_v.Platform.{Platform, Number, Db}
use brsr_v.Calculations.Process.{is_final}
use brsr_v.Calculations.Service.{is_listed}
use brsr_v.Assurance.{CreateSnapshotDto, Row}

module _ (𝓟 : Platform) where
  open 𝓟 use {get, create, many, takes}

  -- an event of the tenant's that belongs to one of the nodes and is approved or locked
  pub record IsMember (db : Db 𝓟) (tenant : ℕ) (nodes : List ℕ) (x : Row 𝓟) : Type 0 where
    pub event_stored : get db.events x.0 ≡ some x.1
    pub of_tenant : x.1.tenant ≡ tenant
    pub of_nodes : is_listed x.1.scope_node nodes ≡ true
    pub final : is_final x.1.status ≡ true

  -- so many of the events come from an extraction
  pub data Sourced : List (Row 𝓟) → ℕ → Type 0 where
    no_events : Sourced [] 0
    without :
        (id : ℕ) (e : Event (Number 𝓟)) (es : List (Row 𝓟)) (n : ℕ)
        → e.source_extraction ≡ none
        → Sourced es n
        → Sourced ((id, e) ∷ es) n
    with_source :
        (id field : ℕ) (e : Event (Number 𝓟)) (es : List (Row 𝓟)) (n : ℕ)
        → e.source_extraction ≡ some field
        → Sourced es n
        → Sourced ((id, e) ∷ es) (suc n)

  -- The stored row of a snapshot of the events `es`, where `anchor` is the hash of them.
  pub record IsSnapshot (db db' : Db 𝓟) (tenant : ℕ) (dto : CreateSnapshotDto)
      (anchor : List (Row 𝓟) → Text) (id : ℕ) (row : AssuranceSnapshot) : Type 0 where
    pub es : List (Row 𝓟)
    pub row_stored : get db'.snapshots id ≡ some row
    pub of_tenant : row.tenant ≡ tenant
    pub of_request :
        (row.fy ≡ dto.fy)
        × (row.framework ≡ dto.framework)
        × (row.scope_nodes ≡ dto.scope_nodes)
        × (row.note ≡ dto.note)
    pub are_members : All (IsMember db tenant dto.scope_nodes) es
    pub all_members : (x : Row 𝓟) → IsMember db tenant dto.scope_nodes x → Somewhere (λ y. y ≡ x) es
    pub listed : row.metric_events ≡ map (λ x. x.0) es
    pub counted : row.metric_count ≡ length es
    pub sourced : Sourced es row.evidence_count
    pub anchored : row.hash_anchor ≡ anchor es
    pub same_events : db'.events ≡ db.events
