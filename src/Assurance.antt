-- ===== src/Assurance.antt =====
-- Assurance snapshots and exceptions (services/api/src/assurance/assurance.service.ts).
pub mod Anchor
pub mod Binding
pub mod Exceptions
pub mod History
pub mod Members
pub mod Samples
pub mod Sampling
mod Tests
use brsr_v.Prelude.{
  ℕ, suc, Bool, true, false, not, ◌&&◌, ◌||◌, Option, none, some, List, [], ◌∷◌, ◌++◌, map, Text,
  text_eq, codes, length, ◌==◌, if◌then◌else◌,
}
use brsr_v.Schema.{
  Event, approved, locked, MetricStatus, AssuranceSnapshot, AuditException, ExceptionSeverity,
  ExceptionStatus, low, medium, high, raised, in_review, responded, closed, Audited, snapshot_data,
  exception_data,
}
use brsr_v.Platform.{Platform, Number, Db, Refusal, Answer, bad_request, not_found, done, refused}
use brsr_v.Audit.{AuditLogInput, log, upper}
use brsr_v.Calculations.Process.{is_final}
use brsr_v.Calculations.Service.{is_listed, ids_of}
use brsr_v.Metrics.{or_else}
use brsr_v.Assurance.Anchor.{Hashing, Member, hash_object}
use brsr_v.Assurance.Sampling.{SamplingMethod, sample_items}

pub record CreateSnapshotDto : Type 0 where
  pub fy : Text
  pub framework : Text
  pub scope_nodes : List ℕ
  pub note : Option Text

pub record SampleSnapshotDto : Type 0 where
  pub method : SamplingMethod
  pub size : ℕ
  pub canonical_key : Option Text

abbrev pub has_source : Option ℕ → Bool
has_source none = false
has_source (some id) = true

module _ (𝓟 : Platform) where
  open 𝓟 use {get, put, create, many, id_string}

  abbrev pub Row : Type 0
  Row = ℕ × Event (Number 𝓟)

  unfoldable pub evidence : List Row → ℕ
  evidence [] = 0
  evidence ((id, e) ∷ es) =
      let n = evidence es in if has_source e.source_extraction then suc n else n

  abbrev pub snapshot_entry : ℕ → ℕ → ℕ → AssuranceSnapshot → AuditLogInput 𝓟
  snapshot_entry tenant actor id row = record {
    tenant = tenant;
    user = actor;
    entity = codes "AssuranceSnapshot";
    entity_id = some id;
    action = codes "CREATE";
    before = none;
    after = some (snapshot_data row);
  }

  -- the approved and locked events of the tenant's that belong to the listed nodes
  unfoldable pub members : Db 𝓟 → ℕ → List ℕ → List Row
  unfolding is_listed
  members db tenant nodes =
      many db.events (λ e. e.tenant == tenant && is_listed e.scope_node nodes && is_final e.status)

  -- `by_id` is `ORDER BY id` of the database, `text_of` the text of a decimal.
  module _ (H : Hashing) (by_id : List Row → List Row) (text_of : Number 𝓟 → Text) where
    abbrev pub hashed : Row → Member
    hashed (id, e) = record { id = id_string id; value = text_of e.value; unit = e.unit }

    unfoldable pub new_snapshot : ℕ → CreateSnapshotDto → List Row → AssuranceSnapshot
    unfolding evidence hash_object ids_of
    new_snapshot tenant dto events = record {
      tenant = tenant;
      fy = dto.fy;
      framework = dto.framework;
      scope_nodes = dto.scope_nodes;
      metric_events = ids_of 𝓟 events;
      note = dto.note;
      metric_count = length events;
      evidence_count = evidence events;
      hash_anchor = hash_object H (map hashed events);
    }

    unfoldable pub create_snapshot :
        Db 𝓟 → ℕ → CreateSnapshotDto → ℕ → Db 𝓟 × (ℕ × AssuranceSnapshot)
    unfolding members new_snapshot log
    create_snapshot db tenant dto actor =
        let row = new_snapshot tenant dto (by_id (members db tenant dto.scope_nodes)) in
        let (id, snapshots) = create db.snapshots row in
        (
          log 𝓟 (snapshot_entry tenant actor id row) (record db { snapshots = snapshots }),
          (id, row),
        )

  -- `findFirst` of a snapshot by id and tenant
  abbrev pub of_tenant : ℕ → Option AssuranceSnapshot → Option AssuranceSnapshot
  of_tenant tenant none = none
  of_tenant tenant (some s) = if s.tenant == tenant then some s else none

  abbrev pub find_snapshot : Db 𝓟 → ℕ → ℕ → Option AssuranceSnapshot
  find_snapshot db tenant id = of_tenant tenant (get db.snapshots id)

  unfoldable pub only_members : List ℕ → List Row → List Row
  unfolding is_listed
  only_members ids [] = []
  only_members ids ((id, e) ∷ es) =
      let rest = only_members ids es in if is_listed id ids then (id, e) ∷ rest else rest

  -- an empty key is no restriction
  abbrev pub key_matches : Option Text → Text → Bool
  key_matches none key = true
  key_matches (some k) key = text_eq k [] || text_eq key k

  -- the events of a snapshot that are still there
  unfoldable pub snapshot_items : Db 𝓟 → ℕ → AssuranceSnapshot → Option Text → List Row
  unfolding only_members
  snapshot_items db tenant snapshot key =
      only_members snapshot.metric_events
        (many db.events (λ e. e.tenant == tenant && key_matches key e.canonical_key))

  -- `lower` compares the numbers that two values are, `draws` are the random indices.
  module _ (lower : Row → Row → Bool) (draws : ℕ → ℕ → ℕ) where
    abbrev pub sampled : Db 𝓟 → ℕ → SampleSnapshotDto → Option AssuranceSnapshot → Answer (List Row)
    unfolding sample_items snapshot_items
    sampled db tenant dto none = refused not_found
    sampled db tenant dto (some snapshot) = done (
        sample_items (λ (id, e). e.canonical_key) lower draws dto.method dto.size
          (snapshot_items db tenant snapshot dto.canonical_key))

    unfoldable pub sample : Db 𝓟 → ℕ → ℕ → SampleSnapshotDto → Answer (List Row)
    unfolding sampled
    sample db tenant id dto = sampled db tenant dto (find_snapshot db tenant id)
