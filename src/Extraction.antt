-- ===== src/Extraction.antt =====
-- The review of extracted fields: `ExtractionService` (services/api/src/extraction/extraction.service.ts).
-- A handler gives the database that it leaves and its answer; `now` is the time it reads.
mod Values
mod Events
pub mod Bulk
pub mod Promotion
pub mod Single
mod Tests
use brsr_v.Prelude.{
  ℕ, suc, ◌+◌, Bool, true, false, not, ◌&&◌, ◌||◌, Option, none, some, List, [], ◌∷◌, ◌++◌, Text,
  codes, ltb, ◌==◌, if◌then◌else◌, length,
}
use brsr_v.Cel.Decimal.{Decimal}
use brsr_v.Cel.Lexer.{is_digit}
use brsr_v.Schema.{
  ExtractionField, ExtractionStatus, approved, rejected, overridden, Document, Event,
  CanonicalMetric, MetricStatus, Audited, field_data, event_data, extraction,
}
use brsr_v.Platform.{Platform, Number, Db, Answer, Refusal, conflict, not_found, done, refused}
use brsr_v.Audit.{AuditLogInput, log}
use brsr_v.Metrics.{unit_allowed, or_else, or_kept}
unfoldable pub use Values.*
unfoldable pub use Events.*

abbrev pub is_approved_field : ExtractionStatus → Bool
is_approved_field approved = true
is_approved_field _ = false

module _ (𝓟 : Platform) where
  open 𝓟 use {numbers, Rows, get, put, create, many, id_string}

  abbrev pub Field : Type 0
  Field = ExtractionField (Number 𝓟)

  -- `UpdateExtractionFieldDto`
  pub record UpdateExtractionFieldDto : Type 0 where
    pub value : FieldValue 𝓟
    pub unit : Option Text
    pub notes : Option Text

  abbrev pub field_of_tenant : ℕ → Option Field → Option Field
  field_of_tenant tenant none = none
  field_of_tenant tenant (some f) = if f.tenant == tenant then some f else none

  -- `extractionField.findFirst({ where: { id, tenantId } })`
  unfoldable pub find_field : Db 𝓟 → ℕ → ℕ → Option Field
  find_field db tenant id = field_of_tenant tenant (get db.fields id)

  abbrev pub FieldHandled : Type 0
  FieldHandled = Db 𝓟 × Answer (ℕ × Field)

  abbrev pub with_field : Db 𝓟 → Option Field → (Field → FieldHandled) → FieldHandled
  with_field db none handle = (db, refused not_found)
  with_field db (some f) handle = handle f

  abbrev pub field_entry :
      ℕ
      → ℕ
      → Text
      → Option ℕ
      → Option (Audited (Number 𝓟))
      → Option (Audited (Number 𝓟))
      → AuditLogInput 𝓟
  field_entry tenant actor action id before after = record {
    tenant = tenant;
    user = actor;
    entity = codes "ExtractionField";
    entity_id = id;
    action = action;
    before = before;
    after = after;
  }

  -- the update of a field, with its entry in the audit log
  unfoldable pub save_field : Db 𝓟 → ℕ → ℕ → Text → ℕ → Field → Field → Db 𝓟
  unfolding log
  save_field db tenant actor action id before after =
      log 𝓟
        (field_entry tenant actor action (some id) (some (field_data before))
          (some (field_data after)))
        (record db { fields = put db.fields id after })

  abbrev pub overridden_field : Field → UpdateExtractionFieldDto → ℕ → ℕ → Field
  unfolding stored_value
  overridden_field f dto actor now =
      let (text, num) = stored_value 𝓟 dto.value in
      record f {
        value_text = text;
        value_num = num;
        unit_extracted = or_kept dto.unit f.unit_extracted;
        override_reason = or_kept dto.notes f.override_reason;
        status = overridden;
        reviewed_at = some now;
        reviewed_by = some actor;
      }

  unfoldable pub update_field : Db 𝓟 → ℕ → ℕ → UpdateExtractionFieldDto → ℕ → ℕ → FieldHandled
  unfolding find_field save_field overridden_field
  update_field db tenant id dto actor now = with_field db (find_field db tenant id) λ f.
      if is_approved_field f.status then (db, refused conflict) else (
        save_field db tenant actor (codes "OVERRIDE") id f (overridden_field f dto actor now),
        done (id, overridden_field f dto actor now),
      )

  abbrev pub rejected_field : Field → Text → ℕ → ℕ → Field
  rejected_field f reason actor now = record f {
    status = rejected;
    override_reason = some reason;
    reviewed_at = some now;
    reviewed_by = some actor;
  }

  unfoldable pub reject_field : Db 𝓟 → ℕ → ℕ → Text → ℕ → ℕ → FieldHandled
  unfolding find_field save_field
  reject_field db tenant id reason actor now = with_field db (find_field db tenant id) λ f. (
    save_field db tenant actor (codes "REJECT") id f (rejected_field f reason actor now),
    done (id, rejected_field f reason actor now),
  )

  -- what a promotion needs besides the registry
  pub record Parts : Type 0 where
    pub start : ℕ
    pub end : ℕ
    pub value : Number 𝓟
    pub node : ℕ

  abbrev pub with_document :
      Option ℕ → Option ℕ → Option (Number 𝓟) → Option Document → Option Parts
  with_document (some start) (some end) (some value) (some d) =
      some (record { start = start; end = end; value = value; node = d.scope_node })
  with_document _ _ _ _ = none

  -- A document has no columns for a period, so that the field's own is the only one.
  abbrev pub parts_of : Db 𝓟 → Field → Option Parts
  parts_of db f =
      with_document f.period_start f.period_end f.value_num (get db.documents f.document)

  abbrev pub promoted_unit : Field → CanonicalMetric → Text
  promoted_unit f reg = or_else f.unit_extracted reg.canonical_unit

  unfoldable pub promote_registered :
      Db 𝓟 → ℕ → Field → ℕ → ℕ → Option CanonicalMetric → Option Parts → Db 𝓟 × Option ℕ
  unfolding unit_allowed store_promoted
  promote_registered db id f actor now (some reg) (some parts) =
      if not (unit_allowed reg (promoted_unit f reg))
      then (db, none)
      else store_promoted 𝓟 db f actor (
          promoted_event 𝓟 id f parts.value parts.start parts.end (promoted_unit f reg) parts.node
            actor now)
  promote_registered db id f actor now _ _ = (db, none)

  abbrev pub promote_new : Db 𝓟 → ℕ → Field → ℕ → ℕ → List (ℕ × Event (Number 𝓟)) → Db 𝓟 × Option ℕ
  unfolding promote_registered
  promote_new db id f actor now ((i, e) ∷ es) = (db, some i)
  promote_new db id f actor now [] =
      promote_registered db id f actor now (db.registry f.canonical_key) (parts_of db f)

  -- `promoteToMetricEvent`, and the id of the event that it returns
  unfoldable pub promote : Db 𝓟 → ℕ → Field → ℕ → ℕ → Db 𝓟 × Option ℕ
  unfolding promote_new
  promote db id f actor now =
      promote_new db id f actor now (many db.events (comes_from 𝓟 f.tenant id))

  abbrev pub approved_field : Field → ℕ → ℕ → Field
  approved_field f actor now = record f {
    status = approved;
    reviewed_at = some now;
    reviewed_by = some actor;
  }

  unfoldable pub approve_field : Db 𝓟 → ℕ → ℕ → ℕ → ℕ → FieldHandled
  unfolding find_field save_field promote
  approve_field db tenant id actor now = with_field db (find_field db tenant id) λ f.
      if is_approved_field f.status
      then (db, done (id, f))
      else let after = approved_field f actor now in
        let saved = save_field db tenant actor (codes "APPROVE") id f after in
        ((promote saved id after actor now).0, done (id, after))
