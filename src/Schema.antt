-- ===== src/Schema.antt =====
-- The rows that the services read and write (services/api/prisma/schema.prisma), by the columns
-- that they use. Ids and users are opaque strings that are only compared: a number stands for one.
-- A date is its number of milliseconds, a JSON object its text.
use brsr_v.Prelude.{ℕ, Option, List, Text}

pub data MetricStatus : Type 0 where
  draft submitted reviewed approved rejected locked : MetricStatus

pub data MetricSourceType : Type 0 where
  extraction manual calculation api : MetricSourceType

-- a row of metric_event, without its id and the two columns that score its data, which nothing
-- modelled reads
pub record Event (D : Type 0) : Type 0 where
  pub tenant : ℕ
  pub scope_node : ℕ
  pub canonical_key : Text
  pub period_start : ℕ
  pub period_end : ℕ
  pub value : D
  pub unit : Text
  pub dimensions : Text
  pub source_type : MetricSourceType
  pub source_extraction : Option ℕ
  pub source_calc_run : Option ℕ
  pub status : MetricStatus
  pub submitted_by : ℕ
  pub submitted_at : ℕ
  pub approved_by : Option ℕ
  pub approved_at : Option ℕ
  pub comment : Option Text

pub data EntityType : Type 0 where
  group legal_entity division site department : EntityType

-- a row of entity_node, without its id and the columns that the services only fill with constants;
-- the services never store a null path
pub record EntityNode (D : Type 0) : Type 0 where
  pub tenant : ℕ
  pub parent : Option ℕ
  pub type : EntityType
  pub code : Text
  pub name : Text
  pub ltree_path : Text
  pub country : Text
  pub state : Option Text
  pub lat : Option D
  pub lng : Option D
  pub effective_from : ℕ
  pub effective_to : Option ℕ
  pub metadata : Text
  pub employee_count : Option ℕ
  pub revenue : Option D

-- a row of document, by the columns in use
pub record Document : Type 0 where
  pub tenant : ℕ
  pub scope_node : ℕ

pub data ExtractionStatus : Type 0 where
  draft needs_review auto_accepted approved rejected overridden : ExtractionStatus

-- a row of extraction_field, by the columns in use
pub record ExtractionField (D : Type 0) : Type 0 where
  pub tenant : ℕ
  pub document : ℕ
  pub canonical_key : Text
  pub value_text : Option Text
  pub value_num : Option D
  pub unit_extracted : Option Text
  pub period_start : Option ℕ
  pub period_end : Option ℕ
  pub status : ExtractionStatus
  pub reviewed_by : Option ℕ
  pub reviewed_at : Option ℕ
  pub override_reason : Option Text

-- a row of canonical_metric, which the services only read
pub record CanonicalMetric : Type 0 where
  pub canonical_unit : Text
  pub allowed_units : List Text

-- the enum AuditActionType
pub data AuditAction : Type 0 where
  create update delete approve reject lock unlock : AuditAction
  export login impersonate sign extract override : AuditAction

-- the JSON object in the column `formula`
pub record FormulaJson : Type 0 where
  pub expression : Option Text
  pub unit : Option Text
  pub inputs : Option (List Text)

-- a row of framework_mapping; `formula` is none where the column holds no object
pub record FrameworkMapping : Type 0 where
  pub id : Text
  pub canonical_keys : List Text
  pub formula : Option FormulaJson
  pub version : Text

-- a row of assurance_snapshot, without its id, the time and the columns that are constants; its
-- column `scope` is the three fields after the framework
pub record AssuranceSnapshot : Type 0 where
  pub tenant : ℕ
  pub fy : Text
  pub framework : Text
  pub scope_nodes : List ℕ
  pub metric_events : List ℕ
  pub note : Option Text
  pub metric_count : ℕ
  pub evidence_count : ℕ
  pub hash_anchor : Text

pub data ExceptionSeverity : Type 0 where
  low medium high : ExceptionSeverity

pub data ExceptionStatus : Type 0 where
  raised in_review responded closed : ExceptionStatus

-- a row of audit_exception, without its id and the time; `raised` is the status OPEN
pub record AuditException : Type 0 where
  pub snapshot : ℕ
  pub metric_event : Option ℕ
  pub severity : ExceptionSeverity
  pub description : Text
  pub management_response : Option Text
  pub status : ExceptionStatus
  pub raised_by : ℕ
  pub closed_at : Option ℕ

-- what an entry of the audit log says of a row: the row, or the path and parent of a moved node
pub data Audited (D : Type 0) : Type 0 where
  event_data : Event D → Audited D
  node_data : EntityNode D → Audited D
  field_data : ExtractionField D → Audited D
  mapping_data : FrameworkMapping → Audited D
  path_data : Text → Option ℕ → Audited D
  snapshot_data : AssuranceSnapshot → Audited D
  exception_data : AuditException → Audited D

-- a row of audit_log, by the columns that do not come from the HTTP request
pub record AuditRow (D : Type 0) : Type 0 where
  pub tenant : ℕ
  pub actor : ℕ
  pub entity_type : Text
  pub entity_id : Option ℕ
  pub action : AuditAction
  pub before : Option (Audited D)
  pub after : Option (Audited D)

-- a row of calc_run, by the columns that a run uses
pub record CalcRun (D : Type 0) : Type 0 where
  pub tenant : ℕ
  pub scope_nodes : List ℕ
  pub period_start : ℕ
  pub period_end : ℕ
  pub computed_by : ℕ
  pub formula_version : Text
  pub output_key : Text
  pub output_value : D
  pub output_unit : Text
  pub input_metrics : List Text
  pub factor_ids : List Text
  pub duration : ℕ

-- a row of emission_factor; a factor without a tenant is everybody's
pub record EmissionFactor (D : Type 0) : Type 0 where
  pub tenant : Option ℕ
  pub activity_type : Text
  pub value : D
  pub unit : Text
