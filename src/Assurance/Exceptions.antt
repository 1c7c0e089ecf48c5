-- ===== src/Assurance/Exceptions.antt =====
-- The exceptions that auditors raise on a snapshot: `createException` and `respondException` of
-- assurance.service.ts. `now` is the time that a response reads.
use mathlib.Core.Option
use brsr_v.Prelude.{
  ℕ, Bool, true, false, not, ◌&&◌, Option, none, some, [], map, Text, text_eq, codes, ◌==◌,
  if◌then◌else◌,
}
use brsr_v.Schema.{
  AssuranceSnapshot, AuditException, ExceptionSeverity, ExceptionStatus, low, medium, high, raised,
  in_review, responded, closed, exception_data,
}
use brsr_v.Platform.{Platform, Db, Answer, bad_request, not_found, done, refused}
use brsr_v.Audit.{AuditLogInput, log, upper}
use brsr_v.Metrics.{or_else}
use brsr_v.Assurance.{find_snapshot}

-- `AuditExceptionResponseStatus`
pub data ResponseStatus : Type 0 where
  to_review to_responded to_closed : ResponseStatus

abbrev pub status_of : ResponseStatus → ExceptionStatus
status_of to_review = in_review
status_of to_responded = responded
status_of to_closed = closed

pub record CreateExceptionDto : Type 0 where
  pub snapshot : Option ℕ
  pub metric_event : Option ℕ
  pub severity : Option Text
  pub title : Option Text
  pub description : Option Text

pub record RespondExceptionDto : Type 0 where
  pub response : Option Text
  pub status : Option ResponseStatus

abbrev pub is_closed : ExceptionStatus → Bool
is_closed closed = true
is_closed _ = false

unfoldable pub severity_named : Text → Option ExceptionSeverity
severity_named s =
    if text_eq s (codes "LOW")
    then some low
    else if text_eq s (codes "MEDIUM")
    then some medium
    else if text_eq s (codes "HIGH")
    then some high
    else none

-- `toUpperCase` of a code unit, as far as it gives a letter of a severity: ı is the one unit outside
-- ASCII that does
abbrev pub upper_unit : ℕ → ℕ
upper_unit c = if c == 305 then b'I' else upper c

module _ (𝓟 : Platform) where
  open 𝓟 use {get, put, create}

  abbrev pub new_exception : ℕ → CreateExceptionDto → ExceptionSeverity → ℕ → AuditException
  new_exception snapshot dto severity actor = record {
    snapshot = snapshot;
    metric_event = dto.metric_event;
    severity = severity;
    description = or_else dto.description (or_else dto.title []);
    management_response = none;
    status = raised;
    raised_by = actor;
    closed_at = none;
  }

  abbrev pub exception_entry :
      ℕ → ℕ → ℕ → Text → Option AuditException → AuditException → AuditLogInput 𝓟
  exception_entry tenant actor id action before after = record {
    tenant = tenant;
    user = actor;
    entity = codes "AuditException";
    entity_id = some id;
    action = action;
    before = Option.map exception_data before;
    after = some (exception_data after);
  }

  unfoldable pub store_exception :
      Db 𝓟
      → ℕ
      → ℕ
      → CreateExceptionDto
      → ℕ
      → Option ExceptionSeverity
      → Db 𝓟 × Answer (ℕ × AuditException)
  unfolding log
  store_exception db tenant snapshot dto actor none = (db, refused bad_request)
  store_exception db tenant snapshot dto actor (some severity) =
      let row = new_exception snapshot dto severity actor in
      let (id, exceptions) = create db.exceptions row in
      (
        log 𝓟 (exception_entry tenant actor id (codes "CREATE") none row)
            (record db { exceptions = exceptions }),
        done (id, row),
      )

  unfoldable pub severity_of : Option Text → Option ExceptionSeverity
  unfolding severity_named
  severity_of none = none
  severity_of (some s) = severity_named (map upper_unit s)

  unfoldable pub raise_on :
      Db 𝓟
      → ℕ
      → ℕ
      → CreateExceptionDto
      → ℕ
      → Option AssuranceSnapshot
      → Db 𝓟 × Answer (ℕ × AuditException)
  unfolding store_exception severity_of
  raise_on db tenant snapshot dto actor none = (db, refused not_found)
  raise_on db tenant snapshot dto actor (some s) =
      store_exception db tenant snapshot dto actor (severity_of dto.severity)

  unfoldable pub raise_named :
      Db 𝓟 → ℕ → CreateExceptionDto → ℕ → Option ℕ → Db 𝓟 × Answer (ℕ × AuditException)
  unfolding raise_on
  raise_named db tenant dto actor none = (db, refused bad_request)
  raise_named db tenant dto actor (some snapshot) =
      raise_on db tenant snapshot dto actor (find_snapshot 𝓟 db tenant snapshot)

  unfoldable pub create_exception :
      Db 𝓟 → ℕ → CreateExceptionDto → ℕ → Db 𝓟 × Answer (ℕ × AuditException)
  unfolding raise_named
  create_exception db tenant dto actor = raise_named db tenant dto actor dto.snapshot

  -- the exception, where its snapshot is of the tenant
  abbrev pub of_snapshot : AuditException → Option AssuranceSnapshot → Option AuditException
  of_snapshot e none = none
  of_snapshot e (some s) = some e

  abbrev pub with_snapshot : Db 𝓟 → ℕ → Option AuditException → Option AuditException
  with_snapshot db tenant none = none
  with_snapshot db tenant (some e) = of_snapshot e (find_snapshot 𝓟 db tenant e.snapshot)

  unfoldable pub find_exception : Db 𝓟 → ℕ → ℕ → Option AuditException
  find_exception db tenant id = with_snapshot db tenant (get db.exceptions id)

  abbrev pub answered : AuditException → RespondExceptionDto → ExceptionStatus → ℕ → AuditException
  answered before dto status now = record before {
    management_response = dto.response;
    status = status;
    closed_at = if is_closed status then some now else before.closed_at;
  }

  unfoldable pub respond_found :
      Db 𝓟
      → ℕ
      → ℕ
      → RespondExceptionDto
      → ℕ
      → ℕ
      → Option AuditException
      → Db 𝓟 × Answer AuditException
  unfolding log
  respond_found db tenant id dto actor now none = (db, refused not_found)
  respond_found db tenant id dto actor now (some before) =
      let status = status_of (or_else dto.status to_responded) in
      let after = answered before dto status now in
      if is_closed before.status && not (is_closed status) then (db, refused bad_request) else (
        log 𝓟 (exception_entry tenant actor id (codes "UPDATE") (some before) after)
            (record db { exceptions = put db.exceptions id after }),
        done after,
      )

  unfoldable pub respond_exception :
      Db 𝓟 → ℕ → ℕ → RespondExceptionDto → ℕ → ℕ → Db 𝓟 × Answer AuditException
  unfolding respond_found find_exception
  respond_exception db tenant id dto actor now =
      respond_found db tenant id dto actor now (find_exception db tenant id)
