-- ===== src/Platform.antt =====
-- What the services stand on: the database client (Prisma) and decimal.js. Neither is in the
-- repository, so both are a parameter of every definition that uses them.
pub mod Laws
pub mod Memory
use brsr_v.Prelude.{ℕ, Option, List, Bool, Text}
use brsr_v.Cel.Decimal.{Decimal}
use brsr_v.Schema.{
  ExtractionField, Document, Event, EntityNode, CanonicalMetric, AuditRow, CalcRun,
  FrameworkMapping, EmissionFactor, AssuranceSnapshot, AuditException,
}

pub record Platform : Type 1 where
  pub numbers : Decimal
  -- a table: rows under their ids
  pub Rows : Type 0 → Type 0
  -- `findUnique` by id
  pub get : {A : Type 0} → Rows A → ℕ → Option A
  -- `update` of the row with an id
  pub put : {A : Type 0} → Rows A → ℕ → A → Rows A
  -- `create`: the id that the database gives the row, and the table
  pub create : {A : Type 0} → Rows A → A → ℕ × Rows A
  -- `findMany` by a condition on the columns
  pub many : {A : Type 0} → Rows A → (A → Bool) → List (ℕ × A)
  -- `Date.toISOString`, and the string that an id is
  pub iso_string : ℕ → Text
  pub id_string : ℕ → Text
  -- the JSON text of an object whose properties are strings
  pub json_object : List (Text × Text) → Text
  -- whether the database takes a row of the audit log, or the client throws
  pub takes : AuditRow (Decimal.D numbers) → Bool

module _ (𝓟 : Platform) where
  open 𝓟 use {Rows, numbers}

  abbrev pub Number : Type 0
  Number = Decimal.D numbers

  -- The tables of the database. `audit` is the audit log, newest row first.
  pub record Db : Type 0 where
    pub events : Rows (Event Number)
    pub nodes : Rows (EntityNode Number)
    pub fields : Rows (ExtractionField Number)
    pub documents : Rows Document
    pub runs : Rows (CalcRun Number)
    pub snapshots : Rows AssuranceSnapshot
    pub exceptions : Rows AuditException
    pub mappings : List FrameworkMapping
    pub factors : List (EmissionFactor Number)
    pub registry : Text → Option CanonicalMetric
    pub audit : List (AuditRow Number)

-- The exceptions of the handlers, which the framework turns into HTTP statuses.
pub data Refusal : Type 0 where
  bad_request not_found conflict : Refusal

-- What a handler answers.
pub data Answer (A : Type 0) : Type 0 where
  done : A → Answer A
  refused : Refusal → Answer A
