-- ===== src/Lib.antt =====
-- Verification of the core of the BRSR reporting platform: the formulas that compute its figures,
-- the runs that evaluate them, the life of the metric events that hold the figures, the extracted
-- fields that become events, the tree of entities that they belong to, the snapshots and
-- exceptions of auditors, the figures of reports, the guards of requests, and the units, paths,
-- dates and periods of the shared package.
--
-- A formula is a text in a subset of CEL (services/api/src/common/utils/cel-evaluator.ts).
-- Cel.Lexer is `tokenize`, Cel.Parser the class `Parser` (over the tokens that are left, in place
-- of a position), Cel.Syntax its tokens and trees with `binaryBp`, Cel.Value the values, units
-- and contexts, Cel.Call `evalCall`, and Cel.Eval `evalNode`, `resolveRef`, `evalBin` and the
-- public `validate` and `evaluate`. The numbers are those of decimal.js, a parameter
-- (Cel.Decimal).
--
-- A calculation run (services/api/src/calculations) is asked for through the service
-- (Calculations.Service: calculations.service.ts), which stores its row, and is taken up by the
-- processor (calculation.processor.ts). That takes the formulas of the framework mappings, sorts
-- them by their inputs (Calculations: `topoSortFormulas`), adds up the approved events of its
-- scope and period, evaluates each formula with the evaluator above (Calculations.Process), and
-- stores each value as an approved event (Calculations.Run: `process`). The service validates a
-- formula with the evaluator before it stores it, and gives every run a scope node, on which the
-- processor relies (Calculations.Start; Calculations.Validity and Calculations.Scoped: its tests
-- of the two requests, Calculations.Scope: the count of the scope nodes). A metric event goes
-- from draft over submitted and approved to locked through
-- services/api/src/metrics/metrics.service.ts (Metrics), and each change of it is written to the
-- audit log (Audit: services/api/src/audit/audit.service.ts; Audit.Merkle: its `merkleRoot`).
--
-- A field that a document's extraction has read is corrected, rejected or approved through
-- services/api/src/extraction/extraction.service.ts (Extraction; Extraction.Values: the value of
-- a correction; Extraction.Events: the row of a promotion; Extraction.Bulk: `bulkApprove`), and
-- its approval makes a draft metric event. The entities are a tree of nodes with paths, through
-- services/api/src/hierarchy/hierarchy.service.ts (Hierarchy; Hierarchy.Kinds: the types of nodes
-- and `validateParentChild`; Hierarchy.Import: `bulkImport` and `topoSort`). Shared is
-- packages/shared: Shared.Ltree is src/ltree.ts, Shared.Units is src/units.ts with the table of
-- aliases in Shared.Units.Aliases, Shared.Letters the methods of strings that both use, and
-- Shared.Tables a `Map`. The arithmetic of conversions and the lower case of a text are
-- parameters (Shared.Units: Numeric); a registration under `__proto__`, which replaces what the
-- tables of units inherit, has no registry as its result.
--
-- Dates and periods are packages/shared/src/dates.ts: Shared.Dates has the calendar of the
-- language's `Date` in UTC, as milliseconds from the start of the year 0, with fiscal years,
-- counts of days and `splitIntoMonths`, and Shared.Periods is `parsePeriod`. `Date.UTC` reads the
-- years 0 to 99 as 1900 to 1999, so theorems ask for years from 100 on. What the host's `Date`
-- makes of a day that its month does not have is a parameter.
--
-- Auditors work through services/api/src/assurance/assurance.service.ts. Assurance is `create`
-- and `sample`, Assurance.Sampling the three methods of sampling with `shuffle`,
-- Assurance.Exceptions the exceptions that are raised and answered, and Assurance.Anchor
-- `hashObject` of services/api/src/common/utils/hash.ts. SHA-256, the JSON text of a string,
-- `ORDER BY`, the text and the comparison of two decimals and the random indices are parameters.
--
-- The figures of a report come from `resolve` of services/api/src/brsr/brsr.service.ts (Brsr),
-- which takes the approved and locked metric events of a period by their keys and shows one value
-- for each framework mapping. The bounds of the fiscal year are arguments, since `parseFy` takes
-- them in the local time of the server, and a number stands in place of its text.
--
-- A request passes the guards of services/api/src/common/guards (Access): roles.guard.ts,
-- tenant-scope.guard.ts and abac.guard.ts with its cache of permissions, where the answer of the
-- policy agent is an argument. They read role assignments, and nothing of the other parts.
--
-- The rows are those of services/api/prisma/schema.prisma (Schema), by the columns in use. The
-- database client is not in the repository: Platform has its operations as fields, Platform.Laws
-- the behaviour that theorems rely on, and Platform.Memory an instance with association lists. A
-- handler takes the database and gives the database that it leaves with its answer; the clock is
-- an argument. Prelude has the names that all parts share.
--
-- Fuel: `tokenize` has a unit for each code unit and one more, `parse` five for each token and
-- five more, and `topoSortFormulas` and `topoSort` as much as there are formulas or rows and one
-- more, since the path of a visit never holds a key twice. `splitIntoMonths` has the number of
-- the month in which the period ends, counted from the year 0, since each round takes a month.
--
-- Not modelled: the messages of errors, the metadata of audit entries, failures of the database
-- other than a refused audit entry (so also the unique codes of a tenant's nodes), the queue
-- between the two halves of a run, the import of metric events from spreadsheets, the read-only
-- queries other than those named above, the columns that score the data of an event, requests
-- that interleave, the checks of tokens and the throttling of requests, and the rest of the
-- platform (the rendering of reports, carbon accounting, suppliers, files, the framework
-- catalogues, the web application and the Python services).
pub mod Prelude
pub mod Access
pub mod Assurance
pub mod Audit
pub mod Brsr
pub mod Calculations
pub mod Cel
pub mod Extraction
pub mod Hierarchy
pub mod Metrics
pub mod Platform
pub mod Schema
pub mod Shared
