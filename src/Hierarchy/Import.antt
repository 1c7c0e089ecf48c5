-- ===== src/Hierarchy/Import.antt =====
-- The import of nodes from a sheet: `bulkImport` and `topoSort` of hierarchy.service.ts. The parser of
-- the sheet is a package, so that its rows are the argument.
use mathlib.Core.List.{reverse}
use brsr_v.Prelude.{
  ℕ, zero, suc, ◌+◌, Bool, true, false, not, ◌&&◌, ◌||◌, Option, none, some, List, [], ◌∷◌, Text,
  text_eq, is_one_of, codes, ltb, ◌==◌, if◌then◌else◌, length,
}
use brsr_v.Platform.{Platform, Db, Answer, bad_request, done, refused}
use brsr_v.Audit.{AuditLogInput, log}
use brsr_v.Metrics.{or_else}
use brsr_v.Shared.Tables.{entry}
use brsr_v.Hierarchy.{
  HierarchyNodeType, group, company, business_unit, region, facility, process, product_line,
  map_node_type, validate_parent_child, Node, stored_type, parent_id, child_path,
}

-- `BulkImportRowDto`; an empty parent code counts as none, and is none here
pub record ImportRow : Type 0 where
  pub type : Text
  pub code : Text
  pub name : Text
  pub parent_code : Option Text
  pub country : Option Text
  pub region : Option Text

-- What sorting rows ends in; `ran_out` has no counterpart in the program.
pub data SortedRows : Type 0 where
  sorted_rows : List ImportRow → SortedRows
  row_cycle : Text → SortedRows
  ran_out : SortedRows

abbrev pub then_rows : SortedRows → (List ImportRow → SortedRows) → SortedRows
then_rows (sorted_rows rs) k = k rs
then_rows (row_cycle code) k = row_cycle code
then_rows ran_out k = ran_out

abbrev pub or_row : Option ImportRow → ImportRow → Text → Option ImportRow
or_row (some g) r code = some g
or_row none r code = if text_eq r.code code then some r else none

-- `byCode.get(code)`: the last row with the code
unfoldable pub by_code : List ImportRow → Text → Option ImportRow
by_code [] code = none
by_code (r ∷ rs) code = or_row (by_code rs code) r code

-- `inserted.has(code)`
unfoldable pub has_code : Text → List ImportRow → Bool
unfolding text_eq
has_code code [] = false
has_code code (r ∷ rs) = text_eq r.code code || has_code code rs

-- the row of the parent, if the sheet has one
unfoldable pub parent_row : List ImportRow → Option Text → Option ImportRow
unfolding by_code
parent_row all none = none
parent_row all (some code) = by_code all code

abbrev pub visit_parent :
    (ImportRow → List ImportRow → SortedRows) → Option ImportRow → List ImportRow → SortedRows
visit_parent visitor none rs = sorted_rows rs
visit_parent visitor (some p) rs = visitor p rs

-- `visit`. `rs` is the result, newest first, and `inserted` the codes of it; `stack` is the set of
-- codes on the path. Each nested visit costs a unit of fuel.
unfoldable pub visit_row : List ImportRow → ℕ → List Text → ImportRow → List ImportRow → SortedRows
unfolding parent_row has_code is_one_of
visit_row all zero stack r rs = ran_out
visit_row all (suc n) stack r rs =
    let pushed =
      then_rows (visit_parent (visit_row all n (r.code ∷ stack)) (parent_row all r.parent_code) rs)
        λ rs'. sorted_rows (r ∷ rs') in
    if has_code r.code rs
    then sorted_rows rs
    else if is_one_of r.code stack
    then row_cycle r.code
    else pushed

-- `for (const r of rows) visit(r, new Set())`
unfoldable pub visit_rows : List ImportRow → ℕ → List ImportRow → List ImportRow → SortedRows
unfolding visit_row
visit_rows all n [] rs = sorted_rows rs
visit_rows all n (r ∷ rest) rs =
    then_rows (visit_row all n [] r rs) λ rs'. visit_rows all n rest rs'

-- `topoSort`, newest first
unfoldable pub topo_sort_rows : List ImportRow → SortedRows
unfolding visit_rows
topo_sort_rows rows = visit_rows rows (length rows + 1) rows []

-- the node types, by their names
abbrev pub node_types : List (Text × HierarchyNodeType)
node_types =
    (codes "GROUP", group)
    ∷ (codes "COMPANY", company)
    ∷ (codes "BUSINESS_UNIT", business_unit)
    ∷ (codes "REGION", region)
    ∷ (codes "FACILITY", facility)
    ∷ (codes "PROCESS", process)
    ∷ (codes "PRODUCT_LINE", product_line)
    ∷ []

-- `Object.values(HierarchyNodeType).includes(r.type)`
abbrev pub is_typed : Option HierarchyNodeType → Bool
is_typed none = false
is_typed (some t) = true

unfoldable pub all_typed : List ImportRow → Bool
unfolding entry
all_typed [] = true
all_typed (r ∷ rs) = is_typed (entry r.type node_types) && all_typed rs

-- `mapNodeTypeToEntityType` of a row's type; the default is GROUP
abbrev pub row_type : Option HierarchyNodeType → HierarchyNodeType
row_type none = group
row_type (some t) = t

module _ (𝓟 : Platform) where
  open 𝓟 use {Rows, create, many}

  -- the table, the nodes by their codes, how many were inserted, and the codes of the rows in error
  pub record Imported : Type 0 where
    pub nodes : Rows (Node 𝓟)
    pub known : List (Text × (ℕ × Node 𝓟))
    pub count : ℕ
    pub errors : List Text

  unfoldable pub imported_node : ℕ → ImportRow → Option (ℕ × Node 𝓟) → ℕ → Node 𝓟
  unfolding entry
  imported_node tenant row parent now = record {
    tenant = tenant;
    parent = parent_id 𝓟 parent;
    type = map_node_type (row_type (entry row.type node_types));
    code = row.code;
    name = row.name;
    ltree_path = child_path 𝓟 parent row.code;
    country = or_else row.country (codes "IN");
    state = row.region;
    lat = none;
    lng = none;
    effective_from = now;
    effective_to = none;
    metadata = codes "{}";
    employee_count = none;
    revenue = none;
  }

  unfoldable pub insert_row : ℕ → ℕ → ImportRow → Option (ℕ × Node 𝓟) → Imported → Imported
  unfolding imported_node
  insert_row tenant now row parent s =
      let node = imported_node tenant row parent now in
      let (id, nodes) = create s.nodes node in
      record s { nodes = nodes; known = (row.code, (id, node)) ∷ s.known; count = s.count + 1 }

  abbrev pub row_error : ImportRow → Imported → Imported
  row_error row s = record s { errors = row.code ∷ s.errors }

  -- a row with a parent code, once the parent is looked up
  unfoldable pub import_under : ℕ → ℕ → ImportRow → Option (ℕ × Node 𝓟) → Imported → Imported
  unfolding validate_parent_child insert_row
  import_under tenant now row none s = row_error row s
  import_under tenant now row (some parent) s =
      if validate_parent_child (stored_type 𝓟 (some parent)) row.type
      then insert_row tenant now row (some parent) s
      else row_error row s

  unfoldable pub import_row_by : ℕ → ℕ → ImportRow → Option Text → Imported → Imported
  unfolding import_under insert_row entry
  import_row_by tenant now row none s = insert_row tenant now row none s
  import_row_by tenant now row (some code) s = import_under tenant now row (entry code s.known) s

  unfoldable pub import_rows : ℕ → ℕ → List ImportRow → Imported → Imported
  unfolding import_row_by
  import_rows tenant now [] s = s
  import_rows tenant now (row ∷ rows) s =
      import_rows tenant now rows (import_row_by tenant now row row.parent_code s)

  -- `for (const n of existing) byCode.set(n.code, n)`
  unfoldable pub known_nodes :
      List (ℕ × Node 𝓟) → List (Text × (ℕ × Node 𝓟)) → List (Text × (ℕ × Node 𝓟))
  known_nodes [] known = known
  known_nodes ((id, n) ∷ ns) known = known_nodes ns ((n.code, (id, n)) ∷ known)

  abbrev pub ImportHandled : Type 0
  ImportHandled = Db 𝓟 × Answer (ℕ × List Text)

  abbrev pub import_entry : ℕ → ℕ → AuditLogInput 𝓟
  import_entry tenant actor = record {
    tenant = tenant;
    user = actor;
    entity = codes "EntityNode";
    entity_id = none;
    action = codes "CREATE";
    before = none;
    after = none;
  }

  -- the transaction, once the rows are sorted; a cycle is thrown out of it
  unfoldable pub import_sorted : Db 𝓟 → ℕ → ℕ → ℕ → SortedRows → ImportHandled
  unfolding known_nodes import_rows log
  import_sorted db tenant actor now (sorted_rows rs) =
      let known = known_nodes (many db.nodes (λ n. n.tenant == tenant)) [] in
      let s =
        import_rows tenant now (reverse rs)
          (record { nodes = db.nodes; known = known; count = 0; errors = [] }) in
      (
        log 𝓟 (import_entry tenant actor) (record db { nodes = s.nodes }),
        done (s.count, reverse s.errors),
      )
  import_sorted db tenant actor now _ = (db, refused bad_request)

  unfoldable pub bulk_import : Db 𝓟 → ℕ → List ImportRow → ℕ → ℕ → ImportHandled
  unfolding all_typed topo_sort_rows import_sorted
  bulk_import db tenant [] actor now = (db, done (0, []))
  bulk_import db tenant (r ∷ rows) actor now =
      if ltb 10000 (length (r ∷ rows))
      then (db, refused bad_request)
      else if not (all_typed (r ∷ rows))
      then (db, refused bad_request)
      else import_sorted db tenant actor now (topo_sort_rows (r ∷ rows))
