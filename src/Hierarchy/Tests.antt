-- ===== src/Hierarchy/Tests.antt =====
-- Requests to hierarchy.service.ts run on a small database, and the theorems at some.
use brsr_v.Prelude.{
  text_eq, if◌then◌else◌, All, inr, true, arith, ℕ, ◌≡◌, refl, Option, none, some, List, [], ◌∷◌,
  Text, codes,
}
use brsr_v.Prelude.Int.{ℤ}
use brsr_v.Schema.{EntityNode}
use brsr_v.Platform.{Db}
use brsr_v.Platform.Memory.{memory, memory-IsDatabase, get_row, put_row, fresh, rows_with}
use brsr_v.Hierarchy.{HierarchyNodeType, CreateHierarchyNodeDto, company, move_node}
use brsr_v.Hierarchy.Import.{has_code, by_code, sorted_rows, ImportRow, topo_sort_rows}
use brsr_v.Hierarchy.Rows.{IsNested, PlacedRow}
use brsr_v.Hierarchy.Moves.{Unmoved, move_node-Unmoved}
use brsr_v.Hierarchy.ParentsFirst.{RowsOrdered, RowRanked, topo_sort_rows-RowsOrdered}
use brsr_v.Hierarchy.History.{
  NodeCall, run_nodes, create_req, move_req, delete_req, import_req, run_nodes-IsNested,
}

abbrev empty : Db memory
empty = record {
  events = [];
  fields = [];
  documents = [];
  nodes = [];
  snapshots = [];
  exceptions = [];
  registry = λ key. none;
  runs = [];
  mappings = [];
  factors = [];
  audit = [];
}

empty-IsNested : IsNested memory empty.nodes
unfolding IsNested PlacedRow get_row
empty-IsNested id = tt

abbrev asks : HierarchyNodeType → Text → Option ℕ → CreateHierarchyNodeDto memory
asks type code parent = record {
  type = type;
  code = code;
  name = code;
  parent = parent;
  country = none;
  region = none;
  latitude = none;
  longitude = none;
  effective_from = none;
  effective_to = none;
  metadata = none;
}

abbrev row : Text → Text → Option Text → ImportRow
row type code parent = record {
  type = type;
  code = code;
  name = code;
  parent_code = parent;
  country = none;
  region = none;
}

-- a sheet that names a parent after its child
abbrev sheet : List ImportRow
sheet =
    row (codes "BUSINESS_UNIT") (codes "steel") (some (codes "acme"))
    ∷ row (codes "GROUP") (codes "acme") none
    ∷ row (codes "FACILITY") (codes "mill") (some (codes "steel"))
    ∷ []

abbrev calls : List (NodeCall memory)
calls =
    record { tenant = 1; actor = 7; now = 10; request = import_req sheet }
    ∷ record {
      tenant = 1;
      actor = 7;
      now = 11;
      request = create_req (asks company (codes "ore") (some 0));
    }
    ∷ record { tenant = 1; actor = 7; now = 12; request = move_req 1 none }
    ∷ record { tenant = 1; actor = 7; now = 13; request = delete_req 1 }
    ∷ []

abbrev paths : List (ℕ × EntityNode ℤ) → List Text
paths [] = []
paths ((id, n) ∷ ns) = n.ltree_path ∷ paths ns

-- the mill is not inserted, since a facility finds no parent of a type that it may have
calls_test :
    paths (run_nodes memory empty calls).nodes
    ≡ codes "acme.ore" ∷ codes "acme.steel" ∷ codes "acme" ∷ []
unfolding run_nodes get_row put_row fresh rows_with
calls_test = refl

run_nodes-IsNested_example : IsNested memory (run_nodes memory empty calls).nodes
run_nodes-IsNested_example = run_nodes-IsNested memory memory-IsDatabase empty calls empty-IsNested

move_node-Unmoved_example :
    Unmoved memory empty 1 0 (some 2) (move_node memory empty 1 0 (some 2) 7)
move_node-Unmoved_example = move_node-Unmoved memory empty 1 0 (some 2) 7 empty-IsNested

abbrev rank : Text → ℕ
rank code = if text_eq code (codes "acme") then 0 else if text_eq code (codes "steel") then 1 else 2

sheet-RowRanked : All (RowRanked rank sheet) sheet
unfolding RowRanked text_eq by_code
sheet-RowRanked = ((inr (omega arith), tt), (tt, ((inr (omega arith), tt), tt)))

topo_sort_rows-RowsOrdered_example :
    (rs : List ImportRow) × (topo_sort_rows sheet ≡ sorted_rows rs)
    × RowsOrdered sheet rs
    × All (λ r. has_code r.code rs ≡ true) sheet
topo_sort_rows-RowsOrdered_example = topo_sort_rows-RowsOrdered rank sheet sheet-RowRanked
