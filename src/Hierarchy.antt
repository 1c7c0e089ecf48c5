-- ===== src/Hierarchy.antt =====
-- The tree of a tenant's entities: `HierarchyService` (services/api/src/hierarchy/hierarchy.service.ts).
-- A handler gives the database that it leaves and its answer; `now` is the time it reads.
mod Kinds
pub mod Import
pub mod Types
pub mod Rows
pub mod Nesting
pub mod Moves
pub mod Imports
pub mod Creation
pub mod Sorting
pub mod ParentsFirst
mod Tests
pub mod History
use brsr_v.Prelude.{
  ℕ, zero, suc, Bool, true, false, not, ◌&&◌, ◌||◌, Option, none, some, List, [], ◌∷◌, ◌++◌, Text,
  text_eq, is_one_of, codes, ◌==◌, if◌then◌else◌, length,
}
use brsr_v.Schema.{
  EntityNode, EntityType, Audited, node_data, path_data, legal_entity, division, site, department,
}
use brsr_v.Platform.{
  Platform, Number, Db, Answer, Refusal, bad_request, not_found, conflict, done, refused,
}
use brsr_v.Audit.{AuditLogInput, log}
use brsr_v.Metrics.{or_else, or_kept}
use brsr_v.Shared.Ltree.{starts_with}
use brsr_v.Shared.Tables.{entry}
unfoldable pub use Kinds.*

-- `slice(n)`
unfoldable pub slice_from : ℕ → Text → Text
slice_from zero s = s
slice_from (suc n) [] = []
slice_from (suc n) (c ∷ s) = slice_from n s

module _ (𝓟 : Platform) where
  open 𝓟 use {Rows, get, put, create, many}

  abbrev pub Node : Type 0
  Node = EntityNode (Number 𝓟)

  -- `CreateHierarchyNodeDto`; the numbers and dates are what the request's convert to
  pub record CreateHierarchyNodeDto : Type 0 where
    pub type : HierarchyNodeType
    pub code : Text
    pub name : Text
    pub parent : Option ℕ
    pub country : Option Text
    pub region : Option Text
    pub latitude : Option (Number 𝓟)
    pub longitude : Option (Number 𝓟)
    pub effective_from : Option ℕ
    pub effective_to : Option ℕ
    pub metadata : Option Text

  -- `UpdateHierarchyNodeDto`, the fields that the update reads
  pub record UpdateHierarchyNodeDto : Type 0 where
    pub name : Option Text
    pub country : Option Text
    pub region : Option Text
    pub latitude : Option (Number 𝓟)
    pub longitude : Option (Number 𝓟)
    pub effective_from : Option ℕ
    pub effective_to : Option ℕ
    pub metadata : Option Text

  abbrev pub node_of_tenant : ℕ → Option Node → Option Node
  node_of_tenant tenant none = none
  node_of_tenant tenant (some n) = if n.tenant == tenant then some n else none

  -- `entityNode.findFirst({ where: { id, tenantId } })`
  unfoldable pub find_node : Db 𝓟 → ℕ → ℕ → Option Node
  find_node db tenant id = node_of_tenant tenant (get db.nodes id)

  abbrev pub NodeHandled : Type 0
  NodeHandled = Db 𝓟 × Answer (ℕ × Node)

  -- `findOne`, which throws when there is no such node
  abbrev pub with_node : Db 𝓟 → Option Node → (Node → NodeHandled) → NodeHandled
  with_node db none handle = (db, refused not_found)
  with_node db (some n) handle = handle n

  -- the parent that a request names, if it does
  abbrev pub with_parent : Db 𝓟 → ℕ → Option ℕ → (Option (ℕ × Node) → NodeHandled) → NodeHandled
  unfolding find_node
  with_parent db tenant none handle = handle none
  with_parent db tenant (some p) handle =
      with_node db (find_node db tenant p) λ n. handle (some (p, n))

  abbrev pub stored_type : Option (ℕ × Node) → Option Text
  stored_type none = none
  stored_type (some (p, n)) = some (entity_type_name n.type)

  abbrev pub parent_id : Option (ℕ × Node) → Option ℕ
  parent_id none = none
  parent_id (some (p, n)) = some p

  abbrev pub child_path : Option (ℕ × Node) → Text → Text
  child_path none code = code
  child_path (some (p, n)) code = n.ltree_path ++ b'.' ∷ code

  abbrev pub node_entry :
      ℕ
      → ℕ
      → Text
      → Text
      → ℕ
      → Option (Audited (Number 𝓟))
      → Option (Audited (Number 𝓟))
      → AuditLogInput 𝓟
  node_entry tenant actor entity action id before after = record {
    tenant = tenant;
    user = actor;
    entity = entity;
    entity_id = some id;
    action = action;
    before = before;
    after = after;
  }

  abbrev pub has_rows : {A : Type 0} → List A → Bool
  has_rows [] = false
  has_rows (a ∷ rest) = true

  -- a node of the tenant has the path
  unfoldable pub path_taken : Db 𝓟 → ℕ → Text → Bool
  unfolding text_eq
  path_taken db tenant path =
      has_rows (many db.nodes (λ n. n.tenant == tenant && text_eq n.ltree_path path))

  abbrev pub new_node : ℕ → CreateHierarchyNodeDto → Option (ℕ × Node) → ℕ → Node
  new_node tenant dto parent now = record {
    tenant = tenant;
    parent = parent_id parent;
    type = map_node_type dto.type;
    code = dto.code;
    name = dto.name;
    ltree_path = child_path parent dto.code;
    country = or_else dto.country (codes "IN");
    state = dto.region;
    lat = dto.latitude;
    lng = dto.longitude;
    effective_from = or_else dto.effective_from now;
    effective_to = dto.effective_to;
    metadata = or_else dto.metadata (codes "{}");
    employee_count = none;
    revenue = none;
  }

  unfoldable pub store_node : Db 𝓟 → ℕ → ℕ → Node → NodeHandled
  unfolding log
  store_node db tenant actor n =
      let (id, nodes) = create db.nodes n in
      (
        log 𝓟
            (node_entry tenant actor (codes "HierarchyNode") (codes "create") id none
              (some (node_data n)))
            (record db { nodes = nodes }),
        done (id, n),
      )

  -- `create`, once the parent is found
  unfoldable pub create_under :
      Db 𝓟 → ℕ → CreateHierarchyNodeDto → ℕ → ℕ → Option (ℕ × Node) → NodeHandled
  unfolding validate_parent_child path_taken store_node
  create_under db tenant dto actor now parent =
      if not (validate_parent_child (stored_type parent) (node_type_name dto.type))
      then (db, refused bad_request)
      else if path_taken db tenant (child_path parent dto.code)
      then (db, refused conflict)
      else store_node db tenant actor (new_node tenant dto parent now)

  unfoldable pub create_node : Db 𝓟 → ℕ → CreateHierarchyNodeDto → ℕ → ℕ → NodeHandled
  unfolding with_parent create_under
  create_node db tenant dto actor now =
      with_parent db tenant dto.parent λ parent. create_under db tenant dto actor now parent

  abbrev pub edited_node : Node → UpdateHierarchyNodeDto → Node
  edited_node n dto = record n {
    name = or_else dto.name n.name;
    country = or_else dto.country n.country;
    state = or_kept dto.region n.state;
    lat = or_kept dto.latitude n.lat;
    lng = or_kept dto.longitude n.lng;
    effective_from = or_else dto.effective_from n.effective_from;
    effective_to = or_kept dto.effective_to n.effective_to;
    metadata = or_else dto.metadata n.metadata;
  }

  unfoldable pub update_node : Db 𝓟 → ℕ → ℕ → UpdateHierarchyNodeDto → ℕ → NodeHandled
  unfolding find_node log
  update_node db tenant id dto actor = with_node db (find_node db tenant id) λ n. (
    log 𝓟
        (node_entry tenant actor (codes "HierarchyNode") (codes "update") id (some (node_data n))
          (some (node_data (edited_node n dto))))
        (record db { nodes = put db.nodes id (edited_node n dto) }),
    done (id, edited_node n dto),
  )

  -- the loop over the descendants of a node that is moved from a path of some length to a new path
  unfoldable pub repath : Rows Node → ℕ → Text → List (ℕ × Node) → Rows Node
  unfolding slice_from
  repath t old path [] = t
  repath t old path ((id, d) ∷ ds) =
      repath (put t id (record d { ltree_path = path ++ slice_from old d.ltree_path })) old path ds

  -- `move`, once its guards have let it through
  unfoldable pub move_to : Db 𝓟 → ℕ → ℕ → ℕ → Node → Option (ℕ × Node) → Text → NodeHandled
  unfolding find_node log repath starts_with
  move_to db tenant id actor n parent path =
      let descendants =
        many db.nodes
          (λ d. d.tenant == tenant && starts_with d.ltree_path (n.ltree_path ++ b'.' ∷ [])) in
      let moved = put db.nodes id (record n { parent = parent_id parent; ltree_path = path }) in
      let db' =
        log 𝓟
          (node_entry tenant actor (codes "HierarchyNode") (codes "move") id
            (some (path_data n.ltree_path n.parent)) (some (path_data path (parent_id parent))))
          (record db { nodes = repath moved (length n.ltree_path) path descendants }) in
      with_node db' (find_node db' tenant id) λ m. (db', done (id, m))

  -- the new parent is the node or has a path that begins with the node's
  abbrev pub below_itself : Node → Option (ℕ × Node) → Bool
  unfolding starts_with
  below_itself n none = false
  below_itself n (some (p, m)) = starts_with m.ltree_path n.ltree_path

  unfoldable pub move_under : Db 𝓟 → ℕ → ℕ → ℕ → Node → Option (ℕ × Node) → NodeHandled
  unfolding validate_parent_child move_to below_itself text_eq
  move_under db tenant id actor n parent =
      if below_itself n parent
      then (db, refused bad_request)
      else if not (validate_parent_child (stored_type parent) (entity_type_name n.type))
      then (db, refused bad_request)
      else if text_eq n.ltree_path (child_path parent n.code)
      then (db, done (id, n))
      else move_to db tenant id actor n parent (child_path parent n.code)

  unfoldable pub move_node : Db 𝓟 → ℕ → ℕ → Option ℕ → ℕ → NodeHandled
  unfolding find_node with_parent move_under
  move_node db tenant id parent actor =
      with_node db (find_node db tenant id)
        λ n. with_parent db tenant parent λ p. move_under db tenant id actor n p

  -- the answer holds no node in the program
  unfoldable pub soft_delete : Db 𝓟 → ℕ → ℕ → ℕ → ℕ → NodeHandled
  unfolding find_node log
  soft_delete db tenant id actor now = with_node db (find_node db tenant id) λ n. (
    log 𝓟
        (node_entry tenant actor (codes "EntityNode") (codes "DELETE") id (some (node_data n)) none)
        (record db { nodes = put db.nodes id (record n { effective_to = some now }) }),
    done (id, n),
  )
