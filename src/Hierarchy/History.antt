-- ===== src/Hierarchy/History.antt =====
-- Sequences of requests to hierarchy.service.ts, by the controller's routes.
use brsr_v.Prelude.{ℕ, Option, List, [], ◌∷◌}
use brsr_v.Platform.{Platform, Db}
use brsr_v.Platform.Laws.{IsDatabase}
use brsr_v.Hierarchy.{
  CreateHierarchyNodeDto, UpdateHierarchyNodeDto, create_node, update_node, move_node, soft_delete,
  NodeHandled,
}
use brsr_v.Hierarchy.Import.{ImportRow, bulk_import}
use brsr_v.Hierarchy.Rows.{IsNested}
use brsr_v.Hierarchy.Nesting.{Nested, create_node-Nested, update_node-Nested, soft_delete-Nested}
use brsr_v.Hierarchy.Moves.{Unmoved, declined, stays, move_node-Unmoved}
use brsr_v.Hierarchy.Imports.{bulk_import-Nested}

module _ (𝓟 : Platform) where
  pub data NodeRequest : Type 0 where
    create_req : CreateHierarchyNodeDto 𝓟 → NodeRequest
    update_req : ℕ → UpdateHierarchyNodeDto 𝓟 → NodeRequest
    move_req : ℕ → Option ℕ → NodeRequest
    delete_req : ℕ → NodeRequest
    import_req : List ImportRow → NodeRequest

  -- a request of a user of a tenant at a time
  pub record NodeCall : Type 0 where
    pub tenant : ℕ
    pub actor : ℕ
    pub now : ℕ
    pub request : NodeRequest

  -- the database that a request leaves
  unfoldable pub handle_node : ℕ → ℕ → ℕ → Db 𝓟 → NodeRequest → Db 𝓟
  unfolding create_node update_node move_node soft_delete bulk_import
  handle_node tenant actor now db (create_req dto) = (create_node 𝓟 db tenant dto actor now).0
  handle_node tenant actor now db (update_req id dto) = (update_node 𝓟 db tenant id dto actor).0
  handle_node tenant actor now db (move_req id parent) = (move_node 𝓟 db tenant id parent actor).0
  handle_node tenant actor now db (delete_req id) = (soft_delete 𝓟 db tenant id actor now).0
  handle_node tenant actor now db (import_req rows) = (bulk_import 𝓟 db tenant rows actor now).0

  unfoldable pub run_nodes : Db 𝓟 → List NodeCall → Db 𝓟
  unfolding handle_node
  run_nodes db [] = db
  run_nodes db (c ∷ cs) = run_nodes (handle_node c.tenant c.actor c.now db c.request) cs

  Unmoved-Nested :
      (db : Db 𝓟) (tenant id : ℕ) (parent : Option ℕ) (h : NodeHandled 𝓟)
      → Unmoved 𝓟 db tenant id parent h
      → IsNested 𝓟 db.nodes
      → Nested 𝓟 h
  Unmoved-Nested db tenant id parent h (declined r) k = k
  Unmoved-Nested db tenant id parent h (stays n p q s t) k = k

  handle_node-IsNested :
      IsDatabase 𝓟
      → (tenant actor now : ℕ) (db : Db 𝓟) (r : NodeRequest) → IsNested 𝓟 db.nodes
      → IsNested 𝓟 (handle_node tenant actor now db r).nodes
  unfolding handle_node
  handle_node-IsNested laws tenant actor now db (create_req dto) h =
      create_node-Nested 𝓟 laws db tenant dto actor now h
  handle_node-IsNested laws tenant actor now db (update_req id dto) h =
      update_node-Nested 𝓟 laws db tenant id dto actor h
  handle_node-IsNested laws tenant actor now db (move_req id parent) h =
      Unmoved-Nested db tenant id parent _ (move_node-Unmoved 𝓟 db tenant id parent actor h) h
  handle_node-IsNested laws tenant actor now db (delete_req id) h =
      soft_delete-Nested 𝓟 laws db tenant id actor now h
  handle_node-IsNested laws tenant actor now db (import_req rows) h =
      bulk_import-Nested 𝓟 laws db tenant rows actor now h

  -- From a database whose nodes all stand in their place, any requests of any users at any times,
  -- imports of sheets included, leave one: each node without a parent has its code for its path, and
  -- any other stands under a group of its own tenant, is no group, and has the path of that group, a
  -- dot and its code for its path.
  pub run_nodes-IsNested :
      IsDatabase 𝓟
      → (db : Db 𝓟) (calls : List NodeCall) → IsNested 𝓟 db.nodes
      → IsNested 𝓟 (run_nodes db calls).nodes
  unfolding run_nodes
  run_nodes-IsNested laws db [] h = h
  run_nodes-IsNested laws db (c ∷ cs) h =
      run_nodes-IsNested laws (handle_node c.tenant c.actor c.now db c.request) cs
        (handle_node-IsNested laws c.tenant c.actor c.now db c.request h)
