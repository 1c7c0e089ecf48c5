-- ===== src/Hierarchy/Moves.antt =====
-- What `move` of hierarchy.service.ts comes to.
use brsr_v.Prelude.{
  ℕ, ◌≡◌, refl, inl, inr, Bool, true, false, Option, none, some, text_eq, text_eq_iff,
  if◌then◌else◌, Bool-cases,
}
use brsr_v.Schema.{EntityType}
use brsr_v.Platform.{Platform, Db, Refusal, refused, done, bad_request, not_found}
use brsr_v.Hierarchy.{
  Node, NodeHandled, entity_type_name, validate_parent_child, find_node, with_parent, below_itself,
  move_under, move_node,
}
use brsr_v.Hierarchy.Types.{validate_stored, validate_top}
use brsr_v.Hierarchy.Rows.{Placed, at_top, below, IsNested, row_place}
use brsr_v.Hierarchy.Nesting.{find_node-inv, with_node-cases}

module _ (𝓟 : Platform) where
  open 𝓟 use {get}

  -- a move that moves nothing: it is refused, or asks for a group of the tenant to have no parent
  pub data Unmoved (db : Db 𝓟) (tenant id : ℕ) (parent : Option ℕ) : NodeHandled 𝓟 → Type 0 where
    declined : (r : Refusal) → Unmoved db tenant id parent (db, refused r)
    stays :
        (n : Node 𝓟)
        → parent ≡ none
        → get db.nodes id ≡ some n
        → n.tenant ≡ tenant
        → n.type ≡ EntityType.group
        → Unmoved db tenant id parent (db, done (id, n))

  group-at_top :
      (db : Db 𝓟) (n : Node 𝓟)
      → Placed 𝓟 db.nodes n
      → n.type ≡ EntityType.group
      → text_eq n.ltree_path n.code ≡ true
  group-at_top db n (at_top p q) g = (text_eq_iff n.ltree_path n.code).1 q
  group-at_top db n (below p pn a b c d e f) g = absurd (e g)

  move_under-declined :
      (db : Db 𝓟) (tenant id actor p : ℕ) (n pn : Node 𝓟) (parent : Option ℕ)
      → Unmoved db tenant id parent (move_under 𝓟 db tenant id actor n (some (p, pn)))
  unfolding move_under
  move_under-declined db tenant id actor p n pn parent =
      rw (validate_stored (entity_type_name pn.type) n.type)
        (declined_either (below_itself 𝓟 n (some (p, pn))))
    where
      declined_either :
          (b : Bool)
          → Unmoved db tenant id parent
              (if b then (db, refused bad_request) else (db, refused bad_request))
      declined_either true = declined bad_request
      declined_either false = declined bad_request

  move_under-Unmoved :
      (db : Db 𝓟) (tenant id actor : ℕ) (n : Node 𝓟)
      → IsNested 𝓟 db.nodes
      → get db.nodes id ≡ some n
      → n.tenant ≡ tenant
      → Unmoved db tenant id none (move_under 𝓟 db tenant id actor n none)
  unfolding move_under below_itself
  move_under-Unmoved db tenant id actor n h e t =
      elim (Bool-cases (validate_parent_child none (entity_type_name n.type))) [
        | inr v ↦ rw v (declined bad_request)
        | inl v ↦
            let g = validate_top n.type v in
            rw v (rw (group-at_top db n (row_place 𝓟 db.nodes id n h e) g) (stays n refl e t g))
      ]

  -- Where every node stands in its place, `move` never changes the database: a request that names a
  -- new parent is refused, whatever the two nodes are, and one that names none is refused or finds a
  -- group, which already stands at the top and is answered as it is.
  pub move_node-Unmoved :
      (db : Db 𝓟) (tenant id : ℕ) (parent : Option ℕ) (actor : ℕ)
      → IsNested 𝓟 db.nodes
      → Unmoved db tenant id parent (move_node 𝓟 db tenant id parent actor)
  unfolding move_node with_parent find_node
  move_node-Unmoved db tenant id none actor h =
      with_node-cases 𝓟 (Unmoved db tenant id none) db (find_node 𝓟 db tenant id) _
        (declined not_found)
        λ n e.
          let (a, b) = find_node-inv 𝓟 db tenant id n e in
          move_under-Unmoved db tenant id actor n h a b
  move_node-Unmoved db tenant id (some p) actor h =
      with_node-cases 𝓟 (Unmoved db tenant id (some p)) db (find_node 𝓟 db tenant id) _
        (declined not_found)
        λ n e.
          with_node-cases 𝓟 (Unmoved db tenant id (some p)) db (find_node 𝓟 db tenant p) _
            (declined not_found) λ pn k. move_under-declined db tenant id actor p n pn (some p)
