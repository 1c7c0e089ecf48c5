-- ===== src/Hierarchy/Nesting.antt =====
-- The handlers of hierarchy.service.ts keep every node in its place.
use brsr_v.Prelude.{
  ℕ, ◌≡◌, ◌≢◌, refl, sym, ap, ◌∙◌, subst, ◌⊎◌, inl, inr, true, Option, none, some, text_eq_iff,
  codes, ◌==◌, ==_iff, Bool-cases,
}
use brsr_v.Schema.{EntityType}
use brsr_v.Platform.{Platform, Db, refused, not_found}
use brsr_v.Platform.Laws.{IsDatabase}
use brsr_v.Audit.{AuditLogInput, log}
use brsr_v.Metrics.Refinement.{log-keeps}
use brsr_v.Hierarchy.{
  HierarchyNodeType, node_type_name, map_node_type, validate_parent_child, Node,
  CreateHierarchyNodeDto, UpdateHierarchyNodeDto, NodeHandled, node_of_tenant, find_node, with_node,
  with_parent, stored_type, child_path, new_node, store_node, create_under, create_node,
  edited_node, update_node, soft_delete, path_taken,
}
use brsr_v.Hierarchy.Types.{validate-IsUnder, named_company, named_unit}
use brsr_v.Hierarchy.Rows.{Placed, at_top, below, IsNested, IsNested-put, IsNested-create}

-- what may stand under a group becomes no group
pub mapped-ne_group :
    (c : HierarchyNodeType)
    → (node_type_name c ≡ codes "COMPANY") ⊎ (node_type_name c ≡ codes "BUSINESS_UNIT")
    → map_node_type c ≢ EntityType.group
mapped-ne_group c (inl h) e =
    let k = sym (ap map_node_type (named_company c ((text_eq_iff _ _).1 h))) ∙ e in cc
mapped-ne_group c (inr h) e =
    let k = sym (ap map_node_type (named_unit c ((text_eq_iff _ _).1 h))) ∙ e in cc

module _ (𝓟 : Platform) where
  open 𝓟 use {Rows, get, put, create}

  abbrev pub Nested : {A : Type 0} → Db 𝓟 × A → Type 0
  Nested h = IsNested 𝓟 h.0.nodes

  node_of_tenant-inv :
      (tenant : ℕ) (o : Option (Node 𝓟)) (n : Node 𝓟)
      → node_of_tenant 𝓟 tenant o ≡ some n
      → (o ≡ some n) × (n.tenant ≡ tenant)
  node_of_tenant-inv tenant none n h = cc
  node_of_tenant-inv tenant (some m) n h = elim (Bool-cases (m.tenant == tenant)) [
    | inl p ↦
        let e = rw p at h in
        (e, sym (ap (λ x. x.tenant) (some-inj e)) ∙ (==_iff m.tenant tenant).0 p)
    | inr p ↦ absurd (none_some n (rw p at h))
  ]
    where
      some-inj : {a b : Node 𝓟} → some a ≡ some b → a ≡ b
      some-inj h = cc

      none_some : (a : Node 𝓟) → none ≢ some a
      none_some a h = cc

  pub find_node-inv :
      (db : Db 𝓟) (tenant id : ℕ) (n : Node 𝓟)
      → find_node 𝓟 db tenant id ≡ some n
      → (get db.nodes id ≡ some n) × (n.tenant ≡ tenant)
  unfolding find_node
  find_node-inv db tenant id n h = node_of_tenant-inv tenant (get db.nodes id) n h

  pub Nested-log :
      (i : AuditLogInput 𝓟) (db : Db 𝓟) → IsNested 𝓟 db.nodes → IsNested 𝓟 (log 𝓟 i db).nodes
  Nested-log i db h = subst (IsNested 𝓟) (sym (log-keeps 𝓟 i db).1) h

  -- a property of what a handler gives, where no node is found and where one is
  pub with_node-cases :
      (P : NodeHandled 𝓟 → Type 0) (db : Db 𝓟) (o : Option (Node 𝓟))
      (handle : Node 𝓟 → NodeHandled 𝓟)
      → P (db, refused not_found)
      → ((n : Node 𝓟) → o ≡ some n → P (handle n))
      → P (with_node 𝓟 db o handle)
  with_node-cases P db none handle h k = h
  with_node-cases P db (some n) handle h k = k n refl

  -- the parent that was found, if any
  unfoldable pub IsParent : Db 𝓟 → ℕ → Option (ℕ × Node 𝓟) → Type 0
  IsParent db tenant none = Unit
  IsParent db tenant (some (p, n)) = (get db.nodes p ≡ some n) × (n.tenant ≡ tenant)

  pub with_parent-cases :
      (P : NodeHandled 𝓟 → Type 0) (db : Db 𝓟) (tenant : ℕ) (o : Option ℕ)
      (handle : Option (ℕ × Node 𝓟) → NodeHandled 𝓟)
      → P (db, refused not_found)
      → ((parent : Option (ℕ × Node 𝓟)) → IsParent db tenant parent → P (handle parent))
      → P (with_parent 𝓟 db tenant o handle)
  unfolding with_parent IsParent
  with_parent-cases P db tenant none handle h k = k none tt
  with_parent-cases P db tenant (some p) handle h k =
      with_node-cases P db (find_node 𝓟 db tenant p) (λ n. handle (some (p, n))) h
        λ n e. k (some (p, n)) (find_node-inv db tenant p n e)

  module _ (laws : IsDatabase 𝓟) where
    pub update_node-Nested :
        (db : Db 𝓟) (tenant id : ℕ) (dto : UpdateHierarchyNodeDto 𝓟) (actor : ℕ)
        → IsNested 𝓟 db.nodes
        → Nested (update_node 𝓟 db tenant id dto actor)
    unfolding update_node
    update_node-Nested db tenant id dto actor h =
        with_node-cases Nested db (find_node 𝓟 db tenant id) _ h λ n e. Nested-log _ _ (
          IsNested-put 𝓟 laws db.nodes id n (edited_node 𝓟 n dto) (find_node-inv db tenant id n e).0
            (record {
              same_tenant = refl;
              same_parent = refl;
              same_type = refl;
              same_code = refl;
              same_path = refl;
            })
            h)

    pub soft_delete-Nested :
        (db : Db 𝓟) (tenant id actor now : ℕ)
        → IsNested 𝓟 db.nodes
        → Nested (soft_delete 𝓟 db tenant id actor now)
    unfolding soft_delete
    soft_delete-Nested db tenant id actor now h =
        with_node-cases Nested db (find_node 𝓟 db tenant id) _ h λ n e. Nested-log _ _ (
          IsNested-put 𝓟 laws db.nodes id n (record n { effective_to = some now })
            (find_node-inv db tenant id n e).0
            (record {
              same_tenant = refl;
              same_parent = refl;
              same_type = refl;
              same_code = refl;
              same_path = refl;
            })
            h)

    new_node-Placed :
        (db : Db 𝓟) (tenant : ℕ) (dto : CreateHierarchyNodeDto 𝓟) (now : ℕ)
        (parent : Option (ℕ × Node 𝓟))
        → IsParent db tenant parent
        → validate_parent_child (stored_type 𝓟 parent) (node_type_name dto.type) ≡ true
        → Placed 𝓟 db.nodes (new_node 𝓟 tenant dto parent now)
    unfolding IsParent
    new_node-Placed db tenant dto now none i v = at_top refl refl
    new_node-Placed db tenant dto now (some (p, pn)) (i, j) v =
        let (a, b) = validate-IsUnder pn.type (node_type_name dto.type) v in
        below p pn refl i j a (mapped-ne_group dto.type b) refl

    pub create_node-Nested :
        (db : Db 𝓟) (tenant : ℕ) (dto : CreateHierarchyNodeDto 𝓟) (actor now : ℕ)
        → IsNested 𝓟 db.nodes
        → Nested (create_node 𝓟 db tenant dto actor now)
    unfolding create_node create_under store_node
    create_node-Nested db tenant dto actor now h =
        with_parent-cases Nested db tenant dto.parent _ h λ parent i.
          elim (Bool-cases
            (validate_parent_child (stored_type 𝓟 parent) (node_type_name dto.type))) [
              | inr v ↦ rw v h
              | inl v ↦ elim (Bool-cases (path_taken 𝓟 db tenant (child_path 𝓟 parent dto.code))) [
                | inl q ↦ rw v (rw q h)
                | inr q ↦ rw v (
                    rw q (
                      Nested-log _ _ (
                        IsNested-create 𝓟 laws db.nodes (new_node 𝓟 tenant dto parent now)
                          (new_node-Placed db tenant dto now parent i v) h)))
              ]
            ]
