-- ===== src/Hierarchy/Imports.antt =====
-- `bulkImport` of hierarchy.service.ts puts every row that it inserts in its place.
use mathlib.Core.List.{reverse}
use brsr_v.Prelude.{
  ℕ, ◌≡◌, ◌≢◌, refl, sym, ap, ◌∙◌, subst, ◌⊎◌, inl, inr, Bool, true, false, not, Option, none, some,
  List, [], ◌∷◌, Text, codes, ltb, length, ◌==◌, ==_iff, if◌then◌else◌, Bool-cases, All, All-map,
}
use brsr_v.Schema.{EntityType}
use brsr_v.Platform.{Platform, Db, Answer, refused, bad_request}
use brsr_v.Platform.Laws.{IsDatabase}
use brsr_v.Shared.Tables.{entry}
use brsr_v.Hierarchy.{Node, map_node_type, validate_parent_child, stored_type}
use brsr_v.Hierarchy.Import.{
  ImportRow, Imported, SortedRows, sorted_rows, row_cycle, ran_out, node_types, row_type,
  imported_node, insert_row, import_under, import_row_by, import_rows, known_nodes, import_sorted,
  bulk_import, all_typed, topo_sort_rows,
}
use brsr_v.Hierarchy.Types.{validate-IsUnder, entry-All}
use brsr_v.Hierarchy.Rows.{Placed, at_top, below, IsNested, IsNested-create}
use brsr_v.Hierarchy.Nesting.{Nested, Nested-log}

-- the type that a row is given, where its name is of a type that may stand under a group
row_type-ne_group :
    (type : Text)
    → (type ≡ codes "COMPANY") ⊎ (type ≡ codes "BUSINESS_UNIT")
    → map_node_type (row_type (entry type node_types)) ≢ EntityType.group
unfolding entry
row_type-ne_group type (inl h) e =
    let k = subst (λ x. map_node_type (row_type (entry x node_types)) ≡ EntityType.group) h e in cc
row_type-ne_group type (inr h) e =
    let k = subst (λ x. map_node_type (row_type (entry x node_types)) ≡ EntityType.group) h e in cc

module _ (𝓟 : Platform) where
  open 𝓟 use {Rows, get, create, many}

  -- what is known of a node: its row
  abbrev IsKnown : Rows (Node 𝓟) → ℕ → ℕ × Node 𝓟 → Type 0
  IsKnown t tenant x = (get t x.0 ≡ some x.1) × (x.1.tenant ≡ tenant)

  abbrev AllKnown : Rows (Node 𝓟) → ℕ → List (Text × (ℕ × Node 𝓟)) → Type 0
  AllKnown t tenant known = All (λ x. IsKnown t tenant x.1) known

  known_nodes-AllKnown :
      (t : Rows (Node 𝓟)) (tenant : ℕ) (ns : List (ℕ × Node 𝓟)) (known : List (Text × (ℕ × Node 𝓟)))
      → All (IsKnown t tenant) ns
      → AllKnown t tenant known
      → AllKnown t tenant (known_nodes 𝓟 ns known)
  unfolding known_nodes
  known_nodes-AllKnown t tenant [] known h k = k
  known_nodes-AllKnown t tenant ((id, n) ∷ ns) known (p, h) k =
      known_nodes-AllKnown t tenant ns ((n.code, (id, n)) ∷ known) h (p, k)

  -- the import so far
  record IsRight (tenant : ℕ) (s : Imported 𝓟) : Type 0 where
    nested : IsNested 𝓟 s.nodes
    right : AllKnown s.nodes tenant s.known

  module _ (laws : IsDatabase 𝓟) where
    open laws use {create_fresh, get-create, get-create_other, many-All}

    IsKnown-create :
        (t : Rows (Node 𝓟)) (tenant : ℕ) (n : Node 𝓟) (x : ℕ × Node 𝓟)
        → IsKnown t tenant x
        → IsKnown (create t n).1 tenant x
    IsKnown-create t tenant n x (p, q) = (
      get-create_other t n x.0 (λ e. none_some (sym (create_fresh t n) ∙ ap (get t) e ∙ p)) ∙ p,
      q,
    )
      where
        none_some : none ≢ some x.1
        none_some h = cc

    insert_row-IsRight :
        (tenant now : ℕ) (row : ImportRow) (parent : Option (ℕ × Node 𝓟)) (s : Imported 𝓟)
        → Placed 𝓟 s.nodes (imported_node 𝓟 tenant row parent now)
        → IsRight tenant s
        → IsRight tenant (insert_row 𝓟 tenant now row parent s)
    unfolding insert_row imported_node
    insert_row-IsRight tenant now row parent s p h =
        let node = imported_node 𝓟 tenant row parent now in
        record {
          nested = IsNested-create 𝓟 laws s.nodes node p h.nested;
          right = (
            (get-create s.nodes node, refl),
            All-map s.known (λ x k. IsKnown-create s.nodes tenant node x.1 k) h.right,
          );
        }

    import_under-IsRight :
        (tenant now : ℕ) (row : ImportRow) (o : Option (ℕ × Node 𝓟)) (s : Imported 𝓟)
        → ((x : ℕ × Node 𝓟) → o ≡ some x → IsKnown s.nodes tenant x)
        → IsRight tenant s
        → IsRight tenant (import_under 𝓟 tenant now row o s)
    unfolding import_under imported_node
    import_under-IsRight tenant now row none s k h = record { nested = h.nested; right = h.right }
    import_under-IsRight tenant now row (some (p, pn)) s k h =
        elim (Bool-cases (validate_parent_child (stored_type 𝓟 (some (p, pn))) row.type)) [
          | inr v ↦ rw v (record { nested = h.nested; right = h.right })
          | inl v ↦
              let (a, b) = validate-IsUnder pn.type row.type v in
              let (i, j) = k (p, pn) refl in
              rw v (
                insert_row-IsRight tenant now row (some (p, pn)) s
                  (below p pn refl i j a (row_type-ne_group row.type b) refl) h)
        ]

    import_row_by-IsRight :
        (tenant now : ℕ) (row : ImportRow) (o : Option Text) (s : Imported 𝓟)
        → IsRight tenant s
        → IsRight tenant (import_row_by 𝓟 tenant now row o s)
    unfolding import_row_by imported_node
    import_row_by-IsRight tenant now row none s h =
        insert_row-IsRight tenant now row none s (at_top refl refl) h
    import_row_by-IsRight tenant now row (some code) s h =
        import_under-IsRight tenant now row (entry code s.known) s
          (λ x e. entry-All (λ key y. IsKnown s.nodes tenant y) code s.known x h.right e) h

    import_rows-IsRight :
        (tenant now : ℕ) (rows : List ImportRow) (s : Imported 𝓟)
        → IsRight tenant s
        → IsRight tenant (import_rows 𝓟 tenant now rows s)
    unfolding import_rows
    import_rows-IsRight tenant now [] s h = h
    import_rows-IsRight tenant now (row ∷ rows) s h =
        import_rows-IsRight tenant now rows _
          (import_row_by-IsRight tenant now row row.parent_code s h)

    import_sorted-Nested :
        (db : Db 𝓟) (tenant actor now : ℕ) (r : SortedRows)
        → IsNested 𝓟 db.nodes
        → Nested 𝓟 (import_sorted 𝓟 db tenant actor now r)
    unfolding import_sorted
    import_sorted-Nested db tenant actor now (row_cycle code) h = h
    import_sorted-Nested db tenant actor now ran_out h = h
    import_sorted-Nested db tenant actor now (sorted_rows rs) h =
        let found = many db.nodes (λ n. n.tenant == tenant) in
        let known =
          known_nodes-AllKnown db.nodes tenant found []
            (All-map found (λ x (p, q). (p, (==_iff x.1.tenant tenant).0 q))
              (many-All db.nodes (λ n. n.tenant == tenant)))
            tt in
        Nested-log 𝓟 _ _
          (import_rows-IsRight tenant now (reverse rs) _
            (record { nested = h; right = known })).nested

    pub bulk_import-Nested :
        (db : Db 𝓟) (tenant : ℕ) (rows : List ImportRow) (actor now : ℕ)
        → IsNested 𝓟 db.nodes
        → Nested 𝓟 (bulk_import 𝓟 db tenant rows actor now)
    unfolding bulk_import
    bulk_import-Nested db tenant [] actor now h = h
    bulk_import-Nested db tenant (r ∷ rows) actor now h =
        nested_if (ltb 10000 (length (r ∷ rows))) (not (all_typed (r ∷ rows))) _
          (import_sorted-Nested db tenant actor now (topo_sort_rows (r ∷ rows)) h)
      where
        nested_if :
            (a b : Bool) (x : Db 𝓟 × Answer (ℕ × List Text))
            → Nested 𝓟 x
            → Nested 𝓟 (
                if a then (db, refused bad_request) else if b then (db, refused bad_request) else x)
        nested_if true b x k = h
        nested_if false true x k = h
        nested_if false false x k = k
