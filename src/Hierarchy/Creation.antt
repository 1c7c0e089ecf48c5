-- ===== src/Hierarchy/Creation.antt =====
-- Which types of node `create` of hierarchy.service.ts can make.
use brsr_v.Prelude.{
  ℕ, ◌≡◌, ◌≢◌, refl, ◌⊎◌, inl, inr, false, Option, none, some, Text, text_eq, text_eq_iff, codes,
  Bool-cases,
}
use brsr_v.Platform.{Platform, Db, Refusal, refused, bad_request, not_found}
use brsr_v.Hierarchy.{
  HierarchyNodeType, company, business_unit, region, facility, process, product_line,
  node_type_name, validate_parent_child, Node, CreateHierarchyNodeDto, stored_type, create_under,
  create_node,
}
use brsr_v.Hierarchy.Types.{validate-IsUnder}
use brsr_v.Hierarchy.Nesting.{with_parent-cases}

-- the types below a business unit
pub data IsLow : HierarchyNodeType → Type 0 where
  low_region : IsLow region
  low_facility : IsLow facility
  low_process : IsLow process
  low_product_line : IsLow product_line

low_names :
    (c : HierarchyNodeType)
    → IsLow c
    → (text_eq (node_type_name c) (codes "GROUP") ≡ false)
      × (text_eq (node_type_name c) (codes "COMPANY") ≡ false)
      × (text_eq (node_type_name c) (codes "BUSINESS_UNIT") ≡ false)
unfolding text_eq
low_names HierarchyNodeType.group l = elim l [ ]
low_names company l = elim l [ ]
low_names business_unit l = elim l [ ]
low_names region low_region = (refl, refl, refl)
low_names facility low_facility = (refl, refl, refl)
low_names process low_process = (refl, refl, refl)
low_names product_line low_product_line = (refl, refl, refl)

text_ne : (s t : Text) → text_eq s t ≡ false → s ≢ t
text_ne s t h e = let k = (text_eq_iff s t).1 e in cc

module _ (𝓟 : Platform) where
  low_validate :
      (c : HierarchyNodeType) (parent : Option (ℕ × Node 𝓟))
      → IsLow c
      → validate_parent_child (stored_type 𝓟 parent) (node_type_name c) ≡ false
  unfolding validate_parent_child
  low_validate c none l = let (g, k, b) = low_names c l in rw (g, k)
  low_validate c (some (p, n)) l =
      let (g, k, b) = low_names c l in
      elim (Bool-cases (validate_parent_child (stored_type 𝓟 (some (p, n))) (node_type_name c))) [
        | inr v ↦ v
        | inl v ↦ absurd (none_of (validate-IsUnder n.type (node_type_name c) v).1 k b)
      ]
    where
      none_of :
          (node_type_name c ≡ codes "COMPANY") ⊎ (node_type_name c ≡ codes "BUSINESS_UNIT")
          → text_eq (node_type_name c) (codes "COMPANY") ≡ false
          → text_eq (node_type_name c) (codes "BUSINESS_UNIT") ≡ false
          → ⊥
      none_of (inl e) k b = text_ne _ _ k e
      none_of (inr e) k b = text_ne _ _ b e

  -- A request to create a region, a facility, a process or a product line is refused, whatever parent
  -- it names and whatever the database holds, and changes nothing.
  pub create_node-refused :
      (db : Db 𝓟) (tenant : ℕ) (dto : CreateHierarchyNodeDto 𝓟) (actor now : ℕ)
      → IsLow dto.type
      → (r : Refusal) × (create_node 𝓟 db tenant dto actor now ≡ (db, refused r))
  unfolding create_node create_under
  create_node-refused db tenant dto actor now l =
      with_parent-cases 𝓟 (λ h. (r : Refusal) × (h ≡ (db, refused r))) db tenant dto.parent
        (λ parent. create_under 𝓟 db tenant dto actor now parent) (not_found, refl)
        λ parent i. (bad_request, rw (low_validate dto.type parent l) refl)
