-- ===== src/Hierarchy/Kinds.antt =====
-- The types of nodes, in requests and in rows, and which may stand under which (hierarchy.service.ts).
use brsr_v.Prelude.{
  Bool, false, ◌||◌, Option, none, some, List, [], ◌∷◌, Text, text_eq, is_one_of, codes,
}
use brsr_v.Schema.{EntityType, legal_entity, division, site, department}
use brsr_v.Shared.Tables.{entry}

pub data HierarchyNodeType : Type 0 where
  group company business_unit region facility process product_line : HierarchyNodeType

-- The node types of a request and those of a row are strings, which the service compares.
abbrev pub node_type_name : HierarchyNodeType → Text
node_type_name group = codes "GROUP"
node_type_name company = codes "COMPANY"
node_type_name business_unit = codes "BUSINESS_UNIT"
node_type_name region = codes "REGION"
node_type_name facility = codes "FACILITY"
node_type_name process = codes "PROCESS"
node_type_name product_line = codes "PRODUCT_LINE"

abbrev pub entity_type_name : EntityType → Text
entity_type_name EntityType.group = codes "GROUP"
entity_type_name legal_entity = codes "LEGAL_ENTITY"
entity_type_name division = codes "DIVISION"
entity_type_name site = codes "SITE"
entity_type_name department = codes "DEPARTMENT"

-- `mapNodeTypeToEntityType`
abbrev pub map_node_type : HierarchyNodeType → EntityType
map_node_type group = EntityType.group
map_node_type company = legal_entity
map_node_type business_unit = division
map_node_type region = site
map_node_type facility = site
map_node_type process = department
map_node_type product_line = department

abbrev pub allowed_parents : List (Text × List Text)
allowed_parents =
    (codes "GROUP", [])
    ∷ (codes "COMPANY", codes "GROUP" ∷ [])
    ∷ (codes "BUSINESS_UNIT", codes "GROUP" ∷ codes "COMPANY" ∷ [])
    ∷ (codes "REGION", codes "COMPANY" ∷ codes "BUSINESS_UNIT" ∷ [])
    ∷ (codes "FACILITY", codes "COMPANY" ∷ codes "BUSINESS_UNIT" ∷ codes "REGION" ∷ [])
    ∷ (codes "PROCESS", codes "BUSINESS_UNIT" ∷ codes "FACILITY" ∷ [])
    ∷ (codes "PRODUCT_LINE", codes "BUSINESS_UNIT" ∷ codes "FACILITY" ∷ [])
    ∷ []

-- `allowed?.includes(parentType)`
abbrev pub includes : Option (List Text) → Text → Bool
unfolding is_one_of
includes none t = false
includes (some ts) t = is_one_of t ts

-- whether `validateParentChild` returns
unfoldable pub validate_parent_child : Option Text → Text → Bool
unfolding entry includes text_eq
validate_parent_child none child = text_eq child (codes "GROUP") || text_eq child (codes "COMPANY")
validate_parent_child (some parent) child = includes (entry child allowed_parents) parent
