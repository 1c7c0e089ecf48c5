-- ===== src/Hierarchy/Types.antt =====
-- What `validateParentChild` of hierarchy.service.ts lets through. It compares the type that a row
-- stores, an EntityType, with the names of HierarchyNodeType.
use brsr_v.Prelude.{
  ◌≡◌, refl, sym, subst, ◌⊎◌, inl, inr, true, false, ◌||◌, Option, none, some, Text, text_eq,
  text_eq_iff, is_one_of, codes, Bool-cases, List, [], ◌∷◌, All,
}
use brsr_v.Schema.{EntityType, legal_entity, division, site, department}
use brsr_v.Shared.Ltree.Labels.{false_ne_true}
use brsr_v.Shared.Tables.{entry}
use brsr_v.Hierarchy.{
  HierarchyNodeType, group, company, business_unit, region, facility, process, product_line,
  node_type_name, entity_type_name, validate_parent_child, includes, allowed_parents,
}

module _ {A : Type 0} (P : Text → A → Type 0) where
  -- what holds of every assignment holds of the one that is looked up
  pub entry-All :
      (key : Text) (t : List (Text × A)) (a : A)
      → All (λ x. P x.0 x.1) t
      → entry key t ≡ some a
      → P key a
  unfolding entry
  entry-All key [] a h e = cc
  entry-All key ((k, b) ∷ t) a (p, h) e = elim (Bool-cases (text_eq key k)) [
    | inl q ↦
        let same = some-inj (rw q at e) in
        subst (λ x. P x a) (sym ((text_eq_iff key k).0 q)) (subst (λ x. P k x) same p)
    | inr q ↦ entry-All key t a h (rw q at e)
  ]
    where
      some-inj : {x y : A} → some x ≡ some y → x ≡ y
      some-inj h = cc

is_group :
    (p : EntityType)
    → (text_eq (entity_type_name p) (codes "GROUP") || false) ≡ true
    → p ≡ EntityType.group
unfolding text_eq
is_group EntityType.group h = refl
is_group legal_entity h = cc
is_group division h = cc
is_group site h = cc
is_group department h = cc

-- no stored type has the name of another node type
not_stored :
    (p : EntityType)
    → (text_eq (entity_type_name p) (codes "COMPANY") ≡ false)
      × (text_eq (entity_type_name p) (codes "BUSINESS_UNIT") ≡ false)
      × (text_eq (entity_type_name p) (codes "REGION") ≡ false)
      × (text_eq (entity_type_name p) (codes "FACILITY") ≡ false)
unfolding text_eq
not_stored EntityType.group = (refl, refl, refl, refl)
not_stored legal_entity = (refl, refl, refl, refl)
not_stored division = (refl, refl, refl, refl)
not_stored site = (refl, refl, refl, refl)
not_stored department = (refl, refl, refl, refl)

-- the names of the types that may stand under a stored type
abbrev pub IsUnder : EntityType → Text → Type 0
IsUnder p child =
    (p ≡ EntityType.group) × ((child ≡ codes "COMPANY") ⊎ (child ≡ codes "BUSINESS_UNIT"))

parents-IsUnder :
    (p : EntityType)
    → All (λ x. is_one_of (entity_type_name p) x.1 ≡ true → IsUnder p x.0) allowed_parents
unfolding is_one_of
parents-IsUnder p =
    let (c, b, r, f) = not_stored p in
    (
      λ h. cc,
      (
        λ h. (is_group p h, inl refl),
        (
          λ h. (is_group p (rw c at h), inr refl),
          (
            λ h. absurd (false_ne_true (rw (c, b) at h)),
            (
              λ h. absurd (false_ne_true (rw (c, b, r) at h)),
              (
                λ h. absurd (false_ne_true (rw (b, f) at h)),
                (λ h. absurd (false_ne_true (rw (b, f) at h)), tt),
              ),
            ),
          ),
        ),
      ),
    )

pub validate-IsUnder :
    (p : EntityType) (child : Text)
    → validate_parent_child (some (entity_type_name p)) child ≡ true
    → IsUnder p child
unfolding validate_parent_child
validate-IsUnder p child h = go (entry child allowed_parents) refl h
  where
    go :
        (o : Option (List Text))
        → entry child allowed_parents ≡ o
        → includes o (entity_type_name p) ≡ true
        → IsUnder p child
    go none e i = cc
    go (some ts) e i =
        entry-All (λ k ts. is_one_of (entity_type_name p) ts ≡ true → IsUnder p k) child
          allowed_parents ts (parents-IsUnder p) e i

pub named_company :
    (c : HierarchyNodeType) → text_eq (node_type_name c) (codes "COMPANY") ≡ true → c ≡ company
unfolding text_eq
named_company group h = cc
named_company company h = refl
named_company business_unit h = cc
named_company region h = cc
named_company facility h = cc
named_company process h = cc
named_company product_line h = cc

pub named_unit :
    (c : HierarchyNodeType)
    → text_eq (node_type_name c) (codes "BUSINESS_UNIT") ≡ true
    → c ≡ business_unit
unfolding text_eq
named_unit group h = cc
named_unit company h = cc
named_unit business_unit h = refl
named_unit region h = cc
named_unit facility h = cc
named_unit process h = cc
named_unit product_line h = cc

-- no stored node may be put under another, whatever their types
pub validate_stored :
    (parent : Text) (c : EntityType)
    → validate_parent_child (some parent) (entity_type_name c) ≡ false
unfolding validate_parent_child entry is_one_of text_eq
validate_stored parent EntityType.group = refl
validate_stored parent legal_entity = refl
validate_stored parent division = refl
validate_stored parent site = refl
validate_stored parent department = refl

-- of the stored types, only a group may stand at the top
pub validate_top :
    (c : EntityType) → validate_parent_child none (entity_type_name c) ≡ true → c ≡ EntityType.group
unfolding validate_parent_child text_eq
validate_top EntityType.group h = refl
validate_top legal_entity h = cc
validate_top division h = cc
validate_top site h = cc
validate_top department h = cc
