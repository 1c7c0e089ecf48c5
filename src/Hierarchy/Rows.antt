-- ===== src/Hierarchy/Rows.antt =====
-- Where the rows of the nodes stand in the tree, and the writes of a table that keep them there.
use brsr_v.Prelude.{
  ℕ, ◌≡◌, ◌≢◌, sym, ap, ◌∙◌, subst, inl, inr, Option, none, some, ◌∷◌, ◌++◌, ◌==◌, ==_iff, ==-ne,
  Bool-cases,
}
use brsr_v.Schema.{EntityType}
use brsr_v.Platform.{Platform}
use brsr_v.Platform.Laws.{IsDatabase}
use brsr_v.Hierarchy.{Node}

module _ (𝓟 : Platform) where
  open 𝓟 use {Rows, get, put, create}

  -- A node without a parent has its code for its path. Any other stands under a group of its tenant,
  -- is no group itself, and has the path of its parent, a dot and its code for its path.
  pub data Placed (t : Rows (Node 𝓟)) (n : Node 𝓟) : Type 0 where
    at_top : n.parent ≡ none → n.ltree_path ≡ n.code → Placed t n
    below :
        (p : ℕ) (pn : Node 𝓟)
        → n.parent ≡ some p
        → get t p ≡ some pn
        → pn.tenant ≡ n.tenant
        → pn.type ≡ EntityType.group
        → n.type ≢ EntityType.group
        → n.ltree_path ≡ pn.ltree_path ++ b'.' ∷ n.code
        → Placed t n

  unfoldable pub PlacedRow : Rows (Node 𝓟) → Option (Node 𝓟) → Type 0
  PlacedRow t none = Unit
  PlacedRow t (some n) = Placed t n

  -- every row is in its place
  unfoldable pub IsNested : Rows (Node 𝓟) → Type 0
  IsNested t = (id : ℕ) → PlacedRow t (get t id)

  -- what a row's place depends on
  pub record SameShape (m n : Node 𝓟) : Type 0 where
    pub same_tenant : m.tenant ≡ n.tenant
    pub same_parent : m.parent ≡ n.parent
    pub same_type : m.type ≡ n.type
    pub same_code : m.code ≡ n.code
    pub same_path : m.ltree_path ≡ n.ltree_path

  pub row_place :
      (t : Rows (Node 𝓟)) (id : ℕ) (n : Node 𝓟) → IsNested t → get t id ≡ some n → Placed t n
  unfolding IsNested PlacedRow
  row_place t id n h e = subst (PlacedRow t) e (h id)

  some-inj : {A : Type 0} {a b : A} → some a ≡ some b → a ≡ b
  some-inj h = cc

  Placed-SameShape : (t : Rows (Node 𝓟)) (m n : Node 𝓟) → SameShape m n → Placed t n → Placed t m
  Placed-SameShape t m n s (at_top p q) =
      at_top (s.same_parent ∙ p) (s.same_path ∙ q ∙ sym s.same_code)
  Placed-SameShape t m n s (below p pn a b c d e f) =
      below p pn (s.same_parent ∙ a) b (c ∙ sym s.same_tenant) d (λ g. e (sym s.same_type ∙ g))
        (s.same_path ∙ f ∙ ap (λ x. pn.ltree_path ++ b'.' ∷ x) (sym s.same_code))

  module _ (laws : IsDatabase 𝓟) where
    open laws use {get-put, get-put_other, create_fresh, get-create, get-create_other}

    Placed-put :
        (t : Rows (Node 𝓟)) (id : ℕ) (n n' m : Node 𝓟)
        → get t id ≡ some n
        → SameShape n' n
        → Placed t m
        → Placed (put t id n') m
    Placed-put t id n n' m h s (at_top p q) = at_top p q
    Placed-put t id n n' m h s (below p pn a b c d e f) = elim (Bool-cases (id == p)) [
      | inr q ↦ below p pn a (get-put_other t id p n' (==-ne id p q) ∙ b) c d e f
      | inl q ↦
          let same = some-inj (sym h ∙ ap (get t) ((==_iff id p).0 q) ∙ b) in
          below p n' a (ap (get (put t id n')) (sym ((==_iff id p).0 q)) ∙ get-put t id n n' h)
            (s.same_tenant ∙ ap (λ x. x.tenant) same ∙ c) (s.same_type ∙ ap (λ x. x.type) same ∙ d)
            e
            (f ∙ ap (λ x. x ++ b'.' ∷ m.code) (ap (λ x. x.ltree_path) (sym same) ∙ sym s.same_path))
    ]

    Placed-create : (t : Rows (Node 𝓟)) (n m : Node 𝓟) → Placed t m → Placed (create t n).1 m
    Placed-create t n m (at_top p q) = at_top p q
    Placed-create t n m (below p pn a b c d e f) =
        below p pn a
          (get-create_other t n p (λ q. some_none (sym b ∙ ap (get t) (sym q) ∙ create_fresh t n))
            ∙ b)
          c d e f
      where
        some_none : some pn ≢ none
        some_none h = cc

    row-map :
        (t t' : Rows (Node 𝓟)) (o : Option (Node 𝓟))
        → ((m : Node 𝓟) → Placed t m → Placed t' m)
        → PlacedRow t o
        → PlacedRow t' o
    unfolding PlacedRow
    row-map t t' none f h = tt
    row-map t t' (some m) f h = f m h

    -- writing a row that keeps its shape, and adding a row that has a place
    pub IsNested-put :
        (t : Rows (Node 𝓟)) (id : ℕ) (n n' : Node 𝓟)
        → get t id ≡ some n
        → SameShape n' n
        → IsNested t
        → IsNested (put t id n')
    unfolding IsNested PlacedRow
    IsNested-put t id n n' h s k j = elim (Bool-cases (id == j)) [
      | inl q ↦
          subst (PlacedRow (put t id n'))
            (sym (get-put t id n n' h) ∙ ap (get (put t id n')) ((==_iff id j).0 q))
            (Placed-put t id n n' n' h s (Placed-SameShape t n' n s (row_place t id n k h)))
      | inr q ↦
          subst (PlacedRow (put t id n')) (sym (get-put_other t id j n' (==-ne id j q)))
            (row-map t (put t id n') (get t j) (λ m p. Placed-put t id n n' m h s p) (k j))
    ]

    pub IsNested-create :
        (t : Rows (Node 𝓟)) (n : Node 𝓟) → Placed t n → IsNested t → IsNested (create t n).1
    unfolding IsNested PlacedRow
    IsNested-create t n h k j = elim (Bool-cases ((create t n).0 == j)) [
      | inl q ↦
          subst (PlacedRow (create t n).1)
            (sym (get-create t n) ∙ ap (get (create t n).1) ((==_iff (create t n).0 j).0 q))
            (Placed-create t n n h)
      | inr q ↦
          subst (PlacedRow (create t n).1) (sym (get-create_other t n j (==-ne _ j q)))
            (row-map t (create t n).1 (get t j) (λ m p. Placed-create t n m p) (k j))
    ]
