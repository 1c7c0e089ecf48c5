-- ===== src/Platform/Laws.antt =====
-- The documented behaviour of the database client that the theorems rely on.
use brsr_v.Prelude.{
  ℕ, Bool, true, ◌≡◌, ◌≢◌, none, some, All, Somewhere, length, ◌≤◌, ◌+◌, if◌then◌else◌,
}
use brsr_v.Platform.{Platform}

module _ (𝓟 : Platform) where
  open 𝓟 use {Rows, get, put, create, many}

  -- A table is a map from ids: `update` changes the row with the id and no other, and `create`
  -- adds a row under a fresh id; `findMany` finds rows that are there and that meet the
  -- condition, and after `create` at most the new row more.
  pub record IsDatabase : Type 1 where
    pub get-put :
        {A : Type 0} (t : Rows A) (id : ℕ) (a b : A)
        → get t id ≡ some a
        → get (put t id b) id ≡ some b
    pub get-put_other :
        {A : Type 0} (t : Rows A) (id j : ℕ) (b : A) → id ≢ j → get (put t id b) j ≡ get t j
    pub create_fresh : {A : Type 0} (t : Rows A) (a : A) → get t (create t a).0 ≡ none
    pub get-create : {A : Type 0} (t : Rows A) (a : A) → get (create t a).1 (create t a).0 ≡ some a
    pub get-create_other :
        {A : Type 0} (t : Rows A) (a : A) (j : ℕ)
        → (create t a).0 ≢ j
        → get (create t a).1 j ≡ get t j
    pub many-All :
        {A : Type 0} (t : Rows A) (test : A → Bool)
        → All (λ x. (get t x.0 ≡ some x.1) × (test x.1 ≡ true)) (many t test)
    pub length-many-create :
        {A : Type 0} (t : Rows A) (a : A) (test : A → Bool)
        → length (many (create t a).1 test) ≤ length (many t test) + (if test a then 1 else 0)

  -- `findMany` leaves out no row that meets the condition.
  pub record FindsAll {A : Type 0} (t : Rows A) : Type 0 where
    pub is_found :
        (test : A → Bool) (id : ℕ) (a : A)
        → get t id ≡ some a
        → test a ≡ true
        → Somewhere (λ x. x ≡ (id, a)) (many t test)
