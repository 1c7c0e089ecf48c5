-- ===== src/Calculations/Scope.antt =====
-- The scope nodes of a run (calculations.service.ts), by the count that `startRun` makes of them.
use brsr_v.Prelude.{
  ℕ, zero, suc, subst, ◌≤◌, ◌+◌, ◌≡◌, refl, inl, inr, Bool, true, false, some, List, [], ◌∷◌, ◌==◌,
  All, length, take, if◌then◌else◌, Bool-cases, ==_iff, arith,
}
use brsr_v.Schema.{EntityNode}
use brsr_v.Platform.{Platform, Number, Db}
use brsr_v.Platform.Laws.{IsDatabase}
use brsr_v.Calculations.Service.{is_listed, ids_of, count_listed, nodes_of}

-- no id twice
unfoldable pub Distinct : List ℕ → Type 0
Distinct [] = Unit
Distinct (id ∷ ids) = (is_listed id ids ≡ false) × Distinct ids

-- how many of the rows have the id
unfoldable pub occurrences : {A : Type 0} → ℕ → List (ℕ × A) → ℕ
occurrences id [] = 0
occurrences id ((j, a) ∷ rows) = let n = occurrences id rows in if j == id then suc n else n

-- The documented behaviour of `findMany` and `count` on a table: each row of the table that meets
-- the condition is found, and none is found twice.
pub record FindsOnce (𝓟 : Platform) (t : 𝓟.Rows (EntityNode (Number 𝓟))) : Type 0 where
  pub at_most_once :
      (test : EntityNode (Number 𝓟) → Bool) (id : ℕ) → occurrences id (𝓟.many t test) ≤ 1
  pub is_found :
      (test : EntityNode (Number 𝓟) → Bool) (id : ℕ) (n : EntityNode (Number 𝓟))
      → 𝓟.get t id ≡ some n
      → test n ≡ true
      → 1 ≤ occurrences id (𝓟.many t test)

module _ (𝓟 : Platform) {A : Type 0} where
  count-more :
      (id : ℕ) (ids : List ℕ) (rows : List (ℕ × A))
      → count_listed 𝓟 (id ∷ ids) rows ≤ count_listed 𝓟 ids rows + occurrences id rows
  unfolding count_listed occurrences is_listed
  count-more id ids [] = omega arith
  count-more id ids ((j, a) ∷ rows) = ground (arith, count-more id ids rows)

  count-again :
      (id : ℕ) (ids : List ℕ) (rows : List (ℕ × A))
      → is_listed id ids ≡ true
      → count_listed 𝓟 (id ∷ ids) rows ≤ count_listed 𝓟 ids rows
  unfolding count_listed is_listed
  count-again id ids [] h = omega arith
  count-again id ids ((j, a) ∷ rows) h = elim (Bool-cases (j == id)) [
    | inl p ↦ let q = (==_iff j id).0 p in rw (p, q, h) (omega (arith, count-again id ids rows h))
    | inr p ↦ rw p (ground (arith, count-again id ids rows h))
  ]

  count-new :
      (id : ℕ) (ids : List ℕ) (rows : List (ℕ × A))
      → is_listed id ids ≡ false
      → count_listed 𝓟 (id ∷ ids) rows ≡ count_listed 𝓟 ids rows + occurrences id rows
  unfolding count_listed occurrences is_listed
  count-new id ids [] h = refl
  count-new id ids ((j, a) ∷ rows) h = elim (Bool-cases (j == id)) [
    | inl p ↦ let q = (==_iff j id).0 p in rw (p, q, h) (omega (arith, count-new id ids rows h))
    | inr p ↦ rw p (ground (arith, count-new id ids rows h))
  ]

  count-none : (rows : List (ℕ × A)) → count_listed 𝓟 [] rows ≡ 0
  unfolding count_listed is_listed
  count-none [] = refl
  count-none ((j, a) ∷ rows) = count-none rows

  module _ (rows : List (ℕ × A)) (once : (id : ℕ) → occurrences id rows ≤ 1) where
    count_le : (ids : List ℕ) → count_listed 𝓟 ids rows ≤ length ids
    count_le [] = omega (arith, count-none rows)
    count_le (id ∷ ids) = omega (arith, count-more id ids rows, once id, count_le ids)

    -- Where the count is that of the ids, each of them is the id of a row and none is named twice.
    pub full_count :
        (ids : List ℕ)
        → count_listed 𝓟 ids rows ≡ length ids
        → All (λ id. 1 ≤ occurrences id rows) ids × Distinct ids
    unfolding Distinct
    full_count [] h = (tt, tt)
    full_count (id ∷ ids) h = elim (Bool-cases (is_listed id ids)) [
      | inl p ↦ absurd (omega (arith, h, count-again id ids rows p, count_le ids))
      | inr p ↦
          let n = count-new id ids rows p in
          let (found, apart) = full_count ids (omega (arith, h, n, once id, count_le ids)) in
          ((omega (arith, h, n, count_le ids), found), (p, apart))
    ]

    -- Where each of the ids is that of a row and none is named twice, the count is that of the ids.
    pub is_full_count :
        (ids : List ℕ)
        → All (λ id. 1 ≤ occurrences id rows) ids
        → Distinct ids
        → count_listed 𝓟 ids rows ≡ length ids
    unfolding Distinct
    is_full_count [] h d = count-none rows
    is_full_count (id ∷ ids) (h, hs) (p, d) =
        omega (arith, h, once id, count-new id ids rows p, is_full_count ids hs d)

  occurs :
      (P : ℕ → A → Type 0) (id : ℕ) (rows : List (ℕ × A))
      → All (λ x. P x.0 x.1) rows
      → 1 ≤ occurrences id rows
      → (a : A) × P id a
  unfolding occurrences
  occurs P id [] h n = absurd (omega (arith, n))
  occurs P id ((j, a) ∷ rows) (h, hs) n = elim (Bool-cases (j == id)) [
    | inl p ↦ (a, subst (λ k. P k a) ((==_iff j id).0 p) h)
    | inr p ↦ occurs P id rows hs (rw p at n)
  ]

  not_listed :
      (id : ℕ) (rows : List (ℕ × A))
      → occurrences id rows ≤ 0
      → is_listed id (ids_of 𝓟 rows) ≡ false
  unfolding occurrences is_listed ids_of
  not_listed id [] h = refl
  not_listed id ((j, a) ∷ rows) h = ground (arith, h, not_listed id rows)

  pub ids_of-Distinct :
      (rows : List (ℕ × A)) → ((id : ℕ) → occurrences id rows ≤ 1) → Distinct (ids_of 𝓟 rows)
  unfolding Distinct ids_of occurrences
  ids_of-Distinct [] h = tt
  ids_of-Distinct ((j, a) ∷ rows) h =
      (not_listed j rows (first_only (h j)), ids_of-Distinct rows λ id. ground (arith, h id))
    where
      first_only : occurrences j ((j, a) ∷ rows) ≤ 1 → occurrences j rows ≤ 0
      first_only k = ground (arith, k)

not_listed-take :
    (id n : ℕ) (ids : List ℕ) → is_listed id ids ≡ false → is_listed id (take n ids) ≡ false
unfolding is_listed
not_listed-take id zero ids h = refl
not_listed-take id (suc n) [] h = refl
not_listed-take id (suc n) (j ∷ ids) h = ground (arith, h, not_listed-take id n ids)

pub take-Distinct : (n : ℕ) (ids : List ℕ) → Distinct ids → Distinct (take n ids)
unfolding Distinct
take-Distinct zero ids h = tt
take-Distinct (suc n) [] h = tt
take-Distinct (suc n) (j ∷ ids) (p, h) = (not_listed-take j n ids p, take-Distinct n ids h)

pub All-take : (P : ℕ → Type 0) (n : ℕ) (ids : List ℕ) → All P ids → All P (take n ids)
All-take P zero ids h = tt
All-take P (suc n) [] h = tt
All-take P (suc n) (j ∷ ids) (p, h) = (p, All-take P n ids h)

pub length-take_le : (n : ℕ) (ids : List ℕ) → length (take n ids) ≤ n
length-take_le zero ids = omega arith
length-take_le (suc n) [] = omega arith
length-take_le (suc n) (j ∷ ids) = omega (arith, length-take_le n ids)

module _ (𝓟 : Platform) (db : Db 𝓟) (tenant : ℕ) where
  -- the id of a node of the tenant's
  pub Owned : ℕ → Type 0
  Owned id = (n : EntityNode (Number 𝓟)) × (𝓟.get db.nodes id ≡ some n) × (n.tenant ≡ tenant)

  module _ (laws : IsDatabase 𝓟) where
    pub occurs-Owned : (id : ℕ) → 1 ≤ occurrences id (nodes_of 𝓟 db tenant) → Owned id
    unfolding Owned
    occurs-Owned id h =
        let (n, (there, test)) =
          occurs 𝓟 (λ j n. (𝓟.get db.nodes j ≡ some n) × ((n.tenant == tenant) ≡ true)) id
            (nodes_of 𝓟 db tenant) (laws.many-All db.nodes _) h in
        (n, there, (==_iff n.tenant tenant).0 test)

    pub Owned-occurs :
        FindsOnce 𝓟 db.nodes → (id : ℕ) → Owned id → 1 ≤ occurrences id (nodes_of 𝓟 db tenant)
    unfolding Owned
    Owned-occurs finds id (n, there, own) =
        finds.is_found _ id n there ((==_iff n.tenant tenant).1 own)

    -- the ids of the rows found
    pub ids_of-Owned : All Owned (ids_of 𝓟 (nodes_of 𝓟 db tenant))
    unfolding Owned ids_of
    ids_of-Owned = All-ids (nodes_of 𝓟 db tenant) (laws.many-All db.nodes _)
      where
        All-ids :
            (rows : List (ℕ × EntityNode (Number 𝓟)))
            → All (λ x. (𝓟.get db.nodes x.0 ≡ some x.1) × ((x.1.tenant == tenant) ≡ true)) rows
            → All Owned (ids_of 𝓟 rows)
        All-ids [] h = tt
        All-ids ((j, n) ∷ rows) ((there, test), h) =
            ((n, there, (==_iff n.tenant tenant).0 test), All-ids rows h)
