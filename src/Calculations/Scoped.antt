-- ===== src/Calculations/Scoped.antt =====
-- The scope nodes that `startRun` finds, or why it finds none.
use brsr_v.Prelude.{
  All, All-map, ==_iff, ℕ, ◌≤◌, ◌≡◌, refl, sym, ◌∙◌, subst, ◌⊎◌, inl, inr, Option, none, some, List,
  [], ◌∷◌, ◌==◌, length, Bool-cases, arith, take,
}
use brsr_v.Schema.{EntityNode}
use brsr_v.Platform.{Platform, Number, Db}
use brsr_v.Platform.Laws.{IsDatabase}
use brsr_v.Shared.Ltree.Labels.{false_ne_true}
use brsr_v.Calculations.Service.{ids_of, count_listed, nodes_of, none_refused, scope_of}
use brsr_v.Calculations.Scope.{
  Distinct, occurrences, FindsOnce, full_count, is_full_count, ids_of-Distinct, take-Distinct,
  All-take, length-take_le, Owned, occurs-Owned, Owned-occurs, ids_of-Owned,
}

module _ (𝓟 : Platform) where
  -- the scope of a run, found or not
  pub data Scoped (db : Db 𝓟) (tenant : ℕ) (asked : List ℕ) : Option (List ℕ) → Type 0 where
    nothing_there : asked ≡ [] → ((id : ℕ) → ¬ Owned 𝓟 db tenant id) → Scoped db tenant asked none
    wrong : ¬ (All (Owned 𝓟 db tenant) asked × Distinct asked) → Scoped db tenant asked none
    scope :
        (node : ℕ) (rest : List ℕ)
        → All (Owned 𝓟 db tenant) (node ∷ rest)
        → Distinct (node ∷ rest)
        → (node ∷ rest ≡ asked) ⊎ ((asked ≡ []) × (length (node ∷ rest) ≤ 50))
        → Scoped db tenant asked (some (node ∷ rest))

  module _ (laws : IsDatabase 𝓟) (db : Db 𝓟) (finds : FindsOnce 𝓟 db.nodes) (tenant : ℕ) where
    abbrev rows : List (ℕ × EntityNode (Number 𝓟))
    rows = nodes_of 𝓟 db tenant

    occurs_once : (id : ℕ) → occurrences id rows ≤ 1
    occurs_once id = finds.at_most_once _ id

    no_rows :
        (xs : List (ℕ × EntityNode (Number 𝓟))) (id : ℕ)
        → [] ≡ take 50 (ids_of 𝓟 xs)
        → ¬ (1 ≤ occurrences id xs)
    unfolding ids_of occurrences
    no_rows [] id h n = omega (arith, n)
    no_rows ((j, a) ∷ xs) id h n = cc

    none_refused-Scoped :
        (ids : List ℕ) → ids ≡ take 50 (ids_of 𝓟 rows) → Scoped db tenant [] (none_refused 𝓟 ids)
    none_refused-Scoped [] h =
        nothing_there refl
          λ id own. let n = Owned-occurs 𝓟 db tenant laws finds id own in no_rows rows id h n
    none_refused-Scoped (id ∷ ids) h =
        scope id ids
          (subst (All (Owned 𝓟 db tenant)) (sym h)
            (All-take (Owned 𝓟 db tenant) 50 _ (ids_of-Owned 𝓟 db tenant laws)))
          (subst Distinct (sym h) (take-Distinct 50 _ (ids_of-Distinct 𝓟 rows occurs_once)))
          (inr (refl, subst (λ xs. length xs ≤ 50) (sym h) (length-take_le 50 (ids_of 𝓟 rows))))

    pub scope_of-Scoped : (asked : List ℕ) → Scoped db tenant asked (scope_of 𝓟 db tenant asked)
    unfolding scope_of
    scope_of-Scoped [] = none_refused-Scoped _ refl
    scope_of-Scoped (id ∷ ids) =
        elim (Bool-cases (count_listed 𝓟 (id ∷ ids) rows == length (id ∷ ids))) [
          | inl p ↦
              let (found, apart) = full_count 𝓟 rows occurs_once (id ∷ ids) ((==_iff _ _).0 p) in
              rw p (
                scope id ids (All-map (id ∷ ids) (occurs-Owned 𝓟 db tenant laws) found) apart
                  (inl refl))
          | inr p ↦ rw p (
              wrong λ (own, apart). false_ne_true (
                sym p
                ∙ (==_iff _ _).1 (
                    is_full_count 𝓟 rows occurs_once (id ∷ ids)
                      (All-map (id ∷ ids) (Owned-occurs 𝓟 db tenant laws finds) own) apart)))
        ]
