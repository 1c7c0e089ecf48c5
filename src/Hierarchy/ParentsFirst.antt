-- ===== src/Hierarchy/ParentsFirst.antt =====
-- What `topoSort` of hierarchy.service.ts gives: parents before their children.
use brsr_v.Prelude.{
  ◌<◌, All-map, ℕ, ◌≡◌, refl, sym, ap, ◌∙◌, subst, ◌⊎◌, inl, inr, Bool, true, false, Option, none,
  some, List, [], ◌∷◌, Text, All,
}
use brsr_v.Calculations.{Formula, sorted, by_key, has_key}
use brsr_v.Calculations.Acyclic.{IsRanked, topo_sort-acyclic}
use brsr_v.Calculations.Order.{Holds, sorts, IsOrdered, topo_sort-Holds}
use brsr_v.Hierarchy.Import.{
  ImportRow, SortedRows, sorted_rows, row_cycle, ran_out, by_code, has_code, parent_row,
  topo_sort_rows,
}
use brsr_v.Hierarchy.Sorting.{
  inputs_of, row_formulas, as_sorted, as_found, by_key-row_formulas, has_key-row_formulas,
  topo_sort_rows-topo_sort,
}

-- the code of a parent is that of a row
abbrev parent_in : Option Text → List ImportRow → Bool
unfolding has_code
parent_in none rs = false
parent_in (some code) rs = has_code code rs

-- In a list of rows, newest first: every row whose parent the sheet has comes after that parent, and
-- no two have the same code.
pub RowsOrdered : List ImportRow → List ImportRow → Type 0
RowsOrdered all [] = Unit
RowsOrdered all (r ∷ rs) =
    ((parent_row all r.parent_code ≡ none) ⊎ (parent_in r.parent_code rs ≡ true))
    × (has_code r.code rs ≡ false)
    × RowsOrdered all rs

-- What sorting the rows of a sheet may end in.
pub data SortOf (all : List ImportRow) : SortedRows → Type 0 where
  all_sorted :
      {rs : List ImportRow}
      → RowsOrdered all rs
      → All (λ r. has_code r.code rs ≡ true) all
      → SortOf all (sorted_rows rs)
  cycle_found : {code : Text} → SortOf all (row_cycle code)

found_none : (o : Option ImportRow) → as_found o ≡ none → o ≡ none
found_none none h = refl
found_none (some r) h = cc

ordered_rows :
    (all rs : List ImportRow) → IsOrdered (row_formulas all) (row_formulas rs) → RowsOrdered all rs
unfolding RowsOrdered parent_row parent_in has_code
ordered_rows all [] h = tt
ordered_rows all (r ∷ rs) (a, b, c, d) =
    (parent_first r.parent_code a, sym (has_key-row_formulas r.code rs) ∙ b, ordered_rows all rs d)
  where
    parent_first :
        (parent : Option Text)
        → All
            (λ k. (by_key (row_formulas all) k ≡ none) ⊎ (has_key k (row_formulas rs) ≡ true))
            (inputs_of parent)
        → (parent_row all parent ≡ none) ⊎ (parent_in parent rs ≡ true)
    parent_first none h = inl refl
    parent_first (some code) (inl p, h) =
        inl (found_none (by_code all code) (sym (by_key-row_formulas all code) ∙ p))
    parent_first (some code) (inr p, h) = inr (sym (has_key-row_formulas code rs) ∙ p)

codes_found :
    (all rs : List ImportRow)
    → All (λ f. has_key f.output_key (row_formulas rs) ≡ true) (row_formulas all)
    → All (λ r. has_code r.code rs ≡ true) all
codes_found [] rs h = tt
codes_found (r ∷ all) rs (p, h) = (sym (has_key-row_formulas r.code rs) ∙ p, codes_found all rs h)

SortOf-as_sorted :
    (all : List ImportRow) (r : SortedRows)
    → Holds
        (λ fs.
          IsOrdered (row_formulas all) fs
          × All (λ f. has_key f.output_key fs ≡ true) (row_formulas all))
        (as_sorted r)
    → SortOf all r
SortOf-as_sorted all (sorted_rows rs) (sorts (a, b)) =
    all_sorted (ordered_rows all rs a) (codes_found all rs b)
SortOf-as_sorted all (row_cycle code) h = cycle_found
SortOf-as_sorted all ran_out h = elim h [ ]

-- Sorting the rows of any sheet ends, within the fuel given: it reports a cycle, or its result, newest
-- first, has a row for every code, none twice, and every row after that of its parent, where the sheet
-- has one.
pub topo_sort_rows-SortOf : (rows : List ImportRow) → SortOf rows (topo_sort_rows rows)
topo_sort_rows-SortOf rows =
    SortOf-as_sorted rows (topo_sort_rows rows)
      (subst (Holds _) (sym (topo_sort_rows-topo_sort rows)) (topo_sort-Holds (row_formulas rows)))

-- A row whose parent has a row in the sheet ranks above that parent.
unfoldable pub RowRanked : (Text → ℕ) → List ImportRow → ImportRow → Type 0
RowRanked rank all r =
    All (λ code. (by_code all code ≡ none) ⊎ (rank code < rank r.code)) (inputs_of r.parent_code)

IsRanked-row_formulas :
    (rank : Text → ℕ) (all rows : List ImportRow)
    → All (RowRanked rank all) rows
    → All (IsRanked rank (row_formulas all)) (row_formulas rows)
unfolding RowRanked
IsRanked-row_formulas rank all [] h = tt
IsRanked-row_formulas rank all (r ∷ rows) (p, h) = (
  All-map (inputs_of r.parent_code) (λ code. known_below code) p,
  IsRanked-row_formulas rank all rows h,
)
  where
    known_below :
        (code : Text)
        → (by_code all code ≡ none) ⊎ (rank code < rank r.code)
        → (by_key (row_formulas all) code ≡ none) ⊎ (rank code < rank r.code)
    known_below code (inl q) = inl (by_key-row_formulas all code ∙ ap as_found q)
    known_below code (inr q) = inr q

no_cycle :
    (all : List ImportRow) (r : SortedRows) (fs : List Formula)
    → as_sorted r ≡ sorted fs
    → SortOf all r
    → (rs : List ImportRow) × (r ≡ sorted_rows rs)
      × RowsOrdered all rs
      × All (λ row. has_code row.code rs ≡ true) all
no_cycle all (sorted_rows rs) fs e (all_sorted h k) = (rs, refl, h, k)
no_cycle all (row_cycle code) fs e h = cc
no_cycle all ran_out fs e h = cc

-- Where no row of a sheet stands below itself, so that the codes can be ranked with every row above
-- the row of its parent, sorting succeeds: the result, newest first, has a row for every code, none
-- twice, and every row after that of its parent, where the sheet has one.
pub topo_sort_rows-RowsOrdered :
    (rank : Text → ℕ) (rows : List ImportRow)
    → All (RowRanked rank rows) rows
    → (rs : List ImportRow) × (topo_sort_rows rows ≡ sorted_rows rs)
      × RowsOrdered rows rs
      × All (λ row. has_code row.code rs ≡ true) rows
topo_sort_rows-RowsOrdered rank rows h =
    let (fs, e, p, q) =
      topo_sort-acyclic rank (row_formulas rows) (IsRanked-row_formulas rank rows rows h) in
    no_cycle rows (topo_sort_rows rows) fs (topo_sort_rows-topo_sort rows ∙ e)
      (topo_sort_rows-SortOf rows)
