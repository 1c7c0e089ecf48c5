-- ===== src/Hierarchy/Sorting.antt =====
-- `topoSort` of hierarchy.service.ts sorts rows as `topoSortFormulas` sorts formulas that read the key
-- of their parent.
use brsr_v.Prelude.{
  ℕ, zero, suc, ◌+◌, ◌≡◌, refl, sym, ap, ◌∙◌, Bool, true, false, ◌||◌, Option, none, some, List, [],
  ◌∷◌, map, Text, text_eq, is_one_of, if◌then◌else◌, length,
}
use brsr_v.Calculations.{
  Formula, Sorted, sorted, cycle_at, out_of_fuel, then_sort, or_this, by_key, has_key, visit_found,
  visit_inputs, visit, visit_all, topo_sort,
}
use brsr_v.Hierarchy.Import.{
  ImportRow, SortedRows, sorted_rows, row_cycle, ran_out, then_rows, or_row, by_code, has_code,
  parent_row, visit_parent, visit_row, visit_rows, topo_sort_rows,
}

abbrev pub inputs_of : Option Text → List Text
inputs_of none = []
inputs_of (some code) = code ∷ []

-- a row as a formula
abbrev pub row_formula : ImportRow → Formula
row_formula r = record {
  id = r.code;
  output_key = r.code;
  expression = [];
  unit = [];
  inputs = inputs_of r.parent_code;
  version = [];
}

abbrev pub row_formulas : List ImportRow → List Formula
row_formulas rs = map row_formula rs

abbrev pub as_sorted : SortedRows → Sorted
as_sorted (sorted_rows rs) = sorted (row_formulas rs)
as_sorted (row_cycle code) = cycle_at code
as_sorted ran_out = out_of_fuel

abbrev pub as_found : Option ImportRow → Option Formula
as_found none = none
as_found (some r) = some (row_formula r)

or_this-row_formula :
    (o : Option ImportRow) (r : ImportRow) (code : Text)
    → or_this (as_found o) (row_formula r) code ≡ as_found (or_row o r code)
or_this-row_formula (some g) r code = refl
or_this-row_formula none r code = either (text_eq r.code code)
  where
    either :
        (b : Bool)
        → (if b then some (row_formula r) else none) ≡ as_found (if b then some r else none)
    either true = refl
    either false = refl

pub by_key-row_formulas :
    (rs : List ImportRow) (code : Text) → by_key (row_formulas rs) code ≡ as_found (by_code rs code)
unfolding by_key by_code
by_key-row_formulas [] code = refl
by_key-row_formulas (r ∷ rs) code =
    ap (λ o. or_this o (row_formula r) code) (by_key-row_formulas rs code)
    ∙ or_this-row_formula (by_code rs code) r code

pub has_key-row_formulas :
    (code : Text) (rs : List ImportRow) → has_key code (row_formulas rs) ≡ has_code code rs
unfolding has_key has_code
has_key-row_formulas code [] = refl
has_key-row_formulas code (r ∷ rs) =
    ap (λ b. text_eq r.code code || b) (has_key-row_formulas code rs)

as_sorted-then :
    (m : SortedRows) (k : List ImportRow → SortedRows) (l : List Formula → Sorted)
    → ((rs : List ImportRow) → as_sorted (k rs) ≡ l (row_formulas rs))
    → as_sorted (then_rows m k) ≡ then_sort (as_sorted m) l
as_sorted-then (sorted_rows rs) k l h = h rs
as_sorted-then (row_cycle code) k l h = refl
as_sorted-then ran_out k l h = refl

then_sorted : (m : Sorted) → then_sort m (λ rs. sorted rs) ≡ m
then_sorted (sorted rs) = refl
then_sorted (cycle_at key) = refl
then_sorted out_of_fuel = refl

as_sorted-if :
    (b : Bool) (x y : SortedRows)
    → as_sorted (if b then x else y) ≡ (if b then as_sorted x else as_sorted y)
as_sorted-if true x y = refl
as_sorted-if false x y = refl

as_sorted-visit_parent :
    (visitor : ImportRow → List ImportRow → SortedRows) (visitor' : Formula → List Formula → Sorted)
    (o : Option ImportRow) (rs : List ImportRow)
    → ((r : ImportRow) → as_sorted (visitor r rs) ≡ visitor' (row_formula r) (row_formulas rs))
    → as_sorted (visit_parent visitor o rs) ≡ visit_found visitor' (as_found o) (row_formulas rs)
as_sorted-visit_parent visitor visitor' none rs h = refl
as_sorted-visit_parent visitor visitor' (some r) rs h = h r

as_sorted-parents :
    (all : List ImportRow) (visitor : ImportRow → List ImportRow → SortedRows)
    (visitor' : Formula → List Formula → Sorted) (parent : Option Text) (rs : List ImportRow)
    → ((r : ImportRow) → as_sorted (visitor r rs) ≡ visitor' (row_formula r) (row_formulas rs))
    → as_sorted (visit_parent visitor (parent_row all parent) rs)
      ≡ visit_inputs visitor' (row_formulas all) (inputs_of parent) (row_formulas rs)
unfolding visit_inputs parent_row
as_sorted-parents all visitor visitor' none rs h = refl
as_sorted-parents all visitor visitor' (some code) rs h =
    as_sorted-visit_parent visitor visitor' (by_code all code) rs h
    ∙ ap (λ o. visit_found visitor' o (row_formulas rs)) (sym (by_key-row_formulas all code))
    ∙ sym (then_sorted _)

as_sorted-visit_row :
    (all : List ImportRow) (n : ℕ) (stack : List Text) (r : ImportRow) (rs : List ImportRow)
    → as_sorted (visit_row all n stack r rs)
      ≡ visit (row_formulas all) n stack (row_formula r) (row_formulas rs)
unfolding visit_row visit
as_sorted-visit_row all zero stack r rs = refl
as_sorted-visit_row all (suc n) stack r rs = rw (has_key-row_formulas r.code rs) (
    as_sorted-if (has_code r.code rs) _ _
    ∙ ap (λ x. if has_code r.code rs then sorted (row_formulas rs) else x)
        (as_sorted-if (is_one_of r.code stack) _ _
          ∙ ap (λ x. if is_one_of r.code stack then cycle_at r.code else x)
              (as_sorted-then _ _ (λ fs. sorted (row_formula r ∷ fs)) (λ rs'. refl)
                ∙ ap (λ m. then_sort m λ fs. sorted (row_formula r ∷ fs))
                    (as_sorted-parents all (visit_row all n (r.code ∷ stack))
                      (visit (row_formulas all) n (r.code ∷ stack)) r.parent_code rs
                      λ p. as_sorted-visit_row all n (r.code ∷ stack) p rs))))

as_sorted-visit_rows :
    (all : List ImportRow) (n : ℕ) (rows rs : List ImportRow)
    → as_sorted (visit_rows all n rows rs)
      ≡ visit_all (row_formulas all) n (row_formulas rows) (row_formulas rs)
unfolding visit_rows visit_all
as_sorted-visit_rows all n [] rs = refl
as_sorted-visit_rows all n (r ∷ rows) rs =
    as_sorted-then (visit_row all n [] r rs) _
      (λ fs. visit_all (row_formulas all) n (row_formulas rows) fs)
      (λ rs'. as_sorted-visit_rows all n rows rs')
    ∙ ap (λ m. then_sort m (visit_all (row_formulas all) n (row_formulas rows)))
        (as_sorted-visit_row all n [] r rs)

length-row_formulas : (rs : List ImportRow) → length (row_formulas rs) ≡ length rs
length-row_formulas [] = refl
length-row_formulas (r ∷ rs) = ap suc (length-row_formulas rs)

-- Sorting rows is sorting formulas.
pub topo_sort_rows-topo_sort :
    (rows : List ImportRow) → as_sorted (topo_sort_rows rows) ≡ topo_sort (row_formulas rows)
unfolding topo_sort_rows topo_sort
topo_sort_rows-topo_sort rows =
    as_sorted-visit_rows rows (length rows + 1) rows []
    ∙ ap (λ n. visit_all (row_formulas rows) (n + 1) (row_formulas rows) [])
        (sym (length-row_formulas rows))
