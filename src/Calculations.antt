-- ===== src/Calculations.antt =====
-- A calculation run: services/api/src/calculations/calculation.processor.ts.
pub mod Keys
pub mod Order
pub mod Acyclic
pub mod Process
pub mod Run
pub mod Scope
pub mod Scoped
pub mod Validity
pub mod Consistency
pub mod Loop
pub mod Isolation
pub mod Service
pub mod Start
mod Tests
use brsr_v.Prelude.{
  ℕ, zero, suc, ◌+◌, Bool, true, false, ◌||◌, Option, none, some, List, [], ◌∷◌, Text, text_eq,
  is_one_of, if◌then◌else◌, length,
}

pub record Formula : Type 0 where
  pub id : Text
  pub output_key : Text
  pub expression : Text
  pub unit : Text
  pub inputs : List Text
  pub version : Text

-- What sorting ends in; `out_of_fuel` has no counterpart in the program.
pub data Sorted : Type 0 where
  sorted : List Formula → Sorted
  cycle_at : Text → Sorted
  out_of_fuel : Sorted

abbrev pub then_sort : Sorted → (List Formula → Sorted) → Sorted
then_sort (sorted rs) k = k rs
then_sort (cycle_at key) k = cycle_at key
then_sort out_of_fuel k = out_of_fuel

abbrev pub or_this : Option Formula → Formula → Text → Option Formula
or_this (some g) f key = some g
or_this none f key = if text_eq f.output_key key then some f else none

-- `byKey.get(key)`: the last formula with the key
unfoldable pub by_key : List Formula → Text → Option Formula
by_key [] key = none
by_key (f ∷ fs) key = or_this (by_key fs key) f key

-- whether a formula with the key is in the list
unfoldable pub has_key : Text → List Formula → Bool
unfolding text_eq
has_key key [] = false
has_key key (f ∷ fs) = text_eq f.output_key key || has_key key fs

abbrev pub visit_found : (Formula → List Formula → Sorted) → Option Formula → List Formula → Sorted
visit_found visitor none rs = sorted rs
visit_found visitor (some dep) rs = visitor dep rs

-- the loop over the inputs of a formula
unfoldable pub visit_inputs :
    (Formula → List Formula → Sorted) → List Formula → List Text → List Formula → Sorted
unfolding by_key
visit_inputs visitor all [] rs = sorted rs
visit_inputs visitor all (k ∷ ks) rs =
    then_sort (visit_found visitor (by_key all k) rs) λ rs'. visit_inputs visitor all ks rs'

-- The depth-first visit of `topoSortFormulas`. `rs` is the result, newest first, and `visited` the
-- keys of it; `stack` is the set of keys on the path. Each nested visit costs a unit of fuel.
unfoldable pub visit : List Formula → ℕ → List Text → Formula → List Formula → Sorted
unfolding visit_inputs has_key is_one_of
visit all zero stack f rs = out_of_fuel
visit all (suc n) stack f rs =
    let pushed =
      then_sort (visit_inputs (visit all n (f.output_key ∷ stack)) all f.inputs rs)
        λ rs'. sorted (f ∷ rs') in
    if has_key f.output_key rs
    then sorted rs
    else if is_one_of f.output_key stack
    then cycle_at f.output_key
    else pushed

-- `for (const f of formulas) visit(f, new Set())`
unfoldable pub visit_all : List Formula → ℕ → List Formula → List Formula → Sorted
unfolding visit
visit_all all n [] rs = sorted rs
visit_all all n (f ∷ fs) rs = then_sort (visit all n [] f rs) λ rs'. visit_all all n fs rs'

-- `topoSortFormulas`, newest first: the path never holds a key twice, so that as much fuel as there
-- are formulas and one more suffices.
unfoldable pub topo_sort : List Formula → Sorted
unfolding visit_all
topo_sort fs = visit_all fs (length fs + 1) fs []
