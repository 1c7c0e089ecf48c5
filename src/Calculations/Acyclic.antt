-- ===== src/Calculations/Acyclic.antt =====
-- `topoSortFormulas` of calculation.processor.ts reports no cycle where there is none.
use brsr_v.Prelude.{
  ℕ, zero, suc, ◌+◌, ◌<◌, ◌≡◌, refl, sym, subst, ◌⊎◌, inl, inr, Bool, true, false, Option, none,
  some, List, [], ◌∷◌, Text, text_eq, text_eq_iff, is_one_of, if◌then◌else◌, length, All,
  Bool-cases, arith,
}
use brsr_v.Calculations.{
  Formula, Sorted, sorted, cycle_at, out_of_fuel, then_sort, or_this, by_key, has_key, visit,
  visit_inputs, visit_found, visit_all, topo_sort,
}
use brsr_v.Calculations.Keys.{by_key-has_key}
use brsr_v.Calculations.Order.{Holds, IsOrdered, topo_sort-Holds, sorts}

some-injective : {A : Type 0} {a b : A} → some a ≡ some b → a ≡ b
some-injective h = cc

data NoCycle : Sorted → Type 0 where
  fine : {rs : List Formula} → NoCycle (sorted rs)
  ran_out : NoCycle out_of_fuel

NoCycle-then :
    {m : Sorted} {k : List Formula → Sorted}
    → NoCycle m
    → ((rs : List Formula) → NoCycle (k rs))
    → NoCycle (then_sort m k)
NoCycle-then (fine {rs}) h = h rs
NoCycle-then ran_out h = ran_out

NoCycle-if :
    (b : Bool) {x y : Sorted}
    → (b ≡ true → NoCycle x)
    → (b ≡ false → NoCycle y)
    → NoCycle (if b then x else y)
NoCycle-if true hx hy = hx refl
NoCycle-if false hx hy = hy refl

-- Every input of the formula that some formula computes has a lower rank than the formula's key.
abbrev pub IsRanked : (Text → ℕ) → List Formula → Formula → Type 0
IsRanked rank all f = All (λ k. (by_key all k ≡ none) ⊎ (rank k < rank f.output_key)) f.inputs

module _ (P : Formula → Type 0) where
  this-All : (b : Bool) (g f : Formula) → P g → (if b then some g else none) ≡ some f → P f
  this-All true g f h e = subst P (some-injective e) h
  this-All false g f h e = cc

  or_this-All :
      (o : Option Formula) (g f : Formula) (key : Text)
      → P g
      → ((d : Formula) → o ≡ some d → P d)
      → or_this o g key ≡ some f
      → P f
  or_this-All (some d) g f key p h e = h f e
  or_this-All none g f key p h e = this-All (text_eq g.output_key key) g f p e

  by_key-All :
      (fs : List Formula) (key : Text) (f : Formula) → All P fs → by_key fs key ≡ some f → P f
  unfolding by_key
  by_key-All [] key f h e = cc
  by_key-All (g ∷ fs) key f (p, h) e =
      or_this-All (by_key fs key) g f key p (λ d q. by_key-All fs key d h q) e

-- what is on the path outranks the key
abbrev Below : (Text → ℕ) → Text → List Text → Type 0
Below rank key stack = (k : Text) → is_one_of k stack ≡ true → rank key < rank k

module _ (rank : Text → ℕ) (all : List Formula) (ranked : All (IsRanked rank all) all) where
  NoCycle-inputs :
      (visitor : Formula → List Formula → Sorted) (top : ℕ)
      → ((f : Formula) (rs : List Formula)
          → IsRanked rank all f
          → rank f.output_key < top
          → NoCycle (visitor f rs))
      → (ks : List Text) (rs : List Formula) → All (λ k. (by_key all k ≡ none) ⊎ (rank k < top)) ks
      → NoCycle (visit_inputs visitor all ks rs)
  unfolding visit_inputs
  NoCycle-inputs visitor top h [] rs p = fine
  NoCycle-inputs visitor top h (k ∷ ks) rs (p, ps) =
      NoCycle-then (found (by_key all k) refl p) λ rs₁. NoCycle-inputs visitor top h ks rs₁ ps
    where
      found :
          (o : Option Formula)
          → by_key all k ≡ o
          → (by_key all k ≡ none) ⊎ (rank k < top)
          → NoCycle (visit_found visitor o rs)
      found none e q = fine
      found (some dep) e (inl q) = cc
      found (some dep) e (inr q) =
          h dep rs (by_key-All (IsRanked rank all) all k dep ranked e)
            (subst (λ x. rank x < top) (sym (by_key-has_key all k dep e).0) q)

  NoCycle-visit :
      (n : ℕ) (stack : List Text) (f : Formula) (rs : List Formula)
      → IsRanked rank all f
      → Below rank f.output_key stack
      → NoCycle (visit all n stack f rs)
  unfolding visit is_one_of
  NoCycle-visit zero stack f rs p b = ran_out
  NoCycle-visit (suc n) stack f rs p b =
      NoCycle-if (has_key f.output_key rs) (λ q. fine)
        λ q.
          NoCycle-if (is_one_of f.output_key stack) (λ i. absurd (omega (arith, b f.output_key i)))
            λ i.
              NoCycle-then
                (NoCycle-inputs (visit all n (f.output_key ∷ stack)) (rank f.output_key)
                  (λ g rs₁ r l. NoCycle-visit n (f.output_key ∷ stack) g rs₁ r (lower g l)) f.inputs
                  rs p)
                λ rs₁. fine
    where
      lower :
          (g : Formula)
          → rank g.output_key < rank f.output_key
          → Below rank g.output_key (f.output_key ∷ stack)
      lower g l k i = elim (Bool-cases (text_eq k f.output_key)) [
        | inl e ↦ subst (λ x. rank g.output_key < rank x) (sym ((text_eq_iff k f.output_key).0 e)) l
        | inr e ↦ omega (arith, l, b k (rw e at i))
      ]

  NoCycle-visit_all :
      (n : ℕ) (fs rs : List Formula) → All (IsRanked rank all) fs → NoCycle (visit_all all n fs rs)
  unfolding visit_all is_one_of
  NoCycle-visit_all n [] rs h = fine
  NoCycle-visit_all n (f ∷ fs) rs (p, h) =
      NoCycle-then (NoCycle-visit n [] f rs p λ k i. cc) λ rs₁. NoCycle-visit_all n fs rs₁ h

Sorted-of :
    {P : List Formula → Type 0} (r : Sorted)
    → Holds P r
    → NoCycle r
    → (rs : List Formula) × (r ≡ sorted rs) × P rs
Sorted-of (sorted rs) (sorts h) c = (rs, refl, h)
Sorted-of (cycle_at key) h c = elim c [ ]
Sorted-of out_of_fuel h c = elim h [ ]

-- Where each formula has a rank above those of the computed inputs that it reads, so that none
-- depends on itself, sorting succeeds: the result, newest first, has a formula for every key, none
-- twice, and every input that a formula computes before the formulas that read it.
pub topo_sort-acyclic :
    (rank : Text → ℕ) (fs : List Formula)
    → All (IsRanked rank fs) fs
    → (rs : List Formula) × (topo_sort fs ≡ sorted rs)
      × IsOrdered fs rs
      × All (λ f. has_key f.output_key rs ≡ true) fs
unfolding topo_sort
topo_sort-acyclic rank fs h =
    let (rs, e, p) =
      Sorted-of (topo_sort fs) (topo_sort-Holds fs)
        (NoCycle-visit_all rank fs h (length fs + 1) fs [] h) in
    (rs, e, p.0, p.1)
