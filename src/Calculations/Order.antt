-- ===== src/Calculations/Order.antt =====
-- `topoSortFormulas` of calculation.processor.ts terminates, and sorts.
use brsr_v.Prelude.{
  ℕ, zero, suc, ◌+◌, ◌<◌, ◌≡◌, refl, sym, ap, ◌∙◌, subst, ◌⊎◌, inl, inr, Bool, true, false, ◌||◌,
  Option, none, some, List, [], ◌∷◌, Text, text_eq, text_eq_iff, is_one_of, if◌then◌else◌, length,
  All, Bool-cases, arith,
}
use brsr_v.Calculations.{
  Formula, Sorted, sorted, cycle_at, then_sort, by_key, has_key, visit, visit_inputs, visit_found,
  visit_all, topo_sort,
}
use brsr_v.Calculations.Keys.{
  left, left-le, left-lt, or-true, by_key-has_key, text_eq_refl, has_key_self,
}

-- In a list, newest first: every input that some formula computes is computed before the formula
-- that reads it, and no two formulas compute the same key.
abbrev pub IsOrdered : List Formula → List Formula → Type 0
IsOrdered all [] = Unit
IsOrdered all (f ∷ rs) =
    All (λ k. (by_key all k ≡ none) ⊎ (has_key k rs ≡ true)) f.inputs
    × (has_key f.output_key rs ≡ false)
    × (has_key f.output_key all ≡ true)
    × IsOrdered all rs

-- What a visit makes of the result, unless it finds a cycle.
record Extends (all : List Formula) (stack : List Text) (rs rs' : List Formula) : Type 0 where
  ordered : IsOrdered all rs → IsOrdered all rs'
  grows : (k : Text) → has_key k rs ≡ true → has_key k rs' ≡ true
  avoids : (k : Text) → is_one_of k stack ≡ true → has_key k rs ≡ false → has_key k rs' ≡ false

pub data Holds (P : List Formula → Type 0) : Sorted → Type 0 where
  sorts : {rs : List Formula} → P rs → Holds P (sorted rs)
  cyclic : {key : Text} → Holds P (cycle_at key)

Holds-if :
    {P : List Formula → Type 0} (b : Bool) {x y : Sorted}
    → (b ≡ true → Holds P x)
    → (b ≡ false → Holds P y)
    → Holds P (if b then x else y)
Holds-if true hx hy = hx refl
Holds-if false hx hy = hy refl

module _ {P Q : List Formula → Type 0} where
  Holds-then :
      {m : Sorted} {k : List Formula → Sorted}
      → Holds P m
      → ((rs : List Formula) → P rs → Holds Q (k rs))
      → Holds Q (then_sort m k)
  Holds-then (sorts {rs} h) f = f rs h
  Holds-then cyclic f = cyclic

  Holds-weaken : {m : Sorted} → Holds P m → ((rs : List Formula) → P rs → Q rs) → Holds Q m
  Holds-weaken (sorts {rs} h) f = sorts (f rs h)
  Holds-weaken cyclic f = cyclic

Extends-refl :
    (all : List Formula) (stack : List Text) (rs : List Formula) → Extends all stack rs rs
Extends-refl all stack rs = record { ordered = λ h. h; grows = λ k h. h; avoids = λ k i h. h }

Extends-trans :
    {all : List Formula} {stack : List Text} {rs rs' rs'' : List Formula}
    → Extends all stack rs rs'
    → Extends all stack rs' rs''
    → Extends all stack rs rs''
Extends-trans a b = record {
  ordered = λ h. b.ordered (a.ordered h);
  grows = λ k h. b.grows k (a.grows k h);
  avoids = λ k i h. b.avoids k i (a.avoids k i h);
}

-- what a visit of `f` leaves
abbrev Visited : List Formula → List Text → Formula → List Formula → List Formula → Type 0
Visited all stack f rs rs' = Extends all stack rs rs' × (has_key f.output_key rs' ≡ true)

-- the inputs that some formula computes are in the result
abbrev Supplied : List Formula → List Text → List Formula → Type 0
Supplied all ks rs = All (λ k. (by_key all k ≡ none) ⊎ (has_key k rs ≡ true)) ks

pub found-grows :
    {A : Type 0} {b b' : Bool} → A ⊎ (b ≡ true) → (b ≡ true → b' ≡ true) → A ⊎ (b' ≡ true)
found-grows (inl a) g = inl a
found-grows (inr p) g = inr (g p)

-- a formula whose inputs are in the result is put behind them
pushed :
    (all : List Formula) (stack : List Text) (f : Formula) (rs rs₁ : List Formula)
    → has_key f.output_key rs ≡ false
    → is_one_of f.output_key stack ≡ false
    → has_key f.output_key all ≡ true
    → Extends all (f.output_key ∷ stack) rs rs₁
    → Supplied all f.inputs rs₁
    → Visited all stack f rs (f ∷ rs₁)
unfolding has_key is_one_of
pushed all stack f rs rs₁ p q m a s = (
  record {
    ordered = λ o. (s, a.avoids f.output_key (rw (text_eq_refl f.output_key)) p, m, a.ordered o);
    grows = λ k h.
        ap (λ b. text_eq f.output_key k || b) (a.grows k h) ∙ or-true (text_eq f.output_key k);
    avoids = λ k i h. pushed-avoids k i h;
  },
  rw (text_eq_refl f.output_key),
)
  where
    pushed-avoids :
        (k : Text)
        → is_one_of k stack ≡ true
        → has_key k rs ≡ false
        → (text_eq f.output_key k || has_key k rs₁) ≡ false
    pushed-avoids k i h = elim (Bool-cases (text_eq f.output_key k)) [
      | inl e ↦
          let there =
            subst (λ x. is_one_of x stack ≡ true) (sym ((text_eq_iff f.output_key k).0 e)) i in
          cc
      | inr e ↦ rw e (
          a.avoids k (ap (λ b. text_eq k f.output_key || b) i ∙ or-true (text_eq k f.output_key)) h)
    ]

Supplied-grows :
    (all : List Formula) (ks : List Text) (rs rs' : List Formula)
    → ((k : Text) → has_key k rs ≡ true → has_key k rs' ≡ true)
    → Supplied all ks rs
    → Supplied all ks rs'
Supplied-grows all [] rs rs' g h = tt
Supplied-grows all (k ∷ ks) rs rs' g (p, h) =
    (found-grows p (g k), Supplied-grows all ks rs rs' g h)

module _ (all : List Formula) (stack : List Text) (visitor : Formula → List Formula → Sorted) where
  Holds-found :
      (k : Text) (o : Option Formula) (rs : List Formula)
      → by_key all k ≡ o
      → ((f : Formula) (rs : List Formula)
          → has_key f.output_key all ≡ true
          → Holds (Visited all stack f rs) (visitor f rs))
      → Holds
          (λ rs'. Extends all stack rs rs' × ((by_key all k ≡ none) ⊎ (has_key k rs' ≡ true)))
          (visit_found visitor o rs)
  Holds-found k none rs e h = sorts (Extends-refl all stack rs, inl e)
  Holds-found k (some dep) rs e h =
      let (p, q) = by_key-has_key all k dep e in
      Holds-weaken (h dep rs (subst (λ x. has_key x all ≡ true) (sym p) q))
        λ rs' (a, b). (a, inr (subst (λ x. has_key x rs' ≡ true) p b))

  Holds-inputs :
      (ks : List Text) (rs : List Formula)
      → ((f : Formula) (rs : List Formula)
          → has_key f.output_key all ≡ true
          → Holds (Visited all stack f rs) (visitor f rs))
      → Holds
          (λ rs'. Extends all stack rs rs' × Supplied all ks rs')
          (visit_inputs visitor all ks rs)
  unfolding visit_inputs
  Holds-inputs [] rs h = sorts (Extends-refl all stack rs, tt)
  Holds-inputs (k ∷ ks) rs h = Holds-then (Holds-found k (by_key all k) rs refl h) λ rs₁ (a, p).
      Holds-weaken (Holds-inputs ks rs₁ h)
        λ rs₂ (b, q). (Extends-trans a b, (found-grows p (b.grows k), q))

-- A visit extends the result by a formula whose inputs are in it, and never runs out of fuel.
Holds-visit :
    (all : List Formula) (n : ℕ) (stack : List Text) (f : Formula) (rs : List Formula)
    → left all stack < n
    → has_key f.output_key all ≡ true
    → Holds (Visited all stack f rs) (visit all n stack f rs)
unfolding visit
Holds-visit all zero stack f rs l h = absurd (omega (arith, l))
Holds-visit all (suc n) stack f rs l h =
    Holds-if (has_key f.output_key rs) (λ p. sorts (Extends-refl all stack rs, p))
      λ p.
        Holds-if (is_one_of f.output_key stack) (λ q. cyclic)
          λ q.
            Holds-then
              (Holds-inputs all (f.output_key ∷ stack) (visit all n (f.output_key ∷ stack)) f.inputs
                rs
                λ g rs₁ i.
                  Holds-visit all n (f.output_key ∷ stack) g rs₁
                    (omega (arith, left-lt all f.output_key stack h q)) i)
              λ rs₁ (a, s). sorts (pushed all stack f rs rs₁ p q h a s)

Holds-visit_all :
    (all : List Formula) (n : ℕ) (fs rs : List Formula)
    → left all [] < n
    → All (λ f. has_key f.output_key all ≡ true) fs
    → Holds
        (λ rs'. Extends all [] rs rs' × All (λ f. has_key f.output_key rs' ≡ true) fs)
        (visit_all all n fs rs)
unfolding visit_all
Holds-visit_all all n [] rs l h = sorts (Extends-refl all [] rs, tt)
Holds-visit_all all n (f ∷ fs) rs l (h, hs) =
    Holds-then (Holds-visit all n [] f rs l h) λ rs₁ (a, p).
      Holds-weaken (Holds-visit_all all n fs rs₁ l hs)
        λ rs₂ (b, q). (Extends-trans a b, (b.grows f.output_key p, q))

-- Sorting any formulas ends, within the fuel given: it reports a cycle, or its result, newest first,
-- has a formula for every key, none twice, and every input that a formula computes before the
-- formulas that read it.
pub topo_sort-Holds :
    (fs : List Formula)
    → Holds (λ rs. IsOrdered fs rs × All (λ f. has_key f.output_key rs ≡ true) fs) (topo_sort fs)
unfolding topo_sort
topo_sort-Holds fs =
    Holds-weaken
      (Holds-visit_all fs (length fs + 1) fs [] (omega (arith, left-le fs [])) (has_key_self fs))
      λ rs (a, p). (a.ordered tt, p)
