-- ===== src/Brsr/Choice.antt =====
-- Which figure a section of a report shows.
use mathlib.Core.List.{Perm}
use brsr_v.Prelude.{
  ℕ, ◌≤◌, ◌≡◌, ◌≢◌, ◌∙◌, refl, text_eq, text_eq_iff, sym, subst, inl, inr, false, Option, none,
  some, List, [], ◌∷◌, Text, codes, All, Somewhere, here, Bool-cases, arith,
}
use brsr_v.Platform.{Platform, Number}
use brsr_v.Metrics.{or_else}
use brsr_v.Cel.Call.Extremes.{IsOrdered, AtMost}
use brsr_v.Shared.Ltree.Labels.{false_ne_true}
use brsr_v.Brsr.{
  Aggregation, summed, lowest, highest, latest, first, Figure, ReportMapping, last_of, lowest_of,
  highest_of, summed_up, aggregate_figures, aggregation_named, candidates, resolve_mapping,
}
use brsr_v.Brsr.Order.{
  falling, IsFalling, Among, All-falling, Somewhere-falling, falling-Perm, falling-IsFalling,
  last_of-Among, last_of_le,
}
use brsr_v.Brsr.Extremes.{
  lowest_of-Somewhere, highest_of-Somewhere, own_values, lowest_of-AtMost, highest_of-AtMost,
}

module _ (𝓟 : Platform) where
  -- adding the values of the figures to a number, one after the other, ends in a number
  pub data AddsUp : Number 𝓟 → List (Figure 𝓟) → Number 𝓟 → Type 0 where
    all_added : (v : Number 𝓟) → AddsUp v [] v
    added :
        (t v : Number 𝓟) (x : Figure 𝓟) (xs : List (Figure 𝓟))
        → AddsUp (𝓟.numbers.plus t x.1.value) xs v
        → AddsUp t (x ∷ xs) v

  -- What is shown of a list of figures, by the name of the aggregation: nothing of none, the figure
  -- that ends last or first with its run, the least or the greatest value without a run, or the sum of
  -- all the values, from the figure that ends last on, without a run.
  pub data Shown (xs : List (Figure 𝓟)) : Text → Option (Number 𝓟) × Option ℕ → Type 0 where
    nothing : (how : Text) → xs ≡ [] → Shown xs how (none, none)
    latest_figure :
        (x : Figure 𝓟)
        → Somewhere (λ y. y ≡ x) xs
        → All (λ y. y.1.period_end ≤ x.1.period_end) xs
        → Shown xs (codes "LATEST") (some x.1.value, x.1.source_calc_run)
    first_figure :
        (x : Figure 𝓟)
        → Somewhere (λ y. y ≡ x) xs
        → All (λ y. x.1.period_end ≤ y.1.period_end) xs
        → Shown xs (codes "FIRST") (some x.1.value, x.1.source_calc_run)
    lowest_figure :
        (v : Number 𝓟)
        → Somewhere (λ y. y.1.value ≡ v) xs
        → All (λ y. AtMost 𝓟.numbers v y.1.value) xs
        → Shown xs (codes "MIN") (some v, none)
    highest_figure :
        (v : Number 𝓟)
        → Somewhere (λ y. y.1.value ≡ v) xs
        → All (λ y. AtMost 𝓟.numbers y.1.value v) xs
        → Shown xs (codes "MAX") (some v, none)
    total :
        (how : Text) (v : Number 𝓟) (x : Figure 𝓟) (ys : List (Figure 𝓟))
        → how ≢ codes "MIN"
        → how ≢ codes "MAX"
        → how ≢ codes "LATEST"
        → how ≢ codes "FIRST"
        → Perm (x ∷ ys) xs
        → IsFalling 𝓟 (x ∷ ys)
        → AddsUp (𝓟.numbers.of_nat 0) (x ∷ ys) v
        → Shown xs how (some v, none)

  -- the name of each aggregation
  data Named : Text → Aggregation → Type 0 where
    is_min : Named (codes "MIN") lowest
    is_max : Named (codes "MAX") highest
    is_latest : Named (codes "LATEST") latest
    is_first : Named (codes "FIRST") first
    is_other :
        (how : Text)
        → how ≢ codes "MIN"
        → how ≢ codes "MAX"
        → how ≢ codes "LATEST"
        → how ≢ codes "FIRST"
        → Named how summed

  differ : (s t : Text) → text_eq s t ≡ false → s ≢ t
  differ s t h e = false_ne_true (sym h ∙ (text_eq_iff s t).1 e)

  aggregation_named-Named : (s : Text) → Named s (aggregation_named s)
  unfolding aggregation_named
  aggregation_named-Named s = elim (Bool-cases (text_eq s (codes "MIN"))) [
    | inl p ↦ rw p (subst (λ t. Named t lowest) (sym ((text_eq_iff _ _).0 p)) is_min)
    | inr p ↦ elim (Bool-cases (text_eq s (codes "MAX"))) [
      | inl q ↦ rw (p, q) (subst (λ t. Named t highest) (sym ((text_eq_iff _ _).0 q)) is_max)
      | inr q ↦ elim (Bool-cases (text_eq s (codes "LATEST"))) [
        | inl r ↦ rw (p, q, r) (subst (λ t. Named t latest) (sym ((text_eq_iff _ _).0 r)) is_latest)
        | inr r ↦ elim (Bool-cases (text_eq s (codes "FIRST"))) [
          | inl k ↦
              rw (p, q, r, k) (subst (λ t. Named t first) (sym ((text_eq_iff _ _).0 k)) is_first)
          | inr k ↦
              rw (p, q, r, k)
                (is_other s (differ s _ p) (differ s _ q) (differ s _ r) (differ s _ k))
        ]
      ]
    ]
  ]

  summed_up-AddsUp : (t : Number 𝓟) (xs : List (Figure 𝓟)) → AddsUp t xs (summed_up 𝓟 t xs)
  unfolding summed_up
  summed_up-AddsUp t [] = all_added t
  summed_up-AddsUp t (x ∷ xs) = added t _ x xs (summed_up-AddsUp (𝓟.numbers.plus t x.1.value) xs)

  module _ (order : IsOrdered 𝓟.numbers) where
    aggregate_figures-Shown :
        (name : Text) (how : Aggregation) (xs ys : List (Figure 𝓟))
        → Named name how
        → ys ≡ falling 𝓟 xs
        → Shown xs name (aggregate_figures 𝓟 how ys)
    unfolding aggregate_figures
    aggregate_figures-Shown name how xs [] n e = nothing name (none_left xs e)
      where
        none_left : (xs : List (Figure 𝓟)) → [] ≡ falling 𝓟 xs → xs ≡ []
        none_left [] e = refl
        none_left (x ∷ xs) e =
            absurd (
              omega
                (arith, (All-falling 𝓟 (λ y. 1 ≤ 0) (x ∷ xs) (subst (All (λ y. 1 ≤ 0)) e tt)).0))
    aggregate_figures-Shown _ _ xs (y ∷ ys) (is_other name p q r k) e =
        total name _ y ys p q r k (subst (λ zs. Perm zs xs) (sym e) (falling-Perm 𝓟 xs))
          (subst (IsFalling 𝓟) (sym e) (falling-IsFalling 𝓟 xs)) (summed_up-AddsUp _ (y ∷ ys))
    aggregate_figures-Shown _ _ xs (y ∷ ys) is_min e =
        lowest_figure _
          (Somewhere-falling 𝓟 _ xs (
            subst (Somewhere (λ z. z.1.value ≡ lowest_of 𝓟 y.1.value (y ∷ ys))) e (
              lowest_of-Somewhere 𝓟 y.1.value (y ∷ ys) (y ∷ ys) (here y ys refl)
                (own_values 𝓟 (y ∷ ys)))))
          (All-falling 𝓟 _ xs (
            subst (All (λ z. AtMost 𝓟.numbers (lowest_of 𝓟 y.1.value (y ∷ ys)) z.1.value)) e
              (lowest_of-AtMost 𝓟 order y.1.value (y ∷ ys)).1))
    aggregate_figures-Shown _ _ xs (y ∷ ys) is_max e =
        highest_figure _
          (Somewhere-falling 𝓟 _ xs (
            subst (Somewhere (λ z. z.1.value ≡ highest_of 𝓟 y.1.value (y ∷ ys))) e (
              highest_of-Somewhere 𝓟 y.1.value (y ∷ ys) (y ∷ ys) (here y ys refl)
                (own_values 𝓟 (y ∷ ys)))))
          (All-falling 𝓟 _ xs (
            subst (All (λ z. AtMost 𝓟.numbers z.1.value (highest_of 𝓟 y.1.value (y ∷ ys)))) e
              (highest_of-AtMost 𝓟 order y.1.value (y ∷ ys)).1))
    aggregate_figures-Shown _ _ xs (y ∷ ys) is_latest e =
        latest_figure y (Somewhere-falling 𝓟 _ xs (subst (Among 𝓟 y) e (here y ys refl))) (
          All-falling 𝓟 _ xs
            (subst (All (λ z. z.1.period_end ≤ y.1.period_end)) e (omega arith, sorted.0)))
      where
        sorted : IsFalling 𝓟 (y ∷ ys)
        sorted = subst (IsFalling 𝓟) (sym e) (falling-IsFalling 𝓟 xs)
    aggregate_figures-Shown _ _ xs (y ∷ ys) is_first e =
        first_figure (last_of 𝓟 y ys)
          (Somewhere-falling 𝓟 _ xs (subst (Among 𝓟 (last_of 𝓟 y ys)) e (last_of-Among 𝓟 y ys)))
          (All-falling 𝓟 _ xs (
            subst (All (λ z. (last_of 𝓟 y ys).1.period_end ≤ z.1.period_end)) e
              (last_of_le 𝓟 y ys sorted)))
      where
        sorted : IsFalling 𝓟 (y ∷ ys)
        sorted = subst (IsFalling 𝓟) (sym e) (falling-IsFalling 𝓟 xs)

    -- Where `cmp` orders the numbers: a section shows nothing where its keys have no figures. For
    -- LATEST it shows the value and the run of a figure that no other one ends after, for FIRST of one
    -- that no other ends before; for MIN the value of one of its figures that is at most each of them,
    -- for MAX one that each is at most; and for every other name, and without one, the sum of the
    -- values of all its figures, added to 0 one after the other, none that ends later behind one that
    -- ends earlier.
    pub resolve_mapping-Shown :
        (by_key : List (Text × List (Figure 𝓟))) (m : ReportMapping)
        → let r = resolve_mapping 𝓟 by_key m in
          Shown
            (candidates 𝓟 by_key m.canonical_keys)
            (or_else m.aggregation (codes "SUM"))
            (r.value, r.calc_run)
    unfolding resolve_mapping
    resolve_mapping-Shown by_key m =
        aggregate_figures-Shown _ (aggregation_named (or_else m.aggregation (codes "SUM")))
          (candidates 𝓟 by_key m.canonical_keys) _ (aggregation_named-Named _) refl
