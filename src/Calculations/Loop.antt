-- ===== src/Calculations/Loop.antt =====
-- The loop of `process` in calculation.processor.ts evaluates the sorted formulas one after the
-- other, and ends with consistent metrics.
use mathlib.Core.List.{Memᴰ, reverse, reverse-cons}
use brsr_v.Prelude.{ℕ, ◌≡◌, refl, ap, subst, ◌∙◌, Option, none, some, List, [], ◌∷◌, ◌++◌}
use brsr_v.Cel.Value.{Object}
use brsr_v.Schema.{CalcRun}
use brsr_v.Platform.{Platform, Number}
use brsr_v.Calculations.{Formula, Sorted, sorted, cycle_at, out_of_fuel, topo_sort}
use brsr_v.Calculations.Order.{Holds, topo_sort-Holds, sorts}
use brsr_v.Calculations.Process.{
  Attempt, success, failure, computed, entered, quantity, period_days,
}
use brsr_v.Calculations.Consistency.{metrics_after, metrics_after-consistent, IsHonest}
use brsr_v.Calculations.Run.{Progress, finish_formula, store_output, step, then_run, evaluate_all}

sorted-injective : {qs rs : List Formula} → sorted qs ≡ sorted rs → qs ≡ rs
sorted-injective e = cc

sorted-Holds :
    {P : List Formula → Type 0} (r : Sorted) (rs : List Formula) → Holds P r → r ≡ sorted rs → P rs
sorted-Holds {P = P} (sorted qs) rs (sorts h) e = subst P (sorted-injective e) h
sorted-Holds (cycle_at key) rs h e = cc
sorted-Holds out_of_fuel rs h e = cc

module _ (𝓟 : Platform) (run_id : ℕ) (run : CalcRun (Number 𝓟)) (factors : Object (Number 𝓟))
    (now : ℕ) where
  open 𝓟 use {numbers}

  abbrev run_days : ℕ
  run_days = period_days run.period_start run.period_end

  abbrev loop : Progress 𝓟 → List Formula → Attempt (Progress 𝓟)
  loop = evaluate_all 𝓟 run_id run factors now

  then_run_assoc :
      (a : Attempt (Progress 𝓟)) (k l : Progress 𝓟 → Attempt (Progress 𝓟))
      → then_run 𝓟 run_id run factors now a (λ p. then_run 𝓟 run_id run factors now (k p) l)
        ≡ then_run 𝓟 run_id run factors now (then_run 𝓟 run_id run factors now a k) l
  then_run_assoc (success p) k l = refl
  then_run_assoc (failure e) k l = refl

  loop-append :
      (p : Progress 𝓟) (fs gs : List Formula)
      → loop p (fs ++ gs) ≡ then_run 𝓟 run_id run factors now (loop p fs) (λ q. loop q gs)
  unfolding evaluate_all
  loop-append p [] gs = refl
  loop-append p (f ∷ fs) gs =
      (λ i.
        then_run 𝓟 run_id run factors now (step 𝓟 run_id run factors now p f)
          λ q. loop-append q fs gs i)
      ∙ then_run_assoc (step 𝓟 run_id run factors now p f) (λ q. loop q fs) (λ q. loop q gs)

  store_output-total :
      (p : Progress 𝓟) (f : Formula) (o : Option (Number 𝓟)) (node : ℕ) (nodes : List ℕ)
      → run.scope_nodes ≡ node ∷ nodes
      → (q : Progress 𝓟) × (finish_formula 𝓟 run_id run factors now p f o ≡ success q)
        × (q.metrics ≡ entered numbers p.metrics f o)
  store_output-total p f none node nodes h = (p, refl, refl)
  store_output-total p f (some value) node nodes h =
      (_, ap (store_output 𝓟 run_id run factors now p f value) h, refl)

  -- The loop over the sorted formulas, in their order, never gives up on a run with a scope node,
  -- whatever formulas fail: it ends with the metrics that evaluating every formula on the metrics
  -- left by those before it gives.
  pub evaluate_all-total :
      (p : Progress 𝓟) (rs : List Formula) (node : ℕ) (nodes : List ℕ)
      → run.scope_nodes ≡ node ∷ nodes
      → (q : Progress 𝓟) × (evaluate_all 𝓟 run_id run factors now p (reverse rs) ≡ success q)
        × (q.metrics
            ≡ metrics_after numbers
                (some factors)
                (period_days run.period_start run.period_end)
                p.metrics
                rs)
  unfolding evaluate_all step metrics_after
  evaluate_all-total p [] node nodes h = (p, refl, refl)
  evaluate_all-total p (f ∷ rs) node nodes h =
      let (q, e, m) = evaluate_all-total p rs node nodes h in
      let (r, e₁, m₁) =
        store_output-total q f (computed numbers (some factors) run_days q.metrics f) node nodes
          h in
      (
        r,
        ap (loop p) (reverse-cons f rs)
            ∙ loop-append p (reverse rs) (f ∷ [])
            ∙ ap (λ a. then_run 𝓟 run_id run factors now a (λ q. loop q (f ∷ []))) e
            ∙ ap (λ a. then_run 𝓟 run_id run factors now a success) e₁,
        m₁ ∙ ap (λ o. entered numbers o f (computed numbers (some factors) run_days o f)) m,
      )

  -- Of the sorted formulas, and of the metrics that the loop ends with: a formula that mentions no
  -- names but the inputs that it lists, and that has a value on these metrics, is held there under
  -- its key with that value and its unit.
  pub run-consistent :
      (fs rs : List Formula) (start : Object (Number 𝓟)) (f : Formula) (d : Number 𝓟)
      → topo_sort fs ≡ sorted rs
      → Memᴰ f rs
      → IsHonest numbers (some factors) (period_days run.period_start run.period_end) f
      → computed numbers
          (some factors)
          (period_days run.period_start run.period_end)
          (metrics_after numbers
            (some factors)
            (period_days run.period_start run.period_end)
            start
            rs)
          f
        ≡ some d
      → metrics_after numbers
          (some factors)
          (period_days run.period_start run.period_end)
          start
          rs
          f.output_key
        ≡ some (some (quantity numbers d f.unit))
  run-consistent fs rs start f d e h a c =
      metrics_after-consistent numbers (some factors) run_days fs rs start f d
        (sorted-Holds (topo_sort fs) rs (topo_sort-Holds fs) e).0 h a c
