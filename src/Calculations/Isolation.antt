-- ===== src/Calculations/Isolation.antt =====
-- What `process` of calculation.processor.ts leaves alone.
use mathlib.Core.List.{reverse}
use brsr_v.Prelude.{
  ℕ, ◌≡◌, sym, ap, ◌∙◌, inl, inr, Option, none, some, List, [], ◌∷◌, Text, ◌==◌, ==_iff, ==-ne,
  Bool-cases,
}
use brsr_v.Cel.Value.{Object}
use brsr_v.Schema.{Event, CalcRun}
use brsr_v.Platform.{Platform, Number, Db}
use brsr_v.Platform.Laws.{IsDatabase}
use brsr_v.Calculations.{Formula, Sorted, sorted, cycle_at, out_of_fuel, topo_sort}
use brsr_v.Calculations.Process.{Attempt, Failure, success, failure, computed, period_days}
use brsr_v.Calculations.Run.{
  Progress, finish_formula, store_output, output_event, step, then_run, evaluate_all, evaluate_run,
  finish_run, sorted_run, process_run, process, run_inputs, run_formulas,
}

module _ (𝓟 : Platform) (laws : IsDatabase 𝓟) (j : ℕ) (e : Event (Number 𝓟)) where
  open 𝓟 use {get, create, numbers, Rows}

  abbrev Holds : Db 𝓟 → Type 0
  Holds db = get db.events j ≡ some e

  create-Holds :
      (t : Rows (Event (Number 𝓟))) (a : Event (Number 𝓟))
      → get t j ≡ some e
      → get (create t a).1 j ≡ some e
  create-Holds t a h = elim (Bool-cases ((create t a).0 == j)) [
    | inl p ↦ let z = ap (get t) (sym ((==_iff (create t a).0 j).0 p)) ∙ laws.create_fresh t a in cc
    | inr p ↦ laws.get-create_other t a j (==-ne (create t a).0 j p) ∙ h
  ]

  -- a loop that gets through leaves the event alone
  data Safe : Attempt (Progress 𝓟) → Type 0 where
    safe : {p : Progress 𝓟} → Holds p.db → Safe (success p)
    given_up : {x : Failure} → Safe (failure x)

  module _ (run_id : ℕ) (run : CalcRun (Number 𝓟)) (factors : Object (Number 𝓟)) (now : ℕ) where
    Safe-store :
        (p : Progress 𝓟) (f : Formula) (value : Number 𝓟) (nodes : List ℕ)
        → Holds p.db
        → Safe (store_output 𝓟 run_id run factors now p f value nodes)
    Safe-store p f value [] h = given_up
    Safe-store p f value (node ∷ nodes) h =
        safe (create-Holds p.db.events (output_event 𝓟 run_id run node now f value) h)

    Safe-finish :
        (p : Progress 𝓟) (f : Formula) (o : Option (Number 𝓟))
        → Holds p.db
        → Safe (finish_formula 𝓟 run_id run factors now p f o)
    Safe-finish p f none h = safe h
    Safe-finish p f (some value) h = Safe-store p f value run.scope_nodes h

    Safe-then :
        {a : Attempt (Progress 𝓟)} {k : Progress 𝓟 → Attempt (Progress 𝓟)}
        → Safe a
        → ((p : Progress 𝓟) → Holds p.db → Safe (k p))
        → Safe (then_run 𝓟 run_id run factors now a k)
    Safe-then (safe {p} h) f = f p h
    Safe-then given_up f = given_up

    Safe-evaluate_all :
        (p : Progress 𝓟) (fs : List Formula)
        → Holds p.db
        → Safe (evaluate_all 𝓟 run_id run factors now p fs)
    unfolding evaluate_all step
    Safe-evaluate_all p [] h = safe h
    Safe-evaluate_all p (f ∷ fs) h =
        Safe-then
          (Safe-finish p f
            (computed numbers (some factors) (period_days run.period_start run.period_end) p.metrics
              f)
            h)
          λ q k. Safe-evaluate_all q fs k

  module _ (db : Db 𝓟) (run_id tenant : ℕ) (keys : List Text) (now duration : ℕ)
      (held : Holds db) where
    Holds-finish :
        (run : CalcRun (Number 𝓟)) (a : Attempt (Progress 𝓟))
        → Safe a
        → Holds (finish_run 𝓟 db run_id run duration a).0
    Holds-finish run (success p) (safe h) = h
    Holds-finish run (failure x) h = held

    Holds-evaluate :
        (run : CalcRun (Number 𝓟)) (fs : List Formula) (a : Attempt (Object (Number 𝓟)))
        → Holds (evaluate_run 𝓟 db run_id run now duration fs a).0
    Holds-evaluate run fs (failure x) = held
    Holds-evaluate run fs (success metrics) =
        Holds-finish run _ (Safe-evaluate_all run_id run _ now _ fs held)

    Holds-sorted :
        (run : CalcRun (Number 𝓟)) (fs : List Formula) (s : Sorted)
        → Holds (sorted_run 𝓟 db run_id run now duration fs s).0
    Holds-sorted run fs (sorted rs) = Holds-evaluate run (reverse rs) (run_inputs 𝓟 db run fs)
    Holds-sorted run fs (cycle_at key) = held
    Holds-sorted run fs out_of_fuel = held

    Holds-run :
        (o : Option (CalcRun (Number 𝓟)))
        → Holds (process_run 𝓟 db run_id tenant keys now duration o).0
    Holds-run none = held
    Holds-run (some run) = elim (Bool-cases (run.tenant == tenant)) [
      | inl p ↦
          rw p (Holds-sorted run (run_formulas 𝓟 db keys) (topo_sort (run_formulas 𝓟 db keys)))
      | inr p ↦ rw p held
    ]

  -- A run, however it ends, changes and removes no metric event that was there.
  pub process-keeps :
      (db : Db 𝓟) (run_id tenant : ℕ) (keys : List Text) (now duration : ℕ)
      → get db.events j ≡ some e
      → get (process 𝓟 db run_id tenant keys now duration).0.events j ≡ some e
  unfolding process
  process-keeps db run_id tenant keys now duration h =
      Holds-run db run_id tenant keys now duration h (𝓟.get db.runs run_id)
