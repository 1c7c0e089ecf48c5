-- ===== src/Cel/Eval/Names.antt =====
-- Which names a formula of cel-evaluator.ts can call and refer to.
use brsr_v.Prelude.{
  is_one_of, ◌≡◌, refl, true, false, Option, none, some, List, [], ◌∷◌, Text, text_eq, codes,
  text_eq_iff, subst, arith, Bool-cases, inl, inr,
}
use brsr_v.Cel.Decimal.{Decimal}
use brsr_v.Cel.Syntax.{Args, ref, call}
use brsr_v.Cel.Outcome.{returned-inv, ok}
use brsr_v.Cel.Value.{CelValue, CelContext, Object, inherited, undefined, plain}
use brsr_v.Cel.Call.{
  function_of, Function, eval_call, call_or_refuse, sum, avg, min, max, ratio, abs, round, coalesce,
  factor, metric,
}
use brsr_v.Cel.Eval.{find, found, resolve_ref, eval, eval_args}

-- the functions that a formula can call with success
abbrev pub callable : List Text
callable =
    codes "sum"
    ∷ codes "avg"
    ∷ codes "min"
    ∷ codes "max"
    ∷ codes "ratio"
    ∷ codes "abs"
    ∷ codes "round"
    ∷ codes "coalesce"
    ∷ []

-- not factor and metric, which the evaluator refuses
abbrev IsCallable : Function → Type 0
IsCallable factor = ⊥
IsCallable metric = ⊥
IsCallable _ = Unit

function_of-callable :
    (name : Text) (f : Function)
    → function_of name ≡ some f
    → IsCallable f
    → is_one_of name callable ≡ true
unfolding function_of is_one_of
function_of-callable name f e good = ground arith

inherited-ne-period :
    (name : Text) → is_one_of name inherited ≡ true → text_eq name (codes "periodDays") ≡ false
unfolding is_one_of
inherited-ne-period name h = elim (Bool-cases (text_eq name (codes "periodDays"))) [
  | inl e ↦ cc (subst (λ n. is_one_of n inherited ≡ true) ((text_eq_iff name _).0 e) h)
  | inr e ↦ e
]

module _ (𝓓 : Decimal) where
  open 𝓓 use {D}

  refuse-inv :
      (name : Text) (o : Option Function) (vs : List (CelValue D)) {r : CelValue D}
      → call_or_refuse 𝓓 name o vs ≡ ok r
      → (f : Function) × (o ≡ some f) × IsCallable f
  refuse-inv name none vs h = cc
  refuse-inv name (some sum) vs h = (sum, refl, tt)
  refuse-inv name (some avg) vs h = (avg, refl, tt)
  refuse-inv name (some min) vs h = (min, refl, tt)
  refuse-inv name (some max) vs h = (max, refl, tt)
  refuse-inv name (some ratio) vs h = (ratio, refl, tt)
  refuse-inv name (some abs) vs h = (abs, refl, tt)
  refuse-inv name (some round) vs h = (round, refl, tt)
  refuse-inv name (some coalesce) vs h = (coalesce, refl, tt)
  refuse-inv name (some factor) vs h = cc
  refuse-inv name (some metric) vs h = cc

  eval_call-callable :
      (name : Text) (vs : List (CelValue D)) {r : CelValue D}
      → eval_call 𝓓 name vs ≡ ok r
      → is_one_of name callable ≡ true
  unfolding eval_call
  eval_call-callable name vs h =
      let (f, e, good) = refuse-inv name (function_of name) vs h in
      function_of-callable name f e good

  -- A call that gives a value is one of the eight functions, whatever the context and the arguments.
  pub eval-callable :
      (ctx : CelContext D) (name : Text) (args : Args D) {r : CelValue D}
      → eval 𝓓 ctx (call name args) ≡ ok r
      → is_one_of name callable ≡ true
  unfolding eval
  eval-callable ctx name args h =
      let (vs, e₁, e) = returned-inv (eval_args 𝓓 ctx args) _ h in eval_call-callable name vs e

  find-inherited :
      (o : Object D) (name : Text)
      → is_one_of name inherited ≡ true
      → o name ≡ none
      → find o name ≡ found (plain undefined)
  unfolding find
  find-inherited o name h e = rw (e, find) (rw h)

  -- A reference to a name that every object inherits, such as constructor or toString, is no
  -- unresolved reference: where the context has no metric of that name it evaluates to undefined.
  pub resolve-inherited :
      (ctx : CelContext D) (name : Text)
      → is_one_of name inherited ≡ true
      → ctx.metrics name ≡ none
      → eval 𝓓 ctx (ref name) ≡ ok (plain undefined)
  unfolding eval resolve_ref
  resolve-inherited ctx name h e =
      rw (inherited-ne-period name h) (rw (find-inherited ctx.metrics name h e))
