-- ===== src/Cel/Eval/Frame.antt =====
-- A formula of cel-evaluator.ts reads nothing of its context but the names that it mentions.
use brsr_v.Prelude.{
  is_one_of, ◌≡◌, refl, true, false, none, some, List, [], ◌∷◌, ◌++◌, Text, text_eq, codes, All,
  if◌then◌else◌,
}
use brsr_v.Cel.Decimal.{Decimal}
use brsr_v.Cel.Syntax.{Node, Args, and, or, ref, unary, bin, cond, call, no_args, arg}
use brsr_v.Cel.Outcome.{ok, ◌>>=◌}
use brsr_v.Cel.Value.{Value, CelContext, Object, dec, undefined, inherited, truthy, plain}
use brsr_v.Cel.Eval.{
  found, absent, holds_undefined, from_metrics, days, in_factors, find, resolve_ref, eval,
  eval_args, apply_op,
}

unfoldable mutual
  pub names : {D : Type 0} → Node D → List Text
  names (ref name) = name ∷ []
  names (unary o a) = names a
  names (bin o l r) = names l ++ names r
  names (cond c t e) = names c ++ (names t ++ names e)
  names (call name as') = names_of as'
  names _ = []

  pub names_of : {D : Type 0} → Args D → List Text
  names_of no_args = []
  names_of (arg a as') = names a ++ names_of as'

module _ {A : Type 0} (P : A → Type 0) where
  All-left : (xs ys : List A) → All P (xs ++ ys) → All P xs
  All-left [] ys h = tt
  All-left (x ∷ xs) ys h = (h.0, All-left xs ys h.1)

  All-right : (xs ys : List A) → All P (xs ++ ys) → All P ys
  All-right [] ys h = h
  All-right (x ∷ xs) ys h = All-right xs ys h.1

module _ (𝓓 : Decimal) where
  open 𝓓 use {D}

  -- The two contexts have the same entry under `name`, and the same number of days.
  pub record AgreeAt (c c' : CelContext D) (name : Text) : Type 0 where
    pub metric : c.metrics name ≡ c'.metrics name
    pub factor : in_factors 𝓓 c.factors name ≡ in_factors 𝓓 c'.factors name
    pub period : days 𝓓 c.period_days ≡ days 𝓓 c'.period_days

  find_same : (o o' : Object D) (name : Text) → o name ≡ o' name → find o name ≡ find o' name
  unfolding find
  find_same o o' name p = λ i. elim (p i) [
    | some (some v) ↦ found v
    | some none ↦ holds_undefined
    | none ↦ if is_one_of name inherited then found (plain undefined) else absent
  ]

  resolve_same :
      (c c' : CelContext D) (name : Text)
      → AgreeAt c c' name
      → resolve_ref 𝓓 name c ≡ resolve_ref 𝓓 name c'
  unfolding resolve_ref
  resolve_same c c' name h = λ i.
      if text_eq name (codes "periodDays")
      then ok (plain (dec (𝓓.of_nat (h.period i))))
      else from_metrics 𝓓 name (find_same c.metrics c'.metrics name h.metric i) (h.factor i)

  mutual
    unfolding eval names

    eval_same :
        (c c' : CelContext D) (n : Node D) → All (AgreeAt c c') (names n) → eval 𝓓 c n ≡ eval 𝓓 c' n
    eval_same c c' (ref name) h = resolve_same c c' name h.0
    eval_same c c' (unary o a) h = rw (eval_same c c' a h)
    eval_same c c' (bin and l r) h =
        let pl = eval_same c c' l (All-left (AgreeAt c c') (names l) _ h) in
        let pr = eval_same c c' r (All-right (AgreeAt c c') (names l) _ h) in
        λ i. pl i >>= λ a. elim (truthy 𝓓 a) [
          | true ↦ pr i >>= λ b. ok (plain (Value.bool (truthy 𝓓 b)))
          | false ↦ ok (plain (Value.bool false))
        ]
    eval_same c c' (bin or l r) h =
        let pl = eval_same c c' l (All-left (AgreeAt c c') (names l) _ h) in
        let pr = eval_same c c' r (All-right (AgreeAt c c') (names l) _ h) in
        λ i. pl i >>= λ a. elim (truthy 𝓓 a) [
          | true ↦ ok (plain (Value.bool true))
          | false ↦ pr i >>= λ b. ok (plain (Value.bool (truthy 𝓓 b)))
        ]
    eval_same c c' (bin o l r) h =
        let pl = eval_same c c' l (All-left (AgreeAt c c') (names l) _ h) in
        let pr = eval_same c c' r (All-right (AgreeAt c c') (names l) _ h) in
        λ i. pl i >>= λ a. pr i >>= λ b. apply_op 𝓓 o a b
    eval_same c c' (cond x t e) h =
        let rest = All-right (AgreeAt c c') (names x) _ h in
        let px = eval_same c c' x (All-left (AgreeAt c c') (names x) _ h) in
        let pt = eval_same c c' t (All-left (AgreeAt c c') (names t) _ rest) in
        let pe = eval_same c c' e (All-right (AgreeAt c c') (names t) _ rest) in
        λ i. px i >>= λ v. if truthy 𝓓 v then pt i else pe i
    eval_same c c' (call name as') h = rw (args_same c c' as' h)
    eval_same c c' _ h = refl

    args_same :
        (c c' : CelContext D) (as' : Args D)
        → All (AgreeAt c c') (names_of as')
        → eval_args 𝓓 c as' ≡ eval_args 𝓓 c' as'
    args_same c c' no_args h = refl
    args_same c c' (arg a as') h =
        rw (eval_same c c' a (All-left (AgreeAt c c') (names a) _ h))
          (rw (args_same c c' as' (All-right (AgreeAt c c') (names a) _ h)))

  -- Two contexts that agree at every name of a formula, and in the number of days, give it the same
  -- value or the same error.
  pub eval-frame :
      (c c' : CelContext D) (n : Node D) → All (AgreeAt c c') (names n) → eval 𝓓 c n ≡ eval 𝓓 c' n
  eval-frame = eval_same
