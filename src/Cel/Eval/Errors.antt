-- ===== src/Cel/Eval/Errors.antt =====
-- The errors that the evaluator of cel-evaluator.ts throws, operation by operation.
use brsr_v.Prelude.{
  Bool, true, false, Option, none, some, List, [], ◌∷◌, Text, if◌then◌else◌, text_eq, codes, not,
  ◌&&◌,
}
use brsr_v.Cel.Decimal.{Decimal, Sign}
use brsr_v.Cel.Syntax.{Op, plus, minus, times, slash, percent, lt, gt, bang, eq, ne, le, ge}
use brsr_v.Cel.Outcome.{
  CelError, Outcome, ok, fail, unterminated_string, unexpected_character, bad_number,
  trailing_input, expected_colon, expected_paren, expected_paren_after_args, unexpected_token,
  no_token, ◌>>=◌, check, unit_mismatch,
}
use brsr_v.Cel.Value.{Value, CelValue, CelContext, dec, null, unit_eq, present}
use brsr_v.Cel.Call.{
  Function, function_of, number, total, best, eval_best, eval_ratio, eval_call, rounded,
  call_or_refuse, sum, avg, min, max, ratio, abs, round, coalesce, factor, metric, is_less, is_more,
}
use brsr_v.Cel.Eval.{
  Found, from_metrics, absent, holds_undefined, found, resolve_ref, eval_unary, require_same_unit,
  compare_values, arithmetic, two_numbers, apply_op,
}

-- the errors that evaluation throws, as opposed to the tokenizer and the parser
abbrev pub IsRuntime : CelError → Type 0
IsRuntime unterminated_string = ⊥
IsRuntime unexpected_character = ⊥
IsRuntime bad_number = ⊥
IsRuntime trailing_input = ⊥
IsRuntime expected_colon = ⊥
IsRuntime expected_paren = ⊥
IsRuntime expected_paren_after_args = ⊥
IsRuntime unexpected_token = ⊥
IsRuntime no_token = ⊥
IsRuntime _ = Unit

-- A value, or an error of evaluation.
pub data Evaluates {A : Type 0} : Outcome A → Type 0 where
  value : {a : A} → Evaluates (ok a)
  error : {e : CelError} → IsRuntime e → Evaluates (fail e)

pub Evaluates-bind :
    {A B : Type 0} {m : Outcome A} {f : A → Outcome B}
    → Evaluates m
    → ((a : A) → Evaluates (f a))
    → Evaluates (m >>= f)
Evaluates-bind (value {a}) k = k a
Evaluates-bind (error h) k = error h

pub Evaluates-if :
    {A : Type 0} (b : Bool) {x y : Outcome A}
    → Evaluates x
    → Evaluates y
    → Evaluates (if b then x else y)
Evaluates-if true hx hy = hx
Evaluates-if false hx hy = hy

module _ (𝓓 : Decimal) where
  open 𝓓 use {D}

  Evaluates-number :
      {A : Type 0} (v : Value D) {x : Outcome A} {f : D → Outcome A}
      → Evaluates x
      → ((d : D) → Evaluates (f d))
      → Evaluates (number 𝓓 v x f)
  Evaluates-number (dec d) h k = k d
  Evaluates-number null h k = h
  Evaluates-number _ h k = h

  Evaluates-two :
      {A : Type 0} (v w : Value D) {x : Outcome A} {f : D → D → Outcome A}
      → Evaluates x
      → ((d e : D) → Evaluates (f d e))
      → Evaluates (two_numbers 𝓓 v w x f)
  Evaluates-two (dec d) (dec e) h k = k d e
  Evaluates-two (dec d) _ h k = h
  Evaluates-two _ _ h k = h

  Evaluates-total :
      (u : Option Text) (acc : D) (vs : List (CelValue D)) → Evaluates (total 𝓓 u acc vs)
  unfolding total
  Evaluates-total u acc [] = value
  Evaluates-total u acc (v ∷ vs) =
      Evaluates-number v.value (error tt)
        λ d. Evaluates-if (unit_eq v.unit u) (Evaluates-total u (𝓓.plus acc d) vs) (error tt)

  Evaluates-best :
      (better : Sign → Bool) (u : Option Text) (top : D) (vs : List (CelValue D))
      → Evaluates (best 𝓓 better u top vs)
  unfolding best
  Evaluates-best better u top [] = value
  Evaluates-best better u top (v ∷ vs) = Evaluates-number v.value (error tt) λ d.
      Evaluates-if (unit_eq v.unit u)
        (Evaluates-best better u (if better (𝓓.cmp d top) then d else top) vs) (error tt)

  Evaluates-eval_best :
      (better : Sign → Bool) (vs : List (CelValue D)) → Evaluates (eval_best 𝓓 better vs)
  unfolding eval_best
  Evaluates-eval_best better [] = error tt
  Evaluates-eval_best better (v ∷ vs) =
      Evaluates-number v.value (error tt)
        λ d. Evaluates-bind (Evaluates-best better v.unit d (v ∷ vs)) λ t. value

  Evaluates-rounded : (u : Option Text) (o : Option D) → Evaluates (rounded 𝓓 u o)
  Evaluates-rounded u none = error tt
  Evaluates-rounded u (some d) = value

  Evaluates-ratio : (vs : List (CelValue D)) → Evaluates (eval_ratio 𝓓 vs)
  unfolding eval_ratio
  Evaluates-ratio (n ∷ d ∷ []) =
      Evaluates-number n.value (error tt)
        λ x. Evaluates-number d.value (error tt) λ y. Evaluates-if (𝓓.is_zero y) (error tt) value
  Evaluates-ratio _ = error tt

  Evaluates-function :
      (name : Text) (o : Option Function) (vs : List (CelValue D))
      → Evaluates (call_or_refuse 𝓓 name o vs)
  unfolding eval_call
  Evaluates-function name none vs = error tt
  Evaluates-function name (some sum) [] = value
  Evaluates-function name (some sum) (v ∷ vs) =
      Evaluates-bind (Evaluates-total v.unit (𝓓.of_nat 0) (v ∷ vs)) λ t. value
  Evaluates-function name (some avg) [] = value
  Evaluates-function name (some avg) (v ∷ vs) =
      Evaluates-bind (Evaluates-total v.unit (𝓓.of_nat 0) (v ∷ vs)) λ t. value
  Evaluates-function name (some min) vs = Evaluates-eval_best (is_less 𝓓) vs
  Evaluates-function name (some max) vs = Evaluates-eval_best (is_more 𝓓) vs
  Evaluates-function name (some ratio) vs = Evaluates-ratio vs
  Evaluates-function name (some abs) [] = error tt
  Evaluates-function name (some abs) (v ∷ vs) = Evaluates-number v.value (error tt) λ d. value
  Evaluates-function name (some round) [] = error tt
  Evaluates-function name (some round) (v ∷ vs) =
      Evaluates-number v.value (error tt) λ d. Evaluates-rounded v.unit _
  Evaluates-function name (some coalesce) vs = value
  Evaluates-function name (some factor) vs = error tt
  Evaluates-function name (some metric) vs = error tt

  pub Evaluates-call : (name : Text) (vs : List (CelValue D)) → Evaluates (eval_call 𝓓 name vs)
  unfolding eval_call
  Evaluates-call name vs = Evaluates-function name (function_of name) vs

  Evaluates-found : (name : Text) (m others : Found D) → Evaluates (from_metrics 𝓓 name m others)
  Evaluates-found name absent absent = error tt
  Evaluates-found name absent holds_undefined = error tt
  Evaluates-found name absent (found v) = value
  Evaluates-found name holds_undefined others = error tt
  Evaluates-found name (found v) others = value

  pub Evaluates-resolve : (name : Text) (ctx : CelContext D) → Evaluates (resolve_ref 𝓓 name ctx)
  unfolding resolve_ref
  Evaluates-resolve name ctx =
      Evaluates-if (text_eq name (codes "periodDays")) value (Evaluates-found name _ _)

  Evaluates-negated :
      (u : Option Text) (w : Value D)
      → Evaluates (eval_unary 𝓓 minus (record { value = w; unit = u }))
  unfolding eval_unary
  Evaluates-negated u (dec d) = value
  Evaluates-negated u _ = error tt

  pub Evaluates-unary : (o : Op) (v : CelValue D) → Evaluates (eval_unary 𝓓 o v)
  unfolding eval_unary
  Evaluates-unary minus v = Evaluates-negated v.unit v.value
  Evaluates-unary plus v = value
  Evaluates-unary bang v = value
  Evaluates-unary _ v = error tt

  Evaluates-unit : (a b : CelValue D) (o : Op) → Evaluates (require_same_unit 𝓓 a b o)
  unfolding require_same_unit
  Evaluates-unit a b o =
      Evaluates-check (not (not (unit_eq a.unit b.unit) && present a.unit && present b.unit))
    where
      Evaluates-check : (t : Bool) → Evaluates (check t (unit_mismatch o))
      Evaluates-check true = value
      Evaluates-check false = error tt

  Evaluates-compare : (o : Op) (a b : CelValue D) → Evaluates (compare_values 𝓓 o a b)
  unfolding compare_values
  Evaluates-compare o a b =
      Evaluates-bind (Evaluates-unit a b o)
        λ _. Evaluates-two a.value b.value (error tt) λ x y. value

  Evaluates-arithmetic : (o : Op) (a b : CelValue D) (x y : D) → Evaluates (arithmetic 𝓓 o a b x y)
  unfolding arithmetic
  Evaluates-arithmetic plus a b x y = Evaluates-bind (Evaluates-unit a b plus) λ _. value
  Evaluates-arithmetic minus a b x y = Evaluates-bind (Evaluates-unit a b minus) λ _. value
  Evaluates-arithmetic times a b x y = value
  Evaluates-arithmetic slash a b x y = Evaluates-if (𝓓.is_zero y) (error tt) value
  Evaluates-arithmetic percent a b x y = Evaluates-if (𝓓.is_zero y) (error tt) value
  Evaluates-arithmetic _ a b x y = error tt

  pub Evaluates-apply : (o : Op) (a b : CelValue D) → Evaluates (apply_op 𝓓 o a b)
  unfolding apply_op
  Evaluates-apply eq a b = value
  Evaluates-apply ne a b = value
  Evaluates-apply lt a b = Evaluates-compare lt a b
  Evaluates-apply le a b = Evaluates-compare le a b
  Evaluates-apply gt a b = Evaluates-compare gt a b
  Evaluates-apply ge a b = Evaluates-compare ge a b
  Evaluates-apply o a b = Evaluates-two a.value b.value (error tt) (Evaluates-arithmetic o a b)
