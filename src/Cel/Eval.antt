-- ===== src/Cel/Eval.antt =====
-- The evaluator: `evalNode`, `resolveRef`, `evalBin` and the public API of cel-evaluator.ts.
pub mod Errors
pub mod Safety
pub mod Names
pub mod Frame
use brsr_v.Prelude.{
  is_one_of, ℕ, Bool, true, false, not, ◌&&◌, Option, none, some, List, [], ◌∷◌, Text, text_eq,
  codes, if◌then◌else◌,
}
use brsr_v.Cel.Decimal.{Decimal, Sign, less, same as equal, more, nan}
use brsr_v.Cel.Syntax.{
  Op, Node, Args, plus, minus, times, slash, percent, lt, gt, bang, eq, ne, le, ge, and, or, num,
  str, bool, nil, ref, unary, bin, cond, call, no_args, arg,
}
use brsr_v.Cel.Outcome.{
  Outcome, ok, fail, out_of_fuel, unary_on_non_number, unknown_unary, unresolved,
  comparison_requires_numbers, arithmetic_on_non_numeric, unit_mismatch, unknown_op,
  division_by_zero, modulo_by_zero, check, ◌>>=◌, ◌>>◌,
}
use brsr_v.Cel.Value.{
  Value, CelValue, Object, CelContext, dec, null, undefined, plain, inherited, unit_eq, present,
  combine_times, combine_div, truthy, same,
}
use brsr_v.Cel.Lexer.{tokenize}
use brsr_v.Cel.Parser.{parse}
use brsr_v.Cel.Call.{eval_call}

-- What `name in object` and `object[name]` find.
pub data Found (D : Type 0) : Type 0 where
  absent holds_undefined : Found D
  found : CelValue D → Found D

unfoldable pub find : {D : Type 0} → Object D → Text → Found D
unfolding is_one_of
find o name = elim (o name) [
  | some (some v) ↦ found v
  | some none ↦ holds_undefined
  | none ↦ if is_one_of name inherited then found (plain undefined) else absent
]

module _ (𝓓 : Decimal) where
  open 𝓓 use {
    D, of_nat, negated, plus as add, minus as sub, times as mul, div, mod_by, cmp, is_zero,
  }

  abbrev pub days : Option ℕ → ℕ
  days none = 365
  days (some n) = n

  abbrev pub in_factors : Option (Object D) → Text → Found D
  in_factors none name = absent
  in_factors (some o) name = find o name

  abbrev pub from_factors : Text → Found D → Outcome (CelValue D)
  from_factors name absent = fail (unresolved name)
  from_factors name holds_undefined = fail (unresolved name)
  from_factors name (found v) = ok v

  abbrev pub from_metrics : Text → Found D → Found D → Outcome (CelValue D)
  from_metrics name absent others = from_factors name others
  from_metrics name holds_undefined others = fail (unresolved name)
  from_metrics name (found v) others = ok v

  unfoldable pub resolve_ref : Text → CelContext D → Outcome (CelValue D)
  unfolding find text_eq
  resolve_ref name ctx =
      if text_eq name (codes "periodDays")
      then ok (plain (dec (of_nat (days ctx.period_days))))
      else from_metrics name (find ctx.metrics name) (in_factors ctx.factors name)

  unfoldable pub eval_unary : Op → CelValue D → Outcome (CelValue D)
  unfolding truthy
  eval_unary minus v = elim v.value [
    | dec d ↦ ok (record { value = dec (negated d); unit = v.unit })
    | _ ↦ fail unary_on_non_number
  ]
  eval_unary plus v = ok v
  eval_unary bang v = ok (plain (Value.bool (not (truthy 𝓓 v))))
  eval_unary _ v = fail unknown_unary

  -- `requireSameUnit`
  unfoldable pub require_same_unit : CelValue D → CelValue D → Op → Outcome (Unit {0})
  unfolding unit_eq
  require_same_unit a b o =
      check (not (not (unit_eq a.unit b.unit) && present a.unit && present b.unit))
        (unit_mismatch o)

  -- the comparisons of a cmp result with 0, where null counts as 0 in `<=` and `>=`
  abbrev pub holds : Op → Sign → Bool
  holds lt less = true
  holds le less = true
  holds le equal = true
  holds le nan = true
  holds gt more = true
  holds ge more = true
  holds ge equal = true
  holds ge nan = true
  holds _ _ = false

  abbrev pub two_numbers :
      {A : Type 0} → Value D → Value D → Outcome A → (D → D → Outcome A) → Outcome A
  two_numbers (dec x) (dec y) other f = f x y
  two_numbers _ _ other f = other

  unfoldable pub compare_values : Op → CelValue D → CelValue D → Outcome (CelValue D)
  unfolding require_same_unit
  compare_values o a b =
      require_same_unit a b o
      >> two_numbers a.value b.value (fail (comparison_requires_numbers o))
          λ x y. ok (plain (Value.bool (holds o (cmp x y))))

  -- the arithmetic `switch`, once both operands are numbers
  unfoldable pub arithmetic : Op → CelValue D → CelValue D → D → D → Outcome (CelValue D)
  unfolding require_same_unit combine_times combine_div
  arithmetic plus a b x y =
      require_same_unit a b plus >> ok (record { value = dec (add x y); unit = a.unit })
  arithmetic minus a b x y =
      require_same_unit a b minus >> ok (record { value = dec (sub x y); unit = a.unit })
  arithmetic times a b x y =
      ok (record { value = dec (mul x y); unit = combine_times a.unit b.unit })
  arithmetic slash a b x y =
      if is_zero y
      then fail division_by_zero
      else ok (record { value = dec (div x y); unit = combine_div a.unit b.unit })
  arithmetic percent a b x y =
      if is_zero y
      then fail modulo_by_zero
      else ok (record { value = dec (mod_by x y); unit = a.unit })
  arithmetic o a b x y = fail (unknown_op o)

  -- `evalBin` behind the short-circuit operators, on the values of the operands
  unfoldable pub apply_op : Op → CelValue D → CelValue D → Outcome (CelValue D)
  unfolding compare_values arithmetic
  apply_op eq a b = ok (plain (Value.bool (same 𝓓 a.value b.value)))
  apply_op ne a b = ok (plain (Value.bool (not (same 𝓓 a.value b.value))))
  apply_op lt a b = compare_values lt a b
  apply_op le a b = compare_values le a b
  apply_op gt a b = compare_values gt a b
  apply_op ge a b = compare_values ge a b
  apply_op o a b =
      two_numbers a.value b.value (fail (arithmetic_on_non_numeric o)) (arithmetic o a b)

module _ (𝓓 : Decimal) where
  open 𝓓 use {D}

  -- Beside the short-circuit operators every operand is evaluated, from left to right.
  unfoldable mutual
    unfolding resolve_ref eval_unary apply_op eval_call truthy

    pub eval : CelContext D → Node D → Outcome (CelValue D)
    eval ctx (num d) = ok (plain (dec d))
    eval ctx (str s) = ok (plain (Value.str s))
    eval ctx (bool b) = ok (plain (Value.bool b))
    eval ctx nil = ok (plain null)
    eval ctx (ref name) = resolve_ref 𝓓 name ctx
    eval ctx (unary o a) = eval ctx a >>= λ v. eval_unary 𝓓 o v
    eval ctx (bin and l r) =
        let right = eval ctx r in
        eval ctx l >>= λ a. elim (truthy 𝓓 a) [
          | true ↦ right >>= λ b. ok (plain (Value.bool (truthy 𝓓 b)))
          | false ↦ ok (plain (Value.bool false))
        ]
    eval ctx (bin or l r) =
        let right = eval ctx r in
        eval ctx l >>= λ a. elim (truthy 𝓓 a) [
          | true ↦ ok (plain (Value.bool true))
          | false ↦ right >>= λ b. ok (plain (Value.bool (truthy 𝓓 b)))
        ]
    eval ctx (bin o l r) = eval ctx l >>= λ a. eval ctx r >>= λ b. apply_op 𝓓 o a b
    eval ctx (cond c t e) =
        let yes_value = eval ctx t in
        let no_value = eval ctx e in eval ctx c >>= λ v. if truthy 𝓓 v then yes_value else no_value
    eval ctx (call name as') = eval_args ctx as' >>= λ vs. eval_call 𝓓 name vs

    pub eval_args : CelContext D → Args D → Outcome (List (CelValue D))
    eval_args ctx no_args = ok []
    eval_args ctx (arg a as') = eval ctx a >>= λ v. eval_args ctx as' >>= λ vs. ok (v ∷ vs)

  -- `CelEvaluator.validate`
  unfoldable pub validate : Text → Outcome (Unit {0})
  validate s = tokenize 𝓓 s >>= λ toks. parse toks >>= λ n. ok tt

  -- `CelEvaluator.evaluate`
  unfoldable pub evaluate : Text → CelContext D → Outcome (CelValue D)
  evaluate s ctx = tokenize 𝓓 s >>= λ toks. parse toks >>= λ n. eval ctx n
