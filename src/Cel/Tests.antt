-- ===== src/Cel/Tests.antt =====
-- Formulas of cel-evaluator.ts run on concrete inputs, over integers, and the theorems at some.
use brsr_v.Prelude.{
  is_one_of, ◌≡◌, refl, ◌↔◌, ◌⊎◌, Option, none, some, true, List, [], ◌∷◌, ◌++◌, Text, text_eq,
  codes, All, if◌then◌else◌,
}
use mathlib.Core.List.{foldl, Memᴰ}
use brsr_v.Prelude.Int.{ℤ, pos, ◌+ℤ◌}
use brsr_v.Cel.Outcome.{CelError, ok, fail, unit_mismatch}
use brsr_v.Cel.Syntax.{
  Token, Node, plus, minus, times, num, str, lparen, rparen, eof, ref, unary, bin, cond, call,
  no_args, arg,
}
use brsr_v.Cel.Value.{Value, CelContext, dec, plain}
use brsr_v.Cel.Lexer.{tokenize}
use brsr_v.Cel.Parser.{parse}
use brsr_v.Cel.Parser.Printer.{print}
use brsr_v.Cel.Parser.RoundTrip.{IsTree, parse-print}
use brsr_v.Cel.Parser.Precedence.{two_operators, parse-two_operators}
use brsr_v.Cel.Call.{eval_sum, eval_call}
use brsr_v.Cel.Call.Laws.{quantity, quantities, eval_sum-eq-ok_iff}
use brsr_v.Cel.Call.Extremes.{AtMost, eval_min_max}
use brsr_v.Cel.Eval.{find, eval, validate, evaluate}
use brsr_v.Cel.Eval.Frame.{AgreeAt, names, eval-frame}
use brsr_v.Cel.Eval.Names.{callable, eval-callable}
use brsr_v.Cel.Eval.Errors.{Evaluates}
use brsr_v.Cel.Eval.Safety.{validate_decides}
use brsr_v.Cel.Integers.{integers, integers-IsOrdered}

abbrev kwh : Option Text
kwh = some (codes "kWh")

abbrev kg : Option Text
kg = some (codes "kg")

-- electricity = 100 kWh, waste = 7 kg, and no factors
abbrev context : CelContext ℤ
context = record {
  metrics = λ name.
      if text_eq name (codes "electricity")
      then some (some (quantity integers kwh (pos 100)))
      else if text_eq name (codes "waste")
      then some (some (quantity integers kg (pos 7)))
      else none;
  factors = none;
  period_days = none;
}

precedence_test :
    evaluate integers (codes "2 + 3 * 4 == 14 && !(1 > 2)") context ≡ ok (plain (Value.bool true))
unfolding evaluate tokenize parse eval text_eq
precedence_test = refl

units_test :
    evaluate integers (codes "sum(electricity, 20 * electricity, electricity)") context
    ≡ ok (quantity integers kwh (pos 2200))
unfolding evaluate tokenize parse eval text_eq
units_test = refl

unit_mismatch_test :
    evaluate integers (codes "electricity + waste") context ≡ fail (unit_mismatch plus)
unfolding evaluate tokenize parse eval text_eq
unit_mismatch_test = refl

ternary_test :
    evaluate integers (codes "waste ? periodDays : 1 / 0") context ≡ ok (plain (dec (pos 365)))
unfolding evaluate tokenize parse eval text_eq
ternary_test = refl

abbrev open_paren : List (Token ℤ)
open_paren = lparen ∷ lparen ∷ num (pos 1) ∷ rparen ∷ eof ∷ []

-- min(a, -1) ? "x" : f() + 2
abbrev sample : Node ℤ
sample =
    cond (call (codes "min") (arg (ref (codes "a")) (arg (unary minus (num (pos 1))) no_args)))
      (str (codes "x")) (bin plus (call (codes "f") no_args) (num (pos 2)))

sample-IsTree : IsTree sample
sample-IsTree = ((tt, ((tt, tt), tt)), tt, (tt, tt, tt))

parse-print_example : parse (print sample ++ eof ∷ []) ≡ ok sample
parse-print_example = parse-print sample sample-IsTree

abbrev one : Node ℤ
one = num (pos 1)

parse-two_operators_example :
    parse (two_operators plus times one sample one) ≡ ok (bin plus one (bin times sample one))
parse-two_operators_example =
    parse-two_operators plus times one sample one
      (record { first = tt; second = tt; left = tt; middle = sample-IsTree; right = tt })

validate_decides_example :
    ((validate integers (codes "(1 + ") ≡ ok tt)
      × Evaluates (evaluate integers (codes "(1 + ") context))
    ⊎ ((e : CelError) × (validate integers (codes "(1 + ") ≡ fail e)
        × (evaluate integers (codes "(1 + ") context ≡ fail e))
validate_decides_example = validate_decides integers (codes "(1 + ") context

-- the same metrics with a factor that the formula does not mention
abbrev other_context : CelContext ℤ
other_context = record context {
  factors =
      some (λ name.
        if text_eq name (codes "EF_GRID") then some (some (plain (dec (pos 3)))) else none);
}

abbrev formula : Node ℤ
formula =
    bin plus (ref (codes "electricity"))
      (call (codes "abs") (arg (ref (codes "electricity")) no_args))

agree : AgreeAt integers context other_context (codes "electricity")
unfolding find text_eq
agree = record { metric = refl; factor = refl; period = refl }

eval-frame_example : eval integers context formula ≡ eval integers other_context formula
unfolding names
eval-frame_example = eval-frame integers context other_context formula (agree, (agree, tt))

formula_value :
    eval integers context (call (codes "abs") (arg (ref (codes "waste")) no_args))
    ≡ ok (quantity integers kg (pos 7))
unfolding eval text_eq
formula_value = refl

eval-callable_example : is_one_of (codes "abs") callable ≡ true
eval-callable_example =
    eval-callable integers context (codes "abs") (arg (ref (codes "waste")) no_args) formula_value

eval_sum-eq-ok_iff_example :
    (eval_sum integers (quantities integers kg (pos 1 ∷ pos 2 ∷ []))
      ≡ ok (quantity integers kg (pos 3)))
    ↔ ((ds : List ℤ) × (quantities integers kg (pos 1 ∷ pos 2 ∷ []) ≡ quantities integers kg ds)
        × (quantity integers kg (pos 3) ≡ quantity integers kg (foldl ◌+ℤ◌ (pos 0) ds)))
eval_sum-eq-ok_iff_example =
    eval_sum-eq-ok_iff integers (quantity integers kg (pos 1)) (quantities integers kg (pos 2 ∷ []))
      (quantity integers kg (pos 3))

eval_min_max_example :
    ((m : ℤ) × (eval_call integers (codes "min") (quantities integers kwh (pos 2 ∷ pos 1 ∷ []))
        ≡ ok (quantity integers kwh m))
      × All (λ x. AtMost integers m x) (pos 2 ∷ pos 1 ∷ [])
      × Memᴰ m (pos 2 ∷ pos 1 ∷ []))
    × ((m : ℤ) × (eval_call integers (codes "max") (quantities integers kwh (pos 2 ∷ pos 1 ∷ []))
          ≡ ok (quantity integers kwh m))
        × All (λ x. AtMost integers x m) (pos 2 ∷ pos 1 ∷ [])
        × Memᴰ m (pos 2 ∷ pos 1 ∷ []))
eval_min_max_example = eval_min_max integers integers-IsOrdered kwh (pos 2) (pos 1 ∷ [])
