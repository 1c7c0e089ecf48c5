-- ===== src/Cel/Eval/Safety.antt =====
-- What a formula of cel-evaluator.ts can end in: `validate` decides whether it parses, and
-- evaluating one that does gives a value or an error of evaluation.
use brsr_v.Prelude.{◌≡◌, ◌≢◌, refl, ◌⊎◌, inl, inr, Bool, true, false, List, Text}
use brsr_v.Cel.Decimal.{Decimal}
use brsr_v.Cel.Syntax.{
  Token, Node, Args, and, or, num, str, bool, nil, ref, unary, bin, cond, call, no_args, arg,
}
use brsr_v.Cel.Outcome.{CelError, Outcome, ok, fail, out_of_fuel, ◌>>=◌}
use brsr_v.Cel.Value.{CelValue, CelContext, truthy}
use brsr_v.Cel.Lexer.{tokenize}
use brsr_v.Cel.Lexer.Total.{tokenize_total}
use brsr_v.Cel.Parser.{parse}
use brsr_v.Cel.Parser.Total.{parse_total}
use brsr_v.Cel.Eval.{eval, eval_args, validate, evaluate}
use brsr_v.Cel.Eval.Errors.{
  Evaluates, value, Evaluates-bind, Evaluates-if, Evaluates-resolve, Evaluates-unary,
  Evaluates-apply, Evaluates-call,
}

module _ (𝓓 : Decimal) where
  open 𝓓 use {D}

  Evaluates-branch :
      (b : Bool) {x y : Outcome (CelValue D)}
      → Evaluates x
      → Evaluates y
      → Evaluates (elim b [ true ↦ x | false ↦ y ])
  Evaluates-branch true hx hy = hx
  Evaluates-branch false hx hy = hy

  mutual
    unfolding eval

    eval-Evaluates : (ctx : CelContext D) (n : Node D) → Evaluates (eval 𝓓 ctx n)
    eval-Evaluates ctx (num d) = value
    eval-Evaluates ctx (str s) = value
    eval-Evaluates ctx (bool b) = value
    eval-Evaluates ctx nil = value
    eval-Evaluates ctx (ref name) = Evaluates-resolve 𝓓 name ctx
    eval-Evaluates ctx (unary o a) =
        Evaluates-bind (eval-Evaluates ctx a) λ v. Evaluates-unary 𝓓 o v
    eval-Evaluates ctx (bin and l r) =
        Evaluates-bind (eval-Evaluates ctx l) λ a.
          Evaluates-branch (truthy 𝓓 a) (Evaluates-bind (eval-Evaluates ctx r) λ b. value) value
    eval-Evaluates ctx (bin or l r) =
        Evaluates-bind (eval-Evaluates ctx l) λ a.
          Evaluates-branch (truthy 𝓓 a) value (Evaluates-bind (eval-Evaluates ctx r) λ b. value)
    eval-Evaluates ctx (bin o l r) =
        Evaluates-bind (eval-Evaluates ctx l)
          λ a. Evaluates-bind (eval-Evaluates ctx r) λ b. Evaluates-apply 𝓓 o a b
    eval-Evaluates ctx (cond c t e) =
        Evaluates-bind (eval-Evaluates ctx c)
          λ v. Evaluates-if (truthy 𝓓 v) (eval-Evaluates ctx t) (eval-Evaluates ctx e)
    eval-Evaluates ctx (call name as') =
        Evaluates-bind (args-Evaluates ctx as') λ vs. Evaluates-call 𝓓 name vs

    args-Evaluates : (ctx : CelContext D) (as' : Args D) → Evaluates (eval_args 𝓓 ctx as')
    args-Evaluates ctx no_args = value
    args-Evaluates ctx (arg a as') =
        Evaluates-bind (eval-Evaluates ctx a)
          λ v. Evaluates-bind (args-Evaluates ctx as') λ vs. value

  -- What `validate` and `evaluate` do once the tokens, then the tree, are known.
  abbrev Decides : Outcome (Unit {0}) → Outcome (CelValue D) → Type 0
  Decides v r = ((v ≡ ok tt) × Evaluates r) ⊎ ((e : CelError) × (v ≡ fail e) × (r ≡ fail e))

  Decides-parsed :
      (ctx : CelContext D) (p : Outcome (Node D))
      → p ≢ out_of_fuel
      → Decides (p >>= λ n. ok tt) (p >>= λ n. eval 𝓓 ctx n)
  Decides-parsed ctx (ok n) h = inl (refl, eval-Evaluates ctx n)
  Decides-parsed ctx (fail e) h = inr (e, refl, refl)
  Decides-parsed ctx out_of_fuel h = absurd (h refl)

  Decides-lexed :
      (ctx : CelContext D) (t : Outcome (List (Token D)))
      → t ≢ out_of_fuel
      → Decides (t >>= λ ts. parse ts >>= λ n. ok tt) (t >>= λ ts. parse ts >>= λ n. eval 𝓓 ctx n)
  Decides-lexed ctx (ok ts) h = Decides-parsed ctx (parse ts) (parse_total ts)
  Decides-lexed ctx (fail e) h = inr (e, refl, refl)
  Decides-lexed ctx out_of_fuel h = absurd (h refl)

  -- Of every expression and context: either `validate` accepts the expression, and `evaluate`
  -- returns a value or throws an error of evaluation, none of the tokenizer or the parser; or both
  -- throw the same error.
  pub validate_decides :
      (s : Text) (ctx : CelContext D)
      → ((validate 𝓓 s ≡ ok tt) × Evaluates (evaluate 𝓓 s ctx))
        ⊎ ((e : CelError) × (validate 𝓓 s ≡ fail e) × (evaluate 𝓓 s ctx ≡ fail e))
  unfolding validate evaluate
  validate_decides s ctx = Decides-lexed ctx (tokenize 𝓓 s) (tokenize_total 𝓓 s)
