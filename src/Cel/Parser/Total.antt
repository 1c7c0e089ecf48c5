-- ===== src/Cel/Parser/Total.antt =====
-- The parser of services/api/src/common/utils/cel-evaluator.ts ends on every token list: each
-- call of the grammar consumes input, so the fuel of `parse` is never used up.
use brsr_v.Prelude.{
  ℕ, zero, suc, ◌+◌, ◌*◌, ◌<◌, ◌≢◌, none, some, [], ◌∷◌, arith, leb, ltb, length, if◌then◌else◌,
}
use brsr_v.Cel.Syntax.{
  Node, plus, minus, bang, num, str, ident, op, lparen, rparen, comma, qmark, colon, bool, nil, eof,
  cond, bin, binary_bp,
}
use brsr_v.Cel.Outcome.{
  CelError, ok, out_of_fuel, expected_paren, expected_paren_after_args, Within, returned, threw,
  Within-ne-out_of_fuel, Within-if, Within-bind, Within-weaken, ◌>>=◌,
}
use brsr_v.Cel.Parser.{
  Tokens, expect_colon, expect_rparen, parse_expression, parse_loop, parse_unary, parse_primary,
  parse_args, more_args, finish, parse,
}

-- what is left is shorter than `ts`, or no longer
abbrev Shorter : {D A : Type 0} → Tokens D → A × Tokens D → Type 0
Shorter ts (_, rest) = length rest < length ts

abbrev NotLonger : {D A : Type 0} → Tokens D → A × Tokens D → Type 0
NotLonger ts (_, rest) = length rest < suc (length ts)

module _ {D : Type 0} where
  expect_colon-Within : (ts : Tokens D) → Within (λ r. length r < length ts) (expect_colon ts)
  unfolding expect_colon
  expect_colon-Within (colon ∷ ts) = returned (omega arith)
  expect_colon-Within _ = threw

  expect_rparen-Within :
      (e : CelError) (ts : Tokens D) → Within (λ r. length r < length ts) (expect_rparen e ts)
  unfolding expect_rparen
  expect_rparen-Within e (rparen ∷ ts) = returned (omega arith)
  expect_rparen-Within e _ = threw

mutual
  unfolding parse_expression

  expression-Within :
      {D : Type 0} (f m : ℕ) (ts : Tokens D)
      → 5 * length ts + 2 < f
      → Within (Shorter ts) (parse_expression f m ts)
  expression-Within zero m ts h = absurd (omega arith)
  expression-Within (suc f) m ts h =
      Within-bind (unary-Within f ts (omega arith))
        λ (lhs, r) p. Within-weaken (loop-Within f m lhs r (omega arith)) λ (n, r') q. omega arith

  loop-Within :
      {D : Type 0} (f m : ℕ) (lhs : Node D) (ts : Tokens D)
      → 5 * length ts < f
      → Within (NotLonger ts) (parse_loop f m lhs ts)
  loop-Within zero m lhs ts h = absurd (omega arith)
  loop-Within (suc f) m lhs (qmark ∷ ts) h =
      Within-if (leb m 1)
        (λ _. Within-bind (expression-Within f 0 ts (omega arith)) λ (t, r₁) p₁.
          Within-bind (expect_colon-Within r₁) λ r₂ p₂.
            Within-bind (expression-Within f 1 r₂ (omega arith)) λ (e, r₃) p₃.
              Within-weaken (loop-Within f m (cond lhs t e) r₃ (omega arith))
                λ (n, r) q. omega arith)
        (λ _. returned (omega arith))
  loop-Within (suc f) m lhs (op o ∷ ts) h =
      elim (binary_bp o)
        as (λ b. Within (NotLonger (op o ∷ ts)) (elim b [
          | none ↦ ok (lhs, op o ∷ ts)
          | some (left, right) ↦
              let binary =
                parse_expression f right ts >>= λ (rhs, r). parse_loop f m (bin o lhs rhs) r in
              if ltb left m then ok (lhs, op o ∷ ts) else binary
        ])) [
          | none ↦ returned (omega arith)
          | some (left, right) ↦
              Within-if (ltb left m) (λ _. returned (omega arith))
                (λ _. Within-bind (expression-Within f right ts (omega arith)) λ (rhs, r) p.
                  Within-weaken (loop-Within f m (bin o lhs rhs) r (omega arith))
                    λ (n, r') q. omega arith)
        ]
  loop-Within (suc f) m lhs _ h = returned (omega arith)

  unary-Within :
      {D : Type 0} (f : ℕ) (ts : Tokens D)
      → 5 * length ts + 1 < f
      → Within (Shorter ts) (parse_unary f ts)
  unary-Within zero ts h = absurd (omega arith)
  unary-Within (suc f) (op minus ∷ ts) h =
      Within-bind (unary-Within f ts (omega arith)) λ (a, r) p. returned (omega arith)
  unary-Within (suc f) (op plus ∷ ts) h =
      Within-bind (unary-Within f ts (omega arith)) λ (a, r) p. returned (omega arith)
  unary-Within (suc f) (op bang ∷ ts) h =
      Within-bind (unary-Within f ts (omega arith)) λ (a, r) p. returned (omega arith)
  unary-Within (suc f) ts h = primary-Within f ts (omega arith)

  primary-Within :
      {D : Type 0} (f : ℕ) (ts : Tokens D)
      → 5 * length ts < f
      → Within (Shorter ts) (parse_primary f ts)
  primary-Within zero ts h = absurd (omega arith)
  primary-Within (suc f) [] h = threw
  primary-Within (suc f) (num v ∷ ts) h = returned (omega arith)
  primary-Within (suc f) (str v ∷ ts) h = returned (omega arith)
  primary-Within (suc f) (bool v ∷ ts) h = returned (omega arith)
  primary-Within (suc f) (nil ∷ ts) h = returned (omega arith)
  primary-Within (suc f) (lparen ∷ ts) h =
      Within-bind (expression-Within f 0 ts (omega arith)) λ (a, r) p.
        Within-bind (expect_rparen-Within expected_paren r) λ r' q. returned (omega arith)
  primary-Within (suc f) (ident name ∷ lparen ∷ rparen ∷ ts) h = returned (omega arith)
  primary-Within (suc f) (ident name ∷ lparen ∷ ts) h =
      Within-bind (args-Within f ts (omega arith)) λ (a, r) p.
        Within-bind (expect_rparen-Within expected_paren_after_args r)
          λ r' q. returned (omega arith)
  primary-Within (suc f) (ident name ∷ ts) h = returned (omega arith)
  primary-Within (suc f) _ h = threw

  args-Within :
      {D : Type 0} (f : ℕ) (ts : Tokens D)
      → 5 * length ts + 3 < f
      → Within (Shorter ts) (parse_args f ts)
  args-Within zero ts h = absurd (omega arith)
  args-Within (suc f) ts h =
      Within-bind (expression-Within f 0 ts (omega arith))
        λ (a, r) p. Within-weaken (more-Within f a r (omega arith)) λ (as', r') q. omega arith

  more-Within :
      {D : Type 0} (f : ℕ) (a : Node D) (ts : Tokens D)
      → 5 * length ts < f
      → Within (NotLonger ts) (more_args f a ts)
  more-Within zero a ts h = absurd (omega arith)
  more-Within (suc f) a (comma ∷ ts) h =
      Within-bind (args-Within f ts (omega arith)) λ (as', r) p. returned (omega arith)
  more-Within (suc f) a _ h = returned (omega arith)

module _ {D : Type 0} where
  finish-Within : (n : Node D) (ts : Tokens D) → Within (λ _. Unit {0}) (finish n ts)
  unfolding finish
  finish-Within n [] = returned tt
  finish-Within n (eof ∷ ts) = returned tt
  finish-Within n _ = threw

  -- On every token list the parser returns a tree or throws: its fuel is never used up.
  pub parse_total : (ts : Tokens D) → parse ts ≢ out_of_fuel
  unfolding parse
  parse_total ts = Within-ne-out_of_fuel (
      Within-bind (expression-Within (5 * length ts + 5) 0 ts (omega arith))
        λ (n, r) p. finish-Within n r)
