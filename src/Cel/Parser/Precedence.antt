-- ===== src/Cel/Parser/Precedence.antt =====
-- How the parser of services/api/src/common/utils/cel-evaluator.ts groups operators that stand
-- next to one another without parentheses.
use brsr_v.Prelude.{
  ℕ, suc, ◌+◌, ◌*◌, ◌≤◌, ◌<◌, ◌≡◌, refl, inl, inr, Bool-cases, [], ◌∷◌, ◌++◌, arith, ltb,
  if◌then◌else◌, length, ltb→lt,
}
use brsr_v.Cel.Syntax.{
  Op, Node, plus, minus, times, slash, percent, lt, gt, bang, eq, ne, le, ge, and, or, op, eof, bin,
  binary_bp,
}
use brsr_v.Cel.Outcome.{ok}
use brsr_v.Cel.Parser.{Tokens, parse_expression, parse}
use brsr_v.Cel.Parser.Printer.{print}
use brsr_v.Cel.Parser.Steps.{
  IsBinary, left_bp, right_bp, expression-rule, stop-rule, binary-rule, lower-rule,
}
use brsr_v.Cel.Parser.RoundTrip.{IsTree, tree-Reads, expression-Reads, lengths}

-- The usual precedence of the operators, the loosest first.
abbrev pub level : Op → ℕ
level or = 1
level and = 2
level eq = 3
level ne = 3
level lt = 4
level le = 4
level gt = 4
level ge = 4
level plus = 5
level minus = 5
level times = 6
level slash = 6
level percent = 6
level bang = 0

left_bp-level : (o : Op) → left_bp o ≡ 2 * level o
unfolding binary_bp
left_bp-level or = refl
left_bp-level _ = refl

right_bp-level : (o : Op) → IsBinary o → right_bp o ≡ 2 * level o + 1
unfolding binary_bp
right_bp-level bang h = absurd h
right_bp-level _ h = refl

ruleset levels = (lengths, left_bp-level, right_bp-level)

module _ {D : Type 0} (o o' : Op) (a b c : Node D) where
  abbrev pub two_operators : Tokens D
  two_operators = print a ++ op o ∷ (print b ++ op o' ∷ (print c ++ eof ∷ []))

  -- The two operators are binary and the operands are trees of the grammar.
  pub record AreOperands : Type 0 where
    pub first : IsBinary o
    pub second : IsBinary o'
    pub left : IsTree a
    pub middle : IsTree b
    pub right : IsTree c

  groups_right :
      (f : ℕ)
      → AreOperands
      → 5 * length two_operators + 4 < f
      → level o < level o'
      → parse_expression f 0 two_operators ≡ ok (bin o a (bin o' b c), eof ∷ [])
  groups_right (suc (suc (suc (suc (suc f))))) h big below =
      expression-rule _ _ _ (tree-Reads a h.left _ _ (omega lengths)) (
        binary-rule _ _ o _ _ h.first (omega arith)
          (expression-rule _ _ _ (tree-Reads b h.middle _ _ (omega lengths)) (
            binary-rule _ _ o' _ _ h.second (omega (levels, right_bp-level o h.first))
              (expression-Reads c _ _ _ (tree-Reads c h.right) tt (omega lengths))
              (stop-rule _ _ _ _ tt)))
          (stop-rule _ _ _ _ tt))
  groups_right _ h big below = absurd (omega arith)

  groups_left :
      (f : ℕ)
      → AreOperands
      → 5 * length two_operators + 4 < f
      → level o' ≤ level o
      → parse_expression f 0 two_operators ≡ ok (bin o' (bin o a b) c, eof ∷ [])
  groups_left (suc (suc (suc (suc f)))) h big below =
      expression-rule _ _ _ (tree-Reads a h.left _ _ (omega lengths)) (
        binary-rule _ _ o _ _ h.first (omega arith)
          (expression-rule _ _ _ (tree-Reads b h.middle _ _ (omega lengths))
            (lower-rule _ _ o' _ _ h.second (omega (levels, right_bp-level o h.first))))
          (binary-rule _ _ o' _ _ h.second (omega arith)
            (expression-Reads c _ _ _ (tree-Reads c h.right) tt (omega lengths))
            (stop-rule _ _ _ _ tt)))
  groups_left _ h big below = absurd (omega arith)

  -- Of two binary operators the one of the higher level is applied first; at one level the left
  -- one is.
  pub parse-two_operators :
      AreOperands
      → parse two_operators
        ≡ ok (if ltb (level o) (level o') then bin o a (bin o' b c) else bin o' (bin o a b) c)
  unfolding parse
  parse-two_operators h = elim (Bool-cases (ltb (level o) (level o'))) [
    | inl p ↦ rw p (rw (groups_right (5 * length two_operators + 5) h (omega arith) (ltb→lt _ _ p)))
    | inr p ↦ rw p (rw (groups_left (5 * length two_operators + 5) h (omega arith) (ground arith)))
  ]
