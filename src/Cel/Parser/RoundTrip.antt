-- ===== src/Cel/Parser/RoundTrip.antt =====
-- What the printer prints, the parser of services/api/src/common/utils/cel-evaluator.ts reads back.
use brsr_v.Prelude.{
  ℕ, zero, suc, ◌+◌, ◌*◌, ◌<◌, ◌≡◌, refl, sym, ap, [], ◌∷◌, ◌++◌, append_assoc, arith, length,
  length-append,
}
use brsr_v.Cel.Syntax.{
  Node, Args, num, str, rparen, bool, nil, eof, ref, unary, bin, cond, call, no_args, arg,
}
use brsr_v.Cel.Outcome.{ok}
use brsr_v.Cel.Parser.{Tokens, parse_expression, parse_loop, parse_unary, more_args, parse}
use brsr_v.Cel.Parser.Printer.{print, print_more}
use brsr_v.Cel.Parser.Steps.{
  IsUnary, IsBinary, expression-rule, unary-rule, paren-rule, stop-rule, IsStop, literal-rule,
  ref-rule, empty_call-rule, last_arg-rule, binary-rule, ternary-rule, call-rule, args-rule,
  comma-rule,
}

-- The operators stand where the grammar has them.
abbrev mutual
  pub IsTree : {D : Type 0} → Node D → Type 0
  IsTree (unary o a) = IsUnary o × IsTree a
  IsTree (bin o l r) = IsBinary o × IsTree l × IsTree r
  IsTree (cond c t e) = IsTree c × IsTree t × IsTree e
  IsTree (call name as') = AreTrees as'
  IsTree _ = Unit

  pub AreTrees : {D : Type 0} → Args D → Type 0
  AreTrees no_args = Unit
  AreTrees (arg a as') = IsTree a × AreTrees as'

module _ {D : Type 0} where
  -- for `omega`, on token lists
  pub length-tokens : (xs ys : Tokens D) → length (xs ++ ys) ≡ length xs + length ys
  length-tokens = length-append

  -- the loop stops at a token that continues no expression
  pub loop-rparen :
      (f m : ℕ) (n : Node D) (ts : Tokens D)
      → parse_loop (suc f) m n (rparen ∷ ts) ≡ ok (n, rparen ∷ ts)
  unfolding parse_expression
  loop-rparen f m n ts = refl

pub ruleset lengths = (arith, length-tokens)

-- Fuel above a bound of at least 8 is eight calls and what is left.
spend {ℓ} :
    {n : ℕ} (P : ℕ → Type ℓ)
    → ((g : ℕ) → n < g → P (suc (suc (suc (suc (suc (suc (suc (suc g)))))))))
    → (f : ℕ) → n + 8 < f
    → P f
spend P k (suc (suc (suc (suc (suc (suc (suc (suc g)))))))) h = k g (omega arith)
spend P k _ h = absurd (omega arith)

-- A printed tree is read back by `parse_unary`, with what follows left over.
abbrev pub Reads : {D : Type 0} → Node D → Type 0
Reads {D} n =
    (ts : Tokens D) (f : ℕ)
    → 5 * length (print n) + 8 < f
    → parse_unary f (print n ++ ts) ≡ ok (n, ts)

-- So are the arguments of a call behind the first, by `more_args`.
abbrev ReadMore : {D : Type 0} → Args D → Type 0
ReadMore {D} as' =
    (a : Node D) (ts : Tokens D) (f : ℕ)
    → 5 * length (print_more as') + 8 < f
    → more_args f a (print_more as' ++ ts) ≡ ok (arg a as', rparen ∷ ts)

module _ {D : Type 0} where
  -- A printed tree before a token that ends an expression is the whole expression.
  pub expression-Reads :
      (n : Node D) (m : ℕ) (ts : Tokens D) (f : ℕ)
      → Reads n
      → IsStop ts
      → 5 * length (print n) + 9 < f
      → parse_expression f m (print n ++ ts) ≡ ok (n, ts)
  expression-Reads n m ts zero reads stop lt = absurd (omega arith)
  expression-Reads n m ts (suc zero) reads stop lt = absurd (omega arith)
  expression-Reads n m ts (suc (suc f)) reads stop lt =
      expression-rule _ _ _ (reads ts (suc f) (omega arith)) (stop-rule f m n ts stop)

  print_more-IsStop : (as' : Args D) (ts : Tokens D) → IsStop (print_more as' ++ ts)
  unfolding print
  print_more-IsStop no_args ts = tt
  print_more-IsStop (arg a as') ts = tt

mutual
  unfolding print

  pub tree-Reads : {D : Type 0} (n : Node D) → IsTree n → Reads n
  tree-Reads (num v) h ts = spend {n = 5} _ λ g lt. literal-rule _ (num v) ts tt
  tree-Reads (str v) h ts = spend {n = 5} _ λ g lt. literal-rule _ (str v) ts tt
  tree-Reads (bool v) h ts = spend {n = 5} _ λ g lt. literal-rule _ (bool v) ts tt
  tree-Reads nil h ts = spend {n = 5} _ λ g lt. literal-rule _ nil ts tt
  tree-Reads (ref name) h ts = spend {n = 15} _ λ g lt. ref-rule _ name ts
  tree-Reads (unary o a) h ts = spend _ λ g lt. simp append_assoc (
      paren-rule _ _ (
        expression-rule _ _ _ (unary-rule _ o _ h.0 (tree-Reads a h.1 _ _ (omega lengths)))
          (stop-rule _ _ _ _ tt)))
  tree-Reads (bin o l r) h ts = spend _ λ g lt. simp append_assoc (
      paren-rule _ _ (
        expression-rule _ _ _ (tree-Reads l h.1 _ _ (omega lengths)) (
          binary-rule _ _ o _ _ h.0 (omega arith)
            (expression-Reads r _ _ _ (tree-Reads r h.2) tt (omega lengths))
            (stop-rule _ _ _ _ tt))))
  tree-Reads (cond c t e) h ts = spend _ λ g lt. simp append_assoc (
      paren-rule _ _ (
        expression-rule _ _ _ (tree-Reads c h.0 _ _ (omega lengths)) (
          ternary-rule _ _ _ _ (omega arith)
            (expression-Reads t _ _ _ (tree-Reads t h.1) tt (omega lengths))
            (expression-Reads e _ _ _ (tree-Reads e h.2) tt (omega lengths))
            (stop-rule _ _ _ _ tt))))
  tree-Reads (call name no_args) h ts = spend {n = 15} _ λ g lt. empty_call-rule _ name ts
  tree-Reads (call name (arg a as')) h ts = spend _ λ g lt. simp append_assoc (
      call-rule _ name a _ (
        args-rule _ _
          (expression-Reads a _ _ _ (tree-Reads a h.0) (print_more-IsStop as' ts) (omega lengths))
          (more-Reads as' h.1 a ts _ (omega lengths))))

  more-Reads : {D : Type 0} (as' : Args D) → AreTrees as' → ReadMore as'
  more-Reads no_args h a ts = spend {n = 5} _ λ g lt. last_arg-rule _ a ts
  more-Reads (arg b as') h a ts = spend _ λ g lt. simp append_assoc (
      comma-rule _ a _ (
        args-rule _ _
          (expression-Reads b _ _ _ (tree-Reads b h.0) (print_more-IsStop as' ts) (omega lengths))
          (more-Reads as' h.1 b ts _ (omega lengths))))

module _ {D : Type 0} where
  -- Parsing the print of a tree, closed by the end token, gives the tree.
  pub parse-print : (n : Node D) → IsTree n → parse (print n ++ eof ∷ []) ≡ ok n
  unfolding parse
  parse-print n h = rw (
      expression-Reads n 0 (eof ∷ []) (5 * length (print n ++ eof ∷ []) + 5) (tree-Reads n h) tt
        (omega lengths))
