-- ===== src/Cel/Parser/Steps.antt =====
-- What the calls of the parser do at the first token, for the proofs about printed trees.
use brsr_v.Prelude.{
  ℕ, suc, ◌<◌, ◌≡◌, refl, false, true, none, some, ◌∷◌, ◌++◌, arith, ltb, leb, if◌then◌else◌, Text,
  ◌≤◌, ◌∙◌, lt→ltb,
}
use brsr_v.Cel.Syntax.{
  Op, Node, Args, plus, minus, bang, num, str, ident, op, lparen, rparen, comma, qmark, colon, bool,
  nil, eof, ref, unary, cond, call, bin, binary_bp, no_args, arg,
}
use brsr_v.Cel.Outcome.{ok, expected_paren_after_args, ◌>>=◌}
use brsr_v.Cel.Parser.{
  Tokens, Parsed, parse_expression, parse_loop, parse_unary, parse_primary, parse_args,
  expect_rparen, expect_colon, more_args,
}
use brsr_v.Cel.Parser.Printer.{print}

abbrev pub IsUnary : Op → Type 0
IsUnary plus = Unit
IsUnary minus = Unit
IsUnary bang = Unit
IsUnary _ = ⊥

abbrev pub IsBinary : Op → Type 0
IsBinary bang = ⊥
IsBinary _ = Unit

abbrev pub IsLiteral : {D : Type 0} → Node D → Type 0
IsLiteral (num v) = Unit
IsLiteral (str v) = Unit
IsLiteral (bool v) = Unit
IsLiteral nil = Unit
IsLiteral _ = ⊥

-- the binding powers as numbers; 0 where there are none
abbrev pub left_bp : Op → ℕ
unfolding binary_bp
left_bp o = elim (binary_bp o) [ none ↦ 0 | some (l, r) ↦ l ]

abbrev pub right_bp : Op → ℕ
unfolding binary_bp
right_bp o = elim (binary_bp o) [ none ↦ 0 | some (l, r) ↦ r ]

leb_not_lt : (a b : ℕ) → b ≤ a → ltb a b ≡ false
leb_not_lt a b h = ground arith

le→leb : (a b : ℕ) → a ≤ b → leb a b ≡ true
le→leb a b h = ground arith

module _ {D : Type 0} where
  -- a printed tree does not begin with an operator
  pub unary-print :
      (f : ℕ) (n : Node D) (ts : Tokens D)
      → parse_unary (suc f) (print n ++ ts) ≡ parse_primary f (print n ++ ts)
  unfolding print parse_expression
  unary-print f (call name no_args) ts = refl
  unary-print f (call name (arg a as')) ts = refl
  unary-print f (num v) ts = refl
  unary-print f _ ts = refl

  -- nor with a closing parenthesis
  pub primary-call :
      (f : ℕ) (name : Text) (n : Node D) (ts : Tokens D)
      → parse_primary (suc f) (ident name ∷ lparen ∷ (print n ++ ts)) ≡ (
          parse_args f (print n ++ ts) >>= λ (args, r).
          expect_rparen expected_paren_after_args r >>= λ r'. ok (call name args, r'))
  unfolding print parse_expression
  primary-call f name (call name' no_args) ts = refl
  primary-call f name (call name' (arg a as')) ts = refl
  primary-call f name (num v) ts = refl
  primary-call f name _ ts = refl

  unary-ident :
      (f : ℕ) (name : Text) (ts : Tokens D)
      → parse_unary (suc f) (ident name ∷ ts) ≡ parse_primary f (ident name ∷ ts)
  unfolding parse_expression
  unary-ident f name ts = refl

  pub unary-op :
      (f : ℕ) (o : Op) (ts : Tokens D)
      → IsUnary o
      → parse_unary (suc f) (op o ∷ ts) ≡ (parse_unary f ts >>= λ (a, r). ok (unary o a, r))
  unfolding parse_expression
  unary-op f plus ts h = refl
  unary-op f minus ts h = refl
  unary-op f bang ts h = refl
  unary-op f _ ts h = absurd h

  pub loop-op :
      (f m : ℕ) (lhs : Node D) (o : Op) (ts : Tokens D)
      → IsBinary o
      → parse_loop (suc f) m lhs (op o ∷ ts) ≡ (
          if ltb (left_bp o) m
          then ok (lhs, op o ∷ ts)
          else (parse_expression f (right_bp o) ts >>= λ (rhs, r).
              parse_loop f m (bin o lhs rhs) r))
  unfolding parse_expression
  loop-op f m lhs bang ts h = absurd h
  loop-op f m lhs _ ts h = refl

  -- Rules for runs that succeed, one for each way through the grammar.
  pub expression-rule :
      (f m : ℕ) (ts : Tokens D) {l : Node D} {r : Tokens D} {x : Parsed D (Node D)}
      → parse_unary f ts ≡ ok (l, r)
      → parse_loop f m l r ≡ x
      → parse_expression (suc f) m ts ≡ x
  unfolding parse_expression
  expression-rule f m ts p q = rw p q

  -- a token at which `parse_loop` stops
  abbrev pub IsStop : Tokens D → Type 0
  IsStop (rparen ∷ ts) = Unit
  IsStop (colon ∷ ts) = Unit
  IsStop (comma ∷ ts) = Unit
  IsStop (eof ∷ ts) = Unit
  IsStop _ = ⊥

  pub stop-rule :
      (f m : ℕ) (n : Node D) (ts : Tokens D) → IsStop ts → parse_loop (suc f) m n ts ≡ ok (n, ts)
  unfolding parse_expression
  stop-rule f m n (rparen ∷ ts) h = refl
  stop-rule f m n (colon ∷ ts) h = refl
  stop-rule f m n (comma ∷ ts) h = refl
  stop-rule f m n (eof ∷ ts) h = refl
  stop-rule f m n _ h = absurd h

  pub paren-rule :
      (f : ℕ) (ts : Tokens D) {r : Tokens D} {n : Node D}
      → parse_expression f 0 ts ≡ ok (n, rparen ∷ r)
      → parse_unary (suc (suc f)) (lparen ∷ ts) ≡ ok (n, r)
  unfolding parse_expression expect_rparen
  paren-rule f ts p = rw p

  pub unary-rule :
      (f : ℕ) (o : Op) (ts : Tokens D) {r : Tokens D} {n : Node D}
      → IsUnary o
      → parse_unary f ts ≡ ok (n, r)
      → parse_unary (suc f) (op o ∷ ts) ≡ ok (unary o n, r)
  unary-rule f o ts h p = rw (unary-op f o ts h) (rw p)

  pub binary-rule :
      (f m : ℕ) (o : Op) (lhs : Node D) (ts : Tokens D) {rhs : Node D} {r : Tokens D}
      {x : Parsed D (Node D)}
      → IsBinary o
      → m ≤ left_bp o
      → parse_expression f (right_bp o) ts ≡ ok (rhs, r)
      → parse_loop f m (bin o lhs rhs) r ≡ x
      → parse_loop (suc f) m lhs (op o ∷ ts) ≡ x
  binary-rule f m o lhs ts h le p q = rw (loop-op f m lhs o ts h) (rw (leb_not_lt _ _ le) (rw p q))

  -- an operator that binds less than the context asks for is left to it
  pub lower-rule :
      (f m : ℕ) (o : Op) (lhs : Node D) (ts : Tokens D)
      → IsBinary o
      → left_bp o < m
      → parse_loop (suc f) m lhs (op o ∷ ts) ≡ ok (lhs, op o ∷ ts)
  lower-rule f m o lhs ts h lt = rw (loop-op f m lhs o ts h) (rw (lt→ltb _ _ lt))

  pub ternary-rule :
      (f m : ℕ) (c : Node D) (ts : Tokens D) {t e : Node D} {r₁ r₂ : Tokens D}
      {x : Parsed D (Node D)}
      → m ≤ 1
      → parse_expression f 0 ts ≡ ok (t, colon ∷ r₁)
      → parse_expression f 1 r₁ ≡ ok (e, r₂)
      → parse_loop f m (cond c t e) r₂ ≡ x
      → parse_loop (suc f) m c (qmark ∷ ts) ≡ x
  unfolding parse_expression expect_colon
  ternary-rule f m c ts le p q s = rw (le→leb m 1 le) (rw p (rw q s))

  pub call-rule :
      (f : ℕ) (name : Text) (n : Node D) (ts : Tokens D) {r : Tokens D} {as' : Args D}
      → parse_args f (print n ++ ts) ≡ ok (as', rparen ∷ r)
      → parse_unary (suc (suc f)) (ident name ∷ lparen ∷ (print n ++ ts)) ≡ ok (call name as', r)
  unfolding expect_rparen
  call-rule f name n ts p = unary-ident (suc f) name _ ∙ rw (primary-call f name n ts) (rw p)

  pub args-rule :
      (f : ℕ) (ts : Tokens D) {n : Node D} {r : Tokens D} {x : Parsed D (Args D)}
      → parse_expression f 0 ts ≡ ok (n, r)
      → more_args f n r ≡ x
      → parse_args (suc f) ts ≡ x
  unfolding parse_expression
  args-rule f ts p q = rw p q

  pub comma-rule :
      (f : ℕ) (n : Node D) (ts : Tokens D) {r : Tokens D} {as' : Args D}
      → parse_args f ts ≡ ok (as', r)
      → more_args (suc f) n (comma ∷ ts) ≡ ok (arg n as', r)
  unfolding parse_expression
  comma-rule f n ts p = rw p

  -- the trees that are one token, a bare name, and a call with no arguments
  pub literal-rule :
      (f : ℕ) (n : Node D) (ts : Tokens D)
      → IsLiteral n
      → parse_unary (suc (suc f)) (print n ++ ts) ≡ ok (n, ts)
  unfolding parse_expression print
  literal-rule f (num v) ts h = refl
  literal-rule f (str v) ts h = refl
  literal-rule f (bool v) ts h = refl
  literal-rule f nil ts h = refl
  literal-rule f _ ts h = absurd h

  pub ref-rule :
      (f : ℕ) (name : Text) (ts : Tokens D)
      → parse_unary (suc (suc (suc (suc (suc f))))) (print (ref name) ++ ts) ≡ ok (ref name, ts)
  unfolding parse_expression expect_rparen print
  ref-rule f name ts = refl

  pub empty_call-rule :
      (f : ℕ) (name : Text) (ts : Tokens D)
      → parse_unary (suc (suc f)) (print (call name no_args) ++ ts) ≡ ok (call name no_args, ts)
  unfolding parse_expression print
  empty_call-rule f name ts = refl

  pub last_arg-rule :
      (f : ℕ) (n : Node D) (ts : Tokens D)
      → more_args (suc f) n (rparen ∷ ts) ≡ ok (arg n no_args, rparen ∷ ts)
  unfolding parse_expression
  last_arg-rule f n ts = refl
