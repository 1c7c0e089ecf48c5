-- ===== src/Cel/Parser.antt =====
-- The recursive-descent parser. `pos` is the list of tokens that are left: `peek` past the end is
-- `eof`, and `take` past the end gives `undefined`.
pub mod Total
pub mod Precedence
pub mod RoundTrip
pub mod Steps
pub mod Printer
use brsr_v.Prelude.{
  ℕ, zero, suc, ◌+◌, ◌*◌, none, some, List, [], ◌∷◌, leb, ltb, if◌then◌else◌, length,
}
use brsr_v.Cel.Syntax.{
  Token, Node, Args, plus, minus, bang, num, str, ident, op, lparen, rparen, comma, qmark, colon,
  bool, nil, eof, ref, unary, bin, cond, call, no_args, arg, binary_bp,
}
use brsr_v.Cel.Outcome.{
  CelError, Outcome, ok, fail, out_of_fuel, trailing_input, expected_colon, expected_paren,
  expected_paren_after_args, unexpected_token, no_token, ◌>>=◌,
}

abbrev pub Tokens : Type 0 → Type 0
Tokens D = List (Token D)

abbrev pub Parsed : Type 0 → Type 0 → Type 0
Parsed D A = Outcome (A × Tokens D)

module _ {D : Type 0} where
  -- `if (this.peek().t !== …) throw …; this.take();`
  unfoldable pub expect_colon : Tokens D → Outcome (Tokens D)
  expect_colon (colon ∷ ts) = ok ts
  expect_colon _ = fail expected_colon

  unfoldable pub expect_rparen : CelError → Tokens D → Outcome (Tokens D)
  expect_rparen e (rparen ∷ ts) = ok ts
  expect_rparen e _ = fail e

-- Each call costs a unit of fuel. `parse_loop` is the `while (true)` of `parseExpression`, and
-- `parse_args` the argument loop of a call.
unfoldable mutual
  unfolding expect_colon expect_rparen binary_bp

  pub parse_expression : {D : Type 0} → ℕ → ℕ → Tokens D → Parsed D (Node D)
  parse_expression zero min_bp ts = out_of_fuel
  parse_expression (suc f) min_bp ts =
      parse_unary f ts >>= λ (lhs, rest). parse_loop f min_bp lhs rest

  pub parse_loop : {D : Type 0} → ℕ → ℕ → Node D → Tokens D → Parsed D (Node D)
  parse_loop zero min_bp lhs ts = out_of_fuel
  parse_loop (suc f) min_bp lhs (qmark ∷ ts) =
      let ternary = parse_expression f 0 ts >>= λ (then_node, r₁). expect_colon r₁ >>= λ r₂.
      parse_expression f 1 r₂ >>= λ (else_node, r₃).
      parse_loop f min_bp (cond lhs then_node else_node) r₃ in
      if leb min_bp 1 then ternary else ok (lhs, qmark ∷ ts)
  parse_loop (suc f) min_bp lhs (op o ∷ ts) = elim (binary_bp o) [
    | none ↦ ok (lhs, op o ∷ ts)
    | some (left, right) ↦
        let binary =
          parse_expression f right ts >>= λ (rhs, r). parse_loop f min_bp (bin o lhs rhs) r in
        if ltb left min_bp then ok (lhs, op o ∷ ts) else binary
  ]
  parse_loop (suc f) min_bp lhs ts = ok (lhs, ts)

  pub parse_unary : {D : Type 0} → ℕ → Tokens D → Parsed D (Node D)
  parse_unary zero ts = out_of_fuel
  parse_unary (suc f) (op minus ∷ ts) = parse_unary f ts >>= λ (a, r). ok (unary minus a, r)
  parse_unary (suc f) (op plus ∷ ts) = parse_unary f ts >>= λ (a, r). ok (unary plus a, r)
  parse_unary (suc f) (op bang ∷ ts) = parse_unary f ts >>= λ (a, r). ok (unary bang a, r)
  parse_unary (suc f) ts = parse_primary f ts

  pub parse_primary : {D : Type 0} → ℕ → Tokens D → Parsed D (Node D)
  parse_primary zero ts = out_of_fuel
  parse_primary (suc f) [] = fail no_token
  parse_primary (suc f) (num v ∷ ts) = ok (num v, ts)
  parse_primary (suc f) (str v ∷ ts) = ok (str v, ts)
  parse_primary (suc f) (bool v ∷ ts) = ok (bool v, ts)
  parse_primary (suc f) (nil ∷ ts) = ok (nil, ts)
  parse_primary (suc f) (lparen ∷ ts) = parse_expression f 0 ts >>= λ (inner, r).
      expect_rparen expected_paren r >>= λ r'. ok (inner, r')
  parse_primary (suc f) (ident name ∷ lparen ∷ rparen ∷ ts) = ok (call name no_args, ts)
  parse_primary (suc f) (ident name ∷ lparen ∷ ts) = parse_args f ts >>= λ (args, r).
      expect_rparen expected_paren_after_args r >>= λ r'. ok (call name args, r')
  parse_primary (suc f) (ident name ∷ ts) = ok (ref name, ts)
  parse_primary (suc f) _ = fail unexpected_token

  pub parse_args : {D : Type 0} → ℕ → Tokens D → Parsed D (Args D)
  parse_args zero ts = out_of_fuel
  parse_args (suc f) ts = parse_expression f 0 ts >>= λ (a, r). more_args f a r

  pub more_args : {D : Type 0} → ℕ → Node D → Tokens D → Parsed D (Args D)
  more_args zero a ts = out_of_fuel
  more_args (suc f) a (comma ∷ ts) = parse_args f ts >>= λ (args, r). ok (arg a args, r)
  more_args (suc f) a ts = ok (arg a no_args, ts)

module _ {D : Type 0} where
  unfoldable pub finish : Node D → Tokens D → Outcome (Node D)
  finish n [] = ok n
  finish n (eof ∷ ts) = ok n
  finish n _ = fail trailing_input

  -- `parse`, with fuel for the deepest run over so many tokens
  unfoldable pub parse : Tokens D → Outcome (Node D)
  unfolding finish parse_expression
  parse ts = parse_expression (5 * length ts + 5) 0 ts >>= λ (n, r). finish n r
