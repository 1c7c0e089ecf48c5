-- ===== src/Cel/Parser/Printer.antt =====
-- A printer for syntax trees, as the specification of the parser of
-- services/api/src/common/utils/cel-evaluator.ts: every composed tree is put in parentheses.
use brsr_v.Prelude.{[], ◌∷◌, ◌++◌}
use brsr_v.Cel.Syntax.{
  Node, Args, num, str, ident, op, lparen, rparen, comma, qmark, colon, bool, nil, ref, unary, bin,
  cond, call, no_args, arg,
}
use brsr_v.Cel.Parser.{Tokens}

unfoldable mutual
  pub print : {D : Type 0} → Node D → Tokens D
  print (num v) = num v ∷ []
  print (str v) = str v ∷ []
  print (bool v) = bool v ∷ []
  print nil = nil ∷ []
  print (ref name) = lparen ∷ ident name ∷ rparen ∷ []
  print (unary o a) = lparen ∷ op o ∷ (print a ++ rparen ∷ [])
  print (bin o l r) = lparen ∷ (print l ++ op o ∷ (print r ++ rparen ∷ []))
  print (cond c t e) = lparen ∷ (print c ++ qmark ∷ (print t ++ colon ∷ (print e ++ rparen ∷ [])))
  print (call name no_args) = ident name ∷ lparen ∷ rparen ∷ []
  print (call name (arg a as')) = ident name ∷ lparen ∷ (print a ++ print_more as')

  -- the arguments behind the first, and the closing parenthesis
  pub print_more : {D : Type 0} → Args D → Tokens D
  print_more no_args = rparen ∷ []
  print_more (arg a as') = comma ∷ (print a ++ print_more as')
