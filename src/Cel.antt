-- ===== src/Cel.antt =====
-- The formula evaluator (services/api/src/common/utils/cel-evaluator.ts): the tokenizer, the
-- Pratt parser and the evaluator of calculation formulas.
pub mod Decimal
pub mod Syntax
pub mod Outcome
pub mod Lexer
pub mod Parser
pub mod Value
pub mod Call
pub mod Eval
pub mod Integers
mod Tests
