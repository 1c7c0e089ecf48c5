-- ===== src/Cel/Decimal.antt =====
-- The part of decimal.js that the evaluator uses. The package is not in the repository, so its
-- numbers are a parameter of every definition that computes with them.
use brsr_v.Prelude.{ℕ, Option, Bool, Text}

-- The results of `a.cmp(b)`: -1, 0, 1, or null when an operand is NaN.
pub data Sign : Type 0 where
  less same more nan : Sign

pub record Decimal : Type 1 where
  pub D : Type 0
  -- `new Decimal(text)`, which throws on a text that is no number
  pub of_text : Text → Option D
  -- `new Decimal(n)` and the operand of `div(n)`
  pub of_nat : ℕ → D
  pub negated : D → D
  pub abs : D → D
  pub plus : D → D → D
  pub minus : D → D → D
  pub times : D → D → D
  pub div : D → D → D
  pub mod_by : D → D → D
  pub cmp : D → D → Sign
  pub eq : D → D → Bool
  pub is_zero : D → Bool
  -- `a.toDecimalPlaces(n.toNumber())`, which throws when n is no valid number of places
  pub to_places : D → Option D → Option D
