-- ===== src/Audit/Merkle.antt =====
-- `merkleRoot`, the anchor of a day's audit log (services/api/src/audit/audit.service.ts). The hash
-- of the platform's crypto module is a parameter.
pub mod Binding
mod Tests
use brsr_v.Prelude.{ℕ, zero, suc, Option, none, some, List, [], ◌∷◌, ◌++◌, Text, length}

module _ (sha256 : Text → Text) where
  -- one round of the loop: neighbours are hashed together, a last one alone with itself
  unfoldable pub next_level : List Text → List Text
  next_level [] = []
  next_level (l ∷ []) = sha256 (l ++ l) ∷ []
  next_level (l ∷ r ∷ level) = sha256 (l ++ r) ∷ next_level level

  -- The loop, with a unit of fuel for each round; none when it runs out.
  unfoldable pub climb : ℕ → List Text → Option Text
  unfolding next_level
  climb f [] = some (sha256 [])
  climb f (root ∷ []) = some root
  climb zero (l ∷ r ∷ level) = none
  climb (suc f) (l ∷ r ∷ level) = climb f (next_level (l ∷ r ∷ level))

  unfoldable pub merkle_root : List Text → Option Text
  unfolding climb
  merkle_root leaves = climb (length leaves) leaves
