-- ===== src/Audit/Merkle/Tests.antt =====
-- Roots of short lists under a hash that keeps one code unit, and the theorems at some.
use brsr_v.Prelude.{ℕ, ◌+◌, ◌*◌, ◌≡◌, refl, ◌⊎◌, some, List, [], ◌∷◌, Text}
use brsr_v.Audit.Merkle.{merkle_root}
use brsr_v.Audit.Merkle.Binding.{Collision, merkle_root-binds}

-- the sum of the code units, with positions as weights
abbrev weigh : Text → ℕ
weigh [] = 1
weigh (c ∷ s) = c + 3 * weigh s

abbrev toy_hash : Text → Text
toy_hash s = weigh s ∷ []

abbrev leaves : List Text
leaves = (1 ∷ []) ∷ (2 ∷ []) ∷ (3 ∷ []) ∷ []

root_test : merkle_root toy_hash leaves ≡ some (88 ∷ [])
unfolding merkle_root
root_test = refl

abbrev colliding : List Text
colliding = (4 ∷ []) ∷ (1 ∷ []) ∷ (3 ∷ []) ∷ []

same_root : merkle_root toy_hash leaves ≡ merkle_root toy_hash colliding
unfolding merkle_root
same_root = refl

merkle_root-binds_example : (leaves ≡ colliding) ⊎ Collision toy_hash
merkle_root-binds_example =
    merkle_root-binds toy_hash 1 (λ s. refl) leaves colliding refl (refl, (refl, (refl, tt)))
      (refl, (refl, (refl, tt))) same_root
