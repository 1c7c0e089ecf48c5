-- ===== src/Prelude/Lists.antt =====
-- Lists measured by native numbers, under the library's names, and predicates on lists.
use Prim.Native.Nat.{ℕ, zero, suc, ◌+◌}
use Prim.Native.Char.{code}
use Prim.Native.String.{String}
use mathlib.Core.Path.{◌≡◌}
use mathlib.Core.List.{List, [], ◌∷◌, ◌++◌}
use native.Mathlib.Omega.{arith}

module _ {ℓ} {A : Type ℓ} where
  abbrev pub length : List A → ℕ
  length [] = 0
  length (x ∷ xs) = suc (length xs)

  abbrev pub take : ℕ → List A → List A
  take zero xs = []
  take (suc n) [] = []
  take (suc n) (x ∷ xs) = x ∷ take n xs

  pub length-append : (xs ys : List A) → length (xs ++ ys) ≡ length xs + length ys
  length-append [] ys = omega arith
  length-append (x ∷ xs) ys = omega (arith, length-append xs ys)

-- The code units of an ASCII literal. `String` has its own `[]` and `∷`.
abbrev pub codes : String → List ℕ
codes String.[] = []
codes (String.◌∷◌ c s) = code c ∷ codes s

-- `P` holds at every place of the list.
abbrev pub All {ℓ κ} : {A : Type ℓ} → (A → Type κ) → List A → Type κ
All P [] = Unit
All P (x ∷ xs) = P x × All P xs

pub All-map {ℓ κ} :
    {A : Type ℓ} {P Q : A → Type κ} (xs : List A) → ((x : A) → P x → Q x) → All P xs → All Q xs
All-map [] f h = tt
All-map (x ∷ xs) f (h, hs) = (f x h, All-map xs f hs)

-- `P` holds at some place of the list.
pub data Somewhere {ℓ κ} {A : Type ℓ} (P : A → Type κ) : List A → Type (ℓ ⊔ κ) where
  here : (a : A) (as' : List A) → P a → Somewhere P (a ∷ as')
  there : (a : A) (as' : List A) → Somewhere P as' → Somewhere P (a ∷ as')
