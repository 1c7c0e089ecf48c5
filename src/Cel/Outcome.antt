-- ===== src/Cel/Outcome.antt =====
-- What a run of the evaluator ends in, and postconditions on it.
use mathlib.Core.Path.{subst}
use brsr_v.Prelude.{◌≡◌, ◌≢◌, refl, Bool, true, false, Text, if◌then◌else◌}
use brsr_v.Cel.Syntax.{Op}

-- The `CelError`s by their messages, and the two errors of other classes: `bad_number` is the
-- one that `new Decimal` throws, `no_token` the TypeError of reading past the last token.
pub data CelError : Type 0 where
  unterminated_string unexpected_character bad_number : CelError
  trailing_input expected_colon expected_paren expected_paren_after_args : CelError
  unexpected_token no_token : CelError
  unary_on_non_number unknown_unary : CelError
  unresolved : Text → CelError
  comparison_requires_numbers : Op → CelError
  arithmetic_on_non_numeric : Op → CelError
  unit_mismatch : Op → CelError
  unknown_op : Op → CelError
  division_by_zero modulo_by_zero : CelError
  function_not_allowed : Text → CelError
  requires_numbers requires_args call_unit_mismatch : CelError
  ratio_arity ratio_needs_numbers ratio_by_zero : CelError
  abs_needs_number round_needs_number round_places use_bare_reference : CelError

-- `fail e` is a thrown error; `out_of_fuel` has no counterpart in the program.
pub data Outcome {ℓ} (A : Type ℓ) : Type ℓ where
  ok : A → Outcome A
  fail : CelError → Outcome A
  out_of_fuel : Outcome A

infixl 5 ◌>>=◌ ◌>>◌
abbrev pub ◌>>=◌ {ℓ κ} : {A : Type ℓ} → {B : Type κ} → Outcome A → (A → Outcome B) → Outcome B
fail e >>= k = fail e
out_of_fuel >>= k = out_of_fuel
ok a >>= k = k a

abbrev pub ◌>>◌ {κ} : {B : Type κ} → Outcome (Unit {0}) → Outcome B → Outcome B
first >> second = first >>= λ _. second

abbrev pub check : Bool → CelError → Outcome (Unit {0})
check true e = ok tt
check false e = fail e

-- A chain that returns passed through a value.
pub returned-inv :
    {A B : Type 0} (first : Outcome A) (next : A → Outcome B) {r : B}
    → (first >>= next) ≡ ok r
    → (x : A) × (first ≡ ok x) × (next x ≡ ok r)
returned-inv out_of_fuel next e = cc
returned-inv (fail x) next e = cc
returned-inv (ok x) next e = (x, refl, e)

-- The run kept within its fuel, and `P` holds of its value if it has one.
pub data Within {ℓ κ} {A : Type ℓ} (P : A → Type κ) : Outcome A → Type (ℓ ⊔ κ) where
  returned : {a : A} → P a → Within P (ok a)
  threw : {e : CelError} → Within P (fail e)

module _ {ℓ κ} {A : Type ℓ} {P : A → Type κ} where
  pub Within-ok : {r : Outcome A} {a : A} → Within P r → r ≡ ok a → P a
  Within-ok (returned h) e = subst P (cc) h
  Within-ok threw e = cc

  pub Within-ne-out_of_fuel : {r : Outcome A} → Within P r → r ≢ out_of_fuel
  Within-ne-out_of_fuel (returned h) = cc
  Within-ne-out_of_fuel threw = cc

  pub Within-weaken {κ'} :
      {Q : A → Type κ'} {r : Outcome A} → Within P r → ((a : A) → P a → Q a) → Within Q r
  Within-weaken (returned {a} h) k = returned (k a h)
  Within-weaken threw k = threw

  pub Within-if :
      (b : Bool) {x y : Outcome A}
      → (b ≡ true → Within P x)
      → (b ≡ false → Within P y)
      → Within P (if b then x else y)
  Within-if true hx hy = hx refl
  Within-if false hx hy = hy refl

  pub Within-bind {ℓ' κ'} :
      {B : Type ℓ'} {Q : B → Type κ'} {r : Outcome A} {f : A → Outcome B}
      → Within P r
      → ((a : A) → P a → Within Q (f a))
      → Within Q (r >>= f)
  Within-bind (returned {a} h) k = k a h
  Within-bind threw k = threw
