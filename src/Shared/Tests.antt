-- ===== src/Shared/Tests.antt =====
-- The shared package run on small inputs, and its theorems at some.
use brsr_v.Prelude.{
  ℕ, ◌*◌, ◌/◌, ◌≡◌, ◌↔◌, refl, true, false, none, some, List, [], ◌∷◌, ◌++◌, Text, codes,
}
use brsr_v.Shared.Letters.{to_lower_case}
use brsr_v.Shared.Tables.{entry}
use brsr_v.Shared.Units.{
  Numeric, Registry, Registration, register, energy, volume, mass, convert, initial, can_convert,
  register_all, lookup, base_unit, family_of, normalize, converted, failed, unknown_unit,
  convert_found,
}
use brsr_v.Shared.Units.Decision.{Agrees, convert-decided}
use brsr_v.Shared.Ltree.{sanitize_label, is_ancestor, split, append_child}
use brsr_v.Shared.Ltree.Segments.{is_ancestor_iff}
use brsr_v.Shared.Ltree.Children.{IsChild, append_child-IsChild}

-- whole numbers, which keep the digits of a literal and drop its exponent
abbrev numerals : Numeric
numerals = record {
  N = ℕ;
  times = λ a b. a * b;
  over = λ a b. a / b;
  literal = λ digits exponent. digits;
  lower = to_lower_case;
}

unknown_test :
    convert numerals (initial numerals) 5 (codes "parsec") (codes "m")
    ≡ failed (unknown_unit (codes "parsec"))
unfolding convert initial lookup entry normalize convert_found to_lower_case
unknown_test = refl

-- a unit of one's own
abbrev cubic_feet : Registration numerals
cubic_feet = record { symbol = codes "FT3"; family = volume; scales = (λ v. v * 28, λ v. v / 28) }

abbrev with_feet : Registry numerals
with_feet = record {
  units =
      (codes "ft3", record { symbol = codes "FT3"; family = volume }) ∷ (initial numerals).units;
  to_base = (codes "ft3", λ v. v * 28) ∷ (initial numerals).to_base;
  from_base = (codes "ft3", λ v. v / 28) ∷ (initial numerals).from_base;
}

feet_registered : register_all numerals (initial numerals) (cubic_feet ∷ []) ≡ some with_feet
unfolding register_all register to_lower_case
feet_registered = refl

convert-decided_example :
    Agrees numerals
      (can_convert numerals with_feet (codes "ft3") (codes "L"))
      (convert numerals with_feet 5 (codes "ft3") (codes "L"))
convert-decided_example =
    convert-decided numerals (cubic_feet ∷ []) with_feet 5 (codes "ft3") (codes "L") feet_registered

-- a symbol that every object inherits is unknown even after it is registered
inherited_test :
    lookup numerals
      (record with_feet {
        units = (codes "constructor", record { symbol = codes "constructor"; family = mass }) ∷ [];
      })
      (codes "constructor")
    ≡ none
unfolding lookup normalize entry to_lower_case
inherited_test = refl

in_joules : convert numerals (initial numerals) 2 (codes " kWh") (base_unit energy) ≡ converted 72
unfolding convert initial base_unit lookup entry normalize convert_found to_lower_case
in_joules = refl

kwh_family : family_of numerals (initial numerals) (codes " kWh") ≡ some energy
unfolding family_of initial lookup entry normalize to_lower_case
kwh_family = refl

label_test : sanitize_label (codes "--Plant  7 (Pune)") ≡ codes "plant_7_pune"
unfolding sanitize_label
label_test = refl

similar_test : is_ancestor (codes "acme.b1") (codes "acme.b12") ≡ false
unfolding is_ancestor
similar_test = refl

is_ancestor_iff_example :
    (is_ancestor (codes "acme.b1") (codes "acme.b12") ≡ true)
    ↔ ((rest : List Text) × (split (codes "acme.b12") ≡ split (codes "acme.b1") ++ rest))
is_ancestor_iff_example = is_ancestor_iff (codes "acme.b1") (codes "acme.b12")

child : append_child (codes "acme") (codes "Plant 7") ≡ some (codes "acme.plant_7")
unfolding append_child sanitize_label
child = refl

append_child-IsChild_example :
    IsChild (codes "acme") (codes "acme.plant_7") (sanitize_label (codes "Plant 7"))
append_child-IsChild_example =
    append_child-IsChild b'a' (codes "cme") (codes "Plant 7") (codes "acme.plant_7") child

abbrev names : List Text
names = codes "Acme" ∷ codes "--" ∷ codes "Plant 7" ∷ []
