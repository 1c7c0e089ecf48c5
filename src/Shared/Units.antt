-- ===== src/Shared/Units.antt =====
-- Units and their conversion (packages/shared/src/units.ts).
pub mod Aliases
pub mod Decision
pub mod ViaBase
use brsr_v.Prelude.{
  ℕ, Bool, true, false, not, ◌||◌, Option, none, some, List, [], ◌∷◌, Text, String, text_eq, codes,
  ◌==◌, if◌then◌else◌,
}
use brsr_v.Prelude.Int.{ℤ, pos, negsuc}
use brsr_v.Shared.Letters.{trim}
use brsr_v.Shared.Tables.{entry}
use brsr_v.Shared.Units.Aliases.{aliases}

pub data UnitFamily : Type 0 where
  energy mass volume area distance time money power emission : UnitFamily

abbrev pub family_index : UnitFamily → ℕ
family_index energy = 0
family_index mass = 1
family_index volume = 2
family_index area = 3
family_index distance = 4
family_index time = 5
family_index money = 6
family_index power = 7
family_index emission = 8

abbrev pub same_family : UnitFamily → UnitFamily → Bool
same_family a b = family_index a == family_index b

-- `BASE_UNIT`
unfoldable pub base_unit : UnitFamily → Text
base_unit energy = codes "j"
base_unit mass = codes "kg"
base_unit volume = codes "l"
base_unit area = codes "m2"
base_unit distance = codes "m"
base_unit time = codes "s"
base_unit money = codes "usd"
base_unit power = codes "w"
base_unit emission = codes "kgco2e"

abbrev pub or_key : Option Text → Text → Text
or_key none key = key
or_key (some k) key = k

-- What `ALIASES[key] ?? key` is as the key of a table where ALIASES has no entry of its own: of the
-- names that every object inherits, two are in lower case, and reading them gives a function and an
-- object, whose texts the tables are then asked for.
abbrev pub inherited_key : Text → Text
unfolding text_eq
inherited_key key =
    if text_eq key (codes "constructor")
    then codes "function Object() { [native code] }"
    else if text_eq key (codes "__proto__")
    then codes "[object Object]"
    else key

-- What the conversions use of the language: `*`, `/`, the number that decimal digits times a power of
-- ten round to, and `toLowerCase`, which goes by the tables of Unicode.
pub record Numeric : Type 1 where
  pub N : Type 0
  pub times : N → N → N
  pub over : N → N → N
  pub literal : ℕ → ℤ → N
  pub lower : Text → Text

-- `Unit`
pub record MeasureUnit : Type 0 where
  pub symbol : Text
  pub family : UnitFamily

-- The errors of a conversion, without their messages.
pub data ConversionError : Type 0 where
  unknown_unit : Text → ConversionError
  other_family currency no_function : ConversionError

module _ (𝓝 : Numeric) where
  open 𝓝 use {N, times, over, literal, lower}

  unfoldable pub normalize : Text → Text
  unfolding trim entry
  normalize symbol = let key = lower (trim symbol) in or_key (entry key aliases) (inherited_key key)

  -- what `convert` returns or throws
  pub data Conversion : Type 0 where
    converted : N → Conversion
    failed : ConversionError → Conversion

  abbrev pub Scale : Type 0
  Scale = N → N

  -- `toBase` and `fromBase`
  abbrev pub factor : N → Scale × Scale
  factor k = (λ v. times v k, λ v. over v k)

  -- `UNITS`, `TO_BASE` and `FROM_BASE`
  pub record Registry : Type 0 where
    pub units : List (Text × MeasureUnit)
    pub to_base : List (Text × Scale)
    pub from_base : List (Text × Scale)

  -- the arguments of a call of `register`
  pub record Registration : Type 0 where
    pub symbol : Text
    pub family : UnitFamily
    pub scales : Scale × Scale

  -- `register`, and `registerUnit`. Assigning to the key `__proto__` of an object sets no entry but
  -- replaces what the object inherits; what the tables hold after that is not modelled.
  unfoldable pub register : Registry → Registration → Option Registry
  unfolding text_eq
  register reg r =
      let key = lower r.symbol in
      if text_eq key (codes "__proto__")
      then none
      else some (record {
        units = (key, record { symbol = r.symbol; family = r.family }) ∷ reg.units;
        to_base = (key, r.scales.0) ∷ reg.to_base;
        from_base = (key, r.scales.1) ∷ reg.from_base;
      })

  abbrev pub then_register : Option Registry → (Registry → Option Registry) → Option Registry
  then_register none next = none
  then_register (some reg) next = next reg

  unfoldable pub register_all : Registry → List Registration → Option Registry
  unfolding register
  register_all reg [] = some reg
  register_all reg (r ∷ rs) = then_register (register reg r) λ reg'. register_all reg' rs

  abbrev pub registration : String → UnitFamily → Scale × Scale → Registration
  registration symbol family scales = record {
    symbol = codes symbol;
    family = family;
    scales = scales;
  }

  abbrev pub identity : Scale × Scale
  identity = (λ v. v, λ v. v)

  -- the calls of `register` when the module is loaded
  abbrev pub registrations : List Registration
  registrations =
      registration "J" energy identity
      ∷ registration "kJ" energy (factor (literal 1 (pos 3)))
      ∷ registration "MJ" energy (factor (literal 1 (pos 6)))
      ∷ registration "GJ" energy (factor (literal 1 (pos 9)))
      ∷ registration "TJ" energy (factor (literal 1 (pos 12)))
      ∷ registration "Wh" energy (factor (literal 3600 (pos 0)))
      ∷ registration "kWh" energy (factor (literal 36 (pos 5)))
      ∷ registration "MWh" energy (factor (literal 36 (pos 8)))
      ∷ registration "GWh" energy (factor (literal 36 (pos 11)))
      ∷ registration "TWh" energy (factor (literal 36 (pos 14)))
      ∷ registration "cal" energy (factor (literal 4184 (negsuc 2)))
      ∷ registration "kcal" energy (factor (literal 4184 (pos 0)))
      ∷ registration "BTU" energy (factor (literal 105506 (negsuc 1)))
      ∷ registration "therm" energy (factor (literal 105506 (pos 3)))
      ∷ registration "kg" mass identity
      ∷ registration "g" mass (factor (literal 1 (negsuc 2)))
      ∷ registration "mg" mass (factor (literal 1 (negsuc 5)))
      ∷ registration "t" mass (factor (literal 1 (pos 3)))
      ∷ registration "lb" mass (factor (literal 45359237 (negsuc 7)))
      ∷ registration "oz" mass (factor (literal 283495231 (negsuc 9)))
      ∷ registration "L" volume identity
      ∷ registration "mL" volume (factor (literal 1 (negsuc 2)))
      ∷ registration "kL" volume (factor (literal 1 (pos 3)))
      ∷ registration "m3" volume (factor (literal 1 (pos 3)))
      ∷ registration "cm3" volume (factor (literal 1 (negsuc 2)))
      ∷ registration "gal_us" volume (factor (literal 378541 (negsuc 4)))
      ∷ registration "gal_uk" volume (factor (literal 454609 (negsuc 4)))
      ∷ registration "bbl" volume (factor (literal 158987 (negsuc 2)))
      ∷ registration "m2" area identity
      ∷ registration "cm2" area (factor (literal 1 (negsuc 3)))
      ∷ registration "km2" area (factor (literal 1 (pos 6)))
      ∷ registration "ha" area (factor (literal 1 (pos 4)))
      ∷ registration "hectare" area (factor (literal 1 (pos 4)))
      ∷ registration "acre" area (factor (literal 40468564224 (negsuc 6)))
      ∷ registration "m" distance identity
      ∷ registration "km" distance (factor (literal 1 (pos 3)))
      ∷ registration "cm" distance (factor (literal 1 (negsuc 1)))
      ∷ registration "mi" distance (factor (literal 1609344 (negsuc 2)))
      ∷ registration "ft" distance (factor (literal 3048 (negsuc 3)))
      ∷ registration "s" time identity
      ∷ registration "min" time (factor (literal 60 (pos 0)))
      ∷ registration "h" time (factor (literal 3600 (pos 0)))
      ∷ registration "d" time (factor (literal 86400 (pos 0)))
      ∷ registration "W" power identity
      ∷ registration "kW" power (factor (literal 1 (pos 3)))
      ∷ registration "MW" power (factor (literal 1 (pos 6)))
      ∷ registration "GW" power (factor (literal 1 (pos 9)))
      ∷ registration "hp" power (factor (literal 7456999 (negsuc 3)))
      ∷ registration "kgCO2e" emission identity
      ∷ registration "tCO2e" emission (factor (literal 1 (pos 3)))
      ∷ registration "gCO2e" emission (factor (literal 1 (negsuc 2)))
      ∷ registration "MtCO2e" emission (factor (literal 1 (pos 9)))
      ∷ registration "USD" money identity
      ∷ []

  abbrev pub empty_registry : Registry
  empty_registry = record { units = []; to_base = []; from_base = [] }

  abbrev pub or_empty : Option Registry → Registry
  or_empty none = empty_registry
  or_empty (some reg) = reg

  -- No symbol of the module's own is `__proto__`.
  unfoldable pub initial : Registry
  unfolding register_all
  initial = or_empty (register_all empty_registry registrations)

  unfoldable pub lookup : Registry → Text → Option MeasureUnit
  unfolding entry normalize
  lookup reg symbol = entry (normalize symbol) reg.units

  abbrev pub rescale : Option Scale → Option Scale → N → Conversion
  rescale (some to) (some from) v = converted (from (to v))
  rescale _ _ v = failed no_function

  -- `convert`, once both symbols are looked up
  unfoldable pub convert_found :
      Registry → N → Text → Text → Option MeasureUnit → Option MeasureUnit → Conversion
  unfolding entry normalize
  convert_found reg v a b none u = failed (unknown_unit a)
  convert_found reg v a b (some u) none = failed (unknown_unit b)
  convert_found reg v a b (some u) (some w) =
      if not (same_family u.family w.family)
      then failed other_family
      else if same_family u.family money
      then failed currency
      else rescale (entry (normalize a) reg.to_base) (entry (normalize b) reg.from_base) v

  unfoldable pub convert : Registry → N → Text → Text → Conversion
  unfolding lookup convert_found
  convert reg v a b = convert_found reg v a b (lookup reg a) (lookup reg b)

  abbrev pub can_convert_found : Option MeasureUnit → Option MeasureUnit → Bool
  can_convert_found (some u) (some w) =
      if not (same_family u.family w.family)
      then false
      else if same_family u.family money
      then false
      else true
  can_convert_found _ _ = false

  unfoldable pub can_convert : Registry → Text → Text → Bool
  unfolding lookup
  can_convert reg a b = can_convert_found (lookup reg a) (lookup reg b)

  abbrev pub family_found : Option MeasureUnit → Option UnitFamily
  family_found none = none
  family_found (some u) = some u.family

  -- `family`
  unfoldable pub family_of : Registry → Text → Option UnitFamily
  unfolding lookup
  family_of reg symbol = family_found (lookup reg symbol)
