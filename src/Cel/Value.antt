-- ===== src/Cel/Value.antt =====
-- The values of formulas, their units, and the context that names are looked up in.
pub mod Units
use brsr_v.Prelude.{
  ℕ, Bool, true, false, not, ◌&&◌, ◌||◌, Option, none, some, List, [], ◌∷◌, ◌++◌, Text, text_eq,
  codes, ◌==◌, if◌then◌else◌,
}
use brsr_v.Cel.Decimal.{Decimal}

-- `Decimal | string | boolean | null`; `undefined` is what a property of a foreign object reads as.
pub data Value (D : Type 0) : Type 0 where
  dec : D → Value D
  str : Text → Value D
  bool : Bool → Value D
  null undefined : Value D

-- `unit?: string`
pub record CelValue (D : Type 0) : Type 0 where
  pub value : Value D
  pub unit : Option Text

-- A `Record<string, CelValue>`, by its own properties; `some none` is one that holds undefined.
abbrev pub Object : Type 0 → Type 0
Object D = Text → Option (Option (CelValue D))

pub record CelContext (D : Type 0) : Type 0 where
  pub metrics : Object D
  pub factors : Option (Object D)
  pub period_days : Option ℕ

module _ {D : Type 0} where
  abbrev pub plain : Value D → CelValue D
  plain v = record { value = v; unit = none }

-- The properties that every object literal inherits from `Object.prototype`.
abbrev pub inherited : List Text
inherited =
    codes "constructor"
    ∷ codes "toString"
    ∷ codes "toLocaleString"
    ∷ codes "valueOf"
    ∷ codes "hasOwnProperty"
    ∷ codes "isPrototypeOf"
    ∷ codes "propertyIsEnumerable"
    ∷ codes "__proto__"
    ∷ codes "__defineGetter__"
    ∷ codes "__defineSetter__"
    ∷ codes "__lookupGetter__"
    ∷ codes "__lookupSetter__"
    ∷ []

unfoldable pub unit_eq : Option Text → Option Text → Bool
unfolding text_eq
unit_eq none none = true
unit_eq (some u) (some v) = text_eq u v
unit_eq _ _ = false

-- a unit as a condition: undefined and '' are false
abbrev pub present : Option Text → Bool
present none = false
present (some []) = false
present (some (c ∷ u)) = true

abbrev pub or_empty : Option Text → Text
or_empty none = []
or_empty (some u) = u

unfoldable pub strip_leading : Text → Text
strip_leading [] = []
strip_leading (c ∷ s) = if c == b'*' then s else c ∷ s

unfoldable pub strip_trailing : Text → Text
strip_trailing [] = []
strip_trailing (c ∷ []) = if c == b'*' then [] else c ∷ []
strip_trailing (c ∷ d ∷ s) = c ∷ strip_trailing (d ∷ s)

abbrev pub nonempty : Text → Option Text
nonempty [] = none
nonempty (c ∷ s) = some (c ∷ s)

-- `.replace(/^\//, '1/')`
abbrev pub numerator_one : Text → Text
numerator_one [] = []
numerator_one (c ∷ s) = if c == b'/' then b'1' ∷ b'/' ∷ s else c ∷ s

abbrev pub or_one : Option Text → Text
or_one none = b'1' ∷ []
or_one (some u) = u

-- `combineUnits(l, r, '*')` and `combineUnits(l, r, '/')`
unfoldable pub combine_times : Option Text → Option Text → Option Text
unfolding strip_leading strip_trailing
combine_times l r =
    if not (present l) && not (present r)
    then none
    else nonempty (strip_trailing (strip_leading (or_empty l ++ b'*' ∷ or_empty r)))

unfoldable pub combine_div : Option Text → Option Text → Option Text
combine_div l r =
    if not (present l) && not (present r)
    then none
    else some (numerator_one (or_empty l ++ b'/' ∷ or_one r))

module _ (𝓓 : Decimal) where
  open 𝓓 use {D, is_zero, eq}

  unfoldable pub truthy : CelValue D → Bool
  truthy v = elim v.value [
    | dec d ↦ not (is_zero d)
    | str [] ↦ false
    | str (c ∷ s) ↦ true
    | bool b ↦ b
    | null ↦ false
    | undefined ↦ false
  ]

  abbrev pub same : Value D → Value D → Bool
  unfolding text_eq
  same (dec a) (dec b) = eq a b
  same (str s) (str t) = text_eq s t
  same (bool true) (bool b) = b
  same (bool false) (bool b) = not b
  same null null = true
  same undefined undefined = true
  same _ _ = false
