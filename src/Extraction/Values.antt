-- ===== src/Extraction/Values.antt =====
-- The value of a correction: what `update` of extraction.service.ts stores for it.
use brsr_v.Prelude.{Bool, true, false, ◌&&◌, Option, none, some, [], ◌∷◌, Text, ◌==◌, if◌then◌else◌}
use brsr_v.Cel.Decimal.{Decimal}
use brsr_v.Cel.Lexer.{is_digit}
use brsr_v.Platform.{Platform, Number}

unfoldable pub all_digits : Text → Bool
all_digits [] = true
all_digits (c ∷ s) = is_digit c && all_digits s

-- the digits after the first, and the optional fraction
abbrev pub fraction : Text → Bool
unfolding all_digits
fraction [] = false
fraction (c ∷ s) = is_digit c && all_digits s

unfoldable pub more_digits : Text → Bool
unfolding fraction
more_digits [] = true
more_digits (c ∷ s) =
    let rest = more_digits s in if is_digit c then rest else c == b'.' && fraction s

unfoldable pub unsigned_digits : Text → Bool
unfolding more_digits
unsigned_digits [] = false
unsigned_digits (c ∷ s) = is_digit c && more_digits s

-- `/^-?\d+(\.\d+)?$/.test`
unfoldable pub is_decimal_text : Text → Bool
unfolding unsigned_digits
is_decimal_text [] = false
is_decimal_text (c ∷ s) = if c == b'-' then unsigned_digits s else unsigned_digits (c ∷ s)

module _ (𝓟 : Platform) where
  open 𝓟 use {numbers}

  -- The value of a request: a number, a string, an object by its JSON text (`null` is one), or
  -- anything else by its string, which is empty where there is no value.
  pub data FieldValue : Type 0 where
    number_value : Number 𝓟 → FieldValue
    string_value object_value other_value : Text → FieldValue

  -- `valueText` and `valueNum`; the numbers take every text that the test lets through
  unfoldable pub stored_value : FieldValue → Option Text × Option (Number 𝓟)
  unfolding is_decimal_text
  stored_value (number_value n) = (none, some n)
  stored_value (string_value s) =
      if is_decimal_text s then (none, Decimal.of_text numbers s) else (some s, none)
  stored_value (object_value s) = (some s, none)
  stored_value (other_value s) = (some s, none)
