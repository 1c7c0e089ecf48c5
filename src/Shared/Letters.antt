-- ===== src/Shared/Letters.antt =====
-- The string methods `toLowerCase` and `trim`, on UTF-16 code units.
use brsr_v.Prelude.{ℕ, ◌+◌, Bool, ◌&&◌, ◌||◌, [], ◌∷◌, ◌++◌, Text, leb, ◌==◌, if◌then◌else◌}

-- `toLowerCase` of a code unit. Outside ASCII only the two with an ASCII letter in their lower case,
-- İ and the Kelvin sign, are changed; the others stay outside ASCII, whatever their case.
abbrev pub lower_unit : ℕ → Text
lower_unit c =
    if leb b'A' c && leb c b'Z'
    then (c + 32) ∷ []
    else if c == 304
    then b'i' ∷ 775 ∷ []
    else if c == 8490
    then b'k' ∷ []
    else c ∷ []

unfoldable pub to_lower_case : Text → Text
to_lower_case [] = []
to_lower_case (c ∷ s) = lower_unit c ++ to_lower_case s

-- the white space and line ends of the language
abbrev pub is_white_space : ℕ → Bool
is_white_space c =
    leb 9 c && leb c 13
    || c == 32
    || c == 160
    || c == 5760
    || leb 8192 c && leb c 8202
    || c == 8232
    || c == 8233
    || c == 8239
    || c == 8287
    || c == 12288
    || c == 65279

unfoldable pub trim_start : Text → Text
trim_start [] = []
trim_start (c ∷ s) = let rest = trim_start s in if is_white_space c then rest else c ∷ s

-- a code unit before the trimmed rest
abbrev pub before_trimmed : ℕ → Text → Text
before_trimmed c [] = if is_white_space c then [] else c ∷ []
before_trimmed c (d ∷ s) = c ∷ d ∷ s

unfoldable pub trim_end : Text → Text
trim_end [] = []
trim_end (c ∷ s) = before_trimmed c (trim_end s)

unfoldable pub trim : Text → Text
unfolding trim_start trim_end
trim s = trim_end (trim_start s)
