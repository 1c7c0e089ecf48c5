-- ===== src/Cel/Lexer.antt =====
-- `tokenize`. The text is a list of UTF-16 code units; the positions in messages are left out.
pub mod Total
use brsr_v.Prelude.{
  ℕ, zero, suc, ◌+◌, Bool, true, false, not, ◌&&◌, ◌||◌, Option, none, some, List, [], ◌∷◌, ◌++◌,
  Text, text_eq, codes, leb, ◌==◌, if◌then◌else◌, length,
}
use brsr_v.Cel.Decimal.{Decimal}
use brsr_v.Cel.Syntax.{
  Op, Token, plus, minus, times, slash, percent, lt, gt, bang, eq, ne, le, ge, and, or, num, str,
  ident, op, lparen, rparen, comma, qmark, colon, bool, nil, eof,
}
use brsr_v.Cel.Outcome.{
  Outcome, ok, fail, out_of_fuel, unterminated_string, unexpected_character, bad_number, ◌>>=◌,
}

abbrev pub is_space : ℕ → Bool
is_space c = c == 32 || c == 9 || c == 10 || c == 13

abbrev pub is_digit : ℕ → Bool
is_digit c = leb b'0' c && leb c b'9'

abbrev pub is_letter : ℕ → Bool
is_letter c = leb b'a' c && leb c b'z' || leb b'A' c && leb c b'Z' || c == b'_'

-- [0-9._] and [a-zA-Z0-9_.]
abbrev pub is_number_part : ℕ → Bool
is_number_part c = is_digit c || c == b'.' || c == b'_'

abbrev pub is_ident_part : ℕ → Bool
is_ident_part c = is_letter c || is_digit c || c == b'.'

-- The loops `while (j < len && test(src[j])) j++`: what they pass over, and the rest.
unfoldable pub span : (ℕ → Bool) → Text → Text × Text
span test [] = ([], [])
span test (c ∷ s) = let (a, r) = span test s in if test c then (c ∷ a, r) else ([], c ∷ s)

abbrev pub prefixed : Text → Text × Text → Text × Text
prefixed p (a, r) = (p ++ a, r)

-- the optional sign and the digits of an exponent
unfoldable pub exponent_digits : Text → Text × Text
unfolding span
exponent_digits [] = ([], [])
exponent_digits (c ∷ s) =
    if c == b'+' || c == b'-' then prefixed (c ∷ []) (span is_digit s) else span is_digit (c ∷ s)

unfoldable pub exponent : Text → Text × Text
unfolding exponent_digits
exponent [] = ([], [])
exponent (c ∷ s) =
    if c == b'e' || c == b'E' then prefixed (c ∷ []) (exponent_digits s) else ([], c ∷ s)

unfoldable pub lex_number : Text → Text × Text
unfolding span exponent
lex_number s = let (a, r) = span is_number_part s in prefixed a (exponent r)

-- `.replace(/_/g, '')`
unfoldable pub without_underscores : Text → Text
without_underscores [] = []
without_underscores (c ∷ s) =
    let rest = without_underscores s in if c == b'_' then rest else c ∷ rest

abbrev pub pushed : ℕ → Option (Text × Text) → Option (Text × Text)
pushed c none = none
pushed c (some (s, r)) = some (c ∷ s, r)

-- The loop of a string literal behind its quote; a backslash takes the next unit as it is.
unfoldable pub lex_string : ℕ → Text → Option (Text × Text)
lex_string quote [] = none
lex_string quote (c ∷ []) = if c == quote then some ([], []) else none
lex_string quote (c ∷ d ∷ s) =
    let escaped = pushed d (lex_string quote s) in
    let plain = pushed c (lex_string quote (d ∷ s)) in
    if c == quote then some ([], d ∷ s) else if c == b'\\' then escaped else plain

module _ {D : Type 0} where
  unfoldable pub keyword : Text → Token D
  unfolding text_eq
  keyword s =
      if text_eq s (codes "true")
      then bool true
      else if text_eq s (codes "false")
      then bool false
      else if text_eq s (codes "null") || text_eq s (codes "nil")
      then nil
      else ident s

  -- the two-character operators, tried before the others
  unfoldable pub two_char : ℕ → Text → Option (Token D × Text)
  two_char c [] = none
  two_char c (d ∷ s) =
      if c == b'=' && d == b'='
      then some (op eq, s)
      else if c == b'!' && d == b'='
      then some (op ne, s)
      else if c == b'<' && d == b'='
      then some (op le, s)
      else if c == b'>' && d == b'='
      then some (op ge, s)
      else if c == b'&' && d == b'&'
      then some (op and, s)
      else if c == b'|' && d == b'|'
      then some (op or, s)
      else none

  unfoldable pub one_char : ℕ → Option (Token D)
  one_char c =
      if c == b'+'
      then some (op plus)
      else if c == b'-'
      then some (op minus)
      else if c == b'*'
      then some (op times)
      else if c == b'/'
      then some (op slash)
      else if c == b'%'
      then some (op percent)
      else if c == b'<'
      then some (op lt)
      else if c == b'>'
      then some (op gt)
      else if c == b'!'
      then some (op bang)
      else if c == b'('
      then some lparen
      else if c == b')'
      then some rparen
      else if c == b','
      then some comma
      else if c == b'?'
      then some qmark
      else if c == b':'
      then some colon
      else none

  abbrev pub symbol_or : Option (Token D) → Text → Outcome (Option (Token D) × Text)
  symbol_or none s = fail unexpected_character
  symbol_or (some t) s = ok (some t, s)

  abbrev pub two_or : Option (Token D × Text) → ℕ → Text → Outcome (Option (Token D) × Text)
  two_or none c s = symbol_or (one_char c) s
  two_or (some (t, r)) c s = ok (some t, r)

  abbrev pub string_token : Option (Text × Text) → Outcome (Option (Token D) × Text)
  string_token none = fail unterminated_string
  string_token (some (s, r)) = ok (some (str s), r)

module _ (𝓓 : Decimal) where
  open 𝓓 use {D, of_text}

  abbrev pub number_token : Option D → Text → Outcome (Option (Token D) × Text)
  number_token none r = fail bad_number
  number_token (some d) r = ok (some (num d), r)

  -- One round of the loop at the unit `c`: the token, if the round pushes one, and the rest.
  unfoldable pub lex_one : ℕ → Text → Outcome (Option (Token D) × Text)
  unfolding lex_number without_underscores lex_string span keyword two_char one_char
  lex_one c s =
      if is_space c
      then ok (none, s)
      else if is_digit c
      then (let (a, r) = lex_number (c ∷ s) in number_token (of_text (without_underscores a)) r)
      else if c == 39 || c == 34
      then string_token (lex_string c s)
      else if is_letter c
      then (let (a, r) = span is_ident_part (c ∷ s) in ok (some (keyword a), r))
      else two_or (two_char c s) c s

  abbrev pub emitted : Option (Token D) → List (Token D) → List (Token D)
  emitted none ts = ts
  emitted (some t) ts = t ∷ ts

  -- The loop of `tokenize`; each round takes at least one unit, so a unit of fuel for each unit of
  -- text and one more suffices.
  unfoldable pub tokenize_from : ℕ → Text → Outcome (List (Token D))
  unfolding lex_one
  tokenize_from zero s = out_of_fuel
  tokenize_from (suc f) [] = ok (eof ∷ [])
  tokenize_from (suc f) (c ∷ s) =
      lex_one c s >>= λ (t, r). tokenize_from f r >>= λ ts. ok (emitted t ts)

  unfoldable pub tokenize : Text → Outcome (List (Token D))
  unfolding tokenize_from
  tokenize s = tokenize_from (length s + 1) s
