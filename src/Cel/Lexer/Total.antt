-- ===== src/Cel/Lexer/Total.antt =====
-- The tokenizer of services/api/src/common/utils/cel-evaluator.ts ends on every text.
use brsr_v.Prelude.{
  ℕ, zero, suc, ◌+◌, ◌≤◌, ◌<◌, ◌≡◌, ◌≢◌, Bool, true, false, Option, none, some, [], ◌∷◌, arith,
  Text, ◌==◌, ◌||◌, ◌&&◌, if◌then◌else◌, length,
}
use brsr_v.Cel.Decimal.{Decimal}
use brsr_v.Cel.Syntax.{Token}
use brsr_v.Cel.Outcome.{
  out_of_fuel, Within, returned, threw, Within-ne-out_of_fuel, Within-if, Within-bind,
}
use brsr_v.Cel.Lexer.{
  is_space, is_digit, is_letter, is_number_part, is_ident_part, span, exponent, lex_number,
  without_underscores, lex_string, two_char, one_char, lex_one, tokenize_from, tokenize, pushed,
  string_token, number_token, symbol_or, two_or,
}

span-le : (test : ℕ → Bool) (s : Text) → length (span test s).1 ≤ length s
unfolding span
span-le test [] = omega arith
span-le test (c ∷ s) = ground (arith, span-le test s)

span-lt :
    (test : ℕ → Bool) (c : ℕ) (s : Text) → test c ≡ true → length (span test (c ∷ s)).1 ≤ length s
unfolding span
span-lt test c s h = ground (arith, span-le test s)

exponent-le : (s : Text) → length (exponent s).1 ≤ length s
unfolding exponent
exponent-le [] = omega arith
exponent-le (c ∷ []) = ground arith
exponent-le (c ∷ d ∷ s) = ground (arith, span-le is_digit s, span-le is_digit (d ∷ s))

lex_number-lt : (c : ℕ) (s : Text) → is_digit c ≡ true → length (lex_number (c ∷ s)).1 ≤ length s
unfolding lex_number
lex_number-lt c s h =
    rw h (omega (arith, span-le is_number_part s, exponent-le (span is_number_part s).1))

-- what is left is shorter than `s`
abbrev Leaves : {A : Type 0} → Text → Option (A × Text) → Type 0
Leaves s none = Unit
Leaves s (some (a, r)) = length r < length s

Leaves-pushed :
    (c : ℕ) (s t : Text) (o : Option (Text × Text))
    → length s ≤ length t
    → Leaves s o
    → Leaves t (pushed c o)
Leaves-pushed c s t none le h = tt
Leaves-pushed c s t (some (a, r)) le h = omega arith

Leaves-if :
    {A : Type 0} (s : Text) (b : Bool) (x y : Option (A × Text))
    → Leaves s x
    → Leaves s y
    → Leaves s (if b then x else y)
Leaves-if s true x y hx hy = hx
Leaves-if s false x y hx hy = hy

lex_string-Leaves : (quote : ℕ) (s : Text) → Leaves s (lex_string quote s)
unfolding lex_string
lex_string-Leaves quote [] = tt
lex_string-Leaves quote (c ∷ []) = Leaves-if (c ∷ []) (c == quote) _ _ (omega arith) tt
lex_string-Leaves quote (c ∷ d ∷ s) = Leaves-if (c ∷ d ∷ s) (c == quote) _ _ (omega arith) (
    Leaves-if (c ∷ d ∷ s) (c == b'\\') _ _
      (Leaves-pushed d s (c ∷ d ∷ s) _ (omega arith) (lex_string-Leaves quote s))
      (Leaves-pushed c (d ∷ s) (c ∷ d ∷ s) _ (omega arith) (lex_string-Leaves quote (d ∷ s))))

module _ (𝓓 : Decimal) where
  open 𝓓 use {D, of_text}

  -- one round takes at least its first unit
  abbrev Takes : Text → Option (Token D) × Text → Type 0
  Takes s (t, r) = length r ≤ length s

  string_token-Within :
      (s : Text) (o : Option (Text × Text)) → Leaves s o → Within (Takes s) (string_token o)
  string_token-Within s none h = threw
  string_token-Within s (some (a, r)) h = returned (omega arith)

  number_token-Within :
      (o : Option D) (r s : Text) → length r ≤ length s → Within (Takes s) (number_token 𝓓 o r)
  number_token-Within none r s h = threw
  number_token-Within (some d) r s h = returned h

  symbol_or-Within : (o : Option (Token D)) (s : Text) → Within (Takes s) (symbol_or o s)
  symbol_or-Within none s = threw
  symbol_or-Within (some t) s = returned (omega arith)

  two_char-Leaves : (c : ℕ) (s : Text) → Leaves s (two_char {D = D} c s)
  unfolding two_char
  two_char-Leaves c [] = tt
  two_char-Leaves c (d ∷ s) = Leaves-if (d ∷ s) (c == b'=' && d == b'=') _ _ (omega arith) (
      Leaves-if (d ∷ s) (c == b'!' && d == b'=') _ _ (omega arith) (
        Leaves-if (d ∷ s) (c == b'<' && d == b'=') _ _ (omega arith) (
          Leaves-if (d ∷ s) (c == b'>' && d == b'=') _ _ (omega arith) (
            Leaves-if (d ∷ s) (c == b'&' && d == b'&') _ _ (omega arith)
              (Leaves-if (d ∷ s) (c == b'|' && d == b'|') _ _ (omega arith) tt)))))

  two_or-Within :
      (o : Option (Token D × Text)) (c : ℕ) (s : Text)
      → Leaves s o
      → Within (Takes s) (two_or o c s)
  two_or-Within none c s h = symbol_or-Within (one_char c) s
  two_or-Within (some (t, r)) c s h = returned (omega arith)

  lex_one-Within : (c : ℕ) (s : Text) → Within (Takes s) (lex_one 𝓓 c s)
  unfolding lex_one
  lex_one-Within c s =
      Within-if (is_space c) (λ _. returned (omega arith))
        λ _.
          Within-if (is_digit c)
            (λ h.
              number_token-Within (of_text (without_underscores (lex_number (c ∷ s)).0)) _ s
                (lex_number-lt c s h))
            λ _.
              Within-if (c == 39 || c == 34)
                (λ _. string_token-Within s (lex_string c s) (lex_string-Leaves c s))
                λ _.
                  Within-if (is_letter c) (λ h. returned (span-lt is_ident_part c s (rw h)))
                    λ _. two_or-Within (two_char c s) c s (two_char-Leaves c s)

  tokenize_from-Within :
      (f : ℕ) (s : Text) → length s < f → Within (λ _. Unit {0}) (tokenize_from 𝓓 f s)
  unfolding tokenize_from
  tokenize_from-Within zero s h = absurd (omega arith)
  tokenize_from-Within (suc f) [] h = returned tt
  tokenize_from-Within (suc f) (c ∷ s) h =
      Within-bind (lex_one-Within c s)
        λ (t, r) le. Within-bind (tokenize_from-Within f r (omega arith)) λ ts _. returned tt

  -- On every text the tokenizer returns tokens or throws: its fuel is never used up.
  pub tokenize_total : (s : Text) → tokenize 𝓓 s ≢ out_of_fuel
  unfolding tokenize
  tokenize_total s = Within-ne-out_of_fuel (tokenize_from-Within (length s + 1) s (omega arith))
