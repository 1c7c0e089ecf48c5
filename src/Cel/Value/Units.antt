-- ===== src/Cel/Value/Units.antt =====
-- `combineUnits` of cel-evaluator.ts: how the unit of a product or quotient is written.
use brsr_v.Prelude.{ℕ, ◌≡◌, ◌≢◌, refl, false, none, some, [], ◌∷◌, ◌++◌, Text, ◌==◌, arith}
use brsr_v.Cel.Value.{strip_leading, strip_trailing, combine_times, combine_div}

-- A unit that is not empty and neither begins nor ends with a star.
abbrev NoTrailing : Text → Type 0
NoTrailing [] = Unit
NoTrailing (c ∷ []) = c ≢ b'*'
NoTrailing (c ∷ d ∷ s) = NoTrailing (d ∷ s)

abbrev pub IsUnit : Text → Type 0
IsUnit [] = ⊥
IsUnit (c ∷ s) = (c ≢ b'*') × NoTrailing (c ∷ s)

-- it does not begin with a slash
abbrev pub NoSlash : Text → Type 0
NoSlash [] = Unit
NoSlash (c ∷ s) = c ≢ b'/'

ne_test : (a b : ℕ) → a ≢ b → (a == b) ≡ false
ne_test a b h = ground arith

strip_trailing-id : (s : Text) → NoTrailing s → strip_trailing s ≡ s
unfolding strip_trailing
strip_trailing-id [] h = refl
strip_trailing-id (c ∷ []) h = ground arith
strip_trailing-id (c ∷ d ∷ s) h = rw (strip_trailing-id (d ∷ s) h)

NoTrailing-append : (s t : Text) (c : ℕ) → NoTrailing (c ∷ t) → NoTrailing (s ++ c ∷ t)
NoTrailing-append [] t c h = h
NoTrailing-append (a ∷ []) t c h = h
NoTrailing-append (a ∷ b ∷ s) t c h = NoTrailing-append (b ∷ s) t c h

strip_leading-id : (c : ℕ) (s : Text) → c ≢ b'*' → strip_leading (c ∷ s) ≡ c ∷ s
unfolding strip_leading
strip_leading-id c s h = ground arith

-- a trailing star, and only that, is taken off
strip_trailing-star : (s : Text) → strip_trailing (s ++ b'*' ∷ []) ≡ s
unfolding strip_trailing
strip_trailing-star [] = refl
strip_trailing-star (a ∷ []) = refl
strip_trailing-star (a ∷ b ∷ s) = rw (strip_trailing-star (b ∷ s))

-- The unit of a product is the two units joined by a star, and the other unit where one is absent
-- or empty: nothing is ever cancelled.
pub combine_times_units :
    (l r : Text)
    → IsUnit l
    → IsUnit r
    → (combine_times (some l) (some r) ≡ some (l ++ b'*' ∷ r))
      × (combine_times (some l) none ≡ some l)
      × (combine_times none (some r) ≡ some r)
unfolding combine_times
combine_times_units (c ∷ l) (d ∷ r) hl hr =
    let keep = strip_leading-id c in
    (
      rw (
        keep _ hl.0,
        strip_trailing-id (c ∷ (l ++ b'*' ∷ d ∷ r)) (NoTrailing-append (c ∷ l) (d ∷ r) b'*' hr.1),
      ),
      rw (keep _ hl.0, strip_trailing-star (c ∷ l)),
      rw (strip_trailing-id (d ∷ r) hr.1),
    )
combine_times_units [] r hl hr = absurd hl
combine_times_units (c ∷ l) [] hl hr = absurd hr

-- The unit of a quotient is the two units joined by a slash, with 1 for an absent one.
pub combine_div_units :
    (l r : Text)
    → IsUnit l
    → IsUnit r
    → NoSlash l
    → (combine_div (some l) (some r) ≡ some (l ++ b'/' ∷ r))
      × (combine_div (some l) none ≡ some (l ++ b'/' ∷ b'1' ∷ []))
      × (combine_div none (some r) ≡ some (b'1' ∷ b'/' ∷ r))
unfolding combine_div
combine_div_units (c ∷ l) (d ∷ r) hl hr ns =
    let test = ne_test c b'/' ns in (rw test, rw test, refl)
combine_div_units [] r hl hr ns = absurd hl
combine_div_units (c ∷ l) [] hl hr ns = absurd hr
