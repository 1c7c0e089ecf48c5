-- ===== src/Shared/Dates/Digits.antt =====
-- The decimal digits that dates.ts writes and reads.
use brsr_v.Prelude.{
  ℕ, zero, suc, ◌+◌, ◌-◌, ◌/◌, ◌%◌, ◌≤◌, ◌<◌, ◌≡◌, refl, ◌∙◌, ap, subst, inl, inr, ltb→lt,
  Bool-cases, true, false, [], ◌∷◌, ◌++◌, Text, ltb, arith,
}
use brsr_v.Cel.Lexer.{is_digit}
use brsr_v.Shared.Dates.{digits, decimal, pad2}

digits_small : (left n : ℕ) → n < 10 → digits left n ≡ (b'0' + n) ∷ []
unfolding digits
digits_small zero n h = ap (λ c. (b'0' + c) ∷ []) (omega arith)
digits_small (suc left) n h = rw (lt n h) refl
  where
    lt : (n : ℕ) → n < 10 → ltb n 10 ≡ true
    lt n h = ground arith

digits_next :
    (left n : ℕ) → 10 ≤ n → digits (suc left) n ≡ digits left (n / 10) ++ (b'0' + n % 10) ∷ []
unfolding digits
digits_next left n h = rw (ge n h) refl
  where
    ge : (n : ℕ) → 10 ≤ n → ltb n 10 ≡ false
    ge n h = ground arith

abbrev pub four_digits : ℕ → Text
four_digits y =
    (b'0' + y / 1000) ∷ (b'0' + y / 100 % 10) ∷ (b'0' + y / 10 % 10) ∷ (b'0' + y % 10) ∷ []

abbrev pub two_digits : ℕ → Text
two_digits n = (b'0' + n / 10) ∷ (b'0' + n % 10) ∷ []

digits_four : (left y : ℕ) → 1000 ≤ y → y ≤ 9999 → digits (suc (suc (suc left))) y ≡ four_digits y
digits_four left y lo hi =
    digits_next (suc (suc left)) y (omega arith)
    ∙ ap (λ s. s ++ (b'0' + y % 10) ∷ [])
        (digits_next (suc left) (y / 10) (omega arith)
          ∙ ap (λ s. s ++ (b'0' + y / 10 % 10) ∷ [])
              (digits_next left (y / 10 / 10) (omega arith)
                ∙ ap (λ s. s ++ (b'0' + y / 10 / 10 % 10) ∷ [])
                    (digits_small left (y / 10 / 10 / 10) (omega arith))))
    ∙ same (y / 10 / 10 / 10) (y / 10 / 10 % 10) (y / 1000) (y / 100 % 10) (omega arith)
        (omega arith)
  where
    same :
        (a b a' b' : ℕ)
        → a ≡ a'
        → b ≡ b'
        → (b'0' + a) ∷ (b'0' + b) ∷ (b'0' + y / 10 % 10) ∷ (b'0' + y % 10) ∷ []
          ≡ (b'0' + a') ∷ (b'0' + b') ∷ (b'0' + y / 10 % 10) ∷ (b'0' + y % 10) ∷ []
    same a b a' b' e f = rw (e, f) refl

pub decimal_four : (y : ℕ) → 1000 ≤ y → y ≤ 9999 → decimal y ≡ four_digits y
decimal_four y lo hi =
    subst (λ n. digits n y ≡ four_digits y) (above y lo) (digits_four (y - 3) y lo hi)
  where
    above : (y : ℕ) → 1000 ≤ y → suc (suc (suc (y - 3))) ≡ y
    above y h = omega arith

pub pad2_lem : (n : ℕ) → n < 100 → pad2 n ≡ two_digits n
pad2_lem n h = elim (Bool-cases (ltb n 10)) [
  | inl e ↦ rw e (
      ap (λ s. b'0' ∷ s) (digits_small n n (ltb→lt n 10 e))
      ∙ small (n / 10) (n % 10) (omega (arith, ltb→lt n 10 e)) (omega (arith, ltb→lt n 10 e)))
  | inr e ↦ rw e (
      ap (λ m. digits m n) (above n (ge n e))
      ∙ digits_next (n - 1) n (ge n e)
      ∙ ap (λ s. s ++ (b'0' + n % 10) ∷ []) (digits_small (n - 1) (n / 10) (omega arith)))
]
  where
    ge : (n : ℕ) → ltb n 10 ≡ false → 10 ≤ n
    ge n h = ground arith

    above : (n : ℕ) → 10 ≤ n → n ≡ suc (n - 1)
    above n h = omega arith

    small : (a b : ℕ) → 0 ≡ a → n ≡ b → b'0' ∷ (b'0' + n) ∷ [] ≡ (b'0' + a) ∷ (b'0' + b) ∷ []
    small a b e f = cc

pub digit : (n : ℕ) → n < 10 → is_digit (b'0' + n) ≡ true
digit n h = ground arith
