-- ===== src/Cel/Integers.antt =====
-- Integers in place of decimal.js numbers: a concrete `Decimal` for the tests, with truncating
-- division.
use Prim.Native.Nat.{compare, Ordering}
use brsr_v.Prelude.{
  ℕ, ◌+◌, ◌-◌, ◌*◌, ◌/◌, ◌%◌, ◌≡◌, ◌≢◌, Bool, true, false, xor, ◌&&◌, Option, none, some, [], ◌∷◌,
  Text, arith, leb, ◌==◌, if◌then◌else◌,
}
use brsr_v.Prelude.Int.{ℤ, pos, pos_part, neg_part, size, is_negative, with_sign, ◌+ℤ◌, ◌-ℤ◌, ◌*ℤ◌}
use brsr_v.Cel.Decimal.{Decimal, Sign, less, same, more, nan}
use brsr_v.Cel.Call.Extremes.{AtMost, IsOrdered, flipped}

-- the digits of a text as a number
abbrev digits : ℕ → Text → Option ℤ
digits n [] = some (pos n)
digits n (c ∷ s) =
    let rest = digits (n * 10 + (c - b'0')) s in if leb b'0' c && leb c b'9' then rest else none

abbrev sign_of : Ordering → Sign
sign_of Ordering.lt = less
sign_of Ordering.eq = same
sign_of Ordering.gt = more

abbrev cmp : ℤ → ℤ → Sign
cmp a b = sign_of (compare (pos_part a + neg_part b) (pos_part b + neg_part a))

abbrev is_same : Sign → Bool
is_same same = true
is_same _ = false

abbrev quotient : ℤ → ℤ → ℤ
quotient a b = with_sign (xor (is_negative a) (is_negative b)) (size a / size b)

abbrev remainder : ℤ → ℤ → ℤ
remainder a b = with_sign (is_negative a) (size a % size b)

abbrev pub integers : Decimal
integers = record {
  D = ℤ;
  of_text = digits 0;
  of_nat = pos;
  negated = λ a. pos 0 -ℤ a;
  abs = λ a. pos (size a);
  plus = ◌+ℤ◌;
  minus = ◌-ℤ◌;
  times = ◌*ℤ◌;
  div = quotient;
  mod_by = remainder;
  cmp = cmp;
  eq = λ a b. is_same (cmp a b);
  is_zero = λ a. size a == 0;
  to_places = λ a n. some a;
}

no_nan : (a b : ℤ) → cmp a b ≢ nan
no_nan a b = ground arith

itself : (a : ℤ) → cmp a a ≡ same
itself a = ground arith

flip : (a b : ℤ) → cmp b a ≡ flipped (cmp a b)
flip a b = ground arith

trans : (a b c : ℤ) → AtMost integers a b → AtMost integers b c → AtMost integers a c
trans a b c p q = ground arith

pub integers-IsOrdered : IsOrdered integers
integers-IsOrdered = record { no_nan = no_nan; itself = itself; flip = flip; trans = trans }
