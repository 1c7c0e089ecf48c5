-- ===== src/Brsr/Extremes.antt =====
-- The least and the greatest value of the figures of a section.

use brsr_v.Prelude.{
  ◌≡◌, refl, if◌then◌else◌, inl, inr, List, [], ◌∷◌, All, All-map, Somewhere, here, there,
  Bool-cases, arith,
}
use brsr_v.Platform.{Platform, Number}
use brsr_v.Cel.Call.Extremes.{IsOrdered, AtMost}
use brsr_v.Brsr.{Figure, lowest_of, highest_of, is_less, is_more}

module _ (𝓟 : Platform) where
  pub lowest_of-Somewhere :
      (best : Number 𝓟) (xs ys : List (Figure 𝓟))
      → Somewhere (λ y. y.1.value ≡ best) ys
      → All (λ x. Somewhere (λ y. y.1.value ≡ x.1.value) ys) xs
      → Somewhere (λ y. y.1.value ≡ lowest_of 𝓟 best xs) ys
  unfolding lowest_of
  lowest_of-Somewhere best [] ys h k = h
  lowest_of-Somewhere best (x ∷ xs) ys h (k, ks) =
      elim (Bool-cases (is_less (𝓟.numbers.cmp x.1.value best))) [
        | inl e ↦ rw e (lowest_of-Somewhere x.1.value xs ys k ks)
        | inr e ↦ rw e (lowest_of-Somewhere best xs ys h ks)
      ]

  pub highest_of-Somewhere :
      (best : Number 𝓟) (xs ys : List (Figure 𝓟))
      → Somewhere (λ y. y.1.value ≡ best) ys
      → All (λ x. Somewhere (λ y. y.1.value ≡ x.1.value) ys) xs
      → Somewhere (λ y. y.1.value ≡ highest_of 𝓟 best xs) ys
  unfolding highest_of
  highest_of-Somewhere best [] ys h k = h
  highest_of-Somewhere best (x ∷ xs) ys h (k, ks) =
      elim (Bool-cases (is_more (𝓟.numbers.cmp x.1.value best))) [
        | inl e ↦ rw e (highest_of-Somewhere x.1.value xs ys k ks)
        | inr e ↦ rw e (highest_of-Somewhere best xs ys h ks)
      ]

  -- the value of each figure is that of one
  pub own_values : (xs : List (Figure 𝓟)) → All (λ x. Somewhere (λ y. y.1.value ≡ x.1.value) xs) xs
  own_values [] = tt
  own_values (x ∷ xs) = (here x xs refl, All-map xs (λ y s. there x xs s) (own_values xs))

  module _ (order : IsOrdered 𝓟.numbers) where
    lesser :
        (a b : Number 𝓟)
        → let c = if is_less (𝓟.numbers.cmp a b) then a else b in
          AtMost 𝓟.numbers c a × AtMost 𝓟.numbers c b
    lesser a b = elim (Bool-cases (is_less (𝓟.numbers.cmp a b))) [
      | inl e ↦ rw e (inr (order.itself a), ground (arith, order.no_nan a b))
      | inr e ↦ rw e (ground (arith, order.no_nan a b, order.flip a b), inr (order.itself b))
    ]

    greater :
        (a b : Number 𝓟)
        → let c = if is_more (𝓟.numbers.cmp a b) then a else b in
          AtMost 𝓟.numbers a c × AtMost 𝓟.numbers b c
    greater a b = elim (Bool-cases (is_more (𝓟.numbers.cmp a b))) [
      | inl e ↦ rw e (inr (order.itself a), ground (arith, order.flip a b))
      | inr e ↦ rw e (ground (arith, order.no_nan a b), inr (order.itself b))
    ]

    pub lowest_of-AtMost :
        (best : Number 𝓟) (xs : List (Figure 𝓟))
        → AtMost 𝓟.numbers (lowest_of 𝓟 best xs) best
          × All (λ y. AtMost 𝓟.numbers (lowest_of 𝓟 best xs) y.1.value) xs
    unfolding lowest_of
    lowest_of-AtMost best [] = (inr (order.itself best), tt)
    lowest_of-AtMost best (x ∷ xs) =
        let (of_x, of_best) = lesser x.1.value best in
        let (b, rest) =
          lowest_of-AtMost (if is_less (𝓟.numbers.cmp x.1.value best) then x.1.value else best)
            xs in
        (order.trans _ _ _ b of_best, (order.trans _ _ _ b of_x, rest))

    pub highest_of-AtMost :
        (best : Number 𝓟) (xs : List (Figure 𝓟))
        → AtMost 𝓟.numbers best (highest_of 𝓟 best xs)
          × All (λ y. AtMost 𝓟.numbers y.1.value (highest_of 𝓟 best xs)) xs
    unfolding highest_of
    highest_of-AtMost best [] = (inr (order.itself best), tt)
    highest_of-AtMost best (x ∷ xs) =
        let (of_x, of_best) = greater x.1.value best in
        let (b, rest) =
          highest_of-AtMost (if is_more (𝓟.numbers.cmp x.1.value best) then x.1.value else best)
            xs in
        (order.trans _ _ _ of_best b, (order.trans _ _ _ of_x b, rest))
