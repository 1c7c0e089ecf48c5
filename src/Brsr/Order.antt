-- ===== src/Brsr/Order.antt =====
-- The figures of a section sorted by the end of their periods.
use mathlib.Core.List.{Perm}
use mathlib.Core.List.Perm
use brsr_v.Prelude.{
  ◌≤◌, ◌≡◌, refl, inl, inr, true, false, List, [], ◌∷◌, All, All-map, Somewhere, here, there,
  Bool-cases, arith, ltb→lt,
}
use brsr_v.Platform.{Platform}
use brsr_v.Assurance.Sampling.{insert, sort_falling}
use brsr_v.Brsr.{Figure, ends_earlier, last_of}

module _ (𝓟 : Platform) where
  abbrev pub Among : Figure 𝓟 → List (Figure 𝓟) → Type 0
  Among x xs = Somewhere (λ y. y ≡ x) xs

  -- each figure ends no earlier than those behind it
  abbrev pub IsFalling : List (Figure 𝓟) → Type 0
  IsFalling [] = Unit
  IsFalling (x ∷ xs) = All (λ y. y.1.period_end ≤ x.1.period_end) xs × IsFalling xs

  insert-Perm : (x : Figure 𝓟) (ys : List (Figure 𝓟)) → Perm (insert (ends_earlier 𝓟) x ys) (x ∷ ys)
  unfolding insert
  insert-Perm x [] = Perm.refl _
  insert-Perm x (y ∷ ys) = elim (Bool-cases (ends_earlier 𝓟 x y)) [
    | inl e ↦ rw e (Perm.trans (Perm.cons y (insert-Perm x ys)) (Perm.swap x y ys))
    | inr e ↦ rw e (Perm.refl _)
  ]

  insert-All :
      (P : Figure 𝓟 → Type 0) (x : Figure 𝓟) (ys : List (Figure 𝓟))
      → P x
      → All P ys
      → All P (insert (ends_earlier 𝓟) x ys)
  unfolding insert
  insert-All P x [] p h = (p, tt)
  insert-All P x (y ∷ ys) p (h, hs) = elim (Bool-cases (ends_earlier 𝓟 x y)) [
    | inl e ↦ rw e (h, insert-All P x ys p hs)
    | inr e ↦ rw e (p, (h, hs))
  ]

  All-insert :
      (P : Figure 𝓟 → Type 0) (x : Figure 𝓟) (ys : List (Figure 𝓟))
      → All P (insert (ends_earlier 𝓟) x ys)
      → P x × All P ys
  unfolding insert
  All-insert P x [] h = h
  All-insert P x (y ∷ ys) h = elim (Bool-cases (ends_earlier 𝓟 x y)) [
    | inl e ↦ let (k, ks) = rw e at h in let (p, hs) = All-insert P x ys ks in (p, (k, hs))
    | inr e ↦ rw e at h
  ]

  Somewhere-insert :
      (P : Figure 𝓟 → Type 0) (x : Figure 𝓟) (ys : List (Figure 𝓟))
      → Somewhere P (insert (ends_earlier 𝓟) x ys)
      → Somewhere P (x ∷ ys)
  unfolding insert
  Somewhere-insert P x [] h = h
  Somewhere-insert P x (y ∷ ys) h = elim (Bool-cases (ends_earlier 𝓟 x y)) [
    | inl e ↦ moved (Somewhere-insert P x ys) (rw e at h)
    | inr e ↦ rw e at h
  ]
    where
      behind : Somewhere P (x ∷ ys) → Somewhere P (x ∷ y ∷ ys)
      behind (here a as' p) = here x (y ∷ ys) p
      behind (there a as' s) = there x (y ∷ ys) (there y ys s)

      moved :
          (Somewhere P (insert (ends_earlier 𝓟) x ys) → Somewhere P (x ∷ ys))
          → Somewhere P (y ∷ insert (ends_earlier 𝓟) x ys)
          → Somewhere P (x ∷ y ∷ ys)
      moved f (here a as' p) = there x (y ∷ ys) (here y ys p)
      moved f (there a as' s) = behind (f s)

  abbrev pub falling : List (Figure 𝓟) → List (Figure 𝓟)
  falling xs = sort_falling (ends_earlier 𝓟) xs

  pub All-falling : (P : Figure 𝓟 → Type 0) (xs : List (Figure 𝓟)) → All P (falling xs) → All P xs
  unfolding sort_falling
  All-falling P [] h = tt
  All-falling P (x ∷ xs) h = let (p, hs) = All-insert P x (falling xs) h in (p, All-falling P xs hs)

  pub Somewhere-falling :
      (P : Figure 𝓟 → Type 0) (xs : List (Figure 𝓟)) → Somewhere P (falling xs) → Somewhere P xs
  unfolding sort_falling
  Somewhere-falling P [] h = h
  Somewhere-falling P (x ∷ xs) h =
      back (Somewhere-falling P xs) (Somewhere-insert P x (falling xs) h)
    where
      back :
          (Somewhere P (falling xs) → Somewhere P xs)
          → Somewhere P (x ∷ falling xs)
          → Somewhere P (x ∷ xs)
      back f (here a as' p) = here x xs p
      back f (there a as' s) = there x xs (f s)

  pub falling-Perm : (xs : List (Figure 𝓟)) → Perm (falling xs) xs
  unfolding sort_falling
  falling-Perm [] = Perm.refl _
  falling-Perm (x ∷ xs) = Perm.trans (insert-Perm x (falling xs)) (Perm.cons x (falling-Perm xs))

  insert-IsFalling :
      (x : Figure 𝓟) (ys : List (Figure 𝓟))
      → IsFalling ys
      → IsFalling (insert (ends_earlier 𝓟) x ys)
  unfolding insert
  insert-IsFalling x [] h = (tt, tt)
  insert-IsFalling x (y ∷ ys) (h, hs) = elim (Bool-cases (ends_earlier 𝓟 x y)) [
    | inl e ↦ rw e (
      insert-All (λ z. z.1.period_end ≤ y.1.period_end) x ys (earlier e) h,
      insert-IsFalling x ys hs,
    )
    | inr e ↦ rw e ((later e, All-map ys (λ z k. omega (arith, k, later e)) h), (h, hs))
  ]
    where
      earlier : ends_earlier 𝓟 x y ≡ true → x.1.period_end ≤ y.1.period_end
      earlier e = omega (arith, ltb→lt x.1.period_end y.1.period_end e)

      later : ends_earlier 𝓟 x y ≡ false → y.1.period_end ≤ x.1.period_end
      later e = ground (arith, e)

  pub falling-IsFalling : (xs : List (Figure 𝓟)) → IsFalling (falling xs)
  unfolding sort_falling
  falling-IsFalling [] = tt
  falling-IsFalling (x ∷ xs) = insert-IsFalling x (falling xs) (falling-IsFalling xs)

  pub last_of-Among : (x : Figure 𝓟) (xs : List (Figure 𝓟)) → Among (last_of 𝓟 x xs) (x ∷ xs)
  unfolding last_of
  last_of-Among x [] = here x [] refl
  last_of-Among x (y ∷ ys) = there x (y ∷ ys) (last_of-Among y ys)

  pub last_of_le :
      (x : Figure 𝓟) (xs : List (Figure 𝓟))
      → IsFalling (x ∷ xs)
      → All (λ y. (last_of 𝓟 x xs).1.period_end ≤ y.1.period_end) (x ∷ xs)
  unfolding last_of
  last_of_le x [] h = (omega arith, tt)
  last_of_le x (y ∷ ys) ((h, hs), k) =
      let (l, ls) = last_of_le y ys k in (omega (arith, l, h), (l, ls))
