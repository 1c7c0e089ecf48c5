-- ===== src/Audit/Merkle/Binding.antt =====
-- The anchor of audit.service.ts commits to its rows.
use brsr_v.Prelude.{
  ℕ, zero, suc, ◌≤◌, ◌≡◌, ◌≢◌, refl, sym, ap, ◌∙◌, ◌⊎◌, inl, inr, none, List, [], ◌∷◌, ◌++◌, Text,
  text_eq, text_eq_iff, length, All, Bool-cases, arith,
}
use brsr_v.Audit.Merkle.{next_level, climb, merkle_root}

append-inv : (a b c d : Text) → length a ≡ length c → a ++ b ≡ c ++ d → (a ≡ c) × (b ≡ d)
append-inv [] b [] d l e = (refl, e)
append-inv [] b (y ∷ c) d l e = absurd (omega (arith, l))
append-inv (x ∷ a) b [] d l e = absurd (omega (arith, l))
append-inv (x ∷ a) b (y ∷ c) d l e =
    let (p, q) = append-inv a b c d (omega (arith, l)) (cc) in (cc, q)

module _ (sha256 : Text → Text) where
  -- two texts with one hash
  abbrev pub Collision : Type 0
  Collision = (a : Text) × (b : Text) × (a ≢ b) × (sha256 a ≡ sha256 b)

  same_hash : (a b : Text) → sha256 a ≡ sha256 b → (a ≡ b) ⊎ Collision
  same_hash a b e = elim (Bool-cases (text_eq a b)) [
    | inl p ↦ inl ((text_eq_iff a b).0 p)
    | inr p ↦ inr (a, b, (λ q. let z = (text_eq_iff a b).1 q in cc), e)
  ]

  next_level-le : (xs : List Text) → length (next_level sha256 xs) ≤ length xs
  unfolding next_level
  next_level-le [] = omega arith
  next_level-le (x ∷ []) = omega arith
  next_level-le (x ∷ y ∷ xs) = omega (arith, next_level-le xs)

  next_level-length :
      (xs ys : List Text)
      → length xs ≡ length ys
      → length (next_level sha256 xs) ≡ length (next_level sha256 ys)
  unfolding next_level
  next_level-length [] [] l = refl
  next_level-length [] (y ∷ ys) l = absurd (omega (arith, l))
  next_level-length (x ∷ xs) [] l = absurd (omega (arith, l))
  next_level-length (x ∷ []) (y ∷ []) l = refl
  next_level-length (x ∷ []) (y ∷ z ∷ ys) l = absurd (omega (arith, l))
  next_level-length (x ∷ w ∷ xs) (y ∷ []) l = absurd (omega (arith, l))
  next_level-length (x ∷ w ∷ xs) (y ∷ z ∷ ys) l =
      ap suc (next_level-length xs ys (omega (arith, l)))

  shorter :
      (x y : Text) (xs : List Text) (f : ℕ)
      → length (x ∷ y ∷ xs) ≤ suc (suc f)
      → length (next_level sha256 (x ∷ y ∷ xs)) ≤ suc f
  unfolding next_level
  shorter x y xs f l = omega (arith, l, next_level-le xs)

  climb-ne-none : (f : ℕ) (xs : List Text) → length xs ≤ suc f → climb sha256 f xs ≢ none
  unfolding climb next_level
  climb-ne-none f [] l = λ e. cc
  climb-ne-none f (x ∷ []) l = λ e. cc
  climb-ne-none zero (x ∷ y ∷ xs) l = absurd (omega (arith, l))
  climb-ne-none (suc f) (x ∷ y ∷ xs) l =
      climb-ne-none f (next_level sha256 (x ∷ y ∷ xs)) (omega (arith, l, next_level-le xs))

  -- `merkleRoot` always gives a root.
  pub merkle_root_total : (leaves : List Text) → merkle_root sha256 leaves ≢ none
  unfolding merkle_root
  merkle_root_total leaves = climb-ne-none (length leaves) leaves (omega arith)

  module _ (size : ℕ) (sized : (s : Text) → length (sha256 s) ≡ size) where
    abbrev Sized : List Text → Type 0
    Sized xs = All (λ x. length x ≡ size) xs

    next_level-Sized : (xs : List Text) → Sized (next_level sha256 xs)
    unfolding next_level
    next_level-Sized [] = tt
    next_level-Sized (x ∷ []) = (sized (x ++ x), tt)
    next_level-Sized (x ∷ y ∷ xs) = (sized (x ++ y), next_level-Sized xs)

    hashed :
        (a b c d : Text)
        → length a ≡ size
        → length c ≡ size
        → sha256 (a ++ b) ≡ sha256 (c ++ d)
        → ((a ≡ c) × (b ≡ d)) ⊎ Collision
    hashed a b c d p q e = elim (same_hash (a ++ b) (c ++ d) e) [
      | inl h ↦ inl (append-inv a b c d (p ∙ sym q) h)
      | inr h ↦ inr h
    ]

    level-inv :
        (xs ys : List Text)
        → length xs ≡ length ys
        → Sized xs
        → Sized ys
        → next_level sha256 xs ≡ next_level sha256 ys
        → (xs ≡ ys) ⊎ Collision
    unfolding next_level
    level-inv [] [] l s t e = inl refl
    level-inv [] (y ∷ ys) l s t e = absurd (omega (arith, l))
    level-inv (x ∷ xs) [] l s t e = absurd (omega (arith, l))
    level-inv (x ∷ []) (y ∷ []) l (s, _) (t, _) e = elim (hashed x x y y s t (cc)) [
      | inl h ↦ inl (ap (λ z. z ∷ []) h.0)
      | inr h ↦ inr h
    ]
    level-inv (x ∷ []) (y ∷ z ∷ ys) l s t e = absurd (omega (arith, l))
    level-inv (x ∷ w ∷ xs) (y ∷ []) l s t e = absurd (omega (arith, l))
    level-inv (x ∷ w ∷ xs) (y ∷ z ∷ ys) l (s, (_, ss)) (t, (_, ts)) e =
        elim (hashed x w y z s t (cc)) [
          | inr h ↦ inr h
          | inl h ↦ elim (level-inv xs ys (omega (arith, l)) ss ts (cc)) [
            | inr k ↦ inr k
            | inl k ↦ let (p, q) = h in inl (cc)
          ]
        ]

    climb-inv :
        (f : ℕ) (xs ys : List Text)
        → length xs ≤ suc f
        → length xs ≡ length ys
        → Sized xs
        → Sized ys
        → climb sha256 f xs ≡ climb sha256 f ys
        → (xs ≡ ys) ⊎ Collision
    unfolding climb
    climb-inv f [] [] b l s t e = inl refl
    climb-inv f [] (y ∷ ys) b l s t e = absurd (omega (arith, l))
    climb-inv f (x ∷ xs) [] b l s t e = absurd (omega (arith, l))
    climb-inv f (x ∷ []) (y ∷ []) b l s t e = inl (cc)
    climb-inv f (x ∷ []) (y ∷ z ∷ ys) b l s t e = absurd (omega (arith, l))
    climb-inv f (x ∷ w ∷ xs) (y ∷ []) b l s t e = absurd (omega (arith, l))
    climb-inv zero (x ∷ w ∷ xs) (y ∷ z ∷ ys) b l s t e = absurd (omega (arith, b))
    climb-inv (suc f) (x ∷ w ∷ xs) (y ∷ z ∷ ys) b l s t e =
        elim (climb-inv f (next_level sha256 (x ∷ w ∷ xs)) (next_level sha256 (y ∷ z ∷ ys))
          (shorter x w xs f b) (next_level-length (x ∷ w ∷ xs) (y ∷ z ∷ ys) l)
          (next_level-Sized (x ∷ w ∷ xs)) (next_level-Sized (y ∷ z ∷ ys)) e) [
            | inl h ↦ level-inv (x ∷ w ∷ xs) (y ∷ z ∷ ys) l s t h
            | inr h ↦ inr h
          ]

    -- Of a hash whose values all have one length: two lists of as many leaves, all leaves of that
    -- length, that have the same root are the same list, or there are two texts with one hash.
    pub merkle_root-binds :
        (xs ys : List Text)
        → length xs ≡ length ys
        → Sized xs
        → Sized ys
        → merkle_root sha256 xs ≡ merkle_root sha256 ys
        → (xs ≡ ys) ⊎ Collision
    unfolding merkle_root
    merkle_root-binds xs ys l s t e =
        climb-inv (length xs) xs ys (omega arith) l s t (e ∙ ap (λ n. climb sha256 n ys) (sym l))
