-- ===== src/Assurance/Samples.antt =====
-- What a sample of a snapshot's items is.
use mathlib.Core.List.{
  Perm, Subperm, Subperm-append_left, Subperm-append_right, nil-Subperm, perm_append_singleton,
  perm_middle, perm-cons,
}
use mathlib.Core.List.Perm
use brsr_v.Prelude.{append-nil}
use mathlib.Core.List.Subperm
use mathlib.Core.List
use mathlib.Core.Nat
use brsr_v.Prelude.{
  ℕ, zero, suc, ◌-◌, ◌/◌, ◌≤◌, ◌≡◌, refl, sym, ap, ◌∙◌, subst, inl, inr, Bool, Option, none, some,
  List, [], ◌∷◌, ◌++◌, Text, text_eq, length, take, Bool-cases, arith,
}
use brsr_v.Assurance.Sampling.{
  SamplingMethod, random, stratified, high_value, at_most, at_least_one, get_at, set_at, exchanged,
  swap, shuffle_down, shuffle, insert, sort_falling, add_to_bucket, fill_buckets, from_buckets,
  stratified_sample, sample_by, sample_items,
}

-- Exactly as many items as asked for, or at most that many where the sample is stratified.
unfoldable pub HasSize : SamplingMethod → ℕ → ℕ → Type 0
HasSize stratified n size = n ≤ size
HasSize _ n size = n ≡ size

native : Nat.ℕ → ℕ
native Nat.zero = 0
native (Nat.suc n) = suc (native n)

module _ {A : Type 0} where
  native-length : (xs : List A) → native (List.length xs) ≡ length xs
  unfolding native
  native-length [] = refl
  native-length (x ∷ xs) = ap suc (native-length xs)

  same_length : {xs ys : List A} → Perm xs ys → length xs ≡ length ys
  same_length {xs} {ys} h = sym (native-length xs) ∙ ap native (Perm.length-eq h) ∙ native-length ys

  take-Subperm : (n : ℕ) (xs : List A) → Subperm (take n xs) xs
  take-Subperm zero xs = nil-Subperm
  take-Subperm (suc n) [] = nil-Subperm
  take-Subperm (suc n) (x ∷ xs) = Subperm.cons x (take-Subperm n xs)

  length-take : (n : ℕ) (xs : List A) → length (take n xs) ≡ at_most n (length xs)
  length-take zero xs = ground arith
  length-take (suc n) [] = ground arith
  length-take (suc n) (x ∷ xs) = ground (arith, length-take n xs)

  inj : {x y : A} → some x ≡ some y → x ≡ y
  inj h = cc

  set_at-Perm :
      (i : ℕ) (y x : A) (xs : List A) → get_at i xs ≡ some x → Perm (x ∷ set_at i y xs) (y ∷ xs)
  unfolding get_at set_at
  set_at-Perm i y x [] h = cc
  set_at-Perm zero y x (z ∷ xs) h =
      subst (λ z. Perm (x ∷ y ∷ xs) (y ∷ z ∷ xs)) (sym (inj h)) (Perm.swap y x xs)
  set_at-Perm (suc i) y x (z ∷ xs) h =
      Perm.trans (Perm.swap z x _)
        (Perm.trans (Perm.cons z (set_at-Perm i y x xs h)) (Perm.swap y z xs))

  get_at-set_at :
      (i j : ℕ) (x y : A) (xs : List A)
      → get_at i xs ≡ some x
      → get_at j xs ≡ some y
      → get_at j (set_at i y xs) ≡ some y
  unfolding get_at set_at
  get_at-set_at i j x y [] h k = cc
  get_at-set_at zero zero x y (z ∷ xs) h k = refl
  get_at-set_at zero (suc j) x y (z ∷ xs) h k = k
  get_at-set_at (suc i) zero x y (z ∷ xs) h k = k
  get_at-set_at (suc i) (suc j) x y (z ∷ xs) h k = get_at-set_at i j x y xs h k

  exchanged-Perm :
      (i j : ℕ) (a : List A) (o p : Option A)
      → get_at i a ≡ o
      → get_at j a ≡ p
      → Perm (exchanged i j a o p) a
  unfolding exchanged
  exchanged-Perm i j a none p h k = Perm.refl a
  exchanged-Perm i j a (some x) none h k = Perm.refl a
  exchanged-Perm i j a (some x) (some y) h k = (perm-cons y).0 (
      Perm.trans (set_at-Perm j x y (set_at i y a) (get_at-set_at i j x y a h k))
        (set_at-Perm i y x a h))

  shuffle_down-Perm : (draw : ℕ → ℕ) (n : ℕ) (a : List A) → Perm (shuffle_down draw n a) a
  unfolding shuffle_down swap
  shuffle_down-Perm draw zero a = Perm.refl a
  shuffle_down-Perm draw (suc i) a =
      Perm.trans (shuffle_down-Perm draw i (swap (suc i) (draw (suc i)) a))
        (exchanged-Perm (suc i) (draw (suc i)) a _ _ refl refl)

  pub shuffle-Perm : (draw : ℕ → ℕ) (a : List A) → Perm (shuffle draw a) a
  unfolding shuffle
  shuffle-Perm draw a = shuffle_down-Perm draw (length a - 1) a

  insert-Perm : (lower : A → A → Bool) (x : A) (ys : List A) → Perm (insert lower x ys) (x ∷ ys)
  unfolding insert
  insert-Perm lower x [] = Perm.refl (x ∷ [])
  insert-Perm lower x (y ∷ ys) = elim (Bool-cases (lower x y)) [
    | inl e ↦ rw e (Perm.trans (Perm.cons y (insert-Perm lower x ys)) (Perm.swap x y ys))
    | inr e ↦ rw e (Perm.refl (x ∷ y ∷ ys))
  ]

  sort_falling-Perm : (lower : A → A → Bool) (xs : List A) → Perm (sort_falling lower xs) xs
  unfolding sort_falling
  sort_falling-Perm lower [] = Perm.nil
  sort_falling-Perm lower (x ∷ xs) =
      Perm.trans (insert-Perm lower x (sort_falling lower xs))
        (Perm.cons x (sort_falling-Perm lower xs))

  -- the items of all buckets
  unfoldable all_items : List (Text × List A) → List A
  all_items [] = []
  all_items ((k, arr) ∷ bs) = arr ++ all_items bs

  add_to_bucket-Perm :
      (key : A → Text) (x : A) (bs : List (Text × List A))
      → Perm (all_items (add_to_bucket key x bs)) (x ∷ all_items bs)
  unfolding add_to_bucket all_items
  add_to_bucket-Perm key x [] = Perm.refl (x ∷ [])
  add_to_bucket-Perm key x ((k, arr) ∷ bs) = elim (Bool-cases (text_eq k (key x))) [
    | inl e ↦ rw e (Perm.append_right (all_items bs) (perm_append_singleton x arr))
    | inr e ↦ rw e (
        Perm.trans (Perm.append_left arr (add_to_bucket-Perm key x bs))
          (perm_middle arr (all_items bs)))
  ]

  fill_buckets-Perm :
      (key : A → Text) (bs : List (Text × List A)) (xs : List A)
      → Perm (all_items (fill_buckets key bs xs)) (all_items bs ++ xs)
  unfolding fill_buckets
  fill_buckets-Perm key bs [] =
      subst (λ l. Perm (all_items bs) l) (sym (append-nil _)) (Perm.refl _)
  fill_buckets-Perm key bs (x ∷ xs) =
      Perm.trans (fill_buckets-Perm key (add_to_bucket key x bs) xs) (
        Perm.trans (Perm.append_right xs (add_to_bucket-Perm key x bs))
          (Perm.symm (perm_middle (all_items bs) xs)))

  from_buckets-Subperm :
      (draws : ℕ → ℕ → ℕ) (n : ℕ) (bs : List (Text × List A))
      → Subperm (from_buckets draws n bs) (all_items bs)
  unfolding from_buckets all_items
  from_buckets-Subperm draws n [] = nil-Subperm
  from_buckets-Subperm draws n ((k, arr) ∷ bs) =
      Subperm.trans
        ((Subperm-append_left (take n (shuffle (draws (length bs)) arr))).1
          (from_buckets-Subperm draws n bs))
        ((Subperm-append_right (all_items bs)).1
          (Subperm.trans (take-Subperm n _) (Perm.subperm (shuffle-Perm (draws (length bs)) arr))))

  module _ (key : A → Text) (lower : A → A → Bool) (draws : ℕ → ℕ → ℕ) where
    taken : (n : ℕ) (xs ys : List A) → Subperm xs ys → Subperm (take n xs) ys
    taken n xs ys h = Subperm.trans (take-Subperm n xs) h

    sample_by-Subperm :
        (method : SamplingMethod) (size : ℕ) (items : List A)
        → Subperm (sample_by key lower draws method size items) items
    unfolding sample_by stratified_sample all_items
    sample_by-Subperm random size items =
        taken size _ items (Perm.subperm (shuffle-Perm (draws 0) items))
    sample_by-Subperm high_value size items =
        taken size _ items (Perm.subperm (sort_falling-Perm lower items))
    sample_by-Subperm stratified size items = taken size _ items (
        Subperm.trans (from_buckets-Subperm draws _ _)
          (Perm.subperm (fill_buckets-Perm key [] items)))

    sample_by-HasSize :
        (method : SamplingMethod) (size : ℕ) (items : List A)
        → size ≤ length items
        → HasSize method (length (sample_by key lower draws method size items)) size
    unfolding sample_by stratified_sample HasSize
    sample_by-HasSize random size items h = ground (
      arith,
      length-take size (shuffle (draws 0) items),
      same_length (shuffle-Perm (draws 0) items),
    )
    sample_by-HasSize high_value size items h = ground (
      arith,
      length-take size (sort_falling lower items),
      same_length (sort_falling-Perm lower items),
    )
    sample_by-HasSize stratified size items h = ground (
      arith,
      length-take size (
          from_buckets draws (at_least_one (size / length (fill_buckets key [] items)))
            (fill_buckets key [] items)),
    )

    -- Whatever the draws, a sample holds each item at most as often as the items do. Of at least one
    -- item, it has as many as asked for (at least one, at most all), or at most so many where it is
    -- stratified.
    pub sample_items-Subperm :
        (method : SamplingMethod) (size : ℕ) (x : A) (xs : List A)
        → Subperm (sample_items key lower draws method size (x ∷ xs)) (x ∷ xs)
          × HasSize method
              (length (sample_items key lower draws method size (x ∷ xs)))
              (at_most (at_least_one size) (length (x ∷ xs)))
    unfolding sample_items
    sample_items-Subperm method size x xs =
        (sample_by-Subperm method _ (x ∷ xs), sample_by-HasSize method _ (x ∷ xs) (ground arith))
