-- ===== src/Assurance/Sampling.antt =====
-- The sampling of `sample` in services/api/src/assurance/assurance.service.ts, with `shuffle`.
use brsr_v.Prelude.{
  ℕ, zero, suc, ◌-◌, ◌/◌, Bool, Option, none, some, List, [], ◌∷◌, ◌++◌, Text, text_eq, length,
  take, leb, if◌then◌else◌,
}

pub data SamplingMethod : Type 0 where
  random stratified high_value : SamplingMethod

abbrev pub at_least_one : ℕ → ℕ
at_least_one zero = 1
at_least_one (suc n) = suc n

abbrev pub at_most : ℕ → ℕ → ℕ
at_most n m = if leb n m then n else m

module _ {A : Type 0} where
  unfoldable pub get_at : ℕ → List A → Option A
  get_at i [] = none
  get_at zero (x ∷ xs) = some x
  get_at (suc i) (x ∷ xs) = get_at i xs

  unfoldable pub set_at : ℕ → A → List A → List A
  set_at i y [] = []
  set_at zero y (x ∷ xs) = y ∷ xs
  set_at (suc i) y (x ∷ xs) = x ∷ set_at i y xs

  -- both places of the list are there, since a draw is at most `i`
  unfoldable pub exchanged : ℕ → ℕ → List A → Option A → Option A → List A
  exchanged i j a (some x) (some y) = set_at j x (set_at i y a)
  exchanged i j a _ _ = a

  -- `[a[i], a[j]] = [a[j], a[i]]`
  unfoldable pub swap : ℕ → ℕ → List A → List A
  unfolding get_at exchanged
  swap i j a = exchanged i j a (get_at i a) (get_at j a)

  -- the loop, from an index down to 1; `draw i` is `Math.floor(Math.random() * (i + 1))`
  unfoldable pub shuffle_down : (ℕ → ℕ) → ℕ → List A → List A
  shuffle_down draw zero a = a
  shuffle_down draw (suc i) a = shuffle_down draw i (swap (suc i) (draw (suc i)) a)

  unfoldable pub shuffle : (ℕ → ℕ) → List A → List A
  shuffle draw a = shuffle_down draw (length a - 1) a

  module _ (lower : A → A → Bool) where
    unfoldable pub insert : A → List A → List A
    insert x [] = x ∷ []
    insert x (y ∷ ys) = let rest = insert x ys in if lower x y then y ∷ rest else x ∷ y ∷ ys

    -- `sort` by falling values, which keeps the order of equal ones
    unfoldable pub sort_falling : List A → List A
    sort_falling [] = []
    sort_falling (x ∷ xs) = insert x (sort_falling xs)

  module _ (key : A → Text) where
    -- an item goes to the end of the bucket of its key, or into a new last bucket
    unfoldable pub add_to_bucket : A → List (Text × List A) → List (Text × List A)
    add_to_bucket x [] = (key x, x ∷ []) ∷ []
    add_to_bucket x ((k, arr) ∷ bs) =
        let rest = add_to_bucket x bs in
        if text_eq k (key x) then (k, arr ++ x ∷ []) ∷ bs else (k, arr) ∷ rest

    -- the loop over the items
    unfoldable pub fill_buckets : List (Text × List A) → List A → List (Text × List A)
    fill_buckets bs [] = bs
    fill_buckets bs (x ∷ xs) = fill_buckets (add_to_bucket x bs) xs

  -- the loop over the buckets, each with its own draws
  unfoldable pub from_buckets : (ℕ → ℕ → ℕ) → ℕ → List (Text × List A) → List A
  from_buckets draws per_bucket [] = []
  from_buckets draws per_bucket ((k, arr) ∷ bs) =
      take per_bucket (shuffle (draws (length bs)) arr) ++ from_buckets draws per_bucket bs

  module _ (key : A → Text) (lower : A → A → Bool) (draws : ℕ → ℕ → ℕ) where
    unfoldable pub stratified_sample : ℕ → List A → List A
    stratified_sample size items =
        let buckets = fill_buckets key [] items in
        take size (from_buckets draws (at_least_one (size / length buckets)) buckets)

    -- the sample of a method, of the given size
    unfoldable pub sample_by : SamplingMethod → ℕ → List A → List A
    unfolding shuffle sort_falling stratified_sample
    sample_by random size items = take size (shuffle (draws 0) items)
    sample_by high_value size items = take size (sort_falling lower items)
    sample_by stratified size items = stratified_sample size items

    -- the size that a request asks for, from 1 to the number of items
    unfoldable pub sample_items : SamplingMethod → ℕ → List A → List A
    unfolding sample_by
    sample_items method size [] = []
    sample_items method size (x ∷ xs) =
        sample_by method (at_most (at_least_one size) (length (x ∷ xs))) (x ∷ xs)
