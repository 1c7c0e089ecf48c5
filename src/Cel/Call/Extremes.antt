-- ===== src/Cel/Call/Extremes.antt =====
-- `min` and `max` of cel-evaluator.ts, over numbers of one unit.
use mathlib.Core.List.{Memᴰ}
use brsr_v.Prelude.{
  ◌≡◌, ◌≢◌, refl, ◌∙◌, ◌⊎◌, inl, inr, Bool, true, false, Option, List, [], ◌∷◌, Text, codes, All,
  Bool-cases, if◌then◌else◌, arith,
}
use brsr_v.Cel.Decimal.{Decimal, Sign, less, same, more, nan}
use brsr_v.Cel.Outcome.{ok}
use brsr_v.Cel.Call.{best, eval_best, eval_call, is_less, is_more}
use brsr_v.Cel.Call.Laws.{quantity, quantities, unit_eq_iff}

abbrev pub flipped : Sign → Sign
flipped less = more
flipped same = same
flipped more = less
flipped nan = nan

once : {A : Type 0} {x d : A} {ds : List A} → Memᴰ x (d ∷ d ∷ ds) → Memᴰ x (d ∷ ds)
once (Memᴰ.head e) = Memᴰ.head e
once (Memᴰ.tail m) = m

module _ (𝓓 : Decimal) where
  open 𝓓 use {D, cmp}

  abbrev pub AtMost : D → D → Type 0
  AtMost a b = (cmp a b ≡ less) ⊎ (cmp a b ≡ same)

  -- What decimal.js documents of `cmp` on numbers that are not NaN.
  pub record IsOrdered : Type 0 where
    pub no_nan : (a b : D) → cmp a b ≢ nan
    pub itself : (a : D) → cmp a a ≡ same
    pub flip : (a b : D) → cmp b a ≡ flipped (cmp a b)
    pub trans : (a b c : D) → AtMost a b → AtMost b c → AtMost a c

  module _ (better : Sign → Bool) where
    -- the number that the loop of min or max ends with
    extreme : D → List D → D
    extreme top [] = top
    extreme top (d ∷ ds) = extreme (if better (cmp d top) then d else top) ds

    best-extreme :
        (u : Option Text) (top : D) (ds : List D)
        → best 𝓓 better u top (quantities 𝓓 u ds) ≡ ok (extreme top ds)
    unfolding best extreme
    best-extreme u top [] = refl
    best-extreme u top (d ∷ ds) =
        rw ((unit_eq_iff u u).1 refl) (best-extreme u (if better (cmp d top) then d else top) ds)

    -- `R` is an order in which the loop keeps the better of two.
    record Chooses (R : D → D → Type 0) : Type 0 where
      reflexive : (a : D) → R a a
      transitive : (a b c : D) → R a b → R b c → R a c
      taken : (a b : D) → better (cmp a b) ≡ true → R a b
      kept : (a b : D) → better (cmp a b) ≡ false → R b a

    module _ {R : D → D → Type 0} (ch : Chooses R) where
      chosen :
          (top d : D)
          → R (if better (cmp d top) then d else top) top
            × R (if better (cmp d top) then d else top) d
      chosen top d = elim (Bool-cases (better (cmp d top))) [
        | inl p ↦ rw p (ch.taken d top p, ch.reflexive d)
        | inr p ↦ rw p (ch.reflexive top, ch.kept d top p)
      ]

      extreme-bound :
          (top : D) (ds : List D) → R (extreme top ds) top × All (λ d. R (extreme top ds) d) ds
      unfolding extreme
      extreme-bound top [] = (ch.reflexive top, tt)
      extreme-bound top (d ∷ ds) =
          let (below, rest) = extreme-bound (if better (cmp d top) then d else top) ds in
          let (over_top, over_d) = chosen top d in
          (ch.transitive _ _ _ below over_top, (ch.transitive _ _ _ below over_d, rest))

    extreme-mem : (top : D) (ds : List D) → Memᴰ (extreme top ds) (top ∷ ds)
    unfolding extreme
    extreme-mem top [] = Memᴰ.head refl
    extreme-mem top (d ∷ ds) = elim (Bool-cases (better (cmp d top))) [
      | inl p ↦ rw p (Memᴰ.tail (extreme-mem d ds))
      | inr p ↦ rw p (skip (extreme-mem top ds))
    ]
      where
        skip : {x : D} → Memᴰ x (top ∷ ds) → Memᴰ x (top ∷ d ∷ ds)
        skip (Memᴰ.head e) = Memᴰ.head e
        skip (Memᴰ.tail m) = Memᴰ.tail (Memᴰ.tail m)

    -- the call over one or more numbers of one unit
    eval_best-extreme :
        (u : Option Text) (d : D) (ds : List D)
        → eval_best 𝓓 better (quantities 𝓓 u (d ∷ ds)) ≡ ok (quantity 𝓓 u (extreme d (d ∷ ds)))
    unfolding eval_best
    eval_best-extreme u d ds = rw (best-extreme u d (d ∷ ds))

  call_min :
      (u : Option Text) (ds : List D)
      → eval_call 𝓓 (codes "min") (quantities 𝓓 u ds) ≡ eval_best 𝓓 (is_less 𝓓) (quantities 𝓓 u ds)
  unfolding eval_call
  call_min u ds = refl

  call_max :
      (u : Option Text) (ds : List D)
      → eval_call 𝓓 (codes "max") (quantities 𝓓 u ds) ≡ eval_best 𝓓 (is_more 𝓓) (quantities 𝓓 u ds)
  unfolding eval_call
  call_max u ds = refl

  module _ (order : IsOrdered) where
    min_taken : (a b : D) → is_less 𝓓 (cmp a b) ≡ true → AtMost a b
    min_taken a b h = ground (arith, order.no_nan a b)

    min_kept : (a b : D) → is_less 𝓓 (cmp a b) ≡ false → AtMost b a
    min_kept a b h = ground (arith, order.no_nan a b, order.flip a b)

    max_taken : (a b : D) → is_more 𝓓 (cmp a b) ≡ true → AtMost b a
    max_taken a b h = ground (arith, order.flip a b)

    max_kept : (a b : D) → is_more 𝓓 (cmp a b) ≡ false → AtMost a b
    max_kept a b h = ground (arith, order.no_nan a b)

    min_chooses : Chooses (is_less 𝓓) AtMost
    min_chooses = record {
      reflexive = λ a. inr (order.itself a);
      transitive = order.trans;
      taken = min_taken;
      kept = min_kept;
    }

    max_chooses : Chooses (is_more 𝓓) (λ a b. AtMost b a)
    max_chooses = record {
      reflexive = λ a. inr (order.itself a);
      transitive = λ a b c p q. order.trans c b a q p;
      taken = max_taken;
      kept = max_kept;
    }

    -- Over one or more numbers of one unit, where `cmp` orders the numbers, the call min(...) gives
    -- one of them, in that unit, that is at most each of them; and max(...) gives one of them, in
    -- that unit, that each of them is at most.
    pub eval_min_max :
        (u : Option Text) (d : D) (ds : List D)
        → ((m : D) × (eval_call 𝓓 (codes "min") (quantities 𝓓 u (d ∷ ds)) ≡ ok (quantity 𝓓 u m))
            × All (λ x. AtMost m x) (d ∷ ds)
            × Memᴰ m (d ∷ ds))
          × ((m : D) × (eval_call 𝓓 (codes "max") (quantities 𝓓 u (d ∷ ds)) ≡ ok (quantity 𝓓 u m))
              × All (λ x. AtMost x m) (d ∷ ds)
              × Memᴰ m (d ∷ ds))
    eval_min_max u d ds = (
      (
        extreme (is_less 𝓓) d (d ∷ ds),
        call_min u (d ∷ ds) ∙ eval_best-extreme (is_less 𝓓) u d ds,
        (extreme-bound (is_less 𝓓) min_chooses d (d ∷ ds)).1,
        once (extreme-mem (is_less 𝓓) d (d ∷ ds)),
      ),
      (
        extreme (is_more 𝓓) d (d ∷ ds),
        call_max u (d ∷ ds) ∙ eval_best-extreme (is_more 𝓓) u d ds,
        (extreme-bound (is_more 𝓓) max_chooses d (d ∷ ds)).1,
        once (extreme-mem (is_more 𝓓) d (d ∷ ds)),
      ),
    )
