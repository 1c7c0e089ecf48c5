-- ===== src/Platform/Memory.antt =====
-- A platform for the tests: tables in memory as association lists, with numbers that are integers.
use brsr_v.Prelude.{
  Bool, Somewhere, here, there, subst, sym, ==-ne_false, ℕ, suc, ◌+◌, ◌≤◌, ◌≡◌, ◌≢◌, refl, ap, ◌∙◌,
  true, inl, inr, Option, none, some, List, [], ◌∷◌, codes, ◌==◌, ==_iff, Bool-cases, All, length,
  All-map, false, if◌then◌else◌, arith,
}
use brsr_v.Cel.Integers.{integers}
use brsr_v.Platform.{Platform}
use brsr_v.Platform.Laws.{IsDatabase, FindsAll}

module _ {A : Type 0} where
  unfoldable pub get_row : List (ℕ × A) → ℕ → Option A
  get_row [] id = none
  get_row ((j, a) ∷ t) id = let rest = get_row t id in if j == id then some a else rest

  unfoldable pub put_row : List (ℕ × A) → ℕ → A → List (ℕ × A)
  put_row [] id b = []
  put_row ((j, a) ∷ t) id b =
      let rest = put_row t id b in if j == id then (j, b) ∷ t else (j, a) ∷ rest

  unfoldable pub without : ℕ → List (ℕ × A) → List (ℕ × A)
  without id [] = []
  without id ((j, a) ∷ t) = let rest = without id t in if id == j then rest else (j, a) ∷ rest

  -- a row hides the later ones with its id
  unfoldable pub rows_with : List (ℕ × A) → (A → Bool) → List (ℕ × A)
  unfolding without
  rows_with [] test = []
  rows_with ((j, a) ∷ t) test =
      let rest = without j (rows_with t test) in if test a then (j, a) ∷ rest else rest

  -- an id above all that are taken
  unfoldable pub fresh : List (ℕ × A) → ℕ
  fresh [] = 0
  fresh ((j, a) ∷ t) = suc (j + fresh t)

abbrev pub memory : Platform
memory = record {
  numbers = integers;
  Rows = λ A. List (ℕ × A);
  get = λ {A} t id. get_row t id;
  put = λ {A} t id a. put_row t id a;
  create = λ {A} t a. (fresh t, (fresh t, a) ∷ t);
  many = λ {A} t test. rows_with t test;
  json_object = λ fields. codes "{}";
  iso_string = λ n. codes "1970-01-01T00:00:00.000Z";
  id_string = λ n. codes "user";
  takes = λ row. true;
}

module _ {A : Type 0} where
  get-put_row :
      (t : List (ℕ × A)) (id : ℕ) (a b : A)
      → get_row t id ≡ some a
      → get_row (put_row t id b) id ≡ some b
  unfolding get_row put_row
  get-put_row [] id a b h = cc
  get-put_row ((j, c) ∷ t) id a b h = elim (Bool-cases (j == id)) [
    | inl p ↦ rw p (rw p refl)
    | inr p ↦ rw p (rw p (get-put_row t id a b (rw p at h)))
  ]

  get-put_row_other :
      (t : List (ℕ × A)) (id k : ℕ) (b : A) → id ≢ k → get_row (put_row t id b) k ≡ get_row t k
  unfolding get_row put_row
  get-put_row_other [] id k b h = refl
  get-put_row_other ((j, c) ∷ t) id k b h = elim (Bool-cases (j == id)) [
    | inl p ↦ rw p (rw (==-ne_false j k (λ q. h (sym ((==_iff j id).0 p) ∙ q))) refl)
    | inr p ↦ rw p (ap (λ o. if j == k then some c else o) (get-put_row_other t id k b h))
  ]

  get-fresh : (t : List (ℕ × A)) (id : ℕ) → fresh t ≤ id → get_row t id ≡ none
  unfolding get_row fresh
  get-fresh [] id h = refl
  get-fresh ((j, a) ∷ t) id h = rw (==-ne_false j id (omega arith)) (get-fresh t id (omega arith))

  without-All :
      (P : ℕ × A → Type 0) (id : ℕ) (t : List (ℕ × A))
      → All P t
      → All (λ x. P x × ((id == x.0) ≡ false)) (without id t)
  unfolding without
  without-All P id [] h = tt
  without-All P id ((j, a) ∷ t) (p, h) = elim (Bool-cases (id == j)) [
    | inl q ↦ rw q (without-All P id t h)
    | inr q ↦ rw q ((p, q), without-All P id t h)
  ]

  rows_with-All :
      (t : List (ℕ × A)) (test : A → Bool)
      → All (λ x. (get_row t x.0 ≡ some x.1) × (test x.1 ≡ true)) (rows_with t test)
  unfolding rows_with get_row
  rows_with-All [] test = tt
  rows_with-All ((j, a) ∷ t) test =
      let rest =
        All-map (without j (rows_with t test)) (λ x ((p, q), r). (rw r p, q))
          (without-All _ j (rows_with t test) (rows_with-All t test)) in
      elim (Bool-cases (test a)) [
        | inl q ↦ rw q ((rw ((==_iff j j).1 refl) refl, q), rest)
        | inr q ↦ rw q rest
      ]

  length-without : (id : ℕ) (t : List (ℕ × A)) → length (without id t) ≤ length t
  unfolding without
  length-without id [] = omega arith
  length-without id ((j, a) ∷ t) = elim (Bool-cases (id == j)) [
    | inl q ↦ rw q (omega (arith, length-without id t))
    | inr q ↦ rw q (omega (arith, length-without id t))
  ]

  length-rows_with :
      (j : ℕ) (t : List (ℕ × A)) (a : A) (test : A → Bool)
      → length (rows_with ((j, a) ∷ t) test) ≤ length (rows_with t test) + (if test a then 1 else 0)
  unfolding rows_with
  length-rows_with j t a test = elim (Bool-cases (test a)) [
    | inl q ↦ rw q (omega (arith, length-without j (rows_with t test)))
    | inr q ↦ rw q (omega (arith, length-without j (rows_with t test)))
  ]

  Somewhere-without :
      (id j : ℕ) (a : A) (t : List (ℕ × A))
      → (id == j) ≡ false
      → Somewhere (λ x. x ≡ (j, a)) t
      → Somewhere (λ x. x ≡ (j, a)) (without id t)
  unfolding without
  Somewhere-without id j a [] h found = elim found [ ]
  Somewhere-without id j a ((k, b) ∷ t) h (here _ _ e) =
      let p = subst (λ n. (id == n) ≡ false) (sym (ap (λ x. x.0) e)) h in
      rw p (here (k, b) (without id t) e)
  Somewhere-without id j a ((k, b) ∷ t) h (there _ _ s) = elim (Bool-cases (id == k)) [
    | inl q ↦ rw q (Somewhere-without id j a t h s)
    | inr q ↦ rw q (there (k, b) (without id t) (Somewhere-without id j a t h s))
  ]

  found-rows_with :
      (t : List (ℕ × A)) (test : A → Bool) (id : ℕ) (a : A)
      → get_row t id ≡ some a
      → test a ≡ true
      → Somewhere (λ x. x ≡ (id, a)) (rows_with t test)
  unfolding rows_with get_row
  found-rows_with [] test id a h k = cc
  found-rows_with ((j, b) ∷ t) test id a h k = elim (Bool-cases (j == id)) [
    | inl p ↦
        let e = inj (rw p at h) in rw (ap test e ∙ k) (here (j, b) _ (same ((==_iff j id).0 p) e))
    | inr p ↦
        let found =
          Somewhere-without j id a (rows_with t test) p
            (found-rows_with t test id a (rw p at h) k) in
        elim (Bool-cases (test b)) [ inl q ↦ rw q (there (j, b) _ found) | inr q ↦ rw q found ]
  ]
    where
      inj : some b ≡ some a → b ≡ a
      inj e = cc

      same : j ≡ id → b ≡ a → ◌≡◌ {A = ℕ × A} (j, b) (id, a)
      same p e = cc

pub memory-FindsAll : {A : Type 0} (t : List (ℕ × A)) → FindsAll memory t
memory-FindsAll t = record { is_found = λ test id a h k. found-rows_with t test id a h k }

pub memory-IsDatabase : IsDatabase memory
unfolding get_row
memory-IsDatabase = record {
  get-put = λ {A} t id a b h. get-put_row t id a b h;
  get-put_other = λ {A} t id k b h. get-put_row_other t id k b h;
  create_fresh = λ {A} t a. get-fresh t (fresh t) (omega arith);
  get-create = λ {A} t a. rw ((==_iff (fresh t) (fresh t)).1 refl);
  get-create_other = λ {A} t a j h. rw (==-ne_false (fresh t) j h);
  many-All = λ {A} t test. rows_with-All t test;
  length-many-create = λ {A} t a test. length-rows_with (fresh t) t a test;
}
