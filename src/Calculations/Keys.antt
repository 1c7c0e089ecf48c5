-- ===== src/Calculations/Keys.antt =====
-- The keys of formulas, and how many are not on the path of a visit.
use brsr_v.Prelude.{
  ℕ, suc, ◌≤◌, ◌<◌, ◌≡◌, refl, sym, ap, ◌∙◌, subst, inl, inr, Bool, true, false, ◌||◌, Option, none,
  some, List, [], ◌∷◌, Text, text_eq, text_eq_iff, is_one_of, if◌then◌else◌, length, All,
  Bool-cases, All-map, arith,
}
use brsr_v.Calculations.{Formula, or_this, by_key, has_key}

-- how many formulas have no key on the path
unfoldable pub left : List Formula → List Text → ℕ
left [] stack = 0
left (f ∷ fs) stack =
    let rest = left fs stack in if is_one_of f.output_key stack then rest else suc rest

pub left-le : (fs : List Formula) (stack : List Text) → left fs stack ≤ length fs
unfolding left
left-le [] stack = omega arith
left-le (f ∷ fs) stack = elim (Bool-cases (is_one_of f.output_key stack)) [
  | inl p ↦ rw p (omega (arith, left-le fs stack))
  | inr p ↦ rw p (omega (arith, left-le fs stack))
]

left-push :
    (fs : List Formula) (key : Text) (stack : List Text) → left fs (key ∷ stack) ≤ left fs stack
unfolding left is_one_of
left-push [] key stack = omega arith
left-push (f ∷ fs) key stack = elim (Bool-cases (text_eq f.output_key key)) [
  | inl p ↦ elim (Bool-cases (is_one_of f.output_key stack)) [
    | inl q ↦ rw p (rw q (left-push fs key stack))
    | inr q ↦ rw p (rw q (omega (arith, left-push fs key stack)))
  ]
  | inr p ↦ elim (Bool-cases (is_one_of f.output_key stack)) [
    | inl q ↦ rw p (rw q (left-push fs key stack))
    | inr q ↦ rw p (rw q (omega (arith, left-push fs key stack)))
  ]
]

pub left-lt :
    (fs : List Formula) (key : Text) (stack : List Text)
    → has_key key fs ≡ true
    → is_one_of key stack ≡ false
    → left fs (key ∷ stack) < left fs stack
unfolding left is_one_of has_key
left-lt [] key stack h q = cc
left-lt (f ∷ fs) key stack h q = elim (Bool-cases (text_eq f.output_key key)) [
  | inl p ↦
      let e = (text_eq_iff f.output_key key).0 p in
      rw p (
        rw (subst (λ k. is_one_of k stack ≡ false) (sym e) q)
          (omega (arith, left-push fs key stack)))
  | inr p ↦ elim (Bool-cases (is_one_of f.output_key stack)) [
    | inl r ↦ rw p (rw r (left-lt fs key stack (rw p at h) q))
    | inr r ↦ rw p (rw r (omega (arith, left-lt fs key stack (rw p at h) q)))
  ]
]

pub or-true : (b : Bool) → (b || true) ≡ true
or-true true = refl
or-true false = refl

this-inv : (b : Bool) (g f : Formula) → (if b then some g else none) ≡ some f → (b ≡ true) × (f ≡ g)
this-inv true g f h = (refl, cc)
this-inv false g f h = cc

or_this-inv :
    (o : Option Formula) (g f : Formula) (key : Text) (b : Bool)
    → ((d : Formula) → o ≡ some d → (d.output_key ≡ key) × (b ≡ true))
    → or_this o g key ≡ some f
    → (f.output_key ≡ key) × ((text_eq g.output_key key || b) ≡ true)
or_this-inv (some d) g f key b h e =
    let (p, q) = h f e in
    (p, ap (λ x. text_eq g.output_key key || x) q ∙ or-true (text_eq g.output_key key))
or_this-inv none g f key b h e =
    let (p, q) = this-inv (text_eq g.output_key key) g f e in
    (ap (λ x. x.output_key) q ∙ (text_eq_iff g.output_key key).0 p, ap (λ x. x || b) p)

pub by_key-has_key :
    (fs : List Formula) (key : Text) (f : Formula)
    → by_key fs key ≡ some f
    → (f.output_key ≡ key) × (has_key key fs ≡ true)
unfolding by_key has_key
by_key-has_key [] key f h = cc
by_key-has_key (g ∷ fs) key f h =
    or_this-inv (by_key fs key) g f key (has_key key fs) (by_key-has_key fs key) h

pub text_eq_refl : (s : Text) → text_eq s s ≡ true
text_eq_refl s = (text_eq_iff s s).1 refl

pub has_key_self : (fs : List Formula) → All (λ f. has_key f.output_key fs ≡ true) fs
unfolding has_key
has_key_self [] = tt
has_key_self (f ∷ fs) = (
  rw (text_eq_refl f.output_key),
  All-map fs
      (λ g h.
        ap (λ b. text_eq f.output_key g.output_key || b) h
        ∙ or-true (text_eq f.output_key g.output_key))
      (has_key_self fs),
)
