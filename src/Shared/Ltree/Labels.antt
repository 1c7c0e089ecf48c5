-- ===== src/Shared/Ltree/Labels.antt =====
-- The labels that `sanitizeLabel` of ltree.ts makes.
use brsr_v.Prelude.{
  ℕ, ◌≡◌, ◌≢◌, refl, sym, ap, inl, inr, Bool, true, false, not, [], ◌∷◌, Text, ◌==◌, if◌then◌else◌,
  Bool-cases, All, arith, ==_iff,
}
use brsr_v.Shared.Letters.{lower_unit, to_lower_case}
use brsr_v.Shared.Ltree.{
  is_safe, replace_runs, collapse, strip_start, before_stripped, strip_end, sanitize_label,
}

-- Every unit is a lower-case letter, a digit or an underscore.
abbrev pub IsSafe : Text → Type 0
IsSafe s = All (λ c. is_safe c ≡ true) s

-- no underscore follows another; `inside` says that one stands before
unfoldable pub is_collapsed : Bool → Text → Bool
is_collapsed inside [] = true
is_collapsed inside (c ∷ s) =
    let kept = is_collapsed false s in
    let run = is_collapsed true s in if not (c == b'_') then kept else if inside then false else run

abbrev starts_clean : Text → Bool
starts_clean [] = true
starts_clean (c ∷ s) = not (c == b'_')

replace_runs-IsSafe : (inside : Bool) (s : Text) → IsSafe (replace_runs inside s)
unfolding replace_runs
replace_runs-IsSafe inside [] = tt
replace_runs-IsSafe inside (c ∷ s) = elim (Bool-cases (is_safe c)) [
  | inl p ↦ rw p (p, replace_runs-IsSafe false s)
  | inr p ↦ elim (Bool-cases inside) [
    | inl q ↦ rw p (rw q (replace_runs-IsSafe true s))
    | inr q ↦ rw p (rw q (refl, replace_runs-IsSafe true s))
  ]
]

replace_runs_safe : (s : Text) → IsSafe s → replace_runs false s ≡ s
unfolding replace_runs
replace_runs_safe [] h = refl
replace_runs_safe (c ∷ s) (p, h) = rw p (ap (λ t. c ∷ t) (replace_runs_safe s h))

collapse-IsSafe : (inside : Bool) (s : Text) → IsSafe s → IsSafe (collapse inside s)
unfolding collapse
collapse-IsSafe inside [] h = tt
collapse-IsSafe inside (c ∷ s) (p, h) = elim (Bool-cases (c == b'_')) [
  | inr q ↦ rw q (p, collapse-IsSafe false s h)
  | inl q ↦ elim (Bool-cases inside) [
    | inl r ↦ rw q (rw r (collapse-IsSafe true s h))
    | inr r ↦ rw q (rw r (refl, collapse-IsSafe true s h))
  ]
]

is_collapsed-collapse : (inside : Bool) (s : Text) → is_collapsed inside (collapse inside s) ≡ true
unfolding collapse is_collapsed
is_collapsed-collapse inside [] = refl
is_collapsed-collapse inside (c ∷ s) = elim (Bool-cases (c == b'_')) [
  | inr q ↦ rw q (rw q (is_collapsed-collapse false s))
  | inl q ↦ elim (Bool-cases inside) [
    | inl r ↦ rw q (rw r (is_collapsed-collapse true s))
    | inr r ↦ rw q (rw r (is_collapsed-collapse true s))
  ]
]

pub false_ne_true : false ≢ true
false_ne_true h = cc

cons_eq : {a b : ℕ} {s t : Text} → a ≡ b → s ≡ t → a ∷ s ≡ b ∷ t
cons_eq p q = cc

collapse_collapsed :
    (inside : Bool) (s : Text) → is_collapsed inside s ≡ true → collapse inside s ≡ s
unfolding collapse is_collapsed
collapse_collapsed inside [] h = refl
collapse_collapsed inside (c ∷ s) h = elim (Bool-cases (c == b'_')) [
  | inr q ↦ rw q (ap (λ t. c ∷ t) (collapse_collapsed false s (rw q at h)))
  | inl q ↦ elim (Bool-cases inside) [
    | inl r ↦ absurd (false_ne_true (rw (q, r) at h))
    | inr r ↦
        rw q
          (rw r (cons_eq (sym ((==_iff c b'_').0 q)) (collapse_collapsed true s (rw (q, r) at h))))
  ]
]

-- what stands after an underscore starts a new part of the text
is_collapsed_weaken : (s : Text) → is_collapsed true s ≡ true → is_collapsed false s ≡ true
unfolding is_collapsed
is_collapsed_weaken [] h = refl
is_collapsed_weaken (c ∷ s) h = elim (Bool-cases (c == b'_')) [
  | inr q ↦ rw q (rw q at h)
  | inl q ↦ absurd (false_ne_true (rw q at h))
]

strip_start-IsSafe : (s : Text) → IsSafe s → IsSafe (strip_start s)
unfolding strip_start
strip_start-IsSafe [] h = tt
strip_start-IsSafe (c ∷ s) (p, h) = elim (Bool-cases (c == b'_')) [
  | inl q ↦ rw q (strip_start-IsSafe s h)
  | inr q ↦ rw q (p, h)
]

strip_start-is_collapsed :
    (s : Text) → is_collapsed false s ≡ true → is_collapsed false (strip_start s) ≡ true
unfolding strip_start is_collapsed
strip_start-is_collapsed [] h = refl
strip_start-is_collapsed (c ∷ s) h = elim (Bool-cases (c == b'_')) [
  | inl q ↦ rw q (strip_start-is_collapsed s (is_collapsed_weaken s (rw q at h)))
  | inr q ↦ rw q (rw q (rw q at h))
]

strip_start-starts_clean : (s : Text) → starts_clean (strip_start s) ≡ true
unfolding strip_start
strip_start-starts_clean [] = refl
strip_start-starts_clean (c ∷ s) = elim (Bool-cases (c == b'_')) [
  | inl q ↦ rw q (strip_start-starts_clean s)
  | inr q ↦ rw q (rw q refl)
]

strip_start_clean : (s : Text) → starts_clean s ≡ true → strip_start s ≡ s
unfolding strip_start
strip_start_clean [] h = refl
strip_start_clean (c ∷ s) h = elim (Bool-cases (c == b'_')) [
  | inl q ↦ absurd (false_ne_true (rw q at h))
  | inr q ↦ rw q refl
]

before_stripped-IsSafe :
    (c : ℕ) (s : Text) → is_safe c ≡ true → IsSafe s → IsSafe (before_stripped c s)
before_stripped-IsSafe c [] p h = elim (Bool-cases (c == b'_')) [
  | inl q ↦ rw q tt
  | inr q ↦ rw q (p, tt)
]
before_stripped-IsSafe c (d ∷ s) p h = (p, h)

strip_end-IsSafe : (s : Text) → IsSafe s → IsSafe (strip_end s)
unfolding strip_end
strip_end-IsSafe [] h = tt
strip_end-IsSafe (c ∷ s) (p, h) = before_stripped-IsSafe c (strip_end s) p (strip_end-IsSafe s h)

before_stripped-is_collapsed :
    (inside : Bool) (c : ℕ) (s t : Text)
    → is_collapsed inside (c ∷ s) ≡ true
    → ((i : Bool) → is_collapsed i s ≡ true → is_collapsed i t ≡ true)
    → is_collapsed inside (before_stripped c t) ≡ true
unfolding is_collapsed
before_stripped-is_collapsed inside c s [] h f = elim (Bool-cases (c == b'_')) [
  | inl q ↦ rw q refl
  | inr q ↦ rw q (rw q refl)
]
before_stripped-is_collapsed inside c s (d ∷ t) h f = elim (Bool-cases (c == b'_')) [
  | inr q ↦ rw q (f false (rw q at h))
  | inl q ↦ elim (Bool-cases inside) [
    | inl r ↦ absurd (false_ne_true (rw (q, r) at h))
    | inr r ↦ rw q (rw r (f true (rw (q, r) at h)))
  ]
]

strip_end-is_collapsed :
    (inside : Bool) (s : Text)
    → is_collapsed inside s ≡ true
    → is_collapsed inside (strip_end s) ≡ true
unfolding strip_end
strip_end-is_collapsed inside [] h = h
strip_end-is_collapsed inside (c ∷ s) h =
    before_stripped-is_collapsed inside c s (strip_end s) h λ i k. strip_end-is_collapsed i s k

before_stripped-starts_clean :
    (c : ℕ) (s : Text) → not (c == b'_') ≡ true → starts_clean (before_stripped c s) ≡ true
before_stripped-starts_clean c [] h = elim (Bool-cases (c == b'_')) [
  | inl q ↦ rw q refl
  | inr q ↦ rw q (rw q refl)
]
before_stripped-starts_clean c (d ∷ s) h = h

strip_end-starts_clean : (s : Text) → starts_clean s ≡ true → starts_clean (strip_end s) ≡ true
unfolding strip_end
strip_end-starts_clean [] h = h
strip_end-starts_clean (c ∷ s) h = before_stripped-starts_clean c (strip_end s) h

strip_end-before_stripped :
    (c : ℕ) (s : Text) → strip_end s ≡ s → strip_end (before_stripped c s) ≡ before_stripped c s
unfolding strip_end
strip_end-before_stripped c [] h = elim (Bool-cases (c == b'_')) [
  | inl q ↦ rw q refl
  | inr q ↦ rw q (rw q refl)
]
strip_end-before_stripped c (d ∷ s) h = ap (before_stripped c) h

strip_end_idempotent : (s : Text) → strip_end (strip_end s) ≡ strip_end s
unfolding strip_end
strip_end_idempotent [] = refl
strip_end_idempotent (c ∷ s) = strip_end-before_stripped c (strip_end s) (strip_end_idempotent s)

lower_unit_safe : (c : ℕ) → is_safe c ≡ true → lower_unit c ≡ c ∷ []
lower_unit_safe c h = ground arith

to_lower_case_safe : (s : Text) → IsSafe s → to_lower_case s ≡ s
unfolding to_lower_case
to_lower_case_safe [] h = refl
to_lower_case_safe (c ∷ s) (p, h) =
    rw (lower_unit_safe c p) (ap (λ t. c ∷ t) (to_lower_case_safe s h))

-- A label that can stand in a path as it is.
pub record IsClean (s : Text) : Type 0 where
  pub safe : IsSafe s
  pub collapsed : is_collapsed false s ≡ true
  pub starts : strip_start s ≡ s
  pub ends : strip_end s ≡ s

sanitize_label-IsClean : (s : Text) → IsClean (sanitize_label s)
unfolding sanitize_label
sanitize_label-IsClean s =
    let raw = replace_runs false (to_lower_case s) in
    let mid = collapse false raw in
    let front = strip_start mid in
    record {
      safe = strip_end-IsSafe front (
          strip_start-IsSafe mid
            (collapse-IsSafe false raw (replace_runs-IsSafe false (to_lower_case s))));
      collapsed =
          strip_end-is_collapsed false front
            (strip_start-is_collapsed mid (is_collapsed-collapse false raw));
      starts =
          strip_start_clean (strip_end front)
            (strip_end-starts_clean front (strip_start-starts_clean mid));
      ends = strip_end_idempotent front;
    }

pub sanitize_label_clean : (s : Text) → IsClean s → sanitize_label s ≡ s
unfolding sanitize_label
sanitize_label_clean s h = rw (to_lower_case_safe s h.safe) (
    rw (replace_runs_safe s h.safe)
      (rw (collapse_collapsed false s h.collapsed) (rw h.starts h.ends)))

-- Whatever text a label is made of, it has only lower-case letters, digits and underscores, no
-- underscore follows another, none stands at an end, and sanitizing the label again changes nothing.
pub sanitize_label_fixed :
    (s : Text) → IsClean (sanitize_label s) × (sanitize_label (sanitize_label s) ≡ sanitize_label s)
sanitize_label_fixed s =
    (sanitize_label-IsClean s, sanitize_label_clean (sanitize_label s) (sanitize_label-IsClean s))
