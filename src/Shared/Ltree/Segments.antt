-- ===== src/Shared/Ltree/Segments.antt =====
-- Paths of ltree.ts as lists of segments.
use brsr_v.Prelude.{
  ℕ, ◌≡◌, ◌↔◌, ◌⊎◌, refl, sym, ap, ◌∙◌, subst, inl, inr, Bool, true, false, ◌&&◌, ◌||◌, none, some,
  List, [], ◌∷◌, ◌++◌, Text, text_eq, text_eq_iff, ◌==◌, Bool-cases, ==_iff, append-nil,
  append_assoc, arith,
}
use brsr_v.Shared.Ltree.{split, split_from, split_step, join, parent_path, starts_with, is_ancestor}
use brsr_v.Shared.Ltree.Labels.{IsSafe}

-- the dot
abbrev dot : ℕ
dot = b'.'

-- a text, a dot and a text have the segments of the one and of the other
pub split-dot : (s t : Text) → split (s ++ dot ∷ t) ≡ split s ++ split t
unfolding split split_from
split-dot [] t = refl
split-dot (c ∷ s) t = step (split_from (s ++ dot ∷ t)) (split_from s) (split-dot s t)
  where
    step :
        (p q : Text × List Text)
        → p.0 ∷ p.1 ≡ (q.0 ∷ q.1) ++ split t
        → (split_step c p).0 ∷ (split_step c p).1
          ≡ ((split_step c q).0 ∷ (split_step c q).1) ++ split t
    step (p, ps) (q, qs) h = elim (Bool-cases (c == dot)) [
      | inl e ↦ rw e (ap (λ l. [] ∷ l) h)
      | inr e ↦ rw e cc
    ]

join_first : (c : ℕ) (s : Text) (ts : List Text) → join ((c ∷ s) ∷ ts) ≡ c ∷ join (s ∷ ts)
unfolding join
join_first c s [] = refl
join_first c s (t ∷ ts) = refl

-- splitting a path loses nothing
join-split : (s : Text) → join (split s) ≡ s
unfolding split split_from join
join-split [] = refl
join-split (c ∷ s) = step (split_from s) (join-split s)
  where
    step :
        (p : Text × List Text)
        → join (p.0 ∷ p.1) ≡ s
        → join ((split_step c p).0 ∷ (split_step c p).1) ≡ c ∷ s
    step (p, ps) h = elim (Bool-cases (c == dot)) [
      | inl e ↦ rw e (ap (λ l. dot ∷ l) h ∙ ap (λ d. d ∷ s) (sym ((==_iff c dot).0 e)))
      | inr e ↦ rw e (join_first c p ps ∙ ap (λ l. c ∷ l) h)
    ]

join-append :
    (s t : Text) (ss ts : List Text)
    → join ((s ∷ ss) ++ t ∷ ts) ≡ join (s ∷ ss) ++ dot ∷ join (t ∷ ts)
unfolding join
join-append s t [] ts = refl
join-append s t (r ∷ ss) ts =
    ap (λ l. s ++ dot ∷ l) (join-append r t ss ts)
    ∙ sym (append_assoc s (dot ∷ join (r ∷ ss)) (dot ∷ join (t ∷ ts)))

split_injective : (s t : Text) → split s ≡ split t → s ≡ t
split_injective s t h = sym (join-split s) ∙ ap join h ∙ join-split t

starts_with_append : (s t : Text) → starts_with (s ++ t) s ≡ true
unfolding starts_with
starts_with_append [] [] = refl
starts_with_append [] (c ∷ t) = refl
starts_with_append (c ∷ s) t = rw ((==_iff c c).1 refl) (starts_with_append s t)

and-inv : (a b : Bool) → (a && b) ≡ true → (a ≡ true) × (b ≡ true)
and-inv true b h = (refl, h)
and-inv false b h = cc

starts_with-inv : (s p : Text) → starts_with s p ≡ true → (r : Text) × (s ≡ p ++ r)
unfolding starts_with
starts_with-inv s [] h = (s, refl)
starts_with-inv [] (c ∷ p) h = cc
starts_with-inv (d ∷ s) (c ∷ p) h =
    let (e, k) = and-inv (d == c) (starts_with s p) h in
    let (r, q) = starts_with-inv s p k in
    (r, ap (λ x. x ∷ s) ((==_iff d c).0 e) ∙ ap (λ l. c ∷ l) q)

or-inv : (a b : Bool) → (a || b) ≡ true → (a ≡ true) ⊎ (b ≡ true)
or-inv true b h = inl refl
or-inv false b h = inr h

or_true : (a : Bool) → (a || true) ≡ true
or_true true = refl
or_true false = refl

below-dot : (a r : Text) → starts_with (a ++ dot ∷ r) (a ++ dot ∷ []) ≡ true
below-dot a r =
    subst (λ d. starts_with d (a ++ dot ∷ []) ≡ true) (append_assoc a (dot ∷ []) r)
      (starts_with_append (a ++ dot ∷ []) r)

-- A path is an ancestor of a path exactly where its list of segments begins the other's: the test on
-- the texts, with its dot, does not take a segment for another that only begins alike.
pub is_ancestor_iff :
    (a d : Text) → (is_ancestor a d ≡ true) ↔ ((rest : List Text) × (split d ≡ split a ++ rest))
unfolding is_ancestor split
is_ancestor_iff a d = (there, λ (rest, h). back rest h)
  where
    there : is_ancestor a d ≡ true → (rest : List Text) × (split d ≡ split a ++ rest)
    there h = elim (or-inv (text_eq a d) _ h) [
      | inl e ↦ ([], ap split (sym ((text_eq_iff a d).0 e)) ∙ sym (append-nil (split a)))
      | inr e ↦
          let (r, q) = starts_with-inv d (a ++ dot ∷ []) e in
          (split r, ap split (q ∙ append_assoc a (dot ∷ []) r) ∙ split-dot a r)
    ]

    back : (rest : List Text) → split d ≡ split a ++ rest → is_ancestor a d ≡ true
    back [] h =
        ap (λ b. b || starts_with d (a ++ dot ∷ []))
          ((text_eq_iff a d).1 (sym (split_injective d a (h ∙ append-nil (split a)))))
    back (r ∷ rest) h =
        let e =
          sym (join-split d)
          ∙ ap join h
          ∙ join-append (split_from a).0 r (split_from a).1 rest
          ∙ ap (λ x. x ++ dot ∷ join (r ∷ rest)) (join-split a) in
        subst (λ x. (text_eq a x || starts_with x (a ++ dot ∷ [])) ≡ true) (sym e)
          (ap (λ b. text_eq a (a ++ dot ∷ join (r ∷ rest)) || b) (below-dot a (join (r ∷ rest)))
            ∙ or_true _)

-- a safe text has no dot, so it is one segment
pub safe_split : (s : Text) → IsSafe s → split s ≡ s ∷ []
unfolding split split_from
safe_split [] h = refl
safe_split (c ∷ s) (p, h) = step (split_from s) (safe_split s h)
  where
    no_dot : (c == dot) ≡ false
    no_dot = ground (arith, (==_iff c dot).0)

    step :
        (q : Text × List Text)
        → q.0 ∷ q.1 ≡ s ∷ []
        → (split_step c q).0 ∷ (split_step c q).1 ≡ (c ∷ s) ∷ []
    step (q, qs) e = rw no_dot cc

parent_path_safe : (s : Text) → IsSafe s → parent_path s ≡ none
unfolding parent_path
parent_path_safe [] h = refl
parent_path_safe (c ∷ s) (p, h) = rw (parent_path_safe s h) (rw no_dot refl)
  where
    no_dot : (c == dot) ≡ false
    no_dot = ground (arith, (==_iff c dot).0)

pub parent_path-dot : (p s : Text) → IsSafe s → parent_path (p ++ dot ∷ s) ≡ some p
unfolding parent_path
parent_path-dot [] s h = rw (parent_path_safe s h) refl
parent_path-dot (c ∷ p) s h = rw (parent_path-dot p s h) refl
