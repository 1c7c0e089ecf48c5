-- ===== src/Calculations/Consistency.antt =====
-- The metrics that a run of calculation.processor.ts ends with are consistent with its formulas.
use mathlib.Core.List.{Memᴰ}
use brsr_v.Prelude.{
  is_one_of, ℕ, ◌≡◌, ◌≢◌, refl, sym, ap, ◌∙◌, subst, ◌⊎◌, inl, inr, Bool, true, false, ◌||◌, Option,
  none, some, List, [], ◌∷◌, Text, text_eq, text_eq_iff, All, Bool-cases, if◌then◌else◌,
}
use brsr_v.Cel.Decimal.{Decimal}
use brsr_v.Cel.Syntax.{Node, Token}
use brsr_v.Cel.Outcome.{Outcome, ok, fail, out_of_fuel, ◌>>=◌}
use brsr_v.Cel.Value.{Object, CelContext}
use brsr_v.Cel.Lexer.{tokenize}
use brsr_v.Cel.Parser.{parse}
use brsr_v.Cel.Eval.{eval, evaluate}
use brsr_v.Cel.Eval.Frame.{AgreeAt, names, eval-frame}
use brsr_v.Calculations.{Formula, or_this, by_key, has_key}
use brsr_v.Calculations.Keys.{or-true, text_eq_refl}
use brsr_v.Calculations.Order.{IsOrdered, found-grows}
use brsr_v.Calculations.Process.{computed, entered, numeric, quantity}

some-ne-none : {A : Type 0} {a : A} → some a ≢ none
some-ne-none h = cc

or_this-none :
    (o : Option Formula) (f : Formula) (key : Text) (b : Bool)
    → (o ≡ none → b ≡ false)
    → or_this o f key ≡ none
    → (text_eq f.output_key key || b) ≡ false
or_this-none (some d) f key b h q = cc
or_this-none none f key b h q = elim (Bool-cases (text_eq f.output_key key)) [
  | inl p ↦ absurd (some-ne-none (ap (λ t. if t then some f else none) (sym p) ∙ q))
  | inr p ↦ ap (λ t. t || b) p ∙ h refl
]

by_key-none : (fs : List Formula) (key : Text) → by_key fs key ≡ none → has_key key fs ≡ false
unfolding by_key has_key
by_key-none [] key h = refl
by_key-none (f ∷ fs) key h =
    or_this-none (by_key fs key) f key (has_key key fs) (by_key-none fs key) h

All-one_of :
    (P : Text → Type 0) (ks : List Text) (k : Text) → All P ks → is_one_of k ks ≡ true → P k
unfolding is_one_of
All-one_of P [] k a h = cc
All-one_of P (x ∷ ks) k (p, a) h = elim (Bool-cases (text_eq k x)) [
  | inl e ↦ subst P (sym ((text_eq_iff k x).0 e)) p
  | inr e ↦ All-one_of P ks k a (rw e at h)
]

-- A key that no formula computes, or that an earlier one does, is not the key of a formula behind.
distinct :
    (all rs : List Formula) (g : Formula) (k : Text)
    → (by_key all k ≡ none) ⊎ (has_key k rs ≡ true)
    → has_key g.output_key rs ≡ false
    → has_key g.output_key all ≡ true
    → text_eq g.output_key k ≡ false
distinct all rs g k h p q = elim (Bool-cases (text_eq g.output_key k)) [
  | inr e ↦ e
  | inl e ↦ elim h [
    | inl n ↦
        let z = by_key-none all k n in
        let w = subst (λ x. has_key x all ≡ true) ((text_eq_iff g.output_key k).0 e) q in cc
    | inr n ↦ let w = subst (λ x. has_key x rs ≡ false) ((text_eq_iff g.output_key k).0 e) p in cc
  ]
]

-- the inputs of a formula in the list are known to it
inputs-known :
    (all rs : List Formula) (f : Formula) (k : Text)
    → IsOrdered all rs
    → Memᴰ f rs
    → is_one_of k f.inputs ≡ true
    → (by_key all k ≡ none) ⊎ (has_key k rs ≡ true)
unfolding has_key
inputs-known all [] f k o h i = elim h [ ]
inputs-known all (g ∷ rs) f k (s, u, m, o) (Memᴰ.head e) i =
    found-grows
      (All-one_of (λ x. (by_key all x ≡ none) ⊎ (has_key x rs ≡ true)) g.inputs k s
        (ap (λ x. is_one_of k x.inputs) (sym e) ∙ i))
      λ h. ap (λ b. text_eq g.output_key k || b) h ∙ or-true (text_eq g.output_key k)
inputs-known all (g ∷ rs) f k (s, u, m, o) (Memᴰ.tail h) i =
    found-grows (inputs-known all rs f k o h i)
      λ h. ap (λ b. text_eq g.output_key k || b) h ∙ or-true (text_eq g.output_key k)

has_key-Mem : (rs : List Formula) (f : Formula) → Memᴰ f rs → has_key f.output_key rs ≡ true
unfolding has_key
has_key-Mem [] f h = elim h [ ]
has_key-Mem (g ∷ rs) f (Memᴰ.head e) =
    ap (λ x. text_eq g.output_key x.output_key || has_key x.output_key rs) e
    ∙ ap (λ b. b || has_key g.output_key rs) (text_eq_refl g.output_key)
has_key-Mem (g ∷ rs) f (Memᴰ.tail h) =
    ap (λ b. text_eq g.output_key f.output_key || b) (has_key-Mem rs f h)
    ∙ or-true (text_eq g.output_key f.output_key)

some-injective : {A : Type 0} {a b : A} → some a ≡ some b → a ≡ b
some-injective h = cc

module _ (𝓓 : Decimal) (factors : Option (Object (Decimal.D 𝓓))) (days : ℕ) where
  open 𝓓 use {D}

  -- The metrics after the formulas of a list, newest first.
  unfoldable pub metrics_after : Object D → List Formula → Object D
  metrics_after start [] = start
  metrics_after start (f ∷ rs) =
      let before = metrics_after start rs in entered 𝓓 before f (computed 𝓓 factors days before f)

  unfoldable pub mentioned : Outcome (Node D) → List Text
  mentioned (ok n) = names n
  mentioned (fail e) = []
  mentioned out_of_fuel = []

  -- The expression mentions only names that the formula lists as its inputs.
  abbrev pub IsHonest : Formula → Type 0
  IsHonest f =
      All (λ name. is_one_of name f.inputs ≡ true)
        (mentioned (tokenize 𝓓 f.expression >>= λ toks. parse toks))

  -- the metrics agree on the names
  abbrev Same : Object D → Object D → List Text → Type 0
  Same m m' ks = (k : Text) → is_one_of k ks ≡ true → m k ≡ m' k

  abbrev in_context : Object D → CelContext D
  in_context m = record { metrics = m; factors = factors; period_days = some days }

  Same-agree :
      (m m' : Object D) (ks : List Text)
      → Same m m' ks
      → (ns : List Text) → All (λ name. is_one_of name ks ≡ true) ns
      → All (AgreeAt 𝓓 (in_context m) (in_context m')) ns
  Same-agree m m' ks h [] a = tt
  Same-agree m m' ks h (n ∷ ns) (a, as') =
      (record { metric = h n a; factor = refl; period = refl }, Same-agree m m' ks h ns as')

  parsed_agrees :
      (t : Outcome (List (Token D))) (m m' : Object D) (ks : List Text)
      → Same m m' ks
      → All (λ name. is_one_of name ks ≡ true) (mentioned (t >>= λ toks. parse toks))
      → (t >>= λ toks. parse toks >>= λ n. eval 𝓓 (in_context m) n)
        ≡ (t >>= λ toks. parse toks >>= λ n. eval 𝓓 (in_context m') n)
  unfolding mentioned
  parsed_agrees (ok ts) m m' ks h a = tree (parse ts) a
    where
      tree :
          (o : Outcome (Node D))
          → All (λ name. is_one_of name ks ≡ true) (mentioned o)
          → (o >>= λ n. eval 𝓓 (in_context m) n) ≡ (o >>= λ n. eval 𝓓 (in_context m') n)
      tree (ok n) a =
          eval-frame 𝓓 (in_context m) (in_context m') n (Same-agree m m' ks h (names n) a)
      tree (fail e) a = refl
      tree out_of_fuel a = refl
  parsed_agrees (fail e) m m' ks h a = refl
  parsed_agrees out_of_fuel m m' ks h a = refl

  computed_agrees :
      (m m' : Object D) (f : Formula)
      → IsHonest f
      → Same m m' f.inputs
      → computed 𝓓 factors days m f ≡ computed 𝓓 factors days m' f
  unfolding computed evaluate
  computed_agrees m m' f a h =
      ap (numeric 𝓓) (parsed_agrees (tokenize 𝓓 f.expression) m m' f.inputs h a)

  entered-other :
      (m : Object D) (g : Formula) (o : Option D) (k : Text)
      → text_eq g.output_key k ≡ false
      → entered 𝓓 m g o k ≡ m k
  entered-other m g none k h = refl
  entered-other m g (some d) k h = rw h

  entered-own :
      (m : Object D) (g : Formula) (o : Option D) (d : D)
      → o ≡ some d
      → entered 𝓓 m g o g.output_key ≡ some (some (quantity 𝓓 d g.unit))
  entered-own m g none d h = cc
  entered-own m g (some c) d h =
      rw (text_eq_refl g.output_key)
        (ap (λ x. some (some (quantity 𝓓 x g.unit))) (some-injective h))

  -- Of formulas in order, newest first, and of the metrics after all of them: a formula that mentions
  -- no names but its inputs and that has a value on these metrics is held there with that value and
  -- its unit. So no value was computed from an input that was computed again later.
  pub metrics_after-consistent :
      (all rs : List Formula) (start : Object D) (f : Formula) (d : D)
      → IsOrdered all rs
      → Memᴰ f rs
      → IsHonest f
      → computed 𝓓 factors days (metrics_after start rs) f ≡ some d
      → metrics_after start rs f.output_key ≡ some (some (quantity 𝓓 d f.unit))
  unfolding metrics_after
  metrics_after-consistent all [] start f d o h a c = elim h [ ]
  metrics_after-consistent all (g ∷ rs) start f d (s, u, m, o) (Memᴰ.head e) a c =
      let before = metrics_after start rs in
      let now = computed 𝓓 factors days before g in
      let keeps : (k : Text) → is_one_of k g.inputs ≡ true → entered 𝓓 before g now k ≡ before k =
        λ k i. entered-other before g now k (
          distinct all rs g k
            (All-one_of (λ x. (by_key all x ≡ none) ⊎ (has_key x rs ≡ true)) g.inputs k s i) u m) in
      let value =
        sym (computed_agrees (entered 𝓓 before g now) before g (subst IsHonest e a) keeps)
        ∙ ap (computed 𝓓 factors days (entered 𝓓 before g now)) (sym e)
        ∙ c in
      ap (λ x. entered 𝓓 before g now x.output_key) e
      ∙ entered-own before g now d value
      ∙ ap (λ x. some (some (quantity 𝓓 d x.unit))) (sym e)
  metrics_after-consistent all (g ∷ rs) start f d (s, u, m, o) (Memᴰ.tail h) a c =
      let before = metrics_after start rs in
      let now = computed 𝓓 factors days before g in
      let keeps : (k : Text) → is_one_of k f.inputs ≡ true → entered 𝓓 before g now k ≡ before k =
        λ k i.
          entered-other before g now k (distinct all rs g k (inputs-known all rs f k o h i) u m) in
      let value = sym (computed_agrees (entered 𝓓 before g now) before f a keeps) ∙ c in
      entered-other before g now f.output_key
        (distinct all rs g f.output_key (inr (has_key-Mem rs f h)) u m)
      ∙ metrics_after-consistent all rs start f d o h a value
