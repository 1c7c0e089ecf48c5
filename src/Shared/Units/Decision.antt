-- ===== src/Shared/Units/Decision.antt =====
-- `convert` of units.ts succeeds exactly where `canConvert` says so.
use brsr_v.Prelude.{
  ◌≡◌, ◌≢◌, refl, sym, subst, inl, inr, Bool, true, false, Option, none, some, List, [], ◌∷◌, Text,
  text_eq, codes, Option-cases, Bool-cases,
}
use brsr_v.Shared.Tables.{entry}
use brsr_v.Shared.Units.{
  MeasureUnit, Numeric, Registry, Registration, Conversion, ConversionError, converted, failed,
  unknown_unit, other_family, currency, no_function, same_family, money, normalize, register,
  register_all, empty_registry, registrations, initial, lookup, rescale, convert, convert_found,
  can_convert, can_convert_found,
}

-- two tables with the same keys in the same order
abbrev SameKeys : {A B : Type 0} → List (Text × A) → List (Text × B) → Type 0
SameKeys [] [] = Unit
SameKeys ((j, a) ∷ s) ((k, b) ∷ t) = (j ≡ k) × SameKeys s t
SameKeys _ _ = ⊥

module _ {A B : Type 0} where
  entry-SameKeys :
      (key : Text) (s : List (Text × A)) (t : List (Text × B)) (a : A)
      → SameKeys s t
      → entry key s ≡ some a
      → (b : B) × (entry key t ≡ some b)
  unfolding entry
  entry-SameKeys key [] t a h e = cc
  entry-SameKeys key ((j, c) ∷ s) [] a h e = elim h [ ]
  entry-SameKeys key ((j, c) ∷ s) ((k, b) ∷ t) a (p, h) e = elim (Bool-cases (text_eq key k)) [
    | inl q ↦ (b, rw q refl)
    | inr q ↦
        let differs = subst (λ x. text_eq key x ≡ false) (sym p) q in
        let (b', r) = entry-SameKeys key s t a h (rw differs at e) in (b', rw q r)
  ]

module _ (𝓝 : Numeric) where
  open 𝓝 use {N}

  -- the tables of a registry have the same keys
  IsPaired : Registry 𝓝 → Type 0
  IsPaired reg = SameKeys reg.units reg.to_base × SameKeys reg.units reg.from_base

  register-IsPaired :
      (reg reg' : Registry 𝓝) (r : Registration 𝓝)
      → IsPaired reg
      → register 𝓝 reg r ≡ some reg'
      → IsPaired reg'
  unfolding register IsPaired
  register-IsPaired reg reg' r (h, k) e =
      elim (Bool-cases (text_eq (𝓝.lower r.symbol) (codes "__proto__"))) [
        | inl p ↦ absurd (none_ne (rw p at e))
        | inr p ↦ subst IsPaired (inj (rw p at e)) ((refl, h), (refl, k))
      ]
    where
      none_ne : none ≡ some reg' → ⊥
      none_ne q = cc

      inj : {a b : Registry 𝓝} → some a ≡ some b → a ≡ b
      inj q = cc

  register_all-IsPaired :
      (reg reg' : Registry 𝓝) (rs : List (Registration 𝓝))
      → IsPaired reg
      → register_all 𝓝 reg rs ≡ some reg'
      → IsPaired reg'
  unfolding register_all
  register_all-IsPaired reg reg' [] h e = subst IsPaired (inj e) h
    where
      inj : {a b : Registry 𝓝} → some a ≡ some b → a ≡ b
      inj q = cc
  register_all-IsPaired reg reg' (r ∷ rs) h e = elim (Option-cases (register 𝓝 reg r)) [
    | inl p ↦ absurd (none_ne (rw p at e))
    | inr (reg₁, p) ↦
        register_all-IsPaired reg₁ reg' rs (register-IsPaired reg reg₁ r h p) (rw p at e)
  ]
    where
      none_ne : none ≡ some reg' → ⊥
      none_ne q = cc

  initial-IsPaired : IsPaired (initial 𝓝)
  unfolding initial IsPaired
  initial-IsPaired = elim (Option-cases (register_all 𝓝 (empty_registry 𝓝) (registrations 𝓝))) [
    | inl p ↦ rw p (tt, tt)
    | inr (reg, p) ↦
        rw p (register_all-IsPaired (empty_registry 𝓝) reg (registrations 𝓝) (tt, tt) p)
  ]

  -- What a test for a conversion says of it.
  pub data Agrees : Bool → Conversion 𝓝 → Type 0 where
    both_can : (x : N) → Agrees true (converted x)
    none_can : (e : ConversionError) → e ≢ no_function → Agrees false (failed e)

  Agrees-rescale :
      (o p : Option (N → N)) (v : N) (f g : N → N)
      → o ≡ some f
      → p ≡ some g
      → Agrees true (rescale 𝓝 o p v)
  Agrees-rescale o p v f g h k = rw h (rw k (both_can (g (f v))))

  Agrees-convert_found :
      (reg : Registry 𝓝) (v : N) (a b : Text) (o p : Option MeasureUnit)
      → IsPaired reg
      → entry (normalize 𝓝 a) reg.units ≡ o
      → entry (normalize 𝓝 b) reg.units ≡ p
      → Agrees (can_convert_found 𝓝 o p) (convert_found 𝓝 reg v a b o p)
  unfolding IsPaired convert_found
  Agrees-convert_found reg v a b none p h e f = none_can (unknown_unit a) λ q. cc
  Agrees-convert_found reg v a b (some u) none h e f = none_can (unknown_unit b) λ q. cc
  Agrees-convert_found reg v a b (some u) (some w) (h, k) e f =
      elim (Bool-cases (same_family u.family w.family)) [
        | inr p ↦ rw p (none_can other_family λ q. cc)
        | inl p ↦ elim (Bool-cases (same_family u.family money)) [
          | inl q ↦ rw p (rw q (none_can currency λ r. cc))
          | inr q ↦
              let (s, i) = entry-SameKeys (normalize 𝓝 a) reg.units reg.to_base u h e in
              let (t, j) = entry-SameKeys (normalize 𝓝 b) reg.units reg.from_base w k f in
              rw p (rw q (Agrees-rescale _ _ v s t i j))
        ]
      ]

  -- Whatever units have been registered since the module was loaded, none of them under the key
  -- `__proto__`: `convert` returns a number exactly where `canConvert` is true and throws exactly
  -- where it is false, and the error of a missing conversion function is never thrown.
  pub convert-decided :
      (rs : List (Registration 𝓝)) (reg : Registry 𝓝) (v : N) (a b : Text)
      → register_all 𝓝 (initial 𝓝) rs ≡ some reg
      → Agrees (can_convert 𝓝 reg a b) (convert 𝓝 reg v a b)
  unfolding can_convert convert lookup
  convert-decided rs reg v a b h =
      Agrees-convert_found reg v a b _ _
        (register_all-IsPaired (initial 𝓝) reg rs initial-IsPaired h) refl refl
