-- ===== src/Assurance/Binding.antt =====
-- The hash anchor of a snapshot commits to its members.
use brsr_v.Prelude.{
  ◌≡◌, ◌≢◌, refl, sym, ap, ◌∙◌, ◌⊎◌, inl, inr, List, [], ◌∷◌, ◌++◌, Text, codes, false, text_eq,
  text_eq_iff, Bool-cases, append_assoc, ℕ, arith,
}
use brsr_v.Shared.Ltree.Labels.{false_ne_true}
use brsr_v.Assurance.Anchor.{
  Hashing, Member, stringify_member, stringify_rest, stable_stringify, hash_object,
}

-- JSON: where the texts of two strings start the same text, the strings are the same.
abbrev pub IsJson : Hashing → Type 0
IsJson H = (a b s t : Text) → H.json_string a ++ s ≡ H.json_string b ++ t → (a ≡ b) × (s ≡ t)

cancel : (p s t : Text) → p ++ s ≡ p ++ t → s ≡ t
cancel [] s t h = h
cancel (c ∷ p) s t h = cancel p s t cc

pub heads : (a b : ℕ) (s t : Text) → a ∷ s ≡ b ∷ t → a ≡ b
heads a b s t h = cc

pub tails : (a b : ℕ) (s t : Text) → a ∷ s ≡ b ∷ t → s ≡ t
tails a b s t h = cc

module _ (H : Hashing) (json : IsJson H) where
  open H use {json_string}

  abbrev value_part : Member → Text → Text
  value_part m s = json_string m.value ++ (codes "}" ++ s)

  abbrev unit_part : Member → Text → Text
  unit_part m s = json_string m.unit ++ (codes ",\"value\":" ++ value_part m s)

  abbrev spread : Member → Text → Text
  spread m s = codes "{\"id\":" ++ (json_string m.id ++ (codes ",\"unit\":" ++ unit_part m s))

  stringify_member-spread : (m : Member) (s : Text) → stringify_member H m ++ s ≡ spread m s
  unfolding stringify_member
  stringify_member-spread m s = simp append_assoc

  spread_injective : (m n : Member) (s t : Text) → spread m s ≡ spread n t → (m ≡ n) × (s ≡ t)
  spread_injective m n s t h =
      let (e, h₁) =
        json m.id n.id (codes ",\"unit\":" ++ unit_part m s) (codes ",\"unit\":" ++ unit_part n t)
          (cancel (codes "{\"id\":") _ _ h) in
      let (f, h₂) =
        json m.unit n.unit (codes ",\"value\":" ++ value_part m s)
          (codes ",\"value\":" ++ value_part n t) (cancel (codes ",\"unit\":") _ _ h₁) in
      let (g, h₃) =
        json m.value n.value (codes "}" ++ s) (codes "}" ++ t)
          (cancel (codes ",\"value\":") _ _ h₂) in
      (same e f g, cancel (codes "}") s t h₃)
    where
      same : m.id ≡ n.id → m.unit ≡ n.unit → m.value ≡ n.value → m ≡ n
      same e f g = cc

  stringify_rest_injective :
      (ms ns : List Member) → stringify_rest H ms ≡ stringify_rest H ns → ms ≡ ns
  unfolding stringify_rest
  stringify_rest_injective [] [] h = refl
  stringify_rest_injective [] (n ∷ ns) h = absurd (omega (arith, heads _ _ _ _ h))
  stringify_rest_injective (m ∷ ms) [] h = absurd (omega (arith, heads _ _ _ _ h))
  stringify_rest_injective (m ∷ ms) (n ∷ ns) h =
      let (e, k) = spread_injective m n (stringify_rest H ms) (stringify_rest H ns) (
        sym (stringify_member-spread m (stringify_rest H ms))
        ∙ tails _ _ _ _ h
        ∙ stringify_member-spread n (stringify_rest H ns)) in
      same e (stringify_rest_injective ms ns k)
    where
      same : m ≡ n → ms ≡ ns → m ∷ ms ≡ n ∷ ns
      same e k = cc

  comma :
      (m : Member) (ms : List Member) (n : Member) (ns : List Member)
      → stringify_member H m ++ stringify_rest H ms ≡ stringify_member H n ++ stringify_rest H ns
      → stringify_rest H (m ∷ ms) ≡ stringify_rest H (n ∷ ns)
  unfolding stringify_rest
  comma m ms n ns h = ap (λ s. b',' ∷ s) h

  stable_stringify_injective :
      (ms ns : List Member) → stable_stringify H ms ≡ stable_stringify H ns → ms ≡ ns
  unfolding stable_stringify stringify_member
  stable_stringify_injective [] [] h = refl
  stable_stringify_injective [] (n ∷ ns) h = absurd (omega (arith, heads _ _ _ _ (tails _ _ _ _ h)))
  stable_stringify_injective (m ∷ ms) [] h = absurd (omega (arith, heads _ _ _ _ (tails _ _ _ _ h)))
  stable_stringify_injective (m ∷ ms) (n ∷ ns) h =
      stringify_rest_injective (m ∷ ms) (n ∷ ns) (comma m ms n ns (tails _ _ _ _ h))

  -- Two lists of members with the same hash are the same, or their texts are a collision of SHA-256,
  -- where the JSON text of a string can be told from what follows it.
  pub hash_object-binds :
      (ms ns : List Member)
      → hash_object H ms ≡ hash_object H ns
      → (ms ≡ ns)
        ⊎ ((stable_stringify H ms ≢ stable_stringify H ns)
            × (H.sha256 (stable_stringify H ms) ≡ H.sha256 (stable_stringify H ns)))
  unfolding hash_object
  hash_object-binds ms ns h =
      elim (Bool-cases (text_eq (stable_stringify H ms) (stable_stringify H ns))) [
        | inl e ↦ inl (stable_stringify_injective ms ns ((text_eq_iff _ _).0 e))
        | inr e ↦ inr (differ e, h)
      ]
    where
      differ :
          text_eq (stable_stringify H ms) (stable_stringify H ns) ≡ false
          → stable_stringify H ms ≢ stable_stringify H ns
      differ e same = false_ne_true (sym e ∙ (text_eq_iff _ _).1 same)
