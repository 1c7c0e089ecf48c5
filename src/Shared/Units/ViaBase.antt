-- ===== src/Shared/Units/ViaBase.antt =====
-- Conversions of units.ts go through the base unit of the family.
use brsr_v.Prelude.{
  codes, ◌≡◌, refl, sym, ap, ◌∙◌, Bool, true, false, not, Option, none, some, Text, if◌then◌else◌,
  ==_iff,
}
use brsr_v.Shared.Letters.{to_lower_case}
use brsr_v.Shared.Tables.{entry}
use brsr_v.Shared.Units.{
  UnitFamily, MeasureUnit, Numeric, Registry, Conversion, converted, failed, energy, mass, volume,
  area, distance, time, money, power, emission, other_family, currency, same_family, family_index,
  family_found, family_of, base_unit, normalize, initial, lookup, rescale, convert, convert_found,
}

-- a language whose `toLowerCase` changes no letter but those of ASCII
abbrev ascii : Numeric → Numeric
ascii 𝓝 = record 𝓝 { lower = to_lower_case }

same_family_refl : (f : UnitFamily) → same_family f f ≡ true
same_family_refl f = (==_iff (family_index f) (family_index f)).1 refl

module _ (𝓝 : Numeric) where
  open 𝓝 use {N}

  -- the base unit of a family is registered in it, with functions that change nothing
  record IsBase (f : UnitFamily) (symbol : Text) : Type 0 where
    normal : normalize (ascii 𝓝) (base_unit f) ≡ base_unit f
    unit_found :
        entry (base_unit f) (initial (ascii 𝓝)).units
        ≡ some (record { symbol = symbol; family = f })
    to_found : entry (base_unit f) (initial (ascii 𝓝)).to_base ≡ some (λ v. v)
    from_found : entry (base_unit f) (initial (ascii 𝓝)).from_base ≡ some (λ v. v)

  energy-IsBase : IsBase energy (codes "J")
  unfolding normalize entry initial base_unit to_lower_case
  energy-IsBase = record { normal = refl; unit_found = refl; to_found = refl; from_found = refl }

  mass-IsBase : IsBase mass (codes "kg")
  unfolding normalize entry initial base_unit to_lower_case
  mass-IsBase = record { normal = refl; unit_found = refl; to_found = refl; from_found = refl }

  volume-IsBase : IsBase volume (codes "L")
  unfolding normalize entry initial base_unit to_lower_case
  volume-IsBase = record { normal = refl; unit_found = refl; to_found = refl; from_found = refl }

  area-IsBase : IsBase area (codes "m2")
  unfolding normalize entry initial base_unit to_lower_case
  area-IsBase = record { normal = refl; unit_found = refl; to_found = refl; from_found = refl }

  distance-IsBase : IsBase distance (codes "m")
  unfolding normalize entry initial base_unit to_lower_case
  distance-IsBase = record { normal = refl; unit_found = refl; to_found = refl; from_found = refl }

  time-IsBase : IsBase time (codes "s")
  unfolding normalize entry initial base_unit to_lower_case
  time-IsBase = record { normal = refl; unit_found = refl; to_found = refl; from_found = refl }

  money-IsBase : IsBase money (codes "USD")
  unfolding normalize entry initial base_unit to_lower_case
  money-IsBase = record { normal = refl; unit_found = refl; to_found = refl; from_found = refl }

  power-IsBase : IsBase power (codes "W")
  unfolding normalize entry initial base_unit to_lower_case
  power-IsBase = record { normal = refl; unit_found = refl; to_found = refl; from_found = refl }

  emission-IsBase : IsBase emission (codes "kgCO2e")
  unfolding normalize entry initial base_unit to_lower_case
  emission-IsBase = record { normal = refl; unit_found = refl; to_found = refl; from_found = refl }

  abbrev base_symbol : UnitFamily → Text
  base_symbol energy = codes "J"
  base_symbol mass = codes "kg"
  base_symbol volume = codes "L"
  base_symbol area = codes "m2"
  base_symbol distance = codes "m"
  base_symbol time = codes "s"
  base_symbol money = codes "USD"
  base_symbol power = codes "W"
  base_symbol emission = codes "kgCO2e"

  registered_unit : (f : UnitFamily) → IsBase f (base_symbol f)
  registered_unit energy = energy-IsBase
  registered_unit mass = mass-IsBase
  registered_unit volume = volume-IsBase
  registered_unit area = area-IsBase
  registered_unit distance = distance-IsBase
  registered_unit time = time-IsBase
  registered_unit money = money-IsBase
  registered_unit power = power-IsBase
  registered_unit emission = emission-IsBase

  converted-inj : (m n : N) → ◌≡◌ {A = Conversion (ascii 𝓝)} (converted m) (converted n) → m ≡ n
  converted-inj m n h = cc

  via_rescale :
      (o p : Option (N → N)) (v x : N)
      → rescale (ascii 𝓝) o (some (λ n. n)) v ≡ converted x
      → rescale (ascii 𝓝) (some (λ n. n)) p x ≡ rescale (ascii 𝓝) o p v
  via_rescale none p v x h = cc
  via_rescale (some to) none v x h = refl
  via_rescale (some to) (some from) v x h =
      ap (λ n. converted (from n)) (sym (converted-inj (to v) x h))

  via_rescaled :
      (b₁ b₂ : Bool) (o p q r : Option (N → N)) (v x : N) (e₁ e₂ : Conversion (ascii 𝓝))
      → q ≡ some (λ n. n)
      → r ≡ some (λ n. n)
      → (if b₂ then e₂ else rescale (ascii 𝓝) o r v) ≡ converted x
      → (if b₁
          then failed other_family
          else if b₂
          then failed currency
          else rescale (ascii 𝓝) q p x)
        ≡ (if b₁
            then failed other_family
            else if b₂
            then failed currency
            else rescale (ascii 𝓝) o p v)
  via_rescaled true b₂ o p q r v x e₁ e₂ h k e = refl
  via_rescaled false true o p q r v x e₁ e₂ h k e = refl
  via_rescaled false false o p q r v x e₁ e₂ h k e = rw h (via_rescale o p v x (rw k at e))

  via_found :
      (reg : Registry (ascii 𝓝)) (a b c : Text) (v x : N) (u w : MeasureUnit)
      (o : Option MeasureUnit)
      → w.family ≡ u.family
      → entry (normalize (ascii 𝓝) c) reg.to_base ≡ some (λ n. n)
      → entry (normalize (ascii 𝓝) c) reg.from_base ≡ some (λ n. n)
      → convert_found (ascii 𝓝) reg v a c (some u) (some w) ≡ converted x
      → convert_found (ascii 𝓝) reg x c b (some w) o ≡ convert_found (ascii 𝓝) reg v a b (some u) o
  unfolding convert_found
  via_found reg a b c v x u w none e i j h = refl
  via_found reg a b c v x u w (some t) e i j h = rw e (
      via_rescaled (not (same_family u.family t.family)) (same_family u.family money)
        (entry (normalize (ascii 𝓝) a) reg.to_base) (entry (normalize (ascii 𝓝) b) reg.from_base) _
        _ v x (failed other_family) (failed currency) i j (rw (e, same_family_refl u.family) at h))

  family_found-inv :
      (o : Option MeasureUnit) (f : UnitFamily)
      → family_found (ascii 𝓝) o ≡ some f
      → (u : MeasureUnit) × (o ≡ some u) × (u.family ≡ f)
  family_found-inv none f h = cc
  family_found-inv (some u) f h = (u, refl, cc)

  -- A conversion can be done in two steps: where a unit of some family converts to the base unit of
  -- that family, converting the result on to any unit gives what converting at once gives, errors
  -- included, for the units registered when the module is loaded and any arithmetic, with the lower
  -- case of ASCII.
  pub convert-base_unit :
      (v x : N) (a b : Text) (f : UnitFamily)
      → family_of (ascii 𝓝) (initial (ascii 𝓝)) a ≡ some f
      → convert (ascii 𝓝) (initial (ascii 𝓝)) v a (base_unit f) ≡ converted x
      → convert (ascii 𝓝) (initial (ascii 𝓝)) x (base_unit f) b
        ≡ convert (ascii 𝓝) (initial (ascii 𝓝)) v a b
  unfolding convert family_of lookup
  convert-base_unit v x a b f h e =
      let base = registered_unit f in
      let (u, p, q) = family_found-inv (lookup (ascii 𝓝) (initial (ascii 𝓝)) a) f h in
      let w = ap (λ k. entry k (initial (ascii 𝓝)).units) base.normal ∙ base.unit_found in
      rw (p, w)
        (via_found (initial (ascii 𝓝)) a b (base_unit f) v x u
          (record { symbol = base_symbol f; family = f }) _ (sym q)
          (ap (λ k. entry k (initial (ascii 𝓝)).to_base) base.normal ∙ base.to_found)
          (ap (λ k. entry k (initial (ascii 𝓝)).from_base) base.normal ∙ base.from_found)
          (rw (p, w) at e))
