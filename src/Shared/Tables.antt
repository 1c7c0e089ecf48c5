-- ===== src/Shared/Tables.antt =====
-- A JavaScript `Map`, or an object used as one, as the list of its assignments, newest first.
use brsr_v.Prelude.{Option, none, some, List, [], ◌∷◌, Text, text_eq, if◌then◌else◌}

unfoldable pub entry {ℓ} : {A : Type ℓ} → Text → List (Text × A) → Option A
unfolding text_eq
entry key [] = none
entry key ((k, a) ∷ t) = let rest = entry key t in if text_eq key k then some a else rest
