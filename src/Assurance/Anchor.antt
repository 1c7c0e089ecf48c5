-- ===== src/Assurance/Anchor.antt =====
-- The hash anchor of a snapshot: `hashObject` of services/api/src/common/utils/hash.ts on the members
-- that `create` hands to it. SHA-256 and the JSON text of a string are parameters.
use brsr_v.Prelude.{List, [], ◌∷◌, ◌++◌, Text, codes}

pub record Hashing : Type 0 where
  pub sha256 : Text → Text
  pub json_string : Text → Text

-- a member by its id, the text of its value and its unit
pub record Member : Type 0 where
  pub id : Text
  pub value : Text
  pub unit : Text

module _ (H : Hashing) where
  open H use {sha256, json_string}

  -- an object with its keys in order
  unfoldable pub stringify_member : Member → Text
  stringify_member m =
      codes "{\"id\":"
      ++ json_string m.id
      ++ codes ",\"unit\":"
      ++ json_string m.unit
      ++ codes ",\"value\":"
      ++ json_string m.value
      ++ codes "}"

  -- the members after the first, and the closing bracket
  unfoldable pub stringify_rest : List Member → Text
  stringify_rest [] = codes "]"
  stringify_rest (m ∷ ms) = codes "," ++ stringify_member m ++ stringify_rest ms

  -- `stableStringify` of the array
  unfoldable pub stable_stringify : List Member → Text
  stable_stringify [] = codes "[]"
  stable_stringify (m ∷ ms) = codes "[" ++ stringify_member m ++ stringify_rest ms

  unfoldable pub hash_object : List Member → Text
  unfolding stable_stringify
  hash_object ms = sha256 (stable_stringify ms)
