-- ===== src/Shared/Ltree.antt =====
-- Paths of the tree of entities (packages/shared/src/ltree.ts), as UTF-16 code units.
pub mod Labels
pub mod Segments
pub mod Children
use brsr_v.Prelude.{
  ℕ, zero, suc, Bool, true, false, not, ◌&&◌, ◌||◌, Option, none, some, List, [], ◌∷◌, ◌++◌, Text,
  text_eq, leb, ◌==◌, if◌then◌else◌, length, map,
}
use brsr_v.Shared.Letters.{to_lower_case}

-- [a-z0-9_] and [A-Za-z0-9_]
abbrev pub is_safe : ℕ → Bool
is_safe c = leb b'a' c && leb c b'z' || leb b'0' c && leb c b'9' || c == b'_'

abbrev pub is_label_part : ℕ → Bool
is_label_part c = is_safe c || leb b'A' c && leb c b'Z'

-- `replace(/[^a-z0-9_]+/g, '_')`; `inside` says that the unit before belongs to a run
unfoldable pub replace_runs : Bool → Text → Text
replace_runs inside [] = []
replace_runs inside (c ∷ s) =
    let kept = replace_runs false s in
    let run = replace_runs true s in
    if is_safe c then c ∷ kept else if inside then run else b'_' ∷ run

-- `replace(/_+/g, '_')`
unfoldable pub collapse : Bool → Text → Text
collapse inside [] = []
collapse inside (c ∷ s) =
    let kept = collapse false s in
    let run = collapse true s in
    if not (c == b'_') then c ∷ kept else if inside then run else b'_' ∷ run

-- `replace(/^_+|_+$/g, '')`, in two passes
unfoldable pub strip_start : Text → Text
strip_start [] = []
strip_start (c ∷ s) = let rest = strip_start s in if c == b'_' then rest else c ∷ s

abbrev pub before_stripped : ℕ → Text → Text
before_stripped c [] = if c == b'_' then [] else c ∷ []
before_stripped c (d ∷ s) = c ∷ d ∷ s

unfoldable pub strip_end : Text → Text
strip_end [] = []
strip_end (c ∷ s) = before_stripped c (strip_end s)

unfoldable pub sanitize_label : Text → Text
unfolding to_lower_case replace_runs collapse strip_start strip_end
sanitize_label s = strip_end (strip_start (collapse false (replace_runs false (to_lower_case s))))

-- `split('.')`: the first part, and the others
abbrev pub split_step : ℕ → Text × List Text → Text × List Text
split_step c (part, parts) = if c == b'.' then ([], part ∷ parts) else (c ∷ part, parts)

unfoldable pub split_from : Text → Text × List Text
split_from [] = ([], [])
split_from (c ∷ s) = split_step c (split_from s)

unfoldable pub split : Text → List Text
unfolding split_from
split s = let (part, parts) = split_from s in part ∷ parts

-- `join('.')`
unfoldable pub join : List Text → Text
join [] = []
join (s ∷ []) = s
join (s ∷ t ∷ ts) = s ++ b'.' ∷ join (t ∷ ts)

unfoldable pub non_empty : List Text → List Text
non_empty [] = []
non_empty ([] ∷ ss) = non_empty ss
non_empty ((c ∷ s) ∷ ss) = (c ∷ s) ∷ non_empty ss

unfoldable pub join_path : List Text → Text
unfolding sanitize_label non_empty join
join_path segments = join (non_empty (map sanitize_label segments))

abbrev pub parent_step : ℕ → Text → Option Text → Option Text
parent_step c s none = if c == b'.' then some [] else none
parent_step c s (some p) = some (c ∷ p)

-- what comes before the last dot
unfoldable pub parent_path : Text → Option Text
parent_path [] = none
parent_path (c ∷ s) = parent_step c s (parent_path s)

unfoldable pub starts_with : Text → Text → Bool
starts_with s [] = true
starts_with [] (c ∷ p) = false
starts_with (d ∷ s) (c ∷ p) = d == c && starts_with s p

unfoldable pub is_ancestor : Text → Text → Bool
unfolding text_eq starts_with
is_ancestor ancestor descendant =
    text_eq ancestor descendant || starts_with descendant (ancestor ++ b'.' ∷ [])

unfoldable pub depth : Text → ℕ
unfolding split
depth [] = 0
depth (c ∷ s) = length (split (c ∷ s))

-- The label or segment that an error names is left out: none is `InvalidLtreePathError`.
unfoldable pub append_safe : Text → Text → Option Text
append_safe path [] = none
append_safe [] (c ∷ s) = some (c ∷ s)
append_safe (d ∷ p) (c ∷ s) = some ((d ∷ p) ++ b'.' ∷ c ∷ s)

unfoldable pub append_child : Text → Text → Option Text
unfolding append_safe sanitize_label
append_child path label = append_safe path (sanitize_label label)

unfoldable pub path_segments : Text → List Text
unfolding split
path_segments [] = []
path_segments (c ∷ s) = split (c ∷ s)

abbrev pub every : (ℕ → Bool) → Text → Bool
every test [] = true
every test (c ∷ s) = test c && every test s

-- `LTREE_SEGMENT_REGEX.test`
abbrev pub is_segment : Text → Bool
is_segment [] = false
is_segment (c ∷ s) = every is_label_part (c ∷ s)

abbrev pub all_segments : List Text → Bool
all_segments [] = true
all_segments (s ∷ ss) = is_segment s && all_segments ss

-- whether `validatePath` returns
unfoldable pub validate_path : Text → Bool
unfolding split
validate_path [] = false
validate_path (c ∷ s) = all_segments (split (c ∷ s))
