-- ===== src/Shared/Ltree/Children.antt =====
-- Paths that ltree.ts makes: of a child, and of segments.
use brsr_v.Prelude.{
  ℕ, suc, ◌≡◌, refl, sym, ap, ◌∙◌, subst, true, some, List, [], ◌∷◌, ◌++◌, map, Text, ltb, lt→ltb,
  All, length, length-append, arith,
}
use brsr_v.Shared.Ltree.{
  sanitize_label, split, join, non_empty, join_path, parent_path, is_ancestor, depth, append_safe,
  append_child, path_segments, every, is_segment, all_segments, is_label_part, validate_path,
}
use brsr_v.Shared.Ltree.Labels.{IsSafe, sanitize_label_fixed}
use brsr_v.Shared.Ltree.Segments.{split-dot, safe_split, parent_path-dot, is_ancestor_iff}

-- What a path has to do with the path of a child of it.
pub record IsChild (path child label : Text) : Type 0 where
  pub segments : path_segments child ≡ path_segments path ++ label ∷ []
  pub deeper : depth child ≡ suc (depth path)
  pub parent : parent_path child ≡ some path
  pub below : is_ancestor path child ≡ true

appended :
    (d : ℕ) (p label child : Text)
    → append_safe (d ∷ p) label ≡ some child
    → child ≡ (d ∷ p) ++ b'.' ∷ label
unfolding append_safe
appended d p [] child e = cc
appended d p (c ∷ s) child e = cc

joined-IsChild :
    (d : ℕ) (p label : Text) → IsSafe label → IsChild (d ∷ p) ((d ∷ p) ++ b'.' ∷ label) label
unfolding path_segments depth
joined-IsChild d p label h =
    let parts = split-dot (d ∷ p) label ∙ ap (λ l. split (d ∷ p) ++ l) (safe_split label h) in
    record {
      segments = parts;
      deeper = ap length parts ∙ length-append (split (d ∷ p)) (label ∷ []) ∙ omega arith;
      parent = parent_path-dot (d ∷ p) label h;
      below = (is_ancestor_iff (d ∷ p) _).1 (label ∷ [], parts);
    }

-- The path that `appendChild` makes of a path that is not empty and of any label has one segment
-- more, the sanitized label; its parent is the path, which is an ancestor of it.
pub append_child-IsChild :
    (d : ℕ) (p label child : Text)
    → append_child (d ∷ p) label ≡ some child
    → IsChild (d ∷ p) child (sanitize_label label)
unfolding append_child
append_child-IsChild d p label child h =
    subst (λ x. IsChild (d ∷ p) x (sanitize_label label))
      (sym (appended d p (sanitize_label label) child h))
      (joined-IsChild d p (sanitize_label label) (sanitize_label_fixed label).0.safe)

-- the labels that are left of segments
IsLabel : Text → Type 0
IsLabel s = IsSafe s × (is_segment s ≡ true)

every-IsSafe : (s : Text) → IsSafe s → every is_label_part s ≡ true
every-IsSafe [] h = refl
every-IsSafe (c ∷ s) (p, h) = rw p (every-IsSafe s h)

non_empty-IsLabel : (ss : List Text) → All IsSafe ss → All IsLabel (non_empty ss)
unfolding non_empty IsLabel
non_empty-IsLabel [] h = tt
non_empty-IsLabel ([] ∷ ss) (p, h) = non_empty-IsLabel ss h
non_empty-IsLabel ((c ∷ s) ∷ ss) (p, h) = ((p, every-IsSafe (c ∷ s) p), non_empty-IsLabel ss h)

sanitized-IsSafe : (segments : List Text) → All IsSafe (map sanitize_label segments)
sanitized-IsSafe [] = tt
sanitized-IsSafe (s ∷ ss) = ((sanitize_label_fixed s).0.safe, sanitized-IsSafe ss)

split-join : (s : Text) (ss : List Text) → All IsLabel (s ∷ ss) → split (join (s ∷ ss)) ≡ s ∷ ss
unfolding join IsLabel
split-join s [] ((p, q), h) = safe_split s p
split-join s (t ∷ ts) ((p, q), h) =
    split-dot s (join (t ∷ ts))
    ∙ ap (λ l. l ++ split (join (t ∷ ts))) (safe_split s p)
    ∙ ap (λ l. s ∷ l) (split-join t ts h)

labels_pass : (ss : List Text) → All IsLabel ss → all_segments ss ≡ true
unfolding IsLabel
labels_pass [] h = refl
labels_pass (s ∷ ss) ((p, q), h) = rw q (labels_pass ss h)

-- the path of labels has them for its segments, and is valid where there is one
pub IsPathOf : Text → List Text → Type 0
IsPathOf path ss = (path_segments path ≡ ss) × (validate_path path ≡ ltb 0 (length ss))

joined-IsPathOf : (ss : List Text) → All IsLabel ss → IsPathOf (join ss) ss
unfolding IsPathOf path_segments validate_path join IsLabel
joined-IsPathOf [] h = (refl, refl)
joined-IsPathOf ([] ∷ ss) ((p, q), h) = cc
joined-IsPathOf ((c ∷ s) ∷ []) h =
    let e = split-join (c ∷ s) [] h in (e, ap all_segments e ∙ labels_pass ((c ∷ s) ∷ []) h)
joined-IsPathOf ((c ∷ s) ∷ t ∷ ts) h =
    let e = split-join (c ∷ s) (t ∷ ts) h in
    (
      e,
      ap all_segments e
          ∙ labels_pass ((c ∷ s) ∷ t ∷ ts) h
          ∙ sym (lt→ltb 0 (suc (suc (length ts))) (omega arith)),
    )

-- A path that `joinPath` makes splits into the sanitized segments that are not empty, and
-- `validatePath` takes it exactly where there is one.
pub join_path-IsPathOf :
    (segments : List Text) → IsPathOf (join_path segments) (non_empty (map sanitize_label segments))
unfolding join_path
join_path-IsPathOf segments =
    joined-IsPathOf (non_empty (map sanitize_label segments))
      (non_empty-IsLabel (map sanitize_label segments) (sanitized-IsSafe segments))
