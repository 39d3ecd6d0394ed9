-- ===== src/Path/Compare/Laws.antt =====
-- What the comparisons decide, said of the components of the paths.
use cageforge.Base.{true, false, List, [], ◌∷◌, ◌++◌, ◌≡◌, refl, ◌↔◌, arith}
use cageforge.Path.Components.{FilePath, Component, plain_components, starts_at_root}
use cageforge.Path.Components.Laws.{components_equal_iff}
use cageforge.Path.Compare.{
  equal_loop, paths_equal, contains_parent_traversal, within_loop, within_components, is_within,
}

equal_loop_iff : (xs ys : List Component) → (equal_loop xs ys ≡ true) ↔ (xs ≡ ys)
unfolding equal_loop
equal_loop_iff [] [] = (λ _. refl, λ _. refl)
equal_loop_iff (x ∷ xs) (y ∷ ys) = ground (arith, equal_loop_iff xs ys, components_equal_iff x y)
equal_loop_iff _ _ = ground arith

-- Two paths are equal to the program exactly when they have the same components, "." left out.
pub paths_equal_iff :
    (left right : FilePath)
    → (paths_equal left right ≡ true) ↔ (plain_components left ≡ plain_components right)
unfolding paths_equal
paths_equal_iff left right = equal_loop_iff _ _

-- `path` is at or below `root`, by components.
abbrev pub Extends : List Component → List Component → Type 0
Extends paths roots = (rest : List Component) × (paths ≡ roots ++ rest)

within_loop_sound :
    (roots paths : List Component) → within_loop roots paths ≡ true → Extends paths roots
unfolding within_loop
within_loop_sound [] paths h = (paths, refl)
within_loop_sound (r ∷ roots) [] h = cc
within_loop_sound (r ∷ roots) (p ∷ paths) h =
    let (rest, e) = within_loop_sound roots paths (ground arith) in
    (rest, ground (arith, components_equal_iff p r))

within_loop_complete : (roots rest : List Component) → within_loop roots (roots ++ rest) ≡ true
unfolding within_loop
within_loop_complete [] rest = refl
within_loop_complete (r ∷ roots) rest =
    rw ((components_equal_iff r r).1 refl) (within_loop_complete roots rest)

-- What `is_within` accepts of two lists of components: an empty root holds all but what starts
-- at the root directory, and any other root holds what it is a prefix of.
abbrev pub Below : List Component → List Component → Type 0
Below paths [] = starts_at_root paths ≡ false
Below paths (r ∷ roots) = Extends paths (r ∷ roots)

pub within_components_iff :
    (paths roots : List Component) → (within_components paths roots ≡ true) ↔ Below paths roots
unfolding within_components
within_components_iff paths [] = ground arith
within_components_iff paths (r ∷ roots) =
    (within_loop_sound (r ∷ roots) paths, λ h. rw h.1 (within_loop_complete (r ∷ roots) h.0))

-- `is_within` holds exactly when neither path has a ".." and the one is below the other.
pub is_within_iff :
    (path root : FilePath)
    → (is_within path root ≡ true) ↔ (
        (contains_parent_traversal path ≡ false)
        × (contains_parent_traversal root ≡ false)
        × Below (plain_components path) (plain_components root))
unfolding is_within
is_within_iff path root =
    let w = within_components_iff (plain_components path) (plain_components root) in
    (λ h. (ground arith, ground arith, w.0 (ground arith)), λ b. rw (b.0, b.1) (w.1 b.2))
