-- ===== src/Path/Compare.antt =====
-- crates/cageforge-path/src/lib.rs: comparing paths component by component.
pub mod Laws
pub mod Order
use cageforge.Base.{
  ℕ, Bool, true, false, ◌&&◌, ◌||◌, not, List, [], ◌∷◌, take, length, leb, ltb, ◌==◌, any,
  if◌then◌else◌,
}
use cageforge.Path.Components.{
  FilePath, Component, components, plain_components, components_equal, is_parent_dir,
  starts_at_root,
}

-- The loop of `paths_equal`, over what the two iterators have left.
unfoldable pub equal_loop : List Component → List Component → Bool
equal_loop [] [] = true
equal_loop (left ∷ lefts) (right ∷ rights) =
    let rest = equal_loop lefts rights in if components_equal left right then rest else false
equal_loop _ _ = false

unfoldable pub paths_equal : FilePath → FilePath → Bool
unfolding equal_loop
paths_equal left right = equal_loop (plain_components left) (plain_components right)

unfoldable pub contains_parent_traversal : FilePath → Bool
contains_parent_traversal path = any is_parent_dir (components path)

-- The loop of `is_within`, over the rest of the root and the rest of the path.
unfoldable pub within_loop : List Component → List Component → Bool
within_loop [] paths = true
within_loop (root ∷ roots) (path ∷ paths) =
    let rest = within_loop roots paths in if components_equal path root then rest else false
within_loop (root ∷ roots) [] = false

-- What `is_within` does behind its test for parent traversal.
unfoldable pub within_components : List Component → List Component → Bool
unfolding within_loop
within_components paths [] = not (starts_at_root paths)
within_components paths (root ∷ roots) = within_loop (root ∷ roots) paths

unfoldable pub is_within : FilePath → FilePath → Bool
unfolding within_components
is_within path root =
    if contains_parent_traversal path || contains_parent_traversal root
    then false
    else within_components (plain_components path) (plain_components root)

-- `slice::windows`
unfoldable pub windows {ℓ} : {A : Type ℓ} → ℕ → List A → List (List A)
windows n [] = []
windows n (x ∷ xs) =
    let rest = windows n xs in if leb n (length (x ∷ xs)) then take n (x ∷ xs) ∷ rest else []

-- `left.iter().zip(right).all(…)`
unfoldable pub zip_equal : List Component → List Component → Bool
zip_equal (left ∷ lefts) (right ∷ rights) = components_equal left right && zip_equal lefts rights
zip_equal _ _ = true

unfoldable pub contains_component_path : FilePath → FilePath → Bool
unfolding windows zip_equal
contains_component_path path needle =
    let path_components = plain_components path in
    let needle_components = plain_components needle in
    let n = length needle_components in
    if n == 0 || ltb (length path_components) n
    then false
    else any (λ window. zip_equal window needle_components) (windows n path_components)
