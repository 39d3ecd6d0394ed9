-- ===== src/Compose/Roots.antt =====
-- crates/cageforge-policy-compose/src: the workspace roots of an effective sandbox (the functions on
-- roots of model.rs, and compose_workspace_roots of compose.rs).
use cageforge.Base.{
  Bool, true, not, ◌≡◌, inl, inr, Option, none, some, List, [], ◌∷◌, codes, any, All, is_empty,
  Result, Result-cases, ok, ◌>>=◌, ◌>>◌, fail_if, map_ok, arith,
}
use cageforge.Path.Components.{FilePath, is_absolute}
use cageforge.Path.Compare.{contains_parent_traversal, is_within}
use cageforge.Path.Compare.Order.{is_within_trans}
use cageforge.Policy.Selector.{contains_nul}
use cageforge.Policy.Context.{NativePathKey, push_new}
use cageforge.Compose.{CompositionError}

unfoldable pub validate_root : FilePath → Result CompositionError (Unit {0})
unfolding contains_nul contains_parent_traversal
validate_root path = do
  fail_if (is_empty path)
      (CompositionError.invalid_workspace_root path (codes "root must not be empty"))
  fail_if (contains_nul path)
      (CompositionError.invalid_workspace_root path (codes "root must not contain NUL"))
  fail_if (contains_parent_traversal path)
      (CompositionError.invalid_workspace_root path (codes "parent traversal is not allowed"))
  fail_if (not (is_absolute path)) (
      CompositionError.invalid_workspace_root path
        (codes "root must be absolute at composition time"))

-- The loop of `normalize_roots`; a new key is stored with its root.
unfoldable pub roots_loop :
    List FilePath → List NativePathKey → List FilePath → Result CompositionError (List FilePath)
unfolding validate_root push_new
roots_loop normalized seen [] = ok normalized
roots_loop normalized seen (root ∷ roots) =
    validate_root root
    >> (let (kept, keys) = push_new root normalized seen in roots_loop kept keys roots)

unfoldable pub normalize_roots : List FilePath → Result CompositionError (List FilePath)
unfolding roots_loop
normalize_roots roots = roots_loop [] [] roots

unfoldable pub root_is_within : FilePath → List FilePath → Bool
unfolding is_within
root_is_within root ceiling_roots = any (λ ceiling_root. is_within root ceiling_root) ceiling_roots

pub record ComposedWorkspaceRoots : Type 0 where
  pub selected : Option (List FilePath)
  pub limit : Option (List FilePath)

-- `Option::map` with `transpose`.
abbrev normalize_optional :
    Option (List FilePath) → Result CompositionError (Option (List FilePath))
unfolding normalize_roots
normalize_optional none = ok none
normalize_optional (some roots) = map_ok some (normalize_roots roots)

-- The loop over the requested roots where both sides name roots.
unfoldable pub check_granted : List FilePath → List FilePath → Result CompositionError (Unit {0})
unfolding root_is_within
check_granted ceiling [] = ok tt
check_granted ceiling (root ∷ roots) =
    fail_if (not (root_is_within root ceiling)) (CompositionError.workspace_root_not_granted root)
    >> check_granted ceiling roots

-- The match at the end of `compose_workspace_roots`.
unfoldable pub select_roots :
    Option (List FilePath) → Option (List FilePath) → Result CompositionError ComposedWorkspaceRoots
unfolding check_granted
select_roots (some requested) (some ceiling) =
    check_granted ceiling requested
    >> ok (record { selected = some requested; limit = some ceiling })
select_roots requested ceiling = ok (record { selected = requested; limit = ceiling })

unfoldable pub compose_workspace_roots :
    Option (List FilePath) → Option (List FilePath) → Result CompositionError ComposedWorkspaceRoots
unfolding normalize_optional select_roots
compose_workspace_roots requested_roots ceiling_roots = do
  requested ← normalize_optional requested_roots
  ceiling ← normalize_optional ceiling_roots
  select_roots requested ceiling

check_granted-All :
    (ceiling roots : List FilePath)
    → check_granted ceiling roots ≡ ok tt
    → All (λ root. root_is_within root ceiling ≡ true) roots
unfolding check_granted
check_granted-All ceiling [] h = tt
check_granted-All ceiling (root ∷ roots) h =
    (ground arith, check_granted-All ceiling roots (ground arith))

root_is_within_trans :
    (limit : List FilePath) (root path : FilePath)
    → root_is_within root limit ≡ true
    → is_within path root ≡ true
    → root_is_within path limit ≡ true
unfolding root_is_within
root_is_within_trans [] root path k h = k
root_is_within_trans (ceiling ∷ limit) root path k h = ground (
  arith,
  is_within_trans path root ceiling h,
  (λ (w : root_is_within root limit ≡ true). root_is_within_trans limit root path w h),
)

-- Below a granted root, a path is below a root of the limit.
granted_below :
    (limit roots : List FilePath) (path : FilePath)
    → All (λ root. root_is_within root limit ≡ true) roots
    → root_is_within path roots ≡ true
    → root_is_within path limit ≡ true
unfolding root_is_within
granted_below limit [] path h k = cc
granted_below limit (root ∷ roots) path (p, h) k =
    ground (arith, root_is_within_trans limit root path p, granted_below limit roots path h)

compose_workspace_roots-granted :
    (requested_roots ceiling_roots selected limit : List FilePath)
    → compose_workspace_roots (some requested_roots) (some ceiling_roots)
      ≡ ok (record { selected = some selected; limit = some limit })
    → check_granted limit selected ≡ ok tt
unfolding compose_workspace_roots normalize_optional select_roots
compose_workspace_roots-granted requested_roots ceiling_roots selected limit h =
    elim (Result-cases (normalize_roots requested_roots)) [
      | inr (e, eq) ↦ ground arith
      | inl (requested, eq) ↦ elim (Result-cases (normalize_roots ceiling_roots)) [
        | inr (e, eq') ↦ ground arith
        | inl (ceiling, eq') ↦ ground (arith, Result-cases (check_granted ceiling requested))
      ]
    ]

-- Where both sides name workspace roots and the composition succeeds, every path within a selected
-- root is within a root of the limit.
pub compose_workspace_roots-IsWithin :
    (requested_roots ceiling_roots selected limit : List FilePath) (path : FilePath)
    → compose_workspace_roots (some requested_roots) (some ceiling_roots)
      ≡ ok (record { selected = some selected; limit = some limit })
    → root_is_within path selected ≡ true
    → root_is_within path limit ≡ true
compose_workspace_roots-IsWithin requested_roots ceiling_roots selected limit path h within =
    granted_below limit selected path
      (check_granted-All limit selected
        (compose_workspace_roots-granted requested_roots ceiling_roots selected limit h))
      within
