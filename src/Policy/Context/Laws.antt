-- ===== src/Policy/Context/Laws.antt =====
-- crates/cageforge-policy/src/context.rs: the keys of paths, and the lists of paths of a context.
use cageforge.Base.{
  true, false, ◌||◌, ◌≡◌, refl, sym, ap, ◌∙◌, List, [], ◌∷◌, ◌++◌, any, any-append, map, arith, ok,
  subst, bool_ext, if_elim,
}
use cageforge.Path.Components.{
  FilePath, Component, component_key, components_equal, plain_components,
}
use cageforge.Path.Compare.{equal_loop, paths_equal}
use cageforge.Path.Compare.Laws.{paths_equal_iff}
use cageforge.Path.Resolve.Laws.{plain_components-normalize_lexical_path}
use cageforge.Policy.Selector.{new_absolute}
use cageforge.Policy.Context.{
  NativePathKey, path_key, path_key_eq, push_new, PathResolutionContext, validated_absolute,
  with_workspace_root, selector_path,
}

path_key_eq-map :
    (xs ys : List Component)
    → path_key_eq (map component_key xs) (map component_key ys) ≡ equal_loop xs ys
unfolding path_key_eq equal_loop components_equal
path_key_eq-map [] [] = refl
path_key_eq-map [] (y ∷ ys) = refl
path_key_eq-map (x ∷ xs) [] = refl
path_key_eq-map (x ∷ xs) (y ∷ ys) = ground (arith, path_key_eq-map xs ys)

-- Two paths have one key exactly when `paths_equal` holds of them, so a set of keys finds a path
-- where a search of the paths would.
pub path_key_eq-path_key :
    (a b : FilePath) → path_key_eq (path_key a) (path_key b) ≡ paths_equal a b
unfolding path_key paths_equal
path_key_eq-path_key a b =
    (λ i.
      path_key_eq (map component_key (plain_components-normalize_lexical_path a i))
        (map component_key (plain_components-normalize_lexical_path b i)))
    ∙ path_key_eq-map _ _

-- No two paths of the list are equal to the program.
abbrev pub IsDistinct : List FilePath → Type 0
IsDistinct [] = Unit
IsDistinct (path ∷ paths) = (any (paths_equal path) paths ≡ false) × IsDistinct paths

-- The set of keys holds the keys of the paths and no other.
abbrev pub IsKeyed : List FilePath → List NativePathKey → Type 0
IsKeyed paths keys =
    (path : FilePath) → any (path_key_eq (path_key path)) keys ≡ any (paths_equal path) paths

paths_equal_sym : (a b : FilePath) → paths_equal a b ≡ paths_equal b a
paths_equal_sym a b =
    bool_ext _ _ (λ h. (paths_equal_iff b a).1 (sym ((paths_equal_iff a b).0 h)))
      (λ h. (paths_equal_iff a b).1 (sym ((paths_equal_iff b a).0 h)))

IsDistinct-append :
    (paths : List FilePath) (path : FilePath)
    → IsDistinct paths
    → any (paths_equal path) paths ≡ false
    → IsDistinct (paths ++ (path ∷ []))
IsDistinct-append [] path h k = (refl, tt)
IsDistinct-append (a ∷ paths) path (p, h) k = (
  ground (arith, any-append (paths_equal a) paths (path ∷ []), paths_equal_sym a path),
  IsDistinct-append paths path h (ground arith),
)

-- The paths and their keys, as the lists of a context keep them.
abbrev pub IsCoherent : List FilePath × List NativePathKey → Type 0
IsCoherent (paths, keys) = IsDistinct paths × IsKeyed paths keys

pub push_new-IsCoherent :
    (path : FilePath) (paths : List FilePath) (keys : List NativePathKey)
    → IsCoherent (paths, keys)
    → IsCoherent (push_new path paths keys)
unfolding push_new
push_new-IsCoherent path paths keys (distinct, keyed) =
    if_elim IsCoherent (any (path_key_eq (path_key path)) keys) (λ _. (distinct, keyed))
      (λ new. (
        IsDistinct-append paths path distinct (sym (keyed path) ∙ new),
        λ p. ground (
          arith,
          keyed p,
          path_key_eq-path_key p path,
          any-append (paths_equal p) paths (path ∷ []),
        ),
      ))

any-paths_equal :
    (p path : FilePath) (paths : List FilePath)
    → paths_equal p path ≡ true
    → any (paths_equal p) paths ≡ any (paths_equal path) paths
unfolding paths_equal
any-paths_equal p path paths h =
    ap (λ xs. any (λ q. equal_loop xs (plain_components q)) paths) ((paths_equal_iff p path).0 h)

-- What a context finds among its paths after a push: what it found before, and the new path.
pub any-push_new :
    (path p : FilePath) (paths : List FilePath) (keys : List NativePathKey)
    → IsKeyed paths keys
    → any (paths_equal p) ((push_new path paths keys).0)
      ≡ (any (paths_equal p) paths || paths_equal p path)
unfolding push_new
any-push_new path p paths keys keyed =
    ground (
      arith,
      keyed path,
      any-paths_equal p path paths,
      any-append (paths_equal p) paths (path ∷ []),
    )

-- Where a workspace root is accepted, the roots stay distinct and stay the ones that the keys name,
-- and a path is among them exactly when it was before or is the new root.
pub with_workspace_root_lem :
    (context : PathResolutionContext) (path : FilePath) (after : PathResolutionContext)
    → with_workspace_root context path ≡ ok after
    → IsCoherent (context.workspace_roots, context.workspace_root_keys)
    → IsCoherent (after.workspace_roots, after.workspace_root_keys)
      × ((p : FilePath)
          → any (paths_equal p) after.workspace_roots
            ≡ (any (paths_equal p) context.workspace_roots || paths_equal p path))
unfolding with_workspace_root validated_absolute new_absolute selector_path
with_workspace_root_lem context path after h coherent =
    let pushed : push_new path context.workspace_roots context.workspace_root_keys
        ≡ (after.workspace_roots, after.workspace_root_keys) =
      ground arith in
    (
      subst IsCoherent pushed (push_new-IsCoherent path _ _ coherent),
      λ p.
          subst
            (λ (r : List FilePath × List NativePathKey).
              any (paths_equal p) (r.0)
              ≡ (any (paths_equal p) context.workspace_roots || paths_equal p path))
            pushed (any-push_new path p _ _ (coherent.1)),
    )
