-- ===== src/Policy/Context.antt =====
-- crates/cageforge-policy/src/context.rs: the runtime context that resolves symbolic selectors.
pub mod Laws
use cageforge.Base.{
  ℕ, suc, Bool, true, false, not, ◌||◌, Option, none, some, List, [], ◌∷◌, ◌++◌, map, Text, codes,
  is_empty, contains_char, any, if◌then◌else◌, Result, ok, err, ◌>>=◌, ◌>>◌, fail_if,
}
use cageforge.Path.Components.{
  FilePath, NativeComponentKey, component_key, key_eq, plain_components, join,
}
use cageforge.Path.Resolve.{normalize_lexical_path}
use cageforge.Policy.Error.{PolicyError}
use cageforge.Policy.Selector.{PathSelector, new_absolute}

-- `NativePathKey`
abbrev pub NativePathKey : Type 0
NativePathKey = List NativeComponentKey

unfoldable pub path_key : FilePath → NativePathKey
path_key path = map component_key (plain_components (normalize_lexical_path path))

unfoldable pub path_key_eq : NativePathKey → NativePathKey → Bool
path_key_eq [] [] = true
path_key_eq (a ∷ x) (b ∷ y) = let rest = path_key_eq x y in if key_eq a b then rest else false
path_key_eq _ _ = false

-- `PathResolutionContext`; each set of keys is a list without repetition.
pub record PathResolutionContext : Type 0 where
  pub root_paths : List FilePath
  pub root_keys : List NativePathKey
  pub workspace_roots : List FilePath
  pub workspace_root_keys : List NativePathKey
  pub minimal_paths : List FilePath
  pub minimal_path_keys : List NativePathKey
  pub executable_roots : List FilePath
  pub executable_root_keys : List NativePathKey
  pub tmpdir : Option FilePath
  pub slash_tmp : Option FilePath
  pub current_directory : Option FilePath

-- `PathResolutionContext::new`
abbrev pub new_context : PathResolutionContext
new_context = record {
  root_paths = [];
  root_keys = [];
  workspace_roots = [];
  workspace_root_keys = [];
  minimal_paths = [];
  minimal_path_keys = [];
  executable_roots = [];
  executable_root_keys = [];
  tmpdir = none;
  slash_tmp = none;
  current_directory = none;
}

-- `PathSelector::path`
unfoldable pub selector_path : PathSelector → Option FilePath
selector_path (PathSelector.absolute path) = some path
selector_path (PathSelector.workspace_root path) = some path
selector_path _ = none

unfoldable pub validated_absolute : FilePath → Result PolicyError FilePath
unfolding new_absolute selector_path
validated_absolute path = do
  selector ← new_absolute path
  elim (selector_path selector) [
    | some p ↦ ok p
    | none ↦
        err
          (PolicyError.invalid_context "absolute path validation returned a non-absolute selector")
  ]

-- `HashSet::insert` with the push that depends on it.
unfoldable pub push_new :
    FilePath → List FilePath → List NativePathKey → List FilePath × List NativePathKey
unfolding path_key path_key_eq
push_new path paths keys =
    if any (path_key_eq (path_key path)) keys
    then (paths, keys)
    else (paths ++ (path ∷ []), path_key path ∷ keys)

module _ (context : PathResolutionContext) (path : FilePath) where
  unfoldable pub with_root : Result PolicyError PathResolutionContext
  unfolding validated_absolute push_new
  with_root = do
    p ← validated_absolute path
    let (paths, keys) = push_new p context.root_paths context.root_keys
    ok (record context { root_paths = paths; root_keys = keys })

  unfoldable pub with_workspace_root : Result PolicyError PathResolutionContext
  unfolding validated_absolute push_new
  with_workspace_root = do
    p ← validated_absolute path
    let (paths, keys) = push_new p context.workspace_roots context.workspace_root_keys
    ok (record context { workspace_roots = paths; workspace_root_keys = keys })

  unfoldable pub with_minimal_path : Result PolicyError PathResolutionContext
  unfolding validated_absolute push_new
  with_minimal_path = do
    p ← validated_absolute path
    let (paths, keys) = push_new p context.minimal_paths context.minimal_path_keys
    ok (record context { minimal_paths = paths; minimal_path_keys = keys })

  unfoldable pub with_executable_root : Result PolicyError PathResolutionContext
  unfolding validated_absolute push_new
  with_executable_root = do
    p ← validated_absolute path
    let (paths, keys) = push_new p context.executable_roots context.executable_root_keys
    ok (record context { executable_roots = paths; executable_root_keys = keys })

  unfoldable pub with_tmpdir : Result PolicyError PathResolutionContext
  unfolding validated_absolute
  with_tmpdir = do p ← validated_absolute path; ok (record context { tmpdir = some p })

  unfoldable pub with_slash_tmp : Result PolicyError PathResolutionContext
  unfolding validated_absolute
  with_slash_tmp = do p ← validated_absolute path; ok (record context { slash_tmp = some p })

  unfoldable pub with_current_directory : Result PolicyError PathResolutionContext
  unfolding validated_absolute
  with_current_directory = do
    p ← validated_absolute path
    ok (record context { current_directory = some p })

abbrev pub option_list {ℓ} : {A : Type ℓ} → Option A → List A
option_list none = []
option_list (some a) = a ∷ []

-- `PathSelector::resolve`
unfoldable pub resolve : PathSelector → PathResolutionContext → List FilePath
resolve (PathSelector.absolute path) context = path ∷ []
resolve (PathSelector.workspace_root relative) context =
    map (λ root. join root relative) context.workspace_roots
resolve PathSelector.root context = context.root_paths
resolve PathSelector.minimal context = context.minimal_paths
resolve PathSelector.tmpdir context = option_list context.tmpdir
resolve PathSelector.slash_tmp context = option_list context.slash_tmp
