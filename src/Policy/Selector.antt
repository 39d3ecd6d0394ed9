-- ===== src/Policy/Selector.antt =====
-- crates/cageforge-policy/src/path.rs: path selectors.
pub mod Laws
use cageforge.Base.{
  ℕ, suc, Bool, true, false, not, ◌||◌, Option, none, some, List, [], ◌∷◌, ◌++◌, map, Text, codes,
  is_empty, contains_char, any, if◌then◌else◌, Result, ok, err, ◌>>=◌, ◌>>◌, fail_if,
}
use cageforge.Path.Components.{
  FilePath, Component, NativeComponentKey, component_key, key_eq, components, plain_components,
  is_absolute, join,
}
use cageforge.Path.Compare.{contains_parent_traversal, is_within, paths_equal}
use cageforge.Path.Resolve.{normalize_lexical_path}
use cageforge.Policy.Error.{PolicyError}

-- `PathSelectorKind`
pub data PathSelector : Type 0 where
  absolute workspace_root : FilePath → PathSelector
  root minimal tmpdir slash_tmp : PathSelector

unfoldable pub contains_nul : FilePath → Bool
contains_nul path = contains_char 0 path

-- `PathSelector::absolute`
unfoldable pub new_absolute : FilePath → Result PolicyError PathSelector
unfolding contains_nul contains_parent_traversal
new_absolute path = do
  fail_if (is_empty path) PolicyError.empty_path
  fail_if (contains_nul path) (PolicyError.path_contains_nul path)
  fail_if (not (is_absolute path)) (PolicyError.expected_absolute path)
  fail_if (contains_parent_traversal path) (PolicyError.parent_traversal path)
  ok (PathSelector.absolute path)

-- `PathSelector::workspace_root`
abbrev pub new_workspace_root : PathSelector
new_workspace_root = PathSelector.workspace_root (codes ".")

-- The loop of `normalize_relative_path`; its last test is `empty_as_dot`.
unfoldable pub push_relative : FilePath → FilePath → List Component → Result PolicyError FilePath
push_relative relative normalized [] = ok normalized
push_relative relative normalized (Component.cur_dir ∷ cs) = push_relative relative normalized cs
push_relative relative normalized (Component.normal part ∷ cs) =
    push_relative relative (join normalized part) cs
push_relative relative normalized (Component.parent_dir ∷ cs) =
    err (PolicyError.parent_traversal relative)
push_relative relative normalized (Component.root_dir ∷ cs) =
    err (PolicyError.expected_relative relative)
push_relative relative normalized (Component.prefix p ∷ cs) =
    err (PolicyError.expected_relative relative)

unfoldable pub empty_as_dot : FilePath → FilePath
unfolding join
empty_as_dot normalized = if is_empty normalized then join normalized (codes ".") else normalized

unfoldable pub normalize_relative_path : FilePath → Result PolicyError FilePath
unfolding contains_nul push_relative empty_as_dot
normalize_relative_path relative = do
  fail_if (is_empty relative) PolicyError.empty_path
  fail_if (contains_nul relative) (PolicyError.path_contains_nul relative)
  fail_if (is_absolute relative) (PolicyError.expected_relative relative)
  normalized ← push_relative relative [] (components relative)
  ok (empty_as_dot normalized)

-- `PathSelector::workspace`
unfoldable pub new_workspace : FilePath → Result PolicyError PathSelector
unfolding normalize_relative_path
new_workspace relative = do
  normalized ← normalize_relative_path relative
  ok (PathSelector.workspace_root normalized)

unfoldable pub is_definitely_outside : PathSelector → PathSelector → Bool
is_definitely_outside (PathSelector.absolute child) (PathSelector.absolute parent) =
    not (is_within child parent)
is_definitely_outside (PathSelector.workspace_root child) (PathSelector.workspace_root parent) =
    not (is_within child parent)
is_definitely_outside _ _ = false

unfoldable pub selectors_equal : PathSelector → PathSelector → Bool
selectors_equal (PathSelector.absolute left) (PathSelector.absolute right) = paths_equal left right
selectors_equal (PathSelector.workspace_root left) (PathSelector.workspace_root right) =
    paths_equal left right
selectors_equal PathSelector.root PathSelector.root = true
selectors_equal PathSelector.minimal PathSelector.minimal = true
selectors_equal PathSelector.tmpdir PathSelector.tmpdir = true
selectors_equal PathSelector.slash_tmp PathSelector.slash_tmp = true
selectors_equal _ _ = false

abbrev pub is_normal : Component → Bool
is_normal (Component.normal _) = true
is_normal _ = false

-- The number of elements with a property: `filter(…).count()`.
abbrev pub count {ℓ} : {A : Type ℓ} → (A → Bool) → List A → ℕ
count p [] = 0
count p (x ∷ xs) = let rest = count p xs in if p x then suc rest else rest

unfoldable pub normal_component_count : FilePath → ℕ
normal_component_count path = count is_normal (components path)
