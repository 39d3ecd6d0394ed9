-- ===== src/Policy/Filesystem.antt =====
-- crates/cageforge-policy/src/filesystem.rs: the filesystem policy and its decisions.
use cageforge.Base.{
  ℕ, Bool, true, false, not, ◌&&◌, ◌||◌, Option, none, some, List, [], ◌∷◌, ◌++◌, codes, any, keep,
  is_empty, is_some, if◌then◌else◌, Result, ok, err, ◌>>=◌, ◌>>◌, fail_if,
}
use cageforge.Path.Components.{FilePath, Component, components, is_absolute, join}
use cageforge.Path.Compare.{paths_equal}
use cageforge.Policy.Access.{AccessMode, mode_eq, most_restrictive}
use cageforge.Policy.Error.{PolicyError}
use cageforge.Policy.Selector.{PathSelector, selectors_equal, contains_nul}
use cageforge.Policy.Glob.{GlobSet}
use cageforge.Policy.Rule.{most_conservative, FilesystemRule, validate_rule, target_keys_equal}

pub data FilesystemMode : Type 0 where
  restricted unrestricted external : FilesystemMode

abbrev pub is_restricted : FilesystemMode → Bool
is_restricted FilesystemMode.restricted = true
is_restricted _ = false

abbrev pub is_external : FilesystemMode → Bool
is_external FilesystemMode.external = true
is_external _ = false

-- The loop of `validate_protected_relative_path`.
unfoldable pub push_protected : FilePath → FilePath → List Component → Result PolicyError FilePath
push_protected path normalized [] = ok normalized
push_protected path normalized (Component.cur_dir ∷ cs) = push_protected path normalized cs
push_protected path normalized (Component.normal part ∷ cs) =
    push_protected path (join normalized part) cs
push_protected path normalized (_ ∷ cs) =
    err (PolicyError.invalid_protected_path path "path must not contain parent traversal or a root")

unfoldable pub validate_protected_relative_path : FilePath → Result PolicyError FilePath
unfolding push_protected
validate_protected_relative_path path = do
  fail_if (is_empty path) (PolicyError.invalid_protected_path path "path must not be empty")
  fail_if (contains_nul path)
      (PolicyError.invalid_protected_path path "path must not contain a NUL character")
  fail_if (is_absolute path) (PolicyError.invalid_protected_path path "path must be relative")
  normalized ← push_protected path [] (components path)
  fail_if (is_empty normalized)
      (PolicyError.invalid_protected_path path "path must name a descendant")
  ok normalized

module _ ⦃g : GlobSet⦄ where
  pub record FilesystemPolicy : Type 0 where
    pub mode : FilesystemMode
    pub entries : List FilesystemRule
    pub glob_scan_max_depth : Option ℕ
    pub protected_relative_paths : List FilePath

  unfoldable pub new_restricted : List FilesystemRule → FilesystemPolicy
  new_restricted entries = record {
    mode = FilesystemMode.restricted;
    entries = entries;
    glob_scan_max_depth = none;
    protected_relative_paths = codes ".git" ∷ [];
  }

  unfoldable pub new_unrestricted : FilesystemPolicy
  new_unrestricted = record {
    mode = FilesystemMode.unrestricted;
    entries = [];
    glob_scan_max_depth = none;
    protected_relative_paths = [];
  }

  unfoldable pub new_external : FilesystemPolicy
  new_external = record {
    mode = FilesystemMode.external;
    entries = [];
    glob_scan_max_depth = none;
    protected_relative_paths = [];
  }

  unfoldable pub with_glob_scan_max_depth :
      FilesystemPolicy → ℕ → Result PolicyError FilesystemPolicy
  with_glob_scan_max_depth policy depth = do
    fail_if (not (is_restricted policy.mode))
        (PolicyError.invalid_rule "glob scan depth requires a restricted filesystem policy")
    ok (record policy { glob_scan_max_depth = some depth })

  unfoldable pub with_additional_protected_relative_path :
      FilesystemPolicy → FilePath → Result PolicyError FilesystemPolicy
  unfolding validate_protected_relative_path
  with_additional_protected_relative_path policy declared = do
    fail_if (not (is_restricted policy.mode))
        (PolicyError.invalid_rule "protected paths require a restricted filesystem policy")
    path ← validate_protected_relative_path declared
    ok (
        if any (λ existing. paths_equal existing path) policy.protected_relative_paths
        then policy
        else record policy {
          protected_relative_paths = policy.protected_relative_paths ++ (path ∷ []);
        })

  unfoldable pub dangerously_allow_git_write : FilesystemPolicy → FilesystemPolicy
  dangerously_allow_git_write policy = record policy {
    protected_relative_paths =
        keep (λ path. not (paths_equal path (codes ".git"))) policy.protected_relative_paths;
  }

  unfoldable pub with_rule : FilesystemPolicy → FilesystemRule → Result PolicyError FilesystemPolicy
  unfolding validate_rule
  with_rule policy rule = do
    fail_if (not (is_restricted policy.mode))
        (PolicyError.invalid_rule "filesystem rules require a restricted filesystem policy")
    validate_rule rule
    ok (record policy { entries = policy.entries ++ (rule ∷ []) })

  -- The first loop of `FilesystemPolicy::validate`.
  unfoldable pub validate_entries : List FilesystemRule → Result PolicyError (Unit {0})
  unfolding validate_rule mode_eq
  validate_entries [] = ok tt
  validate_entries (rule ∷ rules) = do
    validate_rule rule
    fail_if (not (mode_eq rule.access AccessMode.write) && not (is_empty rule.read_only_subpaths))
        (PolicyError.invalid_rule "read-only subpaths require a writable parent rule")
    validate_entries rules

  -- The second one.
  unfoldable pub validate_protected : List FilePath → Result PolicyError (Unit {0})
  unfolding validate_protected_relative_path
  validate_protected [] = ok tt
  validate_protected (path ∷ paths) = do
    validate_protected_relative_path path
    validate_protected paths

  unfoldable pub validate : FilesystemPolicy → Result PolicyError (Unit {0})
  unfolding validate_entries validate_protected
  validate policy = do
    fail_if
        (not (is_restricted policy.mode)
          && (not (is_empty policy.entries)
              || (is_some policy.glob_scan_max_depth
                  || not (is_empty policy.protected_relative_paths))))
        (PolicyError.invalid_rule
          "unrestricted and external filesystem policies cannot contain local settings")
    validate_entries policy.entries
    validate_protected policy.protected_relative_paths

  -- The loop that adds the read-only subpaths of a duplicate to those of the first rule.
  unfoldable pub add_subpaths : List PathSelector → List PathSelector → List PathSelector
  add_subpaths existing [] = existing
  add_subpaths existing (selector ∷ selectors) =
      add_subpaths
        (if any (λ known. selectors_equal known selector) existing
          then existing
          else existing ++ (selector ∷ []))
        selectors

  unfoldable pub merge_rule : FilesystemRule → FilesystemRule → FilesystemRule
  unfolding add_subpaths mode_eq most_restrictive
  merge_rule existing rule =
      let access = most_restrictive existing.access rule.access in
      record {
        target = existing.target;
        access = access;
        missing_path_behavior =
            most_conservative existing.missing_path_behavior rule.missing_path_behavior;
        read_only_subpaths =
            if mode_eq access AccessMode.write
            then add_subpaths existing.read_only_subpaths rule.read_only_subpaths
            else [];
      }

  -- One round of the loop of `normalized`: the position that the map holds for a key is that of
  -- the only entry with the key.
  unfoldable pub merge_into : List FilesystemRule → FilesystemRule → List FilesystemRule
  unfolding merge_rule
  merge_into [] rule = rule ∷ []
  merge_into (existing ∷ entries) rule =
      let rest = merge_into entries rule in
      if target_keys_equal existing.target rule.target
      then merge_rule existing rule ∷ entries
      else existing ∷ rest

  unfoldable pub merge_entries : List FilesystemRule → List FilesystemRule → List FilesystemRule
  unfolding merge_into
  merge_entries entries [] = entries
  merge_entries entries (rule ∷ rules) = merge_entries (merge_into entries rule) rules

  unfoldable pub normalized : FilesystemPolicy → Result PolicyError FilesystemPolicy
  unfolding validate merge_entries
  normalized policy = do
    validate policy
    ok (
        if is_restricted policy.mode
        then record policy { entries = merge_entries [] policy.entries }
        else policy)
