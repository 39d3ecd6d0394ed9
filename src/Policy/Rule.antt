-- ===== src/Policy/Rule.antt =====
-- crates/cageforge-policy/src/filesystem.rs: one filesystem rule, and its match with a path.
pub mod Laws
use cageforge.Base.{
  ℕ, Bool, true, false, not, ◌&&◌, ◌||◌, Option, none, some, List, [], ◌∷◌, ◌++◌, map, Text, any,
  keep, is_empty, text_eq, if◌then◌else◌, Result, ok, err, ◌>>=◌, ◌>>◌, fail_if,
}
use Prim.Native.Nat.{max}
use cageforge.Path.Components.{FilePath}
use cageforge.Path.Compare.{is_within}
use cageforge.Policy.Access.{AccessMode, mode_eq}
use cageforge.Policy.Error.{PolicyError}
use cageforge.Policy.Selector.{
  PathSelector, is_definitely_outside, selectors_equal, normal_component_count,
}
use cageforge.Policy.Context.{PathResolutionContext, resolve}
use cageforge.Policy.Glob.{GlobSet}
use cageforge.Policy.Pattern.{PathPattern, new_pattern, pattern_matches, specificity, semantic_key}

pub data MissingPathBehavior : Type 0 where
  error skip : MissingPathBehavior

unfoldable pub most_conservative : MissingPathBehavior → MissingPathBehavior → MissingPathBehavior
most_conservative MissingPathBehavior.error _ = MissingPathBehavior.error
most_conservative MissingPathBehavior.skip other = other

pub record RuleMatch : Type 0 where
  pub specificity : ℕ
  pub access : AccessMode

-- `Iterator::max`
unfoldable pub max_of : List ℕ → Option ℕ
max_of [] = none
max_of (n ∷ ns) = elim (max_of ns) [ none ↦ some n | some m ↦ some (max n m) ]

-- The longest root of the selector that holds the path, by its number of normal components.
unfoldable pub deepest_root : PathSelector → FilePath → PathResolutionContext → Option ℕ
unfolding max_of
deepest_root selector path context =
    max_of
      (map normal_component_count (keep (λ root. is_within path root) (resolve selector context)))

-- The loop over the read-only subpaths of a writable rule.
unfoldable pub carve_out :
    List PathSelector → FilePath → PathResolutionContext → RuleMatch → RuleMatch
unfolding deepest_root
carve_out [] path context matched = matched
carve_out (subpath ∷ subpaths) path context matched =
    carve_out subpaths path context (elim (deepest_root subpath path context) [
      | none ↦ matched
      | some n ↦ record { specificity = max matched.specificity n; access = AccessMode.read }
    ])

abbrev pub option_text_eq : Option Text → Option Text → Bool
option_text_eq (some a) (some b) = text_eq a b
option_text_eq none none = true
option_text_eq _ _ = false

unfoldable pub texts_eq : List Text → List Text → Bool
texts_eq [] [] = true
texts_eq (a ∷ x) (b ∷ y) = text_eq a b && texts_eq x y
texts_eq _ _ = false

abbrev pub bool_eq : Bool → Bool → Bool
bool_eq true b = b
bool_eq false b = not b

unfoldable pub semantic_keys_equal :
    Bool × Option Text × List Text → Bool × Option Text × List Text → Bool
unfolding texts_eq
semantic_keys_equal (a, p, x) (b, q, y) = bool_eq a b && (option_text_eq p q && texts_eq x y)

module _ ⦃g : GlobSet⦄ where
  pub data FilesystemTarget : Type 0 where
    scope : PathSelector → FilesystemTarget
    glob : PathPattern → FilesystemTarget

  pub record FilesystemRule : Type 0 where
    pub target : FilesystemTarget
    pub access : AccessMode
    pub missing_path_behavior : MissingPathBehavior
    pub read_only_subpaths : List PathSelector

  abbrev pub is_glob : FilesystemTarget → Bool
  is_glob (FilesystemTarget.scope _) = false
  is_glob (FilesystemTarget.glob _) = true

  -- `FilesystemRule::new`
  unfoldable pub new_rule : PathSelector → AccessMode → FilesystemRule
  new_rule selector access = record {
    target = FilesystemTarget.scope selector;
    access = access;
    missing_path_behavior = MissingPathBehavior.error;
    read_only_subpaths = [];
  }

  unfoldable pub from_target : FilesystemTarget → AccessMode → Result PolicyError FilesystemRule
  unfolding mode_eq
  from_target target access = do
    fail_if (is_glob target && not (mode_eq access AccessMode.deny))
        (PolicyError.unsupported_glob_access access)
    ok (record {
      target = target;
      access = access;
      missing_path_behavior = MissingPathBehavior.error;
      read_only_subpaths = [];
    })

  unfoldable pub absolute_glob : Text → AccessMode → Result PolicyError FilesystemRule
  unfolding from_target
  absolute_glob pattern access = do
    p ← new_pattern pattern true
    from_target (FilesystemTarget.glob p) access

  unfoldable pub workspace_glob : Text → AccessMode → Result PolicyError FilesystemRule
  unfolding from_target
  workspace_glob pattern access = do
    p ← new_pattern pattern false
    from_target (FilesystemTarget.glob p) access

  unfoldable pub with_missing_path_behavior : FilesystemRule → MissingPathBehavior → FilesystemRule
  with_missing_path_behavior rule behavior = record rule { missing_path_behavior = behavior }

  abbrev outside_target : PathSelector → FilesystemTarget → Bool
  outside_target selector (FilesystemTarget.scope parent) = is_definitely_outside selector parent
  outside_target selector (FilesystemTarget.glob _) = false

  unfoldable pub with_read_only_subpath :
      FilesystemRule → PathSelector → Result PolicyError FilesystemRule
  unfolding mode_eq
  with_read_only_subpath rule selector = do
    fail_if (not (mode_eq rule.access AccessMode.write))
        (PolicyError.invalid_rule "read-only subpaths require a writable parent rule")
    fail_if (outside_target selector rule.target)
        (PolicyError.invalid_rule "read-only subpath must be below the writable parent rule")
    ok (record rule { read_only_subpaths = rule.read_only_subpaths ++ (selector ∷ []) })

  -- The specificity of the target and whether it matches; a target that does not gives none.
  unfoldable pub target_match : FilesystemTarget → FilePath → PathResolutionContext → Option ℕ
  unfolding deepest_root
  target_match (FilesystemTarget.scope selector) path context = deepest_root selector path context
  target_match (FilesystemTarget.glob pattern) path context =
      if pattern_matches pattern path context then some (specificity pattern) else none

  -- `FilesystemRule::matches_path`
  unfoldable pub matches_path : FilesystemRule → FilePath → PathResolutionContext → Option RuleMatch
  unfolding target_match mode_eq carve_out
  matches_path rule path context = elim (target_match rule.target path context) [
    | none ↦ none
    | some n ↦
        let matched : RuleMatch = record { specificity = n; access = rule.access } in
        if mode_eq rule.access AccessMode.write
        then some (carve_out rule.read_only_subpaths path context matched)
        else some matched
  ]

  -- `FilesystemRule::validate`
  unfoldable pub validate_rule : FilesystemRule → Result PolicyError (Unit {0})
  unfolding mode_eq
  validate_rule rule =
      fail_if (is_glob rule.target && not (mode_eq rule.access AccessMode.deny))
        (PolicyError.unsupported_glob_access rule.access)

  -- `==` of the `target_key`s of two targets.
  unfoldable pub target_keys_equal : FilesystemTarget → FilesystemTarget → Bool
  unfolding semantic_keys_equal
  target_keys_equal (FilesystemTarget.scope a) (FilesystemTarget.scope b) = selectors_equal a b
  target_keys_equal (FilesystemTarget.glob a) (FilesystemTarget.glob b) =
      semantic_keys_equal (semantic_key a) (semantic_key b)
  target_keys_equal _ _ = false
