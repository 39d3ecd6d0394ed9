-- ===== src/Policy/Decision.antt =====
-- crates/cageforge-policy/src/filesystem.rs: what a filesystem policy decides of a path.
pub mod Order
pub mod Meaning
pub mod Normal
pub mod Selected
use cageforge.Base.{
  ℕ, Bool, true, false, not, ◌&&◌, ◌||◌, ◌==◌, ltb, Option, none, some, List, [], ◌∷◌, ◌++◌, map,
  Text, codes, any, keep, is_empty, is_some, if◌then◌else◌, Result, ok, err, ◌>>=◌, ◌>>◌, fail_if,
}
use cageforge.Path.Components.{FilePath, Component, components, is_absolute, join}
use cageforge.Path.Compare.{contains_parent_traversal, paths_equal, contains_component_path}
use cageforge.Policy.Access.{AccessMode, mode_eq, most_restrictive, FilesystemDecision, from_access}
use cageforge.Policy.Error.{PolicyError}
use cageforge.Policy.Selector.{PathSelector, selectors_equal, contains_nul}
use cageforge.Policy.Context.{PathResolutionContext, resolve}
use cageforge.Policy.Glob.{GlobSet}
use cageforge.Policy.Rule.{
  MissingPathBehavior, most_conservative, RuleMatch, FilesystemRule, matches_path, validate_rule,
  target_keys_equal,
}
use cageforge.Policy.Filesystem.{FilesystemMode, is_external, FilesystemPolicy}

-- The match that stands after a further candidate.
unfoldable pub better_match : Option RuleMatch → RuleMatch → RuleMatch
better_match none candidate = candidate
better_match (some current) candidate =
    if ltb candidate.specificity current.specificity
    then current
    else if current.specificity == candidate.specificity
    then record {
      specificity = current.specificity;
      access = most_restrictive current.access candidate.access;
    }
    else candidate

abbrev pub matched_access : Option RuleMatch → AccessMode
matched_access none = AccessMode.deny
matched_access (some m) = m.access

-- What `access_for_path` returns behind its loop.
unfoldable pub settle : Bool → Option RuleMatch → Bool → FilesystemDecision
unfolding mode_eq
settle is_protected best writable_match =
    if writable_match && (mode_eq (matched_access best) AccessMode.write && is_protected)
    then FilesystemDecision.read
    else from_access (matched_access best)

-- One round of the loop of `access_for`.
unfoldable pub stricter_decision :
    Option FilesystemDecision → FilesystemDecision → FilesystemDecision
stricter_decision (some FilesystemDecision.deny) _ = FilesystemDecision.deny
stricter_decision _ FilesystemDecision.deny = FilesystemDecision.deny
stricter_decision (some FilesystemDecision.read) _ = FilesystemDecision.read
stricter_decision _ FilesystemDecision.read = FilesystemDecision.read
stricter_decision (some FilesystemDecision.write) FilesystemDecision.write =
    FilesystemDecision.write
stricter_decision none decision = decision
stricter_decision (some FilesystemDecision.externally_enforced) decision = decision
stricter_decision (some decision) FilesystemDecision.externally_enforced = decision

-- The tests of `access_for_path` in front of its match on the mode.
unfoldable pub check_query : FilePath → Result PolicyError (Unit {0})
check_query path = do
  fail_if (contains_nul path) (PolicyError.path_contains_nul path)
  fail_if (not (is_absolute path)) (PolicyError.expected_absolute path)
  fail_if (contains_parent_traversal path) (PolicyError.parent_traversal path)

module _ ⦃g : GlobSet⦄ where
  unfoldable pub is_protected_path : FilesystemPolicy → FilePath → Bool
  is_protected_path policy path =
      any (λ protected. contains_component_path path protected) policy.protected_relative_paths

  -- The loop of `access_for_path` over the rules, and what follows it.
  unfoldable pub access_loop :
      FilePath
      → PathResolutionContext
      → Bool
      → List FilesystemRule
      → Option RuleMatch
      → Bool
      → FilesystemDecision
  unfolding better_match settle mode_eq
  access_loop path context is_protected [] best writable_match =
      settle is_protected best writable_match
  access_loop path context is_protected (rule ∷ rules) best writable_match =
      elim (matches_path rule path context) [
        | none ↦ access_loop path context is_protected rules best writable_match
        | some candidate ↦
            let rest =
              access_loop path context is_protected rules (some (better_match best candidate))
                (writable_match || mode_eq candidate.access AccessMode.write) in
            if mode_eq candidate.access AccessMode.deny then FilesystemDecision.deny else rest
      ]

  -- The match on the mode at the end of `access_for_path`.
  unfoldable pub decision_in_mode :
      FilesystemMode → FilesystemPolicy → FilePath → PathResolutionContext → FilesystemDecision
  unfolding access_loop is_protected_path
  decision_in_mode FilesystemMode.unrestricted policy path context = FilesystemDecision.write
  decision_in_mode FilesystemMode.external policy path context =
      FilesystemDecision.externally_enforced
  decision_in_mode FilesystemMode.restricted policy path context =
      access_loop path context (is_protected_path policy path) policy.entries none false

  unfoldable pub access_for_path :
      FilesystemPolicy → FilePath → PathResolutionContext → Result PolicyError FilesystemDecision
  unfolding check_query decision_in_mode
  access_for_path policy path context = do
    check_query path
    ok (decision_in_mode policy.mode policy path context)

  -- The loop of `access_for`.
  unfoldable pub resolved_loop :
      FilesystemPolicy
      → PathResolutionContext
      → Option FilesystemDecision
      → List FilePath
      → Result PolicyError FilesystemDecision
  unfolding access_for_path stricter_decision
  resolved_loop policy context none [] = ok FilesystemDecision.deny
  resolved_loop policy context (some decision) [] = ok decision
  resolved_loop policy context result (path ∷ paths) =
      access_for_path policy path context >>= λ decision.
      resolved_loop policy context (some (stricter_decision result decision)) paths

  unfoldable pub access_for :
      FilesystemPolicy
      → PathSelector
      → PathResolutionContext
      → Result PolicyError FilesystemDecision
  unfolding resolved_loop
  access_for policy selector context =
      if is_external policy.mode
      then ok FilesystemDecision.externally_enforced
      else resolved_loop policy context none (resolve selector context)
