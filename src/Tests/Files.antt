-- ===== src/Tests/Files.antt =====
-- The theorems on filesystem policies at concrete policies.
use mathlib.Core.List.{Permᴰ}
use cageforge.Base.{
  ℕ, Bool, true, false, not, List, [], ◌∷◌, ◌++◌, Text, codes, ok, Result, ◌≡◌, ◌↔◌, ◌⊎◌, refl,
  ◌||◌, any, Option, some, All, ◌≢◌,
}
use cageforge.Path.Components.{FilePath}
use cageforge.Path.Compare.{paths_equal}
use cageforge.Policy.Access.{AccessMode, FilesystemDecision, most_restrictive, can_read, can_write}
use cageforge.Policy.Context.{
  PathResolutionContext, new_context, with_workspace_root, path_key, path_key_eq, resolve,
}
use cageforge.Policy.Context.Laws.{with_workspace_root_lem, IsCoherent}
use cageforge.Policy.Glob.{glob_components_match}
use cageforge.Policy.Glob.Matching.{glob_components_match-eq-glob_meaning, glob_meaning}
use cageforge.Policy.Selector.{PathSelector}
use cageforge.Policy.Rule.{FilesystemRule}
use cageforge.Policy.Filesystem.{FilesystemPolicy, normalized}
use cageforge.Policy.Decision.{access_for_path, check_query, is_protected_path, access_for}
use cageforge.Policy.Decision.Order.{access_for_path_perm, matches}
use cageforge.Policy.Decision.Meaning.{
  access_for_path-eq-write_iff, access_for_path-eq-deny_iff, GrantsWrite, AnyOf,
}
use cageforge.Policy.Decision.Selected.{access_for-eq-write_iff}
use cageforge.Tests.{literals, work, work_file, secret, work_policy, rule_on}

-- Two rules for "/w" with a read-only directory below the second one, and a rule for "/w/a":
-- the path below the directory can be read only, and can be written once the policy is normalised.
abbrev carved : FilesystemPolicy
carved = record work_policy {
  entries =
      rule_on work AccessMode.read
      ∷ record (rule_on work AccessMode.write) {
        read_only_subpaths = PathSelector.absolute (codes "/w/a/b") ∷ [];
      }
      ∷ rule_on (codes "/w/a") AccessMode.write
      ∷ [];
}

abbrev uncarved : FilesystemPolicy
uncarved = record work_policy {
  entries = rule_on work AccessMode.read ∷ rule_on (codes "/w/a") AccessMode.write ∷ [];
}

carved_runs : access_for_path carved (codes "/w/a/b/x") new_context ≡ ok FilesystemDecision.read
unfolding access_for_path cageforge.Policy.Selector.contains_nul
    cageforge.Path.Compare.contains_parent_traversal cageforge.Path.Components.components
    cageforge.Base.text_eq work_policy cageforge.Policy.Rule.matches_path rule_on
    cageforge.Policy.Context.resolve cageforge.Path.Compare.is_within
    cageforge.Path.Components.plain_components cageforge.Path.Components.components_equal
    cageforge.Policy.Selector.normal_component_count cageforge.Policy.Access.from_access
carved_runs = refl

carved_normalizes : normalized carved ≡ ok uncarved
unfolding normalized work_policy rule_on cageforge.Policy.Selector.contains_nul
    cageforge.Path.Components.components cageforge.Base.text_eq cageforge.Path.Components.join
    cageforge.Policy.Rule.target_keys_equal cageforge.Policy.Selector.selectors_equal paths_equal
    cageforge.Path.Components.plain_components cageforge.Path.Components.components_equal
    cageforge.Policy.Rule.most_conservative
carved_normalizes = refl

uncarved_runs :
    access_for_path uncarved (codes "/w/a/b/x") new_context ≡ ok FilesystemDecision.write
unfolding access_for_path cageforge.Policy.Selector.contains_nul
    cageforge.Path.Compare.contains_parent_traversal cageforge.Path.Components.components
    cageforge.Base.text_eq work_policy cageforge.Policy.Rule.matches_path rule_on
    cageforge.Policy.Context.resolve cageforge.Path.Compare.is_within
    cageforge.Path.Components.plain_components cageforge.Path.Components.components_equal
    cageforge.Policy.Selector.normal_component_count cageforge.Path.Compare.contains_component_path
    cageforge.Policy.Access.from_access
uncarved_runs = refl

work_file_runs : access_for_path work_policy work_file new_context ≡ ok FilesystemDecision.write
unfolding access_for_path cageforge.Policy.Selector.contains_nul
    cageforge.Path.Compare.contains_parent_traversal cageforge.Path.Components.components
    cageforge.Base.text_eq work_policy cageforge.Policy.Rule.matches_path rule_on
    cageforge.Policy.Context.resolve cageforge.Path.Compare.is_within
    cageforge.Path.Components.plain_components cageforge.Path.Components.components_equal
    cageforge.Policy.Selector.normal_component_count cageforge.Path.Compare.contains_component_path
    cageforge.Policy.Access.from_access
work_file_runs = refl

secret_runs : access_for_path work_policy secret new_context ≡ ok FilesystemDecision.deny
unfolding access_for_path cageforge.Policy.Selector.contains_nul
    cageforge.Path.Compare.contains_parent_traversal cageforge.Path.Components.components
    cageforge.Base.text_eq work_policy cageforge.Policy.Rule.matches_path rule_on
    cageforge.Policy.Context.resolve cageforge.Path.Compare.is_within
    cageforge.Path.Components.plain_components cageforge.Path.Components.components_equal
secret_runs = refl

git_runs :
    access_for_path work_policy (codes "/w/.git/config") new_context ≡ ok FilesystemDecision.read
unfolding access_for_path cageforge.Policy.Selector.contains_nul
    cageforge.Path.Compare.contains_parent_traversal cageforge.Path.Components.components
    cageforge.Base.text_eq work_policy cageforge.Policy.Rule.matches_path rule_on
    cageforge.Policy.Context.resolve cageforge.Path.Compare.is_within
    cageforge.Path.Components.plain_components cageforge.Path.Components.components_equal
    cageforge.Policy.Selector.normal_component_count cageforge.Path.Compare.contains_component_path
git_runs = refl

access_for_path-eq-write_iff_example :
    (access_for_path work_policy work_file new_context ≡ ok FilesystemDecision.write) ↔ (
      (check_query work_file ≡ ok tt)
      × ((is_protected_path work_policy work_file ≡ false)
          × GrantsWrite (matches work_policy.entries work_file new_context)))
unfolding work_policy
access_for_path-eq-write_iff_example =
    access_for_path-eq-write_iff work_policy work_file new_context refl

access_for_path-eq-deny_iff_example :
    (access_for_path work_policy secret new_context ≡ ok FilesystemDecision.deny) ↔ (
      (check_query secret ≡ ok tt)
      × ((matches work_policy.entries secret new_context ≡ [])
          ⊎ AnyOf
              (λ m. m.access ≡ AccessMode.deny)
              (matches work_policy.entries secret new_context)))
unfolding work_policy
access_for_path-eq-deny_iff_example =
    access_for_path-eq-deny_iff work_policy secret new_context refl

abbrev shuffled : List FilesystemRule
shuffled =
    rule_on secret AccessMode.deny
    ∷ rule_on work AccessMode.write
    ∷ rule_on (codes "/") AccessMode.read
    ∷ []

access_for_path_perm_example :
    access_for_path work_policy work_file new_context
    ≡ access_for_path (record work_policy { entries = shuffled }) work_file new_context
unfolding work_policy
access_for_path_perm_example =
    access_for_path_perm work_policy shuffled work_file new_context ∣ Permᴰ.swap refl refl ∣₁

-- A second rule for "/w", and what is left of the two.
abbrev repeated : FilesystemPolicy
repeated = record work_policy {
  entries = work_policy.entries ++ (rule_on (codes "/w/") AccessMode.read ∷ []);
}

abbrev collapsed : FilesystemPolicy
collapsed = record work_policy {
  entries =
      rule_on work AccessMode.read
      ∷ rule_on secret AccessMode.deny
      ∷ rule_on (codes "/") AccessMode.read
      ∷ [];
}

glob_components_match-eq-glob_meaning_example :
    glob_components_match
      (codes "**" ∷ codes "f" ∷ [])
      (codes "**" ∷ codes "f" ∷ [])
      (codes "a" ∷ codes "b" ∷ codes "f" ∷ [])
    ≡ glob_meaning
        (codes "**" ∷ codes "f" ∷ [])
        (codes "**" ∷ codes "f" ∷ [])
        (codes "a" ∷ codes "b" ∷ codes "f" ∷ [])
glob_components_match-eq-glob_meaning_example =
    glob_components_match-eq-glob_meaning (codes "**" ∷ codes "f" ∷ [])
      (codes "**" ∷ codes "f" ∷ []) (codes "a" ∷ codes "b" ∷ codes "f" ∷ [])

glob_runs :
    glob_components_match
      (codes "**" ∷ codes "f" ∷ [])
      (codes "**" ∷ codes "f" ∷ [])
      (codes "a" ∷ codes "b" ∷ codes "f" ∷ [])
    ≡ true
unfolding glob_components_match cageforge.Base.text_eq
glob_runs = refl

-- One root, and then the same root under another name.
abbrev one_root : PathResolutionContext
unfolding path_key
one_root = record new_context {
  workspace_roots = codes "/w" ∷ [];
  workspace_root_keys = path_key (codes "/w") ∷ [];
}

with_workspace_root_lem_example :
    IsCoherent (one_root.workspace_roots, one_root.workspace_root_keys)
    × ((p : FilePath) → any (paths_equal p) one_root.workspace_roots ≡ paths_equal p (codes "/w"))
unfolding with_workspace_root cageforge.Path.Components.components cageforge.Base.text_eq
with_workspace_root_lem_example =
    with_workspace_root_lem new_context (codes "/w") one_root refl (tt, λ path. refl)

access_for-eq-write_iff_example :
    (access_for work_policy (PathSelector.absolute work_file) new_context
      ≡ ok FilesystemDecision.write)
    ↔ ((resolve (PathSelector.absolute work_file) new_context ≢ [])
        × All
            (λ path. access_for_path work_policy path new_context ≡ ok FilesystemDecision.write)
            (resolve (PathSelector.absolute work_file) new_context))
unfolding work_policy
access_for-eq-write_iff_example =
    access_for-eq-write_iff work_policy new_context refl (PathSelector.absolute work_file)
