-- ===== src/Tests/Sandboxes.antt =====
-- The theorems on sandbox policies at the presets.
use cageforge.Base.{true, false, List, [], ◌∷◌, Text, codes, ok, err, Result, ◌≡◌, ◌≢◌, refl, All}
use cageforge.Path.Components.{FilePath}
use cageforge.Policy.Access.{AccessMode, FilesystemDecision}
use cageforge.Policy.Context.{PathResolutionContext, new_context}
use cageforge.Policy.Decision.{access_for_path}
use cageforge.Policy.NetworkDecision.{decision_for_domain, decision_for_unix_socket}
use cageforge.Policy.Filesystem.{new_restricted}
use cageforge.Policy.Sandbox.{SandboxPolicy, read_only, workspace, normalized_sandbox}
use cageforge.Policy.Sandbox.Presets.{normalized_sandbox_lem}
use cageforge.Tests.{literals, ascii, work_file, work, rule_on}
use cageforge.Tests.Merges.{socket}
use cageforge.Policy.Domain.{DomainMatcher}
use cageforge.Policy.Network.{new_enabled, DomainAccess, NetworkPolicy, DomainRule}
use cageforge.Policy.NetworkModel.{UnixSocketMode}

abbrev in_work : PathResolutionContext
in_work = record new_context { root_paths = codes "/" ∷ []; workspace_roots = codes "/w" ∷ [] }

read_only_runs : access_for_path read_only.filesystem work_file in_work ≡ ok FilesystemDecision.read
unfolding access_for_path cageforge.Policy.Selector.contains_nul
    cageforge.Path.Compare.contains_parent_traversal cageforge.Path.Components.components
    cageforge.Base.text_eq read_only cageforge.Policy.Rule.matches_path
    cageforge.Policy.Context.resolve cageforge.Path.Compare.is_within
    cageforge.Path.Components.plain_components cageforge.Path.Components.components_equal
    cageforge.Path.Components.join cageforge.Policy.Access.from_access
    cageforge.Policy.Selector.normal_component_count
read_only_runs = refl

workspace_runs :
    access_for_path workspace.filesystem work_file in_work ≡ ok FilesystemDecision.write
unfolding access_for_path cageforge.Policy.Selector.contains_nul
    cageforge.Path.Compare.contains_parent_traversal cageforge.Path.Components.components
    cageforge.Base.text_eq workspace cageforge.Policy.Rule.matches_path
    cageforge.Policy.Context.resolve cageforge.Path.Compare.is_within
    cageforge.Path.Components.plain_components cageforge.Path.Components.components_equal
    cageforge.Path.Components.join cageforge.Policy.Selector.normal_component_count
    cageforge.Path.Compare.contains_component_path cageforge.Policy.Access.from_access
workspace_runs = refl

abbrev rule_for : Text → DomainAccess → DomainRule
rule_for pattern access = record {
  pattern = pattern;
  access = access;
  matcher = DomainMatcher.full pattern;
}

abbrev host : Text
host = codes "a.org"

-- A domain and a socket that are allowed and then denied.
abbrev twice : NetworkPolicy
twice = record new_enabled {
  unix_socket_mode = UnixSocketMode.enabled;
  domains = rule_for host DomainAccess.allow ∷ rule_for host DomainAccess.deny ∷ [];
  unix_sockets =
      socket (codes "/run/s") DomainAccess.allow ∷ socket (codes "/run/./s") DomainAccess.deny ∷ [];
}

-- A path that can be written and then may not be used, and a network of such rules.
abbrev doubled : SandboxPolicy
doubled = record {
  filesystem = new_restricted (rule_on work AccessMode.write ∷ rule_on work AccessMode.deny ∷ []);
  network = twice;
}

abbrev merged : SandboxPolicy
merged = elim (normalized_sandbox doubled) [ ok policy ↦ policy | err e ↦ doubled ]

-- The normal form has one rule for the path, which denies.
merged_rules : merged.filesystem.entries ≡ rule_on work AccessMode.deny ∷ []
unfolding normalized_sandbox new_enabled new_restricted rule_on
    cageforge.Policy.Selector.contains_nul cageforge.Path.Components.components
    cageforge.Base.text_eq cageforge.Path.Components.join cageforge.Policy.Rule.target_keys_equal
    cageforge.Policy.Selector.selectors_equal cageforge.Path.Compare.paths_equal
    cageforge.Path.Components.plain_components cageforge.Path.Components.components_equal
    cageforge.Policy.Rule.most_conservative
merged_rules = refl

normalized_sandbox_lem_example :
    ((path : FilePath) (context : PathResolutionContext)
      → access_for_path merged.filesystem path context
        ≡ access_for_path doubled.filesystem path context)
    × ((raw : Text)
        → decision_for_domain merged.network raw ≡ decision_for_domain doubled.network raw)
    × ((path : FilePath)
        → decision_for_unix_socket merged.network path
          ≡ decision_for_unix_socket doubled.network path)
unfolding normalized_sandbox new_enabled new_restricted rule_on
    cageforge.Policy.Selector.contains_nul cageforge.Path.Components.components
    cageforge.Base.text_eq cageforge.Path.Components.join
    cageforge.Policy.Domain.compile_domain_matcher
normalized_sandbox_lem_example =
    normalized_sandbox_lem doubled merged refl ((refl, tt), ((refl, tt), tt)) (refl, (refl, tt))
