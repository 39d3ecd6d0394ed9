-- ===== src/Compose/Requirements.antt =====
-- crates/cageforge-policy-compose/src: what a backend must be able to enforce for an effective
-- sandbox (filesystem.rs, model.rs and model/types.rs).
pub mod Isolation
use cageforge.Base.{
  ℕ, Bool, true, false, not, ◌&&◌, ◌||◌, leb, Option, none, some, List, [], ◌∷◌, any, is_empty,
  is_some, if◌then◌else◌,
}
use cageforge.Policy.Access.{AccessMode, mode_eq}
use cageforge.Policy.Selector.{PathSelector}
use cageforge.Policy.Glob.{GlobSet}
use cageforge.Policy.Pattern.{PathPattern}
use cageforge.Policy.Rule.{FilesystemTarget, FilesystemRule, is_glob}
use cageforge.Policy.Filesystem.{FilesystemMode, FilesystemPolicy}
use cageforge.Policy.LocalIpc.{named_pipe}
use cageforge.Policy.NetworkModel.{
  NetworkMode, DomainMode, UnixSocketMode, UnixSocketRule, LocalIpcRule, is_allow, allows_local,
}
use cageforge.Policy.Network.{NetworkPolicy}
use cageforge.Compose.{EffectiveFilesystemPolicy, EffectiveNetworkPolicy}

pub record EffectiveFilesystemRequirements : Type 0 where
  pub mode : FilesystemMode
  pub scopes : Bool
  pub absolute_scopes : Bool
  pub workspace_scopes : Bool
  pub root_scopes : Bool
  pub minimal_scopes : Bool
  pub tmpdir_scopes : Bool
  pub conventional_temporary_scopes : Bool
  pub globs : Bool
  pub glob_scan_depth : Bool
  pub read_only_subpaths : Bool
  pub missing_path_behavior : Bool
  pub protected_paths : Bool

pub record EffectiveNetworkRequirements : Type 0 where
  pub mode : NetworkMode
  pub domain_rules : Bool
  pub local_address_restrictions : Bool
  pub resolved_targets : Bool
  pub local_ipc_isolation : Bool
  pub local_ipc_rules : Bool
  pub local_ipc_deny_rules : Bool
  pub windows_named_pipe_rules : Bool

unfoldable pub effective_mode : FilesystemMode → FilesystemMode → FilesystemMode
effective_mode FilesystemMode.external FilesystemMode.external = FilesystemMode.external
effective_mode FilesystemMode.unrestricted FilesystemMode.unrestricted = FilesystemMode.unrestricted
effective_mode _ _ = FilesystemMode.restricted

unfoldable pub effective_network_mode : NetworkMode → NetworkMode → NetworkMode
effective_network_mode NetworkMode.external NetworkMode.external = NetworkMode.external
effective_network_mode NetworkMode.enabled NetworkMode.enabled = NetworkMode.enabled
effective_network_mode _ _ = NetworkMode.disabled

abbrev pub is_enabled : NetworkMode → Bool
is_enabled NetworkMode.enabled = true
is_enabled _ = false

abbrev pub domains_enabled : DomainMode → Bool
domains_enabled DomainMode.enabled = true
domains_enabled _ = false

abbrev pub sockets_in : UnixSocketMode → UnixSocketMode → Bool
sockets_in UnixSocketMode.disabled UnixSocketMode.disabled = true
sockets_in UnixSocketMode.enabled UnixSocketMode.enabled = true
sockets_in UnixSocketMode.restricted UnixSocketMode.restricted = true
sockets_in _ _ = false

unfoldable pub add_selector_requirements :
    EffectiveFilesystemRequirements → PathSelector → EffectiveFilesystemRequirements
add_selector_requirements requirements (PathSelector.absolute _) = record requirements {
  scopes = true;
  absolute_scopes = true;
}
add_selector_requirements requirements (PathSelector.workspace_root _) = record requirements {
  scopes = true;
  workspace_scopes = true;
}
add_selector_requirements requirements PathSelector.root = record requirements {
  scopes = true;
  root_scopes = true;
}
add_selector_requirements requirements PathSelector.minimal = record requirements {
  scopes = true;
  minimal_scopes = true;
}
add_selector_requirements requirements PathSelector.tmpdir = record requirements {
  scopes = true;
  tmpdir_scopes = true;
}
add_selector_requirements requirements PathSelector.slash_tmp = record requirements {
  scopes = true;
  conventional_temporary_scopes = true;
}

-- The loop over the read-only subpaths of a rule.
unfoldable pub add_subpath_requirements :
    EffectiveFilesystemRequirements → List PathSelector → EffectiveFilesystemRequirements
unfolding add_selector_requirements
add_subpath_requirements requirements [] = requirements
add_subpath_requirements requirements (selector ∷ selectors) =
    add_subpath_requirements (add_selector_requirements requirements selector) selectors

-- The maximum of two scan depths, where an unlimited one wins.
unfoldable pub merge_glob_scan_depth : Option (Option ℕ) → Option (Option ℕ) → Option ℕ
merge_glob_scan_depth (some none) _ = none
merge_glob_scan_depth _ (some none) = none
merge_glob_scan_depth (some (some left)) (some (some right)) =
    some (if leb left right then right else left)
merge_glob_scan_depth (some (some depth)) none = some depth
merge_glob_scan_depth none (some (some depth)) = some depth
merge_glob_scan_depth none none = none

module _ ⦃g : GlobSet⦄ where
  -- The match on the target of a rule.
  unfoldable pub add_target_requirements :
      EffectiveFilesystemRequirements
      → FilesystemTarget
      → AccessMode
      → EffectiveFilesystemRequirements
  unfolding add_selector_requirements
  add_target_requirements requirements (FilesystemTarget.scope selector) access =
      add_selector_requirements (record requirements { missing_path_behavior = true }) selector
  add_target_requirements requirements (FilesystemTarget.glob pattern) access =
      record requirements {
        scopes = true;
        globs = true;
        absolute_scopes = requirements.absolute_scopes || pattern.absolute;
        workspace_scopes = requirements.workspace_scopes || not pattern.absolute;
        glob_scan_depth = requirements.glob_scan_depth || mode_eq access AccessMode.deny;
      }

  -- The loop over the rules of a policy.
  unfoldable pub add_rule_requirements :
      EffectiveFilesystemRequirements → List FilesystemRule → EffectiveFilesystemRequirements
  unfolding add_target_requirements add_subpath_requirements
  add_rule_requirements requirements [] = requirements
  add_rule_requirements requirements (rule ∷ rules) =
      let targeted = add_target_requirements requirements rule.target rule.access in
      let carved = add_subpath_requirements targeted rule.read_only_subpaths in
      add_rule_requirements
        (record carved {
          read_only_subpaths = carved.read_only_subpaths || not (is_empty rule.read_only_subpaths);
        })
        rules

  unfoldable pub add_policy_requirements :
      EffectiveFilesystemRequirements → FilesystemPolicy → EffectiveFilesystemRequirements
  unfolding add_rule_requirements
  add_policy_requirements requirements policy =
      add_rule_requirements
        (record requirements {
          protected_paths =
              requirements.protected_paths || not (is_empty policy.protected_relative_paths);
        })
        policy.entries

  -- `EffectiveFilesystemPolicy::requirements`
  unfoldable pub filesystem_requirements :
      EffectiveFilesystemPolicy → EffectiveFilesystemRequirements
  unfolding effective_mode add_policy_requirements
  filesystem_requirements policy =
      add_policy_requirements
        (add_policy_requirements
          (record {
            mode = effective_mode policy.requested.mode policy.ceiling.mode;
            scopes = false;
            absolute_scopes = false;
            workspace_scopes = false;
            root_scopes = false;
            minimal_scopes = false;
            tmpdir_scopes = false;
            conventional_temporary_scopes = false;
            globs = false;
            glob_scan_depth = false;
            read_only_subpaths = false;
            missing_path_behavior = false;
            protected_paths = false;
          })
          policy.requested)
        policy.ceiling

  unfoldable pub effective_glob_scan_depth : FilesystemPolicy → Option (Option ℕ)
  effective_glob_scan_depth policy =
      if any (λ rule. is_glob rule.target && mode_eq rule.access AccessMode.deny) policy.entries
      then some policy.glob_scan_max_depth
      else none

  -- `EffectiveFilesystemPolicy::glob_scan_max_depth`
  unfoldable pub glob_scan_max_depth : EffectiveFilesystemPolicy → Option ℕ
  unfolding effective_glob_scan_depth merge_glob_scan_depth
  glob_scan_max_depth policy =
      merge_glob_scan_depth (effective_glob_scan_depth policy.requested)
        (effective_glob_scan_depth policy.ceiling)

  unfoldable pub denies_all_unix_sockets : NetworkPolicy → Bool
  denies_all_unix_sockets policy =
      sockets_in UnixSocketMode.disabled policy.unix_socket_mode
      || (sockets_in UnixSocketMode.restricted policy.unix_socket_mode
          && not (any (λ rule. is_allow rule.access) policy.unix_sockets))

  -- A test of both policies.
  abbrev pub either : EffectiveNetworkPolicy → (NetworkPolicy → Bool) → Bool
  either policy test = test policy.requested || test policy.ceiling

  -- `EffectiveNetworkPolicy::requirements`
  unfoldable pub network_requirements : EffectiveNetworkPolicy → EffectiveNetworkRequirements
  unfolding effective_network_mode denies_all_unix_sockets
  network_requirements policy =
      let mode = effective_network_mode policy.requested.mode policy.ceiling.mode in
      let on = is_enabled mode in
      let domain_rules =
        on
        && either policy (λ p. not (is_empty p.domains) || not (domains_enabled p.domain_mode)) in
      let restricted = on && either policy (λ p. not (allows_local p.local_network_access)) in
      let isolated = on && either policy denies_all_unix_sockets in
      record {
        mode = mode;
        domain_rules = domain_rules;
        local_address_restrictions = restricted;
        resolved_targets = domain_rules || restricted;
        local_ipc_isolation = isolated;
        local_ipc_rules =
            on
            && (not isolated
                && either policy (λ p. sockets_in UnixSocketMode.restricted p.unix_socket_mode));
        local_ipc_deny_rules =
            on
            && (not isolated
                && ((sockets_in UnixSocketMode.enabled policy.requested.unix_socket_mode
                      && sockets_in UnixSocketMode.enabled policy.ceiling.unix_socket_mode)
                    && either policy
                        (λ p. any (λ rule. not (is_allow rule.access)) p.unix_sockets)));
        windows_named_pipe_rules =
            either policy (λ p. any (λ rule. is_some (named_pipe rule.endpoint)) p.local_ipc);
      }
