-- ===== src/Backend/Requirements.antt =====
-- crates/cageforge-backend-api/src/requirements.rs: the capabilities that a request needs.
use cageforge.Base.{◌||◌, is_some, if◌then◌else◌}
use cageforge.Policy.Glob.{GlobSet}
use cageforge.Policy.Host.{CharTable}
use cageforge.Policy.Filesystem.{FilesystemMode, is_restricted}
use cageforge.Policy.NetworkModel.{NetworkMode}
use cageforge.Command.Error.{EnvironmentBase}
use cageforge.Command.Names.{OsText}
use cageforge.Command.Environment.{WildMatch}
use cageforge.Command.Request.{CommandRequest, StdioMode, TimeoutPolicy}
use cageforge.Compose.Requirements.{filesystem_requirements, network_requirements, is_enabled}
use cageforge.Compose.Environment.{environment_requirements}
use cageforge.Compose.Sandbox.{EffectiveSandbox}
use cageforge.Backend.Capability.{BackendCapability, BackendCapabilities, with_capability, with_if}

abbrev pub stdio_capability : StdioMode → BackendCapability
stdio_capability StdioMode.inherit = BackendCapability.stdio_inherit
stdio_capability StdioMode.null = BackendCapability.stdio_null
stdio_capability StdioMode.pipe = BackendCapability.stdio_pipe

abbrev pub timeout_capability : TimeoutPolicy → BackendCapability
timeout_capability TimeoutPolicy.backend_default = BackendCapability.timeout_backend_default
timeout_capability (TimeoutPolicy.limit _) = BackendCapability.timeout_limit
timeout_capability TimeoutPolicy.disabled = BackendCapability.timeout_disabled

abbrev pub filesystem_mode_capability : FilesystemMode → BackendCapability
filesystem_mode_capability FilesystemMode.restricted = BackendCapability.filesystem_restricted
filesystem_mode_capability FilesystemMode.unrestricted = BackendCapability.filesystem_unrestricted
filesystem_mode_capability FilesystemMode.external = BackendCapability.filesystem_external

abbrev pub network_mode_capability : NetworkMode → BackendCapability
network_mode_capability NetworkMode.disabled = BackendCapability.network_disabled
network_mode_capability NetworkMode.enabled = BackendCapability.network_enabled
network_mode_capability NetworkMode.external = BackendCapability.network_external

abbrev pub base_capability : EnvironmentBase → BackendCapability
base_capability EnvironmentBase.all = BackendCapability.environment_all
base_capability EnvironmentBase.core = BackendCapability.environment_core
base_capability EnvironmentBase.none = BackendCapability.environment_none

module _ ⦃g : GlobSet⦄ ⦃t : CharTable⦄ ⦃o : OsText⦄ ⦃w : WildMatch⦄ where
  unfoldable pub add_command_capabilities :
      BackendCapabilities → CommandRequest → BackendCapabilities
  unfolding with_capability
  add_command_capabilities required command =
      let a = with_capability BackendCapability.working_directory required in
      let b = with_capability (stdio_capability command.stdio.stdin) a in
      let c = with_capability (stdio_capability command.stdio.stdout) b in
      let d = with_capability (stdio_capability command.stdio.stderr) c in
      with_capability (timeout_capability command.timeout) d

  unfoldable pub add_filesystem_capabilities :
      BackendCapabilities → EffectiveSandbox → BackendCapabilities
  unfolding filesystem_requirements with_capability with_if
  add_filesystem_capabilities required sandbox =
      let needs = filesystem_requirements sandbox.filesystem in
      let rooted = is_some sandbox.workspace_roots || is_some sandbox.workspace_root_limit in
      let a = with_capability (filesystem_mode_capability needs.mode) required in
      let b = with_if rooted BackendCapability.filesystem_scopes a in
      let c = with_if rooted BackendCapability.filesystem_workspace_scopes b in
      let d = with_if needs.glob_scan_depth BackendCapability.filesystem_glob_scan_depth c in
      let e = with_if needs.protected_paths BackendCapability.filesystem_protected_paths d in
      let f = with_if needs.scopes BackendCapability.filesystem_scopes e in
      let h = with_if needs.absolute_scopes BackendCapability.filesystem_absolute_scopes f in
      let i =
        with_if (needs.workspace_scopes || is_some sandbox.workspace_roots)
          BackendCapability.filesystem_workspace_scopes h in
      let j = with_if needs.root_scopes BackendCapability.filesystem_root_scopes i in
      let k = with_if needs.minimal_scopes BackendCapability.filesystem_minimal_scopes j in
      let l = with_if needs.tmpdir_scopes BackendCapability.filesystem_tmpdir_scopes k in
      let m =
        with_if needs.conventional_temporary_scopes
          BackendCapability.filesystem_conventional_temporary_scopes l in
      let n = with_if needs.globs BackendCapability.filesystem_globs m in
      let p = with_if needs.read_only_subpaths BackendCapability.filesystem_read_only_subpaths n in
      if is_restricted needs.mode
      then with_if needs.missing_path_behavior BackendCapability.filesystem_missing_path_behavior p
      else c

  unfoldable pub add_network_capabilities :
      BackendCapabilities → EffectiveSandbox → BackendCapabilities
  unfolding network_requirements with_capability with_if
  add_network_capabilities required sandbox =
      let needs = network_requirements sandbox.network in
      let a = with_capability (network_mode_capability needs.mode) required in
      let b =
        with_if needs.windows_named_pipe_rules BackendCapability.network_windows_named_pipe_rules
          a in
      let c = with_if needs.resolved_targets BackendCapability.network_resolved_targets b in
      let d = with_if needs.domain_rules BackendCapability.network_domain_rules c in
      let e =
        with_if needs.local_address_restrictions
          BackendCapability.network_local_address_restrictions d in
      let f = with_if needs.local_ipc_isolation BackendCapability.network_local_ipc_isolation e in
      let h = with_if needs.local_ipc_rules BackendCapability.network_local_ipc_rules f in
      if is_enabled needs.mode
      then with_if needs.local_ipc_deny_rules BackendCapability.network_local_ipc_deny_rules h
      else b

  unfoldable pub add_environment_capabilities :
      BackendCapabilities → EffectiveSandbox → BackendCapabilities
  unfolding environment_requirements with_capability with_if
  add_environment_capabilities required sandbox =
      let needs = environment_requirements sandbox.environment in
      let a = with_capability (base_capability needs.base) required in
      let b = with_if needs.filters BackendCapability.environment_filters a in
      with_if needs.overrides BackendCapability.environment_overrides b
