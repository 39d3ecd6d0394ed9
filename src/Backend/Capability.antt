-- ===== src/Backend/Capability.antt =====
-- crates/cageforge-backend-api/src/model.rs: the capabilities of a backend, and sets of them (lib.rs).
use cageforge.Base.{ℕ, ◌==◌, ltb, Bool, true, false, ◌&&◌, List, [], ◌∷◌, any, if◌then◌else◌}

pub data BackendCapability : Type 0 where
  command_execution working_directory stdio_inherit stdio_null stdio_pipe timeout_backend_default
        timeout_limit timeout_disabled filesystem_restricted filesystem_unrestricted
        filesystem_external filesystem_scopes filesystem_executable_mapping
        filesystem_absolute_scopes filesystem_workspace_scopes filesystem_root_scopes
        filesystem_minimal_scopes filesystem_tmpdir_scopes filesystem_conventional_temporary_scopes
        filesystem_globs filesystem_glob_scan_depth filesystem_read_only_subpaths
        filesystem_missing_path_behavior filesystem_protected_paths network_disabled network_enabled
        network_external network_domain_rules network_local_address_restrictions
        network_resolved_targets network_local_ipc_isolation network_local_ipc_rules
        network_local_ipc_deny_rules network_windows_named_pipe_rules environment_all
        environment_core environment_none environment_filters environment_overrides :
      BackendCapability

-- The place of a variant in the derived order.
abbrev pub capability_rank : BackendCapability → ℕ
capability_rank BackendCapability.command_execution = 0
capability_rank BackendCapability.working_directory = 1
capability_rank BackendCapability.stdio_inherit = 2
capability_rank BackendCapability.stdio_null = 3
capability_rank BackendCapability.stdio_pipe = 4
capability_rank BackendCapability.timeout_backend_default = 5
capability_rank BackendCapability.timeout_limit = 6
capability_rank BackendCapability.timeout_disabled = 7
capability_rank BackendCapability.filesystem_restricted = 8
capability_rank BackendCapability.filesystem_unrestricted = 9
capability_rank BackendCapability.filesystem_external = 10
capability_rank BackendCapability.filesystem_scopes = 11
capability_rank BackendCapability.filesystem_executable_mapping = 12
capability_rank BackendCapability.filesystem_absolute_scopes = 13
capability_rank BackendCapability.filesystem_workspace_scopes = 14
capability_rank BackendCapability.filesystem_root_scopes = 15
capability_rank BackendCapability.filesystem_minimal_scopes = 16
capability_rank BackendCapability.filesystem_tmpdir_scopes = 17
capability_rank BackendCapability.filesystem_conventional_temporary_scopes = 18
capability_rank BackendCapability.filesystem_globs = 19
capability_rank BackendCapability.filesystem_glob_scan_depth = 20
capability_rank BackendCapability.filesystem_read_only_subpaths = 21
capability_rank BackendCapability.filesystem_missing_path_behavior = 22
capability_rank BackendCapability.filesystem_protected_paths = 23
capability_rank BackendCapability.network_disabled = 24
capability_rank BackendCapability.network_enabled = 25
capability_rank BackendCapability.network_external = 26
capability_rank BackendCapability.network_domain_rules = 27
capability_rank BackendCapability.network_local_address_restrictions = 28
capability_rank BackendCapability.network_resolved_targets = 29
capability_rank BackendCapability.network_local_ipc_isolation = 30
capability_rank BackendCapability.network_local_ipc_rules = 31
capability_rank BackendCapability.network_local_ipc_deny_rules = 32
capability_rank BackendCapability.network_windows_named_pipe_rules = 33
capability_rank BackendCapability.environment_all = 34
capability_rank BackendCapability.environment_core = 35
capability_rank BackendCapability.environment_none = 36
capability_rank BackendCapability.environment_filters = 37
capability_rank BackendCapability.environment_overrides = 38

-- `BTreeSet<BackendCapability>`
abbrev pub BackendCapabilities : Type 0
BackendCapabilities = List BackendCapability

abbrev pub capability_eq : BackendCapability → BackendCapability → Bool
capability_eq a b = capability_rank a == capability_rank b

-- `BackendCapabilities::with`
unfoldable pub with_capability : BackendCapability → BackendCapabilities → BackendCapabilities
with_capability capability [] = capability ∷ []
with_capability capability (other ∷ capabilities) =
    let rest = with_capability capability capabilities in
    if capability_eq capability other
    then other ∷ capabilities
    else if ltb (capability_rank capability) (capability_rank other)
    then capability ∷ other ∷ capabilities
    else other ∷ rest

unfoldable pub supports : BackendCapabilities → BackendCapability → Bool
supports capabilities capability = any (capability_eq capability) capabilities

-- The derived equality.
unfoldable pub capabilities_eq : BackendCapabilities → BackendCapabilities → Bool
capabilities_eq [] [] = true
capabilities_eq (a ∷ x) (b ∷ y) = capability_eq a b && capabilities_eq x y
capabilities_eq _ _ = false

-- An insertion under a condition.
unfoldable pub with_if : Bool → BackendCapability → BackendCapabilities → BackendCapabilities
unfolding with_capability
with_if true capability capabilities = with_capability capability capabilities
with_if false capability capabilities = capabilities
