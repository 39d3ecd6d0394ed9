-- ===== src/Policy/Error.antt =====
-- crates/cageforge-policy/src/error.rs: the typed failures of the policy crate.
use cageforge.Base.{Text, String}
use cageforge.Path.Components.{FilePath}
use cageforge.Policy.Access.{AccessMode}
use cageforge.Policy.Address.{SocketAddr}

pub data PolicyError : Type 0 where
  empty_path : PolicyError
  expected_absolute expected_relative path_contains_nul parent_traversal : FilePath → PolicyError
  invalid_domain_pattern : Text → PolicyError
  resolved_address_mismatch : Text → SocketAddr → PolicyError
  invalid_glob_pattern : Text → Text → PolicyError
  unsupported_glob_access : AccessMode → PolicyError
  invalid_protected_path : FilePath → String → PolicyError
  invalid_context invalid_rule : String → PolicyError
  invalid_local_ipc_endpoint : Text → String → PolicyError
