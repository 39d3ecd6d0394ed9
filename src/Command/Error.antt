-- ===== src/Command/Error.antt =====
-- crates/cageforge-command/src/error.rs, and the base of an environment, which an error names.
use cageforge.Base.{Bool, true, false}
use cageforge.Path.Components.{FilePath}

pub data EnvironmentBase : Type 0 where
  all core none : EnvironmentBase

pub data CommandError : Type 0 where
  empty_program program_contains_nul argument_contains_nul empty_working_directory
        working_directory_contains_nul :
      CommandError
  working_directory_parent_traversal : FilePath → CommandError
  empty_environment_name environment_name_contains_equals environment_name_contains_nul
        environment_value_contains_nul empty_environment_pattern environment_pattern_contains_nul
        environment_pattern_contains_equals :
      CommandError
  environment_base_too_permissive : EnvironmentBase → EnvironmentBase → CommandError

-- `base_is_at_most`, which the crate of the effective environment repeats.
unfoldable pub base_is_at_most : EnvironmentBase → EnvironmentBase → Bool
base_is_at_most EnvironmentBase.none EnvironmentBase.none = true
base_is_at_most _ EnvironmentBase.none = false
base_is_at_most EnvironmentBase.all EnvironmentBase.core = false
base_is_at_most _ EnvironmentBase.core = true
base_is_at_most _ EnvironmentBase.all = true
