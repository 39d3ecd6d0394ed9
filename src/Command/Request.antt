-- ===== src/Command/Request.antt =====
-- crates/cageforge-command/src: a request to run a command (request.rs), its standard streams
-- (stdio.rs) and its deadline (timeout.rs).
use cageforge.Base.{ℕ, Option, none, some, is_empty, Result, ok, ◌>>◌, fail_if}
use cageforge.Path.Components.{FilePath}
use cageforge.Path.Compare.{contains_parent_traversal}
use cageforge.Command.Error.{CommandError, EnvironmentBase}
use cageforge.Command.Names.{OsText, contains_nul}
use cageforge.Command.Environment.{WildMatch, EnvironmentSpec, new_spec}
use cageforge.Command.Spec.{CommandSpec}

pub data StdioMode : Type 0 where
  inherit null pipe : StdioMode

pub record StdioSpec : Type 0 where
  pub stdin : StdioMode
  pub stdout : StdioMode
  pub stderr : StdioMode

unfoldable pub captured : StdioSpec
captured = record { stdin = StdioMode.null; stdout = StdioMode.pipe; stderr = StdioMode.pipe }

unfoldable pub inherited : StdioSpec
inherited = record {
  stdin = StdioMode.inherit;
  stdout = StdioMode.inherit;
  stderr = StdioMode.inherit;
}

-- `TimeoutPolicy`; a duration is its nanoseconds.
pub data TimeoutPolicy : Type 0 where
  backend_default : TimeoutPolicy
  limit : ℕ → TimeoutPolicy
  disabled : TimeoutPolicy

module _ ⦃o : OsText⦄ ⦃w : WildMatch⦄ where
  pub record CommandRequest : Type 0 where
    pub command : CommandSpec
    pub working_directory : Option FilePath
    pub environment : EnvironmentSpec
    pub stdio : StdioSpec
    pub timeout : TimeoutPolicy

  -- `CommandRequest::new`
  unfoldable pub new_request : CommandSpec → CommandRequest
  unfolding new_spec captured
  new_request command = record {
    command = command;
    working_directory = none;
    environment = new_spec EnvironmentBase.core;
    stdio = captured;
    timeout = TimeoutPolicy.backend_default;
  }

  unfoldable pub with_working_directory :
      CommandRequest → FilePath → Result CommandError CommandRequest
  unfolding contains_parent_traversal
  with_working_directory request path = do
    fail_if (is_empty path) CommandError.empty_working_directory
    fail_if (contains_nul path) CommandError.working_directory_contains_nul
    fail_if (contains_parent_traversal path) (CommandError.working_directory_parent_traversal path)
    ok (record request { working_directory = some path })

  unfoldable pub without_working_directory : CommandRequest → CommandRequest
  without_working_directory request = record request { working_directory = none }

  unfoldable pub with_environment : CommandRequest → EnvironmentSpec → CommandRequest
  with_environment request environment = record request { environment = environment }

  unfoldable pub with_stdio : CommandRequest → StdioSpec → CommandRequest
  with_stdio request stdio = record request { stdio = stdio }

  -- `with_timeout`, `use_backend_timeout` and `disable_timeout` give one of the policies.
  unfoldable pub with_timeout_policy : CommandRequest → TimeoutPolicy → CommandRequest
  with_timeout_policy request timeout = record request { timeout = timeout }
