-- ===== src/Backend/Prepared.antt =====
-- crates/cageforge-backend-api/src/lib.rs and model.rs: requests, their test against a backend, and
-- what a tested request lets the backend ask.
pub mod Checked
use cageforge.Base.{
  ℕ, ◌==◌, Bool, true, false, not, ◌&&◌, ◌||◌, is_empty, Option, none, some, List, [], ◌∷◌, Dict,
  Text, if◌then◌else◌, Result, ok, err, ◌>>=◌, ◌>>◌, fail_if, map_err,
}
use cageforge.Path.Components.{FilePath, is_absolute, join}
use cageforge.Path.Resolve.{normalize_lexical_path}
use cageforge.Policy.Access.{FilesystemDecision}
use cageforge.Policy.Address.{IpAddr, SocketAddr}
use cageforge.Policy.Selector.{PathSelector}
use cageforge.Policy.Context.{PathResolutionContext}
use cageforge.Policy.Glob.{GlobSet}
use cageforge.Policy.Host.{CharTable}
use cageforge.Policy.Network.{ResolvedNetworkTarget}
use cageforge.Policy.NetworkDecision.{NetworkDecision, ConnectionAuthorization}
use cageforge.Command.Spec.{CommandSpec}
use cageforge.Command.Names.{OsString, OsText}
use cageforge.Command.Environment.{WildMatch, EnvironmentInput, specs_equal}
use cageforge.Command.Request.{StdioSpec, TimeoutPolicy, CommandRequest}
use cageforge.Compose.{CompositionError, EffectivePathContext}
use cageforge.Compose
use cageforge.Compose.Environment as Effective
use cageforge.Compose.Sandbox.{EffectiveSandbox, path_context}
use cageforge.Backend.Capability.{
  BackendCapability, BackendCapabilities, with_capability, supports, capabilities_eq,
}
use cageforge.Backend.Requirements.{
  add_command_capabilities, add_filesystem_capabilities, add_network_capabilities,
  add_environment_capabilities,
}

pub data BackendContractError : Type 0 where
  unsupported_capability : BackendCapability → BackendContractError
  command_environment_mismatch : BackendContractError
  invalid_runtime_context environment_preparation filesystem_evaluation network_evaluation :
      CompositionError → BackendContractError
  working_directory_denied working_directory_resolution : FilePath → BackendContractError
  missing_runtime_current_directory backend_identity_mismatch backend_capabilities_mismatch :
      BackendContractError

-- `SandboxBackend`: the number of an allocation, and what the backend can enforce.
pub record SandboxBackend : Type 0 where
  pub identity : ℕ
  pub capabilities : BackendCapabilities

-- The loop of `validate` over the capabilities required.
unfoldable pub check_supported :
    BackendCapabilities → BackendCapabilities → Result BackendContractError (Unit {0})
unfolding supports
check_supported capabilities [] = ok tt
check_supported capabilities (capability ∷ required) =
    fail_if (not (supports capabilities capability))
      (BackendContractError.unsupported_capability capability)
    >> check_supported capabilities required

-- The directory that `validate` finds for the command.
unfoldable pub resolve_working_directory :
    Option FilePath → Option FilePath → Result BackendContractError FilePath
unfolding normalize_lexical_path
resolve_working_directory (some path) current =
    if is_absolute path then ok (normalize_lexical_path path) else elim current [
      | none ↦ err (BackendContractError.working_directory_resolution path)
      | some current_directory ↦ ok (normalize_lexical_path (join current_directory path))
    ]
resolve_working_directory none none = err BackendContractError.missing_runtime_current_directory
resolve_working_directory none (some current_directory) =
    ok (normalize_lexical_path current_directory)

abbrev pub is_deny : FilesystemDecision → Bool
is_deny FilesystemDecision.deny = true
is_deny _ = false

module _ ⦃g : GlobSet⦄ ⦃t : CharTable⦄ ⦃o : OsText⦄ ⦃w : WildMatch⦄ where
  pub record BackendRequest : Type 0 where
    pub command : CommandRequest
    pub sandbox : EffectiveSandbox

  pub record PreparedBackendRequest : Type 0 where
    pub request : BackendRequest
    pub path_context : EffectivePathContext
    pub working_directory : FilePath
    pub capabilities : BackendCapabilities
    pub backend_identity : ℕ

  unfoldable pub required_capabilities : BackendRequest → BackendCapabilities
  unfolding add_command_capabilities add_filesystem_capabilities add_network_capabilities
      add_environment_capabilities
  required_capabilities request =
      let a = add_command_capabilities (BackendCapability.command_execution ∷ []) request.command in
      let b = add_filesystem_capabilities a request.sandbox in
      let c = add_network_capabilities b request.sandbox in
      add_environment_capabilities c request.sandbox

  -- `prepare_for`, which is `validate` with what the backend says of itself.
  unfoldable pub prepare_for :
      BackendRequest
      → SandboxBackend
      → PathResolutionContext
      → Result BackendContractError PreparedBackendRequest
  unfolding specs_equal check_supported required_capabilities path_context supports
      resolve_working_directory cageforge.Compose.access_for_path
  prepare_for request backend base = do
    fail_if (not (specs_equal request.sandbox.environment.requested request.command.environment))
        BackendContractError.command_environment_mismatch
    check_supported backend.capabilities (required_capabilities request)
    context ←
        map_err BackendContractError.invalid_runtime_context (path_context request.sandbox base)
    fail_if
        (not (is_empty context.context.executable_roots)
          && not (supports backend.capabilities BackendCapability.filesystem_executable_mapping))
        (BackendContractError.unsupported_capability
          BackendCapability.filesystem_executable_mapping)
    directory ← resolve_working_directory request.command.working_directory base.current_directory
    decision ←
        map_err BackendContractError.filesystem_evaluation
          (Compose.access_for_path request.sandbox.filesystem directory context)
    fail_if (is_deny decision) (BackendContractError.working_directory_denied directory)
    ok (record {
      request = request;
      path_context = context;
      working_directory = directory;
      capabilities = backend.capabilities;
      backend_identity = backend.identity;
    })

  module _ (prepared : PreparedBackendRequest) (backend : SandboxBackend) where
    unfoldable pub ensure_backend : Result BackendContractError (Unit {0})
    unfolding capabilities_eq
    ensure_backend = do
      fail_if (not (prepared.backend_identity == backend.identity))
          BackendContractError.backend_identity_mismatch
      fail_if (not (capabilities_eq prepared.capabilities backend.capabilities))
          BackendContractError.backend_capabilities_mismatch

    unfoldable pub prepared_command_spec : Result BackendContractError CommandSpec
    unfolding ensure_backend
    prepared_command_spec = ensure_backend >> ok prepared.request.command.command

    unfoldable pub prepared_sandbox : Result BackendContractError EffectiveSandbox
    unfolding ensure_backend
    prepared_sandbox = ensure_backend >> ok prepared.request.sandbox

    unfoldable pub prepared_path_context : Result BackendContractError EffectivePathContext
    unfolding ensure_backend
    prepared_path_context = ensure_backend >> ok prepared.path_context

    unfoldable pub prepared_working_directory : Result BackendContractError FilePath
    unfolding ensure_backend
    prepared_working_directory = ensure_backend >> ok prepared.working_directory

    unfoldable pub prepared_stdio : Result BackendContractError StdioSpec
    unfolding ensure_backend
    prepared_stdio = ensure_backend >> ok prepared.request.command.stdio

    unfoldable pub prepared_timeout_policy : Result BackendContractError TimeoutPolicy
    unfolding ensure_backend
    prepared_timeout_policy = ensure_backend >> ok prepared.request.command.timeout

    unfoldable pub apply_environment :
        EnvironmentInput → Result BackendContractError (Dict OsString)
    unfolding ensure_backend cageforge.Compose.Environment.apply_to
    apply_environment input =
        ensure_backend
        >> map_err BackendContractError.environment_preparation
            (Effective.apply_to prepared.request.sandbox.environment input)

    unfoldable pub filesystem_access_for_path :
        FilePath → Result BackendContractError FilesystemDecision
    unfolding ensure_backend cageforge.Compose.access_for_path
    filesystem_access_for_path path =
        ensure_backend
        >> map_err BackendContractError.filesystem_evaluation
            (Compose.access_for_path prepared.request.sandbox.filesystem path prepared.path_context)

    unfoldable pub filesystem_access_for :
        PathSelector → Result BackendContractError FilesystemDecision
    unfolding ensure_backend cageforge.Compose.access_for
    filesystem_access_for selector =
        ensure_backend
        >> map_err BackendContractError.filesystem_evaluation
            (Compose.access_for prepared.request.sandbox.filesystem selector prepared.path_context)

    unfoldable pub network_decision_for_domain_with_resolved_ips :
        Text → List IpAddr → Result BackendContractError NetworkDecision
    unfolding ensure_backend cageforge.Compose.decision_for_domain_with_resolved_ips
    network_decision_for_domain_with_resolved_ips domain resolved_ips =
        ensure_backend
        >> map_err BackendContractError.network_evaluation (
            Compose.decision_for_domain_with_resolved_ips prepared.request.sandbox.network domain
              resolved_ips)

    unfoldable pub prepared_authorize_connection :
        ResolvedNetworkTarget → SocketAddr → Result BackendContractError ConnectionAuthorization
    unfolding ensure_backend cageforge.Compose.authorize_connection
    prepared_authorize_connection target connected =
        ensure_backend
        >> map_err BackendContractError.network_evaluation
            (Compose.authorize_connection prepared.request.sandbox.network target connected)

    unfoldable pub network_decision_for_unix_socket :
        FilePath → Result BackendContractError NetworkDecision
    unfolding ensure_backend cageforge.Compose.decision_for_unix_socket
    network_decision_for_unix_socket socket =
        ensure_backend
        >> map_err BackendContractError.network_evaluation
            (Compose.decision_for_unix_socket prepared.request.sandbox.network socket)
