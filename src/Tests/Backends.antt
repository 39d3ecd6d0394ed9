-- ===== src/Tests/Backends.antt =====
-- A request that is prepared for a backend, on concrete inputs.
use cageforge.Base.{refl, [], ◌∷◌, codes, some}
use cageforge.Path.Components.{FilePath}
use cageforge.Policy.Context.{
  PathResolutionContext, new_context, with_workspace_root, with_current_directory,
}
use cageforge.Command.Spec.{new_command}
use cageforge.Command.Request.{CommandRequest, new_request, with_environment}
use cageforge.Command.Environment.{new_spec}
use cageforge.Policy.Network.{new_enabled}
use cageforge.Command.Error.{EnvironmentBase}
use cageforge.Compose.Sandbox.{EffectiveSandbox}
use cageforge.Backend.Prepared.{
  SandboxBackend, BackendRequest, PreparedBackendRequest, required_capabilities, prepare_for,
}
use cageforge.Backend.Prepared.Checked.{IsChecked, prepare_for-IsChecked}
use cageforge.Tests.{literals, ascii, work_policy, work}
use cageforge.Tests.Environments.{plain, exact, value_or}

abbrev sandbox : EffectiveSandbox
sandbox = record {
  filesystem = record { requested = work_policy; ceiling = work_policy; context_identity = 7 };
  network = record { requested = new_enabled; ceiling = new_enabled };
  environment = record {
    requested = new_spec EnvironmentBase.all;
    ceiling = new_spec EnvironmentBase.all;
  };
  workspace_roots = some (work ∷ []);
  workspace_root_limit = some (work ∷ []);
}

abbrev command : CommandRequest
command =
    with_environment
      (new_request (
        value_or (record { program = codes "/bin/true"; args = [] })
          (new_command (codes "/bin/true"))))
      (new_spec EnvironmentBase.all)

abbrev request : BackendRequest
request = record { command = command; sandbox = sandbox }

-- A backend that can enforce just what the request needs.
abbrev backend : SandboxBackend
backend = record { identity = 3; capabilities = required_capabilities request }

abbrev base : PathResolutionContext
base = value_or new_context (with_current_directory new_context (codes "/w/a/"))

abbrev prepared : PreparedBackendRequest
prepared =
    value_or
      (record {
        request = request;
        path_context = record { context = new_context; identity = 0 };
        working_directory = [];
        capabilities = [];
        backend_identity = 0;
      })
      (prepare_for request backend base)

prepare_for-IsChecked_example : IsChecked request backend prepared
unfolding prepare_for new_spec with_environment new_enabled work_policy cageforge.Tests.rule_on
    new_request with_current_directory cageforge.Path.Components.components
    cageforge.Path.Components.plain_components cageforge.Path.Components.components_equal
    with_workspace_root cageforge.Policy.Decision.access_for_path cageforge.Path.Components.collect
    cageforge.Policy.Rule.matches_path cageforge.Policy.Context.resolve
    cageforge.Policy.Selector.normal_component_count cageforge.Path.Compare.contains_component_path
prepare_for-IsChecked_example = prepare_for-IsChecked request backend base prepared refl
