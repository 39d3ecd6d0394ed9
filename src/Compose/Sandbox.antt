-- ===== src/Compose/Sandbox.antt =====
-- crates/cageforge-policy-compose/src: the request and the ceiling of a composition, the effective
-- sandbox and its runtime context (model.rs and model/types.rs), and `compose` itself (compose.rs).
pub mod Narrowed
pub mod Contexts
use cageforge.Base.{
  ℕ, Bool, true, false, not, ◌&&◌, ◌||◌, is_some, Option, none, some, List, [], ◌∷◌, keep,
  if◌then◌else◌, Result, ok, err, ◌>>=◌, ◌>>◌, fail_if, map_err,
}
use cageforge.Path.Components.{FilePath}
use cageforge.Policy.Error.{PolicyError}
use cageforge.Policy.Context.{
  PathResolutionContext, new_context, with_root, with_workspace_root, with_minimal_path,
  with_executable_root, with_tmpdir, with_slash_tmp, with_current_directory, option_list,
}
use cageforge.Policy.Glob.{GlobSet}
use cageforge.Policy.Host.{CharTable}
use cageforge.Policy.Filesystem
use cageforge.Policy.NetworkModel
use cageforge.Policy.Sandbox.{SandboxPolicy, normalized_sandbox}
use cageforge.Command.Names.{OsText}
use cageforge.Command.Environment.{WildMatch, EnvironmentSpec}
use cageforge.Compose.{
  CompositionBoundary, CompositionError, EffectiveFilesystemPolicy, EffectiveNetworkPolicy,
  EffectivePathContext, validate_ownership, validate_external_owner,
}
use cageforge.Compose.Roots.{
  normalize_roots, root_is_within, ComposedWorkspaceRoots, compose_workspace_roots,
}
use cageforge.Compose.Environment.{EffectiveEnvironment}

-- One loop of `path_context` over paths of the base.
unfoldable pub add_paths :
    (PathResolutionContext → FilePath → Result PolicyError PathResolutionContext)
    → List FilePath
    → PathResolutionContext
    → Result CompositionError PathResolutionContext
add_paths add [] context = ok context
add_paths add (path ∷ paths) context =
    map_err CompositionError.invalid_path_context (add context path) >>= add_paths add paths

-- `is_none_or(|limit| root_is_within(path, limit))`
unfoldable pub is_granted : Option (List FilePath) → FilePath → Bool
unfolding root_is_within
is_granted none path = true
is_granted (some limit) path = root_is_within path limit

abbrev pub unwrap_or {ℓ} : {A : Type ℓ} → Option A → A → A
unwrap_or none a = a
unwrap_or (some b) a = b

module _ ⦃g : GlobSet⦄ ⦃t : CharTable⦄ ⦃o : OsText⦄ ⦃w : WildMatch⦄ where
  -- An owner of external enforcement is the number of an allocation.
  pub record PolicyCeiling : Type 0 where
    pub policy : SandboxPolicy
    pub environment : EnvironmentSpec
    pub workspace_roots : Option (List FilePath)
    pub external_owner : Option ℕ

  pub record CompositionRequest : Type 0 where
    pub requested_policy : SandboxPolicy
    pub requested_environment : EnvironmentSpec
    pub requested_workspace_roots : Option (List FilePath)
    pub ceiling : PolicyCeiling
    pub external_owner : Option ℕ

  pub record EffectiveSandbox : Type 0 where
    pub filesystem : EffectiveFilesystemPolicy
    pub network : EffectiveNetworkPolicy
    pub environment : EffectiveEnvironment
    pub workspace_roots : Option (List FilePath)
    pub workspace_root_limit : Option (List FilePath)

  -- `PolicyCeiling::new`
  unfoldable pub new_ceiling : SandboxPolicy → EnvironmentSpec → PolicyCeiling
  new_ceiling policy environment = record {
    policy = policy;
    environment = environment;
    workspace_roots = none;
    external_owner = none;
  }

  -- `PolicyCeiling::with_workspace_roots`
  unfoldable pub ceiling_with_workspace_roots :
      PolicyCeiling → List FilePath → Result CompositionError PolicyCeiling
  unfolding normalize_roots
  ceiling_with_workspace_roots ceiling roots = normalize_roots roots >>= λ normalized.
      ok (record ceiling { workspace_roots = some normalized })

  -- `CompositionRequest::new`
  unfoldable pub new_composition :
      SandboxPolicy → EnvironmentSpec → PolicyCeiling → CompositionRequest
  new_composition policy environment ceiling = record {
    requested_policy = policy;
    requested_environment = environment;
    requested_workspace_roots = none;
    ceiling = ceiling;
    external_owner = none;
  }

  -- `CompositionRequest::with_workspace_roots`
  unfoldable pub request_with_workspace_roots :
      CompositionRequest → List FilePath → Result CompositionError CompositionRequest
  unfolding normalize_roots
  request_with_workspace_roots request roots = normalize_roots roots >>= λ normalized.
      ok (record request { requested_workspace_roots = some normalized })

  -- The five tests of `compose` between the normal forms and the roots.
  unfoldable pub check_owners :
      CompositionRequest → SandboxPolicy → SandboxPolicy → Result CompositionError (Unit {0})
  unfolding validate_ownership validate_external_owner
  check_owners request requested ceiling = do
    let files = Filesystem.is_external requested.filesystem.mode
    let net = NetworkModel.is_external requested.network.mode
    validate_ownership files (Filesystem.is_external ceiling.filesystem.mode)
        CompositionBoundary.filesystem
    validate_ownership net (NetworkModel.is_external ceiling.network.mode)
        CompositionBoundary.network
    validate_external_owner files request.external_owner request.ceiling.external_owner
        CompositionBoundary.filesystem
    validate_external_owner net request.external_owner request.ceiling.external_owner
        CompositionBoundary.network
    fail_if
        (not files
          && (not net
              && (is_some request.external_owner || is_some request.ceiling.external_owner)))
        (CompositionError.unexpected_external_owner CompositionBoundary.filesystem)

  -- `compose`; the identity is that of a new allocation.
  unfoldable pub compose : CompositionRequest → ℕ → Result CompositionError EffectiveSandbox
  unfolding normalized_sandbox check_owners compose_workspace_roots
  compose request identity = do
    requested ←
        map_err CompositionError.invalid_requested_policy
          (normalized_sandbox request.requested_policy)
    ceiling ← map_err CompositionError.invalid_ceiling (normalized_sandbox request.ceiling.policy)
    check_owners request requested ceiling
    roots ←
        compose_workspace_roots request.requested_workspace_roots request.ceiling.workspace_roots
    ok (record {
      filesystem = record {
        requested = requested.filesystem;
        ceiling = ceiling.filesystem;
        context_identity = identity;
      };
      network = record { requested = requested.network; ceiling = ceiling.network };
      environment = record {
        requested = request.requested_environment;
        ceiling = request.ceiling.environment;
      };
      workspace_roots = roots.selected;
      workspace_root_limit = roots.limit;
    })

  -- The roots that `path_context` gives the context.
  unfoldable pub granted_roots : EffectiveSandbox → PathResolutionContext → List FilePath
  unfolding is_granted
  granted_roots sandbox base =
      keep (is_granted sandbox.workspace_root_limit)
        (unwrap_or sandbox.workspace_roots base.workspace_roots)

  unfoldable pub path_context :
      EffectiveSandbox → PathResolutionContext → Result CompositionError EffectivePathContext
  unfolding add_paths granted_roots
  path_context sandbox base = do
    a ← add_paths with_root base.root_paths new_context
    b ← add_paths with_workspace_root (granted_roots sandbox base) a
    c ← add_paths with_minimal_path base.minimal_paths b
    d ← add_paths with_executable_root base.executable_roots c
    e ← add_paths with_tmpdir (option_list base.tmpdir) d
    f ← add_paths with_slash_tmp (option_list base.slash_tmp) e
    h ← add_paths with_current_directory (option_list base.current_directory) f
    ok (record { context = h; identity = sandbox.filesystem.context_identity })
