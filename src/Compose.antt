-- ===== src/Compose.antt =====
-- crates/cageforge-policy-compose/src: the decisions of an effective sandbox, which asks a requested
-- policy and a ceiling (compose.rs, context.rs, error.rs and the types of filesystem.rs and
-- model/types.rs).
pub mod Limits
pub mod Roots
pub mod Environment
pub mod Sandbox
pub mod Requirements
use cageforge.Base.{
  ◌||◌, is_some, ℕ, Bool, true, false, not, ◌&&◌, ◌==◌, Option, none, some, List, [], ◌∷◌, Text,
  if◌then◌else◌, Result, ok, err, ◌>>=◌, ◌>>◌, fail_if, map_err,
}
use cageforge.Path.Components.{FilePath}
use cageforge.Command.Error.{CommandError, EnvironmentBase}
use cageforge.Policy.Access.{
  AccessMode, FilesystemDecision, most_restrictive, as_access_mode, from_access,
}
use cageforge.Policy.Address.{IpAddr, SocketAddr}
use cageforge.Policy.Error.{PolicyError}
use cageforge.Policy.Selector.{PathSelector}
use cageforge.Policy.Context.{PathResolutionContext, resolve}
use cageforge.Policy.Glob.{GlobSet}
use cageforge.Policy.Host.{CharTable}
use cageforge.Policy.Filesystem.{FilesystemMode, FilesystemPolicy}
use cageforge.Policy.Filesystem
use cageforge.Policy.Network.{NetworkMode, NetworkPolicy, ResolvedNetworkTarget}
use cageforge.Policy.NetworkDecision.{NetworkDecision, ConnectionAuthorization}
use cageforge.Policy.Decision
use cageforge.Policy.NetworkDecision as OnePolicy

pub data CompositionBoundary : Type 0 where
  filesystem network : CompositionBoundary

pub data CompositionError : Type 0 where
  invalid_requested_policy invalid_ceiling invalid_path_context : PolicyError → CompositionError
  invalid_workspace_root : FilePath → Text → CompositionError
  workspace_root_not_granted : FilePath → CompositionError
  path_context_mismatch : CompositionError
  enforcement_ownership_conflict external_owner_mismatch unexpected_external_owner :
      CompositionBoundary → CompositionError
  policy_evaluation : CompositionBoundary → PolicyError → CompositionError
  environment_base_too_permissive : EnvironmentBase → EnvironmentBase → CompositionError
  environment_application : CommandError → CompositionError

-- What the two modes answer to `delegates_enforcement` is passed as a truth value.
unfoldable pub validate_ownership :
    Bool → Bool → CompositionBoundary → Result CompositionError (Unit {0})
validate_ownership requested ceiling boundary =
    fail_if (not (if requested then ceiling else not ceiling))
      (CompositionError.enforcement_ownership_conflict boundary)

-- Whether two optional owners are one owner; an owner is the number of an allocation.
abbrev same_owner : Option ℕ → Option ℕ → Bool
same_owner none none = true
same_owner (some a) (some b) = a == b
same_owner _ _ = false

unfoldable pub validate_external_owner :
    Bool → Option ℕ → Option ℕ → CompositionBoundary → Result CompositionError (Unit {0})
validate_external_owner external requested_owner ceiling_owner boundary =
    fail_if
      (external
        && (not (same_owner requested_owner ceiling_owner) || not (is_some requested_owner)))
      (CompositionError.external_owner_mismatch boundary)

unfoldable pub combine_filesystem_decisions :
    FilesystemDecision → FilesystemDecision → FilesystemDecision
unfolding as_access_mode most_restrictive from_access
combine_filesystem_decisions FilesystemDecision.externally_enforced
      FilesystemDecision.externally_enforced =
    FilesystemDecision.externally_enforced
combine_filesystem_decisions FilesystemDecision.externally_enforced _ = FilesystemDecision.deny
combine_filesystem_decisions _ FilesystemDecision.externally_enforced = FilesystemDecision.deny
combine_filesystem_decisions left right = elim (as_access_mode left) [
  | none ↦ FilesystemDecision.deny
  | some a ↦ elim (as_access_mode right) [
    | none ↦ FilesystemDecision.deny
    | some b ↦ from_access (most_restrictive a b)
  ]
]

unfoldable pub combine_network_decisions : NetworkDecision → NetworkDecision → NetworkDecision
combine_network_decisions NetworkDecision.externally_enforced NetworkDecision.externally_enforced =
    NetworkDecision.externally_enforced
combine_network_decisions NetworkDecision.externally_enforced _ = NetworkDecision.deny
combine_network_decisions _ NetworkDecision.externally_enforced = NetworkDecision.deny
combine_network_decisions NetworkDecision.allow NetworkDecision.allow = NetworkDecision.allow
combine_network_decisions _ _ = NetworkDecision.deny

unfoldable pub combine_connection_authorizations :
    ConnectionAuthorization → ConnectionAuthorization → ConnectionAuthorization
combine_connection_authorizations (ConnectionAuthorization.allowed requested)
      (ConnectionAuthorization.allowed _) =
    ConnectionAuthorization.allowed requested
combine_connection_authorizations ConnectionAuthorization.externally_enforced
      ConnectionAuthorization.externally_enforced =
    ConnectionAuthorization.externally_enforced
combine_connection_authorizations _ _ = ConnectionAuthorization.denied

-- A context with the identity of the composition that made it, the number of an allocation.
pub record EffectivePathContext : Type 0 where
  pub context : PathResolutionContext
  pub identity : ℕ

abbrev evaluated {ℓ} :
    {A : Type ℓ} → CompositionBoundary → Result PolicyError A → Result CompositionError A
evaluated boundary = map_err (CompositionError.policy_evaluation boundary)

module _ ⦃g : GlobSet⦄ where
  pub record EffectiveFilesystemPolicy : Type 0 where
    pub requested : FilesystemPolicy
    pub ceiling : FilesystemPolicy
    pub context_identity : ℕ

  pub record EffectiveNetworkPolicy : Type 0 where
    pub requested : NetworkPolicy
    pub ceiling : NetworkPolicy

  unfoldable pub owns_context : EffectiveFilesystemPolicy → EffectivePathContext → Bool
  owns_context policy context = context.identity == policy.context_identity

  unfoldable pub access_for_path :
      EffectiveFilesystemPolicy
      → FilePath
      → EffectivePathContext
      → Result CompositionError FilesystemDecision
  unfolding owns_context combine_filesystem_decisions
  access_for_path policy path context = do
    fail_if (not (owns_context policy context)) CompositionError.path_context_mismatch
    requested ←
        evaluated CompositionBoundary.filesystem
          (Decision.access_for_path policy.requested path context.context)
    ceiling ←
        evaluated CompositionBoundary.filesystem
          (Decision.access_for_path policy.ceiling path context.context)
    ok (combine_filesystem_decisions requested ceiling)

  -- The result after a further path of a selector.
  abbrev pub combined_with : Option FilesystemDecision → FilesystemDecision → FilesystemDecision
  unfolding combine_filesystem_decisions
  combined_with none decision = decision
  combined_with (some previous) decision = combine_filesystem_decisions previous decision

  -- The loop of `access_for` over the paths of the selector.
  unfoldable pub resolved_loop :
      EffectiveFilesystemPolicy
      → EffectivePathContext
      → Option FilesystemDecision
      → List FilePath
      → Result CompositionError FilesystemDecision
  unfolding access_for_path combined_with
  resolved_loop policy context none [] = ok FilesystemDecision.deny
  resolved_loop policy context (some decision) [] = ok decision
  resolved_loop policy context result (path ∷ paths) =
      access_for_path policy path context >>= λ decision.
      resolved_loop policy context (some (combined_with result decision)) paths

  unfoldable pub access_for :
      EffectiveFilesystemPolicy
      → PathSelector
      → EffectivePathContext
      → Result CompositionError FilesystemDecision
  unfolding owns_context resolved_loop
  access_for policy selector context = do
    fail_if (not (owns_context policy context)) CompositionError.path_context_mismatch
    let external =
        Filesystem.is_external policy.requested.mode && Filesystem.is_external policy.ceiling.mode
    (if external
        then ok FilesystemDecision.externally_enforced
        else resolved_loop policy context none (resolve selector context.context))

  unfoldable pub decision_for_unix_socket :
      EffectiveNetworkPolicy → FilePath → Result CompositionError NetworkDecision
  unfolding combine_network_decisions
  decision_for_unix_socket policy socket = do
    requested ←
        evaluated CompositionBoundary.network
          (OnePolicy.decision_for_unix_socket policy.requested socket)
    ceiling ←
        evaluated CompositionBoundary.network
          (OnePolicy.decision_for_unix_socket policy.ceiling socket)
    ok (combine_network_decisions requested ceiling)

module _ ⦃g : GlobSet⦄ ⦃t : CharTable⦄ where
  unfoldable pub decision_for_domain :
      EffectiveNetworkPolicy → Text → Result CompositionError NetworkDecision
  unfolding combine_network_decisions
  decision_for_domain policy domain = do
    requested ←
        evaluated CompositionBoundary.network
          (OnePolicy.decision_for_domain policy.requested domain)
    ceiling ←
        evaluated CompositionBoundary.network (OnePolicy.decision_for_domain policy.ceiling domain)
    ok (combine_network_decisions requested ceiling)

  unfoldable pub decision_for_domain_with_resolved_ips :
      EffectiveNetworkPolicy → Text → List IpAddr → Result CompositionError NetworkDecision
  unfolding combine_network_decisions
  decision_for_domain_with_resolved_ips policy domain resolved_ips = do
    requested ←
        evaluated CompositionBoundary.network
          (OnePolicy.decision_for_domain_with_resolved_ips policy.requested domain resolved_ips)
    ceiling ←
        evaluated CompositionBoundary.network
          (OnePolicy.decision_for_domain_with_resolved_ips policy.ceiling domain resolved_ips)
    ok (combine_network_decisions requested ceiling)

  unfoldable pub authorize_connection :
      EffectiveNetworkPolicy
      → ResolvedNetworkTarget
      → SocketAddr
      → Result CompositionError ConnectionAuthorization
  unfolding combine_connection_authorizations
  authorize_connection policy target connected = do
    requested ←
        evaluated CompositionBoundary.network
          (OnePolicy.authorize_connection policy.requested target connected)
    ceiling ←
        evaluated CompositionBoundary.network
          (OnePolicy.authorize_connection policy.ceiling target connected)
    ok (combine_connection_authorizations requested ceiling)
