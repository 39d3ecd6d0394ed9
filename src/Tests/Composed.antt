-- ===== src/Tests/Composed.antt =====
-- The theorems on composed policies at concrete policies.
use cageforge.Base.{
  ℕ, ◌⊎◌, ◌>>◌, true, false, List, [], ◌∷◌, Option, some, none, Text, codes, ok, err, Result, ◌≡◌,
  ◌↔◌, refl,
}
use cageforge.Path.Components.{FilePath}
use cageforge.Policy.Access.{FilesystemDecision}
use cageforge.Policy.Address.{SocketAddr}
use cageforge.Policy.Context.{PathResolutionContext, new_context}
use cageforge.Policy.Network.{
  ResolvedNetworkTarget, NetworkPolicy, new_enabled, DomainMode, DomainAccess,
}
use cageforge.Policy.Domain.{DomainMatcher}
use cageforge.Policy.NetworkDecision.{NetworkDecision, ConnectionAuthorization}
use cageforge.Policy.NetworkDecision as OnePolicy
use cageforge.Policy.Decision
use cageforge.Compose.{
  validate_ownership, validate_external_owner, CompositionBoundary, CompositionError,
  EffectiveFilesystemPolicy, EffectiveNetworkPolicy, EffectivePathContext, access_for_path,
  decision_for_domain, authorize_connection,
}
use cageforge.Compose.Limits.{
  validate_ownership-eq-ok_iff, access_for_path-eq-both_write_iff,
  decision_for_domain-eq-both_allow_iff, authorize_connection-eq-both_allowed_iff,
}
use cageforge.Compose.Roots.{
  compose_workspace_roots, compose_workspace_roots-IsWithin, root_is_within,
}
use cageforge.Tests.{literals, ascii, work_policy, work_file, work}

abbrev both : EffectiveFilesystemPolicy
both = record { requested = work_policy; ceiling = work_policy; context_identity = 7 }

abbrev bound : EffectivePathContext
bound = record { context = new_context; identity = 7 }

both_runs : access_for_path both work_file bound ≡ ok FilesystemDecision.write
unfolding access_for_path Decision.access_for_path cageforge.Policy.Selector.contains_nul
    cageforge.Path.Compare.contains_parent_traversal cageforge.Path.Components.components
    cageforge.Base.text_eq work_policy cageforge.Policy.Rule.matches_path cageforge.Tests.rule_on
    cageforge.Policy.Context.resolve cageforge.Path.Compare.is_within
    cageforge.Path.Components.plain_components cageforge.Path.Components.components_equal
    cageforge.Policy.Selector.normal_component_count cageforge.Path.Compare.contains_component_path
both_runs = refl

other_context_runs :
    access_for_path both work_file (record { context = new_context; identity = 8 })
    ≡ err CompositionError.path_context_mismatch
unfolding access_for_path
other_context_runs = refl

access_for_path-eq-both_write_iff_example :
    (access_for_path both work_file bound ≡ ok FilesystemDecision.write) ↔ (
      (bound.identity ≡ both.context_identity)
      × (Decision.access_for_path both.requested work_file bound.context
          ≡ ok FilesystemDecision.write)
      × (Decision.access_for_path both.ceiling work_file bound.context
          ≡ ok FilesystemDecision.write))
access_for_path-eq-both_write_iff_example = access_for_path-eq-both_write_iff both work_file bound

abbrev open_domains : NetworkPolicy
unfolding new_enabled
open_domains = new_enabled

abbrev one_site : NetworkPolicy
one_site = record open_domains {
  domain_mode = DomainMode.restricted;
  domains =
      record {
        pattern = codes "a.org";
        access = DomainAccess.allow;
        matcher = DomainMatcher.full (codes "a.org");
      }
      ∷ [];
}

abbrev narrowed : EffectiveNetworkPolicy
narrowed = record { requested = open_domains; ceiling = one_site }

narrowed_runs : decision_for_domain narrowed (codes "b.org") ≡ ok NetworkDecision.deny
unfolding decision_for_domain OnePolicy.decision_for_domain cageforge.Policy.Domain.normalize_domain
    cageforge.Base.text_eq cageforge.Policy.IpText.parse_ip open_domains
    OnePolicy.access_for_normalized_domain cageforge.Policy.Domain.matcher_accepts
narrowed_runs = refl

decision_for_domain-eq-both_allow_iff_example :
    (decision_for_domain narrowed (codes "a.org") ≡ ok NetworkDecision.allow) ↔ (
      (OnePolicy.decision_for_domain narrowed.requested (codes "a.org") ≡ ok NetworkDecision.allow)
      × (OnePolicy.decision_for_domain narrowed.ceiling (codes "a.org") ≡ ok NetworkDecision.allow))
decision_for_domain-eq-both_allow_iff_example =
    decision_for_domain-eq-both_allow_iff narrowed (codes "a.org")

abbrev site_socket : SocketAddr
site_socket = SocketAddr.v4 0x5db8_d822 443

abbrev resolved : ResolvedNetworkTarget
resolved = record { domain = codes "a.org"; addresses = site_socket ∷ [] }

authorize_connection-eq-both_allowed_iff_example :
    (authorize_connection narrowed resolved site_socket
      ≡ ok (ConnectionAuthorization.allowed site_socket))
    ↔ ((OnePolicy.authorize_connection narrowed.requested resolved site_socket
          ≡ ok (ConnectionAuthorization.allowed site_socket))
        × (OnePolicy.authorize_connection narrowed.ceiling resolved site_socket
            ≡ ok (ConnectionAuthorization.allowed site_socket)))
authorize_connection-eq-both_allowed_iff_example =
    authorize_connection-eq-both_allowed_iff narrowed resolved site_socket site_socket

compose_workspace_roots-IsWithin_example :
    root_is_within (codes "/w/src/f") (codes "/w" ∷ []) ≡ true
unfolding compose_workspace_roots cageforge.Path.Components.components cageforge.Base.text_eq
    cageforge.Path.Components.plain_components cageforge.Path.Resolve.normalize_lexical_path
    cageforge.Path.Components.collect cageforge.Path.Components.key_eq
    cageforge.Path.Components.component_key cageforge.Path.Components.components_equal
compose_workspace_roots-IsWithin_example =
    compose_workspace_roots-IsWithin (codes "/w/src" ∷ codes "/w/./src" ∷ []) (codes "/w" ∷ [])
      (codes "/w/src" ∷ []) (codes "/w" ∷ []) (codes "/w/src/f") refl refl

validate_ownership-eq-ok_iff_example :
    ((validate_ownership true true CompositionBoundary.network
        >> validate_external_owner true (some 3) (some 3) CompositionBoundary.network)
      ≡ ok tt)
    ↔ (((true ≡ false) × (true ≡ false))
        ⊎ ((true ≡ true)
            × (true ≡ true)
            × ((owner : ℕ) × (some 3 ≡ some owner) × (some 3 ≡ some owner))))
validate_ownership-eq-ok_iff_example =
    validate_ownership-eq-ok_iff true true (some 3) (some 3) CompositionBoundary.network
