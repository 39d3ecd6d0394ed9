-- ===== src/Compose/Limits.antt =====
-- crates/cageforge-policy-compose/src/compose.rs: the effective decisions and those of the
-- two policies.
use cageforge.Base.{
  ℕ, Bool, true, false, Option, none, some, ◌⊎◌, inl, inr, ◌>>◌, ◌≡◌, refl, ap, ◌∙◌, inl, inr, ◌↔◌,
  arith, Result-cases, ok, Text,
}
use cageforge.Path.Components.{FilePath}
use cageforge.Policy.Access.{FilesystemDecision, most_restrictive, as_access_mode, from_access}
use cageforge.Policy.Address.{SocketAddr}
use cageforge.Policy.Glob.{GlobSet}
use cageforge.Policy.Host.{CharTable}
use cageforge.Policy.Network.{ResolvedNetworkTarget, NetworkPolicy}
use cageforge.Policy.NetworkDecision.{NetworkDecision, ConnectionAuthorization}
use cageforge.Policy.NetworkDecision as OnePolicy
use cageforge.Policy.NetworkDecision.Connect.{authorize_connection-eq-allowed_iff}
use cageforge.Policy.Decision
use cageforge.Compose.{
  validate_ownership, validate_external_owner, CompositionBoundary, EffectiveFilesystemPolicy,
  EffectiveNetworkPolicy, EffectivePathContext, owns_context, access_for_path,
  combine_filesystem_decisions, combine_network_decisions, combine_connection_authorizations,
  decision_for_domain, authorize_connection,
}

combine_filesystem_decisions-eq-write_iff :
    (a b : FilesystemDecision)
    → (combine_filesystem_decisions a b ≡ FilesystemDecision.write)
      ↔ ((a ≡ FilesystemDecision.write) × (b ≡ FilesystemDecision.write))
unfolding combine_filesystem_decisions as_access_mode most_restrictive from_access
combine_filesystem_decisions-eq-write_iff a b = ground arith

-- The ownership checks of one boundary pass exactly when both sides enforce it locally, or both
-- delegate it and name one owner.
pub validate_ownership-eq-ok_iff :
    (requested ceiling : Bool) (requested_owner ceiling_owner : Option ℕ)
    (boundary : CompositionBoundary)
    → ((validate_ownership requested ceiling boundary
          >> validate_external_owner requested requested_owner ceiling_owner boundary)
        ≡ ok tt)
      ↔ (((requested ≡ false) × (ceiling ≡ false))
          ⊎ ((requested ≡ true)
              × (ceiling ≡ true)
              × ((owner : ℕ) × (requested_owner ≡ some owner) × (ceiling_owner ≡ some owner))))
unfolding validate_ownership validate_external_owner
validate_ownership-eq-ok_iff true true (some a) (some b) boundary = (
  λ h. inr (refl, refl, (a, refl, ground arith)),
  λ h. elim h [ inl (clash, _) ↦ absurd (cc) | inr (_, _, (owner, ea, eb)) ↦ ground arith ],
)
validate_ownership-eq-ok_iff true true (some a) none boundary = ground arith
validate_ownership-eq-ok_iff true true none b boundary = ground arith
validate_ownership-eq-ok_iff true false a b boundary = ground arith
validate_ownership-eq-ok_iff false ceiling a b boundary = ground arith

combine_network_decisions-eq-allow_iff :
    (a b : NetworkDecision)
    → (combine_network_decisions a b ≡ NetworkDecision.allow)
      ↔ ((a ≡ NetworkDecision.allow) × (b ≡ NetworkDecision.allow))
unfolding combine_network_decisions
combine_network_decisions-eq-allow_iff a b = ground arith

combine_connection_authorizations-eq-allowed_iff :
    (a b : ConnectionAuthorization) (connected address : SocketAddr)
    → ((x : SocketAddr) → a ≡ ConnectionAuthorization.allowed x → connected ≡ x)
    → ((x : SocketAddr) → b ≡ ConnectionAuthorization.allowed x → connected ≡ x)
    → (combine_connection_authorizations a b ≡ ConnectionAuthorization.allowed address) ↔ (
        (a ≡ ConnectionAuthorization.allowed address)
        × (b ≡ ConnectionAuthorization.allowed address))
unfolding combine_connection_authorizations
combine_connection_authorizations-eq-allowed_iff (ConnectionAuthorization.allowed x)
      (ConnectionAuthorization.allowed y) connected address h k =
    ground (arith, h x refl, k y refl)
combine_connection_authorizations-eq-allowed_iff a b connected address h k = ground arith

module _ ⦃g : GlobSet⦄ where
  -- An effective policy lets a path be written exactly when the context is one of its own and both
  -- the requested policy and the ceiling let the path be written.
  pub access_for_path-eq-both_write_iff :
      (policy : EffectiveFilesystemPolicy) (path : FilePath) (context : EffectivePathContext)
      → (access_for_path policy path context ≡ ok FilesystemDecision.write) ↔ (
          (context.identity ≡ policy.context_identity)
          × (Decision.access_for_path policy.requested path context.context
              ≡ ok FilesystemDecision.write)
          × (Decision.access_for_path policy.ceiling path context.context
              ≡ ok FilesystemDecision.write))
  unfolding access_for_path owns_context
  access_for_path-eq-both_write_iff policy path context =
      elim (Result-cases (Decision.access_for_path policy.requested path context.context)) [
        | inr (e, eq) ↦ ground arith
        | inl (a, eq) ↦
            elim (Result-cases (Decision.access_for_path policy.ceiling path context.context)) [
              | inr (e, eq') ↦ ground arith
              | inl (b, eq') ↦ ground (arith, combine_filesystem_decisions-eq-write_iff a b)
            ]
      ]

module _ ⦃g : GlobSet⦄ ⦃t : CharTable⦄ where
  -- An effective policy allows a domain exactly when both policies allow it.
  pub decision_for_domain-eq-both_allow_iff :
      (policy : EffectiveNetworkPolicy) (domain : Text)
      → (decision_for_domain policy domain ≡ ok NetworkDecision.allow) ↔ (
          (OnePolicy.decision_for_domain policy.requested domain ≡ ok NetworkDecision.allow)
          × (OnePolicy.decision_for_domain policy.ceiling domain ≡ ok NetworkDecision.allow))
  unfolding decision_for_domain
  decision_for_domain-eq-both_allow_iff policy domain =
      elim (Result-cases (OnePolicy.decision_for_domain policy.requested domain)) [
        | inr (e, eq) ↦ ground arith
        | inl (a, eq) ↦ elim (Result-cases (OnePolicy.decision_for_domain policy.ceiling domain)) [
          | inr (e, eq') ↦ ground arith
          | inl (b, eq') ↦ ground (arith, combine_network_decisions-eq-allow_iff a b)
        ]
      ]

  -- What a policy authorises is the connected address.
  authorized_address :
      (policy : NetworkPolicy) (target : ResolvedNetworkTarget) (connected address : SocketAddr)
      → OnePolicy.authorize_connection policy target connected
        ≡ ok (ConnectionAuthorization.allowed address)
      → connected ≡ address
  authorized_address policy target connected address h =
      ((authorize_connection-eq-allowed_iff policy target connected address).0 h).2

  -- An effective policy authorises a connection to an address exactly when both policies authorise
  -- the connection to that address.
  pub authorize_connection-eq-both_allowed_iff :
      (policy : EffectiveNetworkPolicy) (target : ResolvedNetworkTarget)
      (connected address : SocketAddr)
      → (authorize_connection policy target connected
          ≡ ok (ConnectionAuthorization.allowed address))
        ↔ ((OnePolicy.authorize_connection policy.requested target connected
              ≡ ok (ConnectionAuthorization.allowed address))
            × (OnePolicy.authorize_connection policy.ceiling target connected
                ≡ ok (ConnectionAuthorization.allowed address)))
  unfolding authorize_connection combine_connection_authorizations
  authorize_connection-eq-both_allowed_iff policy target connected address =
      elim (Result-cases (OnePolicy.authorize_connection policy.requested target connected)) [
        | inr (e, eq) ↦ ground arith
        | inl (a, eq) ↦
            elim (Result-cases (OnePolicy.authorize_connection policy.ceiling target connected)) [
              | inr (e, eq') ↦ ground arith
              | inl (b, eq') ↦ ground (
                arith,
                combine_connection_authorizations-eq-allowed_iff a b connected address
                    (λ x h. authorized_address policy.requested target connected x (eq ∙ ap ok h))
                    (λ x h. authorized_address policy.ceiling target connected x (eq' ∙ ap ok h)),
              )
            ]
      ]
