-- ===== src/Compose/Requirements/Isolation.antt =====
-- crates/cageforge-policy-compose/src/model.rs: the isolation of local sockets that a backend is
-- asked for, and the decisions.
use cageforge.Base.{
  true, false, ◌≡◌, ◌≢◌, arith, Option, none, some, List, [], ◌∷◌, any, Result-cases, ok, inl, inr,
  Bool-cases,
}
use cageforge.Path.Components.{FilePath}
use cageforge.Policy.Glob.{GlobSet}
use cageforge.Policy.NetworkModel.{DomainAccess, UnixSocketRule, is_allow}
use cageforge.Policy.Network.{NetworkPolicy}
use cageforge.Policy.NetworkDecision.{
  NetworkDecision, socket_access_loop, socket_decision, stricter_access,
}
use cageforge.Policy.NetworkDecision as OnePolicy
use cageforge.Compose.{EffectiveNetworkPolicy, combine_network_decisions, decision_for_unix_socket}
use cageforge.Compose.Requirements.{denies_all_unix_sockets, network_requirements}

no_allow-stricter :
    (result : Option DomainAccess) (access : DomainAccess)
    → is_allow access ≡ false
    → some (stricter_access result access) ≢ some DomainAccess.allow
unfolding stricter_access
no_allow-stricter none access h = ground arith
no_allow-stricter (some DomainAccess.deny) access h = ground arith
no_allow-stricter (some DomainAccess.allow) access h = ground arith

no_allow-socket_access_loop :
    (path : FilePath) (result : Option DomainAccess) (rules : List UnixSocketRule)
    → any (λ rule. is_allow rule.access) rules ≡ false
    → result ≢ some DomainAccess.allow
    → socket_access_loop path result rules ≢ some DomainAccess.allow
unfolding socket_access_loop stricter_access
no_allow-socket_access_loop path result [] h k = k
no_allow-socket_access_loop path result (rule ∷ rules) h k =
    let kept = no_allow-socket_access_loop path result rules in
    let changed =
      no_allow-socket_access_loop path (some (stricter_access result rule.access)) rules in
    elim (Bool-cases (is_allow rule.access)) [
      | inl allowed ↦ absurd (ground arith)
      | inr denied ↦ ground (arith, kept, changed, no_allow-stricter result rule.access denied)
    ]

module _ ⦃g : GlobSet⦄ where
  denies_all_unix_sockets-eq-true :
      (policy : NetworkPolicy) (path : FilePath)
      → denies_all_unix_sockets policy ≡ true
      → OnePolicy.decision_for_unix_socket policy path ≢ ok NetworkDecision.allow
  unfolding denies_all_unix_sockets cageforge.Policy.NetworkDecision.decision_for_unix_socket
      socket_decision
  denies_all_unix_sockets-eq-true policy path h =
      ground (arith, no_allow-socket_access_loop path none policy.unix_sockets)

  -- Where the requirements of an effective policy ask for the isolation of local sockets, the
  -- policy allows none of them.
  pub local_ipc_isolation-IsDenied :
      (policy : EffectiveNetworkPolicy) (path : FilePath)
      → (network_requirements policy).local_ipc_isolation ≡ true
      → decision_for_unix_socket policy path ≢ ok NetworkDecision.allow
  unfolding decision_for_unix_socket network_requirements combine_network_decisions
  local_ipc_isolation-IsDenied policy path h =
      elim (Result-cases (OnePolicy.decision_for_unix_socket policy.requested path)) [
        | inr (e, eq) ↦ ground arith
        | inl (a, eq) ↦
            elim (Result-cases (OnePolicy.decision_for_unix_socket policy.ceiling path)) [
              | inr (e, eq') ↦ ground arith
              | inl (b, eq') ↦ ground (
                arith,
                denies_all_unix_sockets-eq-true policy.requested path,
                denies_all_unix_sockets-eq-true policy.ceiling path,
              )
            ]
      ]
