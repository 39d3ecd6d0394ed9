-- ===== src/Policy/NetworkDecision/Connect.antt =====
-- crates/cageforge-policy/src/network.rs: `authorize_connection` and the checks that stand behind
-- an authorised address.
use cageforge.Base.{
  Bool, true, false, ◌&&◌, not, ◌≡◌, inl, inr, ◌↔◌, List, [], ◌∷◌, map, any, arith, Text, ok,
  Result-cases, Option-cases,
}
use cageforge.Policy.Address.{
  IpAddr, SocketAddr, socket_ip, socket_eq, socket_eq_iff, ip_eq, ip_eq_iff,
}
use cageforge.Policy.Glob.{GlobSet}
use cageforge.Policy.Host.{CharTable, parse_ip_literal}
use cageforge.Policy.Domain.{normalize_domain}
use cageforge.Policy.PublicIp.{is_non_public_ip, is_loopback}
use cageforge.Policy.Network.{
  NetworkPolicy, ResolvedNetworkTarget, contains_address, LocalNetworkAccess,
}
use cageforge.Policy.NetworkDecision.{
  NetworkDecision, ConnectionAuthorization, decision_for_resolved_target,
  decision_for_connected_address, authorize_connection, decision_for_domain,
  decision_for_domain_with_resolved_ips, resolved_decision, has_exact_allow,
}

-- A socket address that a list holds passes on what no address of the list satisfies.
any_socket :
    (p : IpAddr → Bool) (addresses : List SocketAddr) (address : SocketAddr)
    → any (λ known. socket_eq known address) addresses ≡ true
    → any p (map socket_ip addresses) ≡ false
    → p (socket_ip address) ≡ false
any_socket p [] address h k = cc
any_socket p (known ∷ addresses) address h k =
    ground (arith, socket_eq_iff known address, any_socket p addresses address)

module _ ⦃g : GlobSet⦄ ⦃t : CharTable⦄ (policy : NetworkPolicy) where
  -- A connection is authorised exactly when its target is allowed and the connected address is one
  -- of the target's addresses, and the authorisation holds the connected address.
  pub authorize_connection-eq-allowed_iff :
      (target : ResolvedNetworkTarget) (connected address : SocketAddr)
      → (authorize_connection policy target connected
          ≡ ok (ConnectionAuthorization.allowed address))
        ↔ ((decision_for_resolved_target policy target ≡ ok NetworkDecision.allow)
            × (contains_address target connected ≡ true)
            × (connected ≡ address))
  unfolding authorize_connection decision_for_connected_address
  authorize_connection-eq-allowed_iff target connected address = ground arith

  -- What a resolved name may point to when local access is denied and no rule names it exactly.
  resolved_decision-eq-allow :
      (domain : Text) (addresses : List SocketAddr) (address : SocketAddr)
      → policy.local_network_access ≡ LocalNetworkAccess.deny
      → has_exact_allow policy domain ≡ false
      → any (λ known. socket_eq known address) addresses ≡ true
      → resolved_decision policy domain (map socket_ip addresses) ≡ NetworkDecision.allow
      → is_non_public_ip (socket_ip address) ≡ false
  unfolding resolved_decision
  resolved_decision-eq-allow domain addresses address local exact known allowed =
      elim (Option-cases (parse_ip_literal domain)) [
        | inl eq ↦
            let public =
              any_socket (λ ip. is_non_public_ip ip && not (false && is_loopback ip)) addresses
                address known in
            ground arith
        | inr (literal, eq) ↦
            let same = any_socket (λ ip. not (ip_eq ip literal)) addresses address known in
            ground (arith, ip_eq_iff (socket_ip address) literal)
      ]

  -- What an allowed target passed: the decision of its normal name, and the check of its addresses.
  pub decision_for_resolved_target-eq-allow :
      (target : ResolvedNetworkTarget)
      → decision_for_resolved_target policy target ≡ ok NetworkDecision.allow
      → (domain : Text) × (normalize_domain target.domain ≡ ok domain)
        × (decision_for_domain policy domain ≡ ok NetworkDecision.allow)
        × (resolved_decision policy domain (map socket_ip target.addresses) ≡ NetworkDecision.allow)
  unfolding decision_for_resolved_target decision_for_domain_with_resolved_ips
  decision_for_resolved_target-eq-allow target h =
      elim (Result-cases (normalize_domain target.domain)) [
        | inl (domain, eq) ↦ (domain, eq, ground arith, ground arith)
        | inr (e, eq) ↦ ground arith
      ]

  -- Where local access is denied and no rule allows the target's normal name exactly, every address
  -- that is authorised is a public one, whatever addresses the target carries.
  pub authorize_connection-IsPublic :
      (target : ResolvedNetworkTarget) (connected address : SocketAddr) (domain : Text)
      → policy.local_network_access ≡ LocalNetworkAccess.deny
      → normalize_domain target.domain ≡ ok domain
      → has_exact_allow policy domain ≡ false
      → authorize_connection policy target connected ≡ ok (ConnectionAuthorization.allowed address)
      → is_non_public_ip (socket_ip address) ≡ false
  unfolding contains_address
  authorize_connection-IsPublic target connected address domain local normal exact h =
      let (allowed, known, same) =
        (authorize_connection-eq-allowed_iff target connected address).0 h in
      let (domain', normal', _, resolved) = decision_for_resolved_target-eq-allow target allowed in
      resolved_decision-eq-allow domain target.addresses address local exact (ground arith)
        (ground arith)
