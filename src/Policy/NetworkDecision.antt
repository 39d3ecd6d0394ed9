-- ===== src/Policy/NetworkDecision.antt =====
-- crates/cageforge-policy/src/network.rs: what a network policy decides of a domain, a resolved
-- target, a connection and a Unix socket.
pub mod Connect
pub mod Domains
pub mod Normal
use cageforge.Base.{
  ℕ, Bool, true, false, not, ◌&&◌, ◌||◌, Option, none, some, List, [], ◌∷◌, ◌++◌, map, Text, codes,
  any, text_eq, is_empty, contains_char, if◌then◌else◌, Result, ok, err, ◌>>=◌, ◌>>◌, fail_if,
  map_ok,
}
use cageforge.Path.Components.{FilePath}
use cageforge.Path.Compare.{paths_equal}
use cageforge.Policy.Error.{PolicyError}
use cageforge.Policy.Address.{IpAddr, SocketAddr, ip_eq, socket_ip}
use cageforge.Policy.Selector.{new_absolute}
use cageforge.Policy.Glob.{GlobSet}
use cageforge.Policy.Host.{CharTable, parse_ip_literal}
use cageforge.Policy.Domain.{matcher_accepts, normalize_domain}
use cageforge.Policy.PublicIp.{is_non_public_ip, is_loopback}
use cageforge.Policy.Network.{
  DomainAccess, is_allow, LocalNetworkAccess, allows_local, UnixSocketMode, sockets_disabled,
  DomainMode, NetworkMode, is_external, is_disabled, UnixSocketRule, ResolvedNetworkTarget,
  contains_address, DomainRule, NetworkPolicy,
}

pub data NetworkDecision : Type 0 where
  allow deny externally_enforced : NetworkDecision

-- `AuthorizedSocketAddr` is the address that it holds.
pub data ConnectionAuthorization : Type 0 where
  allowed : SocketAddr → ConnectionAuthorization
  denied externally_enforced : ConnectionAuthorization

abbrev pub is_allowed : NetworkDecision → Bool
is_allowed NetworkDecision.allow = true
is_allowed _ = false

-- One round of the loops over matching rules.
unfoldable pub stricter_access : Option DomainAccess → DomainAccess → DomainAccess
stricter_access (some DomainAccess.deny) _ = DomainAccess.deny
stricter_access _ DomainAccess.deny = DomainAccess.deny
stricter_access _ _ = DomainAccess.allow

abbrev pub allow_if : Bool → NetworkDecision
allow_if true = NetworkDecision.allow
allow_if false = NetworkDecision.deny

abbrev pub is_denied : Option DomainAccess → Bool
is_denied (some DomainAccess.deny) = true
is_denied _ = false

abbrev pub is_granted : Option DomainAccess → Bool
is_granted (some DomainAccess.allow) = true
is_granted _ = false

-- The loop of `decision_for_unix_socket`.
unfoldable pub socket_access_loop :
    FilePath → Option DomainAccess → List UnixSocketRule → Option DomainAccess
unfolding stricter_access
socket_access_loop path result [] = result
socket_access_loop path result (rule ∷ rules) =
    socket_access_loop path
      (if paths_equal path rule.path then some (stricter_access result rule.access) else result)
      rules

module _ ⦃g : GlobSet⦄ where
  -- The loop of `access_for_normalized_domain`.
  unfoldable pub domain_access_loop :
      Text → Option DomainAccess → List DomainRule → Option DomainAccess
  unfolding stricter_access
  domain_access_loop domain result [] = result
  domain_access_loop domain result (rule ∷ rules) =
      domain_access_loop domain
        (if matcher_accepts rule.matcher domain
          then some (stricter_access result rule.access)
          else result)
        rules

  unfoldable pub access_for_normalized_domain : NetworkPolicy → Text → Option DomainAccess
  unfolding domain_access_loop
  access_for_normalized_domain policy domain = domain_access_loop domain none policy.domains

  unfoldable pub has_exact_allow : NetworkPolicy → Text → Bool
  has_exact_allow policy domain =
      any
        (λ (rule : DomainRule).
          is_allow rule.access
          && (not (contains_char b'*' rule.pattern)
              && (not (contains_char b'?' rule.pattern) && text_eq rule.pattern domain)))
        policy.domains

  -- The match of `decision_for_domain` on the modes, for a normalised domain.
  unfoldable pub decision_in_modes :
      NetworkMode → DomainMode → NetworkPolicy → Text → NetworkDecision
  decision_in_modes NetworkMode.disabled _ policy domain = NetworkDecision.deny
  decision_in_modes NetworkMode.external _ policy domain = NetworkDecision.externally_enforced
  decision_in_modes NetworkMode.enabled DomainMode.disabled policy domain = NetworkDecision.deny
  decision_in_modes NetworkMode.enabled DomainMode.enabled policy domain =
      allow_if (not (is_denied (access_for_normalized_domain policy domain)))
  decision_in_modes NetworkMode.enabled DomainMode.restricted policy domain =
      allow_if (is_granted (access_for_normalized_domain policy domain))

  -- `decision_for_domain_with_resolved_ips` behind its call of `decision_for_domain`.
  unfoldable pub resolved_decision : NetworkPolicy → Text → List IpAddr → NetworkDecision
  unfolding has_exact_allow
  resolved_decision policy domain resolved_ips = elim (parse_ip_literal domain) [
    | some literal ↦
        if any (λ ip. not (ip_eq ip literal)) resolved_ips
        then NetworkDecision.deny
        else allow_if (
            has_exact_allow policy domain
            || (allows_local policy.local_network_access || not (is_non_public_ip literal)))
    | none ↦
        let localhost = text_eq domain (codes "localhost") in
        let explicit_localhost_allow = localhost && has_exact_allow policy domain in
        if localhost
          && (not (allows_local policy.local_network_access) && not explicit_localhost_allow)
        then NetworkDecision.deny
        else if is_empty resolved_ips
        then NetworkDecision.deny
        else allow_if (
            not (
              not (allows_local policy.local_network_access)
              && any (λ ip. is_non_public_ip ip && not (explicit_localhost_allow && is_loopback ip))
                  resolved_ips))
  ]

  -- The match of `decision_for_unix_socket` on the mode.
  unfoldable pub socket_decision : UnixSocketMode → Option DomainAccess → NetworkDecision
  socket_decision UnixSocketMode.disabled access = NetworkDecision.deny
  socket_decision UnixSocketMode.enabled access = allow_if (not (is_denied access))
  socket_decision UnixSocketMode.restricted access = allow_if (is_granted access)

  unfoldable pub decision_for_unix_socket :
      NetworkPolicy → FilePath → Result PolicyError NetworkDecision
  unfolding socket_access_loop socket_decision
  decision_for_unix_socket policy path = do
    new_absolute path
    ok (
        if is_external policy.mode
        then NetworkDecision.externally_enforced
        else if is_disabled policy.mode || sockets_disabled policy.unix_socket_mode
        then NetworkDecision.deny
        else socket_decision policy.unix_socket_mode
            (socket_access_loop path none policy.unix_sockets))

module _ ⦃g : GlobSet⦄ ⦃t : CharTable⦄ where
  unfoldable pub decision_for_domain : NetworkPolicy → Text → Result PolicyError NetworkDecision
  unfolding decision_in_modes
  decision_for_domain policy raw = do
    domain ← normalize_domain raw
    ok (decision_in_modes policy.mode policy.domain_mode policy domain)

  unfoldable pub decision_for_domain_with_resolved_ips :
      NetworkPolicy → Text → List IpAddr → Result PolicyError NetworkDecision
  unfolding decision_for_domain resolved_decision
  decision_for_domain_with_resolved_ips policy raw resolved_ips = do
    domain ← normalize_domain raw
    decision ← decision_for_domain policy domain
    ok (if is_allowed decision then resolved_decision policy domain resolved_ips else decision)

  unfoldable pub decision_for_resolved_target :
      NetworkPolicy → ResolvedNetworkTarget → Result PolicyError NetworkDecision
  unfolding decision_for_domain_with_resolved_ips
  decision_for_resolved_target policy target =
      decision_for_domain_with_resolved_ips policy target.domain (map socket_ip target.addresses)

  unfoldable pub decision_for_connected_address :
      NetworkPolicy → ResolvedNetworkTarget → SocketAddr → Result PolicyError NetworkDecision
  unfolding decision_for_resolved_target contains_address
  decision_for_connected_address policy target connected = do
    decision ← decision_for_resolved_target policy target
    ok (if is_allowed decision then allow_if (contains_address target connected) else decision)

  abbrev authorization : SocketAddr → NetworkDecision → ConnectionAuthorization
  authorization connected NetworkDecision.allow = ConnectionAuthorization.allowed connected
  authorization connected NetworkDecision.deny = ConnectionAuthorization.denied
  authorization connected NetworkDecision.externally_enforced =
      ConnectionAuthorization.externally_enforced

  unfoldable pub authorize_connection :
      NetworkPolicy
      → ResolvedNetworkTarget
      → SocketAddr
      → Result PolicyError ConnectionAuthorization
  unfolding decision_for_connected_address
  authorize_connection policy target connected = do
    decision ← decision_for_connected_address policy target connected
    ok (authorization connected decision)
