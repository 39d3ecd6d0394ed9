-- ===== src/Tests/Networks.antt =====
-- The theorems on network policies at concrete policies.
use cageforge.Base.{
  ℕ, Bool, true, false, not, ◌&&◌, List, [], ◌∷◌, Text, codes, ok, Result, ◌≡◌, ◌↔◌, refl, ◌||◌,
  any, arith, ◌<◌, Option, some,
}
use cageforge.Policy.Address.{IpAddr, SocketAddr, socket_ip, socket_eq}
use cageforge.Policy.Domain.{DomainMatcher, matcher_accepts}
use cageforge.Policy.PublicIp.{is_non_public_ip, is_non_public_ipv4}
use cageforge.Policy.PublicIp.Ranges.{
  is_non_public_ipv4-eq-any_range, within_range, non_public_entries,
}
use cageforge.Policy.Network.{
  DomainAccess, DomainMode, NetworkPolicy, DomainRule, ResolvedNetworkTarget, contains_address,
  new_enabled, is_allow,
}
use cageforge.Policy.NetworkDecision.{
  NetworkDecision, ConnectionAuthorization, authorize_connection, decision_for_resolved_target,
  access_for_normalized_domain,
}
use cageforge.Policy.NetworkDecision.Connect.{
  authorize_connection-eq-allowed_iff, authorize_connection-IsPublic,
}
use cageforge.Policy.NetworkDecision.Domains.{access_for_normalized_domain_lem, access_of}
use cageforge.Tests.{literals, ascii}

abbrev rule_for : Text → DomainAccess → DomainRule
rule_for pattern access = record {
  pattern = pattern;
  access = access;
  matcher = DomainMatcher.full pattern;
}

-- One site is allowed, and one is allowed and denied.
abbrev sites : NetworkPolicy
unfolding new_enabled
sites = record new_enabled {
  domain_mode = DomainMode.restricted;
  domains =
      record {
        pattern = codes "*.example.org";
        access = DomainAccess.allow;
        matcher = DomainMatcher.suffix (codes "example" ∷ codes "org" ∷ []) false;
      }
      ∷ rule_for (codes "bad.example.org") DomainAccess.deny
      ∷ [];
}

abbrev site_address : SocketAddr
site_address = SocketAddr.v4 0x5db8_d822 443

abbrev site : ResolvedNetworkTarget
site = record { domain = codes "www.example.org"; addresses = site_address ∷ [] }

authorize_connection_runs :
    authorize_connection sites site site_address ≡ ok (ConnectionAuthorization.allowed site_address)
unfolding authorize_connection cageforge.Policy.Domain.normalize_domain cageforge.Base.text_eq
    cageforge.Policy.IpText.parse_ip sites access_for_normalized_domain matcher_accepts
    is_non_public_ip socket_ip cageforge.Policy.Address.socket_eq
authorize_connection_runs = refl

-- The same name, resolved to an address of the local network.
rebinding_runs :
    authorize_connection sites
      (record { domain = codes "www.example.org"; addresses = SocketAddr.v4 0x0a00_0001 443 ∷ [] })
      (SocketAddr.v4 0x0a00_0001 443)
    ≡ ok ConnectionAuthorization.denied
unfolding authorize_connection cageforge.Policy.Domain.normalize_domain cageforge.Base.text_eq
    cageforge.Policy.IpText.parse_ip sites access_for_normalized_domain matcher_accepts
    is_non_public_ip socket_ip
rebinding_runs = refl

authorize_connection-eq-allowed_iff_example :
    (authorize_connection sites site site_address
      ≡ ok (ConnectionAuthorization.allowed site_address))
    ↔ ((decision_for_resolved_target sites site ≡ ok NetworkDecision.allow)
        × (contains_address site site_address ≡ true)
        × (site_address ≡ site_address))
authorize_connection-eq-allowed_iff_example =
    authorize_connection-eq-allowed_iff sites site site_address site_address

authorize_connection-IsPublic_example : is_non_public_ip (socket_ip site_address) ≡ false
unfolding sites cageforge.Policy.Domain.normalize_domain cageforge.Base.text_eq
    cageforge.Policy.IpText.parse_ip cageforge.Policy.NetworkDecision.has_exact_allow
    authorize_connection access_for_normalized_domain matcher_accepts is_non_public_ip socket_ip
    cageforge.Policy.Address.socket_eq
authorize_connection-IsPublic_example =
    authorize_connection-IsPublic sites site site_address site_address (codes "www.example.org")
      refl refl refl refl

access_for_normalized_domain_lem_example :
    access_for_normalized_domain sites (codes "bad.example.org")
    ≡ access_of
        (any
          (λ (r : DomainRule). matcher_accepts r.matcher (codes "bad.example.org"))
          sites.domains)
        (any
          (λ (r : DomainRule).
            matcher_accepts r.matcher (codes "bad.example.org") && not (is_allow r.access))
          sites.domains)
access_for_normalized_domain_lem_example =
    access_for_normalized_domain_lem sites (codes "bad.example.org")

is_non_public_ipv4-eq-any_range_example :
    is_non_public_ipv4 0x0a01_0203
    ≡ any (λ entry. any (within_range 0x0a01_0203) entry) non_public_entries
is_non_public_ipv4-eq-any_range_example = is_non_public_ipv4-eq-any_range 0x0a01_0203 (omega arith)
