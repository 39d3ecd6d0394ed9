-- ===== src/Policy/Network.antt =====
-- crates/cageforge-policy/src/network.rs: the network policy, its builders and its normal form.
pub mod Merging
pub mod Targets
pub mod Endpoints
use cageforge.Base.{
  ℕ, Bool, true, false, not, ◌&&◌, ◌||◌, Option, none, some, List, [], ◌∷◌, ◌++◌, Text, any,
  text_eq, is_empty, contains_char, if◌then◌else◌, Result, ok, err, ◌>>=◌, ◌>>◌, fail_if,
}
use cageforge.Path.Components.{FilePath}
use cageforge.Path.Compare.{paths_equal}
use cageforge.Policy.Error.{PolicyError}
use cageforge.Policy.Address.{IpAddr, SocketAddr, ip_eq, socket_ip, socket_eq}
use cageforge.Policy.Selector.{new_absolute}
use cageforge.Policy.Context.{path_key, path_key_eq}
use cageforge.Policy.Glob.{GlobSet}
use cageforge.Policy.Host.{CharTable, parse_ip_literal}
use cageforge.Policy.Domain.{
  DomainMatcher, normalize_domain_pattern, normalize_domain, compile_domain_matcher,
}
use cageforge.Policy.LocalIpc.{
  LocalIpcEndpoint, endpoint_eq, endpoint_text, unix_path, validate_endpoint,
}
pub use cageforge.Policy.NetworkModel.{
  DomainAccess, LocalNetworkAccess, UnixSocketMode, DomainMode, NetworkMode, is_allow, allows_local,
  sockets_disabled, domains_disabled, is_external, is_disabled, UnixSocketRule, LocalIpcRule,
  ResolvedNetworkTarget,
}

abbrev mismatches : Option IpAddr → SocketAddr → Bool
mismatches none address = false
mismatches (some literal) address = not (ip_eq literal (socket_ip address))

-- The loop of `ResolvedNetworkTarget::new`; the set `seen` holds what the list holds.
unfoldable pub unique_addresses :
    Text → Option IpAddr → List SocketAddr → List SocketAddr → Result PolicyError (List SocketAddr)
unique_addresses domain literal unique [] = ok unique
unique_addresses domain literal unique (address ∷ addresses) =
    let rest =
      unique_addresses domain literal
        (if any (λ known. socket_eq known address) unique then unique else unique ++ (address ∷ []))
        addresses in
    if mismatches literal address
    then err (PolicyError.resolved_address_mismatch domain address)
    else rest

module _ ⦃t : CharTable⦄ where
  unfoldable pub new_target : Text → List SocketAddr → Result PolicyError ResolvedNetworkTarget
  unfolding unique_addresses
  new_target raw addresses = do
    domain ← normalize_domain raw
    unique ← unique_addresses domain (parse_ip_literal domain) [] addresses
    ok (record { domain = domain; addresses = unique })

unfoldable pub contains_address : ResolvedNetworkTarget → SocketAddr → Bool
contains_address target address = any (λ known. socket_eq known address) target.addresses

unfoldable pub new_unix_socket_rule : FilePath → DomainAccess → Result PolicyError UnixSocketRule
new_unix_socket_rule path access = do
  new_absolute path
  ok (record { path = path; access = access })

unfoldable pub new_local_ipc_rule :
    LocalIpcEndpoint → DomainAccess → Result PolicyError LocalIpcRule
new_local_ipc_rule endpoint access = do
  validate_endpoint endpoint
  ok (record { endpoint = endpoint; access = access })

-- The loops of `normalized`: the first rule of a key stays, and a later denial is written to it.
-- The position that the map holds for a key is that of the only rule with the key.
module _ {R : Type 0} (same : R → R → Bool) (access : R → DomainAccess) (denied : R → R) where
  unfoldable pub merge_access : List R → R → List R
  merge_access [] rule = rule ∷ []
  merge_access (existing ∷ rules) rule =
      let rest = merge_access rules rule in
      if same existing rule
      then (if is_allow (access rule) then existing else denied existing) ∷ rules
      else existing ∷ rest

  unfoldable pub merge_rules : List R → List R → List R
  unfolding merge_access
  merge_rules merged [] = merged
  merge_rules merged (rule ∷ rules) = merge_rules (merge_access merged rule) rules

module _ ⦃g : GlobSet⦄ where
  pub record DomainRule : Type 0 where
    pub pattern : Text
    pub access : DomainAccess
    pub matcher : DomainMatcher

  pub record NetworkPolicy : Type 0 where
    pub mode : NetworkMode
    pub domain_mode : DomainMode
    pub unix_socket_mode : UnixSocketMode
    pub local_network_access : LocalNetworkAccess
    pub domains : List DomainRule
    pub unix_sockets : List UnixSocketRule
    pub local_ipc : List LocalIpcRule

  unfoldable pub new_domain_rule : Text → DomainAccess → Result PolicyError DomainRule
  new_domain_rule raw access = do
    pattern ← normalize_domain_pattern raw
    matcher ← compile_domain_matcher pattern
    ok (record { pattern = pattern; access = access; matcher = matcher })

  -- The presets, which differ in their modes.
  abbrev preset : NetworkMode → DomainMode → UnixSocketMode → LocalNetworkAccess → NetworkPolicy
  preset mode domain_mode unix_socket_mode local_network_access = record {
    mode = mode;
    domain_mode = domain_mode;
    unix_socket_mode = unix_socket_mode;
    local_network_access = local_network_access;
    domains = [];
    unix_sockets = [];
    local_ipc = [];
  }

  unfoldable pub new_disabled : NetworkPolicy
  new_disabled =
      preset NetworkMode.disabled DomainMode.disabled UnixSocketMode.disabled
        LocalNetworkAccess.deny

  unfoldable pub new_enabled : NetworkPolicy
  new_enabled =
      preset NetworkMode.enabled DomainMode.enabled UnixSocketMode.disabled LocalNetworkAccess.deny

  unfoldable pub new_unrestricted : NetworkPolicy
  new_unrestricted =
      preset NetworkMode.enabled DomainMode.enabled UnixSocketMode.enabled LocalNetworkAccess.allow

  unfoldable pub new_external : NetworkPolicy
  new_external =
      preset NetworkMode.external DomainMode.disabled UnixSocketMode.disabled
        LocalNetworkAccess.deny

  unfoldable pub with_domain_mode : NetworkPolicy → DomainMode → NetworkPolicy
  with_domain_mode policy mode = record policy { domain_mode = mode }

  unfoldable pub with_unix_socket_mode : NetworkPolicy → UnixSocketMode → NetworkPolicy
  with_unix_socket_mode policy mode = record policy { unix_socket_mode = mode }

  unfoldable pub with_local_network_access : NetworkPolicy → LocalNetworkAccess → NetworkPolicy
  with_local_network_access policy access = record policy { local_network_access = access }

  unfoldable pub with_domain :
      NetworkPolicy → Text → DomainAccess → Result PolicyError NetworkPolicy
  unfolding new_domain_rule
  with_domain policy pattern access = do
    fail_if (is_external policy.mode)
        (PolicyError.invalid_rule "network rules cannot be added to an external policy")
    rule ← new_domain_rule pattern access
    ok (record policy { domains = policy.domains ++ (rule ∷ []) })

  unfoldable pub with_unix_socket :
      NetworkPolicy → FilePath → DomainAccess → Result PolicyError NetworkPolicy
  unfolding new_unix_socket_rule
  with_unix_socket policy path access = do
    fail_if (is_external policy.mode)
        (PolicyError.invalid_rule "network rules cannot be added to an external policy")
    rule ← new_unix_socket_rule path access
    ok (record policy { unix_sockets = policy.unix_sockets ++ (rule ∷ []) })

  -- What `with_local_ipc` does for a Unix endpoint before it adds the rule.
  unfoldable pub open_for_unix : NetworkPolicy → DomainAccess → Option FilePath → NetworkPolicy
  open_for_unix policy access none = policy
  open_for_unix policy access (some path) = record policy {
    mode = if is_disabled policy.mode then NetworkMode.enabled else policy.mode;
    unix_socket_mode =
        if sockets_disabled policy.unix_socket_mode
        then UnixSocketMode.restricted
        else policy.unix_socket_mode;
    unix_sockets = policy.unix_sockets ++ (record { path = path; access = access } ∷ []);
  }

  unfoldable pub with_local_ipc :
      NetworkPolicy → LocalIpcEndpoint → DomainAccess → Result PolicyError NetworkPolicy
  unfolding new_local_ipc_rule open_for_unix endpoint_eq unix_path
  with_local_ipc policy endpoint access = do
    fail_if (is_external policy.mode)
        (PolicyError.invalid_rule "local-IPC rules cannot be added to an external policy")
    fail_if (any (λ (rule : LocalIpcRule). endpoint_eq rule.endpoint endpoint) policy.local_ipc) (
        PolicyError.invalid_local_ipc_endpoint (endpoint_text endpoint)
          "duplicate local-IPC endpoint")
    rule ← new_local_ipc_rule endpoint access
    let opened = open_for_unix policy access (unix_path endpoint)
    ok (record opened { local_ipc = opened.local_ipc ++ (rule ∷ []) })

  unfoldable pub validate_network : NetworkPolicy → Result PolicyError (Unit {0})
  validate_network policy =
      fail_if
        (is_external policy.mode
          && (not (domains_disabled policy.domain_mode)
              || (not (sockets_disabled policy.unix_socket_mode)
                  || (allows_local policy.local_network_access
                      || (not (is_empty policy.domains)
                          || (not (is_empty policy.unix_sockets)
                              || not (is_empty policy.local_ipc)))))))
        (PolicyError.invalid_rule "external network policies cannot contain local settings")

  abbrev pub same_pattern : DomainRule → DomainRule → Bool
  same_pattern existing rule = text_eq existing.pattern rule.pattern

  abbrev pub deny_domain : DomainRule → DomainRule
  deny_domain rule = record rule { access = DomainAccess.deny }

  abbrev pub same_socket : UnixSocketRule → UnixSocketRule → Bool
  same_socket existing rule = path_key_eq (path_key existing.path) (path_key rule.path)

  abbrev pub deny_socket : UnixSocketRule → UnixSocketRule
  deny_socket rule = record rule { access = DomainAccess.deny }

  abbrev pub same_endpoint : LocalIpcRule → LocalIpcRule → Bool
  same_endpoint existing rule = endpoint_eq existing.endpoint rule.endpoint

  abbrev pub deny_endpoint : LocalIpcRule → LocalIpcRule
  deny_endpoint rule = record rule { access = DomainAccess.deny }

  unfoldable pub normalized_network : NetworkPolicy → Result PolicyError NetworkPolicy
  unfolding validate_network merge_rules
  normalized_network policy = do
    validate_network policy
    ok (record policy {
      domains = merge_rules same_pattern (λ r. r.access) deny_domain [] policy.domains;
      unix_sockets = merge_rules same_socket (λ r. r.access) deny_socket [] policy.unix_sockets;
      local_ipc = merge_rules same_endpoint (λ r. r.access) deny_endpoint [] policy.local_ipc;
    })
