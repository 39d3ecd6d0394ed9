-- ===== src/Policy/NetworkDecision/Domains.antt =====
-- crates/cageforge-policy/src/network.rs: which rules decide a domain or a Unix socket.
use cageforge.Base.{
  Bool, ◌&&◌, ◌||◌, not, ◌≡◌, refl, List, [], ◌∷◌, any, arith, Option, some, none, is_some,
  if◌then◌else◌, Text,
}
use cageforge.Path.Components.{FilePath}
use cageforge.Path.Compare.{paths_equal}
use cageforge.Policy.Glob.{GlobSet}
use cageforge.Policy.Domain.{matcher_accepts}
use cageforge.Policy.Network.{DomainAccess, is_allow, NetworkPolicy, DomainRule, UnixSocketRule}
use cageforge.Policy.NetworkDecision.{
  stricter_access, is_denied, socket_access_loop, domain_access_loop, access_for_normalized_domain,
}

-- The access that matching rules give: none without a match, and a denial where one denies.
abbrev pub access_of : Bool → Bool → Option DomainAccess
access_of matched denied =
    if denied then some DomainAccess.deny else if matched then some DomainAccess.allow else none

pub socket_access_loop_lem :
    (path : FilePath) (result : Option DomainAccess) (rules : List UnixSocketRule)
    → socket_access_loop path result rules
      ≡ access_of (is_some result || any (λ (r : UnixSocketRule). paths_equal path r.path) rules) (
          is_denied result
          || any (λ (r : UnixSocketRule). paths_equal path r.path && not (is_allow r.access)) rules)
unfolding socket_access_loop stricter_access
socket_access_loop_lem path none [] = refl
socket_access_loop_lem path (some DomainAccess.allow) [] = refl
socket_access_loop_lem path (some DomainAccess.deny) [] = refl
socket_access_loop_lem path result (rule ∷ rules) = ground (
  arith,
  socket_access_loop_lem path
      (if paths_equal path rule.path then some (stricter_access result rule.access) else result)
      rules,
)

module _ ⦃g : GlobSet⦄ where
  abbrev pub accepts : Text → DomainRule → Bool
  accepts domain rule = matcher_accepts rule.matcher domain

  domain_access_loop_lem :
      (domain : Text) (result : Option DomainAccess) (rules : List DomainRule)
      → domain_access_loop domain result rules
        ≡ access_of
            (is_some result || any (accepts domain) rules)
            (is_denied result || any (λ r. accepts domain r && not (is_allow r.access)) rules)
  unfolding domain_access_loop stricter_access
  domain_access_loop_lem domain none [] = refl
  domain_access_loop_lem domain (some DomainAccess.allow) [] = refl
  domain_access_loop_lem domain (some DomainAccess.deny) [] = refl
  domain_access_loop_lem domain result (rule ∷ rules) = ground (
    arith,
    domain_access_loop_lem domain
        (if accepts domain rule then some (stricter_access result rule.access) else result) rules,
  )

  -- A domain is denied where some matching rule denies it, allowed where rules match and none of
  -- them denies, and has no access of its own where no rule matches; the rules' order is no matter.
  pub access_for_normalized_domain_lem :
      (policy : NetworkPolicy) (domain : Text)
      → access_for_normalized_domain policy domain
        ≡ access_of (any (λ (r : DomainRule). matcher_accepts r.matcher domain) policy.domains) (
            any
              (λ (r : DomainRule). matcher_accepts r.matcher domain && not (is_allow r.access))
              policy.domains)
  unfolding access_for_normalized_domain
  access_for_normalized_domain_lem policy domain = domain_access_loop_lem domain none policy.domains
