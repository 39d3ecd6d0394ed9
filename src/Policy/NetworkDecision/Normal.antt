-- ===== src/Policy/NetworkDecision/Normal.antt =====
-- crates/cageforge-policy/src/network.rs: what `normalized` keeps of the decisions of a network
-- policy.
use cageforge.Base.{
  Bool, true, ◌&&◌, not, ◌≡◌, refl, sym, ap, ◌∙◌, List, [], ◌∷◌, ◌++◌, any, All, All-append, arith,
  none, ◌>>=◌, Result-cases, ok, Text, text_eq_iff, inl, inr, subst,
}
use cageforge.Path.Components.{FilePath, plain_components}
use cageforge.Path.Compare.{paths_equal, equal_loop}
use cageforge.Path.Compare.Laws.{paths_equal_iff}
use cageforge.Policy.Glob.{GlobSet}
use cageforge.Policy.Host.{CharTable}
use cageforge.Policy.Domain.{
  matcher_accepts, compile_domain_matcher, normalize_domain, normalize_domain_pattern,
}
use cageforge.Policy.Context.Laws.{path_key_eq-path_key}
use cageforge.Policy.Network.{
  DomainAccess, is_allow, NetworkMode, DomainMode, NetworkPolicy, DomainRule, UnixSocketRule,
  merge_rules, same_pattern, deny_domain, same_socket, deny_socket, normalized_network, with_domain,
  new_domain_rule,
}
use cageforge.Policy.Network.Merging.{any-merge_rules, any-denies-merge_rules}
use cageforge.Policy.NetworkDecision.{
  socket_access_loop, access_for_normalized_domain, decision_in_modes, decision_for_domain,
  decision_for_unix_socket,
}
use cageforge.Policy.NetworkDecision.Domains.{
  access_of, accepts, access_for_normalized_domain_lem, socket_access_loop_lem,
}

module _ ⦃g : GlobSet⦄ where
  -- The matcher of the rule is what its pattern compiles to.
  abbrev pub IsCompiled : DomainRule → Type 0
  IsCompiled rule = compile_domain_matcher rule.pattern ≡ ok rule.matcher

  same_matcher :
      (a b : DomainRule)
      → IsCompiled a
      → IsCompiled b
      → same_pattern a b ≡ true
      → a.matcher ≡ b.matcher
  same_matcher a b p q h =
      let patterns = ap compile_domain_matcher ((text_eq_iff a.pattern b.pattern).0 h) in cc

  new_domain_rule-IsCompiled :
      (raw : Text) (access : DomainAccess) (rule : DomainRule)
      → new_domain_rule raw access ≡ ok rule
      → IsCompiled rule
  unfolding new_domain_rule
  new_domain_rule-IsCompiled raw access rule h =
      elim (Result-cases (normalize_domain_pattern raw)) [
        | inl (pattern, eq) ↦ elim (Result-cases (compile_domain_matcher pattern)) [
          | inl (matcher, eq') ↦ ground arith
          | inr (e, eq') ↦ ground arith
        ]
        | inr (e, eq) ↦ ground arith
      ]

  -- A policy that `with_domain` extends has compiled rules only, where it had before.
  pub with_domain-IsCompiled :
      (policy after : NetworkPolicy) (pattern : Text) (access : DomainAccess)
      → with_domain policy pattern access ≡ ok after
      → All IsCompiled policy.domains
      → All IsCompiled after.domains
  unfolding with_domain
  with_domain-IsCompiled policy after pattern access h compiled =
      elim (Result-cases (new_domain_rule pattern access)) [
        | inl (rule, eq) ↦
            let domains : policy.domains ++ (rule ∷ []) ≡ after.domains = ground arith in
            subst (All IsCompiled) domains (
              All-append IsCompiled policy.domains (rule ∷ []) compiled
                (new_domain_rule-IsCompiled pattern access rule eq, tt))
        | inr (e, eq) ↦ ground arith
      ]

  decision_in_modes_cong :
      (mode : NetworkMode) (domain_mode : DomainMode) (a b : NetworkPolicy) (domain : Text)
      → access_for_normalized_domain a domain ≡ access_for_normalized_domain b domain
      → decision_in_modes mode domain_mode a domain ≡ decision_in_modes mode domain_mode b domain
  unfolding decision_in_modes
  decision_in_modes_cong mode domain_mode a b domain h = ground arith

  abbrev names : FilePath → UnixSocketRule → Bool
  names path rule = paths_equal path rule.path

  All-Unit : (rules : List UnixSocketRule) → All (λ _. Unit {0}) rules
  All-Unit [] = tt
  All-Unit (_ ∷ rules) = (tt, All-Unit rules)

  same_names :
      (path : FilePath) (a b : UnixSocketRule)
      → Unit {0}
      → Unit {0}
      → same_socket a b ≡ true
      → names path a ≡ names path b
  unfolding paths_equal
  same_names path a b _ _ h =
      let keys = sym (path_key_eq-path_key a.path b.path) ∙ h in
      ap (λ xs. equal_loop (plain_components path) xs) ((paths_equal_iff a.path b.path).0 keys)

  module _ (policy after : NetworkPolicy) (h : normalized_network policy ≡ ok after) where
    normalized_network-domains :
        after.domains ≡ merge_rules same_pattern (λ r. r.access) deny_domain [] policy.domains
    unfolding normalized_network
    normalized_network-domains = ground arith

    normalized_network-unix_sockets :
        after.unix_sockets
        ≡ merge_rules same_socket (λ r. r.access) deny_socket [] policy.unix_sockets
    unfolding normalized_network
    normalized_network-unix_sockets = ground arith

    normalized_network-modes :
        (after.mode ≡ policy.mode)
        × (after.domain_mode ≡ policy.domain_mode)
        × (after.unix_socket_mode ≡ policy.unix_socket_mode)
    unfolding normalized_network
    normalized_network-modes = ground arith

    access_for_normalized_domain-normalized :
        All IsCompiled policy.domains
        → (domain : Text)
        → access_for_normalized_domain after domain ≡ access_for_normalized_domain policy domain
    access_for_normalized_domain-normalized compiled domain =
        let hit_same =
          λ (a b : DomainRule) (p : IsCompiled a) (q : IsCompiled b) (e : same_pattern a b ≡ true).
            ap (λ m. matcher_accepts m domain) (same_matcher a b p q e) in
        let matched =
          any-merge_rules same_pattern (λ r. r.access) deny_domain IsCompiled (accepts domain)
            hit_same (λ a. refl) (λ a. refl) (λ a q. q) [] policy.domains tt compiled in
        let denied =
          any-denies-merge_rules same_pattern (λ r. r.access) deny_domain IsCompiled
            (accepts domain) hit_same (λ a. refl) (λ a. refl) (λ a q. q) [] policy.domains tt
            compiled in
        access_for_normalized_domain_lem after domain
        ∙ (λ i.
            access_of (any (accepts domain) (normalized_network-domains i)) (
              any (λ r. accepts domain r && not (is_allow r.access))
                (normalized_network-domains i)))
        ∙ (λ i. access_of (matched i) (denied i))
        ∙ sym (access_for_normalized_domain_lem policy domain)

    socket_access_loop-normalized :
        (path : FilePath)
        → socket_access_loop path none after.unix_sockets
          ≡ socket_access_loop path none policy.unix_sockets
    socket_access_loop-normalized path =
        let matched =
          any-merge_rules same_socket (λ r. r.access) deny_socket (λ _. Unit) (names path)
            (same_names path) (λ a. refl) (λ a. refl) (λ a q. q) [] policy.unix_sockets tt
            (All-Unit policy.unix_sockets) in
        let denied =
          any-denies-merge_rules same_socket (λ r. r.access) deny_socket (λ _. Unit) (names path)
            (same_names path) (λ a. refl) (λ a. refl) (λ a q. q) [] policy.unix_sockets tt
            (All-Unit policy.unix_sockets) in
        socket_access_loop_lem path none after.unix_sockets
        ∙ (λ i. access_of (any (names path) (normalized_network-unix_sockets i)) (
            any (λ r. names path r && not (is_allow r.access)) (normalized_network-unix_sockets i)))
        ∙ (λ i. access_of (matched i) (denied i))
        ∙ sym (socket_access_loop_lem path none policy.unix_sockets)

    -- The normal form of a policy decides every Unix socket as the policy does.
    pub decision_for_unix_socket-normalized :
        (path : FilePath)
        → decision_for_unix_socket after path ≡ decision_for_unix_socket policy path
    unfolding decision_for_unix_socket
    decision_for_unix_socket-normalized path =
        ground (arith, socket_access_loop-normalized path, normalized_network-modes)

    -- The normal form of a policy of compiled rules decides every domain as the policy does.
    pub decision_for_domain-normalized :
        ⦃t : CharTable⦄
        → All IsCompiled policy.domains
        → (raw : Text) → decision_for_domain after raw ≡ decision_for_domain policy raw
    unfolding decision_for_domain
    decision_for_domain-normalized compiled raw =
        let (mode, domain_mode, _) = normalized_network-modes in
        λ i. normalize_domain raw >>= λ domain. ok (
          ((λ j. decision_in_modes (mode j) (domain_mode j) after domain)
              ∙ decision_in_modes_cong policy.mode policy.domain_mode after policy domain
                  (access_for_normalized_domain-normalized compiled domain))
            i)
