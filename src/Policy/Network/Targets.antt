-- ===== src/Policy/Network/Targets.antt =====
-- crates/cageforge-policy/src/network.rs: the addresses that a resolved target holds.
use cageforge.Base.{
  Bool, true, ◌||◌, ◌≡◌, arith, List, [], ◌∷◌, ◌++◌, any, any-append, Option, Text, Result-cases,
  ok, inl, inr, Bool-cases, subst,
}
use cageforge.Policy.Address.{IpAddr, SocketAddr, socket_eq, socket_eq_iff}
use cageforge.Policy.Host.{CharTable, parse_ip_literal}
use cageforge.Policy.Domain.{normalize_domain}
use cageforge.Policy.Network.{ResolvedNetworkTarget, unique_addresses, new_target, contains_address}

abbrev holds : SocketAddr → List SocketAddr → Bool
holds address addresses = any (λ known. socket_eq known address) addresses

-- An address that equals one of the list is one of the list.
holds_trans :
    (known address : SocketAddr) (unique : List SocketAddr)
    → holds known unique ≡ true
    → socket_eq known address ≡ true
    → holds address unique ≡ true
holds_trans known address unique h e =
    subst (λ a. holds a unique ≡ true) ((socket_eq_iff known address).0 e) h

holds-unique_addresses :
    (domain : Text) (literal : Option IpAddr) (unique addresses result : List SocketAddr)
    (address : SocketAddr)
    → unique_addresses domain literal unique addresses ≡ ok result
    → holds address result ≡ (holds address unique || holds address addresses)
unfolding unique_addresses
holds-unique_addresses domain literal unique [] result address h = ground arith
holds-unique_addresses domain literal unique (known ∷ addresses) result address h =
    elim (Bool-cases (holds known unique)) [
      | inl old ↦ ground (
        arith,
        holds_trans known address unique old,
        holds-unique_addresses domain literal unique addresses result address,
      )
      | inr new ↦ ground (
        arith,
        any-append (λ a. socket_eq a address) unique (known ∷ []),
        holds-unique_addresses domain literal (unique ++ (known ∷ [])) addresses result address,
      )
    ]

module _ ⦃t : CharTable⦄ where
  -- A target that is accepted contains an address exactly when it was given the address.
  pub contains_address-new_target :
      (raw : Text) (addresses : List SocketAddr) (target : ResolvedNetworkTarget)
      (address : SocketAddr)
      → new_target raw addresses ≡ ok target
      → contains_address target address ≡ any (λ known. socket_eq known address) addresses
  unfolding new_target contains_address
  contains_address-new_target raw addresses target address h =
      elim (Result-cases (normalize_domain raw)) [
        | inr (e, eq) ↦ ground arith
        | inl (domain, eq) ↦
            elim (Result-cases (unique_addresses domain (parse_ip_literal domain) [] addresses)) [
              | inr (e, eq') ↦ ground arith
              | inl (unique, eq') ↦
                  let same : unique ≡ target.addresses = ground arith in
                  subst (λ l. holds address l ≡ holds address addresses) same
                    (holds-unique_addresses domain (parse_ip_literal domain) [] addresses unique
                      address eq')
            ]
      ]
