-- ===== src/Policy/Network/Endpoints.antt =====
-- crates/cageforge-policy/src/network.rs: the endpoints of the local rules of a policy.
use cageforge.Base.{
  false, ◌≡◌, refl, sym, arith, List, [], ◌∷◌, ◌++◌, any, any-append, Option, none, some, ok, subst,
}
use cageforge.Path.Components.{FilePath}
use cageforge.Policy.Glob.{GlobSet}
use cageforge.Policy.LocalIpc.{LocalIpcEndpoint, endpoint_eq, unix_path}
use cageforge.Policy.Network.{
  DomainAccess, LocalIpcRule, NetworkPolicy, new_local_ipc_rule, open_for_unix, with_local_ipc,
}

-- No rule names the endpoint of an earlier one.
abbrev pub IsUnrepeated : List LocalIpcRule → Type 0
IsUnrepeated [] = Unit
IsUnrepeated (rule ∷ rules) =
    (any (λ (r : LocalIpcRule). endpoint_eq rule.endpoint r.endpoint) rules ≡ false)
    × IsUnrepeated rules

IsUnrepeated-append :
    (rules : List LocalIpcRule) (rule : LocalIpcRule)
    → IsUnrepeated rules
    → any (λ (r : LocalIpcRule). endpoint_eq r.endpoint rule.endpoint) rules ≡ false
    → IsUnrepeated (rules ++ (rule ∷ []))
IsUnrepeated-append [] rule h k = (refl, tt)
IsUnrepeated-append (r ∷ rules) rule (p, h) k = (
  ground (
    arith,
    any-append (λ (x : LocalIpcRule). endpoint_eq r.endpoint x.endpoint) rules (rule ∷ []),
  ),
  IsUnrepeated-append rules rule h (ground arith),
)

module _ ⦃g : GlobSet⦄ where
  open_for_unix-local_ipc :
      (policy : NetworkPolicy) (access : DomainAccess) (path : Option FilePath)
      → (open_for_unix policy access path).local_ipc ≡ policy.local_ipc
  unfolding open_for_unix
  open_for_unix-local_ipc policy access none = refl
  open_for_unix-local_ipc policy access (some path) = refl

  -- Where a local rule is accepted, the rules of the policy name no endpoint twice if they named
  -- none twice before, and the last of them is the rule for the new endpoint.
  pub with_local_ipc-IsUnrepeated :
      (policy after : NetworkPolicy) (endpoint : LocalIpcEndpoint) (access : DomainAccess)
      → with_local_ipc policy endpoint access ≡ ok after
      → IsUnrepeated policy.local_ipc
      → IsUnrepeated after.local_ipc
        × (after.local_ipc
            ≡ policy.local_ipc ++ (record { endpoint = endpoint; access = access } ∷ []))
  unfolding with_local_ipc new_local_ipc_rule
  with_local_ipc-IsUnrepeated policy after endpoint access h unrepeated =
      let rule : LocalIpcRule = record { endpoint = endpoint; access = access } in
      let same : policy.local_ipc ++ (rule ∷ []) ≡ after.local_ipc =
        ground (arith, open_for_unix-local_ipc policy access (unix_path endpoint)) in
      let new : any (λ (r : LocalIpcRule). endpoint_eq r.endpoint endpoint) policy.local_ipc
          ≡ false =
        ground arith in
      (subst IsUnrepeated same (IsUnrepeated-append policy.local_ipc rule unrepeated new), sym same)
