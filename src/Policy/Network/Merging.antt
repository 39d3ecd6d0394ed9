-- ===== src/Policy/Network/Merging.antt =====
-- crates/cageforge-policy/src/network.rs: what the loops of `normalized` keep of a list of rules.
use cageforge.Base.{Bool, true, ◌&&◌, ◌||◌, not, ◌≡◌, List, [], ◌∷◌, any, All, arith, if_elim}
use cageforge.Policy.Network.{DomainAccess, is_allow, merge_access, merge_rules}

-- A test of a rule that reads of it what two rules of one key share.
module _ {R : Type 0} (same : R → R → Bool) (access : R → DomainAccess) (denied : R → R)
    (Q : R → Type 0) (hit : R → Bool)
    (hit_same : (a b : R) → Q a → Q b → same a b ≡ true → hit a ≡ hit b)
    (hit_denied : (a : R) → hit (denied a) ≡ hit a)
    (access_denied : (a : R) → access (denied a) ≡ DomainAccess.deny)
    (Q_denied : (a : R) → Q a → Q (denied a)) where
  abbrev denies : R → Bool
  denies rule = hit rule && not (is_allow (access rule))

  merge_access-Q :
      (rules : List R) (rule : R)
      → All Q rules
      → Q rule
      → All Q (merge_access same access denied rules rule)
  unfolding merge_access
  merge_access-Q [] rule h q = (q, tt)
  merge_access-Q (a ∷ rules) rule (p, h) q =
      if_elim (All Q) (same a rule)
        (λ _. (if_elim Q (is_allow (access rule)) (λ _. p) (λ _. Q_denied a p), h))
        (λ _. (p, merge_access-Q rules rule h q))

  any-merge_access :
      (rules : List R) (rule : R)
      → All Q rules
      → Q rule
      → any hit (merge_access same access denied rules rule) ≡ (any hit rules || hit rule)
  unfolding merge_access
  any-merge_access [] rule h q = ground arith
  any-merge_access (a ∷ rules) rule (p, h) q =
      ground (arith, hit_same a rule p q, hit_denied a, any-merge_access rules rule h q)

  any-denies-merge_access :
      (rules : List R) (rule : R)
      → All Q rules
      → Q rule
      → any denies (merge_access same access denied rules rule) ≡ (any denies rules || denies rule)
  unfolding merge_access
  any-denies-merge_access [] rule h q = ground arith
  any-denies-merge_access (a ∷ rules) rule (p, h) q = ground (
    arith,
    hit_same a rule p q,
    hit_denied a,
    access_denied a,
    any-denies-merge_access rules rule h q,
  )

  pub any-merge_rules :
      (merged rules : List R)
      → All Q merged
      → All Q rules
      → any hit (merge_rules same access denied merged rules) ≡ (any hit merged || any hit rules)
  unfolding merge_rules
  any-merge_rules merged [] h k = ground arith
  any-merge_rules merged (rule ∷ rules) h (q, k) = ground (
    arith,
    any-merge_access merged rule h q,
    any-merge_rules (merge_access same access denied merged rule) rules
        (merge_access-Q merged rule h q) k,
  )

  pub any-denies-merge_rules :
      (merged rules : List R)
      → All Q merged
      → All Q rules
      → any denies (merge_rules same access denied merged rules)
        ≡ (any denies merged || any denies rules)
  unfolding merge_rules
  any-denies-merge_rules merged [] h k = ground arith
  any-denies-merge_rules merged (rule ∷ rules) h (q, k) = ground (
    arith,
    any-denies-merge_access merged rule h q,
    any-denies-merge_rules (merge_access same access denied merged rule) rules
        (merge_access-Q merged rule h q) k,
  )
