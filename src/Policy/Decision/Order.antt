-- ===== src/Policy/Decision/Order.antt =====
-- The decision of a restricted policy, read from the matches of its rules alone, and that the
-- order of the rules does not matter.
use cageforge.Base.{
  Bool, true, false, ◌&&◌, ◌||◌, Option, none, some, List, [], ◌∷◌, if◌then◌else◌, ◌≡◌, refl, ap,
  sym, ◌∙◌, arith, Option-cases, Bool-cases, inl, inr, ◌>>◌, ok,
}
use mathlib.Core.List.{filter_map, filter_map-cons-none, filter_map-cons-some, Permᴰ, Perm}
use mathlib.Core.Logic.{∥∥₁_elim}
use mathlib.Core.List.Perm
use cageforge.Path.Components.{FilePath}
use cageforge.Policy.Access.{AccessMode, mode_eq, most_restrictive, FilesystemDecision, from_access}
use cageforge.Policy.Access.Laws.{mode_eq_iff, most_restrictive_comm, most_restrictive_assoc}
use cageforge.Policy.Context.{PathResolutionContext}
use cageforge.Policy.Glob.{GlobSet}
use cageforge.Policy.Rule.{RuleMatch, FilesystemRule, matches_path}
use cageforge.Policy.Decision.{
  better_match, matched_access, settle, access_loop, decision_in_mode, check_query, access_for_path,
  is_protected_path,
}
use cageforge.Policy.Filesystem.{FilesystemMode, FilesystemPolicy}

-- The better of two matches, the first of them tried before the second.
abbrev join_match : RuleMatch → RuleMatch → RuleMatch
join_match a b = better_match (some a) b

join_match_comm : (a b : RuleMatch) → join_match a b ≡ join_match b a
unfolding better_match
join_match_comm a b = ground (arith, most_restrictive_comm a.access b.access)

join_match_swap :
    (m a b : RuleMatch) → join_match (join_match m a) b ≡ join_match (join_match m b) a
unfolding better_match
join_match_swap m a b = ground (
  arith,
  most_restrictive_comm a.access b.access,
  most_restrictive_assoc m.access a.access b.access,
  most_restrictive_assoc m.access b.access a.access,
)

better_match_swap :
    (best : Option RuleMatch) (a b : RuleMatch)
    → better_match (some (better_match best a)) b ≡ better_match (some (better_match best b)) a
better_match_swap none a b = unfold better_match in join_match_comm a b
better_match_swap (some m) a b = join_match_swap m a b

-- The decision for a path from the matches of the rules with it, in their order.
unfoldable pub verdict : Bool → Option RuleMatch → List RuleMatch → FilesystemDecision
verdict is_protected best [] =
    if mode_eq (matched_access best) AccessMode.write && is_protected
    then FilesystemDecision.read
    else from_access (matched_access best)
verdict is_protected best (m ∷ ms) =
    let rest = verdict is_protected (some (better_match best m)) ms in
    if mode_eq m.access AccessMode.deny then FilesystemDecision.deny else rest

-- The best match so far grants writing only if a writable match has been seen.
abbrev HasSeen : Option RuleMatch → Bool → Type 0
HasSeen best writable_match = matched_access best ≡ AccessMode.write → writable_match ≡ true

HasSeen-step :
    (best : Option RuleMatch) (w : Bool) (m : RuleMatch)
    → HasSeen best w
    → HasSeen (some (better_match best m)) (w || mode_eq m.access AccessMode.write)
unfolding better_match mode_eq most_restrictive
HasSeen-step none w m h e = ground arith
HasSeen-step (some b) w m h e = ground (arith, h)

settle-eq-verdict :
    (is_protected : Bool) (best : Option RuleMatch) (w : Bool)
    → HasSeen best w
    → settle is_protected best w ≡ verdict is_protected best []
unfolding settle verdict
settle-eq-verdict p best w h = elim (Bool-cases (mode_eq (matched_access best) AccessMode.write)) [
  | inl writes ↦ rw (h ((mode_eq_iff _ _).0 writes))
  | inr other ↦ rw other (ground arith)
]

pub verdict_cons :
    (is_protected : Bool) (best : Option RuleMatch) (m : RuleMatch) (ms : List RuleMatch)
    → verdict is_protected best (m ∷ ms) ≡ (
        if mode_eq m.access AccessMode.deny
        then FilesystemDecision.deny
        else verdict is_protected (some (better_match best m)) ms)
unfolding verdict
verdict_cons p best m ms = refl

verdict_swap :
    (is_protected : Bool) (best : Option RuleMatch) (a b : RuleMatch) (ms : List RuleMatch)
    → verdict is_protected best (a ∷ b ∷ ms) ≡ verdict is_protected best (b ∷ a ∷ ms)
verdict_swap p best a b ms = ground (
  arith,
  verdict_cons p best a (b ∷ ms),
  verdict_cons p (some (better_match best a)) b ms,
  verdict_cons p best b (a ∷ ms),
  verdict_cons p (some (better_match best b)) a ms,
  ap (λ x. verdict p (some x) ms) (better_match_swap best a b),
)

module _ ⦃g : GlobSet⦄ where
  abbrev pub matches : List FilesystemRule → FilePath → PathResolutionContext → List RuleMatch
  matches rules path context = filter_map (λ rule. matches_path rule path context) rules

  access_loop-eq-verdict :
      (path : FilePath) (context : PathResolutionContext) (is_protected : Bool)
      (rules : List FilesystemRule) (best : Option RuleMatch) (writable_match : Bool)
      → HasSeen best writable_match
      → access_loop path context is_protected rules best writable_match
        ≡ verdict is_protected best (matches rules path context)
  unfolding access_loop verdict
  access_loop-eq-verdict path context p [] best w h =
      unfold filter_map in settle-eq-verdict p best w h
  access_loop-eq-verdict path context p (rule ∷ rules) best w h =
      elim (Option-cases (matches_path rule path context)) [
        | inl missed ↦
            rw (missed, access_loop)
              (rw (filter_map-cons-none _ rule rules missed)
                (access_loop-eq-verdict path context p rules best w h))
        | inr (m, matched) ↦
            rw (matched, access_loop)
              (rw (filter_map-cons-some _ rule rules matched) (
                ground (
                  arith,
                  access_loop-eq-verdict path context p rules (some (better_match best m))
                      (w || mode_eq m.access AccessMode.write) (HasSeen-step best w m h),
                )))
      ]

pub verdict_perm :
    (is_protected : Bool) (best : Option RuleMatch) {xs ys : List RuleMatch}
    → Permᴰ xs ys
    → verdict is_protected best xs ≡ verdict is_protected best ys
verdict_perm p best Permᴰ.nil = refl
verdict_perm p best (Permᴰ.cons {a} {b} {l₁} {l₂} e r) = rw e (
    ground (
      arith,
      verdict_cons p best b l₁,
      verdict_cons p best b l₂,
      verdict_perm p (some (better_match best b)) r,
    ))
verdict_perm p best (Permᴰ.swap {a} {b} {a'} {b'} {l} e f) =
    rw e (rw f (verdict_swap p best b' a' l))
verdict_perm p best (Permᴰ.trans r s) = verdict_perm p best r ∙ verdict_perm p best s

FilesystemDecision-set : IsSet FilesystemDecision
FilesystemDecision-set = hlevel

module _ ⦃g : GlobSet⦄ where
  -- What a restricted policy decides of a path that passes the tests in front of the loop.
  pub access_loop_lem :
      (path : FilePath) (context : PathResolutionContext) (is_protected : Bool)
      (rules : List FilesystemRule)
      → access_loop path context is_protected rules none false
        ≡ verdict is_protected none (matches rules path context)
  access_loop_lem path context p rules =
      access_loop-eq-verdict path context p rules none false (λ e. absurd (cc))

  access_loop_perm :
      (path : FilePath) (context : PathResolutionContext) (is_protected : Bool)
      (xs ys : List FilesystemRule)
      → Perm xs ys
      → access_loop path context is_protected xs none false
        ≡ access_loop path context is_protected ys none false
  access_loop_perm path context p xs ys r =
      access_loop_lem path context p xs
      ∙ ∥∥₁_elim (Perm.filter_map (λ rule. matches_path rule path context) r)
          (FilesystemDecision-set _ _) (verdict_perm p none)
      ∙ sym (access_loop_lem path context p ys)

  decision_in_mode_perm :
      (mode : FilesystemMode) (policy : FilesystemPolicy) (rules : List FilesystemRule)
      (path : FilePath) (context : PathResolutionContext)
      → Perm policy.entries rules
      → decision_in_mode mode policy path context
        ≡ decision_in_mode mode (record policy { entries = rules }) path context
  unfolding decision_in_mode
  decision_in_mode_perm FilesystemMode.unrestricted policy rules path context r = refl
  decision_in_mode_perm FilesystemMode.external policy rules path context r = refl
  decision_in_mode_perm FilesystemMode.restricted policy rules path context r =
      access_loop_perm path context (is_protected_path policy path) policy.entries rules r

  -- Policies whose rules are the same up to their order decide alike, whatever the path.
  pub access_for_path_perm :
      (policy : FilesystemPolicy) (rules : List FilesystemRule) (path : FilePath)
      (context : PathResolutionContext)
      → Perm policy.entries rules
      → access_for_path policy path context
        ≡ access_for_path (record policy { entries = rules }) path context
  unfolding access_for_path
  access_for_path_perm policy rules path context r =
      ap (λ d. check_query path >> ok d)
        (decision_in_mode_perm policy.mode policy rules path context r)

  pub matches_perm :
      (path : FilePath) (context : PathResolutionContext) (is_protected : Bool)
      (best : Option RuleMatch) (xs ys : List FilesystemRule)
      → Perm xs ys
      → verdict is_protected best (matches xs path context)
        ≡ verdict is_protected best (matches ys path context)
  matches_perm path context p best xs ys r =
      ∥∥₁_elim (Perm.filter_map (λ rule. matches_path rule path context) r)
        (FilesystemDecision-set _ _) (verdict_perm p best)
