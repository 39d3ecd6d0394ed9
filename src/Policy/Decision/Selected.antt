-- ===== src/Policy/Decision/Selected.antt =====
-- crates/cageforge-policy/src/filesystem.rs: `access_for`, the decision for a symbolic selector.
use cageforge.Base.{
  Bool, false, ◌||◌, ◌≡◌, ◌≢◌, ◌↔◌, refl, arith, List, [], ◌∷◌, All, Option, none, some,
  Option-cases, Result-cases, ok, ◌>>=◌, inl, inr,
}
use cageforge.Path.Components.{FilePath}
use cageforge.Policy.Access.{AccessMode, FilesystemDecision, from_access, mode_eq}
use cageforge.Policy.Selector.{PathSelector}
use cageforge.Policy.Context.{PathResolutionContext, resolve}
use cageforge.Policy.Glob.{GlobSet}
use cageforge.Policy.Rule.{RuleMatch, FilesystemRule, matches_path}
use cageforge.Policy.Filesystem.{FilesystemMode, FilesystemPolicy}
use cageforge.Policy.Decision.{
  settle, access_loop, better_match, decision_in_mode, access_for_path, is_protected_path,
  stricter_decision, resolved_loop, access_for,
}

stricter_decision-no_write :
    (a b : FilesystemDecision)
    → a ≢ FilesystemDecision.write
    → a ≢ FilesystemDecision.externally_enforced
    → (stricter_decision (some a) b ≢ FilesystemDecision.write)
      × (stricter_decision (some a) b ≢ FilesystemDecision.externally_enforced)
unfolding stricter_decision
stricter_decision-no_write a b h k = ground arith

settle-IsLocal :
    (is_protected : Bool) (best : Option RuleMatch) (writable_match : Bool)
    → settle is_protected best writable_match ≢ FilesystemDecision.externally_enforced
unfolding settle from_access mode_eq
settle-IsLocal p none w = ground arith
settle-IsLocal p (some b) w = ground arith

module _ ⦃g : GlobSet⦄ where
  access_loop-IsLocal :
      (path : FilePath) (context : PathResolutionContext) (is_protected : Bool)
      (rules : List FilesystemRule) (best : Option RuleMatch) (writable_match : Bool)
      → access_loop path context is_protected rules best writable_match
        ≢ FilesystemDecision.externally_enforced
  unfolding access_loop
  access_loop-IsLocal path context p [] best w = settle-IsLocal p best w
  access_loop-IsLocal path context p (rule ∷ rules) best w =
      elim (Option-cases (matches_path rule path context)) [
        | inl missed ↦ ground (arith, access_loop-IsLocal path context p rules best w)
        | inr (m, matched) ↦ ground (
          arith,
          access_loop-IsLocal path context p rules (some (better_match best m))
              (w || mode_eq m.access AccessMode.write),
        )
      ]

  module _ (policy : FilesystemPolicy) (context : PathResolutionContext)
      (restricted : policy.mode ≡ FilesystemMode.restricted) where
    access_for_path-IsLocal :
        (path : FilePath)
        → access_for_path policy path context ≢ ok FilesystemDecision.externally_enforced
    unfolding access_for_path decision_in_mode
    access_for_path-IsLocal path = ground (
      arith,
      restricted,
      access_loop-IsLocal path context (is_protected_path policy path) policy.entries none false,
    )

    abbrev CanWrite : FilePath → Type 0
    CanWrite path = access_for_path policy path context ≡ ok FilesystemDecision.write

    resolved_loop-no_write :
        (decision : FilesystemDecision) (paths : List FilePath)
        → decision ≢ FilesystemDecision.write
        → decision ≢ FilesystemDecision.externally_enforced
        → resolved_loop policy context (some decision) paths ≢ ok FilesystemDecision.write
    unfolding resolved_loop stricter_decision
    resolved_loop-no_write decision [] h k = ground arith
    resolved_loop-no_write decision (path ∷ paths) h k =
        elim (Result-cases (access_for_path policy path context)) [
          | inr (e, eq) ↦ ground arith
          | inl (d, eq) ↦
              let (writes, local) = stricter_decision-no_write decision d h k in
              rw eq
                (resolved_loop-no_write (stricter_decision (some decision) d) paths writes local)
        ]

    -- One round of the loop, from a result that leaves the decision of the path as it is.
    loop_step :
        (result : Option FilesystemDecision) (path : FilePath) (paths : List FilePath)
        (d : FilesystemDecision)
        → stricter_decision result d ≡ d
        → access_for_path policy path context ≡ ok d
        → (resolved_loop policy context (some FilesystemDecision.write) paths
            ≡ ok FilesystemDecision.write)
          ↔ All CanWrite paths
        → ((access_for_path policy path context >>= λ decision.
              resolved_loop policy context (some (stricter_decision result decision)) paths)
            ≡ ok FilesystemDecision.write)
          ↔ (CanWrite path × All CanWrite paths)
    loop_step result path paths FilesystemDecision.deny same eq h =
        ground (arith, resolved_loop-no_write FilesystemDecision.deny paths)
    loop_step result path paths FilesystemDecision.read same eq h =
        ground (arith, resolved_loop-no_write FilesystemDecision.read paths)
    loop_step result path paths FilesystemDecision.write same eq h = ground arith
    loop_step result path paths FilesystemDecision.externally_enforced same eq h =
        absurd (access_for_path-IsLocal path eq)

    resolved_loop-eq-write_iff :
        (paths : List FilePath)
        → (resolved_loop policy context (some FilesystemDecision.write) paths
            ≡ ok FilesystemDecision.write)
          ↔ All CanWrite paths
    unfolding resolved_loop stricter_decision
    resolved_loop-eq-write_iff [] = (λ _. tt, λ _. refl)
    resolved_loop-eq-write_iff (path ∷ paths) =
        elim (Result-cases (access_for_path policy path context)) [
          | inr (e, eq) ↦ ground arith
          | inl (d, eq) ↦
              loop_step (some FilesystemDecision.write) path paths d
                (ground (arith, eq, access_for_path-IsLocal path)) eq
                (resolved_loop-eq-write_iff paths)
        ]

    first_loop-eq-write_iff :
        (paths : List FilePath)
        → (resolved_loop policy context none paths ≡ ok FilesystemDecision.write)
          ↔ ((paths ≢ []) × All CanWrite paths)
    unfolding resolved_loop stricter_decision
    first_loop-eq-write_iff [] = ground arith
    first_loop-eq-write_iff (path ∷ paths) =
        elim (Result-cases (access_for_path policy path context)) [
          | inr (e, eq) ↦ ground arith
          | inl (d, eq) ↦ ground (
            arith,
            loop_step none path paths d (ground (arith, eq, access_for_path-IsLocal path)) eq
                (resolved_loop-eq-write_iff paths),
          )
        ]

    -- A restricted policy lets a selector be written exactly when the selector resolves to some
    -- path and the policy lets every path that it resolves to be written.
    pub access_for-eq-write_iff :
        (selector : PathSelector)
        → (access_for policy selector context ≡ ok FilesystemDecision.write) ↔ (
            (resolve selector context ≢ [])
            × All
                (λ path. access_for_path policy path context ≡ ok FilesystemDecision.write)
                (resolve selector context))
    unfolding access_for resolved_loop stricter_decision
    access_for-eq-write_iff selector =
        ground (arith, first_loop-eq-write_iff (resolve selector context))
