-- ===== src/Policy/Decision/Normal.antt =====
-- `FilesystemPolicy::normalized` keeps every decision of a policy whose rules have no read-only
-- subpaths.
use mathlib.Core.List.{filter_map-cons-none, filter_map-cons-some, perm_middle}
use mathlib.Core.List.Perm
use cageforge.Base.{
  ℕ, Bool, true, ◌||◌, Option, none, some, List, [], ◌∷◌, ◌++◌, ◌≡◌, refl, ap, ap₂, sym, ◌∙◌, arith,
  Option-cases, Bool-cases, inl, inr, ◌>>◌, ok, All, >>=-eq-ok, append-nil,
}
use cageforge.Path.Components.{FilePath}
use cageforge.Policy.Access.{AccessMode, mode_eq, most_restrictive, FilesystemDecision}
use cageforge.Policy.Access.Laws.{most_restrictive_assoc}
use cageforge.Policy.Context.{PathResolutionContext}
use cageforge.Policy.Glob.{GlobSet}
use cageforge.Policy.Rule.{
  RuleMatch, FilesystemRule, matches_path, target_match, target_keys_equal, carve_out,
}
use cageforge.Policy.Rule.Laws.{IsBuilt, target_match_eq}
use cageforge.Policy.Filesystem.{
  FilesystemMode, FilesystemPolicy, merge_rule, merge_into, merge_entries, normalized, add_subpaths,
  validate, is_restricted,
}
use cageforge.Policy.Decision.{
  better_match, decision_in_mode, check_query, access_for_path, is_protected_path,
}
use cageforge.Policy.Decision.Order.{verdict, verdict_cons, matches, matches_perm, access_loop_lem}

abbrev same_level : ℕ → AccessMode → RuleMatch
same_level n a = record { specificity = n; access = a }

better_match_merge :
    (best : Option RuleMatch) (n : ℕ) (a b : AccessMode)
    → better_match (some (better_match best (same_level n a))) (same_level n b)
      ≡ better_match best (same_level n (most_restrictive a b))
unfolding better_match
better_match_merge none n a b = ground arith
better_match_merge (some m) n a b = ground (arith, most_restrictive_assoc m.access a b)

deny_merge :
    (a b : AccessMode)
    → mode_eq (most_restrictive a b) AccessMode.deny
      ≡ (mode_eq a AccessMode.deny || mode_eq b AccessMode.deny)
unfolding mode_eq most_restrictive
deny_merge a b = ground arith

verdict_merge :
    (p : Bool) (best : Option RuleMatch) (n : ℕ) (a b : AccessMode) (ms : List RuleMatch)
    → verdict p best (same_level n (most_restrictive a b) ∷ ms)
      ≡ verdict p best (same_level n a ∷ same_level n b ∷ ms)
verdict_merge p best n a b ms = ground (
  arith,
  verdict_cons p best (same_level n (most_restrictive a b)) ms,
  verdict_cons p best (same_level n a) (same_level n b ∷ ms),
  verdict_cons p (some (better_match best (same_level n a))) (same_level n b) ms,
  deny_merge a b,
  ap (λ x. verdict p (some x) ms) (better_match_merge best n a b),
)

module _ ⦃g : GlobSet⦄ where
  -- A rule as built by the crate, with no read-only subpath.
  abbrev pub IsUncarved : FilesystemRule → Type 0
  IsUncarved rule = (rule.read_only_subpaths ≡ []) × IsBuilt rule.target

  merge_rule_bare :
      (a b : FilesystemRule)
      → a.read_only_subpaths ≡ []
      → b.read_only_subpaths ≡ []
      → (merge_rule a b).read_only_subpaths ≡ []
  unfolding merge_rule
  merge_rule_bare a b h k =
      let none_added : add_subpaths a.read_only_subpaths b.read_only_subpaths ≡ [] =
        ap₂ add_subpaths h k ∙ unfold add_subpaths in refl in
      ground (arith, none_added)

  merge_rule-IsUncarved :
      (a b : FilesystemRule) → IsUncarved a → IsUncarved b → IsUncarved (merge_rule a b)
  merge_rule-IsUncarved a b (h, built) (k, _) =
      (merge_rule_bare a b h k, unfold merge_rule in built)

  merge_into-IsUncarved :
      (entries : List FilesystemRule) (rule : FilesystemRule)
      → All IsUncarved entries
      → IsUncarved rule
      → All IsUncarved (merge_into entries rule)
  unfolding merge_into
  merge_into-IsUncarved [] rule h k = (k, tt)
  merge_into-IsUncarved (e ∷ entries) rule (he, h) k =
      elim (Bool-cases (target_keys_equal e.target rule.target)) [
        | inl same ↦ rw same (merge_rule-IsUncarved e rule he k, h)
        | inr other ↦ rw other (he, merge_into-IsUncarved entries rule h k)
      ]

  module _ (path : FilePath) (context : PathResolutionContext) where
    unmatched :
        (rule : FilesystemRule)
        → target_match rule.target path context ≡ none
        → matches_path rule path context ≡ none
    unfolding matches_path
    unmatched rule h = rw (h, matches_path)

    matched_uncarved :
        (rule : FilesystemRule) (n : ℕ)
        → rule.read_only_subpaths ≡ []
        → target_match rule.target path context ≡ some n
        → matches_path rule path context ≡ some (same_level n rule.access)
    matched_uncarved rule n h k =
        let whole : carve_out rule.read_only_subpaths path context (same_level n rule.access)
            ≡ same_level n rule.access =
          rw h (unfold carve_out in refl) in
        unfold matches_path in rw (k, matches_path) (ground (arith, whole))

    abbrev decides : Bool → Option RuleMatch → List FilesystemRule → FilesystemDecision
    decides p best rules = verdict p best (matches rules path context)

    decides-none :
        (p : Bool) (best : Option RuleMatch) (rule : FilesystemRule) (rules : List FilesystemRule)
        → matches_path rule path context ≡ none
        → decides p best (rule ∷ rules) ≡ decides p best rules
    decides-none p best rule rules h = ap (verdict p best) (filter_map-cons-none _ rule rules h)

    decides-some :
        (p : Bool) (best : Option RuleMatch) (rule : FilesystemRule) (rules : List FilesystemRule)
        (m : RuleMatch)
        → matches_path rule path context ≡ some m
        → decides p best (rule ∷ rules) ≡ verdict p best (m ∷ matches rules path context)
    decides-some p best rule rules m h = ap (verdict p best) (filter_map-cons-some _ rule rules h)

    decides_cong :
        (p : Bool) (rule : FilesystemRule) (xs ys : List FilesystemRule)
        → ((best : Option RuleMatch) → decides p best xs ≡ decides p best ys)
        → (best : Option RuleMatch) → decides p best (rule ∷ xs) ≡ decides p best (rule ∷ ys)
    decides_cong p rule xs ys ih best = elim (Option-cases (matches_path rule path context)) [
      | inl missed ↦
          decides-none p best rule xs missed ∙ ih best ∙ sym (decides-none p best rule ys missed)
      | inr (m, matched) ↦
          decides-some p best rule xs m matched
          ∙ ground (
            arith,
            verdict_cons p best m (matches xs path context),
            verdict_cons p best m (matches ys path context),
            ih (some (better_match best m)),
          )
          ∙ sym (decides-some p best rule ys m matched)
    ]

    decides-merge_rule :
        (p : Bool) (best : Option RuleMatch) (a b : FilesystemRule) (rules : List FilesystemRule)
        → IsUncarved a
        → IsUncarved b
        → target_keys_equal a.target b.target ≡ true
        → decides p best (merge_rule a b ∷ rules) ≡ decides p best (a ∷ b ∷ rules)
    decides-merge_rule p best a b rules (bare_a, built_a) (bare_b, built_b) h =
        let same = target_match_eq a.target b.target path context built_a built_b h in
        elim (Option-cases (target_match a.target path context)) [
          | inl missed ↦
              decides-none p best (merge_rule a b) rules
                (unmatched (merge_rule a b) (unfold merge_rule in missed))
              ∙ sym (decides-none p best b rules (unmatched b (sym same ∙ missed)))
              ∙ sym (decides-none p best a (b ∷ rules) (unmatched a missed))
          | inr (n, matched) ↦
              let ms = matches rules path context in
              let match_a = matched_uncarved a n bare_a matched in
              let match_b = matched_uncarved b n bare_b (sym same ∙ matched) in
              let match_ab =
                matched_uncarved (merge_rule a b) n (merge_rule_bare a b bare_a bare_b)
                  (unfold merge_rule in matched) in
              decides-some p best (merge_rule a b) rules _ match_ab
              ∙ unfold merge_rule in
                verdict_merge p best n a.access b.access ms
                ∙ sym (
                    ap (λ x. verdict p best (same_level n a.access ∷ x))
                      (filter_map-cons-some _ b rules match_b))
                ∙ sym (decides-some p best a (b ∷ rules) _ match_a)
        ]

    decides-merge_into :
        (p : Bool) (entries : List FilesystemRule) (rule : FilesystemRule)
        → All IsUncarved entries
        → IsUncarved rule
        → (best : Option RuleMatch)
        → decides p best (merge_into entries rule) ≡ decides p best (rule ∷ entries)
    decides-merge_into p [] rule h k best = unfold merge_into in refl
    decides-merge_into p (e ∷ entries) rule (he, h) k best =
        let swapped : decides p best (e ∷ rule ∷ entries) ≡ decides p best (rule ∷ e ∷ entries) =
          matches_perm path context p best _ _ (Perm.swap rule e entries) in
        elim (Bool-cases (target_keys_equal e.target rule.target)) [
          | inl same ↦
              let step : merge_into (e ∷ entries) rule ≡ merge_rule e rule ∷ entries =
                unfold merge_into in rw same in
              ap (decides p best) step
              ∙ decides-merge_rule p best e rule entries he k same
              ∙ swapped
          | inr other ↦
              let step : merge_into (e ∷ entries) rule ≡ e ∷ merge_into entries rule =
                unfold merge_into in rw other in
              ap (decides p best) step
              ∙ decides_cong p e _ _ (decides-merge_into p entries rule h k) best
              ∙ swapped
        ]

    decides_prefix :
        (p : Bool) (rules xs ys : List FilesystemRule)
        → ((best : Option RuleMatch) → decides p best xs ≡ decides p best ys)
        → (best : Option RuleMatch) → decides p best (rules ++ xs) ≡ decides p best (rules ++ ys)
    decides_prefix p [] xs ys h best = h best
    decides_prefix p (rule ∷ rules) xs ys h best =
        decides_cong p rule (rules ++ xs) (rules ++ ys) (decides_prefix p rules xs ys h) best

    decides-merge_entries :
        (p : Bool) (entries rules : List FilesystemRule)
        → All IsUncarved entries
        → All IsUncarved rules
        → (best : Option RuleMatch)
        → decides p best (merge_entries entries rules) ≡ decides p best (rules ++ entries)
    decides-merge_entries p entries [] h k best = unfold merge_entries in refl
    decides-merge_entries p entries (rule ∷ rules) h (kr, k) best =
        let step : merge_entries entries (rule ∷ rules)
            ≡ merge_entries (merge_into entries rule) rules =
          unfold merge_entries in refl in
        ap (decides p best) step
        ∙ decides-merge_entries p (merge_into entries rule) rules
            (merge_into-IsUncarved entries rule h kr) k best
        ∙ decides_prefix p rules _ _ (decides-merge_into p entries rule h kr) best
        ∙ matches_perm path context p best _ _ (perm_middle rules entries)

  normalized_mode :
      (policy : FilesystemPolicy) (mode : FilesystemMode) (path : FilePath)
      (context : PathResolutionContext)
      → All IsUncarved policy.entries
      → decision_in_mode mode
          (record policy { entries = merge_entries [] policy.entries })
          path
          context
        ≡ decision_in_mode mode policy path context
  unfolding decision_in_mode
  normalized_mode policy FilesystemMode.unrestricted path context h = refl
  normalized_mode policy FilesystemMode.external path context h = refl
  normalized_mode policy FilesystemMode.restricted path context h =
      let p = is_protected_path policy path in
      access_loop_lem path context p (merge_entries [] policy.entries)
      ∙ decides-merge_entries path context p [] policy.entries tt h none
      ∙ ap (λ rules. verdict p none (matches rules path context)) (append-nil policy.entries)
      ∙ sym (access_loop_lem path context p policy.entries)

  -- For rules that the crate built, none of them with a read-only subpath, the normalised policy
  -- answers every query as the policy does.
  pub access_for_path-normalized :
      (policy q : FilesystemPolicy) (path : FilePath) (context : PathResolutionContext)
      → normalized policy ≡ ok q
      → All IsUncarved policy.entries
      → access_for_path q path context ≡ access_for_path policy path context
  unfolding normalized access_for_path
  access_for_path-normalized policy q path context h bare =
      let (_, valid, e) = >>=-eq-ok (validate policy) _ h in
      elim (Bool-cases (is_restricted policy.mode)) [
        | inl yes_restricted ↦
            let same : record policy { entries = merge_entries [] policy.entries } ≡ q =
              ground arith in
            rw (← same) (
              ap (λ d. check_query path >> ok d)
                (normalized_mode policy policy.mode path context bare))
        | inr open_mode ↦ let same : policy ≡ q = ground arith in rw (← same)
      ]
