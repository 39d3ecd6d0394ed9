-- ===== src/Policy/Sandbox/Presets.antt =====
-- crates/cageforge-policy/src/policy.rs: what the presets allow, and the normal form of a policy.
use cageforge.Base.{
  ok, List, [], ◌∷◌, ◌≡◌, ◌≢◌, Bool, false, All, arith, inl, inr, Text, Option, some, none,
  Option-cases, ◌||◌,
}
use cageforge.Path.Components.{FilePath}
use cageforge.Policy.Access.{AccessMode, FilesystemDecision, most_restrictive, mode_eq, from_access}
use cageforge.Policy.Context.{PathResolutionContext}
use cageforge.Policy.Glob.{GlobSet}
use cageforge.Policy.Host.{CharTable}
use cageforge.Policy.Rule.{RuleMatch, FilesystemRule, matches_path, target_match}
use cageforge.Policy.Filesystem.{FilesystemMode, FilesystemPolicy, normalized}
use cageforge.Policy.Network.{normalized_network}
use cageforge.Policy.Decision.{
  access_for_path, is_protected_path, access_loop, settle, better_match, matched_access,
  decision_in_mode,
}
use cageforge.Policy.Decision.Normal.{access_for_path-normalized, IsUncarved}
use cageforge.Policy.NetworkDecision.{decision_for_domain, decision_for_unix_socket}
use cageforge.Policy.NetworkDecision.Normal.{
  IsCompiled, decision_for_domain-normalized, decision_for_unix_socket-normalized,
}
use cageforge.Policy.Sandbox.{SandboxPolicy, normalized_sandbox}

no_write-better_match :
    (best : Option RuleMatch) (m : RuleMatch)
    → matched_access best ≢ AccessMode.write
    → m.access ≢ AccessMode.write
    → (better_match best m).access ≢ AccessMode.write
unfolding better_match most_restrictive
no_write-better_match none m h k = k
no_write-better_match (some b) m h k = ground arith

no_write-settle :
    (is_protected : Bool) (best : Option RuleMatch) (writable_match : Bool)
    → matched_access best ≢ AccessMode.write
    → settle is_protected best writable_match ≢ FilesystemDecision.write
unfolding settle mode_eq from_access
no_write-settle p none w h = ground arith
no_write-settle p (some b) w h = ground arith

module _ ⦃g : GlobSet⦄ where
  -- The normal form of a sandbox policy of rules that the crate built, none of them with a
  -- read-only subpath, decides every path, every domain and every Unix socket as the policy does.
  pub normalized_sandbox_lem :
      ⦃t : CharTable⦄
      → (policy after : SandboxPolicy) → normalized_sandbox policy ≡ ok after
      → All IsUncarved policy.filesystem.entries
      → All IsCompiled policy.network.domains
      → ((path : FilePath) (context : PathResolutionContext)
          → access_for_path after.filesystem path context
            ≡ access_for_path policy.filesystem path context)
        × ((raw : Text)
            → decision_for_domain after.network raw ≡ decision_for_domain policy.network raw)
        × ((path : FilePath)
            → decision_for_unix_socket after.network path
              ≡ decision_for_unix_socket policy.network path)
  unfolding normalized_sandbox
  normalized_sandbox_lem policy after h bare compiled =
      let files : normalized policy.filesystem ≡ ok after.filesystem = ground arith in
      let net : normalized_network policy.network ≡ ok after.network = ground arith in
      (
        λ path context.
            access_for_path-normalized policy.filesystem after.filesystem path context files bare,
        decision_for_domain-normalized policy.network after.network net compiled,
        decision_for_unix_socket-normalized policy.network after.network net,
      )

  no_write-access_loop :
      (path : FilePath) (context : PathResolutionContext) (is_protected : Bool)
      (rules : List FilesystemRule) (best : Option RuleMatch) (writable_match : Bool)
      → All (λ r. r.access ≢ AccessMode.write) rules
      → matched_access best ≢ AccessMode.write
      → access_loop path context is_protected rules best writable_match ≢ FilesystemDecision.write
  unfolding access_loop matches_path mode_eq
  no_write-access_loop path context p [] best w h k = no_write-settle p best w k
  no_write-access_loop path context p (rule ∷ rules) best w (r, h) k =
      elim (Option-cases (target_match rule.target path context)) [
        | inl missed ↦ ground (arith, no_write-access_loop path context p rules best w h k)
        | inr (n, matched) ↦
            let m : RuleMatch = record { specificity = n; access = rule.access } in
            ground (
              arith,
              no_write-access_loop path context p rules (some (better_match best m))
                  (w || mode_eq rule.access AccessMode.write) h (no_write-better_match best m k r),
            )
      ]

  -- A restricted policy none of whose rules grants writing lets no path be written.
  pub access_for_path-IsReadOnly :
      (policy : FilesystemPolicy) (path : FilePath) (context : PathResolutionContext)
      → policy.mode ≡ FilesystemMode.restricted
      → All (λ r. r.access ≢ AccessMode.write) policy.entries
      → access_for_path policy path context ≢ ok FilesystemDecision.write
  unfolding access_for_path decision_in_mode
  access_for_path-IsReadOnly policy path context mode h =
      let no_write =
        no_write-access_loop path context (is_protected_path policy path) policy.entries none false
          h in
      ground arith
