-- ===== src/Compose/Sandbox/Narrowed.antt =====
-- crates/cageforge-policy-compose/src/compose.rs: the decisions of a composed sandbox and those of
-- the policies that it was composed of.
use cageforge.Base.{
  ℕ, ◌≡◌, ◌↔◌, sym, ap, subst, ◌∙◌, Text, All, Result, ok, err, >>=-eq-ok, ok_injective, map_err,
}
use cageforge.Path.Components.{FilePath}
use cageforge.Policy.Access.{FilesystemDecision}
use cageforge.Policy.Error.{PolicyError}
use cageforge.Policy.Glob.{GlobSet}
use cageforge.Policy.Host.{CharTable}
use cageforge.Policy.Decision.Normal.{IsUncarved}
use cageforge.Policy.NetworkDecision.{NetworkDecision}
use cageforge.Policy.NetworkDecision.Normal.{IsCompiled}
use cageforge.Policy.Sandbox.{SandboxPolicy, normalized_sandbox}
use cageforge.Policy.Sandbox.Presets.{normalized_sandbox_lem}
use cageforge.Policy.Decision
use cageforge.Policy.NetworkDecision as OnePolicy
use cageforge.Command.Names.{OsText}
use cageforge.Command.Environment.{WildMatch}
use cageforge.Compose.{CompositionError, EffectivePathContext, access_for_path, decision_for_domain}
use cageforge.Compose.Limits.{
  access_for_path-eq-both_write_iff, decision_for_domain-eq-both_allow_iff,
}
use cageforge.Compose.Roots.{compose_workspace_roots, ComposedWorkspaceRoots}
use cageforge.Compose.Sandbox.{CompositionRequest, EffectiveSandbox, check_owners, compose}

-- A statement on two values is one on equal values.
iff_cong :
    {W I R : Type 0} {x x' y y' c : R}
    → W ↔ (I × (x ≡ c) × (y ≡ c))
    → x ≡ x'
    → y ≡ y'
    → W ↔ (I × (x' ≡ c) × (y' ≡ c))
iff_cong h e k =
    (λ v. let (i, p, q) = h.0 v in (i, sym e ∙ p, sym k ∙ q), λ (i, p, q). h.1 (i, e ∙ p, k ∙ q))

iff_cong_pair :
    {W R : Type 0} {x x' y y' c : R}
    → W ↔ ((x ≡ c) × (y ≡ c))
    → x ≡ x'
    → y ≡ y'
    → W ↔ ((x' ≡ c) × (y' ≡ c))
iff_cong_pair h e k =
    (λ v. let (p, q) = h.0 v in (sym e ∙ p, sym k ∙ q), λ (p, q). h.1 (e ∙ p, k ∙ q))

module _ ⦃g : GlobSet⦄ ⦃t : CharTable⦄ ⦃o : OsText⦄ ⦃w : WildMatch⦄ where
  map_err-eq-ok :
      (f : PolicyError → CompositionError) (r : Result PolicyError SandboxPolicy)
      {a : SandboxPolicy}
      → map_err f r ≡ ok a
      → r ≡ ok a
  map_err-eq-ok f (ok b) h = ap ok (ok_injective h)
  map_err-eq-ok f (err e) h = absurd (cc)

  -- What `compose` has done where it succeeds.
  pub compose-eq-ok :
      (request : CompositionRequest) (identity : ℕ) (sandbox : EffectiveSandbox)
      → compose request identity ≡ ok sandbox
      → (requested : SandboxPolicy) × (normalized_sandbox request.requested_policy ≡ ok requested)
        × ((ceiling : SandboxPolicy) × (normalized_sandbox request.ceiling.policy ≡ ok ceiling)
            × (check_owners request requested ceiling ≡ ok tt)
            × ((roots : ComposedWorkspaceRoots) × (compose_workspace_roots
                    request.requested_workspace_roots request.ceiling.workspace_roots
                  ≡ ok roots)
                × (record {
                  filesystem = record {
                    requested = requested.filesystem;
                    ceiling = ceiling.filesystem;
                    context_identity = identity;
                  };
                  network = record { requested = requested.network; ceiling = ceiling.network };
                  environment = record {
                    requested = request.requested_environment;
                    ceiling = request.ceiling.environment;
                  };
                  workspace_roots = roots.selected;
                  workspace_root_limit = roots.limit;
                }
                    ≡ sandbox)))
  unfolding compose
  compose-eq-ok request identity sandbox h =
      let (requested, a, p) =
        >>=-eq-ok
          (map_err CompositionError.invalid_requested_policy
            (normalized_sandbox request.requested_policy))
          _ h in
      let (ceiling, b, q) =
        >>=-eq-ok
          (map_err CompositionError.invalid_ceiling (normalized_sandbox request.ceiling.policy)) _
          p in
      let (_, c, r) = >>=-eq-ok (check_owners request requested ceiling) _ q in
      let (roots, d, s) =
        >>=-eq-ok
          (compose_workspace_roots request.requested_workspace_roots
            request.ceiling.workspace_roots)
          _ r in
      (
        requested,
        map_err-eq-ok CompositionError.invalid_requested_policy
            (normalized_sandbox request.requested_policy) a,
        (
          ceiling,
          map_err-eq-ok CompositionError.invalid_ceiling (normalized_sandbox request.ceiling.policy)
              b,
          c,
          (roots, d, ok_injective s),
        ),
      )

  -- The sandbox lets a path be written exactly when the context is its own and both policies of
  -- the request do, and allows a domain exactly when both do.
  abbrev pub DecidesAsBoth : CompositionRequest → ℕ → EffectiveSandbox → Type 0
  DecidesAsBoth request identity sandbox =
      ((path : FilePath) (context : EffectivePathContext)
        → (access_for_path sandbox.filesystem path context ≡ ok FilesystemDecision.write) ↔ (
            (context.identity ≡ identity)
            × (Decision.access_for_path request.requested_policy.filesystem path context.context
                ≡ ok FilesystemDecision.write)
            × (Decision.access_for_path request.ceiling.policy.filesystem path context.context
                ≡ ok FilesystemDecision.write)))
      × ((domain : Text)
          → (decision_for_domain sandbox.network domain ≡ ok NetworkDecision.allow) ↔ (
              (OnePolicy.decision_for_domain request.requested_policy.network domain
                ≡ ok NetworkDecision.allow)
              × (OnePolicy.decision_for_domain request.ceiling.policy.network domain
                  ≡ ok NetworkDecision.allow)))

  -- A composed sandbox, of policies of rules that the crate built, none of them with a read-only
  -- subpath, lets a path be written exactly when the context is its own and both of the policies it
  -- was composed of do, and allows a domain exactly when both of them do.
  pub compose-DecidesAsBoth :
      (request : CompositionRequest) (identity : ℕ) (sandbox : EffectiveSandbox)
      → compose request identity ≡ ok sandbox
      → All IsUncarved request.requested_policy.filesystem.entries
      → All IsUncarved request.ceiling.policy.filesystem.entries
      → All IsCompiled request.requested_policy.network.domains
      → All IsCompiled request.ceiling.policy.network.domains
      → DecidesAsBoth request identity sandbox
  compose-DecidesAsBoth request identity sandbox h bare bare_ceiling compiled compiled_ceiling =
      let (requested, a, (ceiling, b, _, (_, _, made))) =
        compose-eq-ok request identity sandbox h in
      let (files, net, _) =
        normalized_sandbox_lem request.requested_policy requested a bare compiled in
      let (ceiling_files, ceiling_net, _) =
        normalized_sandbox_lem request.ceiling.policy ceiling b bare_ceiling compiled_ceiling in
      subst (DecidesAsBoth request identity) made (
        λ path context.
            iff_cong (access_for_path-eq-both_write_iff _ path context) (files path context.context)
              (ceiling_files path context.context),
        λ domain.
            iff_cong_pair (decision_for_domain-eq-both_allow_iff _ domain) (net domain)
              (ceiling_net domain),
      )
