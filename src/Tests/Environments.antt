-- ===== src/Tests/Environments.antt =====
-- Environments and compositions on concrete inputs.
use cageforge.Base.{
  ascii_lower, ℕ, ◌≡◌, ◌≢◌, refl, arith, Bool, true, false, ◌&&◌, List, [], ◌∷◌, All, Text, codes,
  text_eq, Option, none, some, map, keep, Dict, if◌then◌else◌, Result, ok, err, inl, inr, leb, ltb,
}
use cageforge.Path.Components.{FilePath}
use cageforge.Policy.Network.{new_enabled}
use cageforge.Policy.Context.{PathResolutionContext, new_context, with_workspace_root}
use cageforge.Policy.Sandbox.{SandboxPolicy}
use cageforge.Command.Error.{EnvironmentBase, base_is_at_most}
use cageforge.Command.Names.{OsString, OsText}
use cageforge.Command.Names.Laws.{IsConsistent}
use cageforge.Command.Environment.{
  WildMatch, EnvironmentFilterAction, EnvironmentOverride, EnvironmentInput, EnvironmentSpec,
  new_spec, with_var, without_var, with_filter, apply_to, survives_inclusion, transformed,
}
use cageforge.Command.Environment.Filters.{HasOrigin, apply_to-HasOrigin}
use cageforge.Command.Environment.Overrides.{
  IsHonoured, IsExtended, apply_to-IsHonoured, override_for-IsExtended,
}
use cageforge.Compose.{
  CompositionError, EffectivePathContext, EffectiveNetworkPolicy, decision_for_unix_socket,
}
use cageforge.Compose.Requirements.{network_requirements}
use cageforge.Compose.Requirements.Isolation.{local_ipc_isolation-IsDenied}
use cageforge.Policy.NetworkDecision.{NetworkDecision}
use cageforge.Policy.NetworkModel.{UnixSocketMode}
use cageforge.Compose.Environment.{
  EffectiveEnvironment, effective_base, has_name, apply_to-eq-both, apply_to-IsNarrower,
}
use cageforge.Compose.Environment as Effective
use cageforge.Compose.Sandbox.{
  CompositionRequest, EffectiveSandbox, new_ceiling, new_composition, compose, is_granted,
  path_context,
}
use cageforge.Compose.Sandbox.Narrowed.{DecidesAsBoth, compose-DecidesAsBoth}
use cageforge.Compose.Sandbox.Contexts.{path_context-IsGranted}
use cageforge.Tests.{literals, ascii, work_policy, work, work_file}

-- Names are their texts, of ASCII.
instance abbrev pub plain : OsText
plain = record { to_str = λ name. some name; to_lowercase = λ c. ascii_lower c ∷ [] }

-- Patterns without wildcards.
instance abbrev pub exact : WildMatch
exact = record {
  Matcher = Text;
  new_case_insensitive = λ pattern. pattern;
  is_match = λ matcher name. text_eq (map ascii_lower matcher) (map ascii_lower name);
}

abbrev pub value_or : {A : Type 0} {E : Type 0} → A → Result E A → A
value_or a (ok b) = b
value_or a (err e) = a

-- "HOME" is set, "KEY" is removed, and "token" is excluded.
abbrev spec : EnvironmentSpec
spec =
    let a =
      value_or (new_spec EnvironmentBase.all)
        (with_var (new_spec EnvironmentBase.all) (codes "HOME") (codes "/h")) in
    let b = value_or a (without_var a (codes "KEY")) in
    value_or b (with_filter b (codes "token") EnvironmentFilterAction.exclude)

abbrev outer : EnvironmentSpec
outer =
    value_or (new_spec EnvironmentBase.all)
      (with_var (new_spec EnvironmentBase.all) (codes "LANG") (codes "C"))

abbrev input : EnvironmentInput
input = record {
  base = EnvironmentBase.all;
  variables =
      (codes "LANG", codes "de") ∷ (codes "TOKEN", codes "s") ∷ (codes "key", codes "k") ∷ [];
}

abbrev output : EnvironmentInput
output = record {
  base = EnvironmentBase.all;
  variables = (codes "HOME", codes "/h") ∷ (codes "LANG", codes "de") ∷ [];
}

applied : apply_to spec input ≡ ok output
unfolding apply_to with_filter without_var with_var new_spec cageforge.Base.insert
    cageforge.Base.remove
applied = refl

spec-IsConsistent : IsConsistent spec.overrides
unfolding with_filter without_var cageforge.Base.insert with_var new_spec
spec-IsConsistent = (((refl, tt), (tt, tt)), ((refl, (refl, tt)), (refl, (refl, tt))))

apply_to-HasOrigin_example :
    All
      (λ (v : OsString × OsString).
        (survives_inclusion spec v.0 ≡ true) × HasOrigin spec input.variables v)
      output.variables
unfolding apply_to with_filter without_var with_var new_spec cageforge.Base.insert
    cageforge.Base.remove
apply_to-HasOrigin_example = apply_to-HasOrigin spec input output refl

apply_to-IsHonoured_example : All (IsHonoured spec output.variables) spec.overrides.values
unfolding apply_to with_filter without_var with_var new_spec cageforge.Base.insert
    cageforge.Base.remove
apply_to-IsHonoured_example = apply_to-IsHonoured spec input output spec-IsConsistent refl

override_for-IsExtended_example :
    ((extended : EnvironmentSpec)
      → with_var spec (codes "home") (codes "/x") ≡ ok extended
      → IsExtended extended (codes "home") (EnvironmentOverride.set (codes "/x")))
    × ((extended : EnvironmentSpec)
        → without_var spec (codes "home") ≡ ok extended
        → IsExtended extended (codes "home") EnvironmentOverride.remove)
override_for-IsExtended_example =
    override_for-IsExtended spec (codes "home") (codes "/x") spec-IsConsistent

abbrev narrowed : EffectiveEnvironment
narrowed = record { requested = spec; ceiling = outer }

abbrev narrowed_result : Dict OsString
narrowed_result = (codes "HOME", codes "/h") ∷ (codes "LANG", codes "C") ∷ []

apply_to-IsNarrower_example :
    (requested : EnvironmentInput) × (apply_to spec input ≡ ok requested)
    × (All
        (λ (v : OsString × OsString).
          (has_name requested.variables v.0 ≡ true)
          × ((survives_inclusion outer v.0 ≡ true) × HasOrigin outer requested.variables v))
        narrowed_result)
unfolding Effective.apply_to with_filter without_var with_var new_spec apply_to
    cageforge.Base.insert cageforge.Base.remove
apply_to-IsNarrower_example = apply_to-IsNarrower narrowed input narrowed_result refl

apply_to-eq-both_example : Effective.apply_to narrowed input ≡ (
    if base_is_at_most input.base spec.base && base_is_at_most input.base outer.base
    then ok (
        keep
          (λ (v : OsString × OsString). has_name (transformed spec input.variables) v.0)
          (transformed outer (transformed spec input.variables)))
    else err
        (CompositionError.environment_base_too_permissive (effective_base narrowed) input.base))
apply_to-eq-both_example = apply_to-eq-both narrowed input

abbrev work_sandbox : SandboxPolicy
work_sandbox = record { filesystem = work_policy; network = new_enabled }

abbrev composition : CompositionRequest
composition =
    new_composition work_sandbox spec
      (record (new_ceiling work_sandbox outer) { workspace_roots = some (work ∷ []) })

abbrev composed : EffectiveSandbox
composed = elim (compose composition 7) [
  | ok sandbox ↦ sandbox
  | err e ↦ record {
    filesystem = record { requested = work_policy; ceiling = work_policy; context_identity = 0 };
    network = record { requested = new_enabled; ceiling = new_enabled };
    environment = narrowed;
    workspace_roots = none;
    workspace_root_limit = none;
  }
]

compose-DecidesAsBoth_example : DecidesAsBoth composition 7 composed
unfolding compose new_composition work_policy cageforge.Tests.rule_on
    cageforge.Path.Components.components text_eq cageforge.Path.Components.join new_enabled
    new_ceiling
compose-DecidesAsBoth_example =
    compose-DecidesAsBoth composition 7 composed refl ((refl, tt), ((refl, tt), ((refl, tt), tt)))
      ((refl, tt), ((refl, tt), ((refl, tt), tt))) tt tt

-- A base whose second root is beyond the limit.
abbrev base_context : PathResolutionContext
base_context = value_or new_context (
    with_workspace_root (value_or new_context (with_workspace_root new_context (codes "/w/a")))
      (codes "/x"))

abbrev composed_context : EffectivePathContext
composed_context =
    value_or (record { context = new_context; identity = 0 }) (path_context composed base_context)

path_context-IsGranted_example :
    (composed_context.identity ≡ composed.filesystem.context_identity)
    × All
        (λ root. is_granted composed.workspace_root_limit root ≡ true)
        composed_context.context.workspace_roots
unfolding path_context with_workspace_root cageforge.Path.Components.components text_eq compose
    new_composition work_policy cageforge.Tests.rule_on cageforge.Path.Components.join new_enabled
    new_ceiling cageforge.Path.Components.plain_components
    cageforge.Path.Resolve.normalize_lexical_path cageforge.Path.Components.collect
    cageforge.Path.Components.key_eq cageforge.Path.Components.component_key
    cageforge.Path.Components.components_equal
path_context-IsGranted_example = path_context-IsGranted composed base_context composed_context refl

-- Local sockets are switched off on the side of the ceiling.
abbrev isolated : EffectiveNetworkPolicy
isolated = record {
  requested = new_enabled;
  ceiling = record new_enabled { unix_socket_mode = UnixSocketMode.disabled };
}

local_ipc_isolation-IsDenied_example :
    decision_for_unix_socket isolated (codes "/run/s") ≢ ok NetworkDecision.allow
unfolding network_requirements new_enabled
local_ipc_isolation-IsDenied_example = local_ipc_isolation-IsDenied isolated (codes "/run/s") refl
