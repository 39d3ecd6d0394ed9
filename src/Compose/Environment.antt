-- ===== src/Compose/Environment.antt =====
-- crates/cageforge-policy-compose/src/environment.rs: an environment that a requested specification
-- and a ceiling transform.
use cageforge.Base.{
  Bool, true, not, ◌&&◌, ◌||◌, ◌≡◌, ap, subst, arith, any, keep, All, zip-All, keep-All,
  keep-IsKept, is_empty, Dict, if◌then◌else◌, Result, ok, err, ◌>>=◌, ◌>>◌, >>=-eq-ok, ok_injective,
  fail_if, map_err,
}
use cageforge.Command.Error.{CommandError, EnvironmentBase, base_is_at_most}
use cageforge.Command.Names.{OsString, OsText, identity_eq, environment_name_identity}
use cageforge.Command.Names.Laws.{same_name}
use cageforge.Command.Environment.{
  WildMatch, EnvironmentOverride, EnvironmentFilterAction, EnvironmentPattern, EnvironmentInput,
  EnvironmentSpec, transformed, survives_inclusion, is_include,
}
use cageforge.Command.Environment as Command
use cageforge.Command.Environment.Filters.{HasOrigin, apply_to-HasOrigin}
use cageforge.Compose.{CompositionError}

unfoldable pub least_permissive_base : EnvironmentBase → EnvironmentBase → EnvironmentBase
least_permissive_base EnvironmentBase.none _ = EnvironmentBase.none
least_permissive_base _ EnvironmentBase.none = EnvironmentBase.none
least_permissive_base EnvironmentBase.core _ = EnvironmentBase.core
least_permissive_base _ EnvironmentBase.core = EnvironmentBase.core
least_permissive_base EnvironmentBase.all EnvironmentBase.all = EnvironmentBase.all

unfoldable pub environment_application_error : CommandError → CompositionError
environment_application_error (CommandError.environment_base_too_permissive required supplied) =
    CompositionError.environment_base_too_permissive required supplied
environment_application_error other = CompositionError.environment_application other

pub record EffectiveEnvironmentRequirements : Type 0 where
  pub base : EnvironmentBase
  pub filters : Bool
  pub overrides : Bool

module _ ⦃o : OsText⦄ ⦃w : WildMatch⦄ where
  pub record EffectiveEnvironment : Type 0 where
    pub requested : EnvironmentSpec
    pub ceiling : EnvironmentSpec

  unfoldable pub effective_base : EffectiveEnvironment → EnvironmentBase
  unfolding least_permissive_base
  effective_base environment =
      least_permissive_base environment.requested.base environment.ceiling.base

  -- `EffectiveEnvironment::requirements`
  unfoldable pub environment_requirements : EffectiveEnvironment → EffectiveEnvironmentRequirements
  unfolding effective_base
  environment_requirements environment = record {
    base = effective_base environment;
    filters =
        not (is_empty environment.requested.filters) || not (is_empty environment.ceiling.filters);
    overrides =
        not (is_empty environment.requested.overrides.values)
        || not (is_empty environment.ceiling.overrides.values);
  }

  -- `requested_names.contains`
  unfoldable pub has_name : Dict OsString → OsString → Bool
  unfolding identity_eq environment_name_identity
  has_name variables name = any (λ (v : OsString × OsString). same_name v.0 name) variables

  -- `EffectiveEnvironment::apply_to`
  unfoldable pub apply_to :
      EffectiveEnvironment → EnvironmentInput → Result CompositionError (Dict OsString)
  unfolding base_is_at_most effective_base environment_application_error has_name
  apply_to environment input = do
    fail_if (not (base_is_at_most input.base (effective_base environment)))
        (CompositionError.environment_base_too_permissive (effective_base environment) input.base)
    requested ← map_err environment_application_error (Command.apply_to environment.requested input)
    effective ←
        map_err environment_application_error (Command.apply_to environment.ceiling requested)
    ok (keep (λ (v : OsString × OsString). has_name requested.variables v.0) effective.variables)

  base_is_at_most-least :
      (supplied a b : EnvironmentBase)
      → base_is_at_most supplied (least_permissive_base a b)
        ≡ (base_is_at_most supplied a && base_is_at_most supplied b)
  unfolding base_is_at_most least_permissive_base
  base_is_at_most-least supplied a b = ground arith

  -- An effective environment applies to an input exactly when the base of the input is at most that
  -- of the requested specification and at most that of the ceiling; otherwise it reports the base.
  pub apply_to-eq-both :
      (environment : EffectiveEnvironment) (input : EnvironmentInput)
      → apply_to environment input ≡ (
          if base_is_at_most input.base environment.requested.base
            && base_is_at_most input.base environment.ceiling.base
          then ok (
              keep
                (λ (v : OsString × OsString).
                  has_name (transformed environment.requested input.variables) v.0)
                (transformed environment.ceiling
                  (transformed environment.requested input.variables)))
          else err (
              CompositionError.environment_base_too_permissive
                (effective_base environment)
                input.base))
  unfolding apply_to cageforge.Command.Environment.apply_to effective_base
  apply_to-eq-both environment input =
      ground (
        arith,
        base_is_at_most-least input.base environment.requested.base environment.ceiling.base,
      )

  -- What `map_err` does not touch.
  map_err-eq-ok :
      {A : Type 0} (r : Result CommandError A) {a : A}
      → map_err environment_application_error r ≡ ok a
      → r ≡ ok a
  map_err-eq-ok (ok b) h = ap ok (ok_injective h)
  map_err-eq-ok (err e) h = absurd (cc)

  -- The ceiling brings no variable in: every variable of the result is, in some spelling, one of the
  -- result of the requested specification alone. It passes the include filters of the ceiling, and
  -- an override of the ceiling sets it or no exclude filter of the ceiling matches it.
  pub apply_to-IsNarrower :
      (environment : EffectiveEnvironment) (input : EnvironmentInput) (result : Dict OsString)
      → apply_to environment input ≡ ok result
      → (requested : EnvironmentInput) × (Command.apply_to environment.requested input
          ≡ ok requested)
        × (All
            (λ (v : OsString × OsString).
              (has_name requested.variables v.0 ≡ true)
              × ((survives_inclusion environment.ceiling v.0 ≡ true)
                  × HasOrigin environment.ceiling requested.variables v))
            result)
  unfolding apply_to
  apply_to-IsNarrower environment input result h =
      let (_, _, p) =
        >>=-eq-ok (fail_if (not (base_is_at_most input.base (effective_base environment))) _) _ h in
      let (requested, first, q) =
        >>=-eq-ok
          (map_err environment_application_error (Command.apply_to environment.requested input)) _
          p in
      let (effective, second, r) =
        >>=-eq-ok
          (map_err environment_application_error (Command.apply_to environment.ceiling requested)) _
          q in
      let test : OsString × OsString → Bool = λ v. has_name requested.variables v.0 in
      let Fits : OsString × OsString → Type 0 = λ v.
        (survives_inclusion environment.ceiling v.0 ≡ true)
        × HasOrigin environment.ceiling requested.variables v in
      (
        requested,
        map_err-eq-ok (Command.apply_to environment.requested input) first,
        subst (All (λ v. (test v ≡ true) × Fits v)) (ok_injective r) (
            zip-All (λ v. test v ≡ true) Fits (keep test effective.variables)
              (keep-IsKept test effective.variables)
              (keep-All Fits test effective.variables (
                apply_to-HasOrigin environment.ceiling requested effective
                  (map_err-eq-ok (Command.apply_to environment.ceiling requested) second)))),
      )
