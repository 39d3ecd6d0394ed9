-- ===== src/Command/Environment/Filters.antt =====
-- crates/cageforge-command/src/environment.rs: what the filters let into the result.
use cageforge.Base.{
  Bool, true, false, not, ◌&&◌, ◌||◌, ◌≡◌, refl, subst, arith, Text, none, some, List, [], ◌∷◌, any,
  All, map-All, zip-All, keep, Option_elim, Dict, ◌⊎◌, inl, inr, insert-All, remove-All, keep-All,
  keep-IsKept, if◌then◌else◌, ok, >>=-eq-ok, ok_injective, fail_if,
}
use cageforge.Command.Error.{base_is_at_most}
use cageforge.Command.Names.{
  OsString, OsText, find_name, NameTable, empty_table, environment_name_identity,
  remove_environment_name, replace_environment_name,
}
use cageforge.Command.Environment.{
  WildMatch, EnvironmentFilterAction, EnvironmentOverride, EnvironmentInput, EnvironmentPattern,
  EnvironmentSpec, survives_exclusion, survives_inclusion, load_variables, apply_override,
  apply_overrides, transformed, apply_to, excludes, includes, filter_loop, filter_action_for,
  pattern_accepts, is_include,
}

-- Whether a value is one of a list's.
abbrev pub IsAmong : {A : Type 0} → A → List A → Type 0
IsAmong a [] = ⊥
IsAmong a (x ∷ xs) = (a ≡ x) ⊎ IsAmong a xs

All-IsAmong :
    {A : Type 0} (xs ys : List A)
    → ((a : A) → IsAmong a ys → IsAmong a xs)
    → All (λ a. IsAmong a xs) ys
All-IsAmong xs [] f = tt
All-IsAmong xs (y ∷ ys) f = (f y (inl refl), All-IsAmong xs ys (λ a h. f a (inr h)))

module _ ⦃o : OsText⦄ (P : OsString × OsString → Type 0) where
  remove_environment_name-All :
      (name : OsString) (table : NameTable OsString)
      → All P table.values
      → All P (remove_environment_name name table).values
  unfolding remove_environment_name
  remove_environment_name-All name table h =
      Option_elim (λ (t : NameTable OsString). All P t.values)
        (find_name (environment_name_identity name) table.names) (λ _. h)
        (λ existing _. remove-All P existing table.values h)

  replace_environment_name-All :
      (name value : OsString) (table : NameTable OsString)
      → P (name, value)
      → All P table.values
      → All P (replace_environment_name name value table).values
  unfolding replace_environment_name
  replace_environment_name-All name value table p h =
      insert-All P name value (remove_environment_name name table).values p
        (remove_environment_name-All name table h)

  load_variables-All :
      (table : NameTable OsString) (variables : Dict OsString)
      → All P variables
      → All P table.values
      → All P (load_variables table variables).values
  unfolding load_variables
  load_variables-All table [] h k = k
  load_variables-All table (v ∷ variables) (p, h) k =
      load_variables-All (replace_environment_name v.0 v.1 table) variables h
        (replace_environment_name-All v.0 v.1 table p k)

  abbrev SetsOnly : OsString × EnvironmentOverride → Type 0
  SetsOnly (name, EnvironmentOverride.set value) = P (name, value)
  SetsOnly (name, EnvironmentOverride.remove) = Unit

  apply_overrides-All :
      (overrides : Dict EnvironmentOverride) (table : NameTable OsString)
      → All SetsOnly overrides
      → All P table.values
      → All P (apply_overrides overrides table).values
  unfolding apply_overrides apply_override
  apply_overrides-All [] table h k = k
  apply_overrides-All ((name, EnvironmentOverride.set value) ∷ overrides) table (p, h) k =
      apply_overrides-All overrides (replace_environment_name name value table) h
        (replace_environment_name-All name value table p k)
  apply_overrides-All ((name, EnvironmentOverride.remove) ∷ overrides) table (p, h) k =
      apply_overrides-All overrides (remove_environment_name name table) h
        (remove_environment_name-All name table k)

module _ ⦃o : OsText⦄ ⦃w : WildMatch⦄ where
  filter_loop_lem :
      (filters : List (EnvironmentPattern × EnvironmentFilterAction)) (name : Text) (found : Bool)
      → filter_loop filters name found ≡ (
          if any (λ filter. not (is_include filter.1) && pattern_accepts filter.0 name) filters
          then some EnvironmentFilterAction.exclude
          else if found
              || any (λ filter. is_include filter.1 && pattern_accepts filter.0 name) filters
          then some EnvironmentFilterAction.include
          else none)
  unfolding filter_loop
  filter_loop_lem [] name found = ground arith
  filter_loop_lem (filter ∷ filters) name found =
      ground (arith, filter_loop_lem filters name found, filter_loop_lem filters name true)

  -- The action for a name is exclusion where some exclude filter matches, wherever it stands among
  -- the filters, inclusion where only include filters match, and none where no filter matches.
  pub filter_action_for_lem :
      (spec : EnvironmentSpec) (name : Text)
      → filter_action_for spec name ≡ (
          if excludes spec name
          then some EnvironmentFilterAction.exclude
          else if includes spec name
          then some EnvironmentFilterAction.include
          else none)
  unfolding filter_action_for
  filter_action_for_lem spec name = filter_loop_lem spec.filters name false

  -- A variable that an override sets, or one of the base that no exclude filter matches.
  abbrev pub HasOrigin : EnvironmentSpec → Dict OsString → OsString × OsString → Type 0
  HasOrigin spec variables v =
      IsAmong (v.0, EnvironmentOverride.set v.1) spec.overrides.values
      ⊎ (IsAmong v variables × (survives_exclusion spec v.0 ≡ true))

  sets_only :
      (spec : EnvironmentSpec) (variables : Dict OsString) (e : OsString × EnvironmentOverride)
      → IsAmong e spec.overrides.values
      → SetsOnly (HasOrigin spec variables) e
  sets_only spec variables (name, EnvironmentOverride.set value) h = inl h
  sets_only spec variables (name, EnvironmentOverride.remove) h = tt

  -- Every variable of the result of an application passes the include filters, and either an
  -- override sets it, or it is one of the base that no exclude filter matches.
  pub apply_to-HasOrigin :
      (spec : EnvironmentSpec) (input output : EnvironmentInput)
      → apply_to spec input ≡ ok output
      → All
          (λ (v : OsString × OsString).
            (survives_inclusion spec v.0 ≡ true) × HasOrigin spec input.variables v)
          output.variables
  unfolding apply_to transformed
  apply_to-HasOrigin spec input output h =
      let (_, _, done) = >>=-eq-ok (fail_if (not (base_is_at_most input.base spec.base)) _) _ h in
      let variables = input.variables in
      let loaded = load_variables empty_table variables in
      let test : OsString × OsString → Bool = λ v. survives_exclusion spec v.0 in
      let last : OsString × OsString → Bool = λ v. survives_inclusion spec v.0 in
      let kept : NameTable OsString = record loaded { values = keep test loaded.values } in
      let origin : All (HasOrigin spec variables) kept.values =
        map-All (λ (v : OsString × OsString). IsAmong v variables × (test v ≡ true))
          (HasOrigin spec variables) (λ v from. inr from) kept.values
          (zip-All (λ (v : OsString × OsString). IsAmong v variables) (λ v. test v ≡ true)
            kept.values
            (keep-All (λ (v : OsString × OsString). IsAmong v variables) test loaded.values
              (load_variables-All (λ v. IsAmong v variables) empty_table variables
                (All-IsAmong variables variables (λ _ k. k)) tt))
            (keep-IsKept test loaded.values)) in
      let result = (apply_overrides spec.overrides.values kept).values in
      subst
        (λ (out : EnvironmentInput).
          All
            (λ (v : OsString × OsString).
              (survives_inclusion spec v.0 ≡ true) × HasOrigin spec variables v)
            out.variables)
        (ok_injective done)
        (zip-All (λ (v : OsString × OsString). last v ≡ true) (HasOrigin spec variables)
          (keep last result) (keep-IsKept last result)
          (keep-All (HasOrigin spec variables) last result (
            apply_overrides-All (HasOrigin spec variables) spec.overrides.values kept
              (map-All (λ e. IsAmong e spec.overrides.values) (SetsOnly (HasOrigin spec variables))
                (sets_only spec variables) spec.overrides.values
                (All-IsAmong spec.overrides.values spec.overrides.values (λ _ k. k)))
              origin)))
