-- ===== src/Command/Environment/Overrides.antt =====
-- crates/cageforge-command/src/environment.rs: overrides in a specification and in its
-- application.
use cageforge.Base.{
  Bool, true, false, not, ◌⊎◌, Bool-cases, ◌≡◌, subst, ◌∙◌, arith, Text, text_eq, text_eq_iff, none,
  some, [], ◌∷◌, All, map-All, zip-All, keep, Dict, After, lookup, IsSorted, lookup-All,
  keep-IsSorted, keep-All, lookup-keep, text_ltb_irrefl, Option-cases, inl, inr, ok, >>=-eq-ok,
  ok_injective, fail_if,
}
use cageforge.Command.Error.{base_is_at_most}
use cageforge.Command.Names.{
  OsString, OsText, NameMap, contains_nul, validate_name, find_name, NameTable, empty_table,
  environment_name_identity, remove_environment_name, replace_environment_name,
}
use cageforge.Command.Names.Laws.{
  same_name, identity_eq_iff, IsKnown, IsConsistent, remove_environment_name-IsRemoval,
  replace_environment_name-IsReplacement,
}
use cageforge.Command.Environment.Passing.{IsPassed, survives_inclusion_iff}
use cageforge.Command.Environment.{
  WildMatch, EnvironmentOverride, EnvironmentInput, EnvironmentSpec, survives_exclusion,
  survives_inclusion, load_variables, apply_override, apply_overrides, transformed, apply_to,
  with_var, without_var, override_for,
}

module _ ⦃o : OsText⦄ where
  load_variables-IsConsistent :
      (table : NameTable OsString) (variables : Dict OsString)
      → IsConsistent table
      → IsConsistent (load_variables table variables)
  unfolding load_variables
  load_variables-IsConsistent table [] h = h
  load_variables-IsConsistent table (v ∷ variables) h =
      load_variables-IsConsistent (replace_environment_name v.0 v.1 table) variables
        (replace_environment_name-IsReplacement v.0 v.1 table h).0

  -- No two overrides are of one variable.
  abbrev AreDistinct : Dict EnvironmentOverride → Type 0
  AreDistinct [] = Unit
  AreDistinct (entry ∷ overrides) =
      All (λ (other : OsString × EnvironmentOverride). same_name other.0 entry.0 ≡ false) overrides
      × AreDistinct overrides

  -- What an override says is so in the values.
  abbrev pub IsCarried : Dict OsString → OsString × EnvironmentOverride → Type 0
  IsCarried values (name, EnvironmentOverride.set value) = lookup name values ≡ some value
  IsCarried values (name, EnvironmentOverride.remove) =
      (other : OsString) → same_name other name ≡ true → lookup other values ≡ none

  distinct_from :
      (names : NameMap) (e f : OsString × EnvironmentOverride)
      → IsKnown names e
      → IsKnown names f × (text_eq f.0 e.0 ≡ false)
      → same_name f.0 e.0 ≡ false
  distinct_from names e f k (l, differs) = ground (
    arith,
    text_eq_iff f.0 e.0,
    identity_eq_iff (environment_name_identity f.0) (environment_name_identity e.0),
  )

  After-differs :
      (key : Text) (d : Dict EnvironmentOverride)
      → After key d
      → All (λ (f : OsString × EnvironmentOverride). text_eq f.0 key ≡ false) d
  After-differs key [] h = tt
  After-differs key (f ∷ d) (p, h) =
      (ground (arith, text_eq_iff f.0 key, text_ltb_irrefl key), After-differs key d h)

  known-AreDistinct :
      (names : NameMap) (d : Dict EnvironmentOverride)
      → IsSorted d
      → All (IsKnown names) d
      → AreDistinct d
  known-AreDistinct names [] h k = tt
  known-AreDistinct names (e ∷ d) (p, h) (q, k) = (
    map-All (λ (f : OsString × EnvironmentOverride). IsKnown names f × (text_eq f.0 e.0 ≡ false))
        (λ f. same_name f.0 e.0 ≡ false) (λ f. distinct_from names e f q) d
        (zip-All (IsKnown names) (λ f. text_eq f.0 e.0 ≡ false) d k (After-differs e.0 d p)),
    known-AreDistinct names d h k,
  )

  -- A step leaves the values of the other variables as they are.
  apply_override-lookup :
      (entry : OsString × EnvironmentOverride) (table : NameTable OsString) (other : OsString)
      → IsConsistent table
      → same_name other entry.0 ≡ false
      → lookup other (apply_override entry.0 entry.1 table).values ≡ lookup other table.values
  unfolding apply_override
  apply_override-lookup (name, EnvironmentOverride.set value) table other h differs =
      (replace_environment_name-IsReplacement name value table h).2 other differs
  apply_override-lookup (name, EnvironmentOverride.remove) table other h differs =
      (remove_environment_name-IsRemoval name table h).2 other differs

  apply_override-IsConsistent :
      (entry : OsString × EnvironmentOverride) (table : NameTable OsString)
      → IsConsistent table
      → IsConsistent (apply_override entry.0 entry.1 table)
  unfolding apply_override
  apply_override-IsConsistent (name, EnvironmentOverride.set value) table h =
      (replace_environment_name-IsReplacement name value table h).0
  apply_override-IsConsistent (name, EnvironmentOverride.remove) table h =
      (remove_environment_name-IsRemoval name table h).0

  absent_lookup :
      (name other : OsString) (values : Dict OsString)
      → All (λ (e : OsString × OsString). same_name e.0 name ≡ false) values
      → same_name other name ≡ true
      → lookup other values ≡ none
  absent_lookup name other values others same = elim (Option-cases (lookup other values)) [
    | inl gone ↦ gone
    | inr (value, found) ↦
        let differs =
          lookup-All (λ (e : OsString × OsString). same_name e.0 name ≡ false) other values value
            others found in
        absurd (cc)
  ]

  apply_override-IsCarried :
      (entry : OsString × EnvironmentOverride) (table : NameTable OsString)
      → IsConsistent table
      → IsCarried (apply_override entry.0 entry.1 table).values entry
  unfolding apply_override
  apply_override-IsCarried (name, EnvironmentOverride.set value) table h =
      (replace_environment_name-IsReplacement name value table h).1
  apply_override-IsCarried (name, EnvironmentOverride.remove) table h = λ other same.
      absent_lookup name other (remove_environment_name name table).values
        (remove_environment_name-IsRemoval name table h).1 same

  -- What an override has made of the table, an override of another variable leaves.
  apply_override-keeps :
      (done entry : OsString × EnvironmentOverride) (table : NameTable OsString)
      → IsConsistent table
      → same_name entry.0 done.0 ≡ false
      → IsCarried table.values done
      → IsCarried (apply_override entry.0 entry.1 table).values done
  apply_override-keeps (name, EnvironmentOverride.set value) entry table h differs carried =
      apply_override-lookup entry table name h (
        ground (
          arith,
          identity_eq_iff (environment_name_identity name) (environment_name_identity entry.0),
          identity_eq_iff (environment_name_identity entry.0) (environment_name_identity name),
        ))
      ∙ carried
  apply_override-keeps (name, EnvironmentOverride.remove) entry table h differs carried =
      λ other same.
        apply_override-lookup entry table other h (
          ground (
            arith,
            identity_eq_iff (environment_name_identity other) (environment_name_identity name),
            identity_eq_iff (environment_name_identity other) (environment_name_identity entry.0),
            identity_eq_iff (environment_name_identity entry.0) (environment_name_identity name),
          ))
        ∙ carried other same

  apply_overrides-keeps :
      (done : OsString × EnvironmentOverride) (overrides : Dict EnvironmentOverride)
      (table : NameTable OsString)
      → IsConsistent table
      → All (λ (f : OsString × EnvironmentOverride). same_name f.0 done.0 ≡ false) overrides
      → IsCarried table.values done
      → IsCarried (apply_overrides overrides table).values done
  unfolding apply_overrides
  apply_overrides-keeps done [] table h differs carried = carried
  apply_overrides-keeps done (e ∷ overrides) table h (p, differs) carried =
      apply_overrides-keeps done overrides (apply_override e.0 e.1 table)
        (apply_override-IsConsistent e table h) differs
        (apply_override-keeps done e table h p carried)

  apply_overrides-IsCarried :
      (overrides : Dict EnvironmentOverride) (table : NameTable OsString)
      → IsConsistent table
      → AreDistinct overrides
      → All (IsCarried (apply_overrides overrides table).values) overrides
  unfolding apply_overrides
  apply_overrides-IsCarried [] table h distinct = tt
  apply_overrides-IsCarried (e ∷ overrides) table h (p, distinct) = (
    apply_overrides-keeps e overrides (apply_override e.0 e.1 table)
        (apply_override-IsConsistent e table h) p (apply_override-IsCarried e table h),
    apply_overrides-IsCarried overrides (apply_override e.0 e.1 table)
        (apply_override-IsConsistent e table h) distinct,
  )

  module _ ⦃w : WildMatch⦄ where
    -- A variable that is set has its value in the result where its name passes, and is not there
    -- otherwise; a variable that is removed is in the result in no spelling.
    abbrev pub IsHonoured :
        EnvironmentSpec → Dict OsString → OsString × EnvironmentOverride → Type 0
    IsHonoured spec result (name, EnvironmentOverride.set value) =
        (IsPassed spec name × (lookup name result ≡ some value))
        ⊎ (¬ IsPassed spec name × (lookup name result ≡ none))
    IsHonoured spec result (name, EnvironmentOverride.remove) =
        (other : OsString) → same_name other name ≡ true → lookup other result ≡ none

    honoured :
        (spec : EnvironmentSpec) (values : Dict OsString) (entry : OsString × EnvironmentOverride)
        → IsCarried values entry
        → IsHonoured spec
            (keep (λ (v : OsString × OsString). survives_inclusion spec v.0) values)
            entry
    honoured spec values (name, EnvironmentOverride.set value) h =
        let found = lookup-keep (survives_inclusion spec) name values in
        elim (Bool-cases (survives_inclusion spec name)) [
          | inl kept ↦
              inl ((survives_inclusion_iff spec name).0 kept, ground (arith, found, h, kept))
          | inr lost ↦ inr (
            λ passed. absurd (ground (arith, (survives_inclusion_iff spec name).1 passed, lost)),
            ground (arith, found, lost),
          )
        ]
    honoured spec values (name, EnvironmentOverride.remove) h = λ other same.
        ground (arith, lookup-keep (survives_inclusion spec) other values, h other same)

    -- Where the overrides of a specification are of different variables, in its result a variable
    -- that is set has its value where the specification has no filters, or where the name is a text
    -- and, if there are include filters, one of them matches it, and is not there otherwise; a
    -- variable that is removed is in no spelling.
    pub apply_to-IsHonoured :
        (spec : EnvironmentSpec) (input output : EnvironmentInput)
        → IsConsistent spec.overrides
        → apply_to spec input ≡ ok output
        → All (IsHonoured spec output.variables) spec.overrides.values
    unfolding apply_to transformed
    apply_to-IsHonoured spec input output (sorted, (known, _)) h =
        let (_, _, done) = >>=-eq-ok (fail_if (not (base_is_at_most input.base spec.base)) _) _ h in
        let loaded = load_variables empty_table input.variables in
        let (loaded_sorted, (loaded_known, named)) =
          load_variables-IsConsistent empty_table input.variables (tt, (tt, tt)) in
        let test : OsString × OsString → Bool = λ v. survives_exclusion spec v.0 in
        let kept : NameTable OsString = record loaded { values = keep test loaded.values } in
        let consistent : IsConsistent kept = (
          keep-IsSorted test loaded.values loaded_sorted,
          (keep-All (IsKnown loaded.names) test loaded.values loaded_known, named),
        ) in
        let result = (apply_overrides spec.overrides.values kept).values in
        subst
          (λ (out : EnvironmentInput). All (IsHonoured spec out.variables) spec.overrides.values)
          (ok_injective done)
          (map-All (IsCarried result)
            (IsHonoured spec
              (keep (λ (v : OsString × OsString). survives_inclusion spec v.0) result))
            (honoured spec result) spec.overrides.values
            (apply_overrides-IsCarried spec.overrides.values kept consistent
              (known-AreDistinct spec.overrides.names spec.overrides.values sorted known)))

    find_name-replaced :
        (name spelled : OsString) (entry : EnvironmentOverride)
        (table : NameTable EnvironmentOverride)
        → same_name spelled name ≡ true
        → find_name
            (environment_name_identity spelled)
            (replace_environment_name name entry table).names
          ≡ some name
    unfolding find_name replace_environment_name
    find_name-replaced name spelled entry table same = ground (
      arith,
      identity_eq_iff (environment_name_identity spelled) (environment_name_identity name),
      identity_eq_iff (environment_name_identity name) (environment_name_identity spelled),
    )

    override_for-replaced :
        (spec : EnvironmentSpec) (name spelled : OsString) (entry : EnvironmentOverride)
        → IsConsistent spec.overrides
        → same_name spelled name ≡ true
        → override_for
            (record spec { overrides = replace_environment_name name entry spec.overrides })
            spelled
          ≡ some entry
    unfolding override_for
    override_for-replaced spec name spelled entry consistent same = ground (
      arith,
      find_name-replaced name spelled entry spec.overrides same,
      (replace_environment_name-IsReplacement name entry spec.overrides consistent).1,
    )

    -- What the two builders of overrides make of a specification.
    abbrev pub IsExtended : EnvironmentSpec → OsString → EnvironmentOverride → Type 0
    IsExtended spec name entry =
        IsConsistent spec.overrides
        × ((spelled : OsString)
            → same_name spelled name ≡ true
            → override_for spec spelled ≡ some entry)

    replaced-IsExtended :
        (spec : EnvironmentSpec) (name : OsString) (entry : EnvironmentOverride)
        → IsConsistent spec.overrides
        → IsExtended
            (record spec { overrides = replace_environment_name name entry spec.overrides })
            name
            entry
    replaced-IsExtended spec name entry consistent = (
      (replace_environment_name-IsReplacement name entry spec.overrides consistent).0,
      λ spelled. override_for-replaced spec name spelled entry consistent,
    )

    -- Setting a variable and removing one keep the overrides of different variables, and the
    -- specification then answers for the name, in every spelling, with the last one of the two.
    pub override_for-IsExtended :
        (spec : EnvironmentSpec) (name value : OsString)
        → IsConsistent spec.overrides
        → ((extended : EnvironmentSpec)
            → with_var spec name value ≡ ok extended
            → IsExtended extended name (EnvironmentOverride.set value))
          × ((extended : EnvironmentSpec)
              → without_var spec name ≡ ok extended
              → IsExtended extended name EnvironmentOverride.remove)
    unfolding with_var without_var
    override_for-IsExtended spec name value consistent = (
      λ extended h.
          let (_, _, p) = >>=-eq-ok (validate_name name) _ h in
          let (_, _, q) = >>=-eq-ok (fail_if (contains_nul value) _) _ p in
          subst (λ made. IsExtended made name (EnvironmentOverride.set value)) (ok_injective q)
            (replaced-IsExtended spec name (EnvironmentOverride.set value) consistent),
      λ extended h.
          let (_, _, p) = >>=-eq-ok (validate_name name) _ h in
          subst (λ made. IsExtended made name EnvironmentOverride.remove) (ok_injective p)
            (replaced-IsExtended spec name EnvironmentOverride.remove consistent),
    )
