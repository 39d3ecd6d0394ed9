-- ===== src/Command/Environment.antt =====
-- crates/cageforge-command/src/environment.rs and environment/model.rs: environment bases, filters
-- and overrides. The crate wildmatch is the interface `WildMatch`.
pub mod Filters
pub mod Passing
pub mod Overrides
use cageforge.Base.{
  ℕ, Bool, true, false, not, ◌&&◌, ◌||◌, ltb, ◌==◌, Text, codes, text_eq, text_ltb, contains_char,
  is_empty, is_some, Option, none, some, List, [], ◌∷◌, any, all, keep, length, Dict, lookup,
  insert, if◌then◌else◌, Result, ok, err, ◌>>=◌, ◌>>◌, fail_if,
}
use cageforge.Command.Error.{CommandError, EnvironmentBase, base_is_at_most}
use cageforge.Command.Names.{
  OsString, OsText, CaseFoldedText, EnvironmentNameIdentity, folded_eq, identity_eq, contains_nul,
  validate_name, NameMap, find_name, NameTable, empty_table, case_folded_text,
  environment_name_identity, remove_environment_name, replace_environment_name, collect_environment,
}

-- A pattern of the crate, compiled so that it does not tell the case of letters.
pub record WildMatch : Type 1 where
  pub Matcher : Type 0
  pub new_case_insensitive : Text → Matcher
  pub is_match : Matcher → Text → Bool

pub data EnvironmentFilterAction : Type 0 where
  include exclude : EnvironmentFilterAction

pub data EnvironmentOverride : Type 0 where
  set : OsString → EnvironmentOverride
  remove : EnvironmentOverride

pub record EnvironmentInput : Type 0 where
  pub base : EnvironmentBase
  pub variables : Dict OsString

pub record CoreEnvironment : Type 0 where
  pub variables : Dict OsString

abbrev pub is_include : EnvironmentFilterAction → Bool
is_include EnvironmentFilterAction.include = true
is_include EnvironmentFilterAction.exclude = false

abbrev pub same_action : EnvironmentFilterAction → EnvironmentFilterAction → Bool
same_action EnvironmentFilterAction.include EnvironmentFilterAction.include = true
same_action EnvironmentFilterAction.exclude EnvironmentFilterAction.exclude = true
same_action _ _ = false

abbrev pub same_base : EnvironmentBase → EnvironmentBase → Bool
same_base EnvironmentBase.all EnvironmentBase.all = true
same_base EnvironmentBase.core EnvironmentBase.core = true
same_base EnvironmentBase.none EnvironmentBase.none = true
same_base _ _ = false

-- The equality of what a name has in two tables.
abbrev pub same_override : Option EnvironmentOverride → Option EnvironmentOverride → Bool
same_override none none = true
same_override (some EnvironmentOverride.remove) (some EnvironmentOverride.remove) = true
same_override (some (EnvironmentOverride.set a)) (some (EnvironmentOverride.set b)) = text_eq a b
same_override _ _ = false

-- The order of canonical texts.
unfoldable pub folded_ltb : CaseFoldedText → CaseFoldedText → Bool
unfolding text_ltb text_eq
folded_ltb [] [] = false
folded_ltb [] (b ∷ y) = true
folded_ltb (a ∷ x) [] = false
folded_ltb (a ∷ x) (b ∷ y) = text_ltb a b || (text_eq a b && folded_ltb x y)

module _ ⦃o : OsText⦄ where
  unfoldable pub from_selected : List (OsString × OsString) → Result CommandError CoreEnvironment
  unfolding collect_environment
  from_selected variables =
      collect_environment variables >>= λ collected. ok (record { variables = collected })

  unfoldable pub all_input : List (OsString × OsString) → Result CommandError EnvironmentInput
  unfolding collect_environment
  all_input variables = collect_environment variables >>= λ collected.
      ok (record { base = EnvironmentBase.all; variables = collected })

  -- The loop of `apply_to` that takes the variables in.
  unfoldable pub load_variables : NameTable OsString → Dict OsString → NameTable OsString
  unfolding replace_environment_name
  load_variables table [] = table
  load_variables table (variable ∷ variables) =
      load_variables (replace_environment_name variable.0 variable.1 table) variables

  unfoldable pub apply_override :
      OsString → EnvironmentOverride → NameTable OsString → NameTable OsString
  unfolding replace_environment_name remove_environment_name
  apply_override name (EnvironmentOverride.set value) table =
      replace_environment_name name value table
  apply_override name EnvironmentOverride.remove table = remove_environment_name name table

  -- The loop over the overrides.
  unfoldable pub apply_overrides :
      Dict EnvironmentOverride → NameTable OsString → NameTable OsString
  unfolding apply_override
  apply_overrides [] table = table
  apply_overrides (entry ∷ overrides) table =
      apply_overrides overrides (apply_override entry.0 entry.1 table)

unfoldable pub core_input : CoreEnvironment → EnvironmentInput
core_input environment = record { base = EnvironmentBase.core; variables = environment.variables }

unfoldable pub empty_input : EnvironmentInput
empty_input = record { base = EnvironmentBase.none; variables = [] }

module _ ⦃o : OsText⦄ ⦃w : WildMatch⦄ where
  pub record EnvironmentPattern : Type 0 where
    pub original : Text
    pub canonical : CaseFoldedText
    pub matcher : w.Matcher

  pub record EnvironmentSpec : Type 0 where
    pub base : EnvironmentBase
    pub overrides : NameTable EnvironmentOverride
    pub filters : List (EnvironmentPattern × EnvironmentFilterAction)

  -- `EnvironmentPattern::new`
  unfoldable pub new_environment_pattern : Text → Result CommandError EnvironmentPattern
  unfolding case_folded_text
  new_environment_pattern pattern = do
    fail_if (is_empty pattern) CommandError.empty_environment_pattern
    fail_if (contains_char 0 pattern) CommandError.environment_pattern_contains_nul
    fail_if (contains_char b'=' pattern) CommandError.environment_pattern_contains_equals
    ok (record {
      original = pattern;
      canonical = case_folded_text pattern;
      matcher = w.new_case_insensitive pattern;
    })

  abbrev pub pattern_accepts : EnvironmentPattern → Text → Bool
  pattern_accepts pattern name = w.is_match pattern.matcher name

  -- `inherit_all`, `empty` and `inherit_core`
  unfoldable pub new_spec : EnvironmentBase → EnvironmentSpec
  new_spec base = record { base = base; overrides = empty_table; filters = [] }

  unfoldable pub override_for : EnvironmentSpec → OsString → Option EnvironmentOverride
  unfolding environment_name_identity find_name lookup
  override_for spec name = elim (find_name (environment_name_identity name) spec.overrides.names) [
    | none ↦ none
    | some spelled ↦ lookup spelled spec.overrides.values
  ]

  -- The loop of `filter_action_for`.
  unfoldable pub filter_loop :
      List (EnvironmentPattern × EnvironmentFilterAction)
      → Text
      → Bool
      → Option EnvironmentFilterAction
  filter_loop [] name include_matches =
      if include_matches then some EnvironmentFilterAction.include else none
  filter_loop (filter ∷ filters) name include_matches =
      let same = filter_loop filters name include_matches in
      let included = filter_loop filters name true in
      if pattern_accepts filter.0 name
      then (if is_include filter.1 then included else some EnvironmentFilterAction.exclude)
      else same

  unfoldable pub filter_action_for : EnvironmentSpec → Text → Option EnvironmentFilterAction
  unfolding filter_loop
  filter_action_for spec name = filter_loop spec.filters name false

  abbrev pub excludes : EnvironmentSpec → Text → Bool
  excludes spec name =
      any (λ filter. not (is_include filter.1) && pattern_accepts filter.0 name) spec.filters

  abbrev pub includes : EnvironmentSpec → Text → Bool
  includes spec name =
      any (λ filter. is_include filter.1 && pattern_accepts filter.0 name) spec.filters

  abbrev pub has_include_filter : EnvironmentSpec → Bool
  has_include_filter spec = any (λ filter. is_include filter.1) spec.filters

  -- `name.to_str().is_some_and(test)`
  abbrev pub text_and : OsString → (Text → Bool) → Bool
  text_and name test = elim (o.to_str name) [ none ↦ false | some text ↦ test text ]

  -- The test of the first `retain`.
  unfoldable pub survives_exclusion : EnvironmentSpec → OsString → Bool
  survives_exclusion spec name =
      is_empty spec.filters || text_and name (λ text. not (excludes spec text))

  -- The test of the last `retain`, whichever of the two is made.
  unfoldable pub survives_inclusion : EnvironmentSpec → OsString → Bool
  survives_inclusion spec name =
      if has_include_filter spec
      then text_and name (λ text. includes spec text)
      else is_empty spec.filters || is_some (o.to_str name)

  -- `apply_to` behind its test of the base.
  unfoldable pub transformed : EnvironmentSpec → Dict OsString → Dict OsString
  unfolding load_variables survives_exclusion apply_overrides survives_inclusion
  transformed spec variables =
      let loaded = load_variables empty_table variables in
      let kept = record loaded {
        values = keep (λ (v : OsString × OsString). survives_exclusion spec v.0) loaded.values;
      } in
      let overridden = apply_overrides spec.overrides.values kept in
      keep (λ (v : OsString × OsString). survives_inclusion spec v.0) overridden.values

  -- `EnvironmentSpec::apply_to`
  unfoldable pub apply_to :
      EnvironmentSpec → EnvironmentInput → Result CommandError EnvironmentInput
  unfolding base_is_at_most transformed
  apply_to spec input = do
    fail_if (not (base_is_at_most input.base spec.base))
        (CommandError.environment_base_too_permissive spec.base input.base)
    ok (record { base = input.base; variables = transformed spec input.variables })

  unfoldable pub with_var :
      EnvironmentSpec → OsString → OsString → Result CommandError EnvironmentSpec
  unfolding validate_name replace_environment_name
  with_var spec name value = do
    validate_name name
    fail_if (contains_nul value) CommandError.environment_value_contains_nul
    ok (record spec {
      overrides = replace_environment_name name (EnvironmentOverride.set value) spec.overrides;
    })

  unfoldable pub without_var : EnvironmentSpec → OsString → Result CommandError EnvironmentSpec
  unfolding validate_name replace_environment_name
  without_var spec name = do
    validate_name name
    ok (record spec {
      overrides = replace_environment_name name EnvironmentOverride.remove spec.overrides;
    })

  -- `filters.remove` and `filters.insert`, which tell patterns by their canonical texts.
  unfoldable pub insert_filter :
      EnvironmentPattern
      → EnvironmentFilterAction
      → List (EnvironmentPattern × EnvironmentFilterAction)
      → List (EnvironmentPattern × EnvironmentFilterAction)
  unfolding folded_eq folded_ltb
  insert_filter pattern action [] = (pattern, action) ∷ []
  insert_filter pattern action (filter ∷ filters) =
      let rest = insert_filter pattern action filters in
      if folded_eq filter.0.canonical pattern.canonical
      then (pattern, action) ∷ filters
      else if folded_ltb pattern.canonical filter.0.canonical
      then (pattern, action) ∷ filter ∷ filters
      else filter ∷ rest

  unfoldable pub with_filter :
      EnvironmentSpec → Text → EnvironmentFilterAction → Result CommandError EnvironmentSpec
  unfolding new_environment_pattern insert_filter
  with_filter spec pattern action = do
    compiled ← new_environment_pattern pattern
    ok (record spec { filters = insert_filter compiled action spec.filters })

  unfoldable pub filters_equal :
      List (EnvironmentPattern × EnvironmentFilterAction)
      → List (EnvironmentPattern × EnvironmentFilterAction)
      → Bool
  unfolding folded_eq
  filters_equal [] [] = true
  filters_equal (a ∷ x) (b ∷ y) =
      folded_eq a.0.canonical b.0.canonical && (same_action a.1 b.1 && filters_equal x y)
  filters_equal _ _ = false

  -- The equality of `EnvironmentSpec`, which does not tell the spellings of a name.
  unfoldable pub specs_equal : EnvironmentSpec → EnvironmentSpec → Bool
  unfolding filters_equal find_name lookup
  specs_equal spec other =
      same_base spec.base other.base
      && (filters_equal spec.filters other.filters
          && (length spec.overrides.names == length other.overrides.names
              && all
                  (λ (entry : EnvironmentNameIdentity × OsString).
                    elim (find_name entry.0 other.overrides.names) [
                      | none ↦ false
                      | some other_name ↦
                          same_override (lookup entry.1 spec.overrides.values)
                            (lookup other_name other.overrides.values)
                    ])
                  spec.overrides.names))
