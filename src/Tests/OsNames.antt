-- ===== src/Tests/OsNames.antt =====
-- The application of an environment to a name that is not a text, on concrete inputs.
use cageforge.Base.{
  Bool, ◌≡◌, refl, arith, List, [], ◌∷◌, Text, codes, text_eq, map, ascii_lower, none, some, lookup,
  if◌then◌else◌, Result, ok, err,
}
use cageforge.Command.Error.{EnvironmentBase}
use cageforge.Command.Names.{OsText}
use cageforge.Command.Environment.{
  WildMatch, EnvironmentFilterAction, EnvironmentSpec, new_spec, with_var, with_filter, transformed,
}

-- The name "X" stands for one that is not a text.
instance abbrev odd : OsText
odd = record {
  to_str = λ name. if text_eq name (codes "X") then none else some name;
  to_lowercase = λ c. ascii_lower c ∷ [];
}

instance abbrev exact : WildMatch
exact = record {
  Matcher = Text;
  new_case_insensitive = λ pattern. pattern;
  is_match = λ matcher name. text_eq (map ascii_lower matcher) (map ascii_lower name);
}

abbrev or_empty : {E : Type 0} → Result E EnvironmentSpec → EnvironmentSpec
or_empty (ok spec) = spec
or_empty (err e) = new_spec EnvironmentBase.all

abbrev setting : EnvironmentSpec
setting = or_empty (with_var (new_spec EnvironmentBase.all) (codes "X") (codes "1"))

abbrev filtered : EnvironmentSpec
filtered = or_empty (with_filter setting (codes "token") EnvironmentFilterAction.exclude)

-- It is set where there are no filters, and one that only excludes another name leaves it out.
setting_runs : lookup (codes "X") (transformed setting []) ≡ some (codes "1")
unfolding transformed with_var new_spec lookup cageforge.Base.insert
setting_runs = refl

filtered_runs : lookup (codes "X") (transformed filtered []) ≡ none
unfolding transformed with_var new_spec with_filter lookup cageforge.Base.insert
filtered_runs = refl
