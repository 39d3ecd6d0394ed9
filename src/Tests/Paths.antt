-- ===== src/Tests/Paths.antt =====
-- The theorems on paths at concrete paths.
use cageforge.Base.{
  true, false, List, [], ◌∷◌, ◌++◌, Text, codes, ok, ◌≡◌, ◌↔◌, refl, not, ◌≢◌, ◌||◌, any,
}
use cageforge.Path.Components.{FilePath, Component, plain_components, join, is_absolute}
use cageforge.Path.Components.Joins.{plain_components-join}
use cageforge.Path.Compare.{is_within, contains_parent_traversal, contains_component_path}
use cageforge.Path.Compare.Laws.{is_within_iff, Below}
use cageforge.Path.Compare.Order.{contains_component_path_iff, HasRun}
use cageforge.Path.Resolve.{resolve_lexical_path, normalize_lexical_path}
use cageforge.Path.Resolve.Laws.{resolve_lexical_path_within}
use cageforge.Tests.{work, work_file}

is_within_runs : is_within work_file work ≡ true
unfolding is_within contains_parent_traversal cageforge.Path.Components.components
    cageforge.Base.text_eq plain_components cageforge.Path.Components.components_equal
is_within_runs = refl

resolve_lexical_path_within_example : is_within (codes "/w/src/f") (codes "/w") ≡ true
unfolding resolve_lexical_path contains_parent_traversal cageforge.Path.Components.components
    cageforge.Base.text_eq normalize_lexical_path cageforge.Path.Components.collect plain_components
resolve_lexical_path_within_example =
    resolve_lexical_path_within (codes "/w") (codes "src/./f") (codes "/w/src/f") refl refl refl

is_within_iff_example : (is_within work_file work ≡ true) ↔ (
    (contains_parent_traversal work_file ≡ false)
    × (contains_parent_traversal work ≡ false)
    × Below (plain_components work_file) (plain_components work))
is_within_iff_example = is_within_iff work_file work

contains_component_path_iff_example :
    (contains_component_path (codes "/w/.git/hooks") (codes ".git") ≡ true) ↔ (
      (plain_components (codes ".git") ≢ [])
      × HasRun (plain_components (codes "/w/.git/hooks")) (plain_components (codes ".git")))
contains_component_path_iff_example =
    contains_component_path_iff (codes "/w/.git/hooks") (codes ".git")

plain_components-join_example :
    plain_components (join (codes "/w/") (codes "src/f"))
    ≡ plain_components (codes "/w/") ++ plain_components (codes "src/f")
plain_components-join_example = plain_components-join (codes "/w/") (codes "src/f") refl
