-- ===== src/Policy/Selector/Laws.antt =====
-- Selectors that the program holds to be equal resolve alike, and the key of a path is its
-- identity.
use cageforge.Base.{
  suc, true, not, List, [], ◌∷◌, ◌++◌, keep, ◌≡◌, refl, ap, sym, ◌∙◌, bool_ext, Bool-cases, inl,
  inr,
}
use cageforge.Path.Components.{
  FilePath, Component, components, plain_components, is_absolute, join, is_cur_dir, starts_at_root,
}
use cageforge.Path.Components.Joins.{
  plain_components-join, join_absolute, starts_at_root_relative, starts_at_root_absolute,
}
use cageforge.Path.Compare.{is_within}
use cageforge.Path.Resolve.Laws.{contains_parent_traversal_lem}
use cageforge.Policy.Selector.{count, is_normal, normal_component_count}

count-keep :
    (xs : List Component) → count is_normal (keep (λ c. not (is_cur_dir c)) xs) ≡ count is_normal xs
count-keep [] = refl
count-keep (Component.cur_dir ∷ xs) = count-keep xs
count-keep (Component.normal s ∷ xs) = ap suc (count-keep xs)
count-keep (Component.prefix s ∷ xs) = count-keep xs
count-keep (Component.root_dir ∷ xs) = count-keep xs
count-keep (Component.parent_dir ∷ xs) = count-keep xs

pub normal_component_count_lem :
    (path : FilePath) → normal_component_count path ≡ count is_normal (plain_components path)
unfolding normal_component_count plain_components
normal_component_count_lem path = sym (count-keep (components path))

-- Whether a path lies within a root depends on the components of the root alone.
pub is_within_root :
    (path a b : FilePath)
    → plain_components a ≡ plain_components b
    → is_within path a ≡ is_within path b
unfolding is_within
is_within_root path a b e =
    rw (contains_parent_traversal_lem a) (rw (contains_parent_traversal_lem b) (rw e))

absolute_of_plain :
    (a b : FilePath)
    → plain_components a ≡ plain_components b
    → is_absolute a ≡ true
    → is_absolute b ≡ true
absolute_of_plain a b e h = elim (Bool-cases (is_absolute b)) [
  | inl absolute ↦ absolute
  | inr relative ↦
      let s = starts_at_root_absolute a h in
      let t = starts_at_root_relative b relative in
      let same : starts_at_root (plain_components a) ≡ starts_at_root (plain_components b) =
        ap starts_at_root e in
      absurd (cc (s, t, same))
]

pub is_absolute-eq :
    (a b : FilePath) → plain_components a ≡ plain_components b → is_absolute a ≡ is_absolute b
is_absolute-eq a b e = bool_ext _ _ (absolute_of_plain a b e) (absolute_of_plain b a (sym e))

pub plain_components-join_eq :
    (root a b : FilePath)
    → plain_components a ≡ plain_components b
    → plain_components (join root a) ≡ plain_components (join root b)
plain_components-join_eq root a b e = elim (Bool-cases (is_absolute a)) [
  | inl absolute ↦
      ap plain_components (join_absolute root a absolute)
      ∙ e
      ∙ ap plain_components (sym (join_absolute root b (absolute_of_plain a b e absolute)))
  | inr relative ↦
      plain_components-join root a relative
      ∙ ap (λ x. plain_components root ++ x) e
      ∙ sym (plain_components-join root b (sym (is_absolute-eq a b e) ∙ relative))
]
