-- ===== src/Path/Components/Laws.antt =====
-- The components of a joined path, and collecting components undone by `components`.
use cageforge.Base.{
  ℕ, Bool, true, not, List, [], ◌∷◌, ◌++◌, Text, text_eq_iff, split, if◌then◌else◌, keep,
  keep-append, ◌≡◌, refl, ap, ap₂, sym, ◌∙◌, arith, ◌↔◌, append_assoc,
}
use cageforge.Path.Components.{
  FilePath, Component, components_equal, part_components, parts_components, first_components,
  is_absolute, is_cur_dir, plain_components,
}

-- Two components are equal to the program exactly when they are the same.
pub components_equal_iff : (a b : Component) → (components_equal a b ≡ true) ↔ (a ≡ b)
unfolding components_equal
components_equal_iff (Component.prefix s) (Component.prefix t) = ground (arith, text_eq_iff s t)
components_equal_iff (Component.normal s) (Component.normal t) = ground (arith, text_eq_iff s t)
components_equal_iff _ _ = ground arith

pub parts_components-append :
    (xs ys : List Text) → parts_components (xs ++ ys) ≡ parts_components xs ++ parts_components ys
unfolding parts_components
parts_components-append [] ys = refl
parts_components-append (x ∷ xs) ys =
    ap (λ t. part_components x ++ t) (parts_components-append xs ys)
    ∙ sym (append_assoc (part_components x) (parts_components xs) (parts_components ys))

-- A separator splits a text into the parts before it and the parts behind it.
pub split-append : (sep : ℕ) (s t : Text) → split sep (s ++ (sep ∷ t)) ≡ split sep s ++ split sep t
unfolding split
split-append sep [] t = ground arith
split-append sep (c ∷ s) t = ground (arith, split-append sep s t)

abbrev not_cur_dir : Component → Bool
not_cur_dir c = not (is_cur_dir c)

keep-part_components :
    (part : Text) → keep not_cur_dir (part_components part) ≡ part_components part
unfolding part_components
keep-part_components part = ground arith

keep-parts_components :
    (parts : List Text) → keep not_cur_dir (parts_components parts) ≡ parts_components parts
unfolding parts_components
keep-parts_components [] = refl
keep-parts_components (part ∷ parts) =
    keep-append not_cur_dir (part_components part) (parts_components parts)
    ∙ ap₂ (λ x y. x ++ y) (keep-part_components part) (keep-parts_components parts)

keep-first_components :
    (parts : List Text) → keep not_cur_dir (first_components parts) ≡ parts_components parts
unfolding first_components
keep-first_components [] = refl
keep-first_components (part ∷ parts) =
    ground (arith, keep-parts_components parts, keep-parts_components (part ∷ parts))

abbrev pub root_part : FilePath → List Component
root_part path = if is_absolute path then Component.root_dir ∷ [] else []

-- Without the "." parts, a path is its root, if it has one, and its parts.
pub plain_components_lem :
    (path : FilePath) → plain_components path ≡ root_part path ++ parts_components (split b'/' path)
unfolding plain_components
plain_components_lem path =
    ground (arith, keep-parts_components (split b'/' path), keep-first_components (split b'/' path))
