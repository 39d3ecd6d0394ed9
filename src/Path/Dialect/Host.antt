-- ===== src/Path/Dialect/Host.antt =====
-- crates/cageforge-path/src/lib.rs: on a POSIX host, texts in the POSIX dialect against paths.
use cageforge.Base.{
  Bool, true, false, ◌||◌, List, [], ◌∷◌, ◌++◌, Text, codes, text_eq, split, split_first, map, any,
  any-append, if◌then◌else◌, ◌≡◌, refl, sym, ap, ap₂, ◌∙◌, arith, append_assoc, append-nil,
}
use cageforge.Path.Components.{
  Component, components_equal, part_components, parts_components, first_components, components,
  is_parent_dir, plain_components,
}
use cageforge.Path.Components.Laws.{plain_components_lem}
use cageforge.Path.Compare.{equal_loop, paths_equal, contains_parent_traversal}
use cageforge.Path.Dialect.{
  PathDialect, PlatformComponentKey, Lowercase, component_key_eq, component_keys_eq,
  platform_key_eq, traversal_loop, contains_parent_traversal_text, posix_loop,
  lexical_posix_components, new_platform_key,
}

-- The component that a key stands for.
abbrev of_key : PlatformComponentKey → Component
of_key (PlatformComponentKey.prefix s) = Component.prefix s
of_key PlatformComponentKey.root = Component.root_dir
of_key PlatformComponentKey.parent = Component.parent_dir
of_key (PlatformComponentKey.normal s) = Component.normal s

map-append-of_key :
    (x y : List PlatformComponentKey) → map of_key (x ++ y) ≡ map of_key x ++ map of_key y
map-append-of_key [] y = refl
map-append-of_key (a ∷ x) y = ap (λ t. of_key a ∷ t) (map-append-of_key x y)

-- The loop adds the components of each part.
posix_loop-step :
    (keys : List PlatformComponentKey) (part : Text)
    → map of_key (
        if text_eq part [] || text_eq part (codes ".")
        then keys
        else if text_eq part (codes "..")
        then keys ++ (PlatformComponentKey.parent ∷ [])
        else keys ++ (PlatformComponentKey.normal part ∷ []))
      ≡ map of_key keys ++ part_components part
unfolding part_components
posix_loop-step keys part = ground (
  arith,
  append-nil (map of_key keys),
  map-append-of_key keys (PlatformComponentKey.parent ∷ []),
  map-append-of_key keys (PlatformComponentKey.normal part ∷ []),
)

posix_loop_lem :
    (parts : List Text) (keys : List PlatformComponentKey)
    → map of_key (posix_loop keys parts) ≡ map of_key keys ++ parts_components parts
unfolding posix_loop parts_components
posix_loop_lem [] keys = sym (append-nil (map of_key keys))
posix_loop_lem (part ∷ parts) keys =
    posix_loop_lem parts _
    ∙ ap (λ t. t ++ parts_components parts) (posix_loop-step keys part)
    ∙ append_assoc (map of_key keys) (part_components part) (parts_components parts)

lexical_posix_components_lem :
    (value : Text) → map of_key (lexical_posix_components value) ≡ plain_components value
unfolding lexical_posix_components
lexical_posix_components_lem value =
    posix_loop_lem (split b'/' value) _ ∙ ground (arith, plain_components_lem value)

keys_equal :
    (a b : PlatformComponentKey) → components_equal (of_key a) (of_key b) ≡ component_key_eq a b
unfolding components_equal component_key_eq
keys_equal (PlatformComponentKey.prefix s) _ = ground arith
keys_equal PlatformComponentKey.root _ = ground arith
keys_equal PlatformComponentKey.parent _ = ground arith
keys_equal (PlatformComponentKey.normal s) _ = ground arith

equal_loop-of_key :
    (x y : List PlatformComponentKey)
    → equal_loop (map of_key x) (map of_key y) ≡ component_keys_eq x y
unfolding equal_loop component_keys_eq
equal_loop-of_key [] [] = refl
equal_loop-of_key [] (b ∷ y) = refl
equal_loop-of_key (a ∷ x) [] = refl
equal_loop-of_key (a ∷ x) (b ∷ y) = ground (arith, keys_equal a b, equal_loop-of_key x y)

abbrev is_dots : Text → Bool
is_dots part = text_eq part (codes "..")

part_components-is_dots : (part : Text) → any is_parent_dir (part_components part) ≡ is_dots part
unfolding part_components text_eq
part_components-is_dots [] = refl
part_components-is_dots (a ∷ []) = ground arith
part_components-is_dots (a ∷ b ∷ []) = ground arith
part_components-is_dots (a ∷ b ∷ c ∷ s) = ground arith

parts_components-is_dots :
    (parts : List Text) → any is_parent_dir (parts_components parts) ≡ any is_dots parts
unfolding parts_components
parts_components-is_dots [] = refl
parts_components-is_dots (part ∷ parts) =
    any-append is_parent_dir (part_components part) (parts_components parts)
    ∙ ap₂ (λ a b. a || b) (part_components-is_dots part) (parts_components-is_dots parts)

dot_not_dots : (part : Text) → text_eq part (codes ".") ≡ true → is_dots part ≡ false
unfolding text_eq
dot_not_dots [] h = refl
dot_not_dots (a ∷ []) h = ground arith
dot_not_dots (a ∷ b ∷ s) h = ground arith

first_components-is_dots :
    (parts : List Text) → any is_parent_dir (first_components parts) ≡ any is_dots parts
unfolding first_components parts_components
first_components-is_dots [] = refl
first_components-is_dots (part ∷ parts) = ground (
  arith,
  dot_not_dots part,
  parts_components-is_dots parts,
  parts_components-is_dots (part ∷ parts),
)

components-is_dots :
    (value : Text) → any is_parent_dir (components value) ≡ any is_dots (split b'/' value)
unfolding components split first_components text_eq
components-is_dots value = ground (
  arith,
  parts_components-is_dots (split b'/' value),
  first_components-is_dots (split b'/' value),
)

traversal_loop_lem :
    (component value : Text)
    → traversal_loop PathDialect.posix component (value ++ codes "/")
      ≡ (let (part, parts) = split_first b'/' value in any is_dots ((component ++ part) ∷ parts))
unfolding traversal_loop split_first
traversal_loop_lem component [] = ground (arith, append-nil component)
traversal_loop_lem component (c ∷ s) = ground (
  arith,
  append-nil component,
  append_assoc component (c ∷ []) (split_first b'/' s).0,
  traversal_loop_lem [] s,
  traversal_loop_lem (component ++ (c ∷ [])) s,
)

module _ ⦃l : Lowercase⦄ where
  -- For texts in the POSIX dialect, on a POSIX host, the keys of two texts are equal exactly where
  -- the host's comparison finds the paths equal, and the test of a text for parent traversal is
  -- that of the path.
  pub posix_reading-eq-host :
      (left right : Text)
      → (platform_key_eq
            (new_platform_key left PathDialect.posix)
            (new_platform_key right PathDialect.posix)
          ≡ paths_equal left right)
        × (contains_parent_traversal_text left PathDialect.posix ≡ contains_parent_traversal left)
  unfolding platform_key_eq new_platform_key paths_equal contains_parent_traversal_text
      contains_parent_traversal
  posix_reading-eq-host left right = (
    sym (equal_loop-of_key (lexical_posix_components left) (lexical_posix_components right))
        ∙ ap₂ equal_loop (lexical_posix_components_lem left) (lexical_posix_components_lem right),
    traversal_loop_lem [] left ∙ sym (components-is_dots left),
  )
