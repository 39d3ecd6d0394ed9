-- ===== src/Path/Resolve/Laws.antt =====
-- The normal form names the same path, and a resolved declaration stays below its base.
use cageforge.Base.{
  true, false, not, List, [], ◌∷◌, ◌++◌, is_empty, contains_char, text_eq_iff, if◌then◌else◌, ok,
  ◌≡◌, refl, ap, sym, ◌∙◌, arith, any, any-append, keep, subst,
}
use cageforge.Path.Components.{
  FilePath, Component, components, plain_components, is_absolute, join, collect, is_parent_dir,
  is_cur_dir, starts_at_root,
}
use cageforge.Path.Components.Joins.{
  plain_components-collect, plain_components-join, starts_at_root_relative,
}
use cageforge.Path.Compare.{contains_parent_traversal, paths_equal, is_within}
use cageforge.Path.Compare.Laws.{paths_equal_iff, is_within_iff, Below}
use cageforge.Path.Resolve.{normalize_lexical_path, resolve_lexical_path}

normalize_lexical_path_lem :
    (path : FilePath) → normalize_lexical_path path ≡ collect (plain_components path)
unfolding normalize_lexical_path
normalize_lexical_path_lem path = ground (arith, text_eq_iff (collect (plain_components path)) path)

pub plain_components-normalize_lexical_path :
    (path : FilePath) → plain_components (normalize_lexical_path path) ≡ plain_components path
plain_components-normalize_lexical_path path =
    ap plain_components (normalize_lexical_path_lem path) ∙ plain_components-collect path

-- A path and its normal form are equal to the program, and the normal form of a normal form is
-- itself.
pub normalize_lexical_path_laws :
    (path : FilePath)
    → (paths_equal (normalize_lexical_path path) path ≡ true)
      × (normalize_lexical_path (normalize_lexical_path path) ≡ normalize_lexical_path path)
normalize_lexical_path_laws path = (
  (paths_equal_iff _ _).1 (plain_components-normalize_lexical_path path),
  normalize_lexical_path_lem (normalize_lexical_path path)
      ∙ ap collect (plain_components-normalize_lexical_path path)
      ∙ sym (normalize_lexical_path_lem path),
)

any-keep :
    (xs : List Component)
    → any is_parent_dir (keep (λ c. not (is_cur_dir c)) xs) ≡ any is_parent_dir xs
any-keep [] = refl
any-keep (Component.cur_dir ∷ xs) = any-keep xs
any-keep (Component.parent_dir ∷ xs) = refl
any-keep (x ∷ xs) = any-keep xs

pub contains_parent_traversal_lem :
    (path : FilePath) → contains_parent_traversal path ≡ any is_parent_dir (plain_components path)
unfolding contains_parent_traversal plain_components
contains_parent_traversal_lem path = sym (any-keep (components path))

-- What a declaration names before it is normalised.
abbrev target : FilePath → FilePath → FilePath
target base declaration = if is_absolute declaration then declaration else join base declaration

-- The declaration passed every test.
abbrev IsPlainDeclaration : FilePath → Type 0
IsPlainDeclaration declaration =
    (is_empty declaration ≡ false)
    × (contains_char 0 declaration ≡ false)
    × (contains_parent_traversal declaration ≡ false)

resolve-eq-ok :
    (base declaration r : FilePath)
    → resolve_lexical_path base declaration ≡ ok r
    → IsPlainDeclaration declaration × (r ≡ normalize_lexical_path (target base declaration))
unfolding resolve_lexical_path
resolve-eq-ok base declaration r h = ground arith

Below-append :
    (base rest : List Component) → starts_at_root rest ≡ false → Below (base ++ rest) base
Below-append [] rest h = h
Below-append (b ∷ base) rest h = (rest, refl)

target-Below :
    (base declaration : FilePath)
    → is_absolute declaration ≡ false
    → contains_parent_traversal base ≡ false
    → contains_parent_traversal declaration ≡ false
    → (contains_parent_traversal (join base declaration) ≡ false)
      × Below (plain_components (join base declaration)) (plain_components base)
target-Below base declaration relative up_base up =
    rw (contains_parent_traversal_lem (join base declaration)) (
      rw (plain_components-join base declaration relative) (
        any-append is_parent_dir (plain_components base) (plain_components declaration)
            ∙ ground (
              arith,
              contains_parent_traversal_lem base,
              contains_parent_traversal_lem declaration,
            ),
        Below-append (plain_components base) (plain_components declaration)
            (starts_at_root_relative declaration relative),
      ))

resolve-plain_components :
    (base declaration r : FilePath)
    → resolve_lexical_path base declaration ≡ ok r
    → plain_components r ≡ plain_components (target base declaration)
resolve-plain_components base declaration r h =
    ap plain_components (resolve-eq-ok base declaration r h).1
    ∙ plain_components-normalize_lexical_path (target base declaration)

-- An absolute declaration that is accepted resolves to a path equal to itself, whatever the base.
pub resolve_lexical_path_absolute :
    (base declaration r : FilePath)
    → resolve_lexical_path base declaration ≡ ok r
    → is_absolute declaration ≡ true
    → paths_equal r declaration ≡ true
resolve_lexical_path_absolute base declaration r h absolute =
    (paths_equal_iff r declaration).1
      (resolve-plain_components base declaration r h ∙ ap plain_components (rw absolute))

-- A relative declaration that is accepted, against a base without "..", resolves to a path
-- within the base.
pub resolve_lexical_path_within :
    (base declaration r : FilePath)
    → resolve_lexical_path base declaration ≡ ok r
    → is_absolute declaration ≡ false
    → contains_parent_traversal base ≡ false
    → is_within r base ≡ true
resolve_lexical_path_within base declaration r h relative up_base =
    let up = (resolve-eq-ok base declaration r h).0.2 in
    let (clear, below) = target-Below base declaration relative up_base up in
    let joined : target base declaration ≡ join base declaration = rw relative in
    let parts : plain_components r ≡ plain_components (join base declaration) =
      resolve-plain_components base declaration r h ∙ ap plain_components joined in
    let traversal : contains_parent_traversal r ≡ false =
      contains_parent_traversal_lem r
      ∙ ap (any is_parent_dir) parts
      ∙ sym (contains_parent_traversal_lem (join base declaration))
      ∙ clear in
    (is_within_iff r base).1
      (traversal, up_base, subst (λ x. Below x (plain_components base)) (sym parts) below)
