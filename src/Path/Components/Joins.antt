-- ===== src/Path/Components/Joins.antt =====
-- The components of a joined path, and `components` after `collect`.
use cageforge.Base.{
  ℕ, true, false, ◌||◌, List, [], ◌∷◌, ◌++◌, Text, codes, text_eq, split, split_first, ◌≡◌, ◌≢◌,
  refl, ap, ap₂, sym, ◌∙◌, arith, append_assoc, append-nil, Bool-cases, inl, inr, All, All-append,
}
use cageforge.Path.Components.{
  FilePath, Component, part_components, parts_components, is_absolute, plain_components,
  ends_closed, join, component_text, collect_from, collect, starts_at_root,
}
use cageforge.Path.Components.Laws.{
  split-append, parts_components-append, root_part, plain_components_lem,
}

abbrev pub parts_of : Text → List Component
parts_of s = parts_components (split b'/' s)

parts_of-append : (s t : Text) → parts_of (s ++ (b'/' ∷ t)) ≡ parts_of s ++ parts_of t
parts_of-append s t =
    ap parts_components (split-append b'/' s t)
    ∙ parts_components-append (split b'/' s) (split b'/' t)

parts_of-nil : parts_of [] ≡ []
unfolding parts_components split text_eq
parts_of-nil = refl

closed_form :
    (c : ℕ) (s : Text) → ends_closed (c ∷ s) ≡ true → (r : Text) × (c ∷ s ≡ r ++ (b'/' ∷ []))
unfolding ends_closed
closed_form c [] h = ([], ground arith)
closed_form c (d ∷ s) h = let (r, e) = closed_form d s h in (c ∷ r, ap (λ t. c ∷ t) e)

parts_of-append_form :
    (s r t : Text) → s ≡ r ++ (b'/' ∷ []) → parts_of (s ++ t) ≡ parts_of s ++ parts_of t
parts_of-append_form s r t e =
    let last : parts_of s ≡ parts_of r =
      ap parts_of e
      ∙ parts_of-append r []
      ∙ ap (λ x. parts_of r ++ x) parts_of-nil
      ∙ append-nil (parts_of r) in
    ap (λ x. parts_of (x ++ t)) e
    ∙ ap parts_of (append_assoc r (b'/' ∷ []) t)
    ∙ parts_of-append r t
    ∙ ap (λ x. x ++ parts_of t) (sym last)

-- A text that ends with the separator: the parts behind it are added as they are.
parts_of-append_closed :
    (c : ℕ) (s t : Text)
    → ends_closed (c ∷ s) ≡ true
    → parts_of (c ∷ (s ++ t)) ≡ parts_of (c ∷ s) ++ parts_of t
parts_of-append_closed c s t h =
    let (r, e) = closed_form c s h in parts_of-append_form (c ∷ s) r t e

pub plain_components_relative :
    (path : FilePath) → is_absolute path ≡ false → plain_components path ≡ parts_of path
plain_components_relative path h = plain_components_lem path ∙ rw h

-- The components of `base.join(path)`, for a relative path, are those of the two in turn.
pub plain_components-join :
    (base path : FilePath)
    → is_absolute path ≡ false
    → plain_components (join base path) ≡ plain_components base ++ plain_components path
unfolding join ends_closed
plain_components-join [] path h = rw h (rw (plain_components_lem []) (rw parts_of-nil))
plain_components-join (c ∷ s) path h = elim (Bool-cases (ends_closed (c ∷ s))) [
  | inl closed ↦
      let e : join (c ∷ s) path ≡ c ∷ (s ++ path) = rw (h, closed) in
      rw e (
        plain_components_lem (c ∷ (s ++ path))
        ∙ ap (λ x. root_part (c ∷ s) ++ x) (parts_of-append_closed c s path closed)
        ∙ sym (append_assoc (root_part (c ∷ s)) (parts_of (c ∷ s)) (parts_of path))
        ∙ ap₂ (λ x y. x ++ y) (sym (plain_components_lem (c ∷ s)))
            (sym (plain_components_relative path h)))
  | inr open_end ↦
      let e : join (c ∷ s) path ≡ c ∷ (s ++ (b'/' ∷ path)) = rw (h, open_end) in
      rw e (
        plain_components_lem (c ∷ (s ++ (b'/' ∷ path)))
        ∙ ap (λ x. root_part (c ∷ s) ++ x) (parts_of-append (c ∷ s) path)
        ∙ sym (append_assoc (root_part (c ∷ s)) (parts_of (c ∷ s)) (parts_of path))
        ∙ ap₂ (λ x y. x ++ y) (sym (plain_components_lem (c ∷ s)))
            (sym (plain_components_relative path h)))
]

pub join_absolute : (base path : FilePath) → is_absolute path ≡ true → join base path ≡ path
unfolding join
join_absolute base path h = rw h

-- A component as it stands below a directory.
abbrev pub IsPlain : Component → Type 0
IsPlain c = (is_absolute (component_text c) ≡ false) × (parts_of (component_text c) ≡ c ∷ [])

pub plain_components-collect_from :
    (base : FilePath) (cs : List Component)
    → All IsPlain cs
    → plain_components (collect_from base cs) ≡ plain_components base ++ cs
unfolding collect_from
plain_components-collect_from base [] h = sym (append-nil _)
plain_components-collect_from base (c ∷ cs) ((relative, one), h) =
    plain_components-collect_from (join base (component_text c)) cs h
    ∙ ap (λ x. x ++ cs)
        (plain_components-join base (component_text c) relative
          ∙ ap (λ x. plain_components base ++ x)
              (plain_components_relative (component_text c) relative ∙ one))
    ∙ append_assoc (plain_components base) (c ∷ []) cs

abbrev NoSlash : Text → Type 0
NoSlash = All (λ c. c ≢ b'/')

split_of_NoSlash : (s : Text) → NoSlash s → split_first b'/' s ≡ (s, [])
unfolding split_first
split_of_NoSlash [] h = refl
split_of_NoSlash (c ∷ s) (n, h) = rw (split_of_NoSlash s h, split_first) (ground arith)

split_first-NoSlash :
    (s : Text) → NoSlash (split_first b'/' s).0 × All NoSlash (split_first b'/' s).1
unfolding split_first
split_first-NoSlash [] = (tt, tt)
split_first-NoSlash (c ∷ s) = ground (arith, split_first-NoSlash s)

normal-IsPlain :
    (part : Text)
    → NoSlash part
    → text_eq part [] ≡ false
    → part_components part ≡ Component.normal part ∷ []
    → IsPlain (Component.normal part)
unfolding component_text parts_components split text_eq
normal-IsPlain [] n h e = cc
normal-IsPlain (c ∷ s) n h e = (ground arith, rw (split_of_NoSlash (c ∷ s) n) (ap (λ x. x ++ []) e))

parent_dir-IsPlain : IsPlain Component.parent_dir
unfolding component_text parts_components split text_eq
parent_dir-IsPlain = (refl, refl)

part_components-IsPlain : (part : Text) → NoSlash part → All IsPlain (part_components part)
part_components-IsPlain part n = elim (Bool-cases (text_eq part [] || text_eq part (codes "."))) [
  | inl skipped ↦
      let e : part_components part ≡ [] = unfold part_components in rw skipped in rw e tt
  | inr kept ↦ elim (Bool-cases (text_eq part (codes ".."))) [
    | inl up ↦
        let e : part_components part ≡ Component.parent_dir ∷ [] =
          unfold part_components in rw (kept, up) in
        rw e (parent_dir-IsPlain, tt)
    | inr down ↦
        let e : part_components part ≡ Component.normal part ∷ [] =
          unfold part_components in rw (kept, down) in
        rw e (normal-IsPlain part n (ground arith) e, tt)
  ]
]

parts_components-IsPlain :
    (parts : List Text) → All NoSlash parts → All IsPlain (parts_components parts)
unfolding parts_components
parts_components-IsPlain [] h = tt
parts_components-IsPlain (part ∷ parts) (n, h) =
    All-append IsPlain (part_components part) (parts_components parts)
      (part_components-IsPlain part n) (parts_components-IsPlain parts h)

pub parts_of-IsPlain : (s : Text) → All IsPlain (parts_of s)
unfolding split
parts_of-IsPlain s = parts_components-IsPlain _ (split_first-NoSlash s)

collect_from_root :
    (cs : List Component) → collect (Component.root_dir ∷ cs) ≡ collect_from (codes "/") cs
unfolding collect
collect_from_root cs = refl

plain_components_root : plain_components (codes "/") ≡ Component.root_dir ∷ []
unfolding plain_components text_eq
plain_components_root = refl

-- Collecting the components of a path, less its "." parts, gives a path with those components.
pub plain_components-collect :
    (path : FilePath) → plain_components (collect (plain_components path)) ≡ plain_components path
plain_components-collect path = elim (Bool-cases (is_absolute path)) [
  | inl absolute ↦
      let e : plain_components path ≡ Component.root_dir ∷ parts_of path =
        plain_components_lem path ∙ rw absolute in
      rw e (
        rw (collect_from_root (parts_of path)) (
          plain_components-collect_from (codes "/") (parts_of path) (parts_of-IsPlain path)
          ∙ ap (λ x. x ++ parts_of path) plain_components_root))
  | inr relative ↦ rw (plain_components_relative path relative) (
      unfold collect in
      (plain_components-collect_from [] (parts_of path) (parts_of-IsPlain path)
        ∙ ap (λ x. x ++ parts_of path) (plain_components_lem [] ∙ parts_of-nil)))
]

IsPlain-head : (cs : List Component) → All IsPlain cs → starts_at_root cs ≡ false
unfolding component_text
IsPlain-head [] h = refl
IsPlain-head (Component.root_dir ∷ cs) h = cc (h.0.0)
IsPlain-head (_ ∷ cs) h = refl

-- A relative path has no root component.
pub starts_at_root_relative :
    (path : FilePath) → is_absolute path ≡ false → starts_at_root (plain_components path) ≡ false
starts_at_root_relative path h =
    rw (plain_components_relative path h) (IsPlain-head (parts_of path) (parts_of-IsPlain path))

-- An absolute path has one, and so has its lexical form.
pub starts_at_root_absolute :
    (path : FilePath) → is_absolute path ≡ true → starts_at_root (plain_components path) ≡ true
starts_at_root_absolute path h = rw (plain_components_lem path) (rw h)
