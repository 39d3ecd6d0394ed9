-- ===== src/Path/Components.antt =====
-- What crates/cageforge-path uses of `std::path` on a POSIX host: the components of a path,
-- `Path::is_absolute`, `PathBuf::push`, `Path::join` and collecting components into a path. A
-- path is its text. `Component::Prefix` is a constructor, and no POSIX path has such a component.
pub mod Laws
pub mod Joins
use cageforge.Base.{
  ℕ, Bool, true, false, ◌&&◌, ◌||◌, not, List, [], ◌∷◌, ◌++◌, Text, codes, text_eq, split,
  starts_with_char, if◌then◌else◌, keep, any,
}

abbrev pub FilePath : Type 0
FilePath = Text

pub data Component : Type 0 where
  prefix : Text → Component
  root_dir cur_dir parent_dir : Component
  normal : Text → Component

-- `native::NativeComponentKey`, whose texts are not folded on this host.
pub data NativeComponentKey : Type 0 where
  prefix : Text → NativeComponentKey
  root_dir cur_dir parent_dir : NativeComponentKey
  normal : Text → NativeComponentKey

unfoldable pub component_key : Component → NativeComponentKey
component_key (Component.prefix s) = NativeComponentKey.prefix s
component_key Component.root_dir = NativeComponentKey.root_dir
component_key Component.cur_dir = NativeComponentKey.cur_dir
component_key Component.parent_dir = NativeComponentKey.parent_dir
component_key (Component.normal s) = NativeComponentKey.normal s

-- The derived `==` of the key.
unfoldable pub key_eq : NativeComponentKey → NativeComponentKey → Bool
key_eq (NativeComponentKey.prefix s) (NativeComponentKey.prefix t) = text_eq s t
key_eq NativeComponentKey.root_dir NativeComponentKey.root_dir = true
key_eq NativeComponentKey.cur_dir NativeComponentKey.cur_dir = true
key_eq NativeComponentKey.parent_dir NativeComponentKey.parent_dir = true
key_eq (NativeComponentKey.normal s) (NativeComponentKey.normal t) = text_eq s t
key_eq _ _ = false

unfoldable pub components_equal : Component → Component → Bool
unfolding component_key key_eq
components_equal left right = key_eq (component_key left) (component_key right)

-- The part of a path between two separators; empty parts and "." are skipped.
unfoldable pub part_components : Text → List Component
part_components part =
    if text_eq part [] || text_eq part (codes ".")
    then []
    else if text_eq part (codes "..")
    then Component.parent_dir ∷ []
    else Component.normal part ∷ []

unfoldable pub parts_components : List Text → List Component
unfolding part_components
parts_components [] = []
parts_components (part ∷ parts) = part_components part ++ parts_components parts

-- A leading "." of a relative path is kept.
unfoldable pub first_components : List Text → List Component
unfolding parts_components
first_components [] = []
first_components (part ∷ parts) =
    if text_eq part (codes ".")
    then Component.cur_dir ∷ parts_components parts
    else part_components part ++ parts_components parts

-- `Path::is_absolute`
abbrev pub is_absolute : FilePath → Bool
is_absolute path = starts_with_char b'/' path

-- `Path::components`
unfoldable pub components : FilePath → List Component
unfolding first_components parts_components split
components path =
    if is_absolute path
    then Component.root_dir ∷ parts_components (split b'/' path)
    else first_components (split b'/' path)

abbrev pub is_cur_dir : Component → Bool
is_cur_dir Component.cur_dir = true
is_cur_dir _ = false

abbrev pub is_parent_dir : Component → Bool
is_parent_dir Component.parent_dir = true
is_parent_dir _ = false

abbrev pub starts_at_root : List Component → Bool
starts_at_root (Component.root_dir ∷ _) = true
starts_at_root _ = false

-- `path.components().filter(|component| *component != Component::CurDir)`
unfoldable pub plain_components : FilePath → List Component
unfolding components
plain_components path = keep (λ c. not (is_cur_dir c)) (components path)

-- Whether the text ends with the separator; an empty one does not want a separator either.
unfoldable pub ends_closed : Text → Bool
ends_closed [] = true
ends_closed (c ∷ []) = starts_with_char b'/' (c ∷ [])
ends_closed (c ∷ d ∷ s) = ends_closed (d ∷ s)

-- `PathBuf::push`, and so `Path::join`
unfoldable pub join : FilePath → FilePath → FilePath
unfolding ends_closed
join base path =
    if is_absolute path
    then path
    else if ends_closed base
    then base ++ path
    else base ++ (b'/' ∷ path)

-- `Component::as_os_str`
unfoldable pub component_text : Component → Text
component_text (Component.prefix s) = s
component_text Component.root_dir = codes "/"
component_text Component.cur_dir = codes "."
component_text Component.parent_dir = codes ".."
component_text (Component.normal s) = s

-- `collect::<PathBuf>()`, the loop of pushes.
unfoldable pub collect_from : FilePath → List Component → FilePath
unfolding join component_text
collect_from base [] = base
collect_from base (c ∷ cs) = collect_from (join base (component_text c)) cs

unfoldable pub collect : List Component → FilePath
unfolding collect_from
collect cs = collect_from [] cs
