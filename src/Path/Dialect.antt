-- ===== src/Path/Dialect.antt =====
-- crates/cageforge-path/src/lib.rs: paths as texts of a configuration, in a chosen dialect.
pub mod Host
use cageforge.Base.{
  ℕ, Bool, true, false, ◌&&◌, ◌||◌, ◌==◌, leb, List, [], ◌∷◌, ◌++◌, Text, codes, text_eq, split,
  starts_with_char, strip_prefix, is_some, ascii_lower, map, any, drop, if◌then◌else◌,
}

pub data PathDialect : Type 0 where
  posix windows : PathDialect

pub data PlatformComponentKey : Type 0 where
  prefix : Text → PlatformComponentKey
  root parent : PlatformComponentKey
  normal : Text → PlatformComponentKey

pub record PlatformPathKey : Type 0 where
  pub dialect : PathDialect
  pub key_components : List PlatformComponentKey

-- `str::to_lowercase`
pub record Lowercase : Type 0 where
  pub to_lowercase : Text → Text

-- The derived equalities.
abbrev pub dialect_eq : PathDialect → PathDialect → Bool
dialect_eq PathDialect.posix PathDialect.posix = true
dialect_eq PathDialect.windows PathDialect.windows = true
dialect_eq _ _ = false

unfoldable pub component_key_eq : PlatformComponentKey → PlatformComponentKey → Bool
component_key_eq (PlatformComponentKey.prefix s) (PlatformComponentKey.prefix t) = text_eq s t
component_key_eq PlatformComponentKey.root PlatformComponentKey.root = true
component_key_eq PlatformComponentKey.parent PlatformComponentKey.parent = true
component_key_eq (PlatformComponentKey.normal s) (PlatformComponentKey.normal t) = text_eq s t
component_key_eq _ _ = false

unfoldable pub component_keys_eq : List PlatformComponentKey → List PlatformComponentKey → Bool
unfolding component_key_eq
component_keys_eq [] [] = true
component_keys_eq (a ∷ x) (b ∷ y) = component_key_eq a b && component_keys_eq x y
component_keys_eq _ _ = false

unfoldable pub platform_key_eq : PlatformPathKey → PlatformPathKey → Bool
unfolding component_keys_eq
platform_key_eq a b =
    dialect_eq a.dialect b.dialect && component_keys_eq a.key_components b.key_components

abbrev pub is_ascii_alphabetic : ℕ → Bool
is_ascii_alphabetic c = let lower = ascii_lower c in leb b'a' lower && leb lower b'z'

abbrev pub is_separator : PathDialect → ℕ → Bool
is_separator PathDialect.posix c = c == b'/'
is_separator PathDialect.windows c = c == b'/' || c == b'\\'

-- A drive letter, a colon and a separator.
abbrev pub starts_at_drive : Text → Bool
starts_at_drive (letter ∷ colon ∷ c ∷ _) =
    is_ascii_alphabetic letter && (colon == b':' && is_separator PathDialect.windows c)
starts_at_drive _ = false

unfoldable pub is_absolute_text : Text → PathDialect → Bool
unfolding strip_prefix
is_absolute_text value PathDialect.posix = starts_with_char b'/' value
is_absolute_text value PathDialect.windows =
    is_some (strip_prefix (codes "\\\\") value)
    || (is_some (strip_prefix (codes "//") value) || starts_at_drive value)

-- The loop over the characters, with the component read so far.
unfoldable pub traversal_loop : PathDialect → Text → Text → Bool
unfolding text_eq
traversal_loop dialect component [] = false
traversal_loop dialect component (c ∷ s) =
    let cleared = traversal_loop dialect [] s in
    let pushed = traversal_loop dialect (component ++ (c ∷ [])) s in
    if is_separator dialect c
    then (if text_eq component (codes "..") then true else cleared)
    else pushed

unfoldable pub contains_parent_traversal_text : Text → PathDialect → Bool
unfolding traversal_loop
contains_parent_traversal_text value dialect = traversal_loop dialect [] (value ++ codes "/")

-- The loop over the parts of a POSIX text.
unfoldable pub posix_loop : List PlatformComponentKey → List Text → List PlatformComponentKey
posix_loop components [] = components
posix_loop components (part ∷ parts) =
    posix_loop
      (if text_eq part [] || text_eq part (codes ".")
        then components
        else if text_eq part (codes "..")
        then components ++ (PlatformComponentKey.parent ∷ [])
        else components ++ (PlatformComponentKey.normal part ∷ []))
      parts

unfoldable pub lexical_posix_components : Text → List PlatformComponentKey
unfolding posix_loop split
lexical_posix_components value =
    posix_loop (if starts_with_char b'/' value then PlatformComponentKey.root ∷ [] else [])
      (split b'/' value)

-- `get(..n)` with `eq_ignore_ascii_case`, for a text of ASCII.
unfoldable pub starts_with_ignoring_case : Text → Text → Bool
starts_with_ignoring_case [] s = true
starts_with_ignoring_case (a ∷ p) [] = false
starts_with_ignoring_case (a ∷ p) (c ∷ s) =
    ascii_lower a == ascii_lower c && starts_with_ignoring_case p s

-- The text without its verbatim or device prefix, with "/" for its separators.
unfoldable pub ordinary_text : Text → Text
unfolding starts_with_ignoring_case
ordinary_text raw =
    let value = map (λ c. if c == b'\\' then b'/' else c) raw in
    if starts_with_ignoring_case (codes "//?/unc/") value
      || starts_with_ignoring_case (codes "//./unc/") value
    then codes "//" ++ drop 8 value
    else if starts_with_ignoring_case (codes "//?/") value
        || starts_with_ignoring_case (codes "//./") value
    then drop 4 value
    else value

abbrev pub is_drive : Text → Bool
is_drive (letter ∷ colon ∷ []) = colon == b':' && is_ascii_alphabetic letter
is_drive _ = false

abbrev pub is_prefix : PlatformComponentKey → Bool
is_prefix (PlatformComponentKey.prefix _) = true
is_prefix _ = false

module _ ⦃l : Lowercase⦄ where
  -- The loop over the parts of a Windows text.
  unfoldable pub windows_loop : List PlatformComponentKey → List Text → List PlatformComponentKey
  windows_loop components [] = components
  windows_loop components (part ∷ parts) =
      windows_loop
        (if text_eq part [] || text_eq part (codes ".")
          then components
          else if is_drive part && any is_prefix components
          then components
          else if text_eq part (codes "..")
          then components ++ (PlatformComponentKey.parent ∷ [])
          else components ++ (PlatformComponentKey.normal (l.to_lowercase part) ∷ []))
        parts

  unfoldable pub lexical_windows_components : Text → List PlatformComponentKey
  unfolding windows_loop ordinary_text split strip_prefix
  lexical_windows_components raw =
      let value = ordinary_text raw in
      elim (split b'/' value) [
        | [] ↦ []
        | first ∷ rest ↦
            if is_drive first
            then windows_loop
                (PlatformComponentKey.prefix (map ascii_lower first)
                  ∷ (if starts_with_char b'/' (drop 2 value)
                      then PlatformComponentKey.root ∷ []
                      else []))
                rest
            else windows_loop
                (if is_some (strip_prefix (codes "//") value)
                  then PlatformComponentKey.root ∷ PlatformComponentKey.prefix (codes "unc") ∷ []
                  else [])
                (first ∷ rest)
      ]

  unfoldable pub new_platform_key : Text → PathDialect → PlatformPathKey
  unfolding lexical_posix_components lexical_windows_components
  new_platform_key value PathDialect.posix = record {
    dialect = PathDialect.posix;
    key_components = lexical_posix_components value;
  }
  new_platform_key value PathDialect.windows = record {
    dialect = PathDialect.windows;
    key_components = lexical_windows_components value;
  }
