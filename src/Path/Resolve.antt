-- ===== src/Path/Resolve.antt =====
-- crates/cageforge-path/src/lib.rs: the lexical normal form of a path, and declarations resolved
-- against a base directory.
pub mod Laws
use cageforge.Base.{
  ℕ, Bool, true, false, Text, is_empty, contains_char, text_eq, if◌then◌else◌, Result, ok, err,
}
use cageforge.Path.Components.{FilePath, plain_components, is_absolute, join, collect}
use cageforge.Path.Compare.{contains_parent_traversal}

-- The path itself, if removing the "." parts changes nothing in its text.
unfoldable pub normalize_lexical_path : FilePath → FilePath
normalize_lexical_path path =
    let normalized = collect (plain_components path) in
    if text_eq normalized path then path else normalized

pub data PathResolutionError : Type 0 where
  empty contains_nul parent_traversal : PathResolutionError

unfoldable pub resolve_lexical_path : FilePath → FilePath → Result PathResolutionError FilePath
resolve_lexical_path base declaration =
    if is_empty declaration
    then err PathResolutionError.empty
    else if contains_char 0 declaration
    then err PathResolutionError.contains_nul
    else if contains_parent_traversal declaration
    then err PathResolutionError.parent_traversal
    else ok (
        normalize_lexical_path
          (if is_absolute declaration then declaration else join base declaration))
