-- ===== src/Policy/Glob.antt =====
-- crates/cageforge-policy/src/path.rs: matching the components of a glob. The crate `globset`,
-- which compiles and matches one component, is the interface `GlobSet`.
pub mod Matching
use cageforge.Base.{
  ℕ, zero, suc, ◌+◌, ◌<◌, Bool, true, false, not, ◌&&◌, ◌||◌, Option, none, some, List, [], ◌∷◌,
  ◌++◌, map, Text, codes, is_empty, contains_char, any, all, text_eq, if◌then◌else◌, Result, ok,
  err, ◌>>=◌, ◌>>◌, fail_if, map_err, drop, length, leb, ltb, ◌==◌,
}
use mathlib.Core.Option
use cageforge.Path.Components.{FilePath, Component, components, is_absolute, join, component_text}
use cageforge.Path.Resolve.{normalize_lexical_path}
use cageforge.Policy.Error.{PolicyError}
use cageforge.Policy.Selector.{count, contains_nul}
use cageforge.Policy.Context.{PathResolutionContext}

-- What `GlobBuilder` is told.
pub record GlobOptions : Type 0 where
  pub case_insensitive : Bool
  pub literal_separator : Bool
  pub backslash_escape : Bool

-- `globset`: building a matcher from a glob, or the text of the error, and asking it.
pub record GlobSet : Type 1 where
  pub GlobMatcher : Type 0
  pub build : GlobOptions → Text → Result Text GlobMatcher
  pub is_match : GlobMatcher → Text → Bool

module _ ⦃g : GlobSet⦄ where
  -- One row of the table of `glob_components_match`: its next entries, from the entry before in
  -- the old row, the entry before in the new row, and the rest of the old row.
  unfoldable pub star_row : Bool → List Bool → List Bool
  star_row left [] = []
  star_row left (above ∷ current) = let now = above || left in now ∷ star_row now current

  unfoldable pub single_row : g.GlobMatcher → Bool → List Bool → List Text → List Bool
  single_row matcher before (above ∷ current) (part ∷ path) =
      (before && g.is_match matcher part) ∷ single_row matcher above current path
  single_row matcher before _ _ = []

  -- A row has its entry for the empty part of the path, and one for each component.
  unfoldable pub next_row : Text → g.GlobMatcher → List Bool → List Text → List Bool
  unfolding star_row single_row
  next_row pattern matcher [] path = []
  next_row pattern matcher (first ∷ current) path =
      if text_eq pattern (codes "**")
      then first ∷ star_row first current
      else false ∷ single_row matcher first current path

  abbrev pub first_row : List Text → List Bool
  first_row path = true ∷ map (λ _. false) path

  -- The loop over the components of the pattern, with their matchers: `matchers[pattern_index]` is
  -- there for each, since a pattern is compiled to one matcher a component.
  unfoldable pub rows_loop : List Text → List g.GlobMatcher → List Bool → List Text → List Bool
  unfolding next_row
  rows_loop (pattern ∷ patterns) (matcher ∷ matchers) current path =
      rows_loop patterns matchers (next_row pattern matcher current path) path
  rows_loop _ _ current path = current

  -- `current[path.len()]`
  abbrev pub last_or : Bool → List Bool → Bool
  last_or d [] = d
  last_or d (b ∷ bs) = last_or b bs

  unfoldable pub glob_components_match : List Text → List g.GlobMatcher → List Text → Bool
  unfolding rows_loop
  glob_components_match patterns matchers path =
      last_or false (rows_loop patterns matchers (first_row path) path)
