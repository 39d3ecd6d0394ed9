-- ===== src/Policy/Pattern.antt =====
-- crates/cageforge-policy/src/path.rs: `PathPattern`, a validated glob over paths.
use cageforge.Base.{
  ℕ, Bool, true, false, not, ◌&&◌, ◌||◌, Option, none, some, List, [], ◌∷◌, ◌++◌, map, Text, codes,
  is_empty, contains_char, any, all, text_eq, if◌then◌else◌, Result, ok, err, ◌>>=◌, ◌>>◌, fail_if,
  map_err, drop, length, leb, ltb, ◌==◌,
}
use mathlib.Core.Option
use cageforge.Path.Components.{FilePath, Component, components, is_absolute, join}
use cageforge.Path.Resolve.{normalize_lexical_path}
use cageforge.Policy.Error.{PolicyError}
use cageforge.Policy.Selector.{count}
use cageforge.Policy.Context.{PathResolutionContext}
use cageforge.Policy.Glob.{GlobSet, glob_components_match}

-- `char::is_whitespace`
abbrev pub is_whitespace : ℕ → Bool
is_whitespace c =
    (leb 9 c && leb c 13)
    || (c == 32
        || (c == 0x85
            || (c == 0xa0
                || (c == 0x1680
                    || ((leb 0x2000 c && leb c 0x200a)
                        || (c == 0x2028
                            || (c == 0x2029 || (c == 0x202f || (c == 0x205f || c == 0x3000)))))))))

abbrev pub is_glob_meta : ℕ → Bool
is_glob_meta c = c == b'*' || (c == b'?' || (c == b'[' || (c == b']' || (c == b'{' || c == b'}'))))

unfoldable pub contains_glob_meta : Text → Bool
contains_glob_meta component = any is_glob_meta component

-- `case_fold` of crates/cageforge-path on a POSIX host.
unfoldable pub case_fold : Text → Text
case_fold value = value

unfoldable pub prefixes_equal : Option Text → Option Text → Bool
prefixes_equal (some left) (some right) = text_eq left right
prefixes_equal none none = true
prefixes_equal _ _ = false

-- The loop of `path_components`, which drops ".." as well as the root.
unfoldable pub split_prefix : Option Text → List Text → List Component → Option Text × List Text
split_prefix prefix parts [] = (prefix, parts)
split_prefix prefix parts (Component.prefix value ∷ cs) = split_prefix (some value) parts cs
split_prefix prefix parts (Component.normal value ∷ cs) =
    split_prefix prefix (parts ++ (value ∷ [])) cs
split_prefix prefix parts (_ ∷ cs) = split_prefix prefix parts cs

unfoldable pub path_components : FilePath → Option Text × List Text
unfolding split_prefix
path_components path = split_prefix none [] (components (normalize_lexical_path path))

-- `root_components.iter().zip(&path_parts).all(…)`
unfoldable pub zip_texts_equal : List Text → List Text → Bool
zip_texts_equal (root ∷ roots) (path ∷ paths) = text_eq path root && zip_texts_equal roots paths
zip_texts_equal _ _ = true

unfoldable pub relative_path_components : FilePath → FilePath → Option (List Text)
unfolding path_components prefixes_equal zip_texts_equal
relative_path_components path root =
    let (path_prefix, path_parts) = path_components path in
    let (root_prefix, root_components) = path_components root in
    if not (prefixes_equal path_prefix root_prefix)
      || (ltb (length path_parts) (length root_components)
          || not (zip_texts_equal root_components path_parts))
    then none
    else some (drop (length root_components) path_parts)

module _ ⦃g : GlobSet⦄ where
  pub record PathPattern : Type 0 where
    pub raw : Text
    pub absolute : Bool
    pub prefix : Option Text
    pub components : List Text
    pub matchers : List g.GlobMatcher

  unfoldable pub compile_glob_component : Text → Text → Result PolicyError g.GlobMatcher
  unfolding case_fold
  compile_glob_component component pattern =
      map_err
        (λ error. PolicyError.invalid_glob_pattern pattern (codes "invalid glob syntax: " ++ error))
        (g.build
          (record { case_insensitive = false; literal_separator = true; backslash_escape = false })
          (case_fold component))

  -- The loop of `PathPattern::new` over the components.
  unfoldable pub pattern_loop :
      Text
      → Option Text
      → List Text
      → List g.GlobMatcher
      → List Component
      → Result PolicyError (Option Text × List Text × List g.GlobMatcher)
  pattern_loop raw prefix parts matchers [] = ok (prefix, parts, matchers)
  pattern_loop raw prefix parts matchers (Component.prefix value ∷ cs) =
      pattern_loop raw (some value) parts matchers cs
  pattern_loop raw prefix parts matchers (Component.root_dir ∷ cs) =
      pattern_loop raw prefix parts matchers cs
  pattern_loop raw prefix parts matchers (Component.cur_dir ∷ cs) =
      pattern_loop raw prefix parts matchers cs
  pattern_loop raw prefix parts matchers (Component.parent_dir ∷ cs) =
      err (PolicyError.invalid_glob_pattern raw (codes "parent traversal is not allowed"))
  pattern_loop raw prefix parts matchers (Component.normal value ∷ cs) =
      elim (compile_glob_component value raw) [
        | ok matcher ↦
            pattern_loop raw prefix (parts ++ (value ∷ [])) (matchers ++ (matcher ∷ [])) cs
        | err e ↦ err e
      ]

  -- `PathPattern::new`
  unfoldable pub new_pattern : Text → Bool → Result PolicyError PathPattern
  unfolding pattern_loop
  new_pattern raw absolute = do
    fail_if (all is_whitespace raw)
        (PolicyError.invalid_glob_pattern raw (codes "pattern cannot be empty"))
    fail_if (contains_char 0 raw)
        (PolicyError.invalid_glob_pattern raw (codes "pattern cannot contain a NUL character"))
    let path = normalize_lexical_path raw
    fail_if (absolute && not (is_absolute path)) (
        PolicyError.invalid_glob_pattern raw
          (codes "absolute glob must use a native absolute path"))
    fail_if (not absolute && is_absolute path)
        (PolicyError.invalid_glob_pattern raw (codes "workspace glob must be relative"))
    (prefix, parts, matchers) ← pattern_loop raw none [] [] (components path)
    fail_if (is_empty parts)
        (PolicyError.invalid_glob_pattern raw (codes "pattern must contain at least one component"))
    ok (record {
      raw = raw;
      absolute = absolute;
      prefix = prefix;
      components = parts;
      matchers = matchers;
    })

  -- The test of a workspace glob against one root.
  unfoldable pub matches_below : PathPattern → FilePath → FilePath → Bool
  unfolding relative_path_components glob_components_match
  matches_below pattern path root = elim (relative_path_components path root) [
    | none ↦ false
    | some parts ↦ glob_components_match pattern.components pattern.matchers parts
  ]

  -- `PathPattern::matches`
  unfoldable pub pattern_matches : PathPattern → FilePath → PathResolutionContext → Bool
  unfolding path_components prefixes_equal glob_components_match matches_below
  pattern_matches pattern path context =
      if pattern.absolute
      then is_absolute path
        && (prefixes_equal (path_components path).0 pattern.prefix
            && glob_components_match pattern.components pattern.matchers (path_components path).1)
      else any (matches_below pattern path) context.workspace_roots

  unfoldable pub specificity : PathPattern → ℕ
  unfolding contains_glob_meta
  specificity pattern = count (λ component. not (contains_glob_meta component)) pattern.components

  unfoldable pub semantic_key : PathPattern → Bool × Option Text × List Text
  unfolding case_fold
  semantic_key pattern =
      (pattern.absolute, Option.map case_fold pattern.prefix, map case_fold pattern.components)

  -- `literal_prefix`: the path before the first component that is no plain name.
  unfoldable pub literal_loop : FilePath → List Component → FilePath
  unfolding contains_glob_meta join
  literal_loop prefix [] = prefix
  literal_loop prefix (Component.prefix value ∷ cs) = literal_loop (join prefix value) cs
  literal_loop prefix (Component.root_dir ∷ cs) = literal_loop (join prefix (codes "/")) cs
  literal_loop prefix (Component.cur_dir ∷ cs) = literal_loop prefix cs
  literal_loop prefix (Component.parent_dir ∷ cs) = prefix
  literal_loop prefix (Component.normal value ∷ cs) =
      let rest = literal_loop (join prefix value) cs in
      if contains_glob_meta value then prefix else rest

  unfoldable pub literal_prefix : PathPattern → FilePath
  unfolding literal_loop
  literal_prefix pattern = literal_loop [] (components (normalize_lexical_path pattern.raw))
