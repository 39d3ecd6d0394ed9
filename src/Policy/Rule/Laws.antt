-- ===== src/Policy/Rule/Laws.antt =====
-- Rules whose targets have equal keys match the same paths, equally deep.
use cageforge.Base.{
  ℕ, true, false, Option, none, some, List, [], ◌∷◌, map, Text, keep, text_eq_iff, ok, ◌≡◌, refl,
  ap, ap₂, subst, sym, ◌∙◌, arith,
}
use mathlib.Core.Option
use cageforge.Path.Components.{FilePath, plain_components, join}
use cageforge.Path.Compare.{is_within}
use cageforge.Path.Compare.Laws.{paths_equal_iff}
use cageforge.Policy.Selector.{PathSelector, selectors_equal, normal_component_count}
use cageforge.Policy.Selector.Laws.{
  normal_component_count_lem, is_within_root, plain_components-join_eq,
}
use cageforge.Policy.Context.{PathResolutionContext, resolve}
use cageforge.Policy.Glob.{GlobSet, GlobOptions}
use cageforge.Policy.Pattern.{PathPattern, pattern_matches, specificity, semantic_key, case_fold}
use cageforge.Policy.Rule.{
  FilesystemTarget, target_match, target_keys_equal, deepest_root, max_of, option_text_eq, texts_eq,
  semantic_keys_equal,
}

abbrev depths : FilePath → List FilePath → List ℕ
depths path roots = map normal_component_count (keep (λ root. is_within path root) roots)

depths_one :
    (path a b : FilePath)
    → plain_components a ≡ plain_components b
    → depths path (a ∷ []) ≡ depths path (b ∷ [])
depths_one path a b e =
    let count : normal_component_count a ≡ normal_component_count b =
      normal_component_count_lem a ∙ rw e (sym (normal_component_count_lem b)) in
    ground (arith, is_within_root path a b e, count)

depths_below :
    (path a b : FilePath) (roots : List FilePath)
    → plain_components a ≡ plain_components b
    → depths path (map (λ root. join root a) roots) ≡ depths path (map (λ root. join root b) roots)
depths_below path a b [] e = refl
depths_below path a b (root ∷ roots) e =
    let joined = plain_components-join_eq root a b e in
    let count : normal_component_count (join root a) ≡ normal_component_count (join root b) =
      normal_component_count_lem (join root a)
      ∙ rw joined (sym (normal_component_count_lem (join root b))) in
    ground (
      arith,
      is_within_root path (join root a) (join root b) joined,
      count,
      depths_below path a b roots e,
    )

deepest_root_eq :
    (a b : PathSelector) (path : FilePath) (context : PathResolutionContext)
    → selectors_equal a b ≡ true
    → deepest_root a path context ≡ deepest_root b path context
unfolding selectors_equal deepest_root resolve
deepest_root_eq (PathSelector.absolute a) (PathSelector.absolute b) path context h =
    ap max_of (depths_one path a b ((paths_equal_iff a b).0 h))
deepest_root_eq (PathSelector.workspace_root a) (PathSelector.workspace_root b) path context h =
    ap max_of (depths_below path a b context.workspace_roots ((paths_equal_iff a b).0 h))
deepest_root_eq PathSelector.root PathSelector.root path context h = refl
deepest_root_eq PathSelector.minimal PathSelector.minimal path context h = refl
deepest_root_eq PathSelector.tmpdir PathSelector.tmpdir path context h = refl
deepest_root_eq PathSelector.slash_tmp PathSelector.slash_tmp path context h = refl
deepest_root_eq _ _ path context h = absurd (cc)

texts_eq-≡ : (x y : List Text) → texts_eq x y ≡ true → x ≡ y
unfolding texts_eq
texts_eq-≡ [] [] h = refl
texts_eq-≡ (a ∷ x) (b ∷ y) h = ground (arith, texts_eq-≡ x y, text_eq_iff a b)
texts_eq-≡ _ _ h = cc

option_text_eq-≡ : (x y : Option Text) → option_text_eq x y ≡ true → x ≡ y
option_text_eq-≡ none none h = refl
option_text_eq-≡ (some a) (some b) h = ap some ((text_eq_iff a b).0 h)
option_text_eq-≡ _ _ h = cc

module _ ⦃g : GlobSet⦄ where
  abbrev component_options : GlobOptions
  component_options = record {
    case_insensitive = false;
    literal_separator = true;
    backslash_escape = false;
  }

  -- Each matcher is what `globset` makes of its component.
  abbrev pub AreCompiled : List Text → List g.GlobMatcher → Type 0
  AreCompiled [] [] = Unit
  AreCompiled (part ∷ parts) (m ∷ ms) =
      (g.build component_options part ≡ ok m) × AreCompiled parts ms
  AreCompiled _ _ = ⊥

  AreCompiled-unique :
      (parts : List Text) (x y : List g.GlobMatcher)
      → AreCompiled parts x
      → AreCompiled parts y
      → x ≡ y
  AreCompiled-unique [] [] [] h k = refl
  AreCompiled-unique [] [] (n ∷ y) h k = absurd k
  AreCompiled-unique [] (m ∷ x) y h k = absurd h
  AreCompiled-unique (p ∷ parts) [] y h k = absurd h
  AreCompiled-unique (p ∷ parts) (m ∷ x) [] h k = absurd k
  AreCompiled-unique (p ∷ parts) (m ∷ x) (n ∷ y) (e, h) (f, k) =
      cc (AreCompiled-unique parts x y h k)

  -- A target as the constructors of the crate build it.
  abbrev pub IsBuilt : FilesystemTarget → Type 0
  IsBuilt (FilesystemTarget.scope _) = Unit
  IsBuilt (FilesystemTarget.glob p) = AreCompiled p.components p.matchers

  -- The text that a pattern was written as plays no part.
  glob_match_raw :
      (a : PathPattern) (raw : Text) (path : FilePath) (context : PathResolutionContext)
      → target_match (FilesystemTarget.glob a) path context
        ≡ target_match (FilesystemTarget.glob (record a { raw = raw })) path context
  unfolding target_match pattern_matches specificity
  glob_match_raw a raw path context = refl

  pattern_ext :
      (a b : PathPattern)
      → a.absolute ≡ b.absolute
      → a.prefix ≡ b.prefix
      → a.components ≡ b.components
      → a.matchers ≡ b.matchers
      → record a { raw = b.raw } ≡ b
  pattern_ext a b e f p q =
      λ i. record { raw = b.raw; absolute = e i; prefix = f i; components = p i; matchers = q i }

  semantic_key_lem : (p : PathPattern) → semantic_key p ≡ (p.absolute, p.prefix, p.components)
  unfolding semantic_key
  semantic_key_lem p = λ i. (p.absolute, same_prefix p.prefix i, same_parts p.components i)
    where
      same_prefix : (o : Option Text) → Option.map case_fold o ≡ o
      same_prefix none = refl
      same_prefix (some t) = refl

      same_parts : (l : List Text) → map case_fold l ≡ l
      same_parts [] = refl
      same_parts (t ∷ l) = ap (λ r. t ∷ r) (same_parts l)

  keys_equal_parts :
      (a b : PathPattern)
      → semantic_keys_equal (semantic_key a) (semantic_key b) ≡ true
      → (a.absolute ≡ b.absolute) × (a.prefix ≡ b.prefix) × (a.components ≡ b.components)
  keys_equal_parts a b h =
      let k : semantic_keys_equal (a.absolute, a.prefix, a.components)
            (b.absolute, b.prefix, b.components)
          ≡ true =
        sym (ap₂ semantic_keys_equal (semantic_key_lem a) (semantic_key_lem b)) ∙ h in
      unfold semantic_keys_equal in
      (
        ground arith,
        option_text_eq-≡ a.prefix b.prefix (ground arith),
        texts_eq-≡ a.components b.components (ground arith),
      )

  pub target_match_eq :
      (a b : FilesystemTarget) (path : FilePath) (context : PathResolutionContext)
      → IsBuilt a
      → IsBuilt b
      → target_keys_equal a b ≡ true
      → target_match a path context ≡ target_match b path context
  unfolding target_keys_equal
  target_match_eq (FilesystemTarget.scope a) (FilesystemTarget.scope b) path context ha hb h =
      unfold target_match in deepest_root_eq a b path context h
  target_match_eq (FilesystemTarget.glob a) (FilesystemTarget.glob b) path context ha hb h =
      let (absolute, prefix, parts) = keys_equal_parts a b h in
      let compiled =
        AreCompiled-unique b.components a.matchers b.matchers
          (subst (λ x. AreCompiled x a.matchers) parts ha) hb in
      glob_match_raw a b.raw path context
      ∙ ap (λ p. target_match (FilesystemTarget.glob p) path context)
          (pattern_ext a b absolute prefix parts compiled)
  target_match_eq _ _ path context ha hb h = absurd (cc)
