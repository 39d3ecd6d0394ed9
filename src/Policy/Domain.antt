-- ===== src/Policy/Domain.antt =====
-- crates/cageforge-policy/src/network.rs: domain patterns, and the matchers that they compile to.
use mathlib.Core.List.{reverse}
use cageforge.Base.{
  ℕ, Bool, true, false, not, ◌&&◌, ◌||◌, ◌==◌, leb, ltb, none, some, List, [], ◌∷◌, ◌++◌, Text,
  codes, any, all, is_empty, is_some, length, starts_with_char, contains_char, strip_prefix, split,
  text_eq, if◌then◌else◌, Result, ok, err, ◌>>=◌, ◌>>◌, fail_if, map_err,
}
use cageforge.Policy.Error.{PolicyError}
use cageforge.Policy.Glob.{GlobSet, GlobOptions}
use cageforge.Policy.Pattern.{is_whitespace}
use cageforge.Policy.Host.{
  CharTable, is_control, utf8_len, trim, contains_text, normalize_host, normalize_ip_literal,
  parse_ip_literal,
}

unfoldable pub valid_domain_literal : Text → Bool
valid_domain_literal pattern =
    not (is_empty pattern)
    && (not (contains_char b'*' pattern)
        && (not (contains_char b'?' pattern)
            && (not (contains_char b':' pattern) || is_some (normalize_ip_literal pattern))))

abbrev is_label_char : ℕ → Bool
is_label_char c =
    not (is_whitespace c) && (not (is_control c) && not (c == b':' || (c == b'%' || c == b'@')))

abbrev without_wildcard : Text → Text
without_wildcard pattern = elim (strip_prefix (codes "**.") pattern) [
  | some suffix ↦ suffix
  | none ↦ elim (strip_prefix (codes "*.") pattern) [ some suffix ↦ suffix | none ↦ pattern ]
]

unfoldable pub valid_domain_pattern : Text → Bool
unfolding valid_domain_literal split strip_prefix
valid_domain_pattern pattern =
    if text_eq pattern (codes "*")
    then true
    else if contains_char b':' pattern || contains_char b'%' pattern
    then valid_domain_literal pattern
    else let suffix = without_wildcard pattern in
      not (is_empty suffix)
      && all (λ label. not (is_empty label) && all is_label_char label) (split b'.' suffix)

-- The prefix that `normalize_domain_pattern` keeps, and the remainder.
abbrev wildcard_prefix : Text → Text × Text
wildcard_prefix raw = elim (strip_prefix (codes "**.") raw) [
  | some remainder ↦ (codes "**.", remainder)
  | none ↦ elim (strip_prefix (codes "*.") raw) [
    | some remainder ↦ (codes "*.", remainder)
    | none ↦ ([], raw)
  ]
]

abbrev invalid_syntax : Text → Bool
invalid_syntax raw =
    is_empty raw
    || (contains_text (codes "://") raw
        || (contains_char b'/' raw
            || (contains_char b'#' raw || (any is_whitespace raw || any is_control raw))))

unfoldable pub normalize_domain_pattern : Text → Result PolicyError Text
unfolding trim contains_text strip_prefix normalize_host valid_domain_pattern
normalize_domain_pattern declared =
    let raw = trim declared in
    let (prefix, remainder) = wildcard_prefix raw in
    if invalid_syntax raw
    then err (PolicyError.invalid_domain_pattern raw)
    else elim (normalize_host remainder) [
      | none ↦ err (PolicyError.invalid_domain_pattern raw)
      | some host ↦
          if valid_domain_pattern (prefix ++ host)
          then ok (prefix ++ host)
          else err (PolicyError.invalid_domain_pattern raw)
    ]

abbrev ends_with_char : ℕ → Text → Bool
ends_with_char c s = starts_with_char c (reverse s)

module _ ⦃t : CharTable⦄ where
  abbrev valid_label : Text → Bool
  valid_label label =
      not (is_empty label)
      && (leb (utf8_len label) 63
          && (not (starts_with_char b'-' label)
              && (not (ends_with_char b'-' label)
                  && all (λ c. t.is_alphanumeric c || (c == b'-' || c == b'_')) label)))

  unfoldable pub valid_concrete_host : Text → Bool
  unfolding parse_ip_literal split
  valid_concrete_host host =
      if is_some (parse_ip_literal host)
      then true
      else leb (utf8_len host) 253 && all valid_label (split b'.' host)

  unfoldable pub normalize_domain : Text → Result PolicyError Text
  unfolding normalize_domain_pattern valid_concrete_host
  normalize_domain raw = do
    normalized ← normalize_domain_pattern raw
    fail_if (not (valid_concrete_host normalized)) (PolicyError.invalid_domain_pattern raw)
    ok normalized

module _ ⦃g : GlobSet⦄ where
  pub data DomainMatcher : Type 0 where
    any_domain : DomainMatcher
    full : g.GlobMatcher → DomainMatcher
    suffix : List g.GlobMatcher → Bool → DomainMatcher

  -- `GlobBuilder::new(…).case_insensitive(true)`, on a POSIX host.
  abbrev domain_options : GlobOptions
  domain_options = record {
    case_insensitive = true;
    literal_separator = false;
    backslash_escape = true;
  }

  abbrev build_label : Text → Text → Result PolicyError g.GlobMatcher
  build_label label pattern =
      map_err (λ _. PolicyError.invalid_domain_pattern pattern) (g.build domain_options label)

  unfoldable pub compile_labels : List Text → Text → Result PolicyError (List g.GlobMatcher)
  compile_labels [] pattern = ok []
  compile_labels (label ∷ labels) pattern = build_label label pattern >>= λ matcher.
      compile_labels labels pattern >>= λ matchers. ok (matcher ∷ matchers)

  unfoldable pub compile_domain_matcher : Text → Result PolicyError DomainMatcher
  unfolding compile_labels split strip_prefix
  compile_domain_matcher pattern =
      if text_eq pattern (codes "*")
      then ok DomainMatcher.any_domain
      else elim (strip_prefix (codes "**.") pattern) [
        | some rest ↦ compile_labels (split b'.' rest) pattern >>= λ labels.
            ok (DomainMatcher.suffix labels true)
        | none ↦ elim (strip_prefix (codes "*.") pattern) [
          | some rest ↦ compile_labels (split b'.' rest) pattern >>= λ labels.
              ok (DomainMatcher.suffix labels false)
          | none ↦ build_label pattern pattern >>= λ matcher. ok (DomainMatcher.full matcher)
        ]
      ]

  -- `domain.rsplit('.').zip(labels.iter().rev()).all(…)`
  unfoldable pub zip_matches : List Text → List g.GlobMatcher → Bool
  zip_matches (part ∷ parts) (matcher ∷ matchers) =
      g.is_match matcher part && zip_matches parts matchers
  zip_matches _ _ = true

  -- `DomainRule::matches`, by the rule's matcher.
  unfoldable pub matcher_accepts : DomainMatcher → Text → Bool
  unfolding zip_matches split
  matcher_accepts DomainMatcher.any_domain domain = true
  matcher_accepts (DomainMatcher.full matcher) domain = g.is_match matcher domain
  matcher_accepts (DomainMatcher.suffix labels include_apex) domain =
      let count = length (split b'.' domain) in
      if ltb count (length labels) || (not include_apex && count == length labels)
      then false
      else zip_matches (reverse (split b'.' domain)) (reverse labels)
