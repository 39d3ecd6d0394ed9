-- ===== src/Command/Environment/Passing.antt =====
-- crates/cageforge-command/src/environment.rs: the names that the last filters of an application
-- leave.
use cageforge.Base.{
  Bool, true, false, ◌&&◌, ◌≡◌, refl, ap, arith, ◌↔◌, ◌⊎◌, inl, inr, Text, some, List, [], ◌∷◌, any,
  All, is_empty, Bool-cases, Option-cases,
}
use cageforge.Command.Names.{OsString, OsText}
use cageforge.Command.Environment.{
  WildMatch, EnvironmentFilterAction, EnvironmentPattern, EnvironmentSpec, is_include,
  has_include_filter, pattern_accepts, survives_inclusion,
}
use cageforge.Command.Environment.Filters.{IsAmong}

any-IsAmong :
    {A : Type 0} (p : A → Bool) (xs : List A)
    → (any p xs ≡ true) ↔ ((x : A) × IsAmong x xs × (p x ≡ true))
any-IsAmong p [] = (λ h. absurd (cc), λ h. absurd h.1)
any-IsAmong p (x ∷ xs) = (
  λ h. elim (Bool-cases (p x)) [
    | inl here ↦ (x, inl refl, here)
    | inr missed ↦ let (y, among, q) = (any-IsAmong p xs).0 (ground arith) in (y, inr among, q)
  ],
  λ h. elim h.1 [
    | inl same ↦ ground (arith, ap p same, h.2)
    | inr among ↦ ground (arith, (any-IsAmong p xs).1 (h.0, among, h.2))
  ],
)

exclude_of :
    (a : EnvironmentFilterAction) → is_include a ≡ false → a ≡ EnvironmentFilterAction.exclude
exclude_of EnvironmentFilterAction.include h = absurd (cc)
exclude_of EnvironmentFilterAction.exclude h = refl

include_of :
    (a : EnvironmentFilterAction) → is_include a ≡ true → a ≡ EnvironmentFilterAction.include
include_of EnvironmentFilterAction.include h = refl
include_of EnvironmentFilterAction.exclude h = absurd (cc)

nil_of : {A : Type 0} (xs : List A) → is_empty xs ≡ true → xs ≡ []
nil_of [] h = refl
nil_of (x ∷ xs) h = absurd (cc)

module _ ⦃o : OsText⦄ ⦃w : WildMatch⦄ where
  no_include_iff :
      (filters : List (EnvironmentPattern × EnvironmentFilterAction))
      → (any (λ filter. is_include filter.1) filters ≡ false)
        ↔ All (λ filter. filter.1 ≡ EnvironmentFilterAction.exclude) filters
  no_include_iff [] = (λ _. tt, λ _. refl)
  no_include_iff (f ∷ filters) = (
    λ h. (exclude_of f.1 (ground arith), (no_include_iff filters).0 (ground arith)),
    λ h. ground (arith, ap is_include h.0, (no_include_iff filters).1 h.1),
  )

  -- What the filters of a specification ask of a name in the result: there are none of them, or the
  -- name is a text and, where there are include filters, one of them matches it.
  abbrev pub IsPassed : EnvironmentSpec → OsString → Type 0
  IsPassed spec name =
      (spec.filters ≡ [])
      ⊎ ((text : Text) × (o.to_str name ≡ some text)
          × (All (λ filter. filter.1 ≡ EnvironmentFilterAction.exclude) spec.filters
              ⊎ ((filter : EnvironmentPattern × EnvironmentFilterAction) × IsAmong filter
                    spec.filters
                  × (filter.1 ≡ EnvironmentFilterAction.include)
                  × (w.is_match filter.0.matcher text ≡ true))))

  survives-IsPassed :
      (spec : EnvironmentSpec) (name : OsString)
      → survives_inclusion spec name ≡ true
      → IsPassed spec name
  unfolding survives_inclusion
  survives-IsPassed spec name h = elim (Bool-cases (is_empty spec.filters)) [
    | inl empty ↦ inl (nil_of spec.filters empty)
    | inr some_filter ↦ elim (Option-cases (o.to_str name)) [
      | inl no_text ↦ absurd (ground arith)
      | inr (text, spelled) ↦ inr (
        text,
        spelled,
        elim (Bool-cases (has_include_filter spec)) [
          | inr none_included ↦ inl ((no_include_iff spec.filters).0 none_included)
          | inl included ↦
              let (filter, among, matched) =
                (any-IsAmong (λ filter. is_include filter.1 && pattern_accepts filter.0 text)
                    spec.filters).0
                  (ground arith) in
              inr (filter, among, include_of filter.1 (ground arith), ground arith)
        ],
      )
    ]
  ]

  passed-survives :
      (spec : EnvironmentSpec) (name : OsString)
      → IsPassed spec name
      → survives_inclusion spec name ≡ true
  unfolding survives_inclusion
  passed-survives spec name (inl empty) =
      ground (arith, ap is_empty empty, ap (any (λ filter. is_include filter.1)) empty)
  passed-survives spec name (inr (text, spelled, inl excluded)) =
      ground (arith, (no_include_iff spec.filters).1 excluded)
  passed-survives spec name (inr (text, spelled, inr (filter, among, included, matched))) = ground (
    arith,
    (any-IsAmong (λ filter. is_include filter.1 && pattern_accepts filter.0 text) spec.filters).1
        (filter, among, ground (arith, ap is_include included)),
  )

  pub survives_inclusion_iff :
      (spec : EnvironmentSpec) (name : OsString)
      → (survives_inclusion spec name ≡ true) ↔ IsPassed spec name
  survives_inclusion_iff spec name = (survives-IsPassed spec name, passed-survives spec name)
