-- ===== src/Policy/Glob/Matching.antt =====
-- The table of `glob_components_match` computes the plain recursive reading of a glob.
use cageforge.Base.{
  suc, Bool, true, false, ◌&&◌, ◌||◌, List, [], ◌∷◌, map, Text, codes, text_eq, length, is_empty,
  if◌then◌else◌, ◌≡◌, refl, ap, sym, ◌∙◌, arith, Bool-cases, inl, inr, fun_ext,
}
use cageforge.Policy.Glob.{
  GlobSet, star_row, single_row, next_row, first_row, rows_loop, last_or, glob_components_match,
}

-- "**" in front of a pattern that reads as `f`: any number of components is skipped.
abbrev pub any_suffix : (List Text → Bool) → List Text → Bool
any_suffix f [] = f []
any_suffix f (x ∷ xs) = f (x ∷ xs) || any_suffix f xs

module _ ⦃g : GlobSet⦄ where
  -- One component of a pattern in front of a pattern that reads as `f`.
  abbrev pub one_component : g.GlobMatcher → (List Text → Bool) → List Text → Bool
  one_component m f [] = false
  one_component m f (x ∷ xs) = g.is_match m x && f xs

  -- What a glob means: its components one after the other, "**" standing for any number.
  unfoldable pub glob_meaning : List Text → List g.GlobMatcher → List Text → Bool
  glob_meaning (p ∷ ps) (m ∷ ms) path =
      let rest = glob_meaning ps ms in
      if text_eq p (codes "**") then any_suffix rest path else one_component m rest path
  glob_meaning _ _ path = is_empty path

  -- What a row says of the whole path, where `f` reads the rest of the pattern.
  abbrev from_row : (List Text → Bool) → List Bool → List Text → Bool
  from_row f [] path = false
  from_row f (b ∷ bs) [] = b && f []
  from_row f (b ∷ bs) (x ∷ xs) = (b && f (x ∷ xs)) || from_row f bs xs

  from_row_or :
      (f : List Text → Bool) (a l : Bool) (r : List Bool) (xs : List Text)
      → from_row f ((a || l) ∷ r) xs ≡ ((l && f xs) || from_row f (a ∷ r) xs)
  from_row_or f a l r [] = ground arith
  from_row_or f a l r (x ∷ xs) = ground arith

  from_row-star_row :
      (f : List Text → Bool) (l : Bool) (cur : List Bool) (xs : List Text)
      → length cur ≡ length xs
      → from_row f (l ∷ star_row l cur) xs ≡ from_row (any_suffix f) (l ∷ cur) xs
  unfolding star_row
  from_row-star_row f l [] [] h = refl
  from_row-star_row f l (a ∷ cur) [] h = absurd (omega arith)
  from_row-star_row f l [] (x ∷ xs) h = absurd (omega arith)
  from_row-star_row f l (a ∷ cur) (x ∷ xs) h = ground (
    arith,
    from_row-star_row f (a || l) cur xs (omega arith),
    from_row_or (any_suffix f) a l cur xs,
  )

  from_row-single_row :
      (f : List Text → Bool) (m : g.GlobMatcher) (b : Bool) (cur : List Bool) (xs : List Text)
      → length cur ≡ length xs
      → from_row f (false ∷ single_row m b cur xs) xs ≡ from_row (one_component m f) (b ∷ cur) xs
  unfolding single_row
  from_row-single_row f m b [] [] h = ground arith
  from_row-single_row f m b (a ∷ cur) [] h = absurd (omega arith)
  from_row-single_row f m b [] (x ∷ xs) h = absurd (omega arith)
  from_row-single_row f m b (a ∷ cur) (x ∷ xs) h = ground (
    arith,
    from_row-single_row f m a cur xs (omega arith),
    from_row_or f false (b && g.is_match m x) (single_row m a cur xs) xs,
  )

  length-star_row : (l : Bool) (cur : List Bool) → length (star_row l cur) ≡ length cur
  unfolding star_row
  length-star_row l [] = refl
  length-star_row l (a ∷ cur) = ap suc (length-star_row (a || l) cur)

  length-single_row :
      (m : g.GlobMatcher) (b : Bool) (cur : List Bool) (xs : List Text)
      → length cur ≡ length xs
      → length (single_row m b cur xs) ≡ length xs
  unfolding single_row
  length-single_row m b [] [] h = refl
  length-single_row m b (a ∷ cur) [] h = absurd (omega arith)
  length-single_row m b [] (x ∷ xs) h = absurd (omega arith)
  length-single_row m b (a ∷ cur) (x ∷ xs) h = ap suc (length-single_row m a cur xs (omega arith))

  length-next_row :
      (p : Text) (m : g.GlobMatcher) (cur : List Bool) (xs : List Text)
      → length cur ≡ suc (length xs)
      → length (next_row p m cur xs) ≡ suc (length xs)
  unfolding next_row
  length-next_row p m [] xs h = absurd (omega arith)
  length-next_row p m (b ∷ cur) xs h =
      ground (arith, length-star_row b cur, length-single_row m b cur xs (omega arith))

  -- A row without the rest of the pattern: only the entry for the whole path counts.
  from_row_end :
      (cur : List Bool) (xs : List Text)
      → length cur ≡ suc (length xs)
      → from_row is_empty cur xs ≡ last_or false cur
  from_row_end [] xs h = refl
  from_row_end (b ∷ []) [] h = ground arith
  from_row_end (b ∷ c ∷ cur) [] h = absurd (omega arith)
  from_row_end (b ∷ []) (x ∷ xs) h = absurd (omega arith)
  from_row_end (b ∷ c ∷ cur) (x ∷ xs) h = ground (arith, from_row_end (c ∷ cur) xs (omega arith))

  glob_meaning_star :
      (p : Text) (ps : List Text) (m : g.GlobMatcher) (ms : List g.GlobMatcher)
      → text_eq p (codes "**") ≡ true
      → glob_meaning (p ∷ ps) (m ∷ ms) ≡ any_suffix (glob_meaning ps ms)
  glob_meaning_star p ps m ms star = fun_ext λ path. unfold glob_meaning in rw star

  glob_meaning_single :
      (p : Text) (ps : List Text) (m : g.GlobMatcher) (ms : List g.GlobMatcher)
      → text_eq p (codes "**") ≡ false
      → glob_meaning (p ∷ ps) (m ∷ ms) ≡ one_component m (glob_meaning ps ms)
  glob_meaning_single p ps m ms single = fun_ext λ path. unfold glob_meaning in rw single

  from_row-next_row :
      (p : Text) (ps : List Text) (m : g.GlobMatcher) (ms : List g.GlobMatcher) (cur : List Bool)
      (xs : List Text)
      → length cur ≡ suc (length xs)
      → from_row (glob_meaning ps ms) (next_row p m cur xs) xs
        ≡ from_row (glob_meaning (p ∷ ps) (m ∷ ms)) cur xs
  from_row-next_row p ps m ms [] xs h = absurd (omega arith)
  from_row-next_row p ps m ms (b ∷ cur) xs h = elim (Bool-cases (text_eq p (codes "**"))) [
    | inl star ↦
        let row : next_row p m (b ∷ cur) xs ≡ b ∷ star_row b cur = unfold next_row in rw star in
        ap (λ r. from_row (glob_meaning ps ms) r xs) row
        ∙ from_row-star_row (glob_meaning ps ms) b cur xs (omega arith)
        ∙ ap (λ f. from_row f (b ∷ cur) xs) (sym (glob_meaning_star p ps m ms star))
    | inr single ↦
        let row : next_row p m (b ∷ cur) xs ≡ false ∷ single_row m b cur xs =
          unfold next_row in rw single in
        ap (λ r. from_row (glob_meaning ps ms) r xs) row
        ∙ from_row-single_row (glob_meaning ps ms) m b cur xs (omega arith)
        ∙ ap (λ f. from_row f (b ∷ cur) xs) (sym (glob_meaning_single p ps m ms single))
  ]

  glob_meaning_nil : (ms : List g.GlobMatcher) → glob_meaning [] ms ≡ is_empty
  unfolding glob_meaning
  glob_meaning_nil ms = fun_ext λ path. refl

  glob_meaning_short : (p : Text) (ps : List Text) → glob_meaning (p ∷ ps) [] ≡ is_empty
  unfolding glob_meaning
  glob_meaning_short p ps = fun_ext λ path. refl

  rows_loop_meaning :
      (ps : List Text) (ms : List g.GlobMatcher) (cur : List Bool) (xs : List Text)
      → length cur ≡ suc (length xs)
      → last_or false (rows_loop ps ms cur xs) ≡ from_row (glob_meaning ps ms) cur xs
  unfolding rows_loop
  rows_loop_meaning [] ms cur xs h =
      sym (from_row_end cur xs h) ∙ ap (λ f. from_row f cur xs) (sym (glob_meaning_nil ms))
  rows_loop_meaning (p ∷ ps) [] cur xs h =
      sym (from_row_end cur xs h) ∙ ap (λ f. from_row f cur xs) (sym (glob_meaning_short p ps))
  rows_loop_meaning (p ∷ ps) (m ∷ ms) cur xs h =
      rows_loop_meaning ps ms (next_row p m cur xs) xs (length-next_row p m cur xs h)
      ∙ from_row-next_row p ps m ms cur xs h

  from_row_blank :
      (f : List Text → Bool) (xs : List Text) → from_row f (false ∷ map (λ _. false) xs) xs ≡ false
  from_row_blank f [] = refl
  from_row_blank f (x ∷ xs) = from_row_blank f xs

  from_row-first_row : (f : List Text → Bool) (xs : List Text) → from_row f (first_row xs) xs ≡ f xs
  from_row-first_row f [] = refl
  from_row-first_row f (x ∷ xs) = rw (from_row_blank f xs) (ground arith)

  length-blank : (xs : List Text) → length (map (λ _. false) xs) ≡ length xs
  length-blank [] = refl
  length-blank (x ∷ xs) = ap suc (length-blank xs)

  -- For every pattern and every path, the table gives the answer of the recursive reading.
  pub glob_components_match-eq-glob_meaning :
      (patterns : List Text) (matchers : List g.GlobMatcher) (path : List Text)
      → glob_components_match patterns matchers path ≡ glob_meaning patterns matchers path
  unfolding glob_components_match
  glob_components_match-eq-glob_meaning patterns matchers path =
      rows_loop_meaning patterns matchers (first_row path) path (ap suc (length-blank path))
      ∙ from_row-first_row (glob_meaning patterns matchers) path
