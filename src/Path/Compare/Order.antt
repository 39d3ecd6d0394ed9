-- ===== src/Path/Compare/Order.antt =====
-- `is_within` as an order on paths, and what `contains_component_path` finds.
use cageforge.Base.{
  ℕ, ◌+◌, ◌≤◌, Bool, true, false, ◌||◌, not, List, [], ◌∷◌, ◌++◌, take, drop, length, leb, any,
  if◌then◌else◌, ◌≡◌, ◌≢◌, refl, ap, sym, ◌∙◌, ◌↔◌, arith, Bool-cases, inl, inr, length-append,
  take_of_length, take-append-drop, length-take, append_assoc, append-nil, ltb, ◌==◌, ◌⊎◌,
}
use cageforge.Path.Components.{FilePath, Component, plain_components}
use cageforge.Path.Components.Laws.{components_equal_iff}
use cageforge.Path.Compare.{
  paths_equal, contains_parent_traversal, is_within, windows, zip_equal, contains_component_path,
}
use cageforge.Path.Compare.Laws.{paths_equal_iff, is_within_iff, Below, Extends}

Extends-of_eq : (a b c r1 r2 : List Component) → a ≡ b ++ r1 → b ≡ c ++ r2 → Extends a c
Extends-of_eq a b c r1 r2 e f = (r2 ++ r1, e ∙ ap (λ t. t ++ r1) f ∙ append_assoc c r2 r1)

Below-trans : (a b c : List Component) → Below a b → Below b c → Below a c
Below-trans a [] [] h k = h
Below-trans a [] (z ∷ c) h (r, e) = cc
Below-trans a (y ∷ b) [] (r, e) k = ground arith
Below-trans a (y ∷ b) (z ∷ c) (r, e) (s, f) = Extends-of_eq a (y ∷ b) (z ∷ c) r s e f

append_self_nil : (a r s : List Component) → a ≡ (a ++ r) ++ s → r ≡ []
append_self_nil a r s e =
    let n : length a ≡ length (a ++ r) + length s = ap length e ∙ length-append (a ++ r) s in
    nil_of_length r (omega (arith, n, length-append a r))
  where
    nil_of_length : (r : List Component) → length r ≡ 0 → r ≡ []
    nil_of_length [] h = refl
    nil_of_length (x ∷ r) h = absurd (omega arith)

Below-antisym : (a b : List Component) → Below a b → Below b a → a ≡ b
Below-antisym [] [] h k = refl
Below-antisym [] (y ∷ b) (r, e) k = cc
Below-antisym (x ∷ a) [] h (r, e) = cc
Below-antisym (x ∷ a) (y ∷ b) (r, e) (s, f) =
    e
    ∙ ap (λ t. (y ∷ b) ++ t) (append_self_nil (y ∷ b) r s (f ∙ ap (λ t. t ++ s) e))
    ∙ append-nil (y ∷ b)

Below-refl : (a : List Component) → Below a a
Below-refl [] = refl
Below-refl (x ∷ a) = ([], sym (append-nil (x ∷ a)))

-- A path is within itself exactly when it has no "..".
pub is_within_refl : (path : FilePath) → is_within path path ≡ not (contains_parent_traversal path)
is_within_refl path = elim (Bool-cases (contains_parent_traversal path)) [
  | inl up ↦ unfold is_within in rw up
  | inr plain ↦ (is_within_iff path path).1 (plain, plain, Below-refl _) ∙ rw plain
]

-- A path within a second one, which is within a third one, is within the third one.
pub is_within_trans :
    (a b c : FilePath) → is_within a b ≡ true → is_within b c ≡ true → is_within a c ≡ true
is_within_trans a b c h k =
    let (up_a, up_b, ab) = (is_within_iff a b).0 h in
    let (up_b', up_c, bc) = (is_within_iff b c).0 k in
    (is_within_iff a c).1 (up_a, up_c, Below-trans _ _ _ ab bc)

-- Two paths that are within one another are equal to the program.
pub is_within_antisym :
    (a b : FilePath) → is_within a b ≡ true → is_within b a ≡ true → paths_equal a b ≡ true
is_within_antisym a b h k =
    (paths_equal_iff a b).1
      (Below-antisym _ _ ((is_within_iff a b).0 h).2 ((is_within_iff b a).0 k).2)

-- `zip` stops at the end of the shorter list: at equal lengths it compares the whole lists.
zip_equal_iff :
    (xs ys : List Component) → length xs ≡ length ys → (zip_equal xs ys ≡ true) ↔ (xs ≡ ys)
unfolding zip_equal
zip_equal_iff [] [] h = (λ _. refl, λ _. refl)
zip_equal_iff [] (y ∷ ys) h = absurd (omega arith)
zip_equal_iff (x ∷ xs) [] h = absurd (omega arith)
zip_equal_iff (x ∷ xs) (y ∷ ys) h =
    let ih = zip_equal_iff xs ys (omega arith) in ground (arith, ih, components_equal_iff x y)

-- The list has `needle` as a run of neighbours.
abbrev pub HasRun : List Component → List Component → Type 0
HasRun xs needle =
    (before : List Component) × (behind : List Component) × (xs ≡ before ++ (needle ++ behind))

abbrev finds : List Component → List Component → Bool
finds needle xs = any (λ window. zip_equal window needle) (windows (length needle) xs)

finds_cons :
    (needle : List Component) (x : Component) (xs : List Component)
    → leb (length needle) (length (x ∷ xs)) ≡ true
    → finds needle (x ∷ xs) ≡ (zip_equal (take (length needle) (x ∷ xs)) needle || finds needle xs)
unfolding windows
finds_cons needle x xs h = rw h

finds_short :
    (needle : List Component) (x : Component) (xs : List Component)
    → leb (length needle) (length (x ∷ xs)) ≡ false
    → finds needle (x ∷ xs) ≡ false
unfolding windows
finds_short needle x xs h = rw h

finds_sound : (needle xs : List Component) → finds needle xs ≡ true → HasRun xs needle
finds_sound needle [] h = unfold windows in absurd (cc)
finds_sound needle (x ∷ xs) h =
    go (Bool-cases (leb (length needle) (length (x ∷ xs))))
      (Bool-cases (zip_equal (take (length needle) (x ∷ xs)) needle)) (finds_sound needle xs)
  where
    n : ℕ
    n = length needle

    go :
        (leb n (length (x ∷ xs)) ≡ true) ⊎ (leb n (length (x ∷ xs)) ≡ false)
        → (zip_equal (take n (x ∷ xs)) needle ≡ true) ⊎ (zip_equal (take n (x ∷ xs)) needle ≡ false)
        → (finds needle xs ≡ true → HasRun xs needle)
        → HasRun (x ∷ xs) needle
    go (inr short) z ih = absurd (cc (finds_short needle x xs short))
    go (inl fits) (inl found) ih = (
      [],
      drop n (x ∷ xs),
      sym (take-append-drop n (x ∷ xs))
          ∙ ap (λ t. t ++ drop n (x ∷ xs))
              ((zip_equal_iff _ _ (length-take n (x ∷ xs) (ground arith))).0 found),
    )
    go (inl fits) (inr missed) ih =
        let (before, behind, e) = ih (sym (finds_cons needle x xs fits ∙ rw missed) ∙ h) in
        (x ∷ before, behind, ap (λ t. x ∷ t) e)

finds_complete :
    (y : Component) (needle before behind : List Component)
    → finds (y ∷ needle) (before ++ ((y ∷ needle) ++ behind)) ≡ true
finds_complete y needle [] behind =
    let fits : leb (length (y ∷ needle)) (length (y ∷ (needle ++ behind))) ≡ true =
      ground (arith, length-append needle behind) in
    finds_cons (y ∷ needle) y (needle ++ behind) fits
    ∙ rw (take_of_length (y ∷ needle) behind)
        (rw ((zip_equal_iff (y ∷ needle) (y ∷ needle) refl).1 refl))
finds_complete y needle (b ∷ before) behind =
    let xs = before ++ ((y ∷ needle) ++ behind) in
    let fits : leb (length (y ∷ needle)) (length (b ∷ xs)) ≡ true =
      ground (arith, length-append before ((y ∷ needle) ++ behind), length-append needle behind) in
    finds_cons (y ∷ needle) b xs fits ∙ ground (arith, finds_complete y needle before behind)

HasRun-length : (xs needle : List Component) → HasRun xs needle → length needle ≤ length xs
HasRun-length xs needle (before, behind, e) =
    omega (arith, ap length e, length-append before (needle ++ behind), length-append needle behind)

-- The test finds a non-empty needle exactly where it is a run of the path's components.
pub contains_component_path_iff :
    (path needle : FilePath)
    → (contains_component_path path needle ≡ true)
      ↔ ((plain_components needle ≢ []) × HasRun (plain_components path) (plain_components needle))
unfolding contains_component_path
contains_component_path_iff path needle =
    (sound (plain_components needle), complete (plain_components needle))
  where
    xs : List Component
    xs = plain_components path

    test : List Component → Bool
    test ys = if length ys == 0 || ltb (length xs) (length ys) then false else finds ys xs

    sound : (ys : List Component) → test ys ≡ true → (ys ≢ []) × HasRun xs ys
    sound [] h = absurd (cc)
    sound (y ∷ ys) h = ((λ e. cc), finds_sound (y ∷ ys) xs (ground arith))

    complete : (ys : List Component) → (ys ≢ []) × HasRun xs ys → test ys ≡ true
    complete [] (n, r) = absurd (n refl)
    complete (y ∷ ys) (n, (before, behind, e)) =
        let found : finds (y ∷ ys) xs ≡ true = rw e (finds_complete y ys before behind) in
        ground (arith, HasRun-length xs (y ∷ ys) (before, behind, e))
