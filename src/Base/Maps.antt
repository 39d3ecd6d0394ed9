-- ===== src/Base/Maps.antt =====
-- `BTreeMap` with texts for keys: the entries in the order of their keys, which is the order of
-- the code points as well as that of the UTF-8 bytes.
use mathlib.Core.Path.{◌≡◌, refl, subst}
use mathlib.Core.Logic.{inl, inr}
use mathlib.Core.Bool.{Bool, true, false, ◌&&◌, ◌||◌}
use mathlib.Core.Option.{Option, none, some}
use mathlib.Core.List.{List, [], ◌∷◌}
use native.Mathlib.Omega.{arith}
use cageforge.Base.Tests.{◌==◌, ltb, if◌then◌else◌, if_elim, Bool-cases}
use cageforge.Base.Lists.{All, keep}
use cageforge.Base.Strings.{Text, text_eq, text_eq_iff}

-- `<` on texts.
unfoldable pub text_ltb : Text → Text → Bool
text_ltb [] [] = false
text_ltb [] (b ∷ y) = true
text_ltb (a ∷ x) [] = false
text_ltb (a ∷ x) (b ∷ y) = ltb a b || (a == b && text_ltb x y)

pub text_ltb_irrefl : (x : Text) → text_ltb x x ≡ false
unfolding text_ltb
text_ltb_irrefl [] = refl
text_ltb_irrefl (a ∷ x) = ground (arith, text_ltb_irrefl x)

pub text_ltb_trans :
    (x y z : Text) → text_ltb x y ≡ true → text_ltb y z ≡ true → text_ltb x z ≡ true
unfolding text_ltb
text_ltb_trans [] [] z h k = ground arith
text_ltb_trans [] (b ∷ y) [] h k = ground arith
text_ltb_trans [] (b ∷ y) (c ∷ z) h k = refl
text_ltb_trans (a ∷ x) [] z h k = ground arith
text_ltb_trans (a ∷ x) (b ∷ y) [] h k = ground arith
text_ltb_trans (a ∷ x) (b ∷ y) (c ∷ z) h k = ground (arith, text_ltb_trans x y z)

pub text_ltb_total : (x y : Text) → text_eq x y ≡ false → text_ltb x y ≡ false → text_ltb y x ≡ true
unfolding text_ltb text_eq
text_ltb_total [] [] h k = ground arith
text_ltb_total [] (b ∷ y) h k = ground arith
text_ltb_total (a ∷ x) [] h k = refl
text_ltb_total (a ∷ x) (b ∷ y) h k = ground (arith, text_ltb_total x y)

-- `BTreeMap`
abbrev pub Dict {ℓ} : Type ℓ → Type ℓ
Dict V = List (Text × V)

module _ {ℓ} {V : Type ℓ} where
  -- `BTreeMap::get`
  unfoldable pub lookup : Text → Dict V → Option V
  lookup key [] = none
  lookup key (entry ∷ entries) =
      let rest = lookup key entries in if text_eq entry.0 key then some entry.1 else rest

  -- `BTreeMap::insert`
  unfoldable pub insert : Text → V → Dict V → Dict V
  insert key value [] = (key, value) ∷ []
  insert key value (entry ∷ entries) =
      let rest = insert key value entries in
      if text_eq entry.0 key
      then (key, value) ∷ entries
      else if text_ltb key entry.0
      then (key, value) ∷ entry ∷ entries
      else entry ∷ rest

  -- `BTreeMap::remove`
  unfoldable pub remove : Text → Dict V → Dict V
  remove key [] = []
  remove key (entry ∷ entries) =
      let rest = remove key entries in if text_eq entry.0 key then entries else entry ∷ rest

  -- Every key of the entries comes after the one given.
  abbrev pub After : Text → Dict V → Type 0
  After key [] = Unit
  After key (entry ∷ entries) = (text_ltb key entry.0 ≡ true) × After key entries

  -- The entries are in the order of their keys, and no two have the same.
  abbrev pub IsSorted : Dict V → Type 0
  IsSorted [] = Unit
  IsSorted (entry ∷ entries) = After entry.0 entries × IsSorted entries

  pub lookup-insert_same :
      (key : Text) (value : V) (d : Dict V) → lookup key (insert key value d) ≡ some value
  unfolding lookup insert
  lookup-insert_same key value [] = ground (arith, text_eq_iff key key)
  lookup-insert_same key value (e ∷ d) =
      ground (arith, text_eq_iff key key, lookup-insert_same key value d)

  pub lookup-insert_other :
      (key other : Text) (value : V) (d : Dict V)
      → text_eq key other ≡ false
      → lookup other (insert key value d) ≡ lookup other d
  unfolding lookup insert
  lookup-insert_other key other value [] h = ground arith
  lookup-insert_other key other value (e ∷ d) h =
      ground (arith, text_eq_iff e.0 key, lookup-insert_other key other value d h)

  pub lookup-After : (key : Text) (d : Dict V) → After key d → lookup key d ≡ none
  unfolding lookup
  lookup-After key [] h = refl
  lookup-After key (e ∷ d) (p, h) =
      ground (arith, text_eq_iff e.0 key, text_ltb_irrefl key, lookup-After key d h)

  pub lookup-remove_same : (key : Text) (d : Dict V) → IsSorted d → lookup key (remove key d) ≡ none
  unfolding lookup remove
  lookup-remove_same key [] h = refl
  lookup-remove_same key (e ∷ d) (p, h) =
      ground (arith, text_eq_iff e.0 key, lookup-After e.0 d p, lookup-remove_same key d h)

  pub lookup-remove_other :
      (key other : Text) (d : Dict V)
      → text_eq key other ≡ false
      → lookup other (remove key d) ≡ lookup other d
  unfolding lookup remove
  lookup-remove_other key other [] h = refl
  lookup-remove_other key other (e ∷ d) h =
      ground (arith, text_eq_iff e.0 key, lookup-remove_other key other d h)

  text_ltb-After : (a b : Text) (d : Dict V) → text_ltb a b ≡ true → After b d → After a d
  text_ltb-After a b [] h k = tt
  text_ltb-After a b (e ∷ d) h (p, k) = (text_ltb_trans a b e.0 h p, text_ltb-After a b d h k)

  After-insert :
      (bound key : Text) (value : V) (d : Dict V)
      → text_ltb bound key ≡ true
      → After bound d
      → After bound (insert key value d)
  unfolding insert
  After-insert bound key value [] h k = (h, tt)
  After-insert bound key value (e ∷ d) h (p, k) =
      if_elim (After bound) (text_eq e.0 key) (λ _. (h, k))
        (λ _.
          if_elim (After bound) (text_ltb key e.0) (λ _. (h, (p, k)))
            (λ _. (p, After-insert bound key value d h k)))

  After-remove : (bound key : Text) (d : Dict V) → After bound d → After bound (remove key d)
  unfolding remove
  After-remove bound key [] h = tt
  After-remove bound key (e ∷ d) (p, h) =
      if_elim (After bound) (text_eq e.0 key) (λ _. h) (λ _. (p, After-remove bound key d h))

  pub insert-IsSorted :
      (key : Text) (value : V) (d : Dict V) → IsSorted d → IsSorted (insert key value d)
  unfolding insert
  insert-IsSorted key value [] h = (tt, tt)
  insert-IsSorted key value (e ∷ d) (p, h) =
      if_elim IsSorted (text_eq e.0 key)
        (λ same. (subst (λ k. After k d) ((text_eq_iff e.0 key).0 same) p, h))
        (λ other.
          if_elim IsSorted (text_ltb key e.0)
            (λ before. ((before, text_ltb-After key e.0 d before p), (p, h)))
            (λ behind. (
              After-insert e.0 key value d (text_ltb_total key e.0 (flip key e.0 other) behind) p,
              insert-IsSorted key value d h,
            )))
    where
      flip : (x y : Text) → text_eq y x ≡ false → text_eq x y ≡ false
      flip x y n = ground (arith, text_eq_iff x y, text_eq_iff y x)

  pub remove-IsSorted : (key : Text) (d : Dict V) → IsSorted d → IsSorted (remove key d)
  unfolding remove
  remove-IsSorted key [] h = tt
  remove-IsSorted key (e ∷ d) (p, h) =
      if_elim IsSorted (text_eq e.0 key) (λ _. h)
        (λ _. (After-remove e.0 key d p, remove-IsSorted key d h))

  -- What all entries have, all have after an entry that has it is put in, and after a removal.
  pub insert-All {κ} :
      (P : Text × V → Type κ) (key : Text) (value : V) (d : Dict V)
      → P (key, value)
      → All P d
      → All P (insert key value d)
  unfolding insert
  insert-All P key value [] p h = (p, tt)
  insert-All P key value (e ∷ d) p (q, h) =
      if_elim (All P) (text_eq e.0 key) (λ _. (p, h))
        (λ _.
          if_elim (All P) (text_ltb key e.0) (λ _. (p, (q, h)))
            (λ _. (q, insert-All P key value d p h)))

  pub remove-All {κ} :
      (P : Text × V → Type κ) (key : Text) (d : Dict V) → All P d → All P (remove key d)
  unfolding remove
  remove-All P key [] h = tt
  remove-All P key (e ∷ d) (q, h) =
      if_elim (All P) (text_eq e.0 key) (λ _. h) (λ _. (q, remove-All P key d h))

  pub lookup-All {κ} :
      (P : Text × V → Type κ) (key : Text) (d : Dict V) (value : V)
      → All P d
      → lookup key d ≡ some value
      → P (key, value)
  unfolding lookup
  lookup-All P key [] value h k = absurd (cc)
  lookup-All P key (e ∷ d) value (p, h) k = elim (Bool-cases (text_eq e.0 key)) [
    | inl same ↦ subst P (entry_path same) p
    | inr other ↦ lookup-All P key d value h (ground arith)
  ]
    where
      entry_path : text_eq e.0 key ≡ true → e ≡ (key, value)
      entry_path same = ground (arith, text_eq_iff e.0 key)

  -- No entry of the key is left after its removal.
  pub remove-All_other :
      (key : Text) (d : Dict V)
      → IsSorted d
      → All (λ (e : Text × V). text_eq e.0 key ≡ false) (remove key d)
  unfolding remove
  remove-All_other key [] h = tt
  remove-All_other key (e ∷ d) (p, h) =
      if_elim (All (λ (e : Text × V). text_eq e.0 key ≡ false)) (text_eq e.0 key)
        (λ same. after_other d (subst (λ k. After k d) ((text_eq_iff e.0 key).0 same) p))
        (λ other. (other, remove-All_other key d h))
    where
      after_other : (d : Dict V) → After key d → All (λ (e : Text × V). text_eq e.0 key ≡ false) d
      after_other [] h = tt
      after_other (e ∷ d) (p, h) =
          (ground (arith, text_eq_iff e.0 key, text_ltb_irrefl key), after_other d h)

  -- A part of the entries that a test of the keys chooses.
  keep-After : (key : Text) (p : Text × V → Bool) (d : Dict V) → After key d → After key (keep p d)
  keep-After key p [] h = tt
  keep-After key p (e ∷ d) (q, h) =
      if_elim (After key) (p e) (λ _. (q, keep-After key p d h)) (λ _. keep-After key p d h)

  pub keep-IsSorted : (p : Text × V → Bool) (d : Dict V) → IsSorted d → IsSorted (keep p d)
  keep-IsSorted p [] h = tt
  keep-IsSorted p (e ∷ d) (q, h) =
      if_elim IsSorted (p e) (λ _. (keep-After e.0 p d q, keep-IsSorted p d h))
        (λ _. keep-IsSorted p d h)

  pub lookup-keep :
      (p : Text → Bool) (key : Text) (d : Dict V)
      → lookup key (keep (λ (e : Text × V). p e.0) d) ≡ (if p key then lookup key d else none)
  unfolding lookup
  lookup-keep p key [] = ground arith
  lookup-keep p key (e ∷ d) = ground (arith, text_eq_iff e.0 key, lookup-keep p key d)
