-- ===== src/Permissions/Set/Laws.antt =====
-- crates/cageforge-permissions/src/lib.rs: what the operations on sets of capabilities keep.
use cageforge.Base.{
  Bool, true, ◌&&◌, ◌||◌, ◌≡◌, refl, ◌∙◌, arith, List, [], ◌∷◌, ◌++◌, any, all, Bool-cases, inl,
  inr,
}
use cageforge.Permissions.Capability.{Ordered, filesystem_order, network_order, process_order}
use cageforge.Permissions.Set.{
  contains, insert_in_order, sort, push_missing, PermissionSet, is_subset_of, extend_from,
}

module _ {A : Type 0} ⦃o : Ordered A⦄ where
  any-insert_in_order :
      (p : A → Bool) (a : A) (values : List A)
      → any p (insert_in_order a values) ≡ (p a || any p values)
  unfolding insert_in_order
  any-insert_in_order p a [] = refl
  any-insert_in_order p a (b ∷ values) = ground (arith, any-insert_in_order p a values)

  any-sort : (p : A → Bool) (values : List A) → any p (sort values) ≡ any p values
  unfolding sort
  any-sort p [] = refl
  any-sort p (a ∷ values) = ground (arith, any-insert_in_order p a (sort values), any-sort p values)

  all-insert_in_order :
      (p : A → Bool) (a : A) (values : List A)
      → all p (insert_in_order a values) ≡ (p a && all p values)
  unfolding insert_in_order
  all-insert_in_order p a [] = refl
  all-insert_in_order p a (b ∷ values) = ground (arith, all-insert_in_order p a values)

  all-sort : (p : A → Bool) (values : List A) → all p (sort values) ≡ all p values
  unfolding sort
  all-sort p [] = refl
  all-sort p (a ∷ values) = ground (arith, all-insert_in_order p a (sort values), all-sort p values)

  all-append : (p : A → Bool) (xs ys : List A) → all p (xs ++ ys) ≡ (all p xs && all p ys)
  all-append p [] ys = refl
  all-append p (x ∷ xs) ys = ground (arith, all-append p xs ys)

  -- A value of the list passes every test that the whole list passes.
  all-contains :
      (p : A → Bool) (values : List A) (a : A)
      → all p values ≡ true
      → contains values a ≡ true
      → p a ≡ true
  all-contains p [] a h k = cc
  all-contains p (b ∷ values) a h k = ground (arith, o.eq_iff b a, all-contains p values a)

  -- What `push_missing` leaves out, the list has.
  all-push_missing :
      (p : A → Bool) (values capabilities : List A)
      → all p (push_missing values capabilities) ≡ (all p values && all p capabilities)
  unfolding push_missing
  all-push_missing p values [] = ground arith
  all-push_missing p values (c ∷ capabilities) = elim (Bool-cases (contains values c)) [
    | inl old ↦ ground (arith, all-contains p values c, all-push_missing p values capabilities)
    | inr new ↦
        ground (
          arith,
          all-append p values (c ∷ []),
          all-push_missing p (values ++ (c ∷ [])) capabilities,
        )
  ]

  contains_self : (a : A) → o.eq a a ≡ true
  contains_self a = (o.eq_iff a a).1 refl

  -- A test that holds of a list's own values: each of them is contained.
  all_contained_cons :
      (a : A) (values xs : List A)
      → all (contains values) xs ≡ true
      → all (contains (a ∷ values)) xs ≡ true
  all_contained_cons a values [] h = refl
  all_contained_cons a values (x ∷ xs) h = ground (arith, all_contained_cons a values xs)

  all_contained_refl : (values : List A) → all (contains values) values ≡ true
  all_contained_refl [] = refl
  all_contained_refl (a ∷ values) =
      ground
        (arith, contains_self a, all_contained_cons a values values (all_contained_refl values))

  all_contained_trans :
      (xs ys zs : List A)
      → all (contains ys) xs ≡ true
      → all (contains zs) ys ≡ true
      → all (contains zs) xs ≡ true
  all_contained_trans [] ys zs h k = refl
  all_contained_trans (x ∷ xs) ys zs h k =
      ground (arith, all-contains (contains zs) ys x k, all_contained_trans xs ys zs)

  all_contained-extend :
      (values capabilities r : List A)
      → all (contains r) (sort (push_missing values capabilities))
        ≡ (all (contains r) values && all (contains r) capabilities)
  all_contained-extend values capabilities r =
      all-sort (contains r) (push_missing values capabilities)
      ∙ all-push_missing (contains r) values capabilities

pub is_subset_of_refl : (a : PermissionSet) → is_subset_of a a ≡ true
unfolding is_subset_of
is_subset_of_refl a = ground (
  arith,
  all_contained_refl a.filesystem,
  all_contained_refl a.network,
  all_contained_refl a.child_processes,
)

pub is_subset_of_trans :
    (a b c : PermissionSet)
    → is_subset_of a b ≡ true
    → is_subset_of b c ≡ true
    → is_subset_of a c ≡ true
unfolding is_subset_of
is_subset_of_trans a b c h k = ground (
  arith,
  all_contained_trans a.filesystem b.filesystem c.filesystem,
  all_contained_trans a.network b.network c.network,
  all_contained_trans a.child_processes b.child_processes c.child_processes,
)

-- An extended set is within a third one exactly when both of its parts are.
pub is_subset_of-extend_from :
    (a b c : PermissionSet)
    → is_subset_of (extend_from a b) c ≡ (is_subset_of a c && is_subset_of b c)
unfolding is_subset_of extend_from
is_subset_of-extend_from a b c = ground (
  arith,
  all_contained-extend a.filesystem b.filesystem c.filesystem,
  all_contained-extend a.network b.network c.network,
  all_contained-extend a.child_processes b.child_processes c.child_processes,
)
