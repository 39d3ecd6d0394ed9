-- ===== src/Command/Names/Laws.antt =====
-- crates/cageforge-command/src/environment.rs: removal and replacement in the tables of
-- names.
use cageforge.Base.{
  Bool, true, false, ◌≡◌, ◌↔◌, refl, ◌∙◌, arith, text_eq, text_eq_iff, none, some, [], ◌∷◌, All,
  map-All, zip-All, Option_elim, if_elim, lookup, remove, IsSorted, insert-IsSorted,
  remove-IsSorted, insert-All, remove-All, remove-All_other, lookup-insert_same,
  lookup-insert_other, lookup-remove_other,
}
use cageforge.Command.Names.{
  OsString, OsText, CaseFoldedText, EnvironmentNameIdentity, folded_eq, identity_eq, NameMap,
  find_name, forget_name, NameTable, environment_name_identity, remove_environment_name,
  replace_environment_name,
}

folded_eq_iff : (x y : CaseFoldedText) → (folded_eq x y ≡ true) ↔ (x ≡ y)
unfolding folded_eq
folded_eq_iff [] [] = ground arith
folded_eq_iff [] (b ∷ y) = ground arith
folded_eq_iff (a ∷ x) [] = ground arith
folded_eq_iff (a ∷ x) (b ∷ y) = ground (arith, text_eq_iff a b, folded_eq_iff x y)

pub identity_eq_iff : (a b : EnvironmentNameIdentity) → (identity_eq a b ≡ true) ↔ (a ≡ b)
unfolding identity_eq
identity_eq_iff (EnvironmentNameIdentity.folded a) (EnvironmentNameIdentity.folded b) =
    ground (arith, folded_eq_iff a b)
identity_eq_iff (EnvironmentNameIdentity.folded a) (EnvironmentNameIdentity.native_bytes b) =
    ground arith
identity_eq_iff (EnvironmentNameIdentity.native_bytes a) (EnvironmentNameIdentity.folded b) =
    ground arith
identity_eq_iff (EnvironmentNameIdentity.native_bytes a) (EnvironmentNameIdentity.native_bytes b) =
    ground (arith, text_eq_iff a b)

find_name-forget_same :
    (key : EnvironmentNameIdentity) (names : NameMap) → find_name key (forget_name key names) ≡ none
unfolding find_name forget_name
find_name-forget_same key [] = refl
find_name-forget_same key (e ∷ names) = ground (arith, find_name-forget_same key names)

find_name-forget_other :
    (key other : EnvironmentNameIdentity) (names : NameMap)
    → identity_eq other key ≡ false
    → find_name other (forget_name key names) ≡ find_name other names
unfolding find_name forget_name
find_name-forget_other key other [] h = refl
find_name-forget_other key other (e ∷ names) h = ground (
  arith,
  identity_eq_iff e.0 key,
  identity_eq_iff e.0 other,
  identity_eq_iff other key,
  find_name-forget_other key other names h,
)

module _ ⦃o : OsText⦄ where
  -- Whether two names are one variable.
  abbrev pub same_name : OsString → OsString → Bool
  same_name a b = identity_eq (environment_name_identity a) (environment_name_identity b)

  abbrev IsNamed : EnvironmentNameIdentity × OsString → Type 0
  IsNamed p = environment_name_identity p.1 ≡ p.0

  find_name-IsNamed :
      (key : EnvironmentNameIdentity) (names : NameMap) (name : OsString)
      → All IsNamed names
      → find_name key names ≡ some name
      → environment_name_identity name ≡ key
  unfolding find_name
  find_name-IsNamed key [] name h k = absurd (cc)
  find_name-IsNamed key (e ∷ names) name (p, h) k =
      ground (arith, identity_eq_iff e.0 key, find_name-IsNamed key names name h)

  forget_name-IsNamed :
      (key : EnvironmentNameIdentity) (names : NameMap)
      → All IsNamed names
      → All IsNamed (forget_name key names)
  unfolding forget_name
  forget_name-IsNamed key [] h = tt
  forget_name-IsNamed key (e ∷ names) (p, h) =
      if_elim (All IsNamed) (identity_eq e.0 key) (λ _. forget_name-IsNamed key names h)
        (λ _. (p, forget_name-IsNamed key names h))

  module _ {V : Type 0} where
    -- The entry is the one that its identity names.
    abbrev pub IsKnown : NameMap → OsString × V → Type 0
    IsKnown names e = find_name (environment_name_identity e.0) names ≡ some e.0

    -- The values are in order, each is known, and what is known has its identity.
    abbrev pub IsConsistent : NameTable V → Type 0
    IsConsistent table =
        IsSorted table.values × (All (IsKnown table.names) table.values × All IsNamed table.names)

    -- The result is consistent, has no value of the name in any spelling and the values of all
    -- other names.
    abbrev pub IsRemoval : OsString → NameTable V → NameTable V → Type 0
    IsRemoval name table result =
        IsConsistent result
        × All (λ (e : OsString × V). same_name e.0 name ≡ false) result.values
        × ((other : OsString)
            → same_name other name ≡ false
            → lookup other result.values ≡ lookup other table.values)

    -- An entry of another identity than the one that is forgotten stays known.
    still-IsKnown :
        (name : OsString) (names : NameMap) (e : OsString × V)
        → IsKnown names e × (same_name e.0 name ≡ false)
        → IsKnown (forget_name (environment_name_identity name) names) e
    still-IsKnown name names e (known, other) =
        find_name-forget_other (environment_name_identity name) (environment_name_identity e.0)
          names other
        ∙ known

    pub remove_environment_name-IsRemoval :
        (name : OsString) (table : NameTable V)
        → IsConsistent table
        → IsRemoval name table (remove_environment_name name table)
    unfolding remove_environment_name
    remove_environment_name-IsRemoval name table (sorted, (known, named)) =
        Option_elim (IsRemoval name table) (find_name (environment_name_identity name) table.names)
          (λ absent. (
            (sorted, (known, named)),
            map-All (IsKnown table.names) (λ e. same_name e.0 name ≡ false)
                (λ e k. ground (
                  arith,
                  absent,
                  identity_eq_iff (environment_name_identity e.0) (environment_name_identity name),
                ))
                table.values known,
            λ other _. refl,
          ))
          (λ existing found.
            let key = environment_name_identity name in
            let its : environment_name_identity existing ≡ key =
              find_name-IsNamed key table.names existing named found in
            let left = remove-All (IsKnown table.names) existing table.values known in
            let others : All (λ (e : OsString × V). same_name e.0 name ≡ false)
                (remove existing table.values) =
              map-All (λ (e : OsString × V). IsKnown table.names e × (text_eq e.0 existing ≡ false))
                (λ e. same_name e.0 name ≡ false)
                (λ e (k, differs). ground (
                  arith,
                  found,
                  text_eq_iff e.0 existing,
                  identity_eq_iff (environment_name_identity e.0) key,
                ))
                (remove existing table.values)
                (zip-All (IsKnown table.names) (λ e. text_eq e.0 existing ≡ false)
                  (remove existing table.values) left
                  (remove-All_other existing table.values sorted)) in
            (
              (
                remove-IsSorted existing table.values sorted,
                (
                  map-All
                      (λ (e : OsString × V). IsKnown table.names e × (same_name e.0 name ≡ false))
                      (IsKnown (forget_name key table.names)) (still-IsKnown name table.names)
                      (remove existing table.values)
                      (zip-All (IsKnown table.names) (λ e. same_name e.0 name ≡ false)
                        (remove existing table.values) left others),
                  forget_name-IsNamed key table.names named,
                ),
              ),
              others,
              λ other differs. lookup-remove_other existing other table.values (
                  ground (
                    arith,
                    its,
                    text_eq_iff existing other,
                    identity_eq_iff (environment_name_identity other) key,
                  )),
            ))

    -- The result is consistent, has the value under the name, and the values of all other names.
    abbrev pub IsReplacement : OsString → V → NameTable V → NameTable V → Type 0
    IsReplacement name value table result =
        IsConsistent result
        × (lookup name result.values ≡ some value)
        × ((other : OsString)
            → same_name other name ≡ false
            → lookup other result.values ≡ lookup other table.values)

    first-IsKnown :
        (name : OsString) (names : NameMap) (e : OsString × V)
        → IsKnown names e × (same_name e.0 name ≡ false)
        → IsKnown
            ((environment_name_identity name, name)
              ∷ forget_name (environment_name_identity name) names)
            e
    unfolding find_name
    first-IsKnown name names e (known, other) = ground (
      arith,
      still-IsKnown name names e (known, other),
      identity_eq_iff (environment_name_identity name) (environment_name_identity e.0),
      identity_eq_iff (environment_name_identity e.0) (environment_name_identity name),
    )

    new-IsKnown :
        (name : OsString) (names : NameMap) (value : V)
        → IsKnown ((environment_name_identity name, name) ∷ names) (name, value)
    unfolding find_name
    new-IsKnown name names value =
        ground
          (arith, identity_eq_iff (environment_name_identity name) (environment_name_identity name))

    pub replace_environment_name-IsReplacement :
        (name : OsString) (value : V) (table : NameTable V)
        → IsConsistent table
        → IsReplacement name value table (replace_environment_name name value table)
    unfolding replace_environment_name
    replace_environment_name-IsReplacement name value table consistent =
        let removed = remove_environment_name name table in
        let key = environment_name_identity name in
        let names = (key, name) ∷ forget_name key removed.names in
        let ((sorted, (known, named)), others, kept) =
          remove_environment_name-IsRemoval name table consistent in
        (
          (
            insert-IsSorted name value removed.values sorted,
            (
              insert-All (IsKnown names) name value removed.values
                  (new-IsKnown name (forget_name key removed.names) value)
                  (map-All
                    (λ (e : OsString × V). IsKnown removed.names e × (same_name e.0 name ≡ false))
                    (IsKnown names) (first-IsKnown name removed.names) removed.values
                    (zip-All (IsKnown removed.names) (λ e. same_name e.0 name ≡ false)
                      removed.values known others)),
              (refl, forget_name-IsNamed key removed.names named),
            ),
          ),
          lookup-insert_same name value removed.values,
          λ other differs.
              lookup-insert_other name other value removed.values (
                ground (
                  arith,
                  text_eq_iff name other,
                  identity_eq_iff key key,
                  identity_eq_iff (environment_name_identity other) key,
                ))
              ∙ kept other differs,
        )
