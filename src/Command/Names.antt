-- ===== src/Command/Names.antt =====
-- crates/cageforge-command/src/environment.rs and environment/model.rs: names of variables, which
-- are one whatever their case, and the tables that are keyed by them. What the standard library
-- knows of texts is the interface `OsText`.
pub mod Laws
use cageforge.Base.{
  ℕ, Bool, true, false, not, ◌&&◌, Text, codes, text_eq, contains_char, is_empty, Option, none,
  some, List, [], ◌∷◌, map, keep, Dict, insert, remove, if◌then◌else◌, Result, ok, err, ◌>>=◌, ◌>>◌,
  fail_if,
}
use cageforge.Command.Error.{CommandError}

-- `OsString`: its bytes.
abbrev pub OsString : Type 0
OsString = List ℕ

-- `OsStr::to_str` and `char::to_lowercase`.
pub record OsText : Type 0 where
  pub to_str : OsString → Option Text
  pub to_lowercase : ℕ → Text

-- `CaseFoldedText`: the lower-case characters of each character.
abbrev pub CaseFoldedText : Type 0
CaseFoldedText = List Text

pub data EnvironmentNameIdentity : Type 0 where
  folded : CaseFoldedText → EnvironmentNameIdentity
  native_bytes : List ℕ → EnvironmentNameIdentity

unfoldable pub folded_eq : CaseFoldedText → CaseFoldedText → Bool
unfolding text_eq
folded_eq [] [] = true
folded_eq (a ∷ x) (b ∷ y) = text_eq a b && folded_eq x y
folded_eq _ _ = false

unfoldable pub identity_eq : EnvironmentNameIdentity → EnvironmentNameIdentity → Bool
unfolding folded_eq
identity_eq (EnvironmentNameIdentity.folded a) (EnvironmentNameIdentity.folded b) = folded_eq a b
identity_eq (EnvironmentNameIdentity.native_bytes a) (EnvironmentNameIdentity.native_bytes b) =
    text_eq a b
identity_eq _ _ = false

abbrev pub contains_nul : OsString → Bool
contains_nul value = contains_char 0 value

-- The byte of "=" is in a name exactly where the character is in its lossy text.
unfoldable pub validate_name : OsString → Result CommandError (Unit {0})
validate_name name = do
  fail_if (is_empty name) CommandError.empty_environment_name
  fail_if (contains_nul name) CommandError.environment_name_contains_nul
  fail_if (contains_char b'=' name) CommandError.environment_name_contains_equals

-- `HashMap<EnvironmentNameKey, OsString>`
abbrev pub NameMap : Type 0
NameMap = List (EnvironmentNameIdentity × OsString)

unfoldable pub find_name : EnvironmentNameIdentity → NameMap → Option OsString
unfolding identity_eq
find_name key [] = none
find_name key (entry ∷ names) =
    let rest = find_name key names in if identity_eq entry.0 key then some entry.1 else rest

unfoldable pub forget_name : EnvironmentNameIdentity → NameMap → NameMap
unfolding identity_eq
forget_name key [] = []
forget_name key (entry ∷ names) =
    let rest = forget_name key names in if identity_eq entry.0 key then rest else entry ∷ rest

-- The values of a table by their spelling, and the spelling by the identity.
pub record NameTable {ℓ} (V : Type ℓ) : Type ℓ where
  pub values : Dict V
  pub names : NameMap

abbrev pub empty_table {ℓ} : {V : Type ℓ} → NameTable V
empty_table = record { values = []; names = [] }

module _ ⦃o : OsText⦄ where
  unfoldable pub case_folded_text : Text → CaseFoldedText
  case_folded_text value = map o.to_lowercase value

  -- `environment_name_identity`, and `EnvironmentNameKey::new`.
  unfoldable pub environment_name_identity : OsString → EnvironmentNameIdentity
  unfolding case_folded_text
  environment_name_identity name = elim (o.to_str name) [
    | none ↦ EnvironmentNameIdentity.native_bytes name
    | some text ↦ EnvironmentNameIdentity.folded (case_folded_text text)
  ]

  module _ {ℓ} {V : Type ℓ} where
    unfoldable pub remove_environment_name : OsString → NameTable V → NameTable V
    unfolding environment_name_identity find_name forget_name
    remove_environment_name name table =
        elim (find_name (environment_name_identity name) table.names) [
          | none ↦ table
          | some existing ↦ record {
            values = remove existing table.values;
            names = forget_name (environment_name_identity name) table.names;
          }
        ]

    -- The removal of a name and the two insertions behind it, which the source repeats.
    unfoldable pub replace_environment_name : OsString → V → NameTable V → NameTable V
    unfolding environment_name_identity forget_name remove_environment_name
    replace_environment_name name value table =
        let removed = remove_environment_name name table in
        record {
          values = insert name value removed.values;
          names =
              (environment_name_identity name, name)
              ∷ forget_name (environment_name_identity name) removed.names;
        }

  -- The loop of `collect_environment`.
  unfoldable pub collect_loop :
      NameTable OsString → List (OsString × OsString) → Result CommandError (NameTable OsString)
  unfolding validate_name replace_environment_name
  collect_loop collected [] = ok collected
  collect_loop collected (variable ∷ variables) =
      validate_name variable.0
      >> fail_if (contains_nul variable.1) CommandError.environment_value_contains_nul
      >> collect_loop (replace_environment_name variable.0 variable.1 collected) variables

  unfoldable pub collect_environment :
      List (OsString × OsString) → Result CommandError (Dict OsString)
  unfolding collect_loop
  collect_environment variables =
      collect_loop empty_table variables >>= λ collected. ok collected.values
