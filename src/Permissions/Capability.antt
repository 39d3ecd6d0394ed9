-- ===== src/Permissions/Capability.antt =====
-- crates/cageforge-permissions/src/lib.rs: the capabilities that a request may name, with their
-- derived equality and order.
use cageforge.Base.{
  ℕ, Bool, true, not, ◌&&◌, ◌||◌, ◌==◌, ltb, Text, codes, text_eq, text_eq_iff, text_ltb,
  contains_char, is_empty, ◌≡◌, ◌↔◌, arith, Result, ok, ◌>>◌, fail_if,
}
use cageforge.Policy.Host.{trim}
use cageforge.Permissions.Error.{PermissionError}

-- `Eq` and `Ord`, as the derived implementations give them.
pub record Ordered (A : Type 0) : Type 0 where
  pub eq : A → A → Bool
  pub leb : A → A → Bool
  pub eq_iff : (a b : A) → (eq a b ≡ true) ↔ (a ≡ b)

pub data FilesystemOperation : Type 0 where
  read write deny map_executable : FilesystemOperation

-- The place of a variant in the derived order.
abbrev pub rank : FilesystemOperation → ℕ
rank FilesystemOperation.read = 0
rank FilesystemOperation.write = 1
rank FilesystemOperation.deny = 2
rank FilesystemOperation.map_executable = 3

pub record FilesystemCapability : Type 0 where
  pub operation : FilesystemOperation
  pub path : Text

pub record NetworkCapability : Type 0 where
  pub endpoint : Text

pub record ProcessCapability : Type 0 where
  pub program : Text

-- The test of the constructors: nothing but white space, or a NUL.
unfoldable pub is_blank_or_nul : Text → Bool
unfolding trim
is_blank_or_nul value = is_empty (trim value) || contains_char 0 value

unfoldable pub validate_path : Text → Result PermissionError (Unit {0})
unfolding is_blank_or_nul
validate_path path =
    fail_if (is_blank_or_nul path)
      (PermissionError.invalid_capability (codes "filesystem path must be non-empty and NUL-free"))

unfoldable pub new_filesystem_capability :
    FilesystemOperation → Text → Result PermissionError FilesystemCapability
unfolding validate_path
new_filesystem_capability operation path = do
  validate_path path
  ok (record { operation = operation; path = path })

unfoldable pub new_network_capability : Text → Result PermissionError NetworkCapability
unfolding is_blank_or_nul
new_network_capability endpoint = do
  fail_if (is_blank_or_nul endpoint)
      (PermissionError.invalid_capability (codes "network endpoint must be non-empty and NUL-free"))
  ok (record { endpoint = endpoint })

unfoldable pub new_process_capability : Text → Result PermissionError ProcessCapability
unfolding is_blank_or_nul
new_process_capability program = do
  fail_if (is_blank_or_nul program)
      (PermissionError.invalid_capability (codes "program must be non-empty and NUL-free"))
  ok (record { program = program })

unfoldable pub filesystem_eq : FilesystemCapability → FilesystemCapability → Bool
filesystem_eq a b = rank a.operation == rank b.operation && text_eq a.path b.path

pub filesystem_eq_iff : (a b : FilesystemCapability) → (filesystem_eq a b ≡ true) ↔ (a ≡ b)
unfolding filesystem_eq
filesystem_eq_iff a b = ground (arith, text_eq_iff a.path b.path)

pub network_eq_iff : (a b : NetworkCapability) → (text_eq a.endpoint b.endpoint ≡ true) ↔ (a ≡ b)
network_eq_iff a b = ground (arith, text_eq_iff a.endpoint b.endpoint)

pub process_eq_iff : (a b : ProcessCapability) → (text_eq a.program b.program ≡ true) ↔ (a ≡ b)
process_eq_iff a b = ground (arith, text_eq_iff a.program b.program)

instance unfoldable pub filesystem_order : Ordered FilesystemCapability
unfolding filesystem_eq
filesystem_order = record {
  eq = filesystem_eq;
  leb = λ a b.
      ltb (rank a.operation) (rank b.operation)
      || (rank a.operation == rank b.operation && not (text_ltb b.path a.path));
  eq_iff = filesystem_eq_iff;
}

instance unfoldable pub network_order : Ordered NetworkCapability
network_order = record {
  eq = λ a b. text_eq a.endpoint b.endpoint;
  leb = λ a b. not (text_ltb b.endpoint a.endpoint);
  eq_iff = network_eq_iff;
}

instance unfoldable pub process_order : Ordered ProcessCapability
process_order = record {
  eq = λ a b. text_eq a.program b.program;
  leb = λ a b. not (text_ltb b.program a.program);
  eq_iff = process_eq_iff;
}
