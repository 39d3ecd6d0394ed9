-- ===== src/Permissions/Error.antt =====
-- crates/cageforge-permissions/src/lib.rs: the errors.
use cageforge.Base.{ℕ, Text}
use cageforge.Path.Components.{FilePath}

pub data PermissionError : Type 0 where
  invalid_capability invalid_identity invalid_digest : Text → PermissionError
  invalid_grant_id : PermissionError
  invalid_scope : Text → PermissionError
  grant_exceeds_request invalid_expiration invalid_timeout invalid_escalation_reason
        empty_escalation :
      PermissionError

pub data StoreError : Type 0 where
  path_not_absolute : FilePath → StoreError
  read format : Text → StoreError
  unsupported_schema : ℕ → StoreError
  poisoned grant_mismatch non_persistent_grant : StoreError
  write : Text → StoreError
  invalid_grant_id grant_not_found listing_snapshot_expired : StoreError
  invalid_page_size : ℕ → ℕ → StoreError
  invalid_cursor : StoreError
  store_locked : Text → StoreError
