-- ===== src/Permissions/Store.antt =====
-- crates/cageforge-permissions/src/lib.rs: the store of persistent grants. The state is the file's
-- document, `none` where there is no file; what a call of the system may refuse is an argument.
pub mod Step
pub mod WellFormed
pub mod Lookup
pub mod History
use cageforge.Base.{
  ℕ, Bool, true, false, not, ◌&&◌, ◌||◌, ◌==◌, Text, codes, text_eq, Option, none, some, List, [],
  ◌∷◌, Dict, lookup, insert, remove, is_some, if◌then◌else◌, Result, ok, err, ◌>>=◌, ◌>>◌, fail_if,
  map_err,
}
use cageforge.Path.Components.{FilePath, is_absolute}
use cageforge.Permissions.Error.{StoreError}
use cageforge.Permissions.Set.{PermissionSet}
use cageforge.Permissions.Request.{PlatformId, PermissionRequest, RequestDigest}
use cageforge.Permissions.GrantId.{GrantId, to_hex, from_hex}
use cageforge.Permissions.Grant.{
  PermissionScope, PermissionGrant, digest, grant_matches, is_valid_at,
}

pub record StoredGrant : Type 0 where
  pub request_digest : Text
  pub tool_id : Text
  pub tool_version : Text
  pub manifest_digest : Text
  pub config_digest : Text
  pub platform : PlatformId
  pub architecture : Text
  pub approved : PermissionSet
  pub scope : PermissionScope
  pub expires_at : Option ℕ
  pub issued_at : ℕ

pub record StoreDocument : Type 0 where
  pub schema_version : ℕ
  pub grants : Dict StoredGrant

abbrev pub schema_version : ℕ
schema_version = 2

abbrev pub Disk : Type 0
Disk = Option StoreDocument

-- A failure of `write_document`: before the file is replaced, or in the check behind it.
pub data WriteFault : Type 0 where
  kept replaced : StoreError → WriteFault

-- What the lock, the reading and the writing of the file meet in one call.
pub record Faults : Type 0 where
  pub lock : Option StoreError
  pub read : Option StoreError
  pub write : Option WriteFault

abbrev pub pass : Option StoreError → Result StoreError (Unit {0})
pass none = ok tt
pass (some e) = err e

unfoldable pub empty_document : StoreDocument
empty_document = record { schema_version = schema_version; grants = [] }

-- The loop of `read_document` over the entries.
unfoldable pub check_entry : Text × StoredGrant → Result StoreError (Unit {0})
unfolding from_hex to_hex
check_entry entry = do
  id ← map_err (λ _. StoreError.invalid_grant_id) (from_hex entry.0)
  fail_if (not (text_eq (to_hex id) entry.0)) StoreError.invalid_grant_id
  fail_if (not (text_eq entry.1.request_digest entry.0))
      (StoreError.format (codes "grant key does not match request digest"))

unfoldable pub check_entries : Dict StoredGrant → Result StoreError (Unit {0})
unfolding check_entry
check_entries [] = ok tt
check_entries (entry ∷ entries) = check_entry entry >> check_entries entries

unfoldable pub read_document : Faults → StoreDocument → Result StoreError StoreDocument
unfolding check_entries
read_document faults document = do
  pass faults.read
  fail_if (not (document.schema_version == schema_version))
      (StoreError.unsupported_schema document.schema_version)
  check_entries document.grants
  ok document

-- `read_current_document`, which `get` and `put` repeat.
unfoldable pub read_current_document : Faults → Disk → Result StoreError StoreDocument
unfolding read_document empty_document
read_current_document faults none = ok empty_document
read_current_document faults (some document) = pass faults.lock >> read_document faults document

unfoldable pub write_document : Faults → StoreDocument → Disk → Result StoreError (Unit {0}) × Disk
write_document faults document disk = elim faults.write [
  | none ↦ (ok tt, some document)
  | some (WriteFault.kept e) ↦ (err e, disk)
  | some (WriteFault.replaced e) ↦ (err e, some document)
]

unfoldable pub open_store : Faults → FilePath → Disk → Result StoreError FilePath
unfolding read_document
open_store faults path disk = do
  fail_if (not (is_absolute path)) (StoreError.path_not_absolute path)
  elim disk [ none ↦ ok path | some document ↦ read_document faults document >> ok path ]

unfoldable pub platform_eq : PlatformId → PlatformId → Bool
platform_eq PlatformId.linux PlatformId.linux = true
platform_eq PlatformId.macos PlatformId.macos = true
platform_eq PlatformId.windows PlatformId.windows = true
platform_eq _ _ = false

abbrev pub is_persistent : PermissionScope → Bool
is_persistent PermissionScope.persistent = true
is_persistent _ = false

abbrev pub grant_of : StoredGrant → PermissionGrant
grant_of stored = record {
  request_digest = stored.request_digest;
  approved = stored.approved;
  scope = stored.scope;
  expires_at = stored.expires_at;
  issued_at = stored.issued_at;
}

abbrev pub stored_of : PermissionGrant → PermissionRequest → StoredGrant
stored_of grant request = record {
  request_digest = grant.request_digest;
  tool_id = request.tool_id;
  tool_version = request.tool_version;
  manifest_digest = request.manifest_digest;
  config_digest = request.config_digest;
  platform = request.platform;
  architecture = request.architecture;
  approved = grant.approved;
  scope = grant.scope;
  expires_at = grant.expires_at;
  issued_at = grant.issued_at;
}

-- `revoke` behind its reading.
unfoldable pub revoke_from : Faults → GrantId → StoreDocument → Disk → Result StoreError Bool × Disk
unfolding write_document to_hex
revoke_from faults id document disk =
    if is_some (lookup (to_hex id) document.grants)
    then (let written =
          write_document faults (record document { grants = remove (to_hex id) document.grants })
            disk in
        (written.0 >> ok true, written.1))
    else (ok false, disk)

-- `RevokeResult` is whether a grant was revoked.
unfoldable pub revoke : Faults → GrantId → Disk → Result StoreError Bool × Disk
unfolding read_document revoke_from
revoke faults id none = (ok false, none)
revoke faults id (some document) = elim (pass faults.lock >> read_document faults document) [
  | err e ↦ (err e, some document)
  | ok current ↦ revoke_from faults id current (some document)
]

unfoldable pub revoke_all : Faults → Disk → Result StoreError (Unit {0}) × Disk
unfolding read_document write_document
revoke_all faults none = (ok tt, none)
revoke_all faults (some document) = elim (pass faults.lock >> read_document faults document) [
  | err e ↦ (err e, some document)
  | ok current ↦ write_document faults (record current { grants = [] }) (some document)
]

module _ ⦃d : RequestDigest⦄ where
  -- The test of `get` on the entry that it finds.
  unfoldable pub accepts : ℕ → PermissionRequest → StoredGrant → Bool
  unfolding digest platform_eq grant_matches is_valid_at
  accepts now request stored =
      text_eq stored.request_digest (digest request)
      && (text_eq stored.tool_id request.tool_id
          && (text_eq stored.tool_version request.tool_version
              && (text_eq stored.manifest_digest request.manifest_digest
                  && (text_eq stored.config_digest request.config_digest
                      && (platform_eq stored.platform request.platform
                          && (text_eq stored.architecture request.architecture
                              && (is_persistent stored.scope
                                  && (grant_matches (grant_of stored) request
                                      && is_valid_at (grant_of stored) now))))))))

  unfoldable pub get :
      Faults → ℕ → PermissionRequest → Disk → Result StoreError (Option PermissionGrant)
  unfolding digest read_current_document accepts
  get faults now request disk = do
    document ← read_current_document faults disk
    ok (elim (lookup (digest request) document.grants) [
      | none ↦ none
      | some stored ↦ if accepts now request stored then some (grant_of stored) else none
    ])

  -- `put` in front of its writing.
  unfoldable pub put_document :
      Faults → PermissionGrant → PermissionRequest → Disk → Result StoreError StoreDocument
  unfolding digest grant_matches read_current_document
  put_document faults grant request disk = do
    fail_if (not (grant_matches grant request)) StoreError.grant_mismatch
    fail_if (not (is_persistent grant.scope)) StoreError.non_persistent_grant
    pass faults.lock
    document ← read_current_document faults disk
    ok (record document {
      grants = insert (digest request) (stored_of grant request) document.grants;
    })

  unfoldable pub put :
      Faults → PermissionGrant → PermissionRequest → Disk → Result StoreError (Unit {0}) × Disk
  unfolding put_document write_document
  put faults grant request disk = elim (put_document faults grant request disk) [
    | err e ↦ (err e, disk)
    | ok document ↦ write_document faults document disk
  ]
