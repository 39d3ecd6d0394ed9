-- ===== src/Permissions/Store/Step.antt =====
-- crates/cageforge-permissions/src/lib.rs: the document of a file behind each operation.
use cageforge.Base.{
  ◌==◌, Bool, true, not, ◌≡◌, sym, subst, arith, Option, none, some, [], lookup, insert, remove,
  is_some, if_elim, fail_if, Result, ok, err, ◌>>◌, >>=-eq-ok, Result_elim,
}
use cageforge.Permissions.Error.{StoreError}
use cageforge.Permissions.Request.{PermissionRequest, RequestDigest}
use cageforge.Permissions.GrantId.{GrantId, to_hex}
use cageforge.Permissions.Grant.{PermissionGrant, digest, grant_matches}
use cageforge.Permissions.Store.{
  StoreDocument, schema_version, Disk, WriteFault, Faults, pass, empty_document, check_entries,
  read_document, read_current_document, write_document, is_persistent, stored_of, revoke_from,
  revoke, revoke_all, put_document, put,
}

-- The property of the document, where there is a file.
abbrev pub OnDisk {ℓ} : (StoreDocument → Type ℓ) → Disk → Type ℓ
OnDisk P none = Unit
OnDisk P (some document) = P document

-- A document that is read is the one of the file.
pub read_document-eq :
    (faults : Faults) (document current : StoreDocument)
    → read_document faults document ≡ ok current
    → current ≡ document
unfolding read_document
read_document-eq faults document current h =
    let (_, _, p) = >>=-eq-ok (pass faults.read) _ h in
    let (_, _, q) = >>=-eq-ok (fail_if (not (document.schema_version == schema_version)) _) _ p in
    let (_, _, r) = >>=-eq-ok (check_entries document.grants) _ q in ground arith

pub read_current_document-eq :
    (faults : Faults) (document current : StoreDocument)
    → read_current_document faults (some document) ≡ ok current
    → current ≡ document
unfolding read_current_document
read_current_document-eq faults document current h =
    let (_, _, p) = >>=-eq-ok (pass faults.lock) (λ _. read_document faults document) h in
    read_document-eq faults document current p

module _ ⦃d : RequestDigest⦄ where
  -- A document that is to be written belongs to a grant of the request, and differs from the one
  -- read in the entry.
  pub put_document-eq-ok :
      (faults : Faults) (grant : PermissionGrant) (request : PermissionRequest) (disk : Disk)
      (document : StoreDocument)
      → put_document faults grant request disk ≡ ok document
      → (grant_matches grant request ≡ true)
        × (is_persistent grant.scope ≡ true)
        × ((old : StoreDocument) × (read_current_document faults disk ≡ ok old)
            × (record old { grants = insert (digest request) (stored_of grant request) old.grants }
                ≡ document))
  unfolding put_document
  put_document-eq-ok faults grant request disk document h =
      let (_, p, h1) = >>=-eq-ok (fail_if (not (grant_matches grant request)) _) _ h in
      let (_, q, h2) = >>=-eq-ok (fail_if (not (is_persistent grant.scope)) _) _ h1 in
      let (_, _, h3) = >>=-eq-ok (pass faults.lock) _ h2 in
      let (old, r, s) = >>=-eq-ok (read_current_document faults disk) _ h3 in
      (ground arith, ground arith, (old, r, ground arith))

module _ {ℓ} (P : StoreDocument → Type ℓ) where
  pub read_current_document-OnDisk :
      P empty_document
      → (faults : Faults) (disk : Disk) (current : StoreDocument) → OnDisk P disk
      → read_current_document faults disk ≡ ok current
      → P current
  unfolding read_current_document
  read_current_document-OnDisk empty faults none current h k =
      subst P {x = empty_document} (ground arith) empty
  read_current_document-OnDisk empty faults (some document) current h k =
      subst P (sym (read_current_document-eq faults document current k)) h

  pub write_document-OnDisk :
      (faults : Faults) (document : StoreDocument) (disk : Disk)
      → P document
      → OnDisk P disk
      → OnDisk P (write_document faults document disk).1
  unfolding write_document
  write_document-OnDisk faults document disk new old = written faults.write
    where
      written :
          (w : Option WriteFault)
          → OnDisk P
              (elim w as (λ _. Result StoreError (Unit {0}) × Disk) [
                | none ↦ (ok tt, some document)
                | some (WriteFault.kept e) ↦ (err e, disk)
                | some (WriteFault.replaced e) ↦ (err e, some document)
              ]).1
      written none = new
      written (some (WriteFault.kept e)) = old
      written (some (WriteFault.replaced e)) = new

  pub revoke-OnDisk :
      (faults : Faults) (id : GrantId)
      → ((doc : StoreDocument) → P doc → P (record doc { grants = remove (to_hex id) doc.grants }))
      → (disk : Disk) → OnDisk P disk
      → OnDisk P (revoke faults id disk).1
  unfolding revoke revoke_from
  revoke-OnDisk faults id keep none h = tt
  revoke-OnDisk faults id keep (some document) h =
      Result_elim (λ (out : Result StoreError Bool × Disk). OnDisk P out.1)
        (pass faults.lock >> read_document faults document) (λ e _. h)
        (λ current read.
          if_elim (λ (out : Result StoreError Bool × Disk). OnDisk P out.1)
            (is_some (lookup (to_hex id) current.grants))
            (λ _.
              write_document-OnDisk faults
                (record current { grants = remove (to_hex id) current.grants }) (some document)
                (keep current (of_read current read)) h)
            (λ _. h))
    where
      of_read :
          (current : StoreDocument)
          → (pass faults.lock >> read_document faults document) ≡ ok current
          → P current
      of_read current read =
          let (_, _, q) = >>=-eq-ok (pass faults.lock) (λ _. read_document faults document) read in
          subst P (sym (read_document-eq faults document current q)) h

  pub revoke_all-OnDisk :
      (faults : Faults)
      → ((doc : StoreDocument) → P doc → P (record doc { grants = [] }))
      → (disk : Disk) → OnDisk P disk
      → OnDisk P (revoke_all faults disk).1
  unfolding revoke_all
  revoke_all-OnDisk faults keep none h = tt
  revoke_all-OnDisk faults keep (some document) h =
      Result_elim (λ (out : Result StoreError (Unit {0}) × Disk). OnDisk P out.1)
        (pass faults.lock >> read_document faults document) (λ e _. h)
        (λ current read.
          let (_, _, q) = >>=-eq-ok (pass faults.lock) (λ _. read_document faults document) read in
          write_document-OnDisk faults (record current { grants = [] }) (some document)
            (keep current (subst P (sym (read_document-eq faults document current q)) h)) h)

  pub put-OnDisk :
      ⦃d : RequestDigest⦄
      → (faults : Faults) (grant : PermissionGrant) (request : PermissionRequest) → P empty_document
      → ((doc : StoreDocument)
          → grant_matches grant request ≡ true
          → P doc
          → P (record doc {
            grants = insert (digest request) (stored_of grant request) doc.grants;
          }))
      → (disk : Disk) → OnDisk P disk
      → OnDisk P (put faults grant request disk).1
  unfolding put
  put-OnDisk faults grant request empty keep disk h =
      Result_elim (λ (out : Result StoreError (Unit {0}) × Disk). OnDisk P out.1)
        (put_document faults grant request disk) (λ e _. h)
        (λ document made.
          let (match, _, (old, read, same)) =
            put_document-eq-ok faults grant request disk document made in
          write_document-OnDisk faults document disk
            (subst P same
              (keep old match (read_current_document-OnDisk empty faults disk old h read)))
            h)
