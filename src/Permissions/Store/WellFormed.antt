-- ===== src/Permissions/Store/WellFormed.antt =====
-- crates/cageforge-permissions/src/lib.rs: the documents that `read_document` takes, and
-- the operations on them.
use cageforge.Base.{
  ==_iff, true, ◌≡◌, refl, ap, arith, text_eq_iff, none, [], ◌∷◌, All, Dict, IsSorted,
  insert-IsSorted, remove-IsSorted, insert-All, remove-All, ok, >>=-eq-ok,
}
use cageforge.Permissions.Request.{PermissionRequest, RequestDigest}
use cageforge.Permissions.GrantId.{GrantId, to_hex}
use cageforge.Permissions.GrantId.RoundTrip.{IsGrantId, from_hex-to_hex}
use cageforge.Permissions.Grant.{PermissionGrant, digest, grant_matches}
use cageforge.Permissions.Store.{
  StoredGrant, StoreDocument, schema_version, Disk, Faults, pass, empty_document, check_entry,
  check_entries, read_document, read_current_document, stored_of, revoke, revoke_all, put,
}
use cageforge.Permissions.Store.Step.{
  OnDisk, read_current_document-OnDisk, revoke-OnDisk, revoke_all-OnDisk, put-OnDisk,
}

-- A document of the current schema, whose entries are in order and named by their digests.
abbrev pub IsWellFormed : StoreDocument → Type 0
IsWellFormed document =
    (document.schema_version ≡ schema_version)
    × (IsSorted document.grants × All (λ entry. check_entry entry ≡ ok tt) document.grants)

abbrev pub IsWellFormedDisk : Disk → Type 0
IsWellFormedDisk disk = OnDisk IsWellFormed disk

check_entries-eq-ok :
    (entries : Dict StoredGrant)
    → check_entries entries ≡ ok tt
    → All (λ entry. check_entry entry ≡ ok tt) entries
unfolding check_entries
check_entries-eq-ok [] h = tt
check_entries-eq-ok (e ∷ es) h =
    let (u, p, q) = >>=-eq-ok (check_entry e) (λ _. check_entries es) h in
    (p, check_entries-eq-ok es q)

check_entries-All :
    (entries : Dict StoredGrant)
    → All (λ entry. check_entry entry ≡ ok tt) entries
    → check_entries entries ≡ ok tt
unfolding check_entries
check_entries-All [] h = refl
check_entries-All (e ∷ es) (p, h) = rw (p, check_entries-All es h)

-- A well-formed document is read where the reading meets no failure.
pub read_document-IsWellFormed :
    (faults : Faults) (document : StoreDocument)
    → IsWellFormed document
    → faults.read ≡ none
    → read_document faults document ≡ ok document
unfolding read_document
read_document-IsWellFormed faults document (schema, (_, entries)) quiet = rw (
  ap pass quiet,
  (==_iff document.schema_version schema_version).1 schema,
  check_entries-All document.grants entries,
)

empty_document-IsWellFormed : IsWellFormed empty_document
unfolding empty_document
empty_document-IsWellFormed = (refl, (tt, tt))

pub read_current_document-WellFormed :
    (faults : Faults) (disk : Disk) (current : StoreDocument)
    → IsWellFormedDisk disk
    → read_current_document faults disk ≡ ok current
    → IsWellFormed current
read_current_document-WellFormed faults disk current h k =
    read_current_document-OnDisk IsWellFormed empty_document-IsWellFormed faults disk current h k

pub revoke-WellFormed :
    (faults : Faults) (id : GrantId) (disk : Disk)
    → IsWellFormedDisk disk
    → IsWellFormedDisk (revoke faults id disk).1
revoke-WellFormed faults id disk h =
    revoke-OnDisk IsWellFormed faults id
      (λ doc (schema, (sorted, entries)). (
        schema,
        (
          remove-IsSorted (to_hex id) doc.grants sorted,
          remove-All (λ entry. check_entry entry ≡ ok tt) (to_hex id) doc.grants entries,
        ),
      ))
      disk h

pub revoke_all-WellFormed :
    (faults : Faults) (disk : Disk)
    → IsWellFormedDisk disk
    → IsWellFormedDisk (revoke_all faults disk).1
revoke_all-WellFormed faults disk h =
    revoke_all-OnDisk IsWellFormed faults (λ doc (schema, _). (schema, (tt, tt))) disk h

module _ ⦃d : RequestDigest⦄ where
  -- The entry that `put` makes passes the test of `read_document`.
  check_entry-stored_of :
      (grant : PermissionGrant) (request : PermissionRequest)
      → IsGrantId (d.of_request request)
      → grant_matches grant request ≡ true
      → check_entry (digest request, stored_of grant request) ≡ ok tt
  unfolding check_entry digest grant_matches
  check_entry-stored_of grant request long h =
      rw (from_hex-to_hex (d.of_request request) long) ground
        (arith, text_eq_iff (to_hex (d.of_request request)) (to_hex (d.of_request request)))

  pub put-WellFormed :
      (faults : Faults) (grant : PermissionGrant) (request : PermissionRequest) (disk : Disk)
      → IsGrantId (d.of_request request)
      → IsWellFormedDisk disk
      → IsWellFormedDisk (put faults grant request disk).1
  put-WellFormed faults grant request disk long h =
      put-OnDisk IsWellFormed faults grant request empty_document-IsWellFormed
        (λ doc match (schema, (sorted, entries)). (
          schema,
          (
            insert-IsSorted (digest request) (stored_of grant request) doc.grants sorted,
            insert-All (λ entry. check_entry entry ≡ ok tt) (digest request)
                (stored_of grant request) doc.grants
                (check_entry-stored_of grant request long match) entries,
          ),
        ))
        disk h
