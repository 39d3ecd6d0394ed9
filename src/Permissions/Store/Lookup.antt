-- ===== src/Permissions/Store/Lookup.antt =====
-- crates/cageforge-permissions/src/lib.rs: what `get` finds after `put` and after `revoke`.
use cageforge.Base.{
  ℕ, true, ◌≡◌, refl, sym, subst, arith, text_eq_iff, Option, none, some, lookup, remove,
  lookup-insert_same, lookup-remove_same, if◌then◌else◌, ok, ◌>>◌, >>=-eq-ok, ok_injective,
  Result-cases, inl, inr,
}
use cageforge.Permissions.Request.{PlatformId, PermissionRequest, RequestDigest}
use cageforge.Permissions.GrantId.{GrantId, to_hex}
use cageforge.Permissions.GrantId.RoundTrip.{IsGrantId}
use cageforge.Permissions.Grant.{PermissionGrant, digest, grant_id, grant_matches, is_valid_at}
use cageforge.Permissions.Store.{
  StoredGrant, StoreDocument, Disk, Faults, pass, read_document, read_current_document,
  write_document, is_persistent, stored_of, grant_of, revoke_from, revoke, put_document, put, get,
  accepts, platform_eq,
}
use cageforge.Permissions.Store.WellFormed.{
  IsWellFormed, IsWellFormedDisk, read_document-IsWellFormed, read_current_document-WellFormed,
  put-WellFormed,
}
use cageforge.Permissions.Store.Step.{put_document-eq-ok, read_current_document-eq}

abbrev pub quiet : Faults
quiet = record { lock = none; read = none; write = none }

platform_eq_refl : (p : PlatformId) → platform_eq p p ≡ true
unfolding platform_eq
platform_eq_refl PlatformId.linux = refl
platform_eq_refl PlatformId.macos = refl
platform_eq_refl PlatformId.windows = refl

pub write_document-eq-ok :
    (faults : Faults) (document : StoreDocument) (disk : Disk)
    → (write_document faults document disk).0 ≡ ok tt
    → (write_document faults document disk).1 ≡ some document
unfolding write_document
write_document-eq-ok faults document disk h = ground arith

-- A confirmed revocation has taken the entry out of a document that was read.
pub revoke-eq-true :
    (faults : Faults) (id : GrantId) (disk : Disk)
    → IsWellFormedDisk disk
    → (revoke faults id disk).0 ≡ ok true
    → (current : StoreDocument) × (IsWellFormed current)
      × ((revoke faults id disk).1
          ≡ some (record current { grants = remove (to_hex id) current.grants }))
unfolding revoke read_current_document
revoke-eq-true faults id none wf h = ground arith
revoke-eq-true faults id (some document) wf h =
    elim (Result-cases (pass faults.lock >> read_document faults document)) [
      | inl (current, read) ↦ (
        current,
        read_current_document-WellFormed faults (some document) current wf read,
        removed current read,
      )
      | inr (e, failed) ↦ ground arith
    ]
  where
    removed :
        (current : StoreDocument)
        → (pass faults.lock >> read_document faults document) ≡ ok current
        → (revoke faults id (some document)).1
          ≡ some (record current { grants = remove (to_hex id) current.grants })
    removed current read =
        unfold revoke_from in
        ground (
          arith,
          write_document-eq-ok faults
              (record current { grants = remove (to_hex id) current.grants }) (some document),
        )

module _ ⦃d : RequestDigest⦄ where
  -- A call that meets no failure finds what the document of the disk has.
  get-IsWellFormed :
      (now : ℕ) (request : PermissionRequest) (document : StoreDocument)
      → IsWellFormed document
      → get quiet now request (some document)
        ≡ ok (elim (lookup (digest request) document.grants) as (λ _. Option PermissionGrant) [
          | none ↦ none
          | some stored ↦ if accepts now request stored then some (grant_of stored) else none
        ])
  unfolding get read_current_document
  get-IsWellFormed now request document h = rw (read_document-IsWellFormed quiet document h refl)

  accepts-stored_of :
      (grant : PermissionGrant) (request : PermissionRequest) (now : ℕ)
      → grant_matches grant request ≡ true
      → is_persistent grant.scope ≡ true
      → is_valid_at grant now ≡ true
      → accepts now request (stored_of grant request) ≡ true
  unfolding accepts grant_matches
  accepts-stored_of grant request now h p v = rw (platform_eq_refl request.platform) ground (
    arith,
    text_eq_iff request.tool_id request.tool_id,
    text_eq_iff request.tool_version request.tool_version,
    text_eq_iff request.manifest_digest request.manifest_digest,
    text_eq_iff request.config_digest request.config_digest,
    text_eq_iff request.architecture request.architecture,
  )

  pub put-eq-ok :
      (faults : Faults) (grant : PermissionGrant) (request : PermissionRequest) (disk : Disk)
      → (put faults grant request disk).0 ≡ ok tt
      → (document : StoreDocument) × (put_document faults grant request disk ≡ ok document)
        × ((put faults grant request disk).1 ≡ some document)
  unfolding put
  put-eq-ok faults grant request disk h =
      elim (Result-cases (put_document faults grant request disk)) [
        | inl (document, made) ↦ (document, made, of_document made)
        | inr (e, failed) ↦ ground arith
      ]
    where
      of_document :
          {document : StoreDocument}
          → put_document faults grant request disk ≡ ok document
          → (put faults grant request disk).1 ≡ some document
      of_document {document} made = ground (arith, write_document-eq-ok faults document disk)

  -- A grant that a call of `put` has stored is the one that `get` gives for the request, at every
  -- time at which the grant is valid, where the file was a store's and `get` meets no failure.
  pub get-put :
      (faults : Faults) (grant : PermissionGrant) (request : PermissionRequest) (disk : Disk)
      (now : ℕ)
      → IsGrantId (d.of_request request)
      → IsWellFormedDisk disk
      → (put faults grant request disk).0 ≡ ok tt
      → is_valid_at grant now ≡ true
      → get quiet now request (put faults grant request disk).1 ≡ ok (some grant)
  get-put faults grant request disk now long h stored v =
      let (document, made, after) = put-eq-ok faults grant request disk stored in
      let (match, lasting, (old, _, same)) =
        put_document-eq-ok faults grant request disk document made in
      let keeps : IsWellFormed document =
        subst IsWellFormedDisk after (put-WellFormed faults grant request disk long h) in
      let found : lookup (digest request) document.grants ≡ some (stored_of grant request) =
        subst (λ doc. lookup (digest request) doc.grants ≡ some (stored_of grant request)) same
          (lookup-insert_same (digest request) (stored_of grant request) old.grants) in
      rw (
        after,
        get-IsWellFormed now request document keeps,
        found,
        accepts-stored_of grant request now match lasting v,
      )

  found_entry :
      (now : ℕ) (request : PermissionRequest) (entry : Option StoredGrant) (grant : PermissionGrant)
      → elim entry as (λ _. Option PermissionGrant) [
        | none ↦ none
        | some stored ↦ if accepts now request stored then some (grant_of stored) else none
      ]
        ≡ some grant
      → (stored : StoredGrant) × (entry ≡ some stored)
        × (accepts now request stored ≡ true)
        × (grant_of stored ≡ grant)
  found_entry now request none grant h = ground arith
  found_entry now request (some stored) grant h = (stored, refl, ground arith, ground arith)

  -- The entry of the document that is behind an answer of `get`.
  pub get-entry :
      (faults : Faults) (now : ℕ) (request : PermissionRequest) (disk : Disk)
      (grant : PermissionGrant)
      → get faults now request disk ≡ ok (some grant)
      → (document : StoreDocument) × (read_current_document faults disk ≡ ok document)
        × ((stored : StoredGrant) × (lookup (digest request) document.grants ≡ some stored)
            × (accepts now request stored ≡ true)
            × (grant_of stored ≡ grant))
  unfolding get
  get-entry faults now request disk grant h =
      let (document, read, p) = >>=-eq-ok (read_current_document faults disk) _ h in
      (
        document,
        read,
        found_entry now request (lookup (digest request) document.grants) grant (ok_injective p),
      )

  -- What `get` gives belongs to the request, is persistent and is valid at the time.
  pub get-eq-some :
      (faults : Faults) (now : ℕ) (request : PermissionRequest) (disk : Disk)
      (grant : PermissionGrant)
      → get faults now request disk ≡ ok (some grant)
      → (grant_matches grant request ≡ true)
        × (is_persistent grant.scope ≡ true)
        × (is_valid_at grant now ≡ true)
  unfolding accepts
  get-eq-some faults now request disk grant h =
      let (_, _, (stored, _, accepted, same)) = get-entry faults now request disk grant h in
      subst
        (λ g.
          (grant_matches g request ≡ true)
          × (is_persistent g.scope ≡ true)
          × (is_valid_at g now ≡ true))
        same (ground arith, ground arith, ground arith)

  -- After a revocation that the store has confirmed, `get` gives no grant for any request of the
  -- identifier, whichever call of the system fails.
  pub get-revoke :
      (faults later : Faults) (now : ℕ) (request : PermissionRequest) (disk : Disk)
      → IsWellFormedDisk disk
      → (revoke faults (grant_id request) disk).0 ≡ ok true
      → (grant : PermissionGrant)
      → ¬ (get later now request (revoke faults (grant_id request) disk).1 ≡ ok (some grant))
  get-revoke faults later now request disk h revoked grant found =
      let (current, (_, (sorted, _)), after) =
        revoke-eq-true faults (grant_id request) disk h revoked in
      let (document, read, (stored, there, _, _)) =
        get-entry later now request (revoke faults (grant_id request) disk).1 grant found in
      let same : document
          ≡ record current { grants = remove (to_hex (grant_id request)) current.grants } =
        read_current_document-eq later _ document
          (subst (λ disk. read_current_document later disk ≡ ok document) after read) in
      let gone : lookup (digest request) document.grants ≡ none =
        subst (λ doc. lookup (digest request) doc.grants ≡ none) (sym same)
          (unfold digest grant_id in
            lookup-remove_same (to_hex (d.of_request request)) current.grants sorted) in
      absurd (cc)
