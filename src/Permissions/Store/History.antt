-- ===== src/Permissions/Store/History.antt =====
-- crates/cageforge-permissions/src/lib.rs: a store over the calls of its processes, each of which
-- holds the lock of the file; the latest call stands first.
use cageforge.Base.{
  ℕ, ◌≡◌, refl, sym, ap, ◌∙◌, ◌⊎◌, inl, inr, Text, none, some, List, [], ◌∷◌, All, Dict, insert-All,
  remove-All, lookup-All, ok,
}
use cageforge.Permissions.Request.{PermissionRequest, RequestDigest}
use cageforge.Permissions.GrantId.{GrantId, to_hex}
use cageforge.Permissions.GrantId.RoundTrip.{IsGrantId}
use cageforge.Permissions.Grant.{PermissionGrant, digest}
use cageforge.Permissions.Store.{
  StoredGrant, StoreDocument, Disk, empty_document, Faults, read_current_document, stored_of,
  grant_of, revoke, revoke_all, put, get,
}
use cageforge.Permissions.Store.WellFormed.{
  IsWellFormed, IsWellFormedDisk, read_document-IsWellFormed, put-WellFormed, revoke-WellFormed,
  revoke_all-WellFormed,
}
use cageforge.Permissions.Store.Step.{
  OnDisk, revoke-OnDisk, revoke_all-OnDisk, put-OnDisk, read_current_document-OnDisk,
}
use cageforge.Permissions.Store.Lookup.{quiet, get-entry}

pub data Call : Type 0 where
  put_call : Faults → PermissionGrant → PermissionRequest → Call
  revoke_call : Faults → GrantId → Call
  revoke_all_call : Faults → Call

is_readable :
    (disk : Disk)
    → IsWellFormedDisk disk
    → (document : StoreDocument) × (read_current_document quiet disk ≡ ok document)
      × (IsWellFormed document)
unfolding read_current_document empty_document
is_readable none h = (empty_document, refl, (refl, (tt, tt)))
is_readable (some document) h = (document, read_document-IsWellFormed quiet document h refl, h)

module _ ⦃d : RequestDigest⦄ where
  unfoldable pub step : Call → Disk → Disk
  unfolding put revoke revoke_all
  step (put_call faults grant request) disk = (put faults grant request disk).1
  step (revoke_call faults id) disk = (revoke faults id disk).1
  step (revoke_all_call faults) disk = (revoke_all faults disk).1

  -- The file behind the calls, where there was none before them.
  unfoldable pub run : List Call → Disk
  unfolding step
  run [] = none
  run (call ∷ calls) = step call (run calls)

  pub run-WellFormed :
      ((request : PermissionRequest) → IsGrantId (d.of_request request))
      → (calls : List Call) → IsWellFormedDisk (run calls)
  unfolding run step
  run-WellFormed long [] = tt
  run-WellFormed long (put_call faults grant request ∷ calls) =
      put-WellFormed faults grant request (run calls) (long request) (run-WellFormed long calls)
  run-WellFormed long (revoke_call faults id ∷ calls) =
      revoke-WellFormed faults id (run calls) (run-WellFormed long calls)
  run-WellFormed long (revoke_all_call faults ∷ calls) =
      revoke_all-WellFormed faults (run calls) (run-WellFormed long calls)

  -- Whatever calls have been made, and whichever of them failed, the file can be read: `get` and
  -- `put` give no error but those of the system and of the arguments.
  pub read_current_document-run :
      ((request : PermissionRequest) → IsGrantId (d.of_request request))
      → (calls : List Call)
      → (document : StoreDocument) × (read_current_document quiet (run calls) ≡ ok document)
        × (IsWellFormed document)
  read_current_document-run long calls = is_readable (run calls) (run-WellFormed long calls)

  -- A call of `put` among the calls that has the property.
  abbrev pub AnyPut : (PermissionGrant → PermissionRequest → Type 0) → List Call → Type 0
  AnyPut P [] = ⊥
  AnyPut P (put_call _ grant request ∷ calls) = P grant request ⊎ AnyPut P calls
  AnyPut P (_ ∷ calls) = AnyPut P calls

  abbrev IsEntryOf : Text × StoredGrant → PermissionGrant → PermissionRequest → Type 0
  IsEntryOf entry grant request = entry ≡ (digest request, stored_of grant request)

  abbrev WerePut : List Call → StoreDocument → Type 0
  WerePut calls document = All (λ entry. AnyPut (IsEntryOf entry) calls) document.grants

  map-AnyPut :
      {P Q : PermissionGrant → PermissionRequest → Type 0}
      → ((grant : PermissionGrant) (request : PermissionRequest)
          → P grant request
          → Q grant request)
      → (calls : List Call) → AnyPut P calls
      → AnyPut Q calls
  map-AnyPut f [] p = elim p [ ]
  map-AnyPut f (put_call _ grant request ∷ calls) (inl p) = inl (f grant request p)
  map-AnyPut f (put_call _ grant request ∷ calls) (inr p) = inr (map-AnyPut f calls p)
  map-AnyPut f (revoke_call _ _ ∷ calls) p = map-AnyPut f calls p
  map-AnyPut f (revoke_all_call _ ∷ calls) p = map-AnyPut f calls p

  later_put :
      (calls : List Call) (faults : Faults) (grant : PermissionGrant) (request : PermissionRequest)
      (grants : Dict StoredGrant)
      → All (λ entry. AnyPut (IsEntryOf entry) calls) grants
      → All (λ entry. AnyPut (IsEntryOf entry) (put_call faults grant request ∷ calls)) grants
  later_put calls faults grant request [] h = tt
  later_put calls faults grant request (e ∷ grants) (p, h) =
      (inr p, later_put calls faults grant request grants h)

  later_disk :
      (calls : List Call) (faults : Faults) (grant : PermissionGrant) (request : PermissionRequest)
      (disk : Disk)
      → OnDisk (WerePut calls) disk
      → OnDisk (WerePut (put_call faults grant request ∷ calls)) disk
  later_disk calls faults grant request none h = tt
  later_disk calls faults grant request (some document) h =
      later_put calls faults grant request document.grants h

  run-WerePut : (calls : List Call) → OnDisk (WerePut calls) (run calls)
  unfolding run step empty_document
  run-WerePut [] = tt
  run-WerePut (put_call faults grant request ∷ calls) =
      put-OnDisk (WerePut (put_call faults grant request ∷ calls)) faults grant request tt
        (λ doc _ h.
          insert-All (λ entry. AnyPut (IsEntryOf entry) (put_call faults grant request ∷ calls))
            (digest request) (stored_of grant request) doc.grants (inl refl) h)
        (run calls) (later_disk calls faults grant request (run calls) (run-WerePut calls))
  run-WerePut (revoke_call faults id ∷ calls) =
      revoke-OnDisk (WerePut calls) faults id
        (λ doc h. remove-All (λ entry. AnyPut (IsEntryOf entry) calls) (to_hex id) doc.grants h)
        (run calls) (run-WerePut calls)
  run-WerePut (revoke_all_call faults ∷ calls) =
      revoke_all-OnDisk (WerePut calls) faults (λ _ _. tt) (run calls) (run-WerePut calls)

  -- A grant that `get` gives after some calls was handed to one of them, a call of `put` for a
  -- request of the same digest: no failure and no other call makes a grant.
  pub get-run :
      (faults : Faults) (now : ℕ) (request : PermissionRequest) (calls : List Call)
      (grant : PermissionGrant)
      → get faults now request (run calls) ≡ ok (some grant)
      → AnyPut (λ given asked. (given ≡ grant) × (digest asked ≡ digest request)) calls
  get-run faults now request calls grant h =
      let (document, read, (stored, there, _, same)) =
        get-entry faults now request (run calls) grant h in
      let put_before : WerePut calls document =
        read_current_document-OnDisk (WerePut calls) (unfold empty_document in tt) faults
          (run calls) document (run-WerePut calls) read in
      map-AnyPut
        (λ given asked entry.
          (sym (ap (λ e. grant_of e.1) entry) ∙ same, sym (ap (λ e. e.0) entry)))
        calls
        (lookup-All (λ entry. AnyPut (IsEntryOf entry) calls) (digest request) document.grants
          stored put_before there)
