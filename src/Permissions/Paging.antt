-- ===== src/Permissions/Paging.antt =====
-- crates/cageforge-permissions/src/lib.rs: the listing of a store in pages. The SHA-256 digest of
-- a serialised document is the interface `DocumentDigest`.
pub mod Pages
pub mod Next
use cageforge.Base.{
  ℕ, zero, suc, ◌==◌, ltb, Bool, true, false, not, ◌&&◌, Text, text_eq, text_ltb, Option, none,
  some, List, [], ◌∷◌, ◌++◌, Dict, length, if◌then◌else◌, Result, ok, err, ◌>>=◌, ◌>>◌, fail_if,
  map_err,
}
use cageforge.Permissions.Error.{StoreError}
use cageforge.Permissions.Request.{PlatformId}
use cageforge.Permissions.GrantId.{GrantId, GrantPageCursor, from_hex}
use cageforge.Permissions.Grant.{PermissionScope}
use cageforge.Permissions.Store.{StoredGrant, StoreDocument, Disk, Faults, read_current_document}

pub record GrantSummary : Type 0 where
  pub id : GrantId
  pub tool_id : Text
  pub tool_version : Text
  pub platform : PlatformId
  pub architecture : Text
  pub scope : PermissionScope
  pub issued_at : ℕ
  pub expires_at : Option ℕ

-- `NonZeroUsize`, by the number below it.
pub record NonZeroUsize : Type 0 where
  pub predecessor : ℕ

abbrev pub nonzero_get : NonZeroUsize → ℕ
nonzero_get n = suc n.predecessor

-- `NonZeroUsize::new`
unfoldable pub new_nonzero : ℕ → Option NonZeroUsize
new_nonzero zero = none
new_nonzero (suc n) = some (record { predecessor = n })

pub record GrantPageRequest : Type 0 where
  pub nonzero_size : NonZeroUsize
  pub cursor : Option GrantPageCursor

-- `GrantPageRequest::page_size`
abbrev pub page_size : GrantPageRequest → ℕ
page_size request = nonzero_get request.nonzero_size

pub record GrantPage : Type 0 where
  pub entries : List GrantSummary
  pub next_cursor : Option GrantPageCursor

abbrev pub max_page_size : ℕ
max_page_size = 1000

-- `GrantPageRequest::new`
unfoldable pub new_page_request : ℕ → Option GrantPageCursor → Result StoreError GrantPageRequest
unfolding new_nonzero
new_page_request requested cursor = elim (new_nonzero requested) [
  | none ↦ err (StoreError.invalid_page_size requested max_page_size)
  | some size ↦
      fail_if (ltb max_page_size (nonzero_get size))
        (StoreError.invalid_page_size (nonzero_get size) max_page_size)
      >> ok (record { nonzero_size = size; cursor = cursor })
]

abbrev pub summary_from_stored : GrantId → StoredGrant → GrantSummary
summary_from_stored id stored = record {
  id = id;
  tool_id = stored.tool_id;
  tool_version = stored.tool_version;
  platform = stored.platform;
  architecture = stored.architecture;
  scope = stored.scope;
  issued_at = stored.issued_at;
  expires_at = stored.expires_at;
}

-- `after.is_some_and(|after| id <= after)`, in the order of the bytes.
unfoldable pub is_listed_before : Option GrantId → GrantId → Bool
unfolding text_ltb
is_listed_before none id = false
is_listed_before (some after) id = not (text_ltb after id)

-- The loop of `list_page` from the entries that it has found on; the Boolean is `has_more`.
unfoldable pub list_entries :
    ℕ
    → Option GrantId
    → Dict StoredGrant
    → List GrantSummary
    → Result StoreError (List GrantSummary × Bool)
unfolding from_hex is_listed_before
list_entries size after [] entries = ok (entries, false)
list_entries size after (entry ∷ grants) entries =
    let skipped = list_entries size after grants entries in
    map_err (λ _. StoreError.invalid_grant_id) (from_hex entry.0) >>= λ id.
    let rest = list_entries size after grants (entries ++ (summary_from_stored id entry.1 ∷ [])) in
    if is_listed_before after id
    then skipped
    else if length entries == size
    then ok (entries, true)
    else rest

abbrev pub last : List GrantSummary → Option GrantSummary
last [] = none
last (entry ∷ []) = some entry
last (_ ∷ entry ∷ entries) = last (entry ∷ entries)

-- The cursor at the end of `list_page`.
abbrev pub next_cursor_of : GrantId → List GrantSummary → Bool → Option GrantPageCursor
next_cursor_of snapshot entries false = none
next_cursor_of snapshot entries true = elim (last entries) [
  | none ↦ none
  | some entry ↦ some (record { snapshot = snapshot; last_id = entry.id })
]

abbrev pub cursor_expired : GrantId → Option GrantPageCursor → Bool
cursor_expired snapshot none = false
cursor_expired snapshot (some cursor) = not (text_eq cursor.snapshot snapshot)

abbrev pub last_listed : Option GrantPageCursor → Option GrantId
last_listed none = none
last_listed (some cursor) = some cursor.last_id

-- `canonical_digest` of a document: 32 bytes.
pub record DocumentDigest : Type 0 where
  pub of_document : StoreDocument → GrantId

module _ ⦃d : DocumentDigest⦄ where
  -- `list_page` behind its reading.
  unfoldable pub page_of : GrantPageRequest → StoreDocument → Result StoreError GrantPage
  unfolding list_entries
  page_of request document = do
    let snapshot = d.of_document document
    fail_if (cursor_expired snapshot request.cursor) StoreError.listing_snapshot_expired
    listed ← list_entries (page_size request) (last_listed request.cursor) document.grants []
    ok (record { entries = listed.0; next_cursor = next_cursor_of snapshot listed.0 listed.1 })

  unfoldable pub list_page : Faults → GrantPageRequest → Disk → Result StoreError GrantPage
  unfolding read_current_document page_of
  list_page faults request disk = read_current_document faults disk >>= page_of request
