-- ===== src/Permissions/Paging/Pages.antt =====
-- crates/cageforge-permissions/src/lib.rs: a page and what is left to list.
use cageforge.Base.{
  ℕ, zero, suc, ◌≤◌, ◌<◌, ◌⊎◌, refl, none, some, text_ltb, ◌==◌, ltb, Bool, true, false, not, ◌≡◌,
  sym, ap, subst, ◌∙◌, arith, Text, codes, text_eq, text_eq_iff, Option, List, [], ◌∷◌, ◌++◌,
  append_assoc, append-nil, All, Dict, length, length-append, take, take_of_length, length-take_le,
  take_all, if◌then◌else◌, Result, ok, err, ◌>>=◌, ◌>>◌, >>=-eq-ok, ok_injective, fail_if, map_err,
  ==_iff, Bool-cases, inl, inr,
}
use cageforge.Permissions.Error.{PermissionError, StoreError}
use cageforge.Permissions.GrantId.{GrantId, GrantPageCursor, from_hex, to_hex}
use cageforge.Permissions.Store.{
  StoredGrant, StoreDocument, Disk, Faults, read_current_document, check_entry,
}
use cageforge.Permissions.Store.WellFormed.{
  IsWellFormed, IsWellFormedDisk, read_current_document-WellFormed,
}
use cageforge.Permissions.Paging.{
  GrantSummary, GrantPageRequest, GrantPage, page_size, nonzero_get, last, max_page_size,
  new_page_request, summary_from_stored, is_listed_before, list_entries, next_cursor_of,
  cursor_expired, last_listed, DocumentDigest, page_of, list_page,
}

-- Whether an identifier is behind the last one that was listed.
abbrev pub is_behind : Option GrantId → GrantId → Bool
is_behind none id = true
is_behind (some after) id = text_ltb after id

not_before :
    (after : Option GrantId) (id : GrantId) → is_listed_before after id ≡ not (is_behind after id)
unfolding is_listed_before
not_before none id = refl
not_before (some after) id = refl

-- What there is to list behind an identifier.
unfoldable pub remaining : Option GrantId → Dict StoredGrant → List GrantSummary
unfolding from_hex text_ltb
remaining after [] = []
remaining after (entry ∷ grants) =
    let rest = remaining after grants in
    elim (from_hex entry.0) [
      | err e ↦ rest
      | ok id ↦ if is_behind after id then summary_from_stored id entry.1 ∷ rest else rest
    ]

-- The key of an entry that the test passes is an identifier.
pub check_entry-eq-ok :
    (entry : Text × StoredGrant)
    → check_entry entry ≡ ok tt
    → (id : GrantId) × (from_hex entry.0 ≡ ok id) × (to_hex id ≡ entry.0)
unfolding check_entry
check_entry-eq-ok entry h =
    let (id, read, p) =
      >>=-eq-ok (map_err (λ _. StoreError.invalid_grant_id) (from_hex entry.0)) _ h in
    (id, plain read, (text_eq_iff (to_hex id) entry.0).0 (spelled id p))
  where
    plain :
        {r : Result PermissionError GrantId} {id : GrantId}
        → map_err (λ _. StoreError.invalid_grant_id) r ≡ ok id
        → r ≡ ok id
    plain {r = ok a} read = ground arith
    plain {r = err e} read = ground arith

    spelled :
        (id : GrantId)
        → (fail_if (not (text_eq (to_hex id) entry.0)) StoreError.invalid_grant_id
            >> fail_if
                (not (text_eq entry.1.request_digest entry.0))
                (StoreError.format (codes "grant key does not match request digest")))
          ≡ ok tt
        → text_eq (to_hex id) entry.0 ≡ true
    spelled id p = ground arith

take_more :
    (size : ℕ) (xs ys : List GrantSummary) (x : GrantSummary)
    → length xs ≡ size
    → (take size (xs ++ (x ∷ ys)) ≡ xs) × (ltb size (length (xs ++ (x ∷ ys))) ≡ true)
take_more size xs ys x h = (
  subst (λ n. take n (xs ++ (x ∷ ys)) ≡ xs) h (take_of_length xs (x ∷ ys)),
  ground (arith, length-append xs (x ∷ ys)),
)

pub remaining_skip :
    (after : Option GrantId) (e : Text × StoredGrant) (grants : Dict StoredGrant) (id : GrantId)
    → from_hex e.0 ≡ ok id
    → is_listed_before after id ≡ true
    → remaining after (e ∷ grants) ≡ remaining after grants
unfolding remaining
remaining_skip after e grants id read before = ground (arith, not_before after id)

pub remaining_next :
    (after : Option GrantId) (e : Text × StoredGrant) (grants : Dict StoredGrant) (id : GrantId)
    → from_hex e.0 ≡ ok id
    → is_listed_before after id ≡ false
    → remaining after (e ∷ grants) ≡ summary_from_stored id e.1 ∷ remaining after grants
unfolding remaining
remaining_next after e grants id read behind = ground (arith, not_before after id)

-- The loop finds what its first entries and the remaining ones make, cut to the page's size.
list_entries-remaining :
    (size : ℕ) (after : Option GrantId) (grants : Dict StoredGrant) (entries : List GrantSummary)
    → All (λ entry. check_entry entry ≡ ok tt) grants
    → length entries ≤ size
    → list_entries size after grants entries
      ≡ ok (
        take size (entries ++ remaining after grants),
        ltb size (length (entries ++ remaining after grants)),
      )
unfolding list_entries
list_entries-remaining size after [] entries h k =
    let whole : entries ++ [] ≡ entries = append-nil entries in
    unfold remaining in rw (whole, take_all size entries k) ground arith
list_entries-remaining size after (e ∷ grants) entries (p, h) k =
    let (id, read, _) = check_entry-eq-ok e p in
    let skipped = list_entries-remaining size after grants entries h k in
    let taken =
      list_entries-remaining size after grants (entries ++ (summary_from_stored id e.1 ∷ [])) h in
    elim (Bool-cases (is_listed_before after id)) [
      | inl before ↦ rw (remaining_skip after e grants id read before, read, before, skipped)
      | inr behind ↦ elim (Bool-cases (length entries == size)) [
        | inl full ↦
            let (same, more) =
              take_more size entries (remaining after grants) (summary_from_stored id e.1)
                (ground (arith, ==_iff (length entries) size)) in
            rw (remaining_next after e grants id read behind, read, behind, full, same, more)
        | inr room ↦
            let longer : length (entries ++ (summary_from_stored id e.1 ∷ [])) ≤ size = ground (
              arith,
              ==_iff (length entries) size,
              length-append entries (summary_from_stored id e.1 ∷ []),
            ) in
            rw (
              remaining_next after e grants id read behind,
              read,
              behind,
              room,
              taken longer,
              append_assoc entries (summary_from_stored id e.1 ∷ []) (remaining after grants),
            )
      ]
    ]

-- A list with an entry has a last one.
last_entry :
    (x : GrantSummary) (l : List GrantSummary)
    → (before : List GrantSummary) × (final : GrantSummary) × (x ∷ l ≡ before ++ (final ∷ []))
      × (last (x ∷ l) ≡ some final)
last_entry x [] = ([], x, refl, refl)
last_entry x (y ∷ l) =
    let (before, final, p, q) = last_entry y l in (x ∷ before, final, ap (λ t. x ∷ t) p, q)

-- What the cursor of a page says, where `left` was left to list and the page takes `size` of it.
abbrev pub IsContinued : GrantId → ℕ → List GrantSummary → GrantPage → Type 0
IsContinued snapshot size left page =
    ((length left ≤ size) × (page.next_cursor ≡ none))
    ⊎ ((size < length left)
        × ((before : List GrantSummary) × (final : GrantSummary) × (page.entries
              ≡ before ++ (final ∷ []))
            × (page.next_cursor ≡ some (record { snapshot = snapshot; last_id = final.id }))))

following-IsContinued :
    (snapshot : GrantId) (n : ℕ) (left : List GrantSummary) (page : GrantPage)
    → page.entries ≡ take (suc n) left
    → page.next_cursor ≡ next_cursor_of snapshot page.entries (ltb (suc n) (length left))
    → IsContinued snapshot (suc n) left page
following-IsContinued snapshot n [] page listed following =
    let short : ltb (suc n) 0 ≡ false = ground arith in
    inl (omega arith, following ∙ ap (next_cursor_of snapshot page.entries) short)
following-IsContinued snapshot n (x ∷ l) page listed following =
    elim (Bool-cases (ltb (suc n) (length (x ∷ l)))) [
      | inr short ↦ inl (ground arith, following ∙ ap (next_cursor_of snapshot page.entries) short)
      | inl long ↦
          let (before, final, whole, ends) = last_entry x (take n l) in
          inr (
            ground arith,
            (
              before,
              final,
              listed ∙ whole,
              following
                  ∙ ap (next_cursor_of snapshot page.entries) long
                  ∙ ap (λ t. next_cursor_of snapshot t true) listed
                  ∙ ground (arith, ends),
            ),
          )
    ]

-- An accepted page size is the one that was asked for.
new_page_request-eq-ok :
    (requested : ℕ) (cursor : Option GrantPageCursor) (request : GrantPageRequest)
    → new_page_request requested cursor ≡ ok request
    → (page_size request ≡ requested) × (requested ≤ max_page_size)
unfolding new_page_request
new_page_request-eq-ok zero cursor request h = absurd (cc)
new_page_request-eq-ok (suc n) cursor request h =
    let (_, small, q) = >>=-eq-ok (fail_if (ltb max_page_size (suc n)) _) _ h in
    (sym (ap page_size (ok_injective q)), ground arith)

module _ ⦃d : DocumentDigest⦄ where
  page_of-eq-ok :
      (request : GrantPageRequest) (document : StoreDocument) (page : GrantPage)
      → IsWellFormed document
      → page_of request document ≡ ok page
      → record {
        entries = take (page_size request) (remaining (last_listed request.cursor) document.grants);
        next_cursor =
            next_cursor_of
              (d.of_document document)
              (take (page_size request) (remaining (last_listed request.cursor) document.grants))
              (ltb
                (page_size request)
                (length (remaining (last_listed request.cursor) document.grants)));
      }
        ≡ page
  unfolding page_of
  page_of-eq-ok request document page (_, (_, entries)) h =
      let (_, _, p) =
        >>=-eq-ok (fail_if (cursor_expired (d.of_document document) request.cursor) _) _ h in
      let listed =
        list_entries-remaining (page_size request) (last_listed request.cursor) document.grants []
          entries (omega arith) in
      ok_injective (sym (ap (λ r. r >>= make) listed) ∙ p)
    where
      make : List GrantSummary × Bool → Result StoreError GrantPage
      make listed = ok (record {
        entries = listed.0;
        next_cursor = next_cursor_of (d.of_document document) listed.0 listed.1;
      })

  -- The page and its cursor, as the code makes them of what is left.
  pub list_page-listed :
      (faults : Faults) (request : GrantPageRequest) (disk : Disk) (page : GrantPage)
      → IsWellFormedDisk disk
      → list_page faults request disk ≡ ok page
      → (document : StoreDocument) × (read_current_document faults disk ≡ ok document)
        × (IsWellFormed document)
        × (page.entries
            ≡ take (page_size request) (remaining (last_listed request.cursor) document.grants))
        × (page.next_cursor
            ≡ next_cursor_of (d.of_document document) page.entries (
                ltb
                  (page_size request)
                  (length (remaining (last_listed request.cursor) document.grants))))
  unfolding list_page
  list_page-listed faults request disk page wf h =
      let (document, read, p) = >>=-eq-ok (read_current_document faults disk) (page_of request) h in
      let current = read_current_document-WellFormed faults disk document wf read in
      let same = page_of-eq-ok request document page current p in
      (
        document,
        read,
        current,
        sym (ap (λ g. g.entries) same),
        sym (ap (λ g. g.next_cursor) same)
            ∙ ap
                (λ xs. next_cursor_of (d.of_document document) xs (
                  ltb (page_size request)
                    (length (remaining (last_listed request.cursor) document.grants))))
                (ap (λ g. g.entries) same),
      )

  -- A page of a well-formed store has, up to its size, what is left to list behind its cursor. Either
  -- no more than that is left, and it has no next cursor, or more is left, and its next cursor names
  -- its last entry and the digest of the document.
  pub list_page-remaining :
      (faults : Faults) (request : GrantPageRequest) (disk : Disk) (page : GrantPage)
      → IsWellFormedDisk disk
      → list_page faults request disk ≡ ok page
      → (document : StoreDocument) × (read_current_document faults disk ≡ ok document)
        × (page.entries
            ≡ take (page_size request) (remaining (last_listed request.cursor) document.grants))
        × IsContinued
            (d.of_document document)
            (page_size request)
            (remaining (last_listed request.cursor) document.grants)
            page
  list_page-remaining faults request disk page wf h =
      let (document, read, _, listed, following) = list_page-listed faults request disk page wf h in
      (
        document,
        read,
        listed,
        following-IsContinued (d.of_document document) request.nonzero_size.predecessor
            (remaining (last_listed request.cursor) document.grants) page listed following,
      )

  -- A page that a valid request asks for has at most the entries asked for, and never more than a
  -- thousand.
  pub list_page-bounded :
      (faults : Faults) (requested : ℕ) (cursor : Option GrantPageCursor)
      (request : GrantPageRequest) (disk : Disk) (page : GrantPage)
      → IsWellFormedDisk disk
      → new_page_request requested cursor ≡ ok request
      → list_page faults request disk ≡ ok page
      → (length page.entries ≤ requested) × (length page.entries ≤ 1000)
  list_page-bounded faults requested cursor request disk page wf made h =
      let (sized, most) = new_page_request-eq-ok requested cursor request made in
      let (document, _, same, _) = list_page-remaining faults request disk page wf h in
      let left = remaining (last_listed request.cursor) document.grants in
      let short = length-take_le (nonzero_get request.nonzero_size) left in
      omega (arith, short, ap length same, most, sized)
