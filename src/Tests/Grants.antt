-- ===== src/Tests/Grants.antt =====
-- Permissions on concrete inputs.
use cageforge.Base.{
  ℕ, ◌<◌, ◌≤◌, ◌≡◌, refl, arith, Bool, true, false, ◌&&◌, List, [], ◌∷◌, ◌++◌, All, Text, codes,
  text_eq, Option, none, some, length, take, ltb, if_elim, if◌then◌else◌, Result, ok, err, IsSorted,
}
use cageforge.Permissions.Capability.{FilesystemOperation, FilesystemCapability, NetworkCapability}
use cageforge.Permissions.Set.{PermissionSet, is_subset_of, extend_from}
use cageforge.Permissions.Request.{
  PlatformId, PermissionRequest, PermissionEscalationRequest, RequestDigest, new_escalation,
}
use cageforge.Permissions.GrantId.{GrantPageCursor, to_hex, from_hex, to_token, from_token}
use cageforge.Permissions.GrantId.RoundTrip.{IsGrantId, from_hex-to_hex, from_token-to_token}
use cageforge.Permissions.Grant.{
  PermissionScope, PermissionGrant, digest, grant_id, grant_matches, is_valid_at,
  approve_escalation,
}
use cageforge.Permissions.Grant.Approved.{approve_escalation-IsBounded}
use cageforge.Permissions.Store.{
  StoreDocument, Disk, put, get, revoke, is_persistent, read_current_document,
}
use cageforge.Permissions.Store.WellFormed.{IsWellFormed, IsWellFormedDisk}
use cageforge.Permissions.Store.Lookup.{quiet, get-put, get-eq-some, get-revoke}
use cageforge.Permissions.Store.History.{
  Call, put_call, run, AnyPut, run-WellFormed, read_current_document-run, get-run,
}
use cageforge.Permissions.Paging.{
  GrantPageRequest, GrantPage, DocumentDigest, new_page_request, list_page,
}
use cageforge.Permissions.Paging.Pages.{
  remaining, IsContinued, list_page-remaining, list_page-bounded,
}
use cageforge.Permissions.Paging.Next.{list_page-next}

abbrev zeros : List ℕ
zeros =
    0 ∷ 0 ∷ 0 ∷ 0 ∷ 0 ∷ 0 ∷ 0 ∷ 0 ∷ 0 ∷ 0 ∷ 0 ∷ 0 ∷ 0 ∷ 0 ∷ 0 ∷ 0 ∷ 0 ∷ 0 ∷ 0 ∷ 0 ∷ 0 ∷ 0 ∷ 0 ∷ 0
    ∷ 0 ∷ 0 ∷ 0 ∷ 0 ∷ 0 ∷ 0 ∷ 0 ∷ []

-- Two tools' requests have two digests.
instance abbrev tool_digest : RequestDigest
tool_digest = record {
  of_request = λ request. if text_eq request.tool_id (codes "fmt") then 1 ∷ zeros else 2 ∷ zeros;
}

instance abbrev count_digest : DocumentDigest
count_digest = record { of_document = λ document. length document.grants ∷ zeros }

tool_digest-IsGrantId : (request : PermissionRequest) → IsGrantId (tool_digest.of_request request)
tool_digest-IsGrantId request =
    if_elim IsGrantId (text_eq request.tool_id (codes "fmt")) (λ _. (ground arith, refl))
      (λ _. (ground arith, refl))

abbrev request_of : Text → PermissionRequest
request_of tool = record {
  tool_id = tool;
  tool_version = codes "1";
  manifest_digest = codes "m";
  config_digest = codes "c";
  platform = PlatformId.linux;
  architecture = codes "x86_64";
  capabilities = record {
    filesystem = record { operation = FilesystemOperation.read; path = codes "/w" } ∷ [];
    network = [];
    child_processes = [];
  };
}

abbrev fmt : PermissionRequest
fmt = request_of (codes "fmt")

abbrev lint : PermissionRequest
lint = request_of (codes "lint")

abbrev grant_for : PermissionRequest → PermissionGrant
unfolding digest
grant_for request = record {
  request_digest = digest request;
  approved = request.capabilities;
  scope = PermissionScope.persistent;
  expires_at = some 100;
  issued_at = 5;
}

abbrev both : List Call
both = put_call quiet (grant_for lint) lint ∷ put_call quiet (grant_for fmt) fmt ∷ []

abbrev store : Disk
store = run both

-- The two grants are listed one by one.
abbrev one_by_one : GrantPageRequest
one_by_one = record { nonzero_size = record { predecessor = 0 }; cursor = none }

abbrev one_page : GrantPage
one_page = elim (list_page quiet one_by_one store) [
  | ok page ↦ page
  | err e ↦ record { entries = []; next_cursor = none }
]

abbrev one_cursor : GrantPageCursor
one_cursor = record { snapshot = 2 ∷ zeros; last_id = 1 ∷ zeros }

store-IsWellFormedDisk : IsWellFormedDisk store
store-IsWellFormedDisk = run-WellFormed tool_digest-IsGrantId both

get-store : get quiet 7 fmt store ≡ ok (some (grant_for fmt))
unfolding get run text_eq cageforge.Permissions.Capability.filesystem_order cageforge.Base.insert
    cageforge.Base.text_ltb cageforge.Base.lookup
get-store = refl

one_page_listed : list_page quiet one_by_one store ≡ ok one_page
unfolding list_page run text_eq cageforge.Permissions.Capability.filesystem_order
    cageforge.Base.insert
one_page_listed = refl

from_hex-to_hex_example : from_hex (to_hex (1 ∷ zeros)) ≡ ok (1 ∷ zeros)
from_hex-to_hex_example = from_hex-to_hex (1 ∷ zeros) (ground arith, refl)

from_token-to_token_example : from_token (to_token one_cursor) ≡ ok one_cursor
from_token-to_token_example =
    from_token-to_token one_cursor (ground arith, refl) (ground arith, refl)

get-run_example : AnyPut (λ given asked. (given ≡ grant_for fmt) × (digest asked ≡ digest fmt)) both
unfolding get run text_eq cageforge.Permissions.Capability.filesystem_order cageforge.Base.insert
    cageforge.Base.text_ltb cageforge.Base.lookup
get-run_example = get-run quiet 7 fmt both (grant_for fmt) refl

get-put_example :
    get quiet 7 fmt (put quiet (grant_for fmt) fmt store).1 ≡ ok (some (grant_for fmt))
unfolding put text_eq cageforge.Permissions.Capability.filesystem_order run cageforge.Base.insert
    cageforge.Base.text_ltb is_valid_at
get-put_example =
    get-put quiet (grant_for fmt) fmt store 7 (tool_digest-IsGrantId fmt) store-IsWellFormedDisk
      refl refl

get-eq-some_example :
    (grant_matches (grant_for fmt) fmt ≡ true)
    × (is_persistent (grant_for fmt).scope ≡ true)
    × (is_valid_at (grant_for fmt) 7 ≡ true)
unfolding get run text_eq cageforge.Permissions.Capability.filesystem_order cageforge.Base.insert
    cageforge.Base.text_ltb cageforge.Base.lookup
get-eq-some_example = get-eq-some quiet 7 fmt store (grant_for fmt) refl

get-revoke_example :
    ¬ (get quiet 7 fmt (revoke quiet (grant_id fmt) store).1 ≡ ok (some (grant_for fmt)))
unfolding revoke run text_eq cageforge.Permissions.Capability.filesystem_order cageforge.Base.insert
    cageforge.Base.text_ltb cageforge.Base.lookup grant_id
get-revoke_example = get-revoke quiet quiet 7 fmt store store-IsWellFormedDisk refl (grant_for fmt)

read_current_document-run_example :
    (document : StoreDocument) × (read_current_document quiet (run both) ≡ ok document)
    × (IsWellFormed document)
read_current_document-run_example = read_current_document-run tool_digest-IsGrantId both

list_page-remaining_example :
    (document : StoreDocument) × (read_current_document quiet store ≡ ok document)
    × (one_page.entries ≡ take 1 (remaining none document.grants))
    × IsContinued (count_digest.of_document document) 1 (remaining none document.grants) one_page
unfolding list_page run text_eq cageforge.Permissions.Capability.filesystem_order
    cageforge.Base.insert
list_page-remaining_example =
    list_page-remaining quiet one_by_one store one_page store-IsWellFormedDisk refl

list_page-bounded_example : (length one_page.entries ≤ 1) × (length one_page.entries ≤ 1000)
unfolding new_page_request list_page run text_eq cageforge.Permissions.Capability.filesystem_order
    cageforge.Base.insert
list_page-bounded_example =
    list_page-bounded quiet 1 none one_by_one store one_page store-IsWellFormedDisk refl refl

list_page-next_example :
    (document : StoreDocument) × (read_current_document quiet store ≡ ok document)
    × (length one_page.entries ≡ 1)
    × (one_page.entries ++ remaining (some one_cursor.last_id) document.grants
        ≡ remaining none document.grants)
unfolding list_page run text_eq cageforge.Permissions.Capability.filesystem_order
    cageforge.Base.insert
list_page-next_example =
    list_page-next quiet one_by_one store one_page one_cursor store-IsWellFormedDisk refl refl

-- A request for writing on top of a request for reading.
abbrev write_too : PermissionSet
write_too = record {
  filesystem = record { operation = FilesystemOperation.write; path = codes "/w" } ∷ [];
  network = [];
  child_processes = [];
}

abbrev sixty_four : Text
sixty_four = to_hex (1 ∷ zeros)

abbrev full : PermissionRequest
full = record fmt { manifest_digest = sixty_four; config_digest = sixty_four }

abbrev escalation : PermissionEscalationRequest
escalation = record {
  base = full;
  request = record full { capabilities = extend_from full.capabilities write_too };
  additional = write_too;
  reason = codes "r";
}

abbrev escalated : PermissionGrant
escalated = record {
  request_digest = digest escalation.request;
  approved = extend_from full.capabilities write_too;
  scope = PermissionScope.launch;
  expires_at = none;
  issued_at = 5;
}

approve_escalation-IsBounded_example :
    (grant_matches escalated escalation.request ≡ true)
    × (is_subset_of full.capabilities escalated.approved ≡ true)
    × ((limit : PermissionSet)
        → is_subset_of escalated.approved limit
          ≡ (is_subset_of full.capabilities limit && is_subset_of write_too limit))
unfolding new_escalation cageforge.Permissions.Capability.filesystem_order to_hex approve_escalation
    text_eq
approve_escalation-IsBounded_example =
    approve_escalation-IsBounded full write_too (codes "r") escalation write_too
      PermissionScope.launch none 5 escalated refl refl
