-- ===== src/Permissions/Grant.antt =====
-- crates/cageforge-permissions/src/lib.rs: grants, and the authority that makes them. The clock
-- is an argument of each call that reads it.
pub mod Approved
use cageforge.Base.{
  ℕ, Bool, true, false, not, ◌&&◌, ◌||◌, ◌==◌, ltb, Text, codes, text_eq, if◌then◌else◌, Option,
  none, some, Result, ok, err, ◌>>=◌, ◌>>◌, fail_if,
}
use cageforge.Permissions.Error.{PermissionError}
use cageforge.Permissions.Set.{PermissionSet, is_subset_of, extend_from}
use cageforge.Permissions.Request.{PermissionRequest, PermissionEscalationRequest, RequestDigest}
use cageforge.Permissions.GrantId.{GrantId, to_hex}

pub data PermissionScope : Type 0 where
  launch session persistent : PermissionScope

unfoldable pub parse_scope : Text → Result PermissionError PermissionScope
parse_scope value =
    if text_eq value (codes "launch")
    then ok PermissionScope.launch
    else if text_eq value (codes "session")
    then ok PermissionScope.session
    else if text_eq value (codes "persistent")
    then ok PermissionScope.persistent
    else err (PermissionError.invalid_scope value)

pub record PermissionGrant : Type 0 where
  pub request_digest : Text
  pub approved : PermissionSet
  pub scope : PermissionScope
  pub expires_at : Option ℕ
  pub issued_at : ℕ

-- `is_none_or(|expires_at| now < expires_at)`
abbrev pub open_at : Option ℕ → ℕ → Bool
open_at none now = true
open_at (some expires_at) now = ltb now expires_at

unfoldable pub is_valid_at : PermissionGrant → ℕ → Bool
is_valid_at grant now = open_at grant.expires_at now

abbrev is_zero : Option ℕ → Bool
is_zero none = false
is_zero (some n) = n == 0

module _ ⦃d : RequestDigest⦄ where
  -- `PermissionRequest::digest` and `PermissionRequest::grant_id`
  unfoldable pub digest : PermissionRequest → Text
  unfolding to_hex
  digest request = to_hex (d.of_request request)

  unfoldable pub grant_id : PermissionRequest → GrantId
  grant_id request = d.of_request request

  -- `PermissionGrant::matches`
  unfoldable pub grant_matches : PermissionGrant → PermissionRequest → Bool
  unfolding digest is_subset_of
  grant_matches grant request =
      text_eq grant.request_digest (digest request)
      && is_subset_of grant.approved request.capabilities

  unfoldable pub approve : PermissionRequest → ℕ → PermissionGrant
  unfolding digest
  approve request now = record {
    request_digest = digest request;
    approved = request.capabilities;
    scope = PermissionScope.session;
    expires_at = none;
    issued_at = now;
  }

  unfoldable pub approve_with :
      PermissionRequest
      → PermissionSet
      → PermissionScope
      → Option ℕ
      → ℕ
      → Result PermissionError PermissionGrant
  unfolding digest is_subset_of
  approve_with request approved scope expires_at now = do
    fail_if (is_zero expires_at) PermissionError.invalid_expiration
    fail_if (not (is_subset_of approved request.capabilities)) PermissionError.grant_exceeds_request
    ok (record {
      request_digest = digest request;
      approved = approved;
      scope = scope;
      expires_at = expires_at;
      issued_at = now;
    })

  unfoldable pub approve_subset :
      PermissionRequest → PermissionSet → ℕ → Result PermissionError PermissionGrant
  unfolding approve_with
  approve_subset request approved now =
      approve_with request approved PermissionScope.session none now

  unfoldable pub approve_escalation :
      PermissionEscalationRequest
      → PermissionSet
      → PermissionScope
      → Option ℕ
      → ℕ
      → Result PermissionError PermissionGrant
  unfolding is_subset_of extend_from approve_with
  approve_escalation escalation approved_additional scope expires_at now = do
    fail_if (not (is_subset_of approved_additional escalation.additional))
        PermissionError.grant_exceeds_request
    approve_with escalation.request (extend_from escalation.base.capabilities approved_additional)
        scope expires_at now
