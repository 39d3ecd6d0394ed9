-- ===== src/Permissions/Request.antt =====
-- crates/cageforge-permissions/src/lib.rs: requests, and requests for more than a base request.
-- The SHA-256 digest of a serialised request is the interface `RequestDigest`.
use cageforge.Base.{
  ℕ, Bool, not, ◌&&◌, ◌||◌, ◌==◌, leb, Text, codes, List, all, Result, ok, ◌>>=◌, ◌>>◌, fail_if,
}
use cageforge.Policy.Host.{utf8_len}
use cageforge.Permissions.Error.{PermissionError}
use cageforge.Permissions.Capability.{is_blank_or_nul}
use cageforge.Permissions.Set.{PermissionSet, additional_to, extend_from, is_empty_set}

pub data PlatformId : Type 0 where
  linux macos windows : PlatformId

pub record PermissionRequest : Type 0 where
  pub tool_id : Text
  pub tool_version : Text
  pub manifest_digest : Text
  pub config_digest : Text
  pub platform : PlatformId
  pub architecture : Text
  pub capabilities : PermissionSet

pub record PermissionEscalationRequest : Type 0 where
  pub base : PermissionRequest
  pub request : PermissionRequest
  pub additional : PermissionSet
  pub reason : Text

unfoldable pub validate_identity : Text → Text → Result PermissionError Text
unfolding is_blank_or_nul
validate_identity value field = do
  fail_if (is_blank_or_nul value) (PermissionError.invalid_identity field)
  ok value

-- `is_ascii_hexdigit` without the upper-case letters.
abbrev pub is_lower_hex : ℕ → Bool
is_lower_hex c = (leb b'0' c && leb c b'9') || (leb b'a' c && leb c b'f')

unfoldable pub validate_digest : Text → Text → Result PermissionError Text
validate_digest value field = do
  fail_if (not (utf8_len value == 64) || not (all is_lower_hex value))
      (PermissionError.invalid_digest field)
  ok value

-- `PermissionRequest::new`
unfoldable pub new_request :
    Text
    → Text
    → Text
    → Text
    → PlatformId
    → Text
    → PermissionSet
    → Result PermissionError PermissionRequest
unfolding validate_identity validate_digest
new_request tool_id tool_version manifest_digest config_digest platform architecture capabilities =
    do
      id ← validate_identity tool_id (codes "tool id")
      version ← validate_identity tool_version (codes "tool version")
      manifest ← validate_digest manifest_digest (codes "manifest digest")
      config ← validate_digest config_digest (codes "config digest")
      arch ← validate_identity architecture (codes "architecture")
      ok (record {
        tool_id = id;
        tool_version = version;
        manifest_digest = manifest;
        config_digest = config;
        platform = platform;
        architecture = arch;
        capabilities = capabilities;
      })

-- `PermissionEscalationRequest::new`
unfoldable pub new_escalation :
    PermissionRequest → PermissionSet → Text → Result PermissionError PermissionEscalationRequest
unfolding is_blank_or_nul additional_to is_empty_set extend_from new_request
new_escalation base requested_additional reason = do
  fail_if (is_blank_or_nul reason) PermissionError.invalid_escalation_reason
  let additional = additional_to requested_additional base.capabilities
  fail_if (is_empty_set additional) PermissionError.empty_escalation
  request ←
      new_request base.tool_id base.tool_version base.manifest_digest base.config_digest
        base.platform base.architecture (extend_from base.capabilities additional)
  ok (record { base = base; request = request; additional = additional; reason = reason })

-- `canonical_digest` of a request: 32 bytes.
pub record RequestDigest : Type 0 where
  pub of_request : PermissionRequest → List ℕ
