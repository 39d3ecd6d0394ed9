-- ===== src/Permissions/Approval.antt =====
-- crates/cageforge-permissions/src/lib.rs: the settings of approval and the platform's labels.
use cageforge.Base.{ℕ, ◌==◌, Text, codes, Result, ok, ◌>>◌, fail_if}
use cageforge.Permissions.Error.{PermissionError}
use cageforge.Permissions.Request.{PlatformId}

pub data PermissionMode : Type 0 where
  disabled preflight on_demand preflight_and_on_demand : PermissionMode

pub data ApprovalTimeoutAction : Type 0 where
  deny : ApprovalTimeoutAction

pub data ApprovalPersistence : Type 0 where
  launch session persistent : ApprovalPersistence

pub record ApprovalConfig : Type 0 where
  pub mode : PermissionMode
  pub timeout_ms : ℕ
  pub on_timeout : ApprovalTimeoutAction
  pub persistence : ApprovalPersistence

abbrev pub default_approval : ApprovalConfig
default_approval = record {
  mode = PermissionMode.disabled;
  timeout_ms = 10000;
  on_timeout = ApprovalTimeoutAction.deny;
  persistence = ApprovalPersistence.session;
}

-- `ApprovalConfig::new`
unfoldable pub new_approval :
    PermissionMode
    → ℕ
    → ApprovalTimeoutAction
    → ApprovalPersistence
    → Result PermissionError ApprovalConfig
new_approval mode timeout_ms on_timeout persistence = do
  fail_if (timeout_ms == 0) PermissionError.invalid_timeout
  ok (record {
    mode = mode;
    timeout_ms = timeout_ms;
    on_timeout = on_timeout;
    persistence = persistence;
  })

-- `PlatformId::as_str`
abbrev pub platform_label : PlatformId → Text
platform_label PlatformId.linux = codes "linux"
platform_label PlatformId.macos = codes "macos"
platform_label PlatformId.windows = codes "windows"
