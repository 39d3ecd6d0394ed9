-- ===== src/Policy/Access.antt =====
-- crates/cageforge-policy/src/access.rs: access modes and filesystem decisions.
pub mod Laws
use cageforge.Base.{Bool, true, false, Option, none, some}

pub data AccessMode : Type 0 where
  read write deny : AccessMode

pub data FilesystemDecision : Type 0 where
  read write deny externally_enforced : FilesystemDecision

-- The derived `==`.
unfoldable pub mode_eq : AccessMode → AccessMode → Bool
mode_eq AccessMode.read AccessMode.read = true
mode_eq AccessMode.write AccessMode.write = true
mode_eq AccessMode.deny AccessMode.deny = true
mode_eq _ _ = false

unfoldable pub can_read : AccessMode → Bool
can_read AccessMode.read = true
can_read AccessMode.write = true
can_read AccessMode.deny = false

unfoldable pub can_write : AccessMode → Bool
can_write AccessMode.write = true
can_write _ = false

unfoldable pub most_restrictive : AccessMode → AccessMode → AccessMode
most_restrictive AccessMode.deny _ = AccessMode.deny
most_restrictive _ AccessMode.deny = AccessMode.deny
most_restrictive AccessMode.read _ = AccessMode.read
most_restrictive _ AccessMode.read = AccessMode.read
most_restrictive AccessMode.write AccessMode.write = AccessMode.write

-- Whether a grant satisfies a requested mode.
unfoldable pub permits : AccessMode → AccessMode → Bool
permits AccessMode.write AccessMode.read = true
permits AccessMode.write AccessMode.write = true
permits AccessMode.read AccessMode.read = true
permits AccessMode.deny AccessMode.deny = true
permits _ _ = false

unfoldable pub as_access_mode : FilesystemDecision → Option AccessMode
as_access_mode FilesystemDecision.read = some AccessMode.read
as_access_mode FilesystemDecision.write = some AccessMode.write
as_access_mode FilesystemDecision.deny = some AccessMode.deny
as_access_mode FilesystemDecision.externally_enforced = none

unfoldable pub is_externally_enforced : FilesystemDecision → Bool
is_externally_enforced FilesystemDecision.externally_enforced = true
is_externally_enforced _ = false

-- `From<AccessMode>`
unfoldable pub from_access : AccessMode → FilesystemDecision
from_access AccessMode.read = FilesystemDecision.read
from_access AccessMode.write = FilesystemDecision.write
from_access AccessMode.deny = FilesystemDecision.deny
