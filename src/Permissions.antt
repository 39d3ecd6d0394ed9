-- ===== src/Permissions.antt =====
-- crates/cageforge-permissions/src/lib.rs: permission requests, grants, and the store of grants.
pub mod Capability
pub mod Error
pub mod Set
pub mod Request
pub mod Approval
pub mod GrantId
pub mod Grant
pub mod Store
pub mod Paging
