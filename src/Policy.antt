-- ===== src/Policy.antt =====
-- crates/cageforge-policy: the filesystem and network policy of one sandbox.
pub mod Access
pub mod Address
pub mod Error
pub mod Selector
pub mod Context
pub mod Glob
pub mod Pattern
pub mod Rule
pub mod Filesystem
pub mod Decision
pub mod IpText
pub mod Host
pub mod Domain
pub mod LocalIpc
pub mod PublicIp
pub mod NetworkModel
pub mod Network
pub mod NetworkDecision
pub mod Sandbox
