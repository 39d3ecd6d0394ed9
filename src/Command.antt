-- ===== src/Command.antt =====
-- crates/cageforge-command/src: the commands that a sandbox runs.
pub mod Error
pub mod Names
pub mod Environment
pub mod Spec
pub mod Request
