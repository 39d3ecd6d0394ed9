-- ===== src/Backend.antt =====
-- crates/cageforge-backend-api/src: what a backend is asked for, and the test of a request before
-- it is launched.
pub mod Capability
pub mod Requirements
pub mod Prepared
