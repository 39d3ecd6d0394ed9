-- ===== src/Path.antt =====
-- crates/cageforge-path: lexical path comparison, on a POSIX host.
pub mod Components
pub mod Compare
pub mod Resolve
pub mod Dialect
