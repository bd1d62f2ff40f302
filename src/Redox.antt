-- ===== src/Redox.antt =====
-- crates/minidox-redoxfs/src/branching.rs: the branches of a RedoxFS filesystem.
pub mod Identity
pub mod Disk
pub mod Branch
mod Tests
