-- ===== src/Cache.antt =====
-- crates/minidox-cache/src: the file-page caches. The types that both of them use, from lib.rs.
pub mod Dirty
pub mod Host
pub mod Store
pub mod State
pub mod Branches
pub mod Mapping
pub mod Access
pub mod Accounting
pub mod Steps
pub mod Single
pub mod Active
pub mod Balance
pub mod Uses
pub mod Sync
pub mod Forks
pub mod Removal
pub mod Table
pub mod Own
mod Tests
use minidox.Prelude.{ℕ, Bool}
use minidox.Io.{IoError}

abbrev pub page_size : ℕ
page_size = 4096

-- `bitflags` of the two bits.
pub record MapFlags : Type 0 where
  pub read : Bool
  pub write : Bool

-- The messages of `CacheError::InvalidMapping`.
pub data Message : Type 0 where
  no_branches branch_identity_overflow open_count_overflow not_open unaligned no_access : Message
  read_length read_overflow write_overflow beyond_file page_length empty_mapping mapping_overflow :
      Message

pub data CacheError : Type 0 where
  io : IoError → CacheError
  invalid_mapping : Message → CacheError
  node_not_open branch_not_found : ℕ → CacheError
  stale_mapping active_mappings page_busy : CacheError
