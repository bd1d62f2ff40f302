-- ===== src/Vmm/Dax.antt =====
-- crates/minidox-vmm/src/virtiofs.rs: `State` and the calls that it makes of the host and of the
-- shared page cache. The host maps pages into the DAX window; `shown` is the page that each offset
-- of the window shows, and an offset without one shows zeros.
pub mod Mapping
pub mod Uses
pub mod Steps
pub mod Remove
pub mod Activate
pub mod Window
pub mod Suspend
pub mod Branch
pub mod Balance
pub mod Frame
pub mod Panics
pub mod Specs
pub mod Setup
pub mod Reach
mod Tests
pub mod Forks
pub mod Backend
pub mod Names
use minidox.Prelude.{ℕ, Bool, Option, none, some, List, [], ◌∷◌, Result, ok, err, map_err, ok_or}
use minidox.Prelude.Order.{nat_ord}
use minidox.Prelude.Map
use minidox.Prelude.Map.{Map}
use minidox.Prelude.Step.{Step, lift, gets, modify, ◌>>=◌, ◌>>◌}
use minidox.Io.{IoError, os_error, other}
use minidox.Cache.{CacheError}
use minidox.Cache.State.{State}
use minidox.Cache.Mapping.{DaxPageMapping}
use minidox.Vmm.{Error, io}

pub record MappingSpec : Type 0 where
  pub inode : ℕ
  pub file_offset : ℕ
  pub writable : Bool

-- `State`, but for the cache that it shares with other branches.
pub record VirtioFs : Type 0 where
  pub lineage : ℕ
  pub branch : ℕ
  -- the host address and the length of the window
  pub window : Option (ℕ × ℕ)
  pub specs : Map ℕ MappingSpec
  pub active : Map ℕ DaxPageMapping

-- The branch, the cache, and the host. `faults` are the outcomes of the coming `mmap` calls; those
-- beyond the list succeed.
pub record Machine (S W I : Type 0) : Type 0 where
  pub fs : VirtioFs
  pub cache : State S W I
  pub shown : Map ℕ ℕ
  pub faults : List (Option IoError)

abbrev pub enoent : IoError
enoent = os_error 2

abbrev pub ebusy : IoError
ebusy = os_error 16

abbrev pub enodev : IoError
enodev = os_error 19

abbrev pub einval : IoError
einval = os_error 22

abbrev pub eoverflow : IoError
eoverflow = os_error 75

unfoldable pub cache_io_error : CacheError → Error
cache_io_error (CacheError.io error) = io error
cache_io_error _ = io other

module _ {S W I : Type 0} where
  -- A call of `mmap`, which changes the window as `change` says unless it fails.
  unfoldable pub mmap : (Map ℕ ℕ → Map ℕ ℕ) → Step (Machine S W I) IoError (Unit {0})
  mmap change m = elim m.faults [
    | [] ↦ (ok tt, record m { shown = change m.shown })
    | none ∷ faults ↦ (ok tt, record m { shown = change m.shown; faults = faults })
    | some e ∷ faults ↦ (err e, record m { faults = faults })
  ]

  -- A method of the cache, with `map_err(cache_io_error)?` on its error.
  unfoldable pub on_cache :
      {A : Type 0} → Step (State S W I) CacheError A → Step (Machine S W I) Error A
  on_cache operation m =
      let (result, cache) = operation m.cache in
      (map_err cache_io_error result, record m { cache = cache })

  abbrev pub put_fs : (VirtioFs → VirtioFs) → Machine S W I → Machine S W I
  put_fs change m = record m { fs = change m.fs }

  -- `state.window.ok_or_else(|| ENODEV)?`
  unfoldable pub the_window : Step (Machine S W I) Error (ℕ × ℕ)
  the_window m = (ok_or m.fs.window (io enodev), m)
