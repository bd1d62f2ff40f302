-- ===== src/Vmm.antt =====
-- crates/minidox-vmm/src: the DAX window of a VM's filesystem (Vmm/Dax) and its memory (Vmm/Ram).
pub mod Dax
pub mod Ram
use minidox.Prelude.{ℕ, Result, ok, err, map_err}
use minidox.Prelude.Step.{Step}
use minidox.Io.{IoError}

-- `Error` of lib.rs with the errors that `io::Result` carries, and the panic of an index that a map
-- does not hold.
pub data Error : Type 0 where
  io : IoError → Error
  backend worker_panicked panicked : Error
  invalid_ram_size : ℕ → Error
  ram_range : (offset len : ℕ) → Error
  invalid_dirty_page : (page pages : ℕ) → Error

-- `map_err(|error| Error::backend(.., error))`, whose message is not modelled. A panic goes on.
abbrev pub as_backend : Error → Error
as_backend panicked = panicked
as_backend _ = backend

-- A call whose error is looked at later, as `attempt`; a panic is no error.
unfoldable pub catch : {T A : Type 0} → Step T Error A → Step T Error (Result Error A)
catch m t =
    let (result, t') = m t in
    elim result [
      | ok a ↦ (ok (ok a), t')
      | err panicked ↦ (err panicked, t')
      | err error ↦ (ok (err error), t')
    ]

unfoldable pub with_backend : {T A : Type 0} → Step T Error A → Step T Error A
with_backend m t = let (result, t') = m t in (map_err as_backend result, t')
