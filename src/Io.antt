-- ===== src/Io.antt =====
-- `std::io::Error`, as far as the crates tell its kinds apart.
use minidox.Prelude.{ℕ}

pub data IoError : Type 0 where
  -- `from_raw_os_error(code)`
  os_error : (code : ℕ) → IoError
  write_zero unexpected_eof invalid_data already_exists other : IoError

abbrev pub eio : IoError
eio = os_error 5
