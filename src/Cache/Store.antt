-- ===== src/Cache/Store.antt =====
-- crates/minidox-cache/src/lib.rs and branching.rs: `NodeStore` and `ForkableNodeStore`, the
-- filesystem behind a cache, as an interface. Its methods may change the store and the world around
-- it, such as the counters that all stores of a process share.
use minidox.Prelude.{ℕ, List}
use minidox.Prelude.Step.{Step}
use minidox.Io.{IoError}

-- `&mut self` is the first part of the state.
pub record ForkableNodeStore (S W I : Type 0) : Type 0 where
  pub len : (node : ℕ) → Step (S × W) IoError ℕ
  -- the bytes that were read, at most `count`
  pub read_node : (node offset count : ℕ) → Step (S × W) IoError (List ℕ)
  -- how many bytes were written
  pub write_node : (node offset : ℕ) (bytes : List ℕ) → Step (S × W) IoError ℕ
  pub on_open_node : (node : ℕ) → Step (S × W) IoError (Unit {0})
  pub on_close_node : (node : ℕ) → Step (S × W) IoError (Unit {0})
  pub page_identity : (node offset : ℕ) → Step (S × W) IoError I
  pub prepare_page_write : (node offset : ℕ) → Step (S × W) IoError I
  pub fork_store : Step (S × W) IoError S
