-- ===== src/Vmm/Dax/Backend.antt =====
-- crates/minidox-vmm/src/virtiofs.rs: the file operations of `VirtioFsBranch` that leave the window
-- alone, for the host (`read`) and for the guest.
use minidox.Prelude.{ℕ, List, take, replicate}
use minidox.Prelude.Order.{Ord, nat_ord}
use minidox.Prelude.Step.{Step, pure, lift, gets, ◌>>=◌, ◌>>◌}
use minidox.Cache.{CacheError}
use minidox.Cache.Store.{ForkableNodeStore}
use minidox.Cache.State.{State}
use minidox.Cache.Branches.{open_node, close}
use minidox.Cache.Access.{read, write, sync}
use minidox.Vmm.{Error, catch, with_backend}
use minidox.Vmm.Dax.{Machine, on_cache}
use minidox.Vmm.Dax.Window.{node_id}

module _ {S W I : Type 0} ⦃o : Ord I⦄ (store : ForkableNodeStore S W I) where
  unfoldable pub read_file : (node offset len : ℕ) → Step (Machine S W I) Error (List ℕ)
  read_file node offset len = do
    branch ← gets (λ m. m.fs.branch)
    with_backend (on_cache (open_node store branch node))
    filled ← catch (with_backend (on_cache (read store branch node offset (replicate len 0))))
    closed ← catch (with_backend (on_cache (close store branch node)))
    bytes ← lift filled
    lift closed
    pure (take bytes.0 bytes.1)

  -- `open`, `close`, `read`, `write` and `sync` of `InProcessFsBackend`.
  unfoldable pub on_node :
      {A : Type 0}
      → ℕ
      → ((branch node : ℕ) → Step (State S W I) CacheError A)
      → Step (Machine S W I) Error A
  on_node inode operation = do
    branch ← gets (λ m. m.fs.branch)
    node ← lift (node_id inode)
    on_cache (operation branch node)

  unfoldable pub fs_open : ℕ → Step (Machine S W I) Error (Unit {0})
  unfolding on_node
  fs_open inode = on_node inode (open_node store)

  unfoldable pub fs_close : ℕ → Step (Machine S W I) Error (Unit {0})
  unfolding on_node
  fs_close inode = on_node inode (close store)

  unfoldable pub fs_read : (inode offset : ℕ) → List ℕ → Step (Machine S W I) Error (ℕ × List ℕ)
  unfolding on_node
  fs_read inode offset buf = on_node inode (λ branch node. read store branch node offset buf)

  unfoldable pub fs_write : (inode offset : ℕ) → List ℕ → Step (Machine S W I) Error ℕ
  unfolding on_node
  fs_write inode offset bytes = on_node inode (λ branch node. write store branch node offset bytes)

  unfoldable pub fs_sync : ℕ → Step (Machine S W I) Error (Unit {0})
  unfolding on_node
  fs_sync inode = on_node inode (sync store)
