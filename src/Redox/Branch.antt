-- ===== src/Redox/Branch.antt =====
-- crates/minidox-redoxfs/src/branching.rs: `RedoxBranch`, a file system over a copy-on-write disk
-- with its page identities, as the store behind a cache. The vendored RedoxFS is a parameter.
pub mod Laws
pub mod Versions
mod Tests
use minidox.Prelude.{ℕ, List, Result, ok, err, length}
use minidox.Prelude.Step.{Step, pure, lift, ◌>>=◌, ◌>>◌}
use minidox.Io.{IoError}
use minidox.Cache.Store.{ForkableNodeStore}
use minidox.Redox.Identity
use minidox.Redox.Identity.{IdentityBranch, Counters, RedoxPageIdentity}

-- What `RedoxBranch` calls of the vendored file system, each one transaction, and the fork of the
-- disk under it. `F` is a mounted file system, and `D` a disk with the header block to open it at.
pub record FileSystem (F D : Type 0) : Type 0 where
  pub len : (node : ℕ) → Step F IoError ℕ
  pub read_node : (node offset count : ℕ) → Step F IoError (List ℕ)
  pub write_node : (node offset : ℕ) (bytes : List ℕ) → Step F IoError ℕ
  pub on_open_node : (node : ℕ) → Step F IoError (Unit {0})
  pub on_close_node : (node : ℕ) → Step F IoError (Unit {0})
  -- `create_node` and `truncate_node` in one transaction
  pub create_node : (name : List ℕ) (size : ℕ) → Step F IoError ℕ
  pub fork_disk : Step F IoError D
  pub open_disk : D → Result IoError F

pub record RedoxBranch (F : Type 0) : Type 0 where
  pub fs : F
  pub identities : IdentityBranch

module _ {F D : Type 0} (system : FileSystem F D) where
  -- The branch, and the counters of the process.
  abbrev pub Self : Type 0
  Self = RedoxBranch F × Counters

  unfoldable pub on_fs : {A : Type 0} → Step F IoError A → Step Self IoError A
  on_fs operation (b, c) = let (result, fs) = operation b.fs in (result, (record b { fs = fs }, c))

  -- A change of the identities, which may take new ones from the counters.
  unfoldable pub on_identities :
      {A : Type 0}
      → (IdentityBranch → Counters → Result IoError A × IdentityBranch × Counters)
      → Step Self IoError A
  on_identities operation (b, c) =
      let (result, identities, c') = operation b.identities c in
      (result, (record b { identities = identities }, c'))

  unfoldable pub create_file : (name : List ℕ) (size : ℕ) → Step Self IoError ℕ
  create_file name size = on_fs (system.create_node name size) >>= (λ node.
      on_identities (λ b c. let (b', c') = Identity.create_file node b c in (ok node, b', c')))

  unfoldable pub write : (node offset : ℕ) (bytes : List ℕ) → Step Self IoError ℕ
  write node offset bytes = do
    written ← on_fs (system.write_node node offset bytes)
    on_identities (Identity.record_write node offset written)
    pure written

  unfoldable pub page_identity : (node offset : ℕ) → Step Self IoError RedoxPageIdentity
  page_identity node offset (b, c) = (Identity.page_identity b.identities node offset, (b, c))

  -- The child's identities; the source's are forked in place.
  unfoldable pub fork_identities : Step Self IoError IdentityBranch
  fork_identities (b, c) =
      let (source, child) = Identity.fork b.identities in
      (ok child, (record b { identities = source }, c))

  unfoldable pub fork : Step Self IoError (RedoxBranch F)
  fork = do
    child_disk ← on_fs system.fork_disk
    child_identities ← fork_identities
    child ← lift (system.open_disk child_disk)
    pure (record { fs = child; identities = child_identities })

  -- `impl NodeStore` and `impl ForkableNodeStore`.
  abbrev pub store : ForkableNodeStore (RedoxBranch F) Counters RedoxPageIdentity
  store = record {
    len = λ node. on_fs (system.len node);
    read_node = λ node offset count. on_fs (system.read_node node offset count);
    write_node = λ node offset bytes. on_fs (system.write_node node offset bytes);
    on_open_node = λ node. on_fs (system.on_open_node node);
    on_close_node = λ node. on_fs (system.on_close_node node);
    page_identity = page_identity;
    prepare_page_write = λ node offset. on_identities (Identity.prepare_page_write node offset);
    fork_store = fork;
  }
