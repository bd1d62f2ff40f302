-- ===== src/Vmm/Dax/Names.antt =====
-- crates/minidox-vmm/src/virtiofs.rs: the operations on names and attributes, and the creation of a
-- file. What RedoxBranch does for them is a parameter. `NodeMetadata` and `DirectoryEntry` are those
-- of crates/minidox-redoxfs/src/branching.rs.
use minidox.Prelude.{ℕ, ◌/◌, ◌%◌, ◌^◌, Bool, not, List, [], ◌∷◌, ◌==◌, ltb}
use minidox.Prelude.Step.{Step, pure, gets, guard, ◌>>=◌, ◌>>◌}
use minidox.Io.{IoError}
use minidox.Cache.State.{with_store_mut}
use minidox.Vmm.{Error, with_backend}
use minidox.Vmm.Dax.{Machine, eoverflow, on_cache}

pub record NodeMetadata : Type 0 where
  pub id : ℕ
  pub size : ℕ
  pub blocks_512 : ℕ
  pub mode : ℕ
  pub links : ℕ
  pub uid : ℕ
  pub gid : ℕ
  pub atime : ℕ × ℕ
  pub mtime : ℕ × ℕ
  pub ctime : ℕ × ℕ

pub record DirectoryEntry : Type 0 where
  pub id : ℕ
  pub name : List ℕ

-- What the device is answered.
pub record FsNodeAttr : Type 0 where
  pub inode : ℕ
  pub size : ℕ
  pub blocks : ℕ
  pub atime : ℕ × ℕ
  pub mtime : ℕ × ℕ
  pub ctime : ℕ × ℕ
  pub mode : ℕ
  pub links : ℕ
  pub uid : ℕ
  pub gid : ℕ

pub record FsDirEntry : Type 0 where
  pub inode : ℕ
  pub name : List ℕ
  pub directory : Bool

unfoldable pub node_attr : NodeMetadata → FsNodeAttr
node_attr metadata = record {
  inode = metadata.id;
  size = metadata.size;
  blocks = metadata.blocks_512;
  atime = metadata.atime;
  mtime = metadata.mtime;
  ctime = metadata.ctime;
  mode = metadata.mode;
  links = metadata.links;
  uid = metadata.uid;
  gid = metadata.gid;
}

-- `mode & libc::S_IFMT == libc::S_IFDIR`, bits 12 to 15 of the mode.
abbrev pub is_directory : ℕ → Bool
is_directory mode = (mode / 4096) % 16 == 4

abbrev pub dir_entry : DirectoryEntry → NodeMetadata → FsDirEntry
dir_entry entry metadata = record {
  inode = entry.id;
  name = entry.name;
  directory = is_directory metadata.mode;
}

module _ {S W : Type 0} where
  -- `|store| store.operation(node_id(inode)?)`
  unfoldable pub with_node :
      {A : Type 0} → (inode : ℕ) → (ℕ → Step (S × W) IoError A) → Step (S × W) IoError A
  with_node inode operation = guard (not (ltb inode (2 ^ 32))) eoverflow >> operation inode

module _ {S W I : Type 0} where
  -- `state.cache.with_store_mut(state.branch, ..).map_err(cache_io_error)`
  unfoldable pub on_store : {A : Type 0} → Step (S × W) IoError A → Step (Machine S W I) Error A
  on_store operation =
      gets (λ m. m.fs.branch) >>= (λ branch. on_cache (with_store_mut branch operation))

  -- `create` is `RedoxBranch::create_file` with its name and size.
  unfoldable pub create_file : Step (S × W) IoError ℕ → Step (Machine S W I) Error ℕ
  unfolding on_store
  create_file create = with_backend (on_store create)

  module _ (metadata : ℕ → Step (S × W) IoError NodeMetadata) where
    unfoldable pub fs_lookup :
        (lookup : (parent : ℕ) → List ℕ → Step (S × W) IoError ℕ) (parent : ℕ)
        → List ℕ
        → Step (Machine S W I) Error FsNodeAttr
    unfolding on_store with_node node_attr
    fs_lookup lookup parent name = do
      inode ← on_store (with_node parent (λ node. lookup node name))
      found ← on_store (metadata inode)
      pure (node_attr found)

    unfoldable pub fs_getattr : ℕ → Step (Machine S W I) Error FsNodeAttr
    unfolding on_store with_node node_attr
    fs_getattr inode = do found ← on_store (with_node inode metadata); pure (node_attr found)

    -- The entries with what the store says of each; the first error ends the method.
    unfoldable pub dir_entries : List DirectoryEntry → Step (Machine S W I) Error (List FsDirEntry)
    unfolding on_store
    dir_entries [] = pure []
    dir_entries (entry ∷ entries) = do
      found ← on_store (metadata entry.id)
      rest ← dir_entries entries
      pure (dir_entry entry found ∷ rest)

    unfoldable pub fs_entries :
        (entries : ℕ → Step (S × W) IoError (List DirectoryEntry)) (inode : ℕ)
        → Step (Machine S W I) Error (List FsDirEntry)
    unfolding on_store with_node dir_entries
    fs_entries entries inode = do found ← on_store (with_node inode entries); dir_entries found
