-- ===== src/Vmm/Dax/Branch.antt =====
-- crates/minidox-vmm/src/virtiofs.rs: `VirtioFsBranch`, whose methods suspend the mappings of the
-- window around what they do to the cache, and the file operations that the guest calls. The
-- registration of a branch with the device and its backend identity are not modelled.
use minidox.Prelude.{ℕ, Bool, none, List, [], ◌∷◌, Result, ok, err}
use minidox.Prelude.Order.{Ord, nat_ord}
use minidox.Prelude.Map
use minidox.Prelude.Map.{Map, Set, keys}
use minidox.Prelude.Step.{Step, pure, lift, gets, ◌>>=◌, ◌>>◌}
use minidox.Io.{IoError}
use minidox.Cache.{CacheError}
use minidox.Cache.Host.{Host}
use minidox.Cache.Store.{ForkableNodeStore}
use minidox.Cache.State
use minidox.Cache.State.{State, with_store_mut}
use minidox.Cache.Branches
use minidox.Cache.Branches.{open_node, close, remove_branch}
use minidox.Cache.Mapping.{DaxPageMapping, unmap}
use minidox.Cache.Access.{write, sync, sync_all}
use minidox.Vmm.{Error, catch, with_backend}
use minidox.Vmm.Dax.{MappingSpec, VirtioFs, Machine, on_cache, put_fs}
use minidox.Vmm.Dax.Mapping.{suspend_mappings, resume_mappings}

pub record DurableMappingSpec : Type 0 where
  pub window_offset : ℕ
  pub inode : ℕ
  pub file_offset : ℕ
  pub writable : Bool

-- `D` is what the filesystem keeps of itself.
pub record VirtioFsSnapshot (D : Type 0) : Type 0 where
  pub lineage : ℕ
  pub filesystem : D
  pub mappings : List DurableMappingSpec

-- What a snapshot keeps of the specs, and a restore makes of it.
unfoldable pub durable_specs : Map ℕ MappingSpec → List DurableMappingSpec
durable_specs [] = []
durable_specs ((offset, spec) ∷ specs) =
    (record {
      window_offset = offset;
      inode = spec.inode;
      file_offset = spec.file_offset;
      writable = spec.writable;
    })
    ∷ durable_specs specs

-- `collect()` puts the specs into a map in order.
unfoldable pub collect_specs : List DurableMappingSpec → Map ℕ MappingSpec → Map ℕ MappingSpec
collect_specs [] specs = specs
collect_specs (mapping ∷ mappings) specs = collect_specs mappings (
    Map.insert mapping.window_offset
      (record {
        inode = mapping.inode;
        file_offset = mapping.file_offset;
        writable = mapping.writable;
      })
      specs)

-- `specs.values().map(|spec| spec.inode).collect::<BTreeSet<_>>()`
unfoldable pub inodes_of : Map ℕ MappingSpec → Set ℕ
inodes_of [] = []
inodes_of ((offset, spec) ∷ specs) = Map.insert spec.inode tt (inodes_of specs)

module _ {S W I : Type 0} where
  -- The first loop of `Drop`.
  unfoldable pub unmap_all : ℕ → Map ℕ DaxPageMapping → State S W I → State S W I
  unmap_all branch [] s = s
  unmap_all branch ((offset, mapping) ∷ active) s =
      unmap_all branch active (unmap branch mapping s).1

module _ {S W I : Type 0} ⦃o : Ord I⦄ (store : ForkableNodeStore S W I) where
  unfoldable pub drop : Machine S W I → Machine S W I
  unfolding unmap_all
  drop m =
      let s = unmap_all m.fs.branch m.fs.active m.cache in
      record (put_fs (λ fs. record fs { active = [] }) m) {
        cache = (remove_branch store m.fs.branch s).1;
      }

  unfoldable pub open_all : ℕ → List ℕ → Step (State S W I) CacheError (Unit {0})
  open_all branch [] = pure tt
  open_all branch (inode ∷ inodes) = open_node store branch inode >> open_all branch inodes

  unfoldable pub from_parts :
      (lineage branch : ℕ) → Map ℕ MappingSpec → Step (State S W I) CacheError VirtioFs
  unfolding open_all
  from_parts lineage branch specs = do
    open_all branch (keys (inodes_of specs))
    pure (record { lineage = lineage; branch = branch; window = none; specs = specs; active = [] })

  unfoldable pub fork : Step (Machine S W I) Error VirtioFs
  fork = do
    with_backend suspend_mappings
    branch ← gets (λ m. m.fs.branch)
    child ← catch (with_backend (on_cache (Branches.fork store branch)))
    fs ← gets (λ m. m.fs)
    resumed ← catch (with_backend (resume_mappings store))
    child_branch ← lift child
    lift resumed
    with_backend (on_cache (from_parts fs.lineage child_branch fs.specs))

  -- What `write` does between the suspension and the resumption.
  unfoldable pub write_through : (node offset : ℕ) → List ℕ → Step (Machine S W I) Error (Unit {0})
  write_through node offset bytes = do
    branch ← gets (λ m. m.fs.branch)
    with_backend (on_cache (open_node store branch node))
    written ← catch (
        with_backend (
          on_cache (write store branch node offset bytes)
          >>= (λ count. on_cache (sync store branch node))))
    closed ← catch (with_backend (on_cache (close store branch node)))
    lift written
    lift closed

  unfoldable pub write_file : (node offset : ℕ) → List ℕ → Step (Machine S W I) Error (Unit {0})
  unfolding write_through
  write_file node offset bytes = do
    with_backend suspend_mappings
    written ← catch (write_through node offset bytes)
    resumed ← catch (with_backend (resume_mappings store))
    lift written
    lift resumed

  -- `RedoxBranch::durable_state` is the parameter.
  unfoldable pub durable_snapshot :
      {D : Type 0} → Step (S × W) IoError D → Step (Machine S W I) Error (VirtioFsSnapshot D)
  unfolding durable_specs
  durable_snapshot durable_state = do
    with_backend suspend_mappings
    branch ← gets (λ m. m.fs.branch)
    filesystem ← catch (
        with_backend
          (on_cache (sync_all store branch) >> on_cache (with_store_mut branch durable_state)))
    fs ← gets (λ m. m.fs)
    resumed ← catch (with_backend (resume_mappings store))
    saved ← lift filesystem
    lift resumed
    pure (record { lineage = fs.lineage; filesystem = saved; mappings = durable_specs fs.specs })

  -- The branches of the restored stores, each with the specs of its snapshot.
  unfoldable pub from_snapshots :
      {D : Type 0}
      → List (VirtioFsSnapshot D)
      → List ℕ
      → Step (State S W I) CacheError (List VirtioFs)
  unfolding collect_specs from_parts
  from_snapshots [] branches = pure []
  from_snapshots (snapshot ∷ snapshots) [] = pure []
  from_snapshots (snapshot ∷ snapshots) (branch ∷ branches) = do
    fs ← from_parts snapshot.lineage branch (collect_specs snapshot.mappings [])
    rest ← from_snapshots snapshots branches
    pure (fs ∷ rest)

  -- `stores` are what `RedoxBranch::restore_lineage` answers with for the snapshots.
  unfoldable pub restore_lineage :
      {D : Type 0}
      → List (VirtioFsSnapshot D)
      → (stores : List S) → Host
      → W
      → Result CacheError (State S W I × List VirtioFs)
  unfolding from_snapshots
  restore_lineage snapshots stores host world =
      elim (State.restore {S = S} {W = W} {I = I} stores host world) [
        | err error ↦ err error
        | ok (cache, branches) ↦
            let (result, cache') = from_snapshots snapshots branches cache in
            elim result [ err error ↦ err error | ok all ↦ ok (cache', all) ]
      ]
