-- ===== src/Fork/Supervisor.antt =====
-- crates/minidox-fork/src/lib.rs: `Supervisor`, which owns the memory branches of its VMs and the
-- caches of their filesystems. The making of a filesystem and of a file in it are parameters, as the
-- vendored RedoxFS does them.
pub mod Laws
mod Tests
use minidox.Prelude.{
  ℕ, ◌+◌, Bool, true, false, not, ◌||◌, Option, none, some, List, [], ◌∷◌, Result, ok, err, ok_or,
  next_id, map_err, if◌then◌else◌, ◌==◌, replicate, take,
}
use minidox.Prelude.Order.{Ord, bytes_ord, nat_ord, pair_ord}
use minidox.Prelude.Map
use minidox.Prelude.Map.{Map}
use minidox.Prelude.Step.{Step, pure, fail, lift, gets, modify, attempt, ◌>>=◌, ◌>>◌}
use minidox.Io.{IoError}
use minidox.Overlay
use minidox.Cache.{CacheError}
use minidox.Cache.Host.{Host}
use minidox.Cache.Store.{ForkableNodeStore}
use minidox.Cache.State
use minidox.Cache.State.{State}
use minidox.Cache.Branches
use minidox.Cache.Access
use minidox.Fork
use minidox.Fork.{PageBranch, Error, vm_not_found, io, cache}

pub record SupervisedVm : Type 0 where
  pub memory : PageBranch
  pub filesystem_cache : ℕ
  pub filesystem_branch : ℕ

-- The host and the world are those of the process; each cache gets them for the time of a call.
pub record Supervisor (S W I : Type 0) : Type 0 where
  pub next_vm : ℕ
  pub next_page : ℕ
  pub vms : Map ℕ SupervisedVm
  pub filesystems : Map ℕ (State S W I)
  pub host : Host
  pub world : W

-- `self.filesystems[&id]` panics where there is no such cache.
pub data Failure : Type 0 where
  error : Error → Failure
  panicked : Failure

-- `self.vms.values().any(|vm| vm.filesystem_cache == id)`
unfoldable pub in_use : ℕ → Map ℕ SupervisedVm → Bool
in_use id [] = false
in_use id ((vm, state) ∷ vms) = state.filesystem_cache == id || in_use id vms

module _ {S W I : Type 0} where
  abbrev pub new : Host → W → Supervisor S W I
  new host world = record {
    next_vm = 1;
    next_page = 1;
    vms = [];
    filesystems = [];
    host = host;
    world = world;
  }

  unfoldable pub find_vm : ℕ → Step (Supervisor S W I) Failure SupervisedVm
  find_vm vm s = (ok_or (Map.get vm s.vms) (error (vm_not_found vm)), s)

  -- A call on the cache of an identity.
  unfoldable pub with_cache :
      {A : Type 0} → ℕ → Step (State S W I) CacheError A → Step (Supervisor S W I) Failure A
  with_cache id operation s = elim (Map.get id s.filesystems) [
    | none ↦ (err panicked, s)
    | some c ↦
        let (result, c') = operation (record c { host = s.host; world = s.world }) in
        (
          map_err (λ e. error (cache e)) result,
          record s {
            filesystems = Map.insert id c' s.filesystems;
            host = c'.host;
            world = c'.world;
          },
        )
  ]

  -- The making of a filesystem.
  unfoldable pub on_world : {A : Type 0} → Step W IoError A → Step (Supervisor S W I) Failure A
  on_world operation s =
      let (result, world) = operation s.world in
      (map_err (λ e. error (io e)) result, record s { world = world })

  -- The entries of a new VM and of its cache, under the identity that the cache got.
  abbrev pub add_vm : ℕ → S → Supervisor S W I → Supervisor S W I
  add_vm id filesystem s =
      let (c, branch) = State.new filesystem s.host s.world in
      record s {
        vms =
            Map.insert id
              (record {
                memory = Overlay.empty;
                filesystem_cache = c.id;
                filesystem_branch = branch;
              })
              s.vms;
        filesystems = Map.insert c.id c s.filesystems;
        host = c.host;
        world = c.world;
      }

  unfoldable pub create_vm : Step W IoError S → Step (Supervisor S W I) Failure ℕ
  create_vm create = do
    id ← gets (λ s. s.next_vm)
    modify (λ s. record s { next_vm = next_id s.next_vm })
    filesystem ← on_world create
    modify (add_vm id filesystem)
    pure id

  unfoldable pub create_file : Step (S × W) IoError ℕ → ℕ → Step (Supervisor S W I) Failure ℕ
  create_file create vm = do
    state ← find_vm vm
    with_cache state.filesystem_cache (State.with_store_mut state.filesystem_branch create)

  -- The memory of the source forked in place, and the child.
  abbrev pub fork_memory :
      (source : ℕ) → SupervisedVm → (child_filesystem : ℕ) → Supervisor S W I → Supervisor S W I
  fork_memory source state child_filesystem s =
      let (memory, child_memory) = Overlay.fork state.memory in
      record s {
        next_vm = next_id s.next_vm;
        vms =
            Map.insert s.next_vm
              (record {
                memory = child_memory;
                filesystem_cache = state.filesystem_cache;
                filesystem_branch = child_filesystem;
              })
              (Map.insert source (record state { memory = memory }) s.vms);
      }

  unfoldable pub write_memory :
      (vm guest_address : ℕ) → List ℕ → Step (Supervisor S W I) Failure (Unit {0})
  write_memory vm guest_address bytes s = elim (Map.get vm s.vms) [
    | none ↦ (err (error (vm_not_found vm)), s)
    | some state ↦
        let (result, next_page, memory) =
          Fork.write s.next_page [] guest_address bytes state.memory in
        (
          map_err error result,
          record s {
            next_page = next_page;
            vms = Map.insert vm (record state { memory = memory }) s.vms;
          },
        )
  ]

  unfoldable pub read_memory : Supervisor S W I → (vm guest_address len : ℕ) → Result Error (List ℕ)
  read_memory s vm guest_address len = elim (Map.get vm s.vms) [
    | none ↦ err (vm_not_found vm)
    | some state ↦ Fork.read [] guest_address len state.memory
  ]

module _ {S W I : Type 0} (store : ForkableNodeStore S W I) where
  -- The cache forks first; only when it has are the memory and the table of VMs changed.
  unfoldable pub fork_vm : ℕ → Step (Supervisor S W I) Failure ℕ
  fork_vm source = do
    state ← find_vm source
    child_filesystem ←
        with_cache state.filesystem_cache (Branches.fork store state.filesystem_branch)
    child ← gets (λ s. s.next_vm)
    modify (fork_memory source state child_filesystem)
    pure child

module _ {S W I : Type 0} ⦃o : Ord I⦄ (store : ForkableNodeStore S W I) where
  -- The VM goes before the cache may refuse to let its branch go.
  unfoldable pub remove_vm : ℕ → Step (Supervisor S W I) Failure (Unit {0})
  remove_vm vm = do
    removed ← find_vm vm
    modify (λ s. record s { vms = Map.remove vm s.vms })
    with_cache removed.filesystem_cache (Branches.remove_branch store removed.filesystem_branch)
    modify (λ s. record s {
      filesystems =
          if in_use removed.filesystem_cache s.vms
          then s.filesystems
          else Map.remove removed.filesystem_cache s.filesystems;
    })

  -- `close` is called whether the access succeeds or not; the error of the access counts first.
  unfoldable pub opened :
      {A : Type 0}
      → SupervisedVm
      → (node : ℕ) → Step (State S W I) CacheError A
      → Step (Supervisor S W I) Failure A
  opened state node access = do
    with_cache state.filesystem_cache (Branches.open_node store state.filesystem_branch node)
    result ← attempt (with_cache state.filesystem_cache access)
    closed ←
        attempt
          (with_cache state.filesystem_cache (Branches.close store state.filesystem_branch node))
    value ← lift result
    lift closed
    pure value

  unfoldable pub write_file :
      (vm node offset : ℕ) → List ℕ → Step (Supervisor S W I) Failure (Unit {0})
  write_file vm node offset bytes = do
    state ← find_vm vm
    opened state node (Access.write store state.filesystem_branch node offset bytes)
    pure tt

  unfoldable pub read_file : (vm node offset len : ℕ) → Step (Supervisor S W I) Failure (List ℕ)
  read_file vm node offset len = do
    state ← find_vm vm
    r ← opened state node (Access.read store state.filesystem_branch node offset (replicate len 0))
    pure (take r.0 r.1)
