-- ===== src/Fork/Supervisor/Tests.antt =====
-- A supervisor with one VM, over a filesystem that always works.
use minidox.Prelude.{ℕ, ◌≡◌, ◌≢◌, refl, [], ◌∷◌, List, ok, err, length, replicate, ◌/◌, ◌+◌}
use minidox.Prelude.Order.{nat_ord, pair_ord}
use minidox.Prelude.Map.{get, insert}
use minidox.Prelude.Step.{◌>>=◌, guard, gets, modify, lift, pure, fail}
use minidox.Overlay
use minidox.Cache.{active_mappings}
use minidox.Cache.Dirty
use minidox.Cache.Host.{Host}
use minidox.Cache.Store.{ForkableNodeStore}
use minidox.Cache.State.{State, branch_mut, with_store_mut}
use minidox.Cache.Branches
use minidox.Fork.{cache}
use minidox.Fork.Supervisor.{Supervisor, error, find_vm, with_cache, fork_vm, read_memory}
use minidox.Fork.Supervisor.Laws.{vms-fork_vm, memory-fork_vm}

abbrev store : ForkableNodeStore ℕ ℕ (ℕ × ℕ)
store = record {
  len = λ node s. (ok 8192, s);
  read_node = λ node offset count s. (ok (replicate count 7), s);
  write_node = λ node offset bytes s. (ok (length bytes), s);
  on_open_node = λ node s. (ok tt, s);
  on_close_node = λ node s. (ok tt, s);
  page_identity = λ node offset s. (ok (offset / 4096, s.0), s);
  prepare_page_write = λ node offset s. (ok (offset / 4096, s.1), (s.1, s.1 + 1));
  fork_store = λ s. (ok s.0, s);
}

abbrev host : Host
host = record { next_cache_id = 2; next_page_id = 1; contents = []; faults = [] }

-- The cache of the VM, with so many mappings of page 1.
abbrev cache_with : List (ℕ × ℕ) → State ℕ ℕ (ℕ × ℕ)
cache_with active = record {
  id = 1;
  next_branch = 2;
  branches =
      (
        1,
        record {
          store = 0;
          open_nodes = [];
          active_pages = active;
          exclusive_pages = [];
          dirty_pages = Dirty.new;
        },
      )
      ∷ [];
  pages = [];
  known_pages = [];
  host = host;
  world = 1;
}

abbrev supervisor : List (ℕ × ℕ) → Supervisor ℕ ℕ (ℕ × ℕ)
supervisor active = record {
  next_vm = 2;
  next_page = 1;
  vms = (1, record { memory = Overlay.empty; filesystem_cache = 1; filesystem_branch = 1 }) ∷ [];
  filesystems = (1, cache_with active) ∷ [];
  host = host;
  world = 1;
}

forks : (fork_vm store 1 (supervisor [])).0 ≡ ok 2
unfolding fork_vm find_vm with_cache Branches.fork branch_mut with_store_mut get insert ◌>>=◌ guard
    gets modify lift pure
forks = refl

memory-fork_vm_example :
    (2 ≡ (supervisor []).next_vm)
    × ((offset len : ℕ)
        → read_memory (fork_vm store 1 (supervisor [])).1 2 offset len
          ≡ read_memory (supervisor []) 1 offset len)
    × ((vm offset len : ℕ)
        → vm ≢ 2
        → read_memory (fork_vm store 1 (supervisor [])).1 vm offset len
          ≡ read_memory (supervisor []) vm offset len)
memory-fork_vm_example = memory-fork_vm store 1 (supervisor []) 2 forks

refused : (fork_vm store 1 (supervisor ((1, 1) ∷ []))).0 ≡ err (error (cache active_mappings))
unfolding fork_vm find_vm with_cache Branches.fork branch_mut get insert ◌>>=◌ guard gets modify
    lift pure fail
refused = refl

vms-fork_vm_example :
    ((fork_vm store 1 (supervisor ((1, 1) ∷ []))).1.vms ≡ (supervisor ((1, 1) ∷ [])).vms)
    × ((fork_vm store 1 (supervisor ((1, 1) ∷ []))).1.next_vm ≡ 2)
vms-fork_vm_example =
    vms-fork_vm store 1 (supervisor ((1, 1) ∷ [])) (error (cache active_mappings)) refused
