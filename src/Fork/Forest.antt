-- ===== src/Fork/Forest.antt =====
-- crates/minidox-fork/src/lib.rs: `ForkForest`, which owns the VMs of one fork forest and the
-- counters of VM and page identities.
pub mod Isolation
pub mod Pages
pub mod Invariant
pub mod Keeps
pub mod Run
use minidox.Prelude.{ℕ, ◌+◌, List, [], Option, none, some, Result, ok, err, next_id, ◌>>=◌}
use minidox.Prelude.Order.{bytes_ord, nat_ord, pair_ord}
use minidox.Prelude.Map
use minidox.Prelude.Map.{Map}
use minidox.Overlay
use minidox.Fork
use minidox.Fork.{PageBranch, Error, vm_not_found}

pub record VmState : Type 0 where
  pub memory : PageBranch
  pub filesystem : PageBranch

pub record ForkForest : Type 0 where
  pub next_vm : ℕ
  pub next_page : ℕ
  pub vms : Map ℕ VmState

abbrev pub new : ForkForest
new = record { next_vm = 1; next_page = 1; vms = [] }

-- The identity of the new VM, and the forest.
unfoldable pub create_vm : ForkForest → ℕ × ForkForest
create_vm f = (
  f.next_vm,
  record f {
    next_vm = next_id f.next_vm;
    vms =
        Map.insert f.next_vm (record { memory = Overlay.empty; filesystem = Overlay.empty }) f.vms;
  },
)

-- The forest after a fork of `vm`: `get_mut` changes the source in place, and the child comes in.
unfoldable pub fork_state : ForkForest → ℕ → VmState → ForkForest
fork_state f source vm =
    let (memory, child_memory) = Overlay.fork vm.memory in
    let (filesystem, child_filesystem) = Overlay.fork vm.filesystem in
    record f {
      next_vm = next_id f.next_vm;
      vms =
          Map.insert f.next_vm (record { memory = child_memory; filesystem = child_filesystem })
            (Map.insert source (record { memory = memory; filesystem = filesystem }) f.vms);
    }

unfoldable pub fork_vm : ForkForest → ℕ → Result Error ℕ × ForkForest
unfolding fork_state
fork_vm f source = elim (Map.get source f.vms) [
  | none ↦ (err (vm_not_found source), f)
  | some vm ↦ (ok f.next_vm, fork_state f source vm)
]

unfoldable pub remove_vm : ForkForest → ℕ → Result Error (Unit {0}) × ForkForest
remove_vm f vm = elim (Map.get vm f.vms) [
  | none ↦ (err (vm_not_found vm), f)
  | some _ ↦ (ok tt, record f { vms = Map.remove vm f.vms })
]

unfoldable pub write_file :
    ForkForest
    → (vm : ℕ) (path : List ℕ) (offset : ℕ) (bytes : List ℕ) → Result Error (Unit {0}) × ForkForest
write_file f vm path offset bytes = elim (Map.get vm f.vms) [
  | none ↦ (err (vm_not_found vm), f)
  | some state ↦
      let (result, next_page, filesystem) =
        Fork.write f.next_page path offset bytes state.filesystem in
      (
        result,
        record f {
          next_page = next_page;
          vms = Map.insert vm (record state { filesystem = filesystem }) f.vms;
        },
      )
]

unfoldable pub read_file :
    ForkForest → (vm : ℕ) (path : List ℕ) (offset len : ℕ) → Result Error (List ℕ)
read_file f vm path offset len = elim (Map.get vm f.vms) [
  | none ↦ err (vm_not_found vm)
  | some state ↦ Fork.read path offset len state.filesystem
]

-- Guest memory is the file with the empty path.
unfoldable pub write_memory :
    ForkForest → (vm guest_address : ℕ) (bytes : List ℕ) → Result Error (Unit {0}) × ForkForest
write_memory f vm guest_address bytes = elim (Map.get vm f.vms) [
  | none ↦ (err (vm_not_found vm), f)
  | some state ↦
      let (result, next_page, memory) =
        Fork.write f.next_page [] guest_address bytes state.memory in
      (
        result,
        record f {
          next_page = next_page;
          vms = Map.insert vm (record state { memory = memory }) f.vms;
        },
      )
]

unfoldable pub read_memory : ForkForest → (vm guest_address len : ℕ) → Result Error (List ℕ)
read_memory f vm guest_address len = elim (Map.get vm f.vms) [
  | none ↦ err (vm_not_found vm)
  | some state ↦ Fork.read [] guest_address len state.memory
]
