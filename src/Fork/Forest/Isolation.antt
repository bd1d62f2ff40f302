-- ===== src/Fork/Forest/Isolation.antt =====
-- What forks and writes do to what each VM reads.
use minidox.Prelude.{
  ℕ, zero, suc, ◌+◌, ◌/◌, replicate, ltb, ◌==◌, Bool-cases, u64_mod, ◌≡◌, ◌≢◌, refl, ap, List, [],
  some, ok, arith, if◌then◌else◌, Option-cases, inl, inr,
}
use minidox.Prelude.Order.{bytes_ord, nat_ord, pair_ord}
use minidox.Prelude.Map.{get, get-insert}
use minidox.Overlay
use minidox.Overlay.Laws.{find-fork_source, find-fork_child}
use minidox.Fork
use minidox.Fork.{
  PageBranch, FilePage, Error, vm_not_found, page_size, count_at, read_page, read_loop,
}
use minidox.Fork.Forest.{VmState, ForkForest, fork_state, fork_vm, read_file, read_memory}

-- Two branches that show the same pages read alike.
module _ (b c : PageBranch) (h : (key : FilePage) → Overlay.find b key ≡ Overlay.find c key) where
  read_page-same :
      (path : List ℕ) (offset end cursor : ℕ) (result : List ℕ)
      → read_page path offset end cursor b result ≡ read_page path offset end cursor c result
  unfolding read_page
  read_page-same path offset end cursor result = rw (read_page, h (path, cursor / page_size)) refl

  read_loop-same :
      (fuel : ℕ) (path : List ℕ) (offset end cursor : ℕ) (result : List ℕ)
      → read_loop fuel path offset end cursor b result
        ≡ read_loop fuel path offset end cursor c result
  unfolding read_loop
  read_loop-same zero path offset end cursor result = refl
  read_loop-same (suc fuel) path offset end cursor result = elim (Bool-cases (ltb cursor end)) [
    | inl more ↦
        rw (read_loop, more, read_page-same path offset end cursor result)
          (read_loop-same fuel path offset end (cursor + count_at cursor end)
            (read_page path offset end cursor c result))
    | inr stop ↦ rw (read_loop, stop) refl
  ]

  pub read-same :
      (path : List ℕ) (offset len : ℕ) → Fork.read path offset len b ≡ Fork.read path offset len c
  unfolding Fork.read
  read-same path offset len = elim (Bool-cases (ltb (offset + len) u64_mod)) [
    | inl fits ↦
        rw (Fork.read, fits)
          (ap ok (read_loop-same len path offset (offset + len) offset (replicate len 0)))
    | inr over ↦ rw (Fork.read, over) refl
  ]

-- Neither side of a fork reads otherwise than the branch did before.
pub read-fork :
    (b : PageBranch) (path : List ℕ) (offset len : ℕ)
    → (Fork.read path offset len (Overlay.fork b).0 ≡ Fork.read path offset len b)
      × (Fork.read path offset len (Overlay.fork b).1 ≡ Fork.read path offset len b)
read-fork b path offset len = (
  read-same (Overlay.fork b).0 b (find-fork_source b) path offset len,
  read-same (Overlay.fork b).1 b (find-fork_child b) path offset len,
)

get-fork_state :
    (f : ForkForest) (source : ℕ) (state : VmState) (vm : ℕ)
    → get vm (fork_state f source state).vms ≡ (
        if vm == f.next_vm
        then some (record {
          memory = (Overlay.fork state.memory).1;
          filesystem = (Overlay.fork state.filesystem).1;
        })
        else if vm == source
        then some (record {
          memory = (Overlay.fork state.memory).0;
          filesystem = (Overlay.fork state.filesystem).0;
        })
        else get vm f.vms)
unfolding fork_state
get-fork_state f source state vm = rw (get-insert f.next_vm vm) (rw (get-insert source vm) refl)

module _ (f : ForkForest) (source : ℕ) {child : ℕ} (forked : (fork_vm f source).0 ≡ ok child) where
  -- A successful fork leaves what every VM reads as it was, but for the new identity.
  pub reads-fork_vm :
      (vm : ℕ)
      → vm ≢ f.next_vm
      → (path : List ℕ) (offset len : ℕ)
      → (read_file (fork_vm f source).1 vm path offset len ≡ read_file f vm path offset len)
        × (read_memory (fork_vm f source).1 vm offset len ≡ read_memory f vm offset len)
  unfolding fork_vm read_file read_memory
  reads-fork_vm vm other path offset len = elim (Option-cases (get source f.vms)) [
    | inl e ↦ ground arith
    | inr (state, e) ↦ ground (
      arith,
      get-fork_state f source state vm,
      read-fork state.memory [] offset len,
      read-fork state.filesystem path offset len,
    )
  ]

  -- The child of a successful fork reads what its source read, in memory and in files.
  pub reads-fork_vm_child :
      (path : List ℕ) (offset len : ℕ)
      → (read_file (fork_vm f source).1 child path offset len ≡ read_file f source path offset len)
        × (read_memory (fork_vm f source).1 child offset len ≡ read_memory f source offset len)
  unfolding fork_vm read_file read_memory
  reads-fork_vm_child path offset len = elim (Option-cases (get source f.vms)) [
    | inl e ↦ ground arith
    | inr (state, e) ↦ ground (
      arith,
      get-fork_state f source state child,
      read-fork state.memory [] offset len,
      read-fork state.filesystem path offset len,
    )
  ]
