-- ===== src/Fork/Forest/Run.antt =====
-- Histories: any sequence of operations on a forest.
use minidox.Prelude.{ℕ, ◌+◌, ◌≤◌, ◌<◌, ◌≡◌, List, [], ◌∷◌, arith, length, u64_mod}
use minidox.Prelude.Order.{nat_ord}
use minidox.Fork.{Page}
use minidox.Fork.Forest.{
  ForkForest, new, create_vm, fork_state, fork_vm, remove_vm, write_file, write_memory,
}
use minidox.Fork.Forest.Invariant.{Shows, IsValid}
use minidox.Fork.Forest.Keeps.{
  new-IsValid, create_vm-IsValid, fork_vm-IsValid, remove_vm-IsValid, write_file-IsValid,
  write_memory-IsValid,
}

-- The operations of a forest.
pub data Call : Type 0 where
  creates : Call
  forks removes : ℕ → Call
  writes_file : (vm : ℕ) (path : List ℕ) (offset : ℕ) (bytes : List ℕ) → Call
  writes_memory : (vm guest_address : ℕ) (bytes : List ℕ) → Call

unfoldable pub step : ForkForest → Call → ForkForest
step f creates = (create_vm f).1
step f (forks source) = (fork_vm f source).1
step f (removes vm) = (remove_vm f vm).1
step f (writes_file vm path offset bytes) = (write_file f vm path offset bytes).1
step f (writes_memory vm guest_address bytes) = (write_memory f vm guest_address bytes).1

unfoldable pub run : ForkForest → List Call → ForkForest
unfolding step
run f [] = f
run f (call ∷ calls) = run (step f call) calls

step-IsValid :
    (f : ForkForest) (call : Call) → f.next_vm + 1 < u64_mod → IsValid f → IsValid (step f call)
unfolding step
step-IsValid f creates room v = create_vm-IsValid f room v
step-IsValid f (forks source) room v = fork_vm-IsValid f source room v
step-IsValid f (removes vm) room v = remove_vm-IsValid f vm v
step-IsValid f (writes_file vm path offset bytes) room v =
    write_file-IsValid f vm path offset bytes v
step-IsValid f (writes_memory vm guest_address bytes) room v =
    write_memory-IsValid f vm guest_address bytes v

-- A call takes at most one VM identity.
next_vm-step : (f : ForkForest) (call : Call) → (step f call).next_vm ≤ f.next_vm + 1
unfolding step create_vm fork_vm fork_state remove_vm write_file write_memory
next_vm-step f creates = omega arith
next_vm-step f (forks source) = ground arith
next_vm-step f (removes vm) = ground arith
next_vm-step f (writes_file vm path offset bytes) = ground arith
next_vm-step f (writes_memory vm guest_address bytes) = ground arith

-- Any operations, failing or not, keep a valid forest valid while VM identities last.
pub run-IsValid :
    (calls : List Call) (f : ForkForest)
    → f.next_vm + length calls < u64_mod
    → IsValid f
    → IsValid (run f calls)
unfolding run
run-IsValid [] f room v = v
run-IsValid (call ∷ calls) f room v =
    run-IsValid calls (step f call) (omega (arith, next_vm-step f call))
      (step-IsValid f call (omega arith) v)

-- In every forest that fewer than 2^64 - 1 operations make from the empty one, two pages shown
-- anywhere with one identity are the same page.
pub identity_names_page :
    (calls : List Call)
    → length calls + 1 < u64_mod
    → (p q : Page) → Shows (run new calls) p
    → Shows (run new calls) q
    → p.id ≡ q.id
    → p ≡ q
identity_names_page calls room =
    let v = run-IsValid calls new (omega arith) new-IsValid in v.distinct.unique
