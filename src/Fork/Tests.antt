-- ===== src/Fork/Tests.antt =====
-- A run of crates/minidox-fork/src/lib.rs on small inputs.
use minidox.Prelude.{copy_from_slice, ℕ, ◌≡◌, refl, List, [], ◌∷◌, ◌≢◌, ok, arith, ◌≤◌}
use minidox.Overlay
use minidox.Overlay.{find, find_in}
use minidox.Prelude.Map.{get, insert}
use minidox.Prelude.Order.{bytes_ord, nat_ord, pair_ord}
use minidox.Fork.Forest.Pages.{at}
use minidox.Fork.{zero_page, write_page, contents, Page, PageBranch, write, read, write_loop}
use minidox.Fork.Bytes.{byte_at, IsWhole}
use minidox.Fork.Bytes.Write.{byte_at-write, byte_at-write_outside, result-write, write-IsWhole}
use minidox.Fork.Bytes.Read.{shown, read-shown, read-write}
use minidox.Fork.Forest.{
  ForkForest, new, create_vm, fork_vm, fork_state, write_memory, read_file, read_memory,
}
use minidox.Fork.Forest.Isolation.{reads-fork_vm, reads-fork_vm_child}
use minidox.Fork.Forest.Invariant.{in_memory, IsValid, Shows}
use minidox.Fork.Forest.Keeps.{new-IsValid}
use minidox.Fork.Forest.Run.{
  step, Call, creates, forks, writes_file, writes_memory, run, run-IsValid, identity_names_page,
}
use minidox.Fork.Accounting.{account_pages}
use minidox.Fork.Accounting.Laws.{shared-le-resident}

abbrev name : List ℕ
name = 97 ∷ []

abbrev two_bytes : List ℕ
two_bytes = 7 ∷ 9 ∷ []

-- The bytes stand on both sides of a page boundary.
abbrev start : ℕ
start = 4095

abbrev blank : PageBranch
blank = Overlay.empty

blank-IsWhole : IsWhole blank
unfolding find find_in get
blank-IsWhole = record { at = λ path page. tt }

write_succeeds : (write 1 name start two_bytes blank).0 ≡ ok tt
unfolding write write_loop
write_succeeds = refl

byte_at-write_example : byte_at (write 1 name start two_bytes blank).2 name 4096 ≡ 9
byte_at-write_example =
    byte_at-write 1 name start two_bytes blank blank-IsWhole write_succeeds name 4096

result-write_example : (write 1 name start two_bytes blank).0 ≡ ok tt
result-write_example = result-write 1 name start two_bytes blank blank-IsWhole (ground arith)

byte_at-write_outside_example :
    byte_at (write 1 name start two_bytes blank).2 name 4094 ≡ byte_at blank name 4094
byte_at-write_outside_example =
    byte_at-write_outside 1 name start two_bytes blank blank-IsWhole name 4094 refl

read-shown_example :
    read name start 2 (write 1 name start two_bytes blank).2
    ≡ ok (shown (write 1 name start two_bytes blank).2 name start 2)
read-shown_example =
    read-shown name start 2 (write 1 name start two_bytes blank).2
      (write-IsWhole 1 name start two_bytes blank blank-IsWhole)

read-write_example : read name start 2 (write 1 name start two_bytes blank).2 ≡ ok two_bytes
read-write_example = read-write 1 name start two_bytes blank blank-IsWhole write_succeeds

-- VM 1 writes, VM 2 is its child.
abbrev calls : List Call
calls = creates ∷ writes_file 1 name start two_bytes ∷ forks 1 ∷ writes_memory 2 0 two_bytes ∷ []

abbrev one_vm : ForkForest
one_vm = (create_vm new).1

fork_succeeds : (fork_vm one_vm 1).0 ≡ ok 2
unfolding fork_vm create_vm get insert
fork_succeeds = refl

old_id : 1 ≢ one_vm.next_vm
unfolding create_vm
old_id = ground arith

reads-fork_vm_example :
    (read_file (fork_vm one_vm 1).1 1 name start 2 ≡ read_file one_vm 1 name start 2)
    × (read_memory (fork_vm one_vm 1).1 1 start 2 ≡ read_memory one_vm 1 start 2)
reads-fork_vm_example = reads-fork_vm one_vm 1 fork_succeeds 1 old_id name start 2

reads-fork_vm_child_example :
    (read_file (fork_vm one_vm 1).1 2 name start 2 ≡ read_file one_vm 1 name start 2)
    × (read_memory (fork_vm one_vm 1).1 2 start 2 ≡ read_memory one_vm 1 start 2)
reads-fork_vm_child_example = reads-fork_vm_child one_vm 1 fork_succeeds name start 2

abbrev two_vms : ForkForest
two_vms = (fork_vm one_vm 1).1

run-IsValid_example : IsValid (run new calls)
run-IsValid_example = run-IsValid calls new (ground arith) new-IsValid

shared-le-resident_example :
    (account_pages ((write 1 name start two_bytes blank).2 ∷ blank ∷ [])).shared_pages
    ≤ (account_pages ((write 1 name start two_bytes blank).2 ∷ blank ∷ [])).resident_pages
shared-le-resident_example =
    shared-le-resident ((write 1 name start two_bytes blank).2 ∷ blank ∷ [])

-- A page that the child shares with its source.
abbrev sharing : List Call
sharing = creates ∷ writes_memory 1 0 two_bytes ∷ forks 1 ∷ []

abbrev written : PageBranch
written = (write 1 [] 0 two_bytes blank).2

abbrev shared_page : Page
shared_page = record { id = 1; bytes = copy_from_slice zero_page 0 two_bytes }

source-Shows : Shows (run new sharing) shared_page
unfolding run step create_vm write_memory fork_vm fork_state write write_loop write_page
    Overlay.fork Overlay.write contents get insert find find_in
source-Shows =
    in_memory 1 (record { memory = (Overlay.fork written).0; filesystem = (Overlay.fork blank).0 })
      refl (at ([], 0) refl)

child-Shows : Shows (run new sharing) shared_page
unfolding run step create_vm write_memory fork_vm fork_state write write_loop write_page
    Overlay.fork Overlay.write contents get insert find find_in
child-Shows =
    in_memory 2 (record { memory = (Overlay.fork written).1; filesystem = (Overlay.fork blank).1 })
      refl (at ([], 0) refl)

identity_names_page_example : shared_page ≡ shared_page
identity_names_page_example =
    identity_names_page sharing (ground arith) shared_page shared_page source-Shows child-Shows refl
