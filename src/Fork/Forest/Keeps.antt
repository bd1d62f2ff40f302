-- ===== src/Fork/Forest/Keeps.antt =====
-- The operations of a forest on its invariant.
use minidox.Prelude.{
  ℕ, ◌+◌, ◌<◌, ◌≡◌, ◌∙◌, sym, ◌⊎◌, inl, inr, List, [], some, arith, Option-cases, u64_mod, next_id,
}
use minidox.Prelude.Order.{bytes_ord, nat_ord, pair_ord}
use minidox.Prelude.Map
use minidox.Prelude.Map.{get, get-insert, get-remove}
use minidox.Overlay
use minidox.Overlay.Laws.{find-fork_source, find-fork_child}
use minidox.Fork
use minidox.Fork.{Page, PageBranch, FilePage, Error, page_size}
use minidox.Fork.Bytes.{IsWhole}
use minidox.Fork.Bytes.Write.{write-IsWhole}
use minidox.Fork.Forest.Pages.{InBranch, at, Distinct-sub, With, write-Distinct}
use minidox.Fork.Forest.{
  VmState, ForkForest, new, create_vm, fork_state, fork_vm, remove_vm, write_file, write_memory,
}
use minidox.Fork.Forest.Invariant.{
  Shows, in_memory, in_files, IsValid, InVm, inserted, inserted-Shows, inserted-IsValid,
}

module _ (f : ForkForest) where
  empty-not_InBranch : (page : Page) → InBranch Overlay.empty page → ⊥
  unfolding Overlay.find get
  empty-not_InBranch page (at key e) = cc

  empty-IsWhole : IsWhole Overlay.empty
  unfolding Overlay.find get
  empty-IsWhole = record { at = λ path page. tt }

  -- A new VM comes in.
  pub create_vm-IsValid : f.next_vm + 1 < u64_mod → IsValid f → IsValid (create_vm f).1
  unfolding create_vm
  create_vm-IsValid room v =
      inserted-IsValid f f.next_vm (record { memory = Overlay.empty; filesystem = Overlay.empty })
        (next_id f.next_vm) f.next_page v (omega arith) (omega arith)
        (Distinct-sub split v.distinct) empty-IsWhole empty-IsWhole
    where
      split :
          (page : Page)
          → Shows f page ⊎ (InBranch Overlay.empty page ⊎ InBranch Overlay.empty page)
          → Shows f page
      split page (inl h) = h
      split page (inr (inl h)) = absurd (empty-not_InBranch page h)
      split page (inr (inr h)) = absurd (empty-not_InBranch page h)

InBranch-fork_source :
    (b : PageBranch) (page : Page) → InBranch (Overlay.fork b).0 page → InBranch b page
InBranch-fork_source b page (at key e) = at key (sym (find-fork_source b key) ∙ e)

InBranch-fork_child :
    (b : PageBranch) (page : Page) → InBranch (Overlay.fork b).1 page → InBranch b page
InBranch-fork_child b page (at key e) = at key (sym (find-fork_child b key) ∙ e)

fork-IsWhole :
    (b : PageBranch) → IsWhole b → IsWhole (Overlay.fork b).0 × IsWhole (Overlay.fork b).1
fork-IsWhole b w = (
  record { at = λ path page. rw (find-fork_source b (path, page)) (w.at path page) },
  record { at = λ path page. rw (find-fork_child b (path, page)) (w.at path page) },
)

-- What a fork leaves in the source's place, and the child.
abbrev fork_source : VmState → VmState
fork_source state = record {
  memory = (Overlay.fork state.memory).0;
  filesystem = (Overlay.fork state.filesystem).0;
}

abbrev fork_child : VmState → VmState
fork_child state = record {
  memory = (Overlay.fork state.memory).1;
  filesystem = (Overlay.fork state.filesystem).1;
}

module _ (f : ForkForest) (vm : ℕ) (state : VmState) (e : get vm f.vms ≡ some state) where
  fork_source-Shows : (page : Page) → Shows f page ⊎ InVm (fork_source state) page → Shows f page
  fork_source-Shows page (inl h) = h
  fork_source-Shows page (inr (inl h)) =
      in_memory vm state e (InBranch-fork_source state.memory page h)
  fork_source-Shows page (inr (inr h)) =
      in_files vm state e (InBranch-fork_source state.filesystem page h)

  fork_child-Shows :
      (page : Page)
      → Shows (inserted f vm (fork_source state) f.next_vm f.next_page) page
        ⊎ InVm (fork_child state) page
      → Shows f page
  fork_child-Shows page (inl h) =
      fork_source-Shows page (inserted-Shows f vm (fork_source state) f.next_vm f.next_page page h)
  fork_child-Shows page (inr (inl h)) =
      in_memory vm state e (InBranch-fork_child state.memory page h)
  fork_child-Shows page (inr (inr h)) =
      in_files vm state e (InBranch-fork_child state.filesystem page h)

  fork_state-IsValid : f.next_vm + 1 < u64_mod → IsValid f → IsValid (fork_state f vm state)
  unfolding fork_state
  fork_state-IsValid room v =
      let w = v.whole vm state e in
      let memory_whole = fork-IsWhole state.memory w.0 in
      let files_whole = fork-IsWhole state.filesystem w.1 in
      inserted-IsValid (inserted f vm (fork_source state) f.next_vm f.next_page) f.next_vm
        (fork_child state) (next_id f.next_vm) f.next_page
        (inserted-IsValid f vm (fork_source state) f.next_vm f.next_page v (v.vms_below vm state e)
          (omega arith) (Distinct-sub fork_source-Shows v.distinct) memory_whole.0 files_whole.0)
        (omega arith) (omega arith) (Distinct-sub fork_child-Shows v.distinct) memory_whole.1
        files_whole.1

  write_file-Shows :
      (next : ℕ) (b : PageBranch) (page : Page)
      → Shows f page ⊎ InVm (record state { filesystem = b }) page
      → With (Shows f) b page
  write_file-Shows next b page (inl h) = inl h
  write_file-Shows next b page (inr (inl h)) = inl (in_memory vm state e h)
  write_file-Shows next b page (inr (inr h)) = inr h

  write_memory-Shows :
      (next : ℕ) (b : PageBranch) (page : Page)
      → Shows f page ⊎ InVm (record state { memory = b }) page
      → With (Shows f) b page
  write_memory-Shows next b page (inl h) = inl h
  write_memory-Shows next b page (inr (inl h)) = inr h
  write_memory-Shows next b page (inr (inr h)) = inl (in_files vm state e h)

  files-Shows : (page : Page) → With (Shows f) state.filesystem page → Shows f page
  files-Shows page (inl h) = h
  files-Shows page (inr h) = in_files vm state e h

  memory-Shows : (page : Page) → With (Shows f) state.memory page → Shows f page
  memory-Shows page (inl h) = h
  memory-Shows page (inr h) = in_memory vm state e h

pub fork_vm-IsValid :
    (f : ForkForest) (source : ℕ)
    → f.next_vm + 1 < u64_mod
    → IsValid f
    → IsValid (fork_vm f source).1
unfolding fork_vm
fork_vm-IsValid f source room v = elim (Option-cases (get source f.vms)) [
  | inl e ↦ rw (fork_vm, e) v
  | inr (state, e) ↦ rw (fork_vm, e) (fork_state-IsValid f source state e room v)
]

removed-Shows :
    (f : ForkForest) (vm : ℕ) (page : Page)
    → Shows (record f { vms = Map.remove vm f.vms }) page
    → Shows f page
removed-Shows f vm page (in_memory other entry e h) =
    in_memory other entry (ground (arith, get-remove vm other f.vms)) h
removed-Shows f vm page (in_files other entry e h) =
    in_files other entry (ground (arith, get-remove vm other f.vms)) h

pub remove_vm-IsValid : (f : ForkForest) (vm : ℕ) → IsValid f → IsValid (remove_vm f vm).1
unfolding remove_vm
remove_vm-IsValid f vm v = elim (Option-cases (get vm f.vms)) [
  | inl e ↦ rw (remove_vm, e) v
  | inr (state, e) ↦
      rw (remove_vm, e)
        (record {
          vms_below =
              λ other entry o. v.vms_below other entry (ground (arith, get-remove vm other f.vms));
          distinct = Distinct-sub (removed-Shows f vm) v.distinct;
          whole = λ other entry o. v.whole other entry (ground (arith, get-remove vm other f.vms));
        })
]

pub write_file-IsValid :
    (f : ForkForest) (vm : ℕ) (path : List ℕ) (offset : ℕ) (bytes : List ℕ)
    → IsValid f
    → IsValid (write_file f vm path offset bytes).1
unfolding write_file
write_file-IsValid f vm path offset bytes v = elim (Option-cases (get vm f.vms)) [
  | inl e ↦ rw (write_file, e) v
  | inr (state, e) ↦
      let r = Fork.write f.next_page path offset bytes state.filesystem in
      let w = v.whole vm state e in
      rw (write_file, e)
        (inserted-IsValid f vm (record state { filesystem = r.2 }) f.next_vm r.1 v
          (v.vms_below vm state e) (omega arith)
          (Distinct-sub (write_file-Shows f vm state e r.1 r.2) (
            write-Distinct (Shows f) f.next_page path offset bytes state.filesystem
              (Distinct-sub (files-Shows f vm state e) v.distinct)))
          w.0 (write-IsWhole f.next_page path offset bytes state.filesystem w.1))
]

pub write_memory-IsValid :
    (f : ForkForest) (vm guest_address : ℕ) (bytes : List ℕ)
    → IsValid f
    → IsValid (write_memory f vm guest_address bytes).1
unfolding write_memory
write_memory-IsValid f vm guest_address bytes v = elim (Option-cases (get vm f.vms)) [
  | inl e ↦ rw (write_memory, e) v
  | inr (state, e) ↦
      let r = Fork.write f.next_page [] guest_address bytes state.memory in
      let w = v.whole vm state e in
      rw (write_memory, e)
        (inserted-IsValid f vm (record state { memory = r.2 }) f.next_vm r.1 v
          (v.vms_below vm state e) (omega arith)
          (Distinct-sub (write_memory-Shows f vm state e r.1 r.2) (
            write-Distinct (Shows f) f.next_page [] guest_address bytes state.memory
              (Distinct-sub (memory-Shows f vm state e) v.distinct)))
          (write-IsWhole f.next_page [] guest_address bytes state.memory w.0) w.1)
]

pub new-IsValid : IsValid new
unfolding get
new-IsValid = record {
  vms_below = λ vm state e. cc;
  distinct = record {
    below = λ p h. absurd (none_shown p h);
    unique = λ p q hp. absurd (none_shown p hp);
  };
  whole = λ vm state e. cc;
}
  where
    none_shown : (p : Page) → Shows new p → ⊥
    none_shown p (in_memory vm state e h) = cc
    none_shown p (in_files vm state e h) = cc
