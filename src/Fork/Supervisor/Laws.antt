-- ===== src/Fork/Supervisor/Laws.antt =====
-- Forks of a supervised VM: the table of VMs, and the memory that each reads.
use minidox.Prelude.{
  ℕ, ◌≡◌, ◌≢◌, refl, Option, none, some, [], Result, ok, err, ok_or, map_err, if◌then◌else◌, ◌==◌,
  arith, Option-cases, inl, inr,
}
use minidox.Prelude.Order.{nat_ord}
use minidox.Prelude.Map
use minidox.Prelude.Map.{Map, get, get-insert}
use minidox.Prelude.Step.{Step}
use minidox.Prelude.Step.Hoare.{Hoare, Post, and_then, pure_lem, modify_lem, gets_lem, ok_leaves}
use minidox.Overlay
use minidox.Cache.{CacheError}
use minidox.Cache.Store.{ForkableNodeStore}
use minidox.Cache.State.{State}
use minidox.Fork
use minidox.Fork.{cache}
use minidox.Fork.Forest.Isolation.{read-fork}
use minidox.Fork.Supervisor.{
  SupervisedVm, Supervisor, Failure, error, find_vm, with_cache, fork_vm, read_memory,
}

-- The VMs and the counter of their identities are those of `origin`.
record Unchanged {S W I : Type 0} (origin s : Supervisor S W I) : Type 0 where
  vms : s.vms ≡ origin.vms
  next : s.next_vm ≡ origin.next_vm

-- The table of VMs after a fork of `state`.
abbrev forked_vms :
    {S W I : Type 0}
    → Supervisor S W I
    → (source : ℕ) → SupervisedVm
    → (child_filesystem : ℕ) → Map ℕ SupervisedVm
forked_vms origin source state child_filesystem =
    Map.insert origin.next_vm
      (record {
        memory = (Overlay.fork state.memory).1;
        filesystem_cache = state.filesystem_cache;
        filesystem_branch = child_filesystem;
      })
      (Map.insert source (record state { memory = (Overlay.fork state.memory).0 }) origin.vms)

record Forked {S W I : Type 0} (origin : Supervisor S W I) (source child : ℕ) (s : Supervisor S W I)
    : Type 0 where
  named : child ≡ origin.next_vm
  state : SupervisedVm
  child_filesystem : ℕ
  found : get source origin.vms ≡ some state
  table : s.vms ≡ forked_vms origin source state child_filesystem

get-forked_vms :
    {S W I : Type 0} (origin : Supervisor S W I) (source : ℕ) (state : SupervisedVm)
    (child_filesystem vm : ℕ)
    → get vm (forked_vms origin source state child_filesystem) ≡ (
        if vm == origin.next_vm
        then some (record {
          memory = (Overlay.fork state.memory).1;
          filesystem_cache = state.filesystem_cache;
          filesystem_branch = child_filesystem;
        })
        else if vm == source
        then some (record state { memory = (Overlay.fork state.memory).0 })
        else get vm origin.vms)
get-forked_vms origin source state child_filesystem vm =
    rw (get-insert origin.next_vm vm) (rw (get-insert source vm) refl)

module _ {S W I : Type 0} {origin : Supervisor S W I} where
  find_vm_lem :
      (vm : ℕ)
      → Hoare
          (Unchanged origin)
          (find_vm vm)
          (λ state s. Unchanged origin s × (get vm origin.vms ≡ some state))
          (Unchanged origin)
  unfolding find_vm
  find_vm_lem vm = record { run = λ s p. by_found s p (get vm s.vms) refl }
    where
      by_found :
          (s : Supervisor S W I)
          → Unchanged origin s
          → (r : Option SupervisedVm) → get vm s.vms ≡ r
          → Post
              (λ state s. Unchanged origin s × (get vm origin.vms ≡ some state))
              (Unchanged origin)
              (ok_or r (error (Fork.vm_not_found vm)), s)
      by_found s p none e = p
      by_found s p (some state) e = (p, rw p.vms at e)

  with_cache-Unchanged :
      {A F : Type 0} (id : ℕ) (operation : Step (State S W I) CacheError A)
      → Hoare
          (λ s. Unchanged origin s × F)
          (with_cache id operation)
          (λ _ s. Unchanged origin s × F)
          (Unchanged origin)
  unfolding with_cache
  with_cache-Unchanged {A} {F} id operation = record {
    run = λ s p. elim (Option-cases (get id s.filesystems)) [
      | inl e ↦ rw (with_cache, e) p.0
      | inr (c, e) ↦
          rw (with_cache, e)
            (by_result s p (operation (record c { host = s.host; world = s.world })))
    ];
  }
    where
      by_result :
          (s : Supervisor S W I)
          → Unchanged origin s × F
          → (r : Result CacheError A × State S W I)
          → Post {A = A}
              (λ _ s. Unchanged origin s × F)
              (Unchanged origin)
              (
                map_err (λ e. error (cache e)) r.0,
                record s {
                  filesystems = Map.insert id r.1 s.filesystems;
                  host = r.1.host;
                  world = r.1.world;
                },
              )
      by_result s p (ok a, c) = (record { vms = p.0.vms; next = p.0.next }, p.1)
      by_result s p (err e, c) = record { vms = p.0.vms; next = p.0.next }

  fork_vm-Forked :
      (store : ForkableNodeStore S W I) (source : ℕ)
      → Hoare (Unchanged origin) (fork_vm store source) (Forked origin source) (Unchanged origin)
  unfolding fork_vm
  fork_vm-Forked store source = and_then (find_vm_lem source) λ state.
      and_then (with_cache-Unchanged state.filesystem_cache _) λ child_filesystem.
        and_then
          (gets_lem _
            {Q = λ child s.
              (Unchanged origin s × (get source origin.vms ≡ some state))
              × (child ≡ origin.next_vm)}
            λ s p. (p, p.0.next))
          λ child.
            and_then
              (modify_lem _ {Q = Forked origin source child} λ s p. record {
                named = p.1;
                state = state;
                child_filesystem = child_filesystem;
                found = p.0.1;
                table = rw (p.0.0.next, p.0.0.vms) refl;
              })
              λ _. pure_lem _ λ s p. p

module _ {S W I : Type 0} (store : ForkableNodeStore S W I) (source : ℕ)
    (s : Supervisor S W I) where
  -- A fork of a supervised VM that fails leaves the VMs and the next VM identity as they were.
  pub vms-fork_vm :
      (e : Failure)
      → (fork_vm store source s).0 ≡ err e
      → ((fork_vm store source s).1.vms ≡ s.vms) × ((fork_vm store source s).1.next_vm ≡ s.next_vm)
  vms-fork_vm e failed =
      by_result (fork_vm store source s)
        ((fork_vm-Forked {origin = s} store source).run s (record { vms = refl; next = refl }))
        failed
    where
      by_result :
          (r : Result Failure ℕ × Supervisor S W I)
          → Post (Forked s source) (Unchanged s) r
          → r.0 ≡ err e
          → (r.1.vms ≡ s.vms) × (r.1.next_vm ≡ s.next_vm)
      by_result (ok child, t) q d = absurd (ground arith)
      by_result (err x, t) q d = (q.vms, q.next)

  -- A successful fork of a supervised VM takes the next identity for the child, whose memory
  -- reads as that of the source, and leaves what every other VM reads from its memory.
  pub memory-fork_vm :
      (child : ℕ)
      → (fork_vm store source s).0 ≡ ok child
      → (child ≡ s.next_vm)
        × ((offset len : ℕ)
            → read_memory (fork_vm store source s).1 child offset len
              ≡ read_memory s source offset len)
        × ((vm offset len : ℕ)
            → vm ≢ child
            → read_memory (fork_vm store source s).1 vm offset len ≡ read_memory s vm offset len)
  unfolding read_memory
  memory-fork_vm child done =
      let f =
        ok_leaves (fork_vm-Forked {origin = s} store source) s child
          (record { vms = refl; next = refl }) done in
      (
        f.named,
        λ offset len.
            rw (read_memory, f.table, get-forked_vms s source f.state f.child_filesystem child)
              (ground (arith, f.found, f.named, read-fork f.state.memory [] offset len)),
        λ vm offset len other.
            rw (read_memory, f.table, get-forked_vms s source f.state f.child_filesystem vm)
              (ground (arith, f.found, f.named, read-fork f.state.memory [] offset len)),
      )
