-- ===== src/Vmm/Ram/Live.antt =====
-- A fork whose pages were copied while the guest still ran: `prepare_fork`, writes of the guest, and
-- `finish_prepared_branch` once it is paused.
use minidox.Prelude.{
  ℕ, ◌+◌, ◌*◌, ◌<◌, ◌≡◌, refl, ◌∙◌, ap, sym, subst, Bool, true, false, List, [], ok, if◌then◌else◌,
  length, u64_mod, arith,
}
use minidox.Prelude.Order.{nat_ord, pair_ord}
use minidox.Prelude.Map.{Map, Set, get, keys, contains_key}
use minidox.Prelude.Step.Hoare.{Hoare, Post, and_then, gets_lem, modify_lem, strengthen, ok_leaves}
use minidox.Vmm.{Error}
use minidox.Vmm.Ram.{RamPage, RamHost, KvmGuestRam, Ram, page_bytes, ram_page_size}
use minidox.Vmm.Ram.Fork.{
  RamForkPreparation, RamForkBranch, collect, prepare_fork, finish_prepared_branch,
  finish_prepared_pages, finish_seal, finish_copies, finish_shared, branch_of, materialize,
}
use minidox.Vmm.Ram.Runs.{Any}
use minidox.Vmm.Ram.Seal.{IsValid, Covers, Saved, among-keys}
use minidox.Vmm.Ram.Copies.{Copying, same_bytes}
use minidox.Vmm.Ram.Marks.{contains_key-collect}
use minidox.Vmm.Ram.Prepared.{check_pages_lem, recopied-Saved}
use minidox.Vmm.Ram.Early.{Early, prepare_fork-Early}
use minidox.Vmm.Ram.Children.{Saved-reads, Sealed, Forked, Saved-seal, materialize-Forked}

-- The guest ran from `r` to `now`: it wrote to pages of the set at most.
pub record Ran (written : Set ℕ) (r now : KvmGuestRam) : Type 0 where
  pub same_memory : record now { copies = r.copies; host_dirty = r.host_dirty } ≡ r
  pub unwritten :
      (index : ℕ) → contains_key index written ≡ false → get index now.copies ≡ get index r.copies

Ran-IsValid :
    (written : Set ℕ) (r now : KvmGuestRam) (h : RamHost)
    → Ran written r now
    → IsValid r h
    → IsValid now h
Ran-IsValid written r now h p v =
    subst (λ q. IsValid (record q { copies = now.copies; host_dirty = now.host_dirty }) h)
      (sym p.same_memory)
      (record { backed = v.backed; private_map = v.private_map; old = v.old; apart = v.apart })

module _ (r : KvmGuestRam) (h : RamHost) (v : IsValid r h) (written : Set ℕ) (now : KvmGuestRam)
    (v' : IsValid now h) (ran : Ran written r now) where
  -- The copies that were made, with the pages written since to be copied again.
  Ran-Copying :
      (early late : Set ℕ) (g next : ℕ) (prepared : Map ℕ RamPage) (m : Ram)
      → ((i : ℕ)
          → contains_key i late ≡ true
          → contains_key i written ≡ false
          → contains_key i early ≡ true)
      → Copying r h v early g next prepared [] m
      → Copying now h v' late g next prepared (keys written) (now, m.1)
  unfolding page_bytes
  Ran-Copying early late g next prepared m cover p = record {
    same_memory = refl;
    one_generation = p.one_generation;
    new_generation = p.new_generation;
    ordered = p.ordered;
    placed = p.placed;
    apart = p.apart;
    other = p.other;
    saved =
        λ i page e free. p.saved i page e refl ∙ same_page i (sym (among-keys i written) ∙ free);
    covered = λ i here free. p.covered i (cover i here (sym (among-keys i written) ∙ free)) refl;
  }
    where
      same_page : (i : ℕ) → contains_key i written ≡ false → page_bytes r h i ≡ page_bytes now h i
      same_page i free =
          ground (arith, ran.unwritten i free, ap (λ q. get i q.mapped) ran.same_memory)

module _ (r : KvmGuestRam) (h : RamHost) (v : IsValid r h) (sealed : r.sealed ≡ true)
    (room : h.next_generation_id + 1 < u64_mod) (pages : List ℕ) (preparation : RamForkPreparation)
    (prepares : (prepare_fork pages (r, h)).0 ≡ ok preparation) (now : KvmGuestRam)
    (dirtied : List ℕ) (ran : Ran (collect dirtied now.host_dirty) r now)
    (c : Covers (collect pages (collect dirtied now.host_dirty)) now) where
  now_valid : IsValid now h
  now_valid = Ran-IsValid (collect dirtied now.host_dirty) r now h ran v

  early : Early r h v room pages preparation (prepare_fork pages (r, h)).1
  early =
      ok_leaves (prepare_fork-Early r h v room pages sealed) (r, h) preparation
        (record { same_memory = refl; same_files = refl; same_generation = refl }) prepares

  copying :
      Copying now h now_valid
        (collect pages (collect dirtied now.host_dirty))
        preparation.generation
        (length (keys preparation.pages) * ram_page_size)
        preparation.pages
        (keys (collect dirtied now.host_dirty))
        (now, (prepare_fork pages (r, h)).1.1)
  copying =
      Ran-Copying r h v (collect dirtied now.host_dirty) now now_valid ran (collect pages [])
        (collect pages (collect dirtied now.host_dirty)) preparation.generation
        (length (keys preparation.pages) * ram_page_size) preparation.pages
        (prepare_fork pages (r, h)).1
        (λ i late free. ground (
          arith,
          contains_key-collect pages i (collect dirtied now.host_dirty),
          contains_key-collect pages i [],
        ))
        early.copies

  -- The copies that were made early, before the pages written since are copied again.
  Waiting : Ram → Type 0
  Waiting =
      Copying now h now_valid (collect pages (collect dirtied now.host_dirty))
        preparation.generation (length (keys preparation.pages) * ram_page_size) preparation.pages
        (keys (collect dirtied now.host_dirty))

  Saving : RamForkBranch → Ram → Type 0
  Saving branch m = Sealed now h m × (branch ≡ branch_of m.0)

  finish_private-Saved :
      (is_private : Bool)
      → Hoare {E = Error}
          (λ m. Waiting m × (is_private ≡ true))
          (if is_private
            then finish_copies preparation (collect dirtied now.host_dirty)
            else finish_shared)
          (λ _. Saved now h)
          Any
  unfolding finish_copies Waiting
  finish_private-Saved false = record { run = λ m p. absurd (ground arith) }
  finish_private-Saved true =
      strengthen
        (recopied-Saved now h now_valid room (collect pages (collect dirtied now.host_dirty)) c
          preparation.generation (keys (collect dirtied now.host_dirty))
          (length (keys preparation.pages) * ram_page_size) preparation.pages)
        λ m p. p.0

  finish_branch-Saved :
      (is_private b : Bool)
      → preparation.seals_existing_generation ≡ b
      → Hoare {E = Error}
          (λ m. Waiting m × (is_private ≡ true))
          (if b
            then finish_seal (collect dirtied now.host_dirty)
            else if is_private
            then finish_copies preparation (collect dirtied now.host_dirty)
            else finish_shared)
          (λ _. Saved now h)
          Any
  finish_branch-Saved is_private true e = absurd (ground (arith, early.is_copy))
  finish_branch-Saved is_private false e = finish_private-Saved is_private

  finish-Saving :
      Hoare Waiting (finish_prepared_pages preparation (collect dirtied now.host_dirty)) Saving Any
  unfolding finish_prepared_pages Waiting Saving
  finish-Saving =
      and_then
        (gets_lem _ {Q = λ is_private m. Waiting m × (is_private ≡ true)}
          λ m p. (p, ap (λ q. q.is_private) p.same_memory ∙ now_valid.private_map))
        λ is_private.
          and_then (finish_branch-Saved is_private preparation.seals_existing_generation refl) λ _.
            and_then (modify_lem _ {Q = Sealed now h} λ m p. Saved-seal now h m p)
              λ _. gets_lem _ λ m p. (p, refl)

  finish_branch-Saving : Hoare Waiting (finish_prepared_branch preparation dirtied) Saving Any
  unfolding finish_prepared_branch Waiting
  finish_branch-Saving =
      and_then
        (gets_lem _ {Q = λ host_dirty m. Waiting m × (host_dirty ≡ now.host_dirty)}
          λ m p. (p, ap (λ q. q.host_dirty) p.same_memory))
        λ host_dirty. and_then (check_pages_lem dirtied) λ _. record {
          run = λ m p.
              subst (λ d. Post Saving Any (finish_prepared_pages preparation (collect dirtied d) m))
                (sym p.1) (finish-Saving.run m p.0);
        }

  module _ (branch : RamForkBranch)
      (finishes : (finish_prepared_branch preparation dirtied
          (now, (prepare_fork pages (r, h)).1.1)).0
        ≡ ok branch)
      (child : KvmGuestRam)
      (materializes : (materialize branch
          (finish_prepared_branch preparation dirtied (now, (prepare_fork pages (r, h)).1.1)).1).0
        ≡ ok child) where
    forked :
        Forked now h child
          (materialize branch
            (finish_prepared_branch preparation dirtied (now, (prepare_fork pages (r, h)).1.1)).1).1
    unfolding Saving Waiting
    forked =
        ok_leaves (materialize-Forked now h branch)
          (finish_prepared_branch preparation dirtied (now, (prepare_fork pages (r, h)).1.1)).1
          child
          (ok_leaves finish_branch-Saving (now, (prepare_fork pages (r, h)).1.1) branch copying
            finishes)
          materializes

    -- When the pages of a valid memory that was forked before are copied while its guest runs,
    -- with room in the generation counter, then the guest writes to pages that are logged or
    -- marked at most, and all private copies are in pages copied early or written since, a branch
    -- that is finished and made a memory, all with success, reads as the memory did when it was
    -- paused, and so does the memory.
    pub page_bytes-finish_prepared_branch :
        (index : ℕ)
        → index < length now.pages
        → let host = (prepare_fork pages (r, h)).1.1 in
          let m =
            (materialize branch (finish_prepared_branch preparation dirtied (now, host)).1).1 in
          (page_bytes m.0 m.1 index ≡ page_bytes now host index)
          × (page_bytes child m.1 index ≡ page_bytes now host index)
    page_bytes-finish_prepared_branch index below =
        let host = (prepare_fork pages (r, h)).1.1 in
        let m = (materialize branch (finish_prepared_branch preparation dirtied (now, host)).1).1 in
        let same =
          same_bytes now h now_valid (collect pages (collect dirtied now.host_dirty))
            preparation.generation (length (keys preparation.pages) * ram_page_size)
            preparation.pages (keys (collect dirtied now.host_dirty)) (now, host) index copying in
        (
          Saved-reads now h m index forked.source.saved below ∙ sym same,
          Saved-reads now h (child, m.1) index forked.copied.saved below ∙ sym same,
        )
