-- ===== src/Vmm/Ram/Forked.antt =====
-- A fork of a memory: the source and the child read as the source did, page by page.
use minidox.Prelude.{
  ℕ, ◌+◌, ◌<◌, ◌≡◌, refl, ◌∙◌, ap, sym, subst, Bool, true, false, List, [], ok, if◌then◌else◌,
  u64_mod, length, arith,
}
use minidox.Prelude.Order.{nat_ord, pair_ord}
use minidox.Prelude.Map.{Set}
use minidox.Prelude.Step.Hoare.{Hoare, Post, and_then, gets_lem, modify_lem, strengthen, ok_leaves}
use minidox.Vmm.Ram.{RamHost, KvmGuestRam, Ram, page_bytes}
use minidox.Vmm.Ram.Fork.{
  RamForkPreparation, collect, finish_seal, finish_copies, finish_shared, finish_prepared_pages,
  branch_of, fork_pages, fork_dirty_pages,
}
use minidox.Vmm.Ram.Runs.{Any}
use minidox.Vmm.Ram.Seal.{IsValid, Covers, Saved, finish_seal-Saved}
use minidox.Vmm.Ram.Prepared.{
  check_pages_lem, Here, Prepared, prepare_fork-Prepared, finish_copies-Saved,
}
use minidox.Vmm.Ram.Children.{
  Saved-reads, Saved-IsValid, Sealed, Forked, Saved-seal, materialize-Forked,
}

module _ (r : KvmGuestRam) (h : RamHost) where
  module _ (v : IsValid r h) (room : h.next_generation_id + 1 < u64_mod) (dirty : Set ℕ)
      (c : Covers dirty r) where
    same_preparation :
        (preparation : RamForkPreparation) (m : Ram)
        → Prepared r h v room preparation m
        → preparation.seals_existing_generation ≡ false
        → preparation ≡ record {
          generation = h.next_generation_id;
          pages = [];
          seals_existing_generation = false;
        }
    same_preparation preparation m p e = let q = p.copies e in cc (q.0, q.1, e)

    finish_private-Saved :
        (preparation : RamForkPreparation) (is_private : Bool)
        → Hoare
            (λ m.
              (Prepared r h v room preparation m × (is_private ≡ true))
              × (preparation.seals_existing_generation ≡ false))
            (if is_private then finish_copies preparation dirty else finish_shared)
            (λ _. Saved r h)
            Any
    finish_private-Saved preparation false = record { run = λ m p. absurd (ground arith) }
    finish_private-Saved preparation true = record {
      run = λ m p.
          let q = p.0.0.copies p.1 in
          subst (λ x. Post (λ _. Saved r h) Any (finish_copies x dirty m))
            (sym (same_preparation preparation m p.0.0 p.1))
            ((finish_copies-Saved r h v room dirty c h.next_generation_id).run m (record {
              same_memory = p.0.0.same_memory;
              same_files = p.0.0.same_files;
              begun = refl;
              one_generation = q.2;
            }));
    }

    finish_branch-Saved :
        (preparation : RamForkPreparation) (is_private b : Bool)
        → preparation.seals_existing_generation ≡ b
        → Hoare
            (λ m. Prepared r h v room preparation m × (is_private ≡ true))
            (if b
              then finish_seal dirty
              else if is_private
              then finish_copies preparation dirty
              else finish_shared)
            (λ _. Saved r h)
            Any
    finish_branch-Saved preparation is_private true e = record {
      run = λ m p.
          let q = p.0.seals e in
          (finish_seal-Saved r h v q.0 dirty c).run m (p.0.same_memory, p.0.same_files, q.1);
    }
    finish_branch-Saved preparation is_private false e =
        strengthen (finish_private-Saved preparation is_private) λ m p. (p, e)

    finish-Sealed :
        (preparation : RamForkPreparation)
        → Hoare
            (Prepared r h v room preparation)
            (finish_prepared_pages preparation dirty)
            (λ branch m. Sealed r h m × (branch ≡ branch_of m.0))
            Any
    unfolding finish_prepared_pages
    finish-Sealed preparation =
        and_then
          (gets_lem _ {Q = λ b m. Prepared r h v room preparation m × (b ≡ true)}
            λ m p. (p, ap (λ q. q.is_private) p.same_memory ∙ v.private_map))
          λ is_private.
            and_then
              (finish_branch-Saved preparation is_private preparation.seals_existing_generation
                refl)
              λ _.
                and_then (modify_lem _ {Q = Sealed r h} λ m p. Saved-seal r h m p)
                  λ _. gets_lem _ λ m p. (p, refl)

    fork_pages-Forked : Hoare (Here r h v room) (fork_pages dirty) (Forked r h) Any
    unfolding fork_pages
    fork_pages-Forked =
        and_then (prepare_fork-Prepared r h v room) λ preparation.
          and_then (finish-Sealed preparation) λ branch. materialize-Forked r h branch

  fork_dirty_pages-Forked :
      (v : IsValid r h)
      → h.next_generation_id + 1 < u64_mod
      → (pages : List ℕ) → Covers (collect pages r.host_dirty) r
      → (child : KvmGuestRam) → (fork_dirty_pages pages (r, h)).0 ≡ ok child
      → Forked r h child (fork_dirty_pages pages (r, h)).1
  unfolding fork_dirty_pages
  fork_dirty_pages-Forked v room pages c child e = ok_leaves forks (r, h) child here e
    where
      forks : Hoare (Here r h v room) (fork_dirty_pages pages) (Forked r h) Any
      forks =
          and_then
            (gets_lem _ {Q = λ host_dirty m. Here r h v room m × (host_dirty ≡ r.host_dirty)}
              λ m p. (p, ap (λ q. q.host_dirty) p.same_memory))
            λ host_dirty. and_then (check_pages_lem pages) λ _. record {
              run = λ m p.
                  subst (λ d. Post (Forked r h) Any (fork_pages (collect pages d) m)) (sym p.1)
                    ((fork_pages-Forked v room (collect pages r.host_dirty) c).run m p.0);
            }

      here : Here r h v room (r, h)
      here = record { same_memory = refl; same_files = refl; same_generation = refl }

module _ (r : KvmGuestRam) (h : RamHost) (v : IsValid r h)
    (room : h.next_generation_id + 1 < u64_mod) (pages : List ℕ)
    (c : Covers (collect pages r.host_dirty) r) (child : KvmGuestRam)
    (forks : (fork_dirty_pages pages (r, h)).0 ≡ ok child) where
  -- After a successful fork of a valid memory, whose private copies are all in pages that are
  -- marked as written or passed as dirty, with room in the generation counter, the memory and its
  -- child both read on every page as the memory did before.
  pub page_bytes-fork_dirty_pages :
      (index : ℕ)
      → index < length r.pages
      → let m = (fork_dirty_pages pages (r, h)).1 in
        (page_bytes m.0 m.1 index ≡ page_bytes r h index)
        × (page_bytes child m.1 index ≡ page_bytes r h index)
  page_bytes-fork_dirty_pages index below =
      let q = fork_dirty_pages-Forked r h v room pages c child forks in
      let m = (fork_dirty_pages pages (r, h)).1 in
      (
        Saved-reads r h m index q.source.saved below,
        Saved-reads r h (child, m.1) index q.copied.saved below,
      )

  -- A successful fork of a valid memory, whose private copies are all in pages that are marked as
  -- written or passed as dirty, with room in the generation counter, leaves the memory and its
  -- child valid and without private copies.
  pub fork_dirty_pages-IsValid :
      let m = (fork_dirty_pages pages (r, h)).1 in
      (IsValid m.0 m.1 × Covers [] m.0) × (IsValid child m.1 × Covers [] child)
  fork_dirty_pages-IsValid =
      let q = fork_dirty_pages-Forked r h v room pages c child forks in
      let m = (fork_dirty_pages pages (r, h)).1 in
      (
        (
          Saved-IsValid r h m q.source.saved q.source.is_sealed,
          record { clean = λ i _. q.source.saved.bare i },
        ),
        (
          Saved-IsValid r h (child, m.1) q.copied.saved q.copied.is_sealed,
          record { clean = λ i _. q.copied.saved.bare i },
        ),
      )
