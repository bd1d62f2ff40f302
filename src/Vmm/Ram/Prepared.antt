-- ===== src/Vmm/Ram/Prepared.antt =====
-- `prepare_fork` without pages, and `finish_copies` on what it leaves: the copies of a later fork.
use minidox.Prelude.{
  ℕ, Option, ◌+◌, ◌<◌, ◌≡◌, refl, ap, sym, Bool, true, false, List, [], ◌∷◌, if◌then◌else◌, u64_mod,
  arith,
}
use minidox.Prelude.Order.{nat_ord, pair_ord}
use minidox.Prelude.Map.{Map, Set, get, keys}
use minidox.Prelude.Step.{◌>>◌, modify, ◌>>=◌}
use minidox.Prelude.Step.Hoare.{
  Hoare, and_then, pure_lem, gets_lem, guard_lem, modify_lem, weaken, strengthen,
}
use minidox.Vmm.Ram.{RamPage, RamHost, KvmGuestRam, Ram}
use minidox.Vmm.Ram.Mapping.{map_selected_pages}
use minidox.Vmm.Ram.Fork.{
  recopy_pages, replace_pages, RamForkPreparation, zeroed, collect, check_pages, copy_back,
  prepare_pages, key_set, prepare_seal, prepare_copies, prepare_fork, finish_copies,
}
use minidox.Vmm.Ram.Runs.{Any, map_list-Remapped, system_call_lem, page_at_lem}
use minidox.Vmm.Ram.Seal.{IsValid, Covers, Saved, among-keys}
use minidox.Vmm.Ram.Copies.{Copying, recopy_pages-Copying}
use minidox.Vmm.Ram.Replaced.{start-Remapped, replaced, Remapped-Saved}

-- A method that only looks at the memory.
pub check_pages_lem : {P : Ram → Type 0} (pages : List ℕ) → Hoare P (check_pages pages) (λ _. P) Any
unfolding check_pages
check_pages_lem [] = pure_lem _ λ m p. p
check_pages_lem {P} (page ∷ pages) =
    and_then (gets_lem _ {Q = λ _. P} λ m p. p)
      λ count. and_then (guard_lem _ _ (λ m b p. tt) (λ m b p. p)) λ _. check_pages_lem pages

module _ (r : KvmGuestRam) (h : RamHost) (v : IsValid r h)
    (room : h.next_generation_id + 1 < u64_mod) where
  pub record Here (m : Ram) : Type 0 where
    pub same_memory : m.0 ≡ r
    pub same_files : m.1.files ≡ h.files
    pub same_generation : m.1.next_generation_id ≡ h.next_generation_id

  -- What `prepare_fork` leaves when it copies nothing.
  pub record Prepared (preparation : RamForkPreparation) (m : Ram) : Type 0 where
    pub same_memory : m.0 ≡ r
    pub same_files : m.1.files ≡ h.files
    pub seals :
        preparation.seals_existing_generation ≡ true
        → (r.sealed ≡ false) × (m.1.next_generation_id ≡ h.next_generation_id)
    pub copies :
        preparation.seals_existing_generation ≡ false
        → (preparation.generation ≡ h.next_generation_id)
          × (preparation.pages ≡ [])
          × (m.1.next_generation_id ≡ h.next_generation_id + 1)

  Here-faults :
      (m : Ram) (faults : List (Option ℕ)) → Here m → Here (m.0, record m.1 { faults = faults })
  Here-faults m faults p = record {
    same_memory = p.same_memory;
    same_files = p.same_files;
    same_generation = p.same_generation;
  }

  -- A new generation.
  pub record Begun (generation : ℕ) (m : Ram) : Type 0 where
    pub same_memory : m.0 ≡ r
    pub same_files : m.1.files ≡ h.files
    pub begun : generation ≡ h.next_generation_id
    pub one_generation : m.1.next_generation_id ≡ h.next_generation_id + 1

  pub zeroed_lem : Hoare Here zeroed Begun Any
  unfolding zeroed
  zeroed_lem = and_then (system_call_lem {P = Here} λ m faults p. Here-faults m faults p) λ _.
      and_then (system_call_lem {P = Here} λ m faults p. Here-faults m faults p) λ _.
        and_then
          (gets_lem _ {Q = λ g m. Here m × (g ≡ h.next_generation_id)}
            λ m p. (p, p.same_generation))
          λ g.
            and_then
              (modify_lem _ {Q = Begun g} λ m p. record {
                same_memory = p.0.same_memory;
                same_files = p.0.same_files;
                begun = p.1;
                one_generation = ground (arith, p.0.same_generation, room);
              })
              λ _. pure_lem _ λ m p. p

  prepare_copies-Prepared : Hoare Here (prepare_copies []) Prepared Any
  unfolding prepare_copies prepare_pages
  prepare_copies-Prepared = and_then zeroed_lem λ g.
      and_then (pure_lem _ {Q = λ pages m. Begun g m × (pages ≡ [])} λ m p. (p, refl)) λ pages.
        pure_lem _ λ m p. record {
          same_memory = p.0.same_memory;
          same_files = p.0.same_files;
          seals = λ e. absurd (ground arith);
          copies = λ e. (p.0.begun, p.1, p.0.one_generation);
        }

  prepare_seal-Prepared : r.sealed ≡ false → Hoare Here (prepare_seal []) Prepared Any
  unfolding prepare_seal copy_back
  prepare_seal-Prepared unsealed = and_then (pure_lem _ {Q = λ _. Here} λ m p. p) λ _.
      and_then (page_at_lem 0) λ first. pure_lem _ λ m p. record {
        same_memory = p.0.same_memory;
        same_files = p.0.same_files;
        seals = λ e. (unsealed, p.0.same_generation);
        copies = λ e. absurd (ground arith);
      }

  pub prepare_fork-Prepared : Hoare Here (prepare_fork []) Prepared Any
  unfolding prepare_fork collect keys
  prepare_fork-Prepared = and_then (check_pages_lem []) λ _.
      and_then
        (gets_lem _ {Q = λ sealed m. Here m × (sealed ≡ r.sealed)}
          λ m p. (p, ap (λ q. q.sealed) p.same_memory))
        λ sealed. by_seal sealed
    where
      by_seal :
          (sealed : Bool)
          → Hoare
              (λ m. Here m × (sealed ≡ r.sealed))
              (if sealed then prepare_copies [] else prepare_seal [])
              Prepared
              Any
      by_seal true = strengthen prepare_copies-Prepared λ m p. p.0
      by_seal false = record { run = λ m p. (prepare_seal-Prepared (sym p.1)).run m p.0 }

  module _ (dirty : Set ℕ) (c : Covers dirty r) where
    start-Copying : (g : ℕ) (m : Ram) → Begun g m → Copying r h v dirty g 0 [] (keys dirty) m
    unfolding get
    start-Copying g m p = record {
      same_memory = p.same_memory;
      one_generation = ground (arith, p.begun, p.one_generation);
      new_generation = p.begun;
      ordered = tt;
      placed = λ i page e. absurd (ground arith);
      apart = λ i j page other e f o. absurd (ground arith);
      other = λ generation offset below. ap (λ files. get (generation, offset) files) p.same_files;
      saved = λ i page e free. absurd (ground arith);
      covered = λ i d free. ground (arith, among-keys i dirty);
    }

    pub recopied-Saved :
        (g : ℕ) (todo : List ℕ) (next : ℕ) (prepared : Map ℕ RamPage)
        → Hoare
            (Copying r h v dirty g next prepared todo)
            (recopy_pages todo g next prepared >>= (λ copies.
              modify (λ m. (record m.0 { pages = replace_pages copies m.0.pages }, m.1))
              >> map_selected_pages (key_set copies) true))
            (λ _. Saved r h)
            Any
    unfolding map_selected_pages modify ◌>>=◌
    recopied-Saved g todo next prepared =
        and_then (recopy_pages-Copying r h v dirty g todo next prepared) λ copies. record {
          run = λ m p.
              (weaken
                  (map_list-Remapped (replaced r h v dirty c copies m.0) m.1
                    (keys (key_set copies)))
                  (λ _ n q. Remapped-Saved r h v dirty c g p.0 copies m n p.1 q) (λ n x. x)).run
                (replaced r h v dirty c copies m.0, m.1)
                (start-Remapped (replaced r h v dirty c copies m.0) m.1);
        }

    pub finish_copies-Saved :
        (g : ℕ)
        → Hoare
            (Begun g)
            (finish_copies
              (record { generation = g; pages = []; seals_existing_generation = false })
              dirty)
            (λ _. Saved r h)
            Any
    unfolding finish_copies keys
    finish_copies-Saved g = strengthen (recopied-Saved g (keys dirty) 0 []) (start-Copying g)
