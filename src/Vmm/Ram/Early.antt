-- ===== src/Vmm/Ram/Early.antt =====
-- `prepare_fork` of a memory that was forked before: it copies pages while the guest still runs.
use minidox.Prelude.{
  ℕ, suc, ◌+◌, ◌*◌, ◌<◌, ◌≡◌, refl, ◌∙◌, ap, subst, Bool, true, false, none, List, [], ◌∷◌,
  if◌then◌else◌, length, u64_mod, arith,
}
use minidox.Prelude.Order.{nat_ord, pair_ord}
use minidox.Prelude.Map
use minidox.Prelude.Map.{Map, Set, get, keys, contains_key, get-insert}
use minidox.Prelude.Map.Sorted.{IsSorted, insert-IsSorted, get-Above}
use minidox.Prelude.Step.{pure, gets, modify, ◌>>=◌}
use minidox.Prelude.Step.Hoare.{Hoare, and_then, pure_lem, gets_lem, strengthen}
use minidox.Vmm.{Error}
use minidox.Vmm.Ram.{RamPage, RamHost, KvmGuestRam, Ram, page_bytes, ram_page_size}
use minidox.Vmm.Ram.Fork.{
  RamForkPreparation, collect, new_page, copy_page_to, prepare_pages, prepare_copies, prepare_seal,
  prepare_fork,
}
use minidox.Vmm.Ram.Runs.{Any}
use minidox.Vmm.Ram.Seal.{IsValid, among-keys}
use minidox.Vmm.Ram.Copies.{Copying, Copying-new, copy_page-Copying}
use minidox.Vmm.Ram.Prepared.{Here, Begun, zeroed_lem, check_pages_lem}

length-insert :
    (k : ℕ) (page : RamPage) (m : Map ℕ RamPage)
    → get k m ≡ none
    → length (keys (Map.insert k page m)) ≡ suc (length (keys m))
unfolding Map.insert keys get
length-insert k page [] e = refl
length-insert k page ((j, other) ∷ m) e = ground (arith, length-insert k page m)

pub collect-IsSorted :
    (pages : List ℕ) (dirty : Set ℕ) → IsSorted dirty → IsSorted (collect pages dirty)
unfolding collect
collect-IsSorted [] dirty s = s
collect-IsSorted (page ∷ pages) dirty s =
    collect-IsSorted pages (Map.insert page tt dirty) (insert-IsSorted page tt dirty s)

module _ (r : KvmGuestRam) (h : RamHost) (v : IsValid r h) (dirty : Set ℕ) (g : ℕ) where
  Copying-page_id :
      (next : ℕ) (prepared : Map ℕ RamPage) (todo : List ℕ) (m : Ram) (id : ℕ)
      → Copying r h v dirty g next prepared todo m
      → Copying r h v dirty g next prepared todo (m.0, record m.1 { next_page_id = id })
  Copying-page_id next prepared todo m id p = record {
    same_memory = p.same_memory;
    one_generation = p.one_generation;
    new_generation = p.new_generation;
    ordered = p.ordered;
    placed = p.placed;
    apart = p.apart;
    other = p.other;
    saved = p.saved;
    covered = p.covered;
  }

  -- The bytes of a page have a place, which an entry is to name.
  abbrev Placed : (index next : ℕ) → Map ℕ RamPage → List ℕ → Ram → Type 0
  Placed index next prepared todo m =
      (page : RamPage)
      → page.generation ≡ g
      → page.offset ≡ next
      → Copying r h v dirty g (next + ram_page_size) (Map.insert index page prepared) todo m

  copy-Placed :
      (index next : ℕ) (prepared : Map ℕ RamPage) (todo : List ℕ)
      → get index prepared ≡ none
      → Hoare
          (Copying r h v dirty g next prepared (index ∷ todo))
          (copy_page_to index g next)
          (λ _. Placed index next prepared todo)
          Any
  copy-Placed index next prepared todo free =
      copy_page-Copying r h v dirty g {Q = Placed index next prepared todo} next index g next
        prepared todo
        λ m p page in_g at_next.
          subst
            (λ offset.
              Copying r h v dirty g (next + ram_page_size) (Map.insert index page prepared) todo (
                m.0,
                record m.1 { files = Map.insert (g, offset) (page_bytes r m.1 index) m.1.files },
              ))
            at_next (Copying-new r h v dirty g next index prepared todo page m free in_g at_next p)

  new_page-Placed :
      (index next : ℕ) (prepared : Map ℕ RamPage) (todo : List ℕ)
      → Hoare
          (Placed index next prepared todo)
          (new_page g next)
          (λ page.
            Copying r h v dirty g (next + ram_page_size) (Map.insert index page prepared) todo)
          Any
  unfolding new_page gets modify pure ◌>>=◌
  new_page-Placed index next prepared todo = record {
    run = λ m p.
        let page : RamPage = record { id = m.1.next_page_id; generation = g; offset = next } in
        Copying-page_id (next + ram_page_size) (Map.insert index page prepared) todo m _
          (p page refl refl);
  }

  prepare_pages-Copying :
      (pages : Set ℕ) (next : ℕ) (prepared : Map ℕ RamPage)
      → IsSorted pages
      → next ≡ length (keys prepared) * ram_page_size
      → ((i : ℕ) → contains_key i pages ≡ true → get i prepared ≡ none)
      → Hoare
          (Copying r h v dirty g next prepared (keys pages))
          (prepare_pages (keys pages) g next prepared)
          (λ copied m. Copying r h v dirty g (length (keys copied) * ram_page_size) copied [] m)
          Any
  unfolding prepare_pages keys get
  prepare_pages-Copying [] next prepared s e free =
      pure_lem _ λ m p. subst (λ last. Copying r h v dirty g last prepared [] m) e p
  prepare_pages-Copying ((index, u) ∷ pages) next prepared s e free =
      and_then (copy-Placed index next prepared (keys pages) (free index (ground arith))) λ _.
        and_then (new_page-Placed index next prepared (keys pages)) λ page.
          prepare_pages-Copying pages (next + ram_page_size) (Map.insert index page prepared) s.1
            (ground (arith, e, length-insert index page prepared (free index (ground arith))))
            λ i here.
              ground
                (arith, here, get-insert index i page prepared, free i, get-Above index pages s.0)

module _ (r : KvmGuestRam) (h : RamHost) (v : IsValid r h)
    (room : h.next_generation_id + 1 < u64_mod) (pages : List ℕ) where
  -- What `prepare_fork` leaves when it copies pages.
  pub record Early (preparation : RamForkPreparation) (m : Ram) : Type 0 where
    pub is_copy : preparation.seals_existing_generation ≡ false
    pub copies :
        Copying r h v
          (collect pages [])
          preparation.generation
          (length (keys preparation.pages) * ram_page_size)
          preparation.pages
          []
          m

  begin-Copying :
      (g : ℕ) (m : Ram)
      → Begun r h v room g m
      → Copying r h v (collect pages []) g 0 [] (keys (collect pages [])) m
  unfolding get
  begin-Copying g m p = record {
    same_memory = p.same_memory;
    one_generation = ground (arith, p.begun, p.one_generation);
    new_generation = p.begun;
    ordered = tt;
    placed = λ i page e. absurd (ground arith);
    apart = λ i j page other e f o. absurd (ground arith);
    other = λ generation offset below. ap (λ files. get (generation, offset) files) p.same_files;
    saved = λ i page e free. absurd (ground arith);
    covered = λ i d free. ground (arith, among-keys i (collect pages []));
  }

  prepare_copies-Early :
      Hoare (Here r h v room) (prepare_copies (keys (collect pages []))) Early Any
  unfolding prepare_copies get keys
  prepare_copies-Early = and_then (zeroed_lem r h v room) λ g.
      and_then
        (strengthen
          (prepare_pages-Copying r h v (collect pages []) g (collect pages []) 0 []
            (collect-IsSorted pages [] tt) refl (λ i here. refl))
          (begin-Copying g))
        λ prepared. pure_lem _ λ m p. record { is_copy = refl; copies = p }

  pub prepare_fork-Early : r.sealed ≡ true → Hoare (Here r h v room) (prepare_fork pages) Early Any
  unfolding prepare_fork
  prepare_fork-Early sealed = and_then (check_pages_lem (keys (collect pages []))) λ _.
      and_then
        (gets_lem _ {Q = λ is_sealed m. Here r h v room m × (is_sealed ≡ true)}
          λ m p. (p, ap (λ q. q.sealed) p.same_memory ∙ sealed))
        λ is_sealed. by_seal is_sealed
    where
      by_seal :
          (is_sealed : Bool)
          → Hoare {E = Error}
              (λ m. Here r h v room m × (is_sealed ≡ true))
              (if is_sealed
                then prepare_copies (keys (collect pages []))
                else prepare_seal (keys (collect pages [])))
              Early
              Any
      by_seal true = strengthen prepare_copies-Early λ m p. p.0
      by_seal false = record { run = λ m p. absurd (ground arith) }
