-- ===== src/Vmm/Ram/Copies.antt =====
-- A later fork of a memory: the loop that copies its dirty pages to a new generation.
use minidox.Prelude.{
  ℕ, ◌+◌, ◌<◌, ◌≡◌, refl, sym, subst, true, false, Option, none, some, List, [], ◌∷◌, get_elem?,
  arith, Option-cases, inl, inr,
}
use minidox.Prelude.Order.{nat_ord, pair_ord}
use minidox.Prelude.Map
use minidox.Prelude.Map.{Map, Set, get, keys, contains_key, get-insert}
use minidox.Prelude.Map.Sorted.{IsSorted, insert-IsSorted}
use minidox.Prelude.Step.{pure, ◌>>=◌, ◌>>◌}
use minidox.Prelude.Step.Hoare.{Hoare, and_then, pure_lem, gets_lem, modify_lem}
use minidox.Vmm.Ram.{
  RamPage, RamHost, KvmGuestRam, Ram, file_page, page_bytes, system_call, ram_page_size,
}
use minidox.Vmm.Ram.Fork.{copy_page_to, new_page, recopy_page, recopy_pages}
use minidox.Vmm.Ram.Runs.{Any, among, system_call_lem, copy_calls_lem}
use minidox.Vmm.Ram.Seal.{IsValid}

module _ (r : KvmGuestRam) (h : RamHost) (v : IsValid r h) (dirty : Set ℕ) (g : ℕ) where
  -- The loop has `todo` left: the pages of `prepared` have places of their own below `next`, and
  -- those that are not to be copied again hold what the memory held.
  pub record Copying (next : ℕ) (prepared : Map ℕ RamPage) (todo : List ℕ) (m : Ram) : Type 0 where
    pub same_memory : m.0 ≡ r
    pub one_generation : m.1.next_generation_id ≡ g + 1
    pub new_generation : g ≡ h.next_generation_id
    pub ordered : IsSorted prepared
    pub placed :
        (i : ℕ) (p : RamPage) → get i prepared ≡ some p → (p.generation ≡ g) × (p.offset < next)
    pub apart :
        (i j : ℕ) (p q : RamPage)
        → get i prepared ≡ some p
        → get j prepared ≡ some q
        → p.offset ≡ q.offset
        → i ≡ j
    pub other :
        (generation offset : ℕ)
        → generation < g
        → get (generation, offset) m.1.files ≡ get (generation, offset) h.files
    pub saved :
        (i : ℕ) (p : RamPage)
        → get i prepared ≡ some p
        → among i todo ≡ false
        → file_page m.1 g p.offset ≡ page_bytes r h i
    pub covered :
        (i : ℕ)
        → contains_key i dirty ≡ true
        → among i todo ≡ false
        → contains_key i prepared ≡ true

  -- The memory reads as it did: its files are older.
  pub same_bytes :
      (next : ℕ) (prepared : Map ℕ RamPage) (todo : List ℕ) (m : Ram) (i : ℕ)
      → Copying next prepared todo m
      → page_bytes r m.1 i ≡ page_bytes r h i
  unfolding page_bytes
  same_bytes next prepared todo m i p = elim (Option-cases (get_elem? r.pages i)) [
    | inl e ↦ ground (arith, v.backed i)
    | inr (page, e) ↦
        ground
          (arith, v.backed i, v.old i page e, p.new_generation, p.other page.generation page.offset)
  ]

  Copying-faults :
      (next : ℕ) (prepared : Map ℕ RamPage) (todo : List ℕ) (m : Ram) (faults : List (Option ℕ))
      → Copying next prepared todo m
      → Copying next prepared todo (m.0, record m.1 { faults = faults })
  Copying-faults next prepared todo m faults p = record {
    same_memory = p.same_memory;
    one_generation = p.one_generation;
    new_generation = p.new_generation;
    ordered = p.ordered;
    placed = p.placed;
    apart = p.apart;
    other = p.other;
    saved = p.saved;
    covered = p.covered;
  }

  -- A page that was prepared is copied again.
  Copying-again :
      (next index : ℕ) (prepared : Map ℕ RamPage) (todo : List ℕ) (page : RamPage) (m : Ram)
      → get index prepared ≡ some page
      → Copying next prepared (index ∷ todo) m
      → Copying next prepared todo (
        m.0,
        record m.1 { files = Map.insert (g, page.offset) (page_bytes r m.1 index) m.1.files },
      )
  Copying-again next index prepared todo page m e p =
      let bytes = page_bytes r m.1 index in
      let at = λ (generation offset : ℕ).
        get-insert (g, page.offset) (generation, offset) bytes m.1.files in
      record {
        same_memory = p.same_memory;
        one_generation = p.one_generation;
        new_generation = p.new_generation;
        ordered = p.ordered;
        placed = p.placed;
        apart = p.apart;
        other = λ generation offset below.
            ground (arith, at generation offset, p.other generation offset);
        saved = λ i q f free. ground (
          arith,
          at g q.offset,
          p.apart i index q page f e,
          p.saved i q f,
          same_bytes next prepared (index ∷ todo) m index p,
        );
        covered = λ i d free. ground (arith, p.covered i d);
      }

  -- Another page gets the next place.
  pub Copying-new :
      (next index : ℕ) (prepared : Map ℕ RamPage) (todo : List ℕ) (page : RamPage) (m : Ram)
      → get index prepared ≡ none
      → page.generation ≡ g
      → page.offset ≡ next
      → Copying next prepared (index ∷ todo) m
      → Copying (next + ram_page_size) (Map.insert index page prepared) todo (
        m.0,
        record m.1 { files = Map.insert (g, page.offset) (page_bytes r m.1 index) m.1.files },
      )
  Copying-new next index prepared todo page m e in_g at_next p =
      let bytes = page_bytes r m.1 index in
      let at = λ (generation offset : ℕ).
        get-insert (g, page.offset) (generation, offset) bytes m.1.files in
      let found = λ (i : ℕ). get-insert index i page prepared in
      record {
        same_memory = p.same_memory;
        one_generation = p.one_generation;
        new_generation = p.new_generation;
        ordered = insert-IsSorted index page prepared p.ordered;
        placed = λ i q f. ground (arith, found i, p.placed i q);
        apart = λ i j q s f k same_place.
            ground (arith, found i, found j, p.placed i q, p.placed j s, p.apart i j q s);
        other = λ generation offset below.
            ground (arith, at generation offset, p.other generation offset);
        saved = λ i q f free. ground (
          arith,
          found i,
          at g q.offset,
          p.placed i q,
          p.saved i q,
          same_bytes next prepared (index ∷ todo) m index p,
        );
        covered = λ i d free. ground (arith, found i, p.covered i d);
      }

  pub copy_page-Copying :
      {Q : Ram → Type 0} (next index generation offset : ℕ) (prepared : Map ℕ RamPage)
      (todo : List ℕ)
      → ((m : Ram)
          → Copying next prepared (index ∷ todo) m
          → Q (
            m.0,
            record m.1 {
              files = Map.insert (generation, offset) (page_bytes r m.1 index) m.1.files;
            },
          ))
      → Hoare
          (Copying next prepared (index ∷ todo))
          (copy_page_to index generation offset)
          (λ _. Q)
          Any
  unfolding copy_page_to
  copy_page-Copying {Q} next index generation offset prepared todo k =
      and_then
        (copy_calls_lem {P = Copying next prepared (index ∷ todo)} index generation offset
          λ m faults p. Copying-faults next prepared (index ∷ todo) m faults p)
        λ _. modify_lem _ λ m p.
          subst
            (λ q. Q (
              m.0,
              record m.1 {
                files = Map.insert (generation, offset) (page_bytes q m.1 index) m.1.files;
              },
            ))
            (sym p.same_memory) (k m p)

  new_page-Copying :
      (next : ℕ) (prepared : Map ℕ RamPage) (todo : List ℕ)
      → Hoare
          (Copying next prepared todo)
          (new_page g next)
          (λ page m. Copying next prepared todo m × (page.generation ≡ g) × (page.offset ≡ next))
          Any
  unfolding new_page
  new_page-Copying next prepared todo =
      and_then (gets_lem _ {Q = λ _. Copying next prepared todo} λ m p. p) λ id.
        and_then
          (modify_lem _ {Q = Copying next prepared todo} λ m p. record {
            same_memory = p.same_memory;
            one_generation = p.one_generation;
            new_generation = p.new_generation;
            ordered = p.ordered;
            placed = p.placed;
            apart = p.apart;
            other = p.other;
            saved = p.saved;
            covered = p.covered;
          })
          λ _. pure_lem _ λ m p. (p, refl, refl)

  -- One round leaves the place that follows and the pages.
  abbrev Next : List ℕ → ℕ × Map ℕ RamPage → Ram → Type 0
  Next todo a = Copying a.0 a.1 todo

  recopy_page-Copying :
      (index next : ℕ) (prepared : Map ℕ RamPage) (todo : List ℕ)
      → Hoare
          (Copying next prepared (index ∷ todo))
          (recopy_page index g next prepared)
          (Next todo)
          Any
  unfolding recopy_page new_page
  recopy_page-Copying index next prepared todo = by_place (get index prepared) refl
    where
      by_place :
          (place : Option RamPage)
          → get index prepared ≡ place
          → Hoare
              (Copying next prepared (index ∷ todo))
              (elim place [
                | some page ↦ copy_page_to index g page.offset >> pure (next, prepared)
                | none ↦ system_call >>= (λ _. new_page g next >>= (λ page.
                    copy_page_to index g page.offset
                    >>= (λ _. pure (next + ram_page_size, Map.insert index page prepared))))
              ])
              (Next todo)
              Any
      by_place (some page) e =
          and_then
            (copy_page-Copying {Q = Copying next prepared todo} next index g page.offset prepared
              todo λ m p. Copying-again next index prepared todo page m e p)
            λ _. pure_lem _ λ m p. p
      by_place none e =
          and_then
            (system_call_lem {P = Copying next prepared (index ∷ todo)}
              λ m faults p. Copying-faults next prepared (index ∷ todo) m faults p)
            λ _. and_then (new_page-Copying next prepared (index ∷ todo)) λ page. record {
              run = λ m p.
                  (and_then
                      (copy_page-Copying
                        {Q = Copying (next + ram_page_size) (Map.insert index page prepared) todo}
                        next index g page.offset prepared todo
                        λ n q. Copying-new next index prepared todo page n e p.1 p.2 q)
                      λ _. pure_lem _ λ n q. q).run
                    m p.0;
            }

  pub recopy_pages-Copying :
      (todo : List ℕ) (next : ℕ) (prepared : Map ℕ RamPage)
      → Hoare
          (Copying next prepared todo)
          (recopy_pages todo g next prepared)
          (λ copied m. (last : ℕ) × Copying last copied [] m)
          Any
  unfolding recopy_pages
  recopy_pages-Copying [] next prepared = pure_lem _ λ m p. (next, p)
  recopy_pages-Copying (index ∷ todo) next prepared =
      and_then (recopy_page-Copying index next prepared todo) λ a. recopy_pages-Copying todo a.0 a.1
