-- ===== src/Vmm/Ram/Reloaded.antt =====
-- What the memories that `restore` makes read, and that the counters are past their identities.
use minidox.Prelude.{
  ℕ, zero, suc, ◌+◌, ◌≤◌, ◌<◌, ◌≡◌, refl, ◌∙◌, ap, sym, subst, Option, some, List, [], ◌∷◌, map, ok,
  u64_mod, length, get_elem?, arith,
}
use minidox.Prelude.Order.{nat_ord, pair_ord}
use minidox.Prelude.Map.{get}
use minidox.Prelude.Step.Hoare.{Hoare, and_then, pure_lem, guard_lem, modify_lem, ok_leaves}
use minidox.Vmm.Ram.{RamPage, RamHost, KvmGuestRam, page_bytes}
use minidox.Vmm.Ram.Seal.{IsValid, Covers, page_bytes_lem}
use minidox.Vmm.Ram.Children.{get_elem?-some}
use minidox.Vmm.Ram.Durable.{RamPageState, page_states, durable_state}
use minidox.Vmm.Ram.Restored.{Stand, empty-Named}
use minidox.Vmm.Ram.Restore.{maximum, saturating_next, max_in, max_over, move_counters, restore}
use minidox.Vmm.Ram.Rebuilt.{
  IsRebuilt, Rebuilt, SameHost, some_inj, restore_branches-Rebuilt, Rebuilt-get_elem?,
}

max_in-bounds :
    (field : RamPageState → ℕ) (pages : List RamPage) (index : ℕ) (page : RamPage)
    → get_elem? pages index ≡ some page
    → field (record { id = page.id; generation = page.generation; offset = page.offset })
      ≤ max_in field (page_states pages)
unfolding max_in page_states
max_in-bounds field [] index page e = absurd (ground arith)
max_in-bounds field (p ∷ pages) zero page e =
    subst
      (λ q.
        field (record { id = q.id; generation = q.generation; offset = q.offset })
        ≤ max_in field (page_states (p ∷ pages)))
      (some_inj e) (ground arith)
max_in-bounds field (p ∷ pages) (suc index) page e =
    ground (arith, max_in-bounds field pages index page e)

max_over-bounds :
    (field : RamPageState → ℕ) (branches : List KvmGuestRam) (i : ℕ) (r : KvmGuestRam)
    → get_elem? branches i ≡ some r
    → (index : ℕ) (page : RamPage) → get_elem? r.pages index ≡ some page
    → field (record { id = page.id; generation = page.generation; offset = page.offset })
      ≤ max_over field (map durable_state branches)
unfolding max_over durable_state
max_over-bounds field [] i r e index page f = absurd (ground arith)
max_over-bounds field (p ∷ branches) zero r e index page f =
    ground (arith, max_in-bounds field r.pages index page f)
max_over-bounds field (p ∷ branches) (suc i) r e index page f =
    ground (arith, max_over-bounds field branches i r e index page f)

-- No identity of a page or a generation is the last one.
pub record Numbered (branches : List KvmGuestRam) : Type 0 where
  pub below :
      (i : ℕ) (r : KvmGuestRam)
      → get_elem? branches i ≡ some r
      → (index : ℕ) (page : RamPage) → get_elem? r.pages index ≡ some page
      → (page.id + 1 < u64_mod) × (page.generation + 1 < u64_mod)

-- The counter is past each identity that was below the last one.
past :
    (counter id top : ℕ) → id ≤ top → id + 1 < u64_mod → id < maximum counter (saturating_next top)
past counter id top e f = ground arith

module _ {R : Type 0} (generation_len : ℕ → Option ℕ) (name : ℕ → RamPage)
    (branches restored : List KvmGuestRam) (m : R × RamHost)
    (stand : Stand generation_len name branches) where
  Moved : R × RamHost → Type 0
  Moved n =
      (k : R × RamHost) × (SameHost m.1 k
        × (n ≡ (k.0, move_counters (map durable_state branches) k.1)))

  restore-Rebuilt :
      Hoare
        (SameHost {R = R} m.1)
        (restore generation_len (map durable_state branches))
        (λ rebuilt n. Moved n × Rebuilt branches rebuilt)
        (λ n. Unit {0})
  unfolding restore Moved
  restore-Rebuilt =
      and_then (guard_lem _ _ {Q = SameHost {R = R} m.1} (λ n _ p. tt) λ n _ p. p) λ _.
        and_then
          (restore_branches-Rebuilt m.1 generation_len name branches [] stand
            (empty-Named generation_len name))
          λ rebuilt.
            and_then
              (modify_lem _ {Q = λ n. Moved n × Rebuilt branches rebuilt}
                λ k p. ((k, (p.0, refl)), p.1))
              λ _. pure_lem _ λ n p. p

  Moved-reads :
      (r memory : KvmGuestRam) (old : RamHost) (n : R × RamHost) (index : ℕ)
      → IsValid r old
      → Covers [] r
      → m.1.files ≡ old.files
      → index < length r.pages
      → IsRebuilt r memory
      → Moved n
      → page_bytes memory n.1 index ≡ page_bytes r old index
  unfolding Moved move_counters get
  Moved-reads r memory old n index valid saved same_files below q (k, (same, e)) =
      let (page, f) = get_elem?-some r.pages index below in
      let g : get_elem? memory.pages index ≡ some page =
        ap (λ xs. get_elem? xs index) q.same_pages ∙ f in
      let files : n.1.files ≡ old.files =
        ap (λ (n : R × RamHost). n.1.files) e ∙ same.files ∙ same_files in
      page_bytes_lem memory n.1 index page (q.maps index) g
      ∙ ground (
        arith,
        q.bare index,
        saved.clean index refl,
        files,
        page_bytes_lem r old index page (valid.backed index) f,
      )

  Moved-IsValid :
      (i : ℕ) (r memory : KvmGuestRam) (n : R × RamHost)
      → Numbered branches
      → get_elem? branches i ≡ some r
      → IsRebuilt r memory
      → Moved n
      → IsValid memory n.1
  unfolding Moved move_counters
  Moved-IsValid i r memory n numbered e q (k, (same, f)) = record {
    backed = q.maps;
    private_map = q.private_map;
    old = λ index page g.
        let h : get_elem? r.pages index ≡ some page =
          ap (λ xs. get_elem? xs index) (sym q.same_pages) ∙ g in
        subst (λ (n : R × RamHost). page.generation < n.1.next_generation_id) (sym f)
          (past k.1.next_generation_id page.generation _
            (max_over-bounds (λ p. p.generation) branches i r e index page h)
            (numbered.below i r e index page h).1);
    apart = λ g. absurd (ground (arith, q.is_sealed));
  }

  by_memory :
      {P : KvmGuestRam → R × RamHost → Type 0}
      → (restore generation_len (map durable_state branches) m).0 ≡ ok restored
      → (i : ℕ) (r : KvmGuestRam) → get_elem? branches i ≡ some r
      → ((memory : KvmGuestRam) (n : R × RamHost) → IsRebuilt r memory → Moved n → P memory n)
      → (memory : KvmGuestRam) × ((get_elem? restored i ≡ some memory)
          × P memory (restore generation_len (map durable_state branches) m).1)
  by_memory {P} done i r e keep =
      let (moved, rebuilt) =
        ok_leaves restore-Rebuilt m restored (record { files = refl; generation = refl }) done in
      let (memory, (at, q)) = Rebuilt-get_elem? i r rebuilt e in
      (memory, (at, keep memory _ q moved))

  -- When memories are restored with success from their durable copies, where their pages fill
  -- them, each page identity names one page, the pages lie in files that can be opened and are
  -- long enough, and the files hold the same bytes as when they were stored, the memory that is
  -- made of one that was valid and without private copies reads on each page as that one did.
  pub page_bytes-restore :
      (old : RamHost)
      → (restore generation_len (map durable_state branches) m).0 ≡ ok restored
      → m.1.files ≡ old.files
      → (i : ℕ) (r : KvmGuestRam) → get_elem? branches i ≡ some r
      → IsValid r old
      → Covers [] r
      → (index : ℕ) → index < length r.pages
      → (memory : KvmGuestRam) × ((get_elem? restored i ≡ some memory)
          × (page_bytes memory (restore generation_len (map durable_state branches) m).1.1 index
              ≡ page_bytes r old index))
  page_bytes-restore old done same_files i r e valid saved index below =
      by_memory {P = λ memory n. page_bytes memory n.1 index ≡ page_bytes r old index} done i r e
        λ memory n q moved. Moved-reads r memory old n index valid saved same_files below q moved

  -- The memories that are restored with success from the durable copies of memories, where their
  -- pages fill them, each page identity names one page, the pages lie in files that can be opened
  -- and are long enough, and no identity is the last one, are valid, with every generation that
  -- they map older than the next one to be made.
  pub restore-IsValid :
      Numbered branches
      → (restore generation_len (map durable_state branches) m).0 ≡ ok restored
      → (i : ℕ) (r : KvmGuestRam) → get_elem? branches i ≡ some r
      → (memory : KvmGuestRam) × ((get_elem? restored i ≡ some memory)
          × IsValid memory (restore generation_len (map durable_state branches) m).1.1)
  restore-IsValid numbered done i r e =
      by_memory {P = λ memory n. IsValid memory n.1} done i r e
        λ memory n q moved. Moved-IsValid i r memory n numbered e q moved
