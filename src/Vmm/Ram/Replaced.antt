-- ===== src/Vmm/Ram/Replaced.antt =====
-- The pages that a later fork has copied take their places in the memory, which maps them.
use minidox.Prelude.{
  ℕ, zero, suc, ◌+◌, ◌≡◌, refl, ◌∙◌, ap, sym, ◌&&◌, none, some, [], ltb, leb, length, get_elem?,
  arith, Option-cases, inl, inr,
}
use minidox.Prelude.Order.{nat_ord, pair_ord}
use minidox.Prelude.Map.{Map, Set, get, keys, contains_key}
use minidox.Vmm.Ram.{RamPage, RamHost, KvmGuestRam, Ram, file_page}
use minidox.Vmm.Ram.Mapping.{range}
use minidox.Vmm.Ram.Fork.{replace_pages, key_set}
use minidox.Vmm.Ram.Runs.{among, Remapped, nowhere}
use minidox.Vmm.Ram.Seal.{IsValid, Covers, Saved, among-keys, page_bytes_lem}
use minidox.Vmm.Ram.Copies.{Copying}
use minidox.Vmm.Ram.Entries.{
  or_entry, get_elem?-replace_pages, length-replace_pages, contains_key-key_set,
}

pub among-range :
    (count start index : ℕ)
    → among index (range count start) ≡ (leb start index && ltb index (start + count))
unfolding range
among-range zero start index = ground arith
among-range (suc count) start index = ground (arith, among-range count (start + 1) index)

pub start-Remapped : (r : KvmGuestRam) (h : RamHost) → Remapped r h nowhere (r, h)
start-Remapped r h = record {
  shown = λ index. refl;
  bare = λ index. refl;
  same_pages = refl;
  same_sealed = refl;
  same_private = refl;
  same_len = refl;
  same_files = refl;
  same_generation = refl;
}

module _ (r : KvmGuestRam) (h : RamHost) (v : IsValid r h) (dirty : Set ℕ)
    (c : Covers dirty r) where
  -- The copied pages take their places in the memory.
  abbrev pub replaced : Map ℕ RamPage → KvmGuestRam → KvmGuestRam
  replaced prepared memory = record memory { pages = replace_pages prepared memory.pages }

  pub Remapped-Saved :
      (g last : ℕ) (prepared : Map ℕ RamPage) (m n : Ram)
      → Copying r h v dirty g last prepared [] m
      → Remapped (replaced prepared m.0) m.1 (λ index. among index (keys (key_set prepared))) n
      → Saved r h n
  Remapped-Saved g last prepared m n p q =
      let entry : (i : ℕ)
          → get_elem? n.0.pages i ≡ or_entry (get i prepared) (get_elem? r.pages i) =
        λ i.
          ap (λ pages. get_elem? pages i) q.same_pages
          ∙ ap (λ memory. get_elem? (replace_pages prepared memory.pages) i) p.same_memory
          ∙ get_elem?-replace_pages prepared r.pages i p.ordered in
      let chosen : (i : ℕ) → among i (keys (key_set prepared)) ≡ contains_key i prepared =
        λ i. among-keys i (key_set prepared) ∙ contains_key-key_set prepared i in
      let clean : (i : ℕ) → get i prepared ≡ none → get i r.copies ≡ none =
        λ i e. ground (arith, c.clean i, p.covered i) in
      let before : (i : ℕ)
          → get_elem? (replace_pages prepared m.0.pages) i ≡ get_elem? n.0.pages i =
        λ i. ap (λ pages. get_elem? pages i) (sym q.same_pages) in
      record {
        stored = λ i page e. elim (Option-cases (get i prepared)) [
          | inl absent ↦
              let old : get_elem? r.pages i ≡ some page = ground (arith, entry i) in
              ap (λ files. file_page (record n.1 { files = files }) page.generation page.offset)
                q.same_files
              ∙ ground (
                arith,
                p.other page.generation page.offset,
                v.old i page old,
                p.new_generation,
                page_bytes_lem r h i page (v.backed i) old,
                clean i absent,
              )
          | inr (copy, present) ↦
              let here : page ≡ copy = ground (arith, entry i) in
              ap (λ files. file_page (record n.1 { files = files }) page.generation page.offset)
                q.same_files
              ∙ ap (λ copied. file_page m.1 copied.generation copied.offset) here
              ∙ ap (λ generation. file_page m.1 generation copy.offset) (p.placed i copy present).0
              ∙ p.saved i copy present refl
        ];
        maps = λ i. ground (
          arith,
          q.shown i,
          before i,
          entry i,
          chosen i,
          v.backed i,
          ap (λ memory. get i memory.mapped) p.same_memory,
        );
        bare = λ i.
            ground (
              arith,
              q.bare i,
              chosen i,
              clean i,
              ap (λ memory. get i memory.copies) p.same_memory,
            );
        taken = λ i page e. elim (Option-cases (get i prepared)) [
          | inl absent ↦
              ground (
                arith,
                entry i,
                v.old i page,
                q.same_generation,
                p.one_generation,
                p.new_generation,
              )
          | inr (copy, present) ↦
              ground (arith, entry i, p.placed i copy present, q.same_generation, p.one_generation)
        ];
        kept_private =
            q.same_private ∙ ap (λ memory. memory.is_private) p.same_memory ∙ v.private_map;
        same_length =
            ap length q.same_pages
            ∙ length-replace_pages prepared m.0.pages
            ∙ ap (λ memory. length memory.pages) p.same_memory;
      }
