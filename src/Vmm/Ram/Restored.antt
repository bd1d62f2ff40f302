-- ===== src/Vmm/Ram/Restored.antt =====
-- Memories that are restored from the durable copies of their pages.
use minidox.Prelude.{
  ℕ, suc, ◌*◌, ◌≡◌, refl, ◌∙◌, ap, sym, true, false, Option, none, some, List, [], ◌∷◌, map, ok,
  length, get_elem?, arith,
}
use minidox.Prelude.Order.{nat_ord}
use minidox.Prelude.Map
use minidox.Prelude.Map.{Map, get, get-or_insert}
use minidox.Vmm.Ram.{RamPage, KvmGuestRam, ram_page_size}
use minidox.Vmm.Ram.Durable.{
  page_states, durable_state, conflicts, check_page, restore_pages, restore_states,
}

conflicts-same :
    (page : RamPage) (entry : Option RamPage)
    → ((other : RamPage) → entry ≡ some other → other ≡ page)
    → conflicts (record { id = page.id; generation = page.generation; offset = page.offset }) entry
      ≡ false
conflicts-same page none k = refl
conflicts-same page (some other) k =
    let e = k other refl in ground (arith, ap (λ q. q.generation) e, ap (λ q. q.offset) e)

length-page_states : (pages : List RamPage) → length (page_states pages) ≡ length pages
unfolding page_states
length-page_states [] = refl
length-page_states (page ∷ pages) = ap suc (length-page_states pages)

module _ (generation_len : ℕ → Option ℕ) (name : ℕ → RamPage) where
  -- The identity of each page names it, and its range lies in its file.
  pub record Stands (pages : List RamPage) : Type 0 where
    pub named : (i : ℕ) (page : RamPage) → get_elem? pages i ≡ some page → name page.id ≡ page
    pub checked :
        (i : ℕ) (page : RamPage)
        → get_elem? pages i ≡ some page
        → check_page generation_len
            (record { id = page.id; generation = page.generation; offset = page.offset })
          ≡ true

  pub Named : Map ℕ RamPage → Type 0
  Named known = (id : ℕ) (page : RamPage) → get id known ≡ some page → name id ≡ page

  pub empty-Named : Named []
  unfolding get Named
  empty-Named id page e = absurd (ground arith)

  pub restores :
      (pages : List RamPage) (known : Map ℕ RamPage)
      → Stands pages
      → Named known
      → (all : Map ℕ RamPage) × (Named all
          × (restore_pages generation_len (page_states pages) known ≡ ok (pages, all)))
  unfolding restore_pages page_states Named
  restores [] known s n = (known, (n, refl))
  restores (page ∷ pages) known s n =
      let named = s.named 0 page refl in
      let checked = s.checked 0 page refl in
      let tail : Stands pages = record {
        named = λ i. s.named (suc i);
        checked = λ i. s.checked (suc i);
      } in
      let next : Named (Map.or_insert page.id page known) =
        λ id other e. ground (arith, get-or_insert page.id id page known, n id other, named) in
      let (all, (m, e)) = restores pages (Map.or_insert page.id page known) tail next in
      let fits : conflicts
            (record { id = page.id; generation = page.generation; offset = page.offset })
            (get page.id known)
          ≡ false =
        conflicts-same page (get page.id known) (λ other f. sym (n page.id other f) ∙ named) in
      (all, (m, ground (arith, checked, fits, e)))

  -- Memories whose pages fill them.
  pub record Stand (branches : List KvmGuestRam) : Type 0 where
    pub stands : (i : ℕ) (r : KvmGuestRam) → get_elem? branches i ≡ some r → Stands r.pages
    pub sized :
        (i : ℕ) (r : KvmGuestRam)
        → get_elem? branches i ≡ some r
        → r.len ≡ length r.pages * ram_page_size

  restores_all :
      (branches : List KvmGuestRam) (known : Map ℕ RamPage)
      → Stand branches
      → Named known
      → (all : Map ℕ RamPage) × (restore_states generation_len (map durable_state branches) known
          ≡ ok (map (λ r. r.pages) branches, all))
  unfolding restore_states durable_state
  restores_all [] known s n = (known, refl)
  restores_all (r ∷ branches) known s n =
      let (found, (m, e)) = restores r.pages known (s.stands 0 r refl) n in
      let tail : Stand branches = record {
        stands = λ i. s.stands (suc i);
        sized = λ i. s.sized (suc i);
      } in
      let (all, f) = restores_all branches found tail m in
      (all, ground (arith, s.sized 0 r refl, length-page_states r.pages, e, f))

  -- Memories whose pages fill them, whose page identities each name one page, and whose pages lie
  -- in files that can be opened and are long enough, have the pages after a restore that they had
  -- when they were stored.
  pub restore_states-durable_state :
      (branches : List KvmGuestRam)
      → Stand branches
      → (all : Map ℕ RamPage) × (restore_states generation_len (map durable_state branches) []
          ≡ ok (map (λ r. r.pages) branches, all))
  restore_states-durable_state branches s = restores_all branches [] s empty-Named
