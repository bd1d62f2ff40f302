-- ===== src/Vmm/Ram/Accounting.antt =====
-- crates/minidox-vmm/src/ram.rs: `page_accounting`, the pages that memories share.
use minidox.Prelude.{ℕ, ◌≤◌, List, [], ◌∷◌, map}
use minidox.Accounting.{Set, set_extend, count_branches, shared, entries}
use minidox.Accounting.Laws.{shared-le-entries}
use minidox.Vmm.Ram.{KvmGuestRam}

pub record RamAccounting : Type 0 where
  pub resident_pages : ℕ
  pub shared_pages : ℕ
  pub backing_files : ℕ

abbrev pub page_ids : KvmGuestRam → List ℕ
page_ids r = map (λ page. page.id) r.pages

-- The generations that the memories lie in.
unfoldable pub generation_ids : List KvmGuestRam → Set → Set
unfolding set_extend
generation_ids [] files = files
generation_ids (r ∷ branches) files =
    generation_ids branches (set_extend (map (λ page. page.generation) r.pages) files)

unfoldable pub page_accounting : List KvmGuestRam → RamAccounting
unfolding generation_ids
page_accounting branches =
    let references = count_branches (map page_ids branches) [] in
    record {
      resident_pages = entries references;
      shared_pages = shared references;
      backing_files = entries (generation_ids branches []);
    }

pub shared-le-resident_pages :
    (branches : List KvmGuestRam)
    → (page_accounting branches).shared_pages ≤ (page_accounting branches).resident_pages
unfolding page_accounting
shared-le-resident_pages branches = shared-le-entries (count_branches (map page_ids branches) [])
