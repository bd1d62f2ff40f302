-- ===== src/Fork/Accounting.antt =====
-- crates/minidox-fork/src/lib.rs: `visible_pages`, `add_retained_page_ids`, `account_pages` and
-- `ForkForest::page_accounting`.
pub mod Laws
use minidox.Prelude.{ℕ, Bool, true, false, List, [], ◌∷◌}
use minidox.Prelude.Order.{bytes_ord, nat_ord, pair_ord}
use minidox.Prelude.Map.{Map, insert, values}
use minidox.Overlay
use minidox.Overlay.{Generation, first, over}
use minidox.Accounting
use minidox.Accounting.{Set, contains, set_extend, add_reference}
use minidox.Fork.{Page, FilePage, PageBranch, PageGeneration}
use minidox.Fork.Forest.{VmState, ForkForest}

pub record SpaceAccounting : Type 0 where
  pub resident_pages : ℕ
  pub shared_pages : ℕ

pub record PageAccounting : Type 0 where
  pub memory : SpaceAccounting
  pub filesystem : SpaceAccounting

-- `map.values().map(|page| page.id)`
unfoldable pub page_ids : Map FilePage Page → List ℕ
page_ids [] = []
page_ids ((key, page) ∷ m) = page.id ∷ page_ids m

unfoldable pub visible_pages : PageBranch → Map FilePage Page
visible_pages b = Overlay.visible b

unfoldable pub generation_ids : PageGeneration → Set → Set
unfolding page_ids
generation_ids (first m) retained = set_extend (page_ids m) retained
generation_ids (over parent m) retained = generation_ids parent (set_extend (page_ids m) retained)

unfoldable pub add_retained_page_ids : PageBranch → Set → Set
unfolding generation_ids
add_retained_page_ids b retained = generation_ids b.base (set_extend (page_ids b.writes) retained)

-- `for page in visible { if pages_in_vm.insert(page.id) { references += 1 } }`
unfoldable pub count_vm : List ℕ → Set → Map ℕ ℕ → Map ℕ ℕ
count_vm [] pages_in_vm references = references
count_vm (id ∷ ids) pages_in_vm references = elim (contains id pages_in_vm) [
  | true ↦ count_vm ids pages_in_vm references
  | false ↦ count_vm ids (insert id tt pages_in_vm) (add_reference id references)
]

unfoldable pub account_loop : List PageBranch → Set → Map ℕ ℕ → Set × Map ℕ ℕ
unfolding add_retained_page_ids visible_pages count_vm
account_loop [] resident references = (resident, references)
account_loop (branch ∷ branches) resident references =
    account_loop branches (add_retained_page_ids branch resident)
      (count_vm (page_ids (visible_pages branch)) [] references)

unfoldable pub account_pages : List PageBranch → SpaceAccounting
unfolding account_loop
account_pages branches =
    let (resident, references) = account_loop branches [] [] in
    record {
      resident_pages = Accounting.entries resident;
      shared_pages = Accounting.shared references;
    }

unfoldable pub memories : List VmState → List PageBranch
memories [] = []
memories (vm ∷ vms) = vm.memory ∷ memories vms

unfoldable pub filesystems : List VmState → List PageBranch
filesystems [] = []
filesystems (vm ∷ vms) = vm.filesystem ∷ filesystems vms

unfoldable pub page_accounting : ForkForest → PageAccounting
unfolding account_pages memories filesystems values
page_accounting f = record {
  memory = account_pages (memories (values f.vms));
  filesystem = account_pages (filesystems (values f.vms));
}
