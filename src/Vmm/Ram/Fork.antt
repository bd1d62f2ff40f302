-- ===== src/Vmm/Ram/Fork.antt =====
-- crates/minidox-vmm/src/ram.rs: `new`, the forks of a memory, and the seal before a checkpoint. The
-- pages that KVM logs as dirty are an argument.
use minidox.Prelude.{
  ℕ, zero, suc, ◌+◌, ◌*◌, ◌/◌, ◌%◌, Bool, true, false, not, ◌||◌, none, some, List, [], ◌∷◌, ok,
  err, next_id, if◌then◌else◌, ◌==◌, ltb, length, set, take, drop, ◌++◌,
}
use minidox.Prelude.Order.{nat_ord, pair_ord}
use minidox.Prelude.Map
use minidox.Prelude.Map.{Map, Set, keys}
use minidox.Prelude.Step.{Step, pure, gets, modify, guard, ◌>>=◌, ◌>>◌}
use minidox.Vmm.{Error, backend, invalid_ram_size, invalid_dirty_page}
use minidox.Vmm.Ram.{
  RamPage, RamHost, KvmGuestRam, Ram, ram_page_size, page_bytes, file_page, system_call,
}
use minidox.Vmm.Ram.Mapping.{page_at, map_selected_pages, map_all_pages}

pub record RamForkPreparation : Type 0 where
  pub generation : ℕ
  pub pages : Map ℕ RamPage
  pub seals_existing_generation : Bool

pub record RamForkBranch : Type 0 where
  pub len : ℕ
  pub pages : List RamPage

-- `RamGeneration::zeroed`: `tempfile`, `set_len`, and then the identity.
unfoldable pub zeroed : {R : Type 0} → Step (R × RamHost) Error ℕ
zeroed = do
  system_call
  system_call
  generation ← gets (λ m. m.1.next_generation_id)
  modify (λ m. (m.0, record m.1 { next_generation_id = next_id m.1.next_generation_id }))
  pure generation

-- `RamPage::new`
unfoldable pub new_page : {R : Type 0} → (generation offset : ℕ) → Step (R × RamHost) Error RamPage
new_page generation offset = do
  id ← gets (λ m. m.1.next_page_id)
  modify (λ m. (m.0, record m.1 { next_page_id = next_id m.1.next_page_id }))
  pure (record { id = id; generation = generation; offset = offset })

-- The loop of `pwrite` calls over one page, up to its last call: one that fails leaves what those
-- before it wrote, which is less than a page.
unfoldable pub copy_calls : (index generation offset : ℕ) → Step Ram Error (Unit {0})
copy_calls index generation offset (r, h) = elim h.faults [
  | [] ↦ (ok tt, (r, h))
  | none ∷ faults ↦ (ok tt, (r, record h { faults = faults }))
  | some written ∷ faults ↦ (
    err backend,
    (
      r,
      record h {
        faults = faults;
        files =
            Map.insert (generation, offset)
              (take (written % ram_page_size) (page_bytes r h index)
                ++ drop (written % ram_page_size) (file_page h generation offset))
              h.files;
      },
    ),
  )
]

-- Once the loop ends, the file holds the page.
unfoldable pub copy_page_to : (index generation offset : ℕ) → Step Ram Error (Unit {0})
unfolding copy_calls
copy_page_to index generation offset = do
  copy_calls index generation offset
  modify (λ m. (
    m.0,
    record m.1 { files = Map.insert (generation, offset) (page_bytes m.0 m.1 index) m.1.files },
  ))

-- An empty memory at a fresh reservation.
abbrev pub reserved : ℕ → List RamPage → (sealed : Bool) → KvmGuestRam
reserved len pages sealed = record {
  len = len;
  pages = pages;
  host_dirty = [];
  is_private = true;
  sealed = sealed;
  mapped = [];
  copies = [];
}

-- The pages of a new memory, in order.
unfoldable pub new_pages :
    (count generation offset : ℕ) → Step (Unit {0} × RamHost) Error (List RamPage)
unfolding new_page
new_pages zero generation offset = pure []
new_pages (suc count) generation offset = do
  page ← new_page generation offset
  pages ← new_pages count generation (offset + ram_page_size)
  pure (page ∷ pages)

-- A method of another memory, on the same host.
unfoldable pub on_memory :
    {R : Type 0} → KvmGuestRam → Step Ram Error (Unit {0}) → Step (R × RamHost) Error KvmGuestRam
on_memory ram operation (r, h) =
    let (result, (ram', h')) = operation (ram, h) in
    (elim result [ ok u ↦ ok ram' | err error ↦ err error ], (r, h'))

-- `from_pages`: `reserve` and the mapping of every page.
unfoldable pub from_pages : {R : Type 0} → ℕ → List RamPage → Step (R × RamHost) Error KvmGuestRam
unfolding on_memory
from_pages len pages = system_call >> on_memory (reserved len pages true) (map_all_pages true)

unfoldable pub new : ℕ → Step (Unit {0} × RamHost) Error KvmGuestRam
unfolding zeroed new_pages on_memory
new len = do
  guard (len == 0 || not (len % ram_page_size == 0)) (invalid_ram_size len)
  system_call
  generation ← zeroed
  pages ← new_pages (len / ram_page_size) generation 0
  on_memory (reserved len pages false) (map_all_pages true)

-- `pages.iter().copied().collect::<BTreeSet<_>>()`, into `dirty`.
unfoldable pub collect : List ℕ → Set ℕ → Set ℕ
collect [] dirty = dirty
collect (page ∷ pages) dirty = collect pages (Map.insert page tt dirty)

-- The first index that is no page of the memory ends the method.
unfoldable pub check_pages : List ℕ → Step Ram Error (Unit {0})
check_pages [] = pure tt
check_pages (page ∷ pages) = do
  count ← gets (λ m. length m.0.pages)
  guard (not (ltb page count)) (invalid_dirty_page page count)
  check_pages pages

-- A copy of each page to where it is mapped from.
unfoldable pub copy_back : List ℕ → Step Ram Error (Unit {0})
unfolding copy_page_to
copy_back [] = pure tt
copy_back (index ∷ indexes) = do
  backing ← page_at index
  copy_page_to index backing.generation backing.offset
  copy_back indexes

-- The loop of `prepare_fork`, from a place in the new generation on.
unfoldable pub prepare_pages :
    List ℕ → (generation offset : ℕ) → Map ℕ RamPage → Step Ram Error (Map ℕ RamPage)
unfolding copy_page_to new_page
prepare_pages [] generation offset prepared = pure prepared
prepare_pages (page ∷ pages) generation offset prepared = do
  copy_page_to page generation offset
  copy ← new_page generation offset
  prepare_pages pages generation (offset + ram_page_size) (Map.insert page copy prepared)

-- The branch of `prepare_fork` under `if !self.sealed`, and the rest.
unfoldable pub prepare_seal : List ℕ → Step Ram Error RamForkPreparation
unfolding copy_back
prepare_seal pages = do
  copy_back pages
  first ← page_at 0
  pure (record { generation = first.generation; pages = []; seals_existing_generation = true })

unfoldable pub prepare_copies : List ℕ → Step Ram Error RamForkPreparation
unfolding zeroed prepare_pages
prepare_copies pages = do
  generation ← zeroed
  prepared ← prepare_pages pages generation 0 []
  pure (record { generation = generation; pages = prepared; seals_existing_generation = false })

unfoldable pub prepare_fork : List ℕ → Step Ram Error RamForkPreparation
unfolding check_pages prepare_seal prepare_copies
prepare_fork pages = do
  check_pages (keys (collect pages []))
  sealed ← gets (λ m. m.0.sealed)
  (if sealed
      then prepare_copies (keys (collect pages []))
      else prepare_seal (keys (collect pages [])))

-- One round of the loop of `finish_prepared_pages` over the dirty pages: a page that was prepared is
-- copied again, another gets a place at the end of the generation. The place that follows and the
-- pages are the answer.
unfoldable pub recopy_page :
    (index generation next_offset : ℕ) → Map ℕ RamPage → Step Ram Error (ℕ × Map ℕ RamPage)
unfolding copy_page_to new_page
recopy_page index generation next_offset prepared = elim (Map.get index prepared) [
  | some page ↦ copy_page_to index generation page.offset >> pure (next_offset, prepared)
  | none ↦ do
    system_call
    page ← new_page generation next_offset
    copy_page_to index generation page.offset
    pure (next_offset + ram_page_size, Map.insert index page prepared)
]

unfoldable pub recopy_pages :
    List ℕ → (generation next_offset : ℕ) → Map ℕ RamPage → Step Ram Error (Map ℕ RamPage)
unfolding recopy_page
recopy_pages [] generation next_offset prepared = pure prepared
recopy_pages (index ∷ dirty) generation next_offset prepared = do
  next ← recopy_page index generation next_offset prepared
  recopy_pages dirty generation next.0 next.1

-- `for (index, page) in preparation.pages { self.pages[index] = page; }`
unfoldable pub replace_pages : Map ℕ RamPage → List RamPage → List RamPage
replace_pages [] pages = pages
replace_pages ((index, page) ∷ prepared) pages = replace_pages prepared (set pages index page)

-- The set of the keys.
unfoldable pub key_set : Map ℕ RamPage → Set ℕ
key_set [] = []
key_set ((index, page) ∷ prepared) = Map.insert index tt (key_set prepared)

unfoldable pub discard_private_pages : Step Ram Error (Unit {0})
discard_private_pages = system_call >> modify (λ m. (record m.0 { copies = [] }, m.1))

abbrev pub seal : KvmGuestRam → KvmGuestRam
seal r = record r { sealed = true; host_dirty = [] }

abbrev pub branch_of : KvmGuestRam → RamForkBranch
branch_of r = record { len = r.len; pages = r.pages }

-- The three branches of `finish_prepared_pages`.
unfoldable pub finish_seal : Set ℕ → Step Ram Error (Unit {0})
unfolding copy_back discard_private_pages
finish_seal dirty = do
  copy_back (keys dirty)
  discard_private_pages
  modify (λ m. (record m.0 { is_private = true }, m.1))

unfoldable pub finish_copies : RamForkPreparation → Set ℕ → Step Ram Error (Unit {0})
unfolding recopy_pages replace_pages key_set
finish_copies preparation dirty = do
  prepared ←
      recopy_pages (keys dirty) preparation.generation
        (length (keys preparation.pages) * ram_page_size) preparation.pages
  modify (λ m. (record m.0 { pages = replace_pages prepared m.0.pages }, m.1))
  map_selected_pages (key_set prepared) true

unfoldable pub finish_shared : Step Ram Error (Unit {0})
finish_shared = map_all_pages true >> modify (λ m. (record m.0 { is_private = true }, m.1))

unfoldable pub finish_prepared_pages : RamForkPreparation → Set ℕ → Step Ram Error RamForkBranch
unfolding finish_seal finish_copies finish_shared
finish_prepared_pages preparation dirty = do
  is_private ← gets (λ m. m.0.is_private)
  (if preparation.seals_existing_generation
      then finish_seal dirty
      else if is_private
      then finish_copies preparation dirty
      else finish_shared)
  modify (λ m. (seal m.0, m.1))
  gets (λ m. branch_of m.0)

unfoldable pub materialize : RamForkBranch → Step Ram Error KvmGuestRam
unfolding from_pages
materialize branch = from_pages branch.len branch.pages

unfoldable pub finish_prepared_branch : RamForkPreparation → List ℕ → Step Ram Error RamForkBranch
unfolding check_pages finish_prepared_pages
finish_prepared_branch preparation pages_dirtied_during_copy = do
  host_dirty ← gets (λ m. m.0.host_dirty)
  check_pages pages_dirtied_during_copy
  finish_prepared_pages preparation (collect pages_dirtied_during_copy host_dirty)

unfoldable pub fork_pages : Set ℕ → Step Ram Error KvmGuestRam
unfolding prepare_fork finish_prepared_pages materialize
fork_pages dirty = do
  preparation ← prepare_fork []
  branch ← finish_prepared_pages preparation dirty
  materialize branch

unfoldable pub seal_pages : Set ℕ → Step Ram Error (Unit {0})
unfolding prepare_fork finish_prepared_pages
seal_pages dirty = do
  preparation ← prepare_fork []
  branch ← finish_prepared_pages preparation dirty
  pure tt

unfoldable pub fork_dirty_pages : List ℕ → Step Ram Error KvmGuestRam
unfolding check_pages fork_pages
fork_dirty_pages pages = do
  host_dirty ← gets (λ m. m.0.host_dirty)
  check_pages pages
  fork_pages (collect pages host_dirty)

unfoldable pub seal_dirty_pages : List ℕ → Step Ram Error (Unit {0})
unfolding check_pages seal_pages
seal_dirty_pages pages = do
  host_dirty ← gets (λ m. m.0.host_dirty)
  check_pages pages
  seal_pages (collect pages host_dirty)
