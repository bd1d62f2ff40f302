-- ===== src/Vmm/Ram/Mapping.antt =====
-- crates/minidox-vmm/src/ram.rs: `map_run`, `map_selected_pages` and `map_all_pages`.
use minidox.Prelude.{
  ℕ, zero, suc, ◌+◌, ◌*◌, ◌-◌, Bool, true, false, ◌&&◌, List, [], ◌∷◌, ok_or, ◌==◌, length,
  get_elem?,
}
use minidox.Prelude.Order.{nat_ord}
use minidox.Prelude.Map
use minidox.Prelude.Map.{Map, Set, keys}
use minidox.Prelude.Step.{Step, pure, gets, modify, ◌>>=◌, ◌>>◌}
use minidox.Vmm.{Error, panicked}
use minidox.Vmm.Ram.{RamPage, KvmGuestRam, Ram, ram_page_size, system_call}

-- `mmap` over so many pages: what they mapped is gone, and so are their copies.
unfoldable pub map_pages :
    (count start generation offset : ℕ) (is_private : Bool) → KvmGuestRam → KvmGuestRam
map_pages zero start generation offset is_private r = r
map_pages (suc count) start generation offset is_private r =
    map_pages count (start + 1) generation (offset + ram_page_size) is_private (record r {
      mapped =
          Map.insert start
            (record { generation = generation; offset = offset; is_private = is_private }) r.mapped;
      copies = Map.remove start r.copies;
    })

unfoldable pub map_run :
    (start_page page_count generation generation_offset : ℕ) (is_private : Bool)
    → Step Ram Error (Unit {0})
unfolding map_pages
map_run start_page page_count generation generation_offset is_private = do
  system_call
  modify (λ m. (map_pages page_count start_page generation generation_offset is_private m.0, m.1))

-- `self.pages[index]`
unfoldable pub page_at : ℕ → Step Ram Error RamPage
page_at index m = (ok_or (get_elem? m.0.pages index) panicked, m)

-- Whether a page goes on with the run that starts at `start` and ends before `end`.
abbrev pub continues : (index start end generation offset : ℕ) → RamPage → Bool
continues index start end generation offset page =
    index == end
    && (page.generation == generation && page.offset == offset + (end - start) * ram_page_size)

-- The loop of `map_selected_pages` while a run is open. `selected.next()` takes the pages in order,
-- and the test on `selected.peek()` is made of the page that comes next.
unfoldable pub map_open :
    List ℕ → (start end generation offset : ℕ) (is_private : Bool) → Step Ram Error (Unit {0})
unfolding map_run
map_open [] start end generation offset is_private =
    map_run start (end - start) generation offset is_private
map_open (index ∷ selected) start end generation offset is_private = do
  page ← page_at index
  elim (continues index start end generation offset page) [
    | true ↦ map_open selected start (end + 1) generation offset is_private
    | false ↦
        map_run start (end - start) generation offset is_private
        >> map_open selected index (index + 1) page.generation page.offset is_private
  ]

unfoldable pub map_list : List ℕ → (is_private : Bool) → Step Ram Error (Unit {0})
unfolding map_open
map_list [] is_private = pure tt
map_list (start ∷ selected) is_private = do
  page ← page_at start
  map_open selected start (start + 1) page.generation page.offset is_private

unfoldable pub map_selected_pages : Set ℕ → (is_private : Bool) → Step Ram Error (Unit {0})
unfolding map_list
map_selected_pages selected is_private = map_list (keys selected) is_private

-- `start..start + count`
unfoldable pub range : (count start : ℕ) → List ℕ
range zero start = []
range (suc count) start = start ∷ range count (start + 1)

unfoldable pub map_all_pages : (is_private : Bool) → Step Ram Error (Unit {0})
unfolding map_list range
map_all_pages is_private =
    gets (λ m. length m.0.pages) >>= (λ count. map_list (range count 0) is_private)
