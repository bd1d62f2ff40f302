-- ===== src/Vmm/Ram/Tests.antt =====
-- Forks of a memory with two pages, one of them written since the last fork.
use minidox.Prelude.{
  ℕ, zero, suc, ◌≡◌, ◌<◌, refl, true, false, [], ◌∷◌, none, some, ok, get_elem?, arith,
}
use minidox.Prelude.Order.{nat_ord, pair_ord}
use minidox.Prelude.Map
use minidox.Prelude.Map.{Map, Set, get, keys, contains_key}
use minidox.Prelude.Step.{gets, modify, guard, ◌>>=◌}
use minidox.Vmm.Ram.{RamPage, RamHost, KvmGuestRam, page_bytes, system_call}
use minidox.Vmm.Ram.Mapping.{page_at, map_selected_pages, map_all_pages}
use minidox.Vmm.Ram.Fork.{
  zeroed, collect, check_pages, prepare_pages, prepare_copies, prepare_fork, fork_pages,
  fork_dirty_pages,
}
use minidox.Vmm.Ram.Runs.{backing_of}
use minidox.Vmm.Ram.Seal.{IsValid, Covers}
use minidox.Vmm.Ram.Bytes.{IsWhole}
use minidox.Vmm.Ram.Kept.{load_byte-write, read-write_ram, write-IsValid}
use minidox.Vmm.Ram.Kvm.{logged, bit_of, contains_key-logged}
use minidox.Vmm.Ram.Forked.{page_bytes-fork_dirty_pages, fork_dirty_pages-IsValid}
use minidox.Prelude.Step.{lift}
use minidox.Prelude.{length, length-replicate}
use minidox.Vmm.Ram.{ram_page_size, page_bytes, load_byte, checked_range, read, write}
use minidox.Prelude.{Option, ◌*◌, if◌then◌else◌, ◌==◌, subst}
use minidox.Vmm.Ram.Durable.{durable_state, restore_states, check_page}
use minidox.Vmm.Ram.Rebuilt.{some_inj}
use minidox.Vmm.Ram.Restored.{Stands, Stand, restore_states-durable_state}

abbrev pub two_pages : KvmGuestRam
two_pages = record {
  len = 8192;
  pages =
      (record { id = 1; generation = 1; offset = 0 })
      ∷ (record { id = 2; generation = 1; offset = 4096 })
      ∷ [];
  host_dirty = [];
  is_private = true;
  sealed = true;
  mapped =
      (0, (record { generation = 1; offset = 0; is_private = true }))
      ∷ (1, (record { generation = 1; offset = 4096; is_private = true }))
      ∷ [];
  copies = (1, 7 ∷ 8 ∷ []) ∷ [];
}

abbrev pub a_host : RamHost
a_host = record { next_page_id = 3; next_generation_id = 2; files = []; faults = [] }

abbrev the_child : KvmGuestRam
the_child = record {
  len = 8192;
  pages =
      (record { id = 1; generation = 1; offset = 0 })
      ∷ (record { id = 3; generation = 2; offset = 0 })
      ∷ [];
  host_dirty = [];
  is_private = true;
  sealed = true;
  mapped =
      (0, (record { generation = 1; offset = 0; is_private = true }))
      ∷ (1, (record { generation = 2; offset = 0; is_private = true }))
      ∷ [];
  copies = [];
}

pub two_pages-IsValid : IsValid two_pages a_host
unfolding get
two_pages-IsValid = record {
  backed = at;
  private_map = refl;
  old = below;
  apart = λ e. absurd (ground arith);
}
  where
    at : (index : ℕ) → get index two_pages.mapped ≡ backing_of (get_elem? two_pages.pages index)
    at zero = refl
    at (suc zero) = refl
    at (suc (suc index)) = ground arith

    below :
        (index : ℕ) (page : RamPage)
        → get_elem? two_pages.pages index ≡ some page
        → page.generation < 2
    below zero page e = ground arith
    below (suc zero) page e = ground arith
    below (suc (suc index)) page e = absurd (ground arith)

two_pages-Covers : Covers (collect (1 ∷ []) []) two_pages
unfolding get collect Map.insert
two_pages-Covers = record { clean = clean }
  where
    clean :
        (index : ℕ)
        → contains_key index (collect (1 ∷ []) []) ≡ false
        → get index two_pages.copies ≡ none
    clean zero e = refl
    clean (suc zero) e = absurd (ground arith)
    clean (suc (suc index)) e = ground arith

forks : (fork_dirty_pages (1 ∷ []) (two_pages, a_host)).0 ≡ ok the_child
unfolding fork_dirty_pages fork_pages collect check_pages prepare_fork prepare_copies zeroed
    prepare_pages ◌>>=◌ gets guard keys system_call modify Map.insert get map_selected_pages page_at
    map_all_pages Map.remove
forks = refl

page_bytes-fork_dirty_pages_example :
    let m = (fork_dirty_pages (1 ∷ []) (two_pages, a_host)).1 in
    (page_bytes m.0 m.1 1 ≡ page_bytes two_pages a_host 1)
    × (page_bytes the_child m.1 1 ≡ page_bytes two_pages a_host 1)
page_bytes-fork_dirty_pages_example =
    page_bytes-fork_dirty_pages two_pages a_host two_pages-IsValid (ground arith) (1 ∷ [])
      two_pages-Covers the_child forks 1 (ground arith)

fork_dirty_pages-IsValid_example :
    let m = (fork_dirty_pages (1 ∷ []) (two_pages, a_host)).1 in
    (IsValid m.0 m.1 × Covers [] m.0) × (IsValid the_child m.1 × Covers [] the_child)
fork_dirty_pages-IsValid_example =
    fork_dirty_pages-IsValid two_pages a_host two_pages-IsValid (ground arith) (1 ∷ [])
      two_pages-Covers the_child forks

-- A memory that was never written.
abbrev pub fresh_pages : KvmGuestRam
fresh_pages = record two_pages { copies = [] }

pub fresh_pages-IsValid : IsValid fresh_pages a_host
fresh_pages-IsValid = record {
  backed = two_pages-IsValid.backed;
  private_map = refl;
  old = two_pages-IsValid.old;
  apart = λ e. absurd (ground arith);
}

fresh_pages-IsWhole : IsWhole fresh_pages a_host
unfolding page_bytes get
fresh_pages-IsWhole = record { sized = refl; whole = at }
  where
    at :
        (index : ℕ)
        → index < length fresh_pages.pages
        → length (page_bytes fresh_pages a_host index) ≡ ram_page_size
    at zero below = length-replicate {A = ℕ} ram_page_size 0
    at (suc zero) below = length-replicate {A = ℕ} ram_page_size 0
    at (suc (suc index)) below = absurd (omega arith)

pub fresh_pages-Covers : Covers (collect [] []) fresh_pages
unfolding get
fresh_pages-Covers = record { clean = λ index e. refl }

writes : (write 4094 (7 ∷ 8 ∷ 9 ∷ []) (fresh_pages, a_host)).0 ≡ ok tt
unfolding write ◌>>=◌ checked_range lift gets guard modify
writes = refl

load_byte-write_example : load_byte 4096 (write 4094 (7 ∷ 8 ∷ 9 ∷ []) (fresh_pages, a_host)).1 ≡ 9
load_byte-write_example =
    load_byte-write fresh_pages a_host fresh_pages-IsValid fresh_pages-IsWhole 4094 (7 ∷ 8 ∷ 9 ∷ [])
      writes 4096

read-write_ram_example :
    (read 4094 3 (write 4094 (7 ∷ 8 ∷ 9 ∷ []) (fresh_pages, a_host)).1).0 ≡ ok (7 ∷ 8 ∷ 9 ∷ [])
read-write_ram_example =
    read-write_ram fresh_pages a_host fresh_pages-IsValid fresh_pages-IsWhole 4094 (7 ∷ 8 ∷ 9 ∷ [])
      writes

write-IsValid_example :
    let m = (write 4094 (7 ∷ 8 ∷ 9 ∷ []) (fresh_pages, a_host)).1 in
    (IsValid m.0 m.1 × IsWhole m.0 m.1) × Covers (collect [] m.0.host_dirty) m.0
write-IsValid_example =
    write-IsValid fresh_pages a_host fresh_pages-IsValid fresh_pages-IsWhole 4094 (7 ∷ 8 ∷ 9 ∷ [])
      [] fresh_pages-Covers

-- The log has the second page, which `host_dirty` does not hold.
contains_key-logged_example : contains_key 1 (logged (2 ∷ []) two_pages) ≡ true
unfolding bit_of
contains_key-logged_example = contains_key-logged (2 ∷ []) two_pages 1

abbrev pub name_of : ℕ → RamPage
name_of id =
    if id == 1
    then (record { id = 1; generation = 1; offset = 0 })
    else if id == 2
    then (record { id = 2; generation = 1; offset = 4096 })
    else (record { id = 3; generation = 2; offset = 0 })

abbrev pub file_lengths : ℕ → Option ℕ
file_lengths generation = some (if generation == 1 then 8192 else 4096)

pub two_pages-Stands : Stands file_lengths name_of two_pages.pages
unfolding check_page
two_pages-Stands = record { named = named; checked = checked }
  where
    named :
        (i : ℕ) (page : RamPage) → get_elem? two_pages.pages i ≡ some page → name_of page.id ≡ page
    named zero page e = subst (λ p. name_of p.id ≡ p) (some_inj e) refl
    named (suc zero) page e = subst (λ p. name_of p.id ≡ p) (some_inj e) refl
    named (suc (suc i)) page e = absurd (ground arith)

    checked :
        (i : ℕ) (page : RamPage)
        → get_elem? two_pages.pages i ≡ some page
        → check_page file_lengths
            (record { id = page.id; generation = page.generation; offset = page.offset })
          ≡ true
    checked zero page e =
        subst
          (λ p.
            check_page file_lengths
              (record { id = p.id; generation = p.generation; offset = p.offset })
            ≡ true)
          (some_inj e) refl
    checked (suc zero) page e =
        subst
          (λ p.
            check_page file_lengths
              (record { id = p.id; generation = p.generation; offset = p.offset })
            ≡ true)
          (some_inj e) refl
    checked (suc (suc i)) page e = absurd (ground arith)

two_memories-Stand : Stand file_lengths name_of (two_pages ∷ two_pages ∷ [])
two_memories-Stand = record { stands = stands; sized = sized }
  where
    stands :
        (i : ℕ) (r : KvmGuestRam)
        → get_elem? (two_pages ∷ two_pages ∷ []) i ≡ some r
        → Stands file_lengths name_of r.pages
    stands zero r e = subst (λ q. Stands file_lengths name_of q.pages) (some_inj e) two_pages-Stands
    stands (suc zero) r e =
        subst (λ q. Stands file_lengths name_of q.pages) (some_inj e) two_pages-Stands
    stands (suc (suc i)) r e = absurd (ground arith)

    sized :
        (i : ℕ) (r : KvmGuestRam)
        → get_elem? (two_pages ∷ two_pages ∷ []) i ≡ some r
        → r.len ≡ length r.pages * ram_page_size
    sized zero r e = subst (λ q. q.len ≡ length q.pages * ram_page_size) (some_inj e) refl
    sized (suc zero) r e = subst (λ q. q.len ≡ length q.pages * ram_page_size) (some_inj e) refl
    sized (suc (suc i)) r e = absurd (ground arith)

restore_states-durable_state_example :
    (all : Map ℕ RamPage) × (restore_states file_lengths
        (durable_state two_pages ∷ durable_state two_pages ∷ [])
        []
      ≡ ok (two_pages.pages ∷ two_pages.pages ∷ [], all))
restore_states-durable_state_example =
    restore_states-durable_state file_lengths name_of (two_pages ∷ two_pages ∷ [])
      two_memories-Stand
