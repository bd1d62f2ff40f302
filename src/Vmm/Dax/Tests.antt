-- ===== src/Vmm/Dax/Tests.antt =====
-- A run of a DAX window of four pages, over a store with one file of two pages.
use minidox.Prelude.{
  ℕ, ◌+◌, ◌/◌, ◌≡◌, refl, true, false, none, some, List, [], ◌∷◌, ok, length, replicate,
  copy_from_slice, arith,
}
use minidox.Prelude.Order.{nat_ord, pair_ord}
use minidox.Prelude.Map.{get, insert, remove, keys}
use minidox.Prelude.Step.{◌>>=◌, pure, fail, lift, gets, modify, guard, attempt}
use minidox.Overlay
use minidox.Cache.Dirty
use minidox.Cache.Host.{from_bytes, system_call, duplicate, read_exact_at}
use minidox.Cache.Store.{ForkableNodeStore}
use minidox.Cache.State.{count_of, with_store_mut, branch_mut, on_host}
use minidox.Cache.Branches
use minidox.Cache.Branches.{open_node}
use minidox.Cache.Mapping.{
  update_branch, any_has, map_page, unmap, copy_page, fault_page, finish_map, load_page,
}
use minidox.Cache.Active.{active, active_in}
use minidox.Vmm.{catch, with_backend}
use minidox.Vmm.Dax.{MappingSpec, VirtioFs, Machine, mmap, on_cache, the_window, cache_io_error}
use minidox.Vmm.Dax.Mapping.{
  suspend_mappings, resume_mappings, activate_offsets, activate_loop, activate_offset, after_offset,
  release_mapping, remove_active, remove_offset, remove_offsets, roll_back, show_mapping,
}
use minidox.Vmm.Dax.Window.{
  page_offsets, add_specs, overlaps, after_setup, drop_specs, setup_mapping, remove_mapping,
}
use minidox.Vmm.Dax.Branch.{inodes_of, open_all, from_parts, fork}
use minidox.Vmm.Dax.Uses.{HasRoom, Valid}
use minidox.Vmm.Dax.Suspend.{idle-suspend_mappings}
use minidox.Vmm.Dax.Frame.{Framed}
use minidox.Vmm.Dax.Forks.{IsNew, specs-fork}
use minidox.Vmm.Dax.Setup.{specs_after, specs-setup_mapping}
use minidox.Vmm.Dax.Reach.{here, next, mapping_setup, mapping_removal, Reach-Valid}

abbrev store : ForkableNodeStore ℕ ℕ (ℕ × ℕ)
store = record {
  len = λ node s. (ok 8192, s);
  read_node = λ node offset count s. (ok (replicate count 7), s);
  write_node = λ node offset bytes s. (ok (length bytes), s);
  on_open_node = λ node s. (ok tt, s);
  on_close_node = λ node s. (ok tt, s);
  page_identity = λ node offset s. (ok (offset / 4096, s.0), s);
  prepare_page_write = λ node offset s. (ok (offset / 4096, s.1), (s.1, s.1 + 1));
  fork_store = λ s. (ok s.0, s);
}

abbrev machine : Machine ℕ ℕ (ℕ × ℕ)
machine = record {
  fs = record { lineage = 1; branch = 1; window = some (1048576, 16384); specs = []; active = [] };
  cache = record {
    id = 1;
    next_branch = 2;
    branches =
        (
          1,
          record {
            store = 0;
            open_nodes = (5, 1) ∷ [];
            active_pages = [];
            exclusive_pages = [];
            dirty_pages = Dirty.new;
          },
        )
        ∷ [];
    pages = [];
    known_pages = [];
    host = record { next_cache_id = 2; next_page_id = 1; contents = []; faults = [] };
    world = 1;
  };
  shown = [];
  faults = [];
}

-- The two pages of the file, writable, at the front of the window.
abbrev mapped : Machine ℕ ℕ (ℕ × ℕ)
mapped = (setup_mapping store 5 0 8192 true 0 machine).1

has_room : HasRoom 1 (length (page_offsets 2 0)) machine
unfolding get page_offsets active_in count_of
has_room page = ground arith

Reach-Valid_example :
    Valid 1 (λ at page. active at page machine.cache) (remove_mapping 0 4096 mapped).1
Reach-Valid_example = Reach-Valid store machine (remove_mapping 0 4096 mapped).1 refl refl (
    next (next here (mapping_setup machine 5 0 8192 true 0 has_room))
      (mapping_removal mapped 0 4096))

mapped-Valid : Valid 1 (λ at page. active at page machine.cache) mapped
mapped-Valid =
    Reach-Valid store machine mapped refl refl
      (next here (mapping_setup machine 5 0 8192 true 0 has_room))

suspends : (suspend_mappings mapped).0 ≡ ok tt
unfolding setup_mapping suspend_mappings ◌>>=◌ gets keys guard the_window lift overlaps modify catch
    activate_offsets page_offsets get add_specs insert on_cache with_store_mut map_page duplicate
    from_bytes read_exact_at system_call any_has copy_page fault_page finish_map load_page unmap
    update_branch branch_mut count_of on_host Overlay.write copy_from_slice remove attempt fail pure
    activate_loop activate_offset after_offset release_mapping remove_active remove_offset
    remove_offsets roll_back show_mapping after_setup drop_specs cache_io_error mmap
suspends = refl

idle-suspend_mappings_example :
    ((offset : ℕ) → get offset (suspend_mappings mapped).1.shown ≡ none)
    × ((at page : ℕ)
        → active at page (suspend_mappings mapped).1.cache ≡ active at page machine.cache)
    × ((suspend_mappings mapped).1.fs.active ≡ [])
idle-suspend_mappings_example =
    idle-suspend_mappings 1 (λ at page. active at page machine.cache) mapped mapped-Valid suspends

abbrev specified : Machine ℕ ℕ (ℕ × ℕ)
specified = record machine {
  fs = record machine.fs {
    specs = (4096, record { inode = 5; file_offset = 0; writable = true }) ∷ [];
  };
}

specs-setup_mapping_example :
    get 4096 mapped.fs.specs
    ≡ specs_after (setup_mapping store 5 0 8192 true 0 machine).0 5 0 8192 true 0 4096 []
specs-setup_mapping_example = specs-setup_mapping store 5 0 8192 true 0 machine 4096

abbrev two_specs : List (ℕ × MappingSpec)
two_specs =
    (0, record { inode = 5; file_offset = 4096; writable = false })
    ∷ (8192, record { inode = 5; file_offset = 0; writable = true })
    ∷ []

abbrev forked_fs : VirtioFs
forked_fs = record specified.fs { branch = 2; window = none; active = [] }

forks : (fork store specified).0 ≡ ok forked_fs
unfolding fork ◌>>=◌ with_backend suspend_mappings gets keys pure catch on_cache Branches.fork
    branch_mut get guard with_store_mut insert modify lift resume_mappings the_window open_node
    duplicate from_bytes read_exact_at system_call any_has copy_page fault_page finish_map load_page
    map_page unmap update_branch count_of on_host Overlay.fork Overlay.write copy_from_slice remove
    attempt fail from_parts inodes_of open_all activate_loop activate_offset activate_offsets
    after_offset release_mapping remove_active remove_offset remove_offsets roll_back show_mapping
    cache_io_error mmap
forks = refl

specs-fork_example :
    IsNew 1 specified.fs.specs forked_fs × Framed specified.fs (fork store specified).1
specs-fork_example = specs-fork store specified forked_fs forks
