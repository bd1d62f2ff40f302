-- ===== src/Vmm/Ram/LiveTests.antt =====
-- A fork that copies the second page of a memory while the guest writes the first.
use minidox.Prelude.{ℕ, zero, suc, ◌≡◌, refl, true, false, [], ◌∷◌, none, ok, arith}
use minidox.Prelude.Order.{nat_ord, pair_ord}
use minidox.Prelude.Map
use minidox.Prelude.Map.{Map, Set, get, keys, contains_key}
use minidox.Prelude.Step.{gets, modify, guard, ◌>>=◌}
use minidox.Vmm.Ram.{RamHost, KvmGuestRam, page_bytes, system_call}
use minidox.Vmm.Ram.Mapping.{page_at, map_selected_pages, map_all_pages}
use minidox.Vmm.Ram.Fork.{
  RamForkPreparation, RamForkBranch, collect, prepare_fork, finish_prepared_branch, materialize,
}
use minidox.Vmm.Ram.Seal.{Covers}
use minidox.Vmm.Ram.Live.{Ran, page_bytes-finish_prepared_branch}
use minidox.Vmm.Ram.Tests.{two_pages, a_host, two_pages-IsValid}

abbrev preparation : RamForkPreparation
preparation = record {
  generation = 2;
  pages = (1, record { id = 3; generation = 2; offset = 0 }) ∷ [];
  seals_existing_generation = false;
}

abbrev written_since : KvmGuestRam
written_since = record two_pages { copies = (0, 5 ∷ []) ∷ (1, 7 ∷ 8 ∷ []) ∷ [] }

abbrev a_branch : RamForkBranch
a_branch = record {
  len = 8192;
  pages =
      (record { id = 4; generation = 2; offset = 4096 })
      ∷ (record { id = 3; generation = 2; offset = 0 })
      ∷ [];
}

abbrev the_child : KvmGuestRam
the_child = record {
  len = 8192;
  pages = a_branch.pages;
  host_dirty = [];
  is_private = true;
  sealed = true;
  mapped =
      (0, record { generation = 2; offset = 4096; is_private = true })
      ∷ (1, record { generation = 2; offset = 0; is_private = true })
      ∷ [];
  copies = [];
}

abbrev at_pause : RamHost
at_pause = (prepare_fork (1 ∷ []) (two_pages, a_host)).1.1

prepares : (prepare_fork (1 ∷ []) (two_pages, a_host)).0 ≡ ok preparation
unfolding prepare_fork ◌>>=◌ keys collect Map.insert gets guard system_call modify
prepares = refl

finishes : (finish_prepared_branch preparation (0 ∷ []) (written_since, at_pause)).0 ≡ ok a_branch
unfolding finish_prepared_branch prepare_fork ◌>>=◌ gets guard keys collect Map.insert get
    system_call modify map_selected_pages page_at
finishes = refl

materializes :
    (materialize a_branch
      (finish_prepared_branch preparation (0 ∷ []) (written_since, at_pause)).1).0
    ≡ ok the_child
unfolding materialize finish_prepared_branch prepare_fork ◌>>=◌ system_call gets guard keys collect
    Map.insert get modify map_selected_pages page_at map_all_pages Map.remove
materializes = refl

ran : Ran (collect (0 ∷ []) []) two_pages written_since
unfolding get collect Map.insert
ran = record { same_memory = refl; unwritten = at }
  where
    at :
        (index : ℕ)
        → contains_key index (collect (0 ∷ []) []) ≡ false
        → get index written_since.copies ≡ get index two_pages.copies
    at zero e = absurd (ground arith)
    at (suc zero) e = refl
    at (suc (suc index)) e = ground arith

covers : Covers (collect (1 ∷ []) (collect (0 ∷ []) [])) written_since
unfolding get collect Map.insert
covers = record { clean = at }
  where
    at :
        (index : ℕ)
        → contains_key index (collect (1 ∷ []) (collect (0 ∷ []) [])) ≡ false
        → get index written_since.copies ≡ none
    at zero e = absurd (ground arith)
    at (suc zero) e = absurd (ground arith)
    at (suc (suc index)) e = ground arith

page_bytes-finish_prepared_branch_example :
    let m =
      (materialize a_branch
        (finish_prepared_branch preparation (0 ∷ []) (written_since, at_pause)).1).1 in
    (page_bytes m.0 m.1 0 ≡ page_bytes written_since at_pause 0)
    × (page_bytes the_child m.1 0 ≡ page_bytes written_since at_pause 0)
page_bytes-finish_prepared_branch_example =
    page_bytes-finish_prepared_branch two_pages a_host two_pages-IsValid refl (ground arith)
      (1 ∷ []) preparation prepares written_since (0 ∷ []) ran covers a_branch finishes the_child
      materializes 0 (ground arith)
