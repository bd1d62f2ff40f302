-- ===== src/Vmm/Ram/RestoreTests.antt =====
-- A restore of a memory with two pages, in a process that has taken no identity yet.
use minidox.Prelude.{
  ℕ, zero, suc, ◌+◌, ◌*◌, ◌≡◌, ◌<◌, refl, sym, [], ◌∷◌, some, List, ok, length, get_elem?, subst,
  u64_mod, arith,
}
use minidox.Prelude.Order.{nat_ord, pair_ord}
use minidox.Prelude.Map
use minidox.Prelude.Map.{get}
use minidox.Prelude.Step.{lift, gets, modify, guard, ◌>>=◌}
use minidox.Vmm.Ram.{RamPage, RamHost, KvmGuestRam, page_bytes, system_call, ram_page_size}
use minidox.Vmm.Ram.Mapping.{page_at, map_all_pages}
use minidox.Vmm.Ram.Fork.{collect}
use minidox.Vmm.Ram.Seal.{IsValid}
use minidox.Vmm.Ram.Durable.{durable_state}
use minidox.Vmm.Ram.Restored.{Stand, Stands}
use minidox.Vmm.Ram.Restore.{restore}
use minidox.Vmm.Ram.Rebuilt.{some_inj}
use minidox.Vmm.Ram.Reloaded.{Numbered, page_bytes-restore, restore-IsValid}
use minidox.Vmm.Ram.Tests.{
  name_of, file_lengths, two_pages-Stands, fresh_pages, fresh_pages-IsValid, fresh_pages-Covers,
}

abbrev old_host : RamHost
old_host = record {
  next_page_id = 3;
  next_generation_id = 2;
  files = ((1, 4096), 7 ∷ 8 ∷ []) ∷ [];
  faults = [];
}

abbrev new_host : RamHost
new_host = record old_host { next_page_id = 1; next_generation_id = 1 }

abbrev new_process : Unit {0} × RamHost
new_process = (tt, new_host)

old-IsValid : IsValid fresh_pages old_host
old-IsValid = record {
  backed = fresh_pages-IsValid.backed;
  private_map = refl;
  old = fresh_pages-IsValid.old;
  apart = fresh_pages-IsValid.apart;
}

abbrev branches : List KvmGuestRam
branches = fresh_pages ∷ []

branches-Stand : Stand file_lengths name_of branches
branches-Stand = record { stands = stands; sized = sized }
  where
    stands :
        (i : ℕ) (r : KvmGuestRam)
        → get_elem? branches i ≡ some r
        → Stands file_lengths name_of r.pages
    stands zero r e = subst (λ q. Stands file_lengths name_of q.pages) (some_inj e) two_pages-Stands
    stands (suc i) r e = absurd (ground arith)

    sized :
        (i : ℕ) (r : KvmGuestRam)
        → get_elem? branches i ≡ some r
        → r.len ≡ length r.pages * ram_page_size
    sized zero r e = subst (λ q. q.len ≡ length q.pages * ram_page_size) (some_inj e) refl
    sized (suc i) r e = absurd (ground arith)

-- The identities are below the last one.
abbrev Below : RamPage → Type 0
Below page = (page.id + 1 < u64_mod) × (page.generation + 1 < u64_mod)

branches-Numbered : Numbered branches
branches-Numbered = record { below = below }
  where
    pages :
        (index : ℕ) (page : RamPage) → get_elem? fresh_pages.pages index ≡ some page → Below page
    pages zero page e = subst Below (some_inj e) (ground arith)
    pages (suc zero) page e = subst Below (some_inj e) (ground arith)
    pages (suc (suc index)) page e = absurd (ground arith)

    below :
        (i : ℕ) (r : KvmGuestRam)
        → get_elem? branches i ≡ some r
        → (index : ℕ) (page : RamPage) → get_elem? r.pages index ≡ some page
        → Below page
    below zero r e index page f =
        pages index page (subst (λ q. get_elem? q.pages index ≡ some page) (sym (some_inj e)) f)
    below (suc i) r e index page f = absurd (ground arith)

restores : (restore file_lengths (durable_state fresh_pages ∷ []) new_process).0 ≡ ok branches
unfolding restore ◌>>=◌ guard durable_state lift get Map.or_insert system_call map_all_pages gets
    page_at modify Map.remove
restores = refl

page_bytes-restore_example :
    (memory : KvmGuestRam) × ((get_elem? branches 0 ≡ some memory)
      × (page_bytes memory (restore file_lengths (durable_state fresh_pages ∷ []) new_process).1.1 1
          ≡ page_bytes fresh_pages old_host 1))
unfolding collect
page_bytes-restore_example =
    page_bytes-restore file_lengths name_of branches branches new_process branches-Stand old_host
      restores refl 0 fresh_pages refl old-IsValid fresh_pages-Covers 1 (ground arith)

restore-IsValid_example :
    (memory : KvmGuestRam) × ((get_elem? branches 0 ≡ some memory)
      × IsValid memory (restore file_lengths (durable_state fresh_pages ∷ []) new_process).1.1)
restore-IsValid_example =
    restore-IsValid file_lengths name_of branches branches new_process branches-Stand
      branches-Numbered restores 0 fresh_pages refl
