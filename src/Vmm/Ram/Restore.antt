-- ===== src/Vmm/Ram/Restore.antt =====
-- crates/minidox-vmm/src/ram.rs: `restore`, which makes memories of the durable copies of their
-- pages and moves the counters of the process past their identities. The files of the generations
-- are a parameter, as in Durable; their lengths can be read once they are open.
use minidox.Prelude.{
  ℕ, ◌+◌, ◌*◌, ◌-◌, Bool, true, false, not, ◌&&◌, Option, none, some, List, [], ◌∷◌, if◌then◌else◌,
  ◌==◌, ltb, u64_mod, length,
}
use minidox.Prelude.Order.{nat_ord}
use minidox.Prelude.Map.{Map}
use minidox.Prelude.Step.{Step, pure, lift, modify, guard, ◌>>=◌, ◌>>◌}
use minidox.Vmm.{Error, backend}
use minidox.Vmm.Ram.{RamPage, RamHost, KvmGuestRam, ram_page_size}
use minidox.Vmm.Ram.Fork.{from_pages}
use minidox.Vmm.Ram.Durable.{RamPageState, RamState, restore_pages}

-- `max_page.max(page.id)` and `max_generation.max(page.generation)`
abbrev pub maximum : ℕ → ℕ → ℕ
maximum a b = if ltb a b then b else a

-- `id.saturating_add(1)`
abbrev pub saturating_next : ℕ → ℕ
saturating_next id = if id == u64_mod - 1 then id else id + 1

unfoldable pub max_in : (RamPageState → ℕ) → List RamPageState → ℕ
max_in field [] = 0
max_in field (page ∷ pages) = maximum (field page) (max_in field pages)

unfoldable pub max_over : (RamPageState → ℕ) → List RamState → ℕ
unfolding max_in
max_over field [] = 0
max_over field (state ∷ states) = maximum (max_in field state.pages) (max_over field states)

-- The two `fetch_max` calls.
unfoldable pub move_counters : List RamState → RamHost → RamHost
unfolding max_over
move_counters states h = record h {
  next_page_id = maximum h.next_page_id (saturating_next (max_over (λ page. page.id) states));
  next_generation_id =
      maximum h.next_generation_id (saturating_next (max_over (λ page. page.generation) states));
}

module _ (generation_len : ℕ → Option ℕ) where
  abbrev can_open : ℕ → Bool
  can_open generation = elim (generation_len generation) [ none ↦ false | some len ↦ true ]

  opens_pages : List RamPageState → Bool
  opens_pages [] = true
  opens_pages (page ∷ pages) = can_open page.generation && opens_pages pages

  -- Whether the file of every generation can be opened.
  opens_all : List RamState → Bool
  unfolding opens_pages
  opens_all [] = true
  opens_all (state ∷ states) = opens_pages state.pages && opens_all states

  -- The rounds over the branches; `pages` are those restored before, by identity.
  unfoldable pub restore_branches :
      {R : Type 0} → List RamState → Map ℕ RamPage → Step (R × RamHost) Error (List KvmGuestRam)
  unfolding restore_pages from_pages
  restore_branches [] pages = pure []
  restore_branches (state ∷ states) pages = do
    guard (not (length state.pages * ram_page_size == state.len)) backend
    found ← lift (restore_pages generation_len state.pages pages)
    memory ← from_pages state.len found.0
    restored ← restore_branches states found.1
    pure (memory ∷ restored)

  unfoldable pub restore :
      {R : Type 0} → List RamState → Step (R × RamHost) Error (List KvmGuestRam)
  unfolding opens_all restore_branches move_counters
  restore states = do
    guard (not (opens_all states)) backend
    restored ← restore_branches states []
    modify (λ m. (m.0, move_counters states m.1))
    pure restored
