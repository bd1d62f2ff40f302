-- ===== src/Vmm/Ram/Durable.antt =====
-- crates/minidox-vmm/src/ram.rs: the durable copy of a memory's pages, and how `restore` checks it.
-- What the files of the generations are is a parameter: the length of each that can be opened.
use minidox.Prelude.{
  ℕ, ◌+◌, ◌*◌, ◌-◌, ◌%◌, Bool, false, not, ◌&&◌, ◌||◌, Option, none, some, List, [], ◌∷◌, Result,
  ok, err, if◌then◌else◌, ◌==◌, ltb, u64_mod, length,
}
use minidox.Prelude.Order.{nat_ord}
use minidox.Prelude.Map
use minidox.Prelude.Map.{Map, get, get-insert}
use minidox.Vmm.{Error, backend}
use minidox.Vmm.Ram.{RamPage, KvmGuestRam, ram_page_size}

pub record RamPageState : Type 0 where
  pub id : ℕ
  pub generation : ℕ
  pub offset : ℕ

pub record RamState : Type 0 where
  pub len : ℕ
  pub pages : List RamPageState

unfoldable pub page_states : List RamPage → List RamPageState
page_states [] = []
page_states (page ∷ pages) =
    (record { id = page.id; generation = page.generation; offset = page.offset })
    ∷ page_states pages

-- The answer of `durable_state`, once the generations are persisted.
unfoldable pub durable_state : KvmGuestRam → RamState
unfolding page_states
durable_state r = record { len = r.len; pages = page_states r.pages }

-- `offset.saturating_add(RAM_PAGE_SIZE)`
abbrev pub saturating_end : ℕ → ℕ
saturating_end offset =
    if ltb (offset + ram_page_size) u64_mod then offset + ram_page_size else u64_mod - 1

abbrev pub restored_page : RamPageState → RamPage
restored_page page = record { id = page.id; generation = page.generation; offset = page.offset }

-- Whether a page is refused that has the identity of one restored before.
abbrev pub conflicts : RamPageState → Option RamPage → Bool
conflicts page none = false
conflicts page (some existing) =
    not (existing.generation == page.generation) || not (existing.offset == page.offset)

module _ (generation_len : ℕ → Option ℕ) where
  -- The range of a page in the file of its generation.
  unfoldable pub check_page : RamPageState → Bool
  check_page page = elim (generation_len page.generation) [
    | none ↦ false
    | some len ↦ page.offset % ram_page_size == 0 && not (ltb len (saturating_end page.offset))
  ]

  -- The loop over the pages of a branch; `pages` are those restored before, by identity.
  unfoldable pub restore_pages :
      List RamPageState → Map ℕ RamPage → Result Error (List RamPage × Map ℕ RamPage)
  unfolding check_page
  restore_pages [] pages = ok ([], pages)
  restore_pages (page ∷ rest) pages =
      let restored = restore_pages rest (Map.or_insert page.id (restored_page page) pages) in
      if not (check_page page) || conflicts page (get page.id pages)
      then err backend
      else elim restored [
        | err error ↦ err error
        | ok (others, all) ↦ ok (restored_page page ∷ others, all)
      ]

  -- The rounds over the branches, without the mapping of their pages, for which see Restore.
  unfoldable pub restore_states :
      List RamState → Map ℕ RamPage → Result Error (List (List RamPage) × Map ℕ RamPage)
  unfolding restore_pages
  restore_states [] pages = ok ([], pages)
  restore_states (state ∷ states) pages =
      if not (length state.pages * ram_page_size == state.len)
      then err backend
      else elim (restore_pages state.pages pages) [
        | err error ↦ err error
        | ok (branch_pages, known) ↦ elim (restore_states states known) [
          | err error ↦ err error
          | ok (others, all) ↦ ok (branch_pages ∷ others, all)
        ]
      ]
