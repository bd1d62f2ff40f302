-- ===== src/Fork.antt =====
-- crates/minidox-fork/src/lib.rs: pages, page branches, and `read` and `write` over byte ranges.
-- A path is its bytes. `usize` has 64 bits, so `(end - cursor) as usize` changes nothing.
pub mod Bytes
pub mod Forest
pub mod Accounting
pub mod Supervisor
mod Tests
use minidox.Prelude.{
  ℕ, zero, suc, ◌+◌, ◌-◌, ◌*◌, ◌/◌, ◌%◌, min, Bool, true, false, Option, none, some, List, [], ◌∷◌,
  Result, ok, err, checked_add, ltb, length, get_or, replicate, slice, copy_from_slice,
}
use minidox.Prelude.Order.{bytes_ord, nat_ord, pair_ord}
use minidox.Io.{IoError}
use minidox.Cache.{CacheError}
use minidox.Overlay
use minidox.Overlay.{Generation, Branch}

abbrev pub page_size : ℕ
page_size = 4096

pub data Error : Type 0 where
  vm_not_found : ℕ → Error
  range_overflow page_id_overflow : Error
  io : IoError → Error
  cache : CacheError → Error

pub record Page : Type 0 where
  pub id : ℕ
  pub bytes : List ℕ

-- (path, page number)
abbrev pub FilePage : Type 0
FilePage = List ℕ × ℕ

abbrev pub PageGeneration : Type 0
PageGeneration = Generation FilePage Page

abbrev pub PageBranch : Type 0
PageBranch = Branch FilePage Page

abbrev pub zero_page : List ℕ
zero_page = replicate page_size 0

-- `self.page(&key).map_or_else(zeros, |page| page.bytes.clone())`
unfoldable pub contents : PageBranch → FilePage → List ℕ
contents b key = elim (Overlay.find b key) [ none ↦ zero_page | some page ↦ page.bytes ]

-- How many bytes of the range stand in the cursor's page.
abbrev pub count_at : ℕ → ℕ → ℕ
count_at cursor end = min (page_size - cursor % page_size) (end - cursor)

-- One round of the loop of `write`, but for the advance of the cursor: the branch with the page
-- stored under the next page identity.
unfoldable pub write_page :
    (path : List ℕ) (offset end : ℕ) (bytes : List ℕ) (cursor id : ℕ) → PageBranch → PageBranch
unfolding contents
write_page path offset end bytes cursor id b =
    let key : FilePage = (path, cursor / page_size) in
    let source = slice bytes (cursor - offset) (count_at cursor end) in
    Overlay.write key
      (record { id = id; bytes = copy_from_slice (contents b key) (cursor % page_size) source }) b

-- The loop of `write`. Each round advances the cursor, so the length of the range is fuel enough.
-- The result, the next page identity, and the branch.
unfoldable pub write_loop :
    ℕ
    → (path : List ℕ) (offset end : ℕ) (bytes : List ℕ) (cursor next_page : ℕ) → PageBranch
    → Result Error (Unit {0}) × ℕ × PageBranch
unfolding write_page
write_loop zero path offset end bytes cursor next_page b = (ok tt, next_page, b)
write_loop (suc fuel) path offset end bytes cursor next_page b = elim (ltb cursor end) [
  | false ↦ (ok tt, next_page, b)
  | true ↦ elim (checked_add next_page 1) [
    | none ↦ (err page_id_overflow, next_page, b)
    | some next_page' ↦
        write_loop fuel path offset end bytes (cursor + count_at cursor end) next_page'
          (write_page path offset end bytes cursor next_page b)
  ]
]

unfoldable pub write :
    (next_page : ℕ) (path : List ℕ) (offset : ℕ) (bytes : List ℕ)
    → PageBranch
    → Result Error (Unit {0}) × ℕ × PageBranch
unfolding write_loop
write next_page path offset bytes b = elim (checked_add offset (length bytes)) [
  | none ↦ (err range_overflow, next_page, b)
  | some end ↦ write_loop (length bytes) path offset end bytes offset next_page b
]

-- One round of the loop of `read`.
unfoldable pub read_page : (path : List ℕ) (offset end cursor : ℕ) → PageBranch → List ℕ → List ℕ
read_page path offset end cursor b result = elim (Overlay.find b (path, cursor / page_size)) [
  | none ↦ result
  | some page ↦
      copy_from_slice result (cursor - offset)
        (slice page.bytes (cursor % page_size) (count_at cursor end))
]

unfoldable pub read_loop :
    ℕ → (path : List ℕ) (offset end cursor : ℕ) → PageBranch → List ℕ → List ℕ
unfolding read_page
read_loop zero path offset end cursor b result = result
read_loop (suc fuel) path offset end cursor b result = elim (ltb cursor end) [
  | false ↦ result
  | true ↦
      read_loop fuel path offset end (cursor + count_at cursor end) b
        (read_page path offset end cursor b result)
]

unfoldable pub read : (path : List ℕ) (offset len : ℕ) → PageBranch → Result Error (List ℕ)
unfolding read_loop
read path offset len b = elim (checked_add offset len) [
  | none ↦ err range_overflow
  | some end ↦ ok (read_loop len path offset end offset b (replicate len 0))
]
