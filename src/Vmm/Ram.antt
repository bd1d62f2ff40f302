-- ===== src/Vmm/Ram.antt =====
-- crates/minidox-vmm/src/ram.rs: `KvmGuestRam`, guest memory over page files that forks share. The
-- memory is given page by page: what each page maps, and the private copies that writes have made.
pub mod Mapping
pub mod Fork
pub mod Runs
pub mod Seal
pub mod Copies
pub mod Entries
pub mod Replaced
pub mod Prepared
pub mod Children
pub mod Early
pub mod Live
pub mod Forked
pub mod Bytes
pub mod Marks
pub mod Written
pub mod Kept
pub mod Durable
pub mod Restored
pub mod Restore
pub mod Rebuilt
pub mod Reloaded
pub mod Kvm
pub mod Accounting
mod Tests
mod LiveTests
mod RestoreTests
use minidox.Prelude.{
  ℕ, zero, suc, ◌+◌, ◌*◌, ◌/◌, ◌%◌, ◌-◌, Bool, true, false, Option, none, some, List, [], ◌∷◌,
  Result, ok, err, ok_or, checked_add, next_id, if◌then◌else◌, ◌==◌, ltb, length, replicate, set,
  get_or,
}
use minidox.Prelude.Order.{nat_ord, pair_ord}
use minidox.Prelude.Map
use minidox.Prelude.Map.{Map, Set}
use minidox.Prelude.Step.{Step, pure, fail, lift, gets, modify, guard, ◌>>=◌, ◌>>◌}
use minidox.Vmm.{Error, backend, ram_range}

abbrev pub ram_page_size : ℕ
ram_page_size = 4096

abbrev pub zero_page : List ℕ
zero_page = replicate ram_page_size 0

-- `RamPage`, whose generation is given by its identity.
pub record RamPage : Type 0 where
  pub id : ℕ
  pub generation : ℕ
  pub offset : ℕ

-- What a page of the memory maps.
pub record Backing : Type 0 where
  pub generation : ℕ
  pub offset : ℕ
  pub is_private : Bool

-- The counters of the process, the pages of the generations' files by generation and offset, and
-- which of the coming calls of the operating system fail, and how many bytes of a page such a call
-- leaves written; those beyond the list succeed.
pub record RamHost : Type 0 where
  pub next_page_id : ℕ
  pub next_generation_id : ℕ
  pub files : Map (ℕ × ℕ) (List ℕ)
  pub faults : List (Option ℕ)

pub record KvmGuestRam : Type 0 where
  pub len : ℕ
  pub pages : List RamPage
  pub host_dirty : Set ℕ
  pub is_private : Bool
  pub sealed : Bool
  -- the memory at `base`: what each page maps, and the private copies
  pub mapped : Map ℕ Backing
  pub copies : Map ℕ (List ℕ)

abbrev pub file_page : RamHost → (generation offset : ℕ) → List ℕ
file_page h generation offset = elim (Map.get (generation, offset) h.files) [
  | none ↦ zero_page
  | some bytes ↦ bytes
]

-- What the memory holds.
unfoldable pub page_bytes : KvmGuestRam → RamHost → (index : ℕ) → List ℕ
page_bytes r h index = elim (Map.get index r.copies) [
  | some bytes ↦ bytes
  | none ↦ elim (Map.get index r.mapped) [
    | none ↦ zero_page
    | some backing ↦ file_page h backing.generation backing.offset
  ]
]

abbrev pub Ram : Type 0
Ram = KvmGuestRam × RamHost

-- One call of the operating system, which may fail.
unfoldable pub system_call : {R : Type 0} → Step (R × RamHost) Error (Unit {0})
system_call (r, h) = elim h.faults [
  | [] ↦ (ok tt, (r, h))
  | none ∷ faults ↦ (ok tt, (r, record h { faults = faults }))
  | some written ∷ faults ↦ (err backend, (r, record h { faults = faults }))
]

-- A store to a page that is mapped privately makes a copy; one to a shared page is to the file.
unfoldable pub store_page : (index : ℕ) → List ℕ → Ram → Ram
store_page index bytes (r, h) = elim (Map.get index r.mapped) [
  | none ↦ (r, h)
  | some backing ↦
      if backing.is_private
      then (record r { copies = Map.insert index bytes r.copies }, h)
      else (r, record h { files = Map.insert (backing.generation, backing.offset) bytes h.files })
]

unfoldable pub load_byte : (address : ℕ) → Ram → ℕ
unfolding page_bytes
load_byte address (r, h) =
    get_or (page_bytes r h (address / ram_page_size)) (address % ram_page_size) 0

unfoldable pub store_byte : (address value : ℕ) → Ram → Ram
unfolding page_bytes store_page
store_byte address value (r, h) =
    store_page (address / ram_page_size)
      (set (page_bytes r h (address / ram_page_size)) (address % ram_page_size) value) (r, h)

unfoldable pub load_bytes : (count address : ℕ) → Ram → List ℕ
unfolding load_byte
load_bytes zero address m = []
load_bytes (suc count) address m = load_byte address m ∷ load_bytes count (address + 1) m

unfoldable pub store_bytes : (address : ℕ) → List ℕ → Ram → Ram
unfolding store_byte
store_bytes address [] m = m
store_bytes address (value ∷ bytes) m = store_bytes (address + 1) bytes (store_byte address value m)

-- The end of the range.
unfoldable pub checked_range : (offset len : ℕ) → Step Ram Error ℕ
checked_range offset len = do
  end ← lift (ok_or (checked_add offset len) (ram_range offset len))
  ram_len ← gets (λ m. m.0.len)
  guard (ltb ram_len end) (ram_range offset len)
  pure end

-- `host_dirty.extend(first..=last)`, for so many pages.
unfoldable pub mark_host : (count first : ℕ) → Set ℕ → Set ℕ
mark_host zero first dirty = dirty
mark_host (suc count) first dirty = mark_host count (first + 1) (Map.insert first tt dirty)

unfoldable pub read : (offset len : ℕ) → Step Ram Error (List ℕ)
unfolding load_bytes
read offset len = do checked_range offset len; gets (load_bytes len offset)

unfoldable pub write : (offset : ℕ) → List ℕ → Step Ram Error (Unit {0})
unfolding store_bytes mark_host
write offset bytes = do
  end ← checked_range offset (length bytes)
  modify (store_bytes offset bytes)
  (if length bytes == 0
      then pure tt
      else modify (λ m. (
        record m.0 {
          host_dirty =
              mark_host ((end - 1) / ram_page_size - offset / ram_page_size + 1)
                (offset / ram_page_size) m.0.host_dirty;
        },
        m.1,
      )))
