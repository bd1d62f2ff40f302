-- ===== src/Redox/Disk.antt =====
-- crates/minidox-redoxfs/src/branching.rs: `CowDisk`, the copy-on-write disk under a RedoxFS branch,
-- as `CowDisk::new` makes it: in memory, with no durable layers.
pub mod Laws
use minidox.Prelude.{
  ℕ, zero, suc, ◌+◌, ◌-◌, ◌*◌, min, Option, none, some, List, [], ◌∷◌, ◌++◌, Result, ok, err, ok_or,
  ◌>>=◌, u64_mod, next_id, checked_add, if◌then◌else◌, ◌==◌, ltb, length, take, drop, replicate,
  copy_from_slice,
}
use minidox.Prelude.Order.{nat_ord}
use minidox.Prelude.Map.{Map}
use minidox.Overlay
use minidox.Overlay.{Branch}
use minidox.Accounting
use minidox.Accounting.{count_branches}
use minidox.Io.{IoError, eio}

-- The block size of the vendored RedoxFS.
abbrev pub block_size : ℕ
block_size = 4096

pub record Block : Type 0 where
  pub id : ℕ
  pub bytes : List ℕ

pub record CowDisk : Type 0 where
  pub size : ℕ
  pub blocks : Branch ℕ Block

abbrev pub new : ℕ → CowDisk
new size = record { size = size; blocks = Overlay.empty }

-- The source after the fork, and the child.
unfoldable pub fork : CowDisk → CowDisk × CowDisk
fork d =
    let (source, child) = Overlay.fork d.blocks in
    (record d { blocks = source }, record d { blocks = child })

abbrev pub visible_block : CowDisk → ℕ → Option Block
visible_block d address = Overlay.find d.blocks address

abbrev pub visible_blocks : CowDisk → Map ℕ Block
visible_blocks d = Overlay.visible_layers d.blocks

abbrev pub checked_mul : ℕ → ℕ → Option ℕ
checked_mul a b = if ltb (a * b) u64_mod then some (a * b) else none

unfoldable pub check_range : CowDisk → (block len : ℕ) → Result IoError (Unit {0})
check_range d block len = do
  offset ← ok_or (checked_mul block block_size) eio
  end ← ok_or (checked_add offset len) eio
  (if ltb d.size end then err eio else ok tt)

-- The first `count` bytes of a block; a block that was never written reads as zeros.
abbrev pub read_block : Option Block → ℕ → List ℕ
read_block none count = replicate count 0
read_block (some stored) count = take count stored.bytes

-- The chunks of a buffer of `len` bytes. Each has a byte at least, so `len` rounds are enough.
unfoldable pub read_loop : ℕ → CowDisk → (address len : ℕ) → List ℕ
read_loop zero d address len = []
read_loop (suc fuel) d address zero = []
read_loop (suc fuel) d address (suc len) =
    read_block (visible_block d address) (min block_size (suc len))
    ++ read_loop fuel d (address + 1) (suc len - min block_size (suc len))

unfoldable pub read_at : CowDisk → (block len : ℕ) → Result IoError (List ℕ)
read_at d block len = do _ ← check_range d block len; ok (read_loop len d block len)

abbrev pub bytes_of : Option Block → List ℕ
bytes_of none = replicate block_size 0
bytes_of (some stored) = stored.bytes

-- One chunk, stored in a new block under the next block identity.
unfoldable pub write_block : (address id : ℕ) → List ℕ → CowDisk → CowDisk
write_block address id chunk d = record d {
  blocks =
      Overlay.write address
        (record { id = id; bytes = copy_from_slice (bytes_of (visible_block d address)) 0 chunk })
        d.blocks;
}

-- The disk and the next block identity.
unfoldable pub write_loop : ℕ → (address id : ℕ) → List ℕ → CowDisk → CowDisk × ℕ
unfolding write_block
write_loop zero address id buffer d = (d, id)
write_loop (suc fuel) address id [] d = (d, id)
write_loop (suc fuel) address id (x ∷ buffer) d =
    write_loop fuel (address + 1) (next_id id) (drop block_size (x ∷ buffer))
      (write_block address id (take block_size (x ∷ buffer)) d)

unfoldable pub write_at : CowDisk → (next_block block : ℕ) → List ℕ → Result IoError ℕ × CowDisk × ℕ
write_at d next_block block buffer = elim (check_range d block (length buffer)) [
  | err e ↦ (err e, d, next_block)
  | ok _ ↦
      let (d', next_block') = write_loop (length buffer) block next_block buffer d in
      (ok (length buffer), d', next_block')
]

pub record BlockAccounting : Type 0 where
  pub resident_blocks : ℕ
  pub shared_blocks : ℕ

unfoldable pub block_ids : Map ℕ Block → List ℕ
block_ids [] = []
block_ids ((address, block) ∷ m) = block.id ∷ block_ids m

unfoldable pub disk_ids : List CowDisk → List (List ℕ)
disk_ids [] = []
disk_ids (d ∷ disks) = block_ids (visible_blocks d) ∷ disk_ids disks

unfoldable pub block_accounting : List CowDisk → BlockAccounting
block_accounting disks =
    let references = count_branches (disk_ids disks) [] in
    record {
      resident_blocks = Accounting.entries references;
      shared_blocks = Accounting.shared references;
    }
