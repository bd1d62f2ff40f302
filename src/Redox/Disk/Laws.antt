-- ===== src/Redox/Disk/Laws.antt =====
-- Reads of the disk after writes and forks, and its block accounting.
use minidox.Prelude.{
  ℕ, zero, suc, ◌+◌, ◌-◌, min, ◌≤◌, ◌<◌, ◌≡◌, refl, ◌∙◌, sym, ap, some, List, [], ◌∷◌, ◌++◌, Result,
  ok, err, next_id, length, take, drop, copy_from_slice, arith, length-take, length-drop,
}
use minidox.Prelude.Order.{nat_ord}
use minidox.Prelude.Map.{get}
use minidox.Overlay.Laws.{find-fork_source, find-fork_child, find-write}
use minidox.Accounting.{count_of, count_branches, branches_showing}
use minidox.Accounting.Laws.{count_of-count_branches}
use minidox.Io.{IoError}
use minidox.Redox.Disk.{
  Block, CowDisk, block_size, fork, visible_block, check_range, read_loop, read_at, bytes_of,
  write_block, write_loop, write_at, disk_ids,
}

read_loop-same :
    (d e : CowDisk)
    → ((address : ℕ) → visible_block d address ≡ visible_block e address)
    → (fuel address len : ℕ) → read_loop fuel d address len ≡ read_loop fuel e address len
unfolding read_loop
read_loop-same d e h zero address len = refl
read_loop-same d e h (suc fuel) address zero = refl
read_loop-same d e h (suc fuel) address (suc len) =
    rw (h address, read_loop-same d e h fuel (address + 1) (suc len - min block_size (suc len)))
      refl

visible_block-write_loop :
    (fuel address id : ℕ) (buffer : List ℕ) (d : CowDisk) (at : ℕ)
    → at < address
    → visible_block (write_loop fuel address id buffer d).0 at ≡ visible_block d at
unfolding write_loop write_block
visible_block-write_loop zero address id buffer d at h = refl
visible_block-write_loop (suc fuel) address id [] d at h = refl
visible_block-write_loop (suc fuel) address id (x ∷ buffer) d at h =
    let chunk = take block_size (x ∷ buffer) in
    let stored : Block = record {
      id = id;
      bytes = copy_from_slice (bytes_of (visible_block d address)) 0 chunk;
    } in
    visible_block-write_loop fuel (address + 1) (next_id id) (drop block_size (x ∷ buffer))
      (write_block address id chunk d) at (omega arith)
    ∙ ground (arith, find-write address at stored d.blocks)

take-append : (xs ys : List ℕ) → take (length xs) (xs ++ ys) ≡ xs
take-append [] ys = refl
take-append (x ∷ xs) ys = ap (◌∷◌ x) (take-append xs ys)

append-take-drop : (n : ℕ) (xs : List ℕ) → take n xs ++ drop n xs ≡ xs
append-take-drop zero xs = refl
append-take-drop (suc n) [] = refl
append-take-drop (suc n) (x ∷ xs) = ap (◌∷◌ x) (append-take-drop n xs)

-- The first chunk of a buffer is read back from the block that it was copied to.
take-copy_from_slice :
    (old buffer : List ℕ)
    → take (min block_size (length buffer)) (copy_from_slice old 0 (take block_size buffer))
      ≡ take block_size buffer
unfolding copy_from_slice
take-copy_from_slice old buffer =
    let chunk = take block_size buffer in
    let e : min block_size (length buffer) ≡ length chunk = sym (length-take block_size buffer) in
    rw e (take-append chunk (drop (0 + length chunk) old))

visible_block-write_block :
    (address id : ℕ) (chunk : List ℕ) (d : CowDisk)
    → visible_block (write_block address id chunk d) address
      ≡ some
          (record { id = id; bytes = copy_from_slice (bytes_of (visible_block d address)) 0 chunk })
unfolding write_block
visible_block-write_block address id chunk d =
    let stored : Block = record {
      id = id;
      bytes = copy_from_slice (bytes_of (visible_block d address)) 0 chunk;
    } in
    ground (arith, find-write address address stored d.blocks)

read-write_loop :
    (fuel address id : ℕ) (buffer : List ℕ) (d : CowDisk)
    → length buffer ≤ fuel
    → read_loop fuel (write_loop fuel address id buffer d).0 address (length buffer) ≡ buffer
unfolding read_loop write_loop
read-write_loop zero address id [] d h = refl
read-write_loop zero address id (x ∷ buffer) d h = absurd (omega arith)
read-write_loop (suc fuel) address id [] d h = refl
read-write_loop (suc fuel) address id (x ∷ buffer) d h =
    let whole = x ∷ buffer in
    let chunk = take block_size whole in
    let next = write_block address id chunk d in
    let after = (write_loop fuel (address + 1) (next_id id) (drop block_size whole) next).0 in
    let found : visible_block after address
        ≡ some (record {
          id = id;
          bytes = copy_from_slice (bytes_of (visible_block d address)) 0 chunk;
        }) =
      visible_block-write_loop fuel (address + 1) (next_id id) (drop block_size whole) next address
        (omega arith)
      ∙ visible_block-write_block address id chunk d in
    let rest : length whole - min block_size (length whole) ≡ length (drop block_size whole) =
      omega (arith, length-drop block_size whole) in
    rw
      (
        found,
        rest,
        take-copy_from_slice (bytes_of (visible_block d address)) whole,
        read-write_loop fuel (address + 1) (next_id id) (drop block_size whole) next
            (omega (arith, length-drop block_size whole)),
      )
      (append-take-drop block_size whole)

size-write_loop :
    (fuel address id : ℕ) (buffer : List ℕ) (d : CowDisk)
    → (write_loop fuel address id buffer d).0.size ≡ d.size
unfolding write_loop write_block
size-write_loop zero address id buffer d = refl
size-write_loop (suc fuel) address id [] d = refl
size-write_loop (suc fuel) address id (x ∷ buffer) d =
    size-write_loop fuel (address + 1) (next_id id) (drop block_size (x ∷ buffer))
      (write_block address id (take block_size (x ∷ buffer)) d)

check_range-same :
    (d e : CowDisk) (block len : ℕ)
    → d.size ≡ e.size
    → check_range d block len ≡ check_range e block len
unfolding check_range
check_range-same d e block len h = rw h refl

-- Neither side of a fork of the disk reads otherwise than the disk did before.
pub read_at-fork :
    (d : CowDisk) (block len : ℕ)
    → (read_at (fork d).0 block len ≡ read_at d block len)
      × (read_at (fork d).1 block len ≡ read_at d block len)
unfolding fork read_at
read_at-fork d block len = (
  rw
      (
        check_range-same (fork d).0 d block len refl,
        read_loop-same (fork d).0 d (find-fork_source d.blocks) len block len,
      )
      refl,
  rw
      (
        check_range-same (fork d).1 d block len refl,
        read_loop-same (fork d).1 d (find-fork_child d.blocks) len block len,
      )
      refl,
)

-- After a write to the disk that succeeds, a read of the same range returns the bytes written.
pub read_at-write_at :
    (d : CowDisk) (next_block block : ℕ) (buffer : List ℕ)
    → (write_at d next_block block buffer).0 ≡ ok (length buffer)
    → read_at (write_at d next_block block buffer).1 block (length buffer) ≡ ok buffer
unfolding read_at write_at
read_at-write_at d next_block block buffer done =
    by_check (check_range d block (length buffer)) refl
  where
    after : CowDisk
    after = (write_loop (length buffer) block next_block buffer d).0

    by_check :
        (r : Result IoError (Unit {0}))
        → check_range d block (length buffer) ≡ r
        → read_at (write_at d next_block block buffer).1 block (length buffer) ≡ ok buffer
    by_check (err x) e = absurd (ground arith)
    by_check (ok u) e =
        let again : check_range after block (length buffer) ≡ ok u =
          check_range-same after d block (length buffer)
            (size-write_loop (length buffer) block next_block buffer d)
          ∙ e in
        rw (write_at, e, read_at, again)
          (ap ok (read-write_loop (length buffer) block next_block buffer d (omega arith)))

-- The block accounting counts each block once for each disk that shows it.
pub count_of-disks :
    (disks : List CowDisk) (id : ℕ)
    → count_of id (count_branches (disk_ids disks) []) ≡ branches_showing id (disk_ids disks)
unfolding count_of get
count_of-disks disks id = count_of-count_branches (disk_ids disks) [] id ∙ omega arith
