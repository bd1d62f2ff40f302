-- ===== src/Redox/Tests.antt =====
-- A run of the page identities of crates/minidox-redoxfs/src/branching.rs on small inputs.
use minidox.Prelude.{◌≡◌, refl, ok}
use minidox.Prelude.Order.{nat_ord, pair_ord}
use minidox.Prelude.Map.{insert}
use minidox.Prelude.{List, ℕ, ◌∷◌, []}
use minidox.Redox.Disk
use minidox.Redox.Disk.{CowDisk, read_at, write_at, check_range, disk_ids}
use minidox.Redox.Disk.Laws.{read_at-write_at}
use minidox.Redox.Identity.{
  IdentityBranch, Counters, new, create_file, record_write, page_identity, restored, visible_files,
  visible_pages, new_version, new_versions,
}
use minidox.Redox.Identity.Laws.{Layered}
use minidox.Redox.Identity.Versions.{page_identity-restored}

abbrev counters : Counters
counters = record { next_object = 1; next_version = 1 }

-- Node 5 is a file with two bytes on both sides of a page boundary.
abbrev with_file : IdentityBranch
with_file = (create_file 5 new counters).0

abbrev with_write : IdentityBranch
with_write = (record_write 5 4095 2 with_file counters).1

with_write-Layered : Layered with_write
unfolding create_file record_write new_versions new_version insert
with_write-Layered = record {
  base_sorted = (tt, tt);
  files_sorted = (tt, tt);
  pages_sorted = ((refl, tt), (tt, tt));
}

page_identity-restored_example :
    page_identity (restored (visible_files with_write) (visible_pages with_write)) 5 4096
    ≡ page_identity with_write 5 4096
page_identity-restored_example = page_identity-restored with_write 5 4096 with_write-Layered

-- A disk of four blocks, and a write of two bytes to the second.
abbrev disk : CowDisk
disk = Disk.new 16384

abbrev two_bytes : List ℕ
two_bytes = 7 ∷ 9 ∷ []

disk_writes : (write_at disk 1 1 two_bytes).0 ≡ ok 2
unfolding write_at check_range
disk_writes = refl

read_at-write_at_example : read_at (write_at disk 1 1 two_bytes).1 1 2 ≡ ok two_bytes
read_at-write_at_example = read_at-write_at disk 1 1 two_bytes disk_writes
