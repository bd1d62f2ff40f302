-- ===== src/Lib.antt =====
-- minidox runs forests of micro-VMs that fork copy-on-write: guest memory, and a RedoxFS
-- filesystem that the guests reach through a shared page cache. This library models the crates
-- that own that state, as functions from a state to a result and a state, and proves what makes
-- them correct.
--
-- Prelude holds what all parts share: lists of bytes, BTreeMap and BTreeSet as association lists
-- kept in the order of their keys (Prelude/Map), Result and 64-bit arithmetic (Prelude/Outcome),
-- and methods on a mutable state with the rules to reason about them (Prelude/Step). Io names the
-- kinds of I/O errors.
--
-- Overlay is the structure that three crates repeat, a branch of writes over immutable
-- generations: PageGeneration and PageBranch in crates/minidox-fork/src/lib.rs, DirtyGeneration
-- and DirtyBranch in crates/minidox-cache/src/branching.rs, DiskGeneration and CowDisk in
-- crates/minidox-redoxfs/src/branching.rs. Accounting is their counting of shared pages.
--
-- Fork models crates/minidox-fork/src/lib.rs: PageBranch::write and read over byte ranges (Fork,
-- Fork/Bytes), ForkForest with its VMs (Fork/Forest), and page_accounting (Fork/Accounting).
-- Fork/Supervisor is the Supervisor of the same file, which joins the memory of each VM to a
-- branch of a shared page cache; how a filesystem is made is a parameter. A write fails halfway
-- when page identities run out; the model keeps the pages written until then, as the code does.
--
-- Cache models crates/minidox-cache/src: SharedPageCache of branching.rs (Cache/State, Branches,
-- Mapping, Access, Accounting; its dirty pages in Cache/Dirty) and PageCache of lib.rs
-- (Cache/Single). The filesystem behind a cache is the interface Cache/Store, the traits
-- NodeStore and ForkableNodeStore, whose methods may change the store and the world around it.
-- Cache/Host has the process-wide counters, the temporary files behind pages, and a list that
-- says which file operations fail. The lock of a cache makes each method one step; read and write
-- take several.
--
-- Redox models the page identities of crates/minidox-redoxfs/src/branching.rs, IdentityBranch
-- with the process-wide counters (Redox/Identity), CowDisk in memory with its block accounting
-- (Redox/Disk), and RedoxBranch as the store that the caches use (Redox/Branch), where the
-- vendored file system is a parameter.
--
-- Vmm models crates/minidox-vmm/src: the DAX window of virtiofs.rs, over the shared cache
-- (Vmm/Dax: its mappings in Mapping, the calls of the device in Window, Backend and Names, forks
-- and snapshots in Branch), and the forkable guest memory of ram.rs (Vmm/Ram: runs of mapped
-- pages in Mapping, forks and seals in Fork, the log of KVM in Kvm, the durable list of pages in
-- Durable, what restore makes of it in Restore). The window and the memory are given page by
-- page: what each page maps, and the private copies that writes made. Calls of the operating
-- system succeed or fail as a list of outcomes says, and a copy of a page that fails may leave a
-- part of it written. The bitmap that KVM logged is an argument of a fork. A lock makes each
-- method one step.
--
-- Loops over ranges recurse on the number of bytes or pages of the range, which is enough since
-- each round advances by one at least. Counters that the code adds to without a check wrap at
-- 2^64, the counts of mappings among them (usize has 64 bits), and the theorems that need them
-- not to wrap say so. The counts of the accountings, which are at most the number of branches or
-- VMs in memory, have no wrap. A slice that the code takes inside its bounds is a take of a drop.
--
-- Not modelled: the vendored crates, the supervisor and the hypervisor glue of
-- crates/minidox-vmm, its calls of KVM, the copying of guest memory to durable files, the durable
-- layers of the RedoxFS disk, the metadata, lookup and listing of RedoxBranch, the page
-- accounting of Supervisor, and the contents of error messages.
pub mod Prelude
pub mod Overlay
pub mod Accounting
pub mod Io
pub mod Fork
pub mod Redox
pub mod Cache
pub mod Vmm
