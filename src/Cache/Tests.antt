-- ===== src/Cache/Tests.antt =====
-- A run of the shared page cache on a store with one file of two pages.
use minidox.Prelude.{
  ℕ, ◌+◌, ◌≡◌, ◌≢◌, subst, ◌<◌, refl, Bool, true, false, ◌&&◌, some, List, [], ◌∷◌, ok, ◌/◌, ◌==◌,
  if◌then◌else◌, arith, length, replicate, copy_from_slice, u64_mod,
}
use minidox.Prelude.Order.{nat_ord, pair_ord}
use minidox.Prelude.Map.{or_insert_all, remove, get, insert}
use minidox.Prelude.Step.{◌>>=◌, guard, gets, modify, lift}
use minidox.Overlay
use minidox.Overlay.{first}
use minidox.Overlay.Laws.{Layered}
use minidox.Cache.Dirty
use minidox.Cache.Dirty.{PageKey, DirtyBranch}
use minidox.Cache.Dirty.Laws.{listed, is_dirty, listed-pages_for_node}
use minidox.Cache.Host.{
  from_bytes, system_call, duplicate, read_exact_at, write_all_at, Host, bytes_of,
}
use minidox.Cache.Store.{ForkableNodeStore}
use minidox.Cache.State.{
  count_of, CacheBranch, State, find_branch, with_store_mut, branch_mut, on_host,
}
use minidox.Cache.Branches.{fork, remove_branch}
use minidox.Cache.Mapping.{update_branch, any_has, DaxPageMapping, map_page, unmap}
use minidox.Cache.Access.{read_only, read_write, read, write, sync, sync_all}
use minidox.Cache.Active.{active, active_in, raised}
use minidox.Cache.Uses.{counts_it, active-map_page, unmap-map_page, active-write}
use minidox.Cache.Sync.{dirty, dirty-sync, dirty-sync_all}
use minidox.Cache.Forks.{marks-fork}
use minidox.Cache.Removal.{marks-remove_branch}
use minidox.Cache.Table.{PagesValid, owns}
use minidox.Cache.Own.{pages-map_page, unbound-map_page}

-- The store is the version of its one file; the world counts versions.
abbrev store : ForkableNodeStore ℕ ℕ (ℕ × ℕ)
store = record {
  len = λ node s. (ok 8192, s);
  read_node = λ node offset count s. (ok (replicate count 7), s);
  write_node = λ node offset bytes s. (ok (length bytes), s);
  on_open_node = λ node s. (ok tt, s);
  on_close_node = λ node s. (ok tt, s);
  page_identity = λ node offset s. (ok (offset / 4096, s.0), s);
  prepare_page_write = λ node offset s. (ok (offset / 4096, s.1), (s.1, s.1 + 1));
  fork_store = λ s. (ok s.0, s);
}

abbrev host : Host
host = record { next_cache_id = 1; next_page_id = 1; contents = []; faults = [] }

abbrev empty_cache : State ℕ ℕ (ℕ × ℕ)
empty_cache = record {
  id = 1;
  next_branch = 2;
  branches =
      (
        1,
        record {
          store = 0;
          open_nodes = (5, 1) ∷ [];
          active_pages = [];
          exclusive_pages = [];
          dirty_pages = Dirty.mark_dirty (5, 0) Dirty.new;
        },
      )
      ∷ [];
  pages = [];
  known_pages = [];
  host = host;
  world = 1;
}

active-map_page_example :
    active 1 1 (map_page store 1 5 4096 read_only empty_cache).1
    ≡ raised
        (counts_it 1 (map_page store 1 5 4096 read_only empty_cache).0 1 1)
        (active 1 1 empty_cache)
active-map_page_example = active-map_page store 1 5 4096 read_only empty_cache 1 1

abbrev mapping : DaxPageMapping
mapping = record { cache_id = 1; branch = 1; key = (5, 4096); flags = read_write; page = 2 }

maps : (map_page store 1 5 4096 read_write empty_cache).0 ≡ ok mapping
unfolding map_page insert get with_store_mut branch_mut on_host ◌>>=◌ guard count_of gets from_bytes
    system_call modify duplicate read_exact_at lift copy_from_slice update_branch any_has
maps = refl

has_room : active 1 2 empty_cache + 1 < u64_mod
unfolding get active_in count_of
has_room = ground arith

unmap-map_page_example :
    ((unmap 1 mapping (map_page store 1 5 4096 read_write empty_cache).1).0 ≡ ok tt)
    × ((at page : ℕ)
        → active at page (unmap 1 mapping (map_page store 1 5 4096 read_write empty_cache).1).1
          ≡ active at page empty_cache)
unmap-map_page_example = unmap-map_page store 1 5 4096 read_write empty_cache mapping maps has_room

abbrev two_bytes : List ℕ
two_bytes = 1 ∷ 2 ∷ []

-- The file holds nothing but sevens; the range stands on both sides of the page boundary.
reads : (read store 1 5 4095 two_bytes empty_cache).0 ≡ ok (2, 7 ∷ 7 ∷ [])
unfolding map_page insert get with_store_mut branch_mut on_host ◌>>=◌ guard count_of gets from_bytes
    system_call modify duplicate read_exact_at lift copy_from_slice update_branch any_has read unmap
    remove
reads = refl

writes : (write store 1 5 4095 two_bytes empty_cache).0 ≡ ok 2
unfolding map_page insert get with_store_mut branch_mut on_host ◌>>=◌ guard count_of gets from_bytes
    system_call modify duplicate read_exact_at lift copy_from_slice update_branch any_has write
    unmap remove write_all_at
writes = refl

active-write_example :
    active 1 1 (write store 1 5 4095 two_bytes empty_cache).1 ≡ active 1 1 empty_cache
active-write_example = active-write store 1 5 4095 two_bytes empty_cache 2 writes 1 1

abbrev one_dirty : DirtyBranch
one_dirty = record { base = first []; writes = ((5, 0), true) ∷ [] }

one_dirty-Layered : Layered one_dirty
one_dirty-Layered = record { base_sorted = tt; writes_sorted = (tt, tt) }

listed-pages_for_node_example :
    listed (5, 0) (Dirty.pages_for_node 5 one_dirty) ≡ is_dirty (5, 0) one_dirty
listed-pages_for_node_example = listed-pages_for_node 5 one_dirty (5, 0) one_dirty-Layered

-- The cache after the page of the dirty mark was read.
abbrev cached : State ℕ ℕ (ℕ × ℕ)
cached = record empty_cache {
  pages = ((0, 0), 1) ∷ [];
  known_pages = ((5, 0), tt) ∷ [];
  host = record {
    next_cache_id = 2;
    next_page_id = 2;
    contents = (1, replicate 4096 7) ∷ [];
    faults = [];
  };
  branches =
      (
        1,
        record {
          store = 0;
          open_nodes = (5, 1) ∷ [];
          active_pages = [];
          exclusive_pages = [];
          dirty_pages = one_dirty;
        },
      )
      ∷ [];
}

cached-Layered : (b : CacheBranch ℕ) → find_branch 1 cached ≡ some b → Layered b.dirty_pages
unfolding get
cached-Layered b e =
    let same_marks : one_dirty ≡ b.dirty_pages = ground arith in
    subst {A = DirtyBranch} (λ (d : DirtyBranch). Layered {K = PageKey} {V = Bool} d) same_marks
      one_dirty-Layered

syncs : (sync store 1 5 cached).0 ≡ ok tt
unfolding map_page insert get with_store_mut branch_mut on_host ◌>>=◌ guard count_of gets from_bytes
    system_call modify duplicate read_exact_at lift copy_from_slice update_branch any_has sync
    Dirty.pages_for_node
syncs = refl

dirty-sync_example : dirty 1 (5, 0) (sync store 1 5 cached).1 ≡ (dirty 1 (5, 0) cached && false)
dirty-sync_example = dirty-sync store cached 1 5 cached-Layered syncs 1 (5, 0)

syncs_all : (sync_all store 1 cached).0 ≡ ok tt
unfolding map_page insert get with_store_mut branch_mut on_host ◌>>=◌ guard count_of gets from_bytes
    system_call modify duplicate read_exact_at lift copy_from_slice update_branch any_has sync_all
    Dirty.pages Overlay.visible or_insert_all
syncs_all = refl

dirty-sync_all_example :
    dirty 1 (5, 0) (sync_all store 1 cached).1 ≡ (dirty 1 (5, 0) cached && false)
dirty-sync_all_example = dirty-sync_all store cached 1 cached-Layered syncs_all 1 (5, 0)

forks : (fork store 1 cached).0 ≡ ok 2
unfolding map_page insert get with_store_mut branch_mut on_host ◌>>=◌ guard count_of gets from_bytes
    system_call modify duplicate read_exact_at lift copy_from_slice update_branch any_has fork
forks = refl

marks-fork_example :
    (2 ≡ cached.next_branch)
    × ((at : ℕ) (key : PageKey)
        → dirty at key (fork store 1 cached).1
          ≡ (if at == 2 then dirty 1 key cached else dirty at key cached))
    × ((at page : ℕ)
        → active at page (fork store 1 cached).1 ≡ (if at == 2 then 0 else active at page cached))
marks-fork_example = marks-fork store 1 2 cached forks

-- A branch with a mapping of page 1.
abbrev mapped_branch : CacheBranch ℕ
mapped_branch = record {
  store = 0;
  open_nodes = (5, 1) ∷ [];
  active_pages = (1, 1) ∷ [];
  exclusive_pages = [];
  dirty_pages = one_dirty;
}

abbrev mapped : State ℕ ℕ (ℕ × ℕ)
mapped = record cached { branches = (1, mapped_branch) ∷ [] }

cached-PagesValid : PagesValid cached
unfolding get
cached-PagesValid = record {
  below = λ i page e. ground arith;
  unique = λ i j page e d. ground arith;
}

pages-map_page_example :
    PagesValid (map_page store 1 5 4096 read_write cached).1
    × ((page : ℕ)
        → page < 2
        → bytes_of page (map_page store 1 5 4096 read_write cached).1.host
          ≡ bytes_of page cached.host)
pages-map_page_example =
    pages-map_page store 1 5 4096 read_write cached cached-PagesValid (ground arith)

abbrev copy : DaxPageMapping
copy = record { cache_id = 1; branch = 1; key = (5, 0); flags = read_write; page = 2 }

copies : (map_page store 1 5 0 read_write cached).0 ≡ ok copy
unfolding map_page insert get with_store_mut branch_mut on_host ◌>>=◌ guard count_of gets from_bytes
    system_call modify duplicate read_exact_at lift copy_from_slice update_branch any_has
copies = refl

not_owned : owns 1 (5, 0) cached ≡ false
unfolding owns get
not_owned = refl

unbound-map_page_example : get (0, 0) cached.pages ≢ some 2
unbound-map_page_example =
    unbound-map_page store 1 5 0 read_write cached copy cached-PagesValid (ground arith) copies refl
      not_owned (0, 0)

-- The branch with a mapping, and one without.
abbrev two_branches : State ℕ ℕ (ℕ × ℕ)
two_branches = record cached {
  branches = (1, mapped_branch) ∷ (2, record mapped_branch { active_pages = [] }) ∷ [];
}

idle_found : find_branch 2 two_branches ≡ some (record mapped_branch { active_pages = [] })
unfolding get
idle_found = refl

marks-remove_branch_example :
    ((remove_branch store 2 two_branches).0 ≡ ok tt)
    × ((at : ℕ) (key : PageKey)
        → dirty at key (remove_branch store 2 two_branches).1
          ≡ (if at == 2 then false else dirty at key two_branches))
    × ((at page : ℕ)
        → active at page (remove_branch store 2 two_branches).1
          ≡ (if at == 2 then 0 else active at page two_branches))
marks-remove_branch_example =
    marks-remove_branch store 2 (record mapped_branch { active_pages = [] }) two_branches idle_found
      refl
