-- ===== src/Cache/Single.antt =====
-- crates/minidox-cache/src/lib.rs: `PageCache`, the cache of one store, with one backing file to a
-- node. A backing file is named by its node, since a cache makes one for each node and keeps it.
pub mod Access
use minidox.Prelude.{
  ℕ, zero, suc, ◌+◌, ◌-◌, ◌*◌, ◌/◌, ◌%◌, min, max, Bool, true, false, not, ◌&&◌, ◌||◌, Option, none,
  some, List, [], ◌∷◌, ◌++◌, Result, ok, err, ok_or, checked_add, next_id, u64_mod, if◌then◌else◌,
  ◌==◌, ltb, leb, length, replicate, slice, take, copy_from_slice,
}
use minidox.Prelude.Order.{nat_ord}
use minidox.Prelude.Map
use minidox.Prelude.Map.{Map}
use minidox.Prelude.Step.{Step, pure, fail, lift, gets, modify, guard, ◌>>=◌, ◌>>◌}
use minidox.Io.{IoError, write_zero}
use minidox.Cache.{
  page_size, MapFlags, CacheError, io, invalid_mapping, node_not_open, stale_mapping, unaligned,
  no_access, open_count_overflow, not_open, read_overflow, write_overflow, empty_mapping,
  mapping_overflow,
}
use minidox.Cache.Host.{Host, system_call, bytes_of, read_exact_at, write_all_at}
use minidox.Cache.Store.{ForkableNodeStore}
use minidox.Cache.Branches.{checked_sub}
use minidox.Cache.Mapping.{padded}
use minidox.Prelude.{map_err}

pub record Fmap : Type 0 where
  pub rc : ℕ
  pub flags : MapFlags
  pub version : ℕ

pub record FileMmapInfo : Type 0 where
  pub size : ℕ
  pub pages : Map ℕ Fmap
  pub open_fds : ℕ
  pub version : ℕ

pub record PageCache (S W : Type 0) : Type 0 where
  pub id : ℕ
  pub store : S
  pub files : Map ℕ FileMmapInfo
  pub host : Host
  pub world : W

pub record DaxMapping : Type 0 where
  pub cache_id : ℕ
  pub node : ℕ
  pub offset : ℕ
  pub len : ℕ
  pub flags : MapFlags

abbrev pub new_info : FileMmapInfo
new_info = record { size = 0; pages = []; open_fds = 0; version = 0 }

-- `self.pages.values().any(|fmap| fmap.rc > 0)`
unfoldable pub any_mapped : Map ℕ Fmap → Bool
any_mapped [] = false
any_mapped ((offset, fmap) ∷ pages) = ltb 0 fmap.rc || any_mapped pages

unfoldable pub in_use : FileMmapInfo → Bool
unfolding any_mapped
in_use info = ltb 0 info.open_fds || any_mapped info.pages

-- `n.checked_next_multiple_of(PAGE_SIZE)`
abbrev pub next_multiple : ℕ → Option ℕ
next_multiple n =
    let m = (n + (page_size - 1)) / page_size * page_size in if ltb m u64_mod then some m else none

-- `a | b` on flags.
abbrev pub join : MapFlags → MapFlags → MapFlags
join a b = record { read = a.read || b.read; write = a.write || b.write }

-- The entry of a page after one more mapping of it.
abbrev pub mapped : MapFlags → ℕ → Option Fmap → Fmap
mapped flags version none = record { rc = 1; flags = flags; version = version }
mapped flags version (some fmap) = record {
  rc = next_id fmap.rc;
  flags = join fmap.flags flags;
  version = version;
}

-- The file has `size` bytes, the new ones zero.
abbrev pub set_len : ℕ → ℕ → Host → Host
set_len node size host = record host {
  contents =
      Map.insert node
        (take size (bytes_of node host ++ replicate (size - length (bytes_of node host)) 0))
        host.contents;
}

module _ {S W : Type 0} where
  unfoldable pub new : S → Host → W → PageCache S W
  new store host world = record {
    id = host.next_cache_id;
    store = store;
    files = [];
    host = record host { next_cache_id = next_id host.next_cache_id };
    world = world;
  }

  -- A method of the store, with `?` on its error.
  unfoldable pub on_store :
      {A : Type 0} → Step (S × W) IoError A → Step (PageCache S W) CacheError A
  on_store operation s =
      let (result, (store, world)) = operation (s.store, s.world) in
      (map_err io result, record s { store = store; world = world })

  unfoldable pub on_host : {A : Type 0} → Step Host IoError A → Step (PageCache S W) CacheError A
  on_host operation s =
      let (result, host) = operation s.host in (map_err io result, record s { host = host })

  -- `self.files.get_mut(&node).ok_or(NodeNotOpen)`
  unfoldable pub info_mut : ℕ → Step (PageCache S W) CacheError FileMmapInfo
  info_mut node s = (ok_or (Map.get node s.files) (node_not_open node), s)

  abbrev pub put_info : ℕ → FileMmapInfo → PageCache S W → PageCache S W
  put_info node info s = record s { files = Map.insert node info s.files }

  -- `self.files.entry(node)`: a new backing file for a node that has none.
  unfoldable pub entry : ℕ → Step (PageCache S W) CacheError FileMmapInfo
  entry node = gets (λ s. Map.get node s.files) >>= (λ found. elim found [
    | some info ↦ pure info
    | none ↦ do
      on_host system_call
      modify (λ s.
          put_info node new_info
            (record s { host = record s.host { contents = Map.insert node [] s.host.contents } }))
      pure new_info
  ])

  unfoldable pub grow : ℕ → ℕ → FileMmapInfo → Step (PageCache S W) CacheError (Unit {0})
  grow node size info = do
    on_host system_call
    modify (λ s.
        put_info node (record info { size = size }) (record s { host = set_len node size s.host }))

  -- `info.ensure_size(size)`
  unfoldable pub ensure_size : ℕ → ℕ → FileMmapInfo → Step (PageCache S W) CacheError (Unit {0})
  ensure_size node size info = if ltb info.size size then grow node size info else pure tt

  module _ {I : Type 0} (store : ForkableNodeStore S W I) where
    unfoldable pub open_node : ℕ → Step (PageCache S W) CacheError (Unit {0})
    open_node node = do
      info ← entry node
      (if in_use info then pure tt else on_store (store.on_open_node node))
      count ← lift (ok_or (checked_add info.open_fds 1) (invalid_mapping open_count_overflow))
      modify (put_info node (record info { open_fds = count }))

    unfoldable pub close : ℕ → Step (PageCache S W) CacheError (Unit {0})
    close node = do
      info ← info_mut node
      count ← lift (ok_or (checked_sub info.open_fds 1) (invalid_mapping not_open))
      modify (put_info node (record info { open_fds = count }))
      (if in_use (record info { open_fds = count })
          then pure tt
          else on_store (store.on_close_node node))

    unfoldable pub load_page : (node offset : ℕ) → Step (PageCache S W) CacheError (Unit {0})
    load_page node offset = do
      bytes ← on_store (store.read_node node offset page_size)
      on_host (write_all_at node offset (padded bytes))

    -- `fmap.version != info.version`, or no such page.
    abbrev pub must_load : ℕ → FileMmapInfo → Bool
    must_load offset info = elim (Map.get offset info.pages) [
      | none ↦ true
      | some fmap ↦ not (fmap.version == info.version)
    ]

    -- One round of the loop of `map`.
    unfoldable pub map_one :
        (node offset : ℕ) → MapFlags → Step (PageCache S W) CacheError (Unit {0})
    map_one node offset flags = do
      info ← info_mut node
      (if must_load offset info then load_page node offset else pure tt)
      modify (
          put_info node (record info {
            pages =
                Map.insert offset (mapped flags info.version (Map.get offset info.pages))
                  info.pages;
          }))

    -- `for page_offset in (offset..end).step_by(PAGE_SIZE)`, by the number of pages.
    unfoldable pub map_loop :
        ℕ → (node offset : ℕ) → MapFlags → Step (PageCache S W) CacheError (Unit {0})
    map_loop zero node offset flags = pure tt
    map_loop (suc pages) node offset flags =
        map_one node offset flags >>= (λ _. map_loop pages node (offset + page_size) flags)

    unfoldable pub map :
        (node offset len : ℕ) → MapFlags → Step (PageCache S W) CacheError DaxMapping
    unfolding map_loop
    map node offset len flags = do
      guard (len == 0) (invalid_mapping empty_mapping)
      guard (not (offset % page_size == 0)) (invalid_mapping unaligned)
      guard (not flags.read && not flags.write) (invalid_mapping no_access)
      aligned_len ← lift (ok_or (next_multiple len) (invalid_mapping mapping_overflow))
      end ← lift (ok_or (checked_add offset aligned_len) (invalid_mapping mapping_overflow))
      info ← info_mut node
      ensure_size node end info
      map_loop (aligned_len / page_size) node offset flags
      id ← gets (λ s. s.id)
      pure
          (record { cache_id = id; node = node; offset = offset; len = aligned_len; flags = flags })
