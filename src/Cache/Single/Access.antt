-- ===== src/Cache/Single/Access.antt =====
-- crates/minidox-cache/src/lib.rs: `read`, `write`, `sync` and `unmap` of `PageCache`.
use minidox.Prelude.{
  ℕ, zero, suc, ◌+◌, ◌-◌, ◌*◌, ◌/◌, min, max, Bool, true, not, ◌&&◌, ◌||◌, none, some, List, [],
  ◌∷◌, ok_or, checked_add, next_id, if◌then◌else◌, ◌==◌, leb, length, slice, take,
}
use minidox.Prelude.Order.{nat_ord}
use minidox.Prelude.Map
use minidox.Prelude.Map.{Map}
use minidox.Prelude.Step.{Step, pure, lift, gets, modify, guard, ◌>>=◌, ◌>>◌}
use minidox.Io.{write_zero}
use minidox.Cache.{
  page_size, CacheError, io, invalid_mapping, stale_mapping, read_overflow, write_overflow,
  mapping_overflow,
}
use minidox.Cache.Host.{read_exact_at, write_all_at}
use minidox.Cache.Store.{ForkableNodeStore}
use minidox.Cache.Branches.{checked_sub}
use minidox.Cache.Single.{
  Fmap, FileMmapInfo, PageCache, DaxMapping, in_use, next_multiple, on_store, on_host, info_mut,
  put_info, must_load,
}

module _ {S W I : Type 0} (store : ForkableNodeStore S W I) where
  -- `sync_page`; the page may be gone from the table when the file has become shorter.
  abbrev pub renew : ℕ → FileMmapInfo → FileMmapInfo
  renew offset info = elim (Map.get offset info.pages) [
    | none ↦ info
    | some fmap ↦ record info {
      pages = Map.insert offset (record fmap { version = info.version }) info.pages;
    }
  ]

  unfoldable pub write_back : (node offset count : ℕ) → Step (PageCache S W) CacheError (Unit {0})
  write_back node offset count = do
    bytes ← on_host (read_exact_at node offset count)
    written ← on_store (store.write_node node offset bytes)
    guard (not (written == count)) (io write_zero)
    info ← info_mut node
    modify (put_info node (renew offset info))

  unfoldable pub sync_page : (node offset : ℕ) → Step (PageCache S W) CacheError (Unit {0})
  sync_page node offset = on_store (store.len node) >>= (λ file_len.
      if leb file_len offset
      then pure tt
      else write_back node offset (min (file_len - offset) page_size))

  unfoldable pub sync_loop : ℕ → List ℕ → Step (PageCache S W) CacheError (Unit {0})
  sync_loop node [] = pure tt
  sync_loop node (offset ∷ offsets) = sync_page node offset >>= (λ _. sync_loop node offsets)

  -- The pages with the flag `WRITE`.
  unfoldable pub written_pages : Map ℕ Fmap → List ℕ
  written_pages [] = []
  written_pages ((offset, fmap) ∷ pages) =
      if fmap.flags.write then offset ∷ written_pages pages else written_pages pages

  unfoldable pub sync : ℕ → Step (PageCache S W) CacheError (Unit {0})
  sync node = do info ← info_mut node; sync_loop node (written_pages info.pages)

  -- One round of the loop of `unmap`: the page is synced first, so an error keeps its mapping.
  unfoldable pub unmap_one : (node offset : ℕ) → Step (PageCache S W) CacheError (Unit {0})
  unmap_one node offset = do
    info ← info_mut node
    fmap ← lift (ok_or (Map.get offset info.pages) stale_mapping)
    (if fmap.flags.write then sync_page node offset else pure tt)
    rc ← lift (ok_or (checked_sub fmap.rc 1) stale_mapping)
    synced ← info_mut node
    now ← lift (ok_or (Map.get offset synced.pages) stale_mapping)
    modify (
        put_info node
          (record synced { pages = Map.insert offset (record now { rc = rc }) synced.pages }))

  unfoldable pub unmap_loop : ℕ → (node offset : ℕ) → Step (PageCache S W) CacheError (Unit {0})
  unmap_loop zero node offset = pure tt
  unmap_loop (suc pages) node offset =
      unmap_one node offset >>= (λ _. unmap_loop pages node (offset + page_size))

  unfoldable pub unmap : DaxMapping → Step (PageCache S W) CacheError (Unit {0})
  unfolding unmap_loop
  unmap mapping = do
    id ← gets (λ s. s.id)
    guard (not (mapping.cache_id == id)) stale_mapping
    before ← info_mut mapping.node
    end ← lift (ok_or (checked_add mapping.offset mapping.len) (invalid_mapping mapping_overflow))
    unmap_loop ((end - mapping.offset) / page_size) mapping.node mapping.offset
    info ← info_mut mapping.node
    (if in_use info then pure tt else on_store (store.on_close_node mapping.node))

  -- Whether the pages of a range are cached in their newest version.
  unfoldable pub fully_cached : ℕ → (offset : ℕ) → FileMmapInfo → Bool
  fully_cached zero offset info = true
  fully_cached (suc pages) offset info =
      not (must_load store offset info) && fully_cached pages (offset + page_size) info

  unfoldable pub read_store : (node offset count : ℕ) → Step (PageCache S W) CacheError (List ℕ)
  read_store node offset count = on_store (store.read_node node offset count)

  unfoldable pub read_cached :
      (node offset count : ℕ) → FileMmapInfo → Step (PageCache S W) CacheError (List ℕ)
  read_cached node offset count info = do
    end ← lift (ok_or (next_multiple (offset + count)) (invalid_mapping read_overflow))
    (if fully_cached ((end - offset / page_size * page_size) / page_size)
          (offset / page_size * page_size) info
        then on_host (read_exact_at node offset count)
        else read_store node offset count)

  -- The bytes that are read, for a buffer of `len` bytes.
  unfoldable pub read : (node offset len : ℕ) → Step (PageCache S W) CacheError (List ℕ)
  read node offset len = do
    file_len ← on_store (store.len node)
    found ← gets (λ s. Map.get node s.files)
    (if leb file_len offset || len == 0 then pure [] else elim found [
      | none ↦ read_store node offset (min (file_len - offset) len)
      | some info ↦ read_cached node offset (min (file_len - offset) len) info
    ])

  -- The loop of `update_cached_pages` over the pages of the file, for a write up to `end`.
  unfoldable pub update_loop :
      (node offset end : ℕ) → List ℕ → Map ℕ Fmap → Step (PageCache S W) CacheError (Unit {0})
  update_loop node offset end buf [] = pure tt
  update_loop node offset end buf ((page, fmap) ∷ pages) =
      let overlap_start = max offset page in
      let overlap_end = min end (page + page_size) in
      (if leb overlap_end overlap_start then pure tt else do
        on_host (
            write_all_at node overlap_start
              (slice buf (overlap_start - offset) (overlap_end - overlap_start)))
        info ← info_mut node
        modify (put_info node (renew page info)))
      >>= (λ _. update_loop node offset end buf pages)

  unfoldable pub update_cached_pages :
      (node offset : ℕ) → List ℕ → FileMmapInfo → Step (PageCache S W) CacheError (Unit {0})
  update_cached_pages node offset buf info = do
    end ← lift (ok_or (checked_add offset (length buf)) (invalid_mapping write_overflow))
    update_loop node offset end buf info.pages

  -- The version of a cached file after a write: `wrapping_add(1)`.
  abbrev pub bumped : FileMmapInfo → FileMmapInfo
  bumped info = record info { version = next_id info.version }

  unfoldable pub refresh :
      (node offset : ℕ) → List ℕ → FileMmapInfo → Step (PageCache S W) CacheError (Unit {0})
  refresh node offset buf info = do
    modify (put_info node (bumped info))
    update_cached_pages node offset buf (bumped info)

  unfoldable pub write : (node offset : ℕ) → List ℕ → Step (PageCache S W) CacheError ℕ
  write node offset buf = do
    written ← on_store (store.write_node node offset buf)
    found ← gets (λ s. Map.get node s.files)
    elim found [ none ↦ pure tt | some info ↦ refresh node offset (take written buf) info ]
    pure written
