-- ===== src/Cache/Access.antt =====
-- crates/minidox-cache/src/branching.rs: `read`, `write`, `sync` and `sync_all` of
-- `SharedPageCache`, and `sync_pages`. `usize` has 64 bits, so its conversions do not fail.
use minidox.Prelude.{
  ℕ, zero, suc, ◌+◌, ◌-◌, ◌*◌, ◌/◌, min, true, false, not, ◌||◌, List, [], ◌∷◌, ok_or, checked_add,
  if◌then◌else◌, ◌==◌, ltb, leb, length, slice, copy_from_slice,
}
use minidox.Prelude.Order.{Ord, nat_ord, pair_ord}
use minidox.Prelude.Map
use minidox.Prelude.Step.{Step, pure, lift, gets, modify, guard, ◌>>=◌, ◌>>◌}
use minidox.Io.{write_zero}
use minidox.Cache.{
  page_size, MapFlags, CacheError, io, invalid_mapping, stale_mapping, read_overflow,
  write_overflow, beyond_file,
}
use minidox.Cache.Dirty
use minidox.Cache.Dirty.{PageKey}
use minidox.Cache.Host.{read_exact_at, write_all_at}
use minidox.Cache.Store.{ForkableNodeStore}
use minidox.Cache.State.{CacheBranch, State, branch_mut, with_store_mut, on_host}
use minidox.Cache.Mapping.{update_branch, map_page, unmap}

abbrev pub read_only : MapFlags
read_only = record { read = true; write = false }

abbrev pub read_write : MapFlags
read_write = record { read = true; write = true }

abbrev pub page_start : ℕ → ℕ
page_start cursor = cursor / page_size * page_size

-- How many bytes of the range stand in the cursor's page.
abbrev pub chunk_len : ℕ → ℕ → ℕ
chunk_len cursor end = min (page_size - (cursor - page_start cursor)) (end - cursor)

abbrev pub clean : {S : Type 0} → PageKey → CacheBranch S → CacheBranch S
clean key b = record b { dirty_pages = Dirty.mark_clean key b.dirty_pages }

module _ {S W I : Type 0} ⦃o : Ord I⦄ (store : ForkableNodeStore S W I) where
  -- One round of the loop of `read`: the bytes of the cursor's page.
  unfoldable pub read_chunk : (branch node cursor end : ℕ) → Step (State S W I) CacheError (List ℕ)
  read_chunk branch node cursor end = do
    mapping ← map_page store branch node (page_start cursor) read_only
    bytes ← on_host (read_exact_at mapping.page (cursor - page_start cursor) (chunk_len cursor end))
    unmap branch mapping
    pure bytes

  -- The loop of `read`. Each round advances the cursor, so the length of the range is fuel enough.
  unfoldable pub read_loop :
      ℕ → (branch node offset cursor end : ℕ) → List ℕ → Step (State S W I) CacheError (List ℕ)
  unfolding read_chunk
  read_loop zero branch node offset cursor end buf = pure buf
  read_loop (suc fuel) branch node offset cursor end buf = elim (ltb cursor end) [
    | false ↦ pure buf
    | true ↦ read_chunk branch node cursor end >>= (λ bytes.
        read_loop fuel branch node offset (cursor + chunk_len cursor end) end
          (copy_from_slice buf (cursor - offset) bytes))
  ]

  -- The count and the buffer, which is given by its bytes.
  unfoldable pub read :
      (branch node offset : ℕ) → List ℕ → Step (State S W I) CacheError (ℕ × List ℕ)
  unfolding read_loop
  read branch node offset buf = do
    file_len ← with_store_mut branch (store.len node)
    (if leb file_len offset || length buf == 0 then pure (0, buf) else do
      end ← lift (
          ok_or (checked_add offset (min (file_len - offset) (length buf)))
            (invalid_mapping read_overflow))
      filled ← read_loop (end - offset) branch node offset offset end buf
      pure (end - offset, filled))

  -- One round of the loop of `write`.
  unfoldable pub write_chunk :
      (branch node cursor end : ℕ) → List ℕ → Step (State S W I) CacheError (Unit {0})
  write_chunk branch node cursor end bytes = do
    mapping ← map_page store branch node (page_start cursor) read_write
    on_host (write_all_at mapping.page (cursor - page_start cursor) bytes)
    unmap branch mapping

  unfoldable pub write_loop :
      ℕ → (branch node offset cursor end : ℕ) → List ℕ → Step (State S W I) CacheError (Unit {0})
  unfolding write_chunk
  write_loop zero branch node offset cursor end buf = pure tt
  write_loop (suc fuel) branch node offset cursor end buf = elim (ltb cursor end) [
    | false ↦ pure tt
    | true ↦
        write_chunk branch node cursor end (slice buf (cursor - offset) (chunk_len cursor end))
        >>= (λ _. write_loop fuel branch node offset (cursor + chunk_len cursor end) end buf)
  ]

  unfoldable pub write : (branch node offset : ℕ) → List ℕ → Step (State S W I) CacheError ℕ
  unfolding write_loop
  write branch node offset buf = do
    end ← lift (ok_or (checked_add offset (length buf)) (invalid_mapping write_overflow))
    file_len ← with_store_mut branch (store.len node)
    guard (ltb file_len end) (invalid_mapping beyond_file)
    write_loop (length buf) branch node offset offset end buf
    pure (length buf)

  -- One page of `sync_pages` that stands inside its file.
  unfoldable pub write_back : ℕ → PageKey → ℕ → Step (State S W I) CacheError (Unit {0})
  write_back branch key file_len = do
    identity ← with_store_mut branch (store.page_identity key.0 key.1)
    cached ← gets (λ s. Map.get identity s.pages)
    page ← lift (ok_or cached stale_mapping)
    bytes ← on_host (read_exact_at page 0 (min (file_len - key.1) page_size))
    written ← with_store_mut branch (store.write_node key.0 key.1 bytes)
    guard (not (written == min (file_len - key.1) page_size)) (io write_zero)
    modify (update_branch branch (clean key))

  unfoldable pub sync_page : ℕ → PageKey → Step (State S W I) CacheError (Unit {0})
  unfolding write_back
  sync_page branch key = do
    file_len ← with_store_mut branch (store.len key.0)
    (if leb file_len key.1
        then modify (update_branch branch (clean key))
        else write_back branch key file_len)

  unfoldable pub sync_loop : ℕ → List PageKey → Step (State S W I) CacheError (Unit {0})
  unfolding sync_page
  sync_loop branch [] = pure tt
  sync_loop branch (key ∷ dirty_pages) =
      sync_page branch key >>= (λ _. sync_loop branch dirty_pages)

  unfoldable pub sync_pages : ℕ → List PageKey → Step (State S W I) CacheError (Unit {0})
  unfolding sync_loop
  sync_pages branch dirty_pages = branch_mut branch >>= (λ _. sync_loop branch dirty_pages)

  unfoldable pub sync : (branch node : ℕ) → Step (State S W I) CacheError (Unit {0})
  unfolding sync_pages
  sync branch node =
      branch_mut branch >>= (λ b. sync_pages branch (Dirty.pages_for_node node b.dirty_pages))

  unfoldable pub sync_all : (branch : ℕ) → Step (State S W I) CacheError (Unit {0})
  unfolding sync_pages
  sync_all branch = branch_mut branch >>= (λ b. sync_pages branch (Dirty.pages b.dirty_pages))
