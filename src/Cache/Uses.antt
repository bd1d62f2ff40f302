-- ===== src/Cache/Uses.antt =====
-- The balance of active mappings, for each operation that maps pages.
use minidox.Prelude.{
  ℕ, zero, suc, ◌+◌, ◌-◌, ◌<◌, ◌≡◌, Bool, false, u64_mod, refl, ◌&&◌, ◌||◌, List, Result, ok, err,
  ◌==◌, ltb, leb, length, slice, copy_from_slice,
}
use minidox.Prelude.Order.{Ord, nat_ord}
use minidox.Prelude.Step.Hoare.{
  Hoare, Post, and_then, pure_lem, guard_lem, lift_lem, weaken, elim_lem, ite_lem, ok_leaves,
}
use minidox.Cache.{MapFlags, CacheError}
use minidox.Cache.Store.{ForkableNodeStore}
use minidox.Cache.State.{State}
use minidox.Cache.Mapping.{DaxPageMapping, unmap, map_page}
use minidox.Cache.Access.{
  read_only, read_write, page_start, chunk_len, read_chunk, read_loop, read, write_chunk,
  write_loop, write,
}
use minidox.Cache.Steps.{HostKeeps, on_host_lem, with_store_mut_lem}
use minidox.Cache.Active.{active, raised, Same, Same-StoresKeep}
use minidox.Cache.Balance.{Made, unmap-Same, unmap-Same_ok, map_page-Made}

-- Whether a call of `map_page` counts a mapping of this page in this branch.
abbrev pub counts_it : (branch : ℕ) → Result CacheError DaxPageMapping → (at page : ℕ) → Bool
counts_it branch (ok mapping) at page = at == branch && page == mapping.page
counts_it branch (err e) at page = false

-- Errors may leave anything.
abbrev Any : {S W I : Type 0} → State S W I → Type 0
Any s = Unit {0}

pub Same-refl : {S W I : Type 0} (s : State S W I) → Same s s
Same-refl s = record { counts = λ branch page. refl; kept = λ branch. refl; same_cache = refl }

module _ {S W I : Type 0} ⦃o : Ord I⦄ (store : ForkableNodeStore S W I) where
  -- `map_page` that succeeds raises the count of mappings of the page it answers with, in its
  -- branch, by one, from 2^64 - 1 to 0, and changes no other count; one that fails changes no
  -- count.
  pub active-map_page :
      (branch node offset : ℕ) (flags : MapFlags) (s : State S W I) (at page : ℕ)
      → active at page (map_page store branch node offset flags s).1
        ≡ raised
            (counts_it branch (map_page store branch node offset flags s).0 at page)
            (active at page s)
  active-map_page branch node offset flags s at page =
      by_result (map_page store branch node offset flags s)
        ((map_page-Made store branch node offset flags).run s (Same-refl s))
    where
      by_result :
          (r : Result CacheError DaxPageMapping × State S W I)
          → Post (Made s branch) (Same s) r
          → active at page r.1 ≡ raised (counts_it branch r.0 at page) (active at page s)
      by_result (ok mapping, t) made = made.one_more.counts at page
      by_result (err e, t) kept = kept.counts at page

  -- A mapping that map_page answered with, where the count of its page was less than 2^64 - 1
  -- before, is accepted by unmap, and both leave every count of mappings as it was.
  pub unmap-map_page :
      (branch node offset : ℕ) (flags : MapFlags) (s : State S W I) (mapping : DaxPageMapping)
      → (map_page store branch node offset flags s).0 ≡ ok mapping
      → active branch mapping.page s + 1 < u64_mod
      → ((unmap branch mapping (map_page store branch node offset flags s).1).0 ≡ ok tt)
        × ((at page : ℕ)
            → active at page (unmap branch mapping (map_page store branch node offset flags s).1).1
              ≡ active at page s)
  unmap-map_page branch node offset flags s mapping done room =
      let r = map_page store branch node offset flags s in
      let made =
        ok_leaves (map_page-Made store branch node offset flags) s mapping (Same-refl s) done in
      let q = unmap-Same branch mapping r.1 room made in (q.0, q.1.counts)

module _ {S W I : Type 0} ⦃o : Ord I⦄ (store : ForkableNodeStore S W I) {origin : State S W I} where
  Made-HostKeeps : (branch : ℕ) (mapping : DaxPageMapping) → HostKeeps (Made origin branch mapping)
  Made-HostKeeps branch mapping = record {
    hosts = λ s host p. record {
      one_more = record {
        counts = p.one_more.counts;
        kept = p.one_more.kept;
        same_cache = p.one_more.same_cache;
      };
      of_cache = p.of_cache;
      of_branch = p.of_branch;
      there = p.there;
    };
  }

  unmap_lem :
      (branch : ℕ) (mapping : DaxPageMapping)
      → Hoare (Made origin branch mapping) (unmap branch mapping) (λ _. Same origin) Any
  unmap_lem branch mapping = record {
    run = λ s p. by_result (unmap branch mapping s) (unmap-Same_ok branch mapping s p);
  }
    where
      by_result :
          (r : Result CacheError (Unit {0}) × State S W I)
          → (r.0 ≡ ok tt → Same origin r.1)
          → Post (λ _. Same origin) Any r
      by_result (ok u, t) q = q refl
      by_result (err e, t) q = tt

  read_chunk-Same :
      (branch node cursor end : ℕ)
      → Hoare (Same origin) (read_chunk store branch node cursor end) (λ _. Same origin) Any
  unfolding read_chunk
  read_chunk-Same branch node cursor end =
      and_then
        (weaken (map_page-Made store branch node (page_start cursor) read_only) (λ a s p. p)
          (λ s p. tt))
        λ mapping.
          and_then (weaken (on_host_lem _ (Made-HostKeeps branch mapping)) (λ a s p. p) (λ s p. tt))
            λ bytes. and_then (unmap_lem branch mapping) λ _. pure_lem _ λ s p. p

  write_chunk-Same :
      (branch node cursor end : ℕ) (bytes : List ℕ)
      → Hoare (Same origin) (write_chunk store branch node cursor end bytes) (λ _. Same origin) Any
  unfolding write_chunk
  write_chunk-Same branch node cursor end bytes =
      and_then
        (weaken (map_page-Made store branch node (page_start cursor) read_write) (λ a s p. p)
          (λ s p. tt))
        λ mapping.
          and_then (weaken (on_host_lem _ (Made-HostKeeps branch mapping)) (λ a s p. p) (λ s p. tt))
            λ _. unmap_lem branch mapping

  read_loop-Same :
      (fuel branch node offset cursor end : ℕ) (buf : List ℕ)
      → Hoare
          (Same origin)
          (read_loop store fuel branch node offset cursor end buf)
          (λ _. Same origin)
          Any
  unfolding read_loop
  read_loop-Same zero branch node offset cursor end buf = pure_lem _ λ s p. p
  read_loop-Same (suc fuel) branch node offset cursor end buf =
      elim_lem (ltb cursor end) (pure_lem _ λ s p. p) (
        and_then (read_chunk-Same branch node cursor end) λ bytes.
          read_loop-Same fuel branch node offset (cursor + chunk_len cursor end) end
            (copy_from_slice buf (cursor - offset) bytes))

  write_loop-Same :
      (fuel branch node offset cursor end : ℕ) (buf : List ℕ)
      → Hoare
          (Same origin)
          (write_loop store fuel branch node offset cursor end buf)
          (λ _. Same origin)
          Any
  unfolding write_loop
  write_loop-Same zero branch node offset cursor end buf = pure_lem _ λ s p. p
  write_loop-Same (suc fuel) branch node offset cursor end buf =
      elim_lem (ltb cursor end) (pure_lem _ λ s p. p) (
        and_then
          (write_chunk-Same branch node cursor end
            (slice buf (cursor - offset) (chunk_len cursor end)))
          λ _. write_loop-Same fuel branch node offset (cursor + chunk_len cursor end) end buf)

  read-Same :
      (branch node offset : ℕ) (buf : List ℕ)
      → Hoare (Same origin) (read store branch node offset buf) (λ _. Same origin) Any
  unfolding read
  read-Same branch node offset buf =
      and_then (weaken (with_store_mut_lem branch _ Same-StoresKeep) (λ a s p. p) (λ s p. tt))
        λ file_len. ite_lem (leb file_len offset || length buf == 0) (pure_lem _ λ s p. p) (
          and_then (lift_lem _ {Q = λ _. Same origin} (λ s a e p. p) (λ s p. tt)) λ end.
            and_then (read_loop-Same (end - offset) branch node offset offset end buf)
              λ filled. pure_lem _ λ s p. p)

  write-Same :
      (branch node offset : ℕ) (buf : List ℕ)
      → Hoare (Same origin) (write store branch node offset buf) (λ _. Same origin) Any
  unfolding write
  write-Same branch node offset buf =
      and_then (lift_lem _ {Q = λ _. Same origin} (λ s a e p. p) (λ s p. tt)) λ end.
        and_then (weaken (with_store_mut_lem branch _ Same-StoresKeep) (λ a s p. p) (λ s p. tt))
          λ file_len. and_then (guard_lem _ _ {Q = Same origin} (λ s _ p. tt) λ s _ p. p) λ _.
            and_then (write_loop-Same (length buf) branch node offset offset end buf)
              λ _. pure_lem _ λ s p. p

module _ {S W I : Type 0} ⦃o : Ord I⦄ (store : ForkableNodeStore S W I) where
  -- A read that succeeds leaves every count of mappings as it was.
  pub active-read :
      (branch node offset : ℕ) (buf : List ℕ) (s : State S W I) (r : ℕ × List ℕ)
      → (read store branch node offset buf s).0 ≡ ok r
      → (at page : ℕ) → active at page (read store branch node offset buf s).1 ≡ active at page s
  active-read branch node offset buf s r done =
      (ok_leaves (read-Same store {origin = s} branch node offset buf) s r (Same-refl s)
        done).counts

  -- A write that succeeds leaves every count of mappings as it was.
  pub active-write :
      (branch node offset : ℕ) (buf : List ℕ) (s : State S W I) (count : ℕ)
      → (write store branch node offset buf s).0 ≡ ok count
      → (at page : ℕ) → active at page (write store branch node offset buf s).1 ≡ active at page s
  active-write branch node offset buf s count done =
      (ok_leaves (write-Same store {origin = s} branch node offset buf) s count (Same-refl s)
        done).counts
