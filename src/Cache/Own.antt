-- ===== src/Cache/Own.antt =====
-- `map_page` on the table of cached pages.
use minidox.Prelude.{
  ℕ, ◌+◌, ◌≤◌, ◌<◌, ◌≡◌, ◌≢◌, refl, Bool, true, false, not, ◌&&◌, Option, none, some, Result, ok,
  err, if◌then◌else◌, arith, u64_mod,
}
use minidox.Prelude.Order.{Ord, nat_ord, pair_ord}
use minidox.Prelude.Map
use minidox.Prelude.Map.{get, get-insert, contains_key}
use minidox.Prelude.Step.{pure}
use minidox.Prelude.Step.Hoare.{
  Hoare, Post, and_then, pure_lem, guard_lem, modify_lem, gets_lem, weaken, framed, strengthen,
  ok_leaves,
}
use minidox.Cache.{MapFlags, CacheError}
use minidox.Cache.Dirty.{PageKey}
use minidox.Cache.Host.{bytes_of}
use minidox.Cache.Host.Laws.{from_bytes-NewPage, duplicate-NewPage, SamePages-refl}
use minidox.Cache.Store.{ForkableNodeStore}
use minidox.Cache.State.{State}
use minidox.Cache.Mapping.{
  DaxPageMapping, activate, fault_page, load_page, own, copy_page, finish_map, map_page,
}
use minidox.Cache.Steps.{StoresKeep, branch_mut_lem, with_store_mut_lem, on_host_by}
use minidox.Cache.Table.{
  owns, PagesValid, Table, Fresh, Table-less, Table-branches, update_branch-Table, NewPage-Table,
  SamePages-Table, put_page-Table, drop_old-Table,
}

-- The table, and what the branch owns, while `map_page` has not changed it.
record Ready {S W I : Type 0} ⦃o : Ord I⦄ (origin : State S W I) (branch : ℕ) (key : PageKey)
    (n : ℕ) (s : State S W I) : Type 0 where
  table : Table origin n s
  owned : owns branch key s ≡ owns branch key origin

module _ {S W I : Type 0} ⦃o : Ord I⦄ {origin : State S W I} where
  Ready-StoresKeep : {branch : ℕ} {key : PageKey} {n : ℕ} → StoresKeep (Ready origin branch key n)
  unfolding owns
  Ready-StoresKeep {branch} {key} {n} = record {
    stores = λ s at b store world e p. record {
      table =
          Table-branches n s (Map.insert at (record b { store = store }) s.branches) world p.table;
      owned = ground (arith, get-insert at branch (record b { store = store }) s.branches, p.owned);
    };
  }

  -- A fresh page waits while a store works.
  Pending-StoresKeep : {n page : ℕ} → StoresKeep (λ s. Table origin n s × Fresh origin page s)
  Pending-StoresKeep {n} = record {
    stores = λ s at b store world e p. (
      Table-branches n s (Map.insert at (record b { store = store }) s.branches) world p.0,
      record { made = p.1.made; since = p.1.since; unbound = p.1.unbound },
    );
  }

module _ {S W I : Type 0} ⦃o : Ord I⦄ (store : ForkableNodeStore S W I) {origin : State S W I}
    (branch : ℕ) (key : PageKey) where
  load_page-Ready :
      (identity : I)
      → Hoare
          (Ready origin branch key 2)
          (load_page store branch identity key)
          (λ _. Ready origin branch key 1)
          (Table origin 0)
  unfolding load_page fault_page owns
  load_page-Ready identity =
      and_then (gets_lem _ {Q = λ _. Ready origin branch key 2} λ s p. p) by_cached
    where
      by_cached :
          (cached : Option ℕ)
          → Hoare
              (Ready origin branch key 2)
              (elim cached [ none ↦ fault_page store branch identity key | some page ↦ pure page ])
              (λ _. Ready origin branch key 1)
              (Table origin 0)
      by_cached (some page) =
          pure_lem _
            λ s p. record { table = Table-less 2 1 s (omega arith) p.table; owned = p.owned }
      by_cached none =
          and_then
            (weaken (with_store_mut_lem branch _ Ready-StoresKeep) (λ a s p. p)
              (λ s p. Table-less 2 0 s (omega arith) p.table))
            λ bytes.
              and_then
                (on_host_by {R = λ page s. Ready origin branch key 1 s × Fresh origin page s}
                  (λ before. strengthen (from_bytes-NewPage _) (SamePages-refl before))
                  (λ s page host p q.
                    let t = NewPage-Table 1 page s host p.table q in
                    (record { table = t.0; owned = p.owned }, t.1))
                  (λ s host p q.
                    Table-less 2 0 _ (omega arith) (SamePages-Table 2 s host p.table q)))
                λ page.
                  and_then
                    (modify_lem _ {Q = Ready origin branch key 1} λ s p. record {
                      table = put_page-Table store 1 identity page s p.0.table p.1;
                      owned = p.0.owned;
                    })
                    λ _. pure_lem _ λ s p. p

  copy_page-Table :
      (identity : I) (page : ℕ)
      → Hoare
          (Table origin 1)
          (copy_page store branch key identity page)
          (λ copy s. Table origin 0 s × (origin.host.next_page_id ≤ copy))
          (Table origin 0)
  unfolding copy_page
  copy_page-Table identity page =
      and_then
        (on_host_by {R = λ copy s. Table origin 0 s × Fresh origin copy s}
          (λ before. strengthen (duplicate-NewPage page) (SamePages-refl before))
          (λ s copy host p q. NewPage-Table 0 copy s host p q)
          (λ s host p q. Table-less 1 0 _ (omega arith) (SamePages-Table 1 s host p q)))
        λ copy.
          and_then
            (weaken (with_store_mut_lem branch _ Pending-StoresKeep) (λ a s p. p) (λ s p. p.0))
            λ new_identity.
              and_then
                (modify_lem _ {Q = λ s. Table origin 0 s × (origin.host.next_page_id ≤ copy)}
                  λ s p. (put_page-Table store 0 new_identity copy s p.0 p.1, p.1.since))
                λ _.
                  and_then
                    (modify_lem _ {Q = λ s. Table origin 0 s × (origin.host.next_page_id ≤ copy)}
                      λ s p. (drop_old-Table store 0 identity key s p.0, p.1))
                    λ _.
                      and_then
                        (modify_lem _
                          {Q = λ s. Table origin 0 s × (origin.host.next_page_id ≤ copy)}
                          λ s p. (update_branch-Table 0 branch (own store key) s p.0, p.1))
                        λ _. pure_lem _ λ s p. p

  finish_map-Table :
      (flags : MapFlags) (page : ℕ)
      → Hoare
          (Table origin 0)
          (finish_map store branch key flags page)
          (λ mapping s. Table origin 0 s × (mapping.page ≡ page))
          (Table origin 0)
  unfolding finish_map
  finish_map-Table flags page =
      and_then
        (modify_lem _ {Q = Table origin 0} λ s p. record {
          valid = record { below = p.valid.below; unique = p.valid.unique };
          room = p.room;
          grown = p.grown;
          bytes = p.bytes;
        })
        λ _.
          and_then
            (modify_lem _ {Q = Table origin 0}
              λ s p. update_branch-Table 0 branch (activate page) s p)
            λ _.
              and_then (gets_lem _ {Q = λ _. Table origin 0} λ s p. p)
                λ id. pure_lem _ λ s p. (p, refl)

-- A branch that asks for a writable page that it does not own.
abbrev asks_copy : {S W I : Type 0} → State S W I → (branch : ℕ) → PageKey → MapFlags → Bool
asks_copy s branch key flags = flags.write && not (owns branch key s)

-- What `map_page` leaves.
record Mapped {S W I : Type 0} ⦃o : Ord I⦄ (origin : State S W I) (branch : ℕ) (key : PageKey)
    (flags : MapFlags) (page : ℕ) (s : State S W I) : Type 0 where
  table : Table origin 0 s
  copied : asks_copy origin branch key flags ≡ true → origin.host.next_page_id ≤ page

module _ {S W I : Type 0} ⦃o : Ord I⦄ (store : ForkableNodeStore S W I) {origin : State S W I}
    (branch node offset : ℕ) (flags : MapFlags) where
  map_page-Mapped :
      Hoare
        (Ready origin branch (node, offset) 2)
        (map_page store branch node offset flags)
        (λ mapping. Mapped origin branch (node, offset) flags mapping.page)
        (Table origin 0)
  unfolding map_page owns
  map_page-Mapped =
      let less : (s : State S W I) → Ready origin branch (node, offset) 2 s → Table origin 0 s =
        λ s p. Table-less 2 0 s (omega arith) p.table in
      let less1 : (s : State S W I) → Ready origin branch (node, offset) 1 s → Table origin 0 s =
        λ s p. Table-less 1 0 s (omega arith) p.table in
      and_then
        (guard_lem _ _ {Q = Ready origin branch (node, offset) 2} (λ s _ p. less s p) λ s _ p. p)
        λ _.
          and_then
            (guard_lem _ _ {Q = Ready origin branch (node, offset) 2} (λ s _ p. less s p)
              λ s _ p. p)
            λ _. and_then (weaken (branch_mut_lem branch) (λ b s p. p.0) less) λ b.
              and_then
                (guard_lem _ _ {Q = Ready origin branch (node, offset) 2} (λ s _ p. less s p)
                  λ s _ p. p)
                λ _.
                  and_then (weaken (with_store_mut_lem branch _ Ready-StoresKeep) (λ a s p. p) less)
                    λ identity.
                      and_then (load_page-Ready store branch (node, offset) identity) λ page.
                        and_then (weaken (branch_mut_lem branch) (λ b s p. p) less1) λ now.
                          let copies =
                            flags.write && not (contains_key (node, offset) now.exclusive_pages) in
                          and_then
                            (guard_lem _ _ {Q = λ s. Table origin 1 s × (asks ≡ copies)}
                              (λ s _ p. less1 s p.0)
                              λ s _ p. (p.0.table, ground (arith, p.0.owned)))
                            λ _. and_then (by_copy identity page copies) λ mapped.
                              weaken
                                (framed (finish_map-Table store branch (node, offset) flags mapped))
                                (λ mapping s q. record {
                                  table = q.0.0;
                                  copied = λ e. omega (arith, q.0.1, q.1 e);
                                })
                                (λ s p. p)
    where
      asks : Bool
      asks = asks_copy origin branch (node, offset) flags

      by_copy :
          (identity : I) (page : ℕ) (copies : Bool)
          → Hoare
              (λ s. Table origin 1 s × (asks ≡ copies))
              (if copies then copy_page store branch (node, offset) identity page else pure page)
              (λ mapped s. Table origin 0 s × (asks ≡ true → origin.host.next_page_id ≤ mapped))
              (Table origin 0)
      by_copy identity page true =
          weaken
            (strengthen (copy_page-Table store branch (node, offset) identity page) (λ s p. p.0))
            (λ c s q. (q.0, λ _. q.1)) (λ s p. p)
      by_copy identity page false =
          pure_lem _ λ s p. (Table-less 1 0 s (omega arith) p.0, λ e. absurd (ground (arith, p.1)))

Ready-refl :
    {S W I : Type 0} ⦃o : Ord I⦄ (branch : ℕ) (key : PageKey) (s : State S W I)
    → PagesValid s
    → s.host.next_page_id + 2 < u64_mod
    → Ready s branch key 2 s
Ready-refl branch key s v room = record {
  table = record { valid = v; room = room; grown = omega arith; bytes = λ page lt. refl };
  owned = refl;
}

module _ {S W I : Type 0} ⦃o : Ord I⦄ (store : ForkableNodeStore S W I) (branch node offset : ℕ)
    (flags : MapFlags) (s : State S W I) where
  -- From a valid page table and with page identities left, a call of map_page, failing or not,
  -- keeps each cached page under one identity and the bytes of every page that was there.
  pub pages-map_page :
      PagesValid s
      → s.host.next_page_id + 2 < u64_mod
      → PagesValid (map_page store branch node offset flags s).1
        × ((page : ℕ)
            → page < s.host.next_page_id
            → bytes_of page (map_page store branch node offset flags s).1.host
              ≡ bytes_of page s.host)
  pages-map_page v room = by_result (map_page store branch node offset flags s) (
      (map_page-Mapped store {origin = s} branch node offset flags).run s
        (Ready-refl branch (node, offset) s v room))
    where
      by_result :
          (r : Result CacheError DaxPageMapping × State S W I)
          → Post (λ mapping. Mapped s branch (node, offset) flags mapping.page) (Table s 0) r
          → PagesValid r.1
            × ((page : ℕ)
                → page < s.host.next_page_id
                → bytes_of page r.1.host ≡ bytes_of page s.host)
      by_result (ok mapping, t) q = (q.table.valid, q.table.bytes)
      by_result (err e, t) q = (q.valid, q.bytes)

  -- In a cache with a valid page table and page identities left, a writable mapping of a page
  -- that its branch does not own is of a new page, none that the cache held before for any
  -- branch.
  pub unbound-map_page :
      (mapping : DaxPageMapping)
      → PagesValid s
      → s.host.next_page_id + 2 < u64_mod
      → (map_page store branch node offset flags s).0 ≡ ok mapping
      → flags.write ≡ true
      → owns branch (node, offset) s ≡ false
      → (i : I) → get i s.pages ≢ some mapping.page
  unbound-map_page mapping v room done writes not_owned i e =
      let q =
        ok_leaves (map_page-Mapped store {origin = s} branch node offset flags) s mapping
          (Ready-refl branch (node, offset) s v room) done in
      absurd (omega (arith, q.copied (ground arith), v.below i mapping.page e))
