-- ===== src/Cache/Mapping.antt =====
-- crates/minidox-cache/src/branching.rs: `map_page`, `unmap` and `load_page`.
use minidox.Prelude.{
  ℕ, ◌+◌, ◌-◌, ◌%◌, Bool, true, false, not, ◌&&◌, ◌||◌, none, some, List, [], ◌∷◌, ◌++◌, ok, err,
  ok_or, if◌then◌else◌, ◌==◌, ltb, length, replicate, u64_mod,
}
use minidox.Prelude.Order.{Ord, nat_ord, pair_ord, same}
use minidox.Prelude.Map
use minidox.Prelude.Map.{Map, Set, contains_key}
use minidox.Prelude.Step.{Step, pure, lift, gets, modify, guard, ◌>>=◌, ◌>>◌}
use minidox.Cache.{
  page_size, MapFlags, CacheError, invalid_mapping, node_not_open, stale_mapping, page_busy,
  unaligned, no_access,
}
use minidox.Cache.Dirty
use minidox.Cache.Dirty.{PageKey}
use minidox.Cache.Host.{from_bytes, duplicate}
use minidox.Cache.Store.{ForkableNodeStore}
use minidox.Cache.State.{
  CacheBranch, State, count_of, find_branch, branch_mut, put_branch, with_store_mut, on_host,
}
use minidox.Cache.Branches.{checked_sub}

pub record DaxPageMapping : Type 0 where
  pub cache_id : ℕ
  pub branch : ℕ
  pub key : PageKey
  pub flags : MapFlags
  pub page : ℕ

-- `bytes[read..].fill(0)` on a page of zeros that `read_node` filled.
abbrev pub padded : List ℕ → List ℕ
padded bytes = bytes ++ replicate (page_size - length bytes) 0

-- `+= 1` on a count, which is below 2^64: the last one wraps to 0.
abbrev pub next_count : ℕ → ℕ
next_count count = if count == u64_mod - 1 then 0 else count + 1

-- `*branch.active_pages.entry(page).or_default() += 1`
abbrev pub activate : {S : Type 0} → ℕ → CacheBranch S → CacheBranch S
activate page b = record b {
  active_pages = Map.insert page (next_count (count_of page b.active_pages)) b.active_pages;
}

-- What `unmap` does to the branch, once the count of the page is to be `count`.
abbrev pub deactivate : {S : Type 0} → DaxPageMapping → ℕ → CacheBranch S → CacheBranch S
deactivate mapping count b = record b {
  active_pages =
      if count == 0
      then Map.remove mapping.page b.active_pages
      else Map.insert mapping.page count b.active_pages;
  dirty_pages =
      if mapping.flags.write then Dirty.mark_dirty mapping.key b.dirty_pages else b.dirty_pages;
}

module _ {S W I : Type 0} where
  -- A change of one branch in place.
  unfoldable pub update_branch : ℕ → (CacheBranch S → CacheBranch S) → State S W I → State S W I
  update_branch branch f s = elim (find_branch branch s) [
    | none ↦ s
    | some b ↦ put_branch branch (f b) s
  ]

  unfoldable pub unmap : ℕ → DaxPageMapping → Step (State S W I) CacheError (Unit {0})
  unmap branch mapping = do
    id ← gets (λ s. s.id)
    guard (not (mapping.cache_id == id) || not (mapping.branch == branch)) stale_mapping
    b ← branch_mut branch
    count ← lift (ok_or (Map.get mapping.page b.active_pages) stale_mapping)
    rest ← lift (ok_or (checked_sub count 1) stale_mapping)
    modify (update_branch branch (deactivate mapping rest))

module _ {S W I : Type 0} ⦃o : Ord I⦄ (store : ForkableNodeStore S W I) where
  abbrev pub put_page : I → ℕ → State S W I → State S W I
  put_page identity page s = record s { pages = Map.insert identity page s.pages }

  -- A page that the cache does not hold.
  unfoldable pub fault_page : ℕ → I → PageKey → Step (State S W I) CacheError ℕ
  fault_page branch identity key = do
    bytes ← with_store_mut branch (store.read_node key.0 key.1 page_size)
    page ← on_host (from_bytes (padded bytes))
    modify (put_page identity page)
    pure page

  unfoldable pub load_page : ℕ → I → PageKey → Step (State S W I) CacheError ℕ
  unfolding fault_page
  load_page branch identity key = do
    cached ← gets (λ s. Map.get identity s.pages)
    elim cached [ none ↦ fault_page branch identity key | some page ↦ pure page ]

  -- `branches.values_mut().any(..)`, which stops at the first branch that has the identity.
  unfoldable pub any_has :
      I → PageKey → Map ℕ (CacheBranch S) → W → Bool × Map ℕ (CacheBranch S) × W
  any_has identity key [] world = (false, [], world)
  any_has identity key ((id, b) ∷ branches) world =
      let (result, (store', world')) = store.page_identity key.0 key.1 (b.store, world) in
      let rest = any_has identity key branches world' in
      let b' = record b { store = store' } in
      let found : Bool = elim result [ ok i ↦ same i identity | err _ ↦ false ] in
      if found then (true, (id, b') ∷ branches, world') else (rest.0, (id, b') ∷ rest.1, rest.2)

  -- `if !old_identity_is_visible { pages.remove(&identity) }`
  abbrev pub drop_old : I → PageKey → State S W I → State S W I
  drop_old identity key s =
      let (visible, branches, world) = any_has identity key s.branches s.world in
      record s {
        branches = branches;
        world = world;
        pages = if visible then s.pages else Map.remove identity s.pages;
      }

  abbrev pub own : PageKey → CacheBranch S → CacheBranch S
  own key b = record b { exclusive_pages = Map.insert key tt b.exclusive_pages }

  -- The branch of `map_page` under `if copy_on_write`.
  unfoldable pub copy_page : ℕ → PageKey → I → ℕ → Step (State S W I) CacheError ℕ
  copy_page branch key identity page = do
    new_page ← on_host (duplicate page)
    new_identity ← with_store_mut branch (store.prepare_page_write key.0 key.1)
    modify (put_page new_identity new_page)
    modify (drop_old identity key)
    modify (update_branch branch (own key))
    pure new_page

  -- The page is known and the mapping counted; the mapping is the answer.
  unfoldable pub finish_map :
      ℕ → PageKey → MapFlags → ℕ → Step (State S W I) CacheError DaxPageMapping
  finish_map branch key flags page = do
    modify (λ s. record s { known_pages = Map.insert key tt s.known_pages })
    modify (update_branch branch (activate page))
    id ← gets (λ s. s.id)
    pure (record { cache_id = id; branch = branch; key = key; flags = flags; page = page })

  unfoldable pub map_page :
      ℕ → (node offset : ℕ) → MapFlags → Step (State S W I) CacheError DaxPageMapping
  unfolding load_page copy_page finish_map
  map_page branch node offset flags = do
    guard (not (offset % page_size == 0)) (invalid_mapping unaligned)
    guard (not (flags.read || flags.write)) (invalid_mapping no_access)
    b ← branch_mut branch
    guard (count_of node b.open_nodes == 0) (node_not_open node)
    identity ← with_store_mut branch (store.page_identity node offset)
    page ← load_page branch identity (node, offset)
    now ← branch_mut branch
    guard
        ((flags.write && not (contains_key (node, offset) now.exclusive_pages))
          && ltb 0 (count_of page now.active_pages))
        page_busy
    mapped ←
        (if flags.write && not (contains_key (node, offset) now.exclusive_pages)
          then copy_page branch (node, offset) identity page
          else pure page)
    finish_map branch (node, offset) flags mapped
