-- ===== src/Cache/Branches.antt =====
-- crates/minidox-cache/src/branching.rs: `fork`, `remove_branch`, `open` and `close` of
-- `SharedPageCache`.
use minidox.Prelude.{
  ℕ, ◌-◌, not, Option, none, some, List, [], ◌∷◌, ok, err, ok_or, checked_add, if◌then◌else◌, ◌==◌,
  ltb,
}
use minidox.Prelude.Order.{Ord, nat_ord, pair_ord}
use minidox.Prelude.Map
use minidox.Prelude.Map.{Map, Set, contains_key, is_empty, keys}
use minidox.Prelude.Step.{Step, pure, lift, gets, modify, guard, ◌>>=◌, ◌>>◌}
use minidox.Cache.{
  CacheError, invalid_mapping, node_not_open, active_mappings, branch_identity_overflow,
  open_count_overflow, not_open,
}
use minidox.Cache.Dirty
use minidox.Cache.Dirty.{PageKey}
use minidox.Cache.Store.{ForkableNodeStore}
use minidox.Cache.State.{
  CacheBranch, State, count_of, find_branch, branch_mut, put_branch, with_store_mut,
}

abbrev pub checked_sub : ℕ → ℕ → Option ℕ
checked_sub m n = if ltb m n then none else some (m - n)

-- `map.retain(|identity, _| visible.contains(identity))`
unfoldable pub retain : {I : Type 0} ⦃o : Ord I⦄ → Set I → Map I ℕ → Map I ℕ
retain visible [] = []
retain visible ((identity, page) ∷ pages) =
    if contains_key identity visible
    then (identity, page) ∷ retain visible pages
    else retain visible pages

module _ {S W I : Type 0} where
  abbrev pub set_open : ℕ → ℕ → ℕ → State S W I → State S W I
  set_open branch node count s = elim (find_branch branch s) [
    | none ↦ s
    | some b ↦ put_branch branch (record b { open_nodes = Map.insert node count b.open_nodes }) s
  ]

  -- The child's entry, under the next identity.
  abbrev pub put_child : ℕ → ℕ → S → Dirty.DirtyBranch → State S W I → State S W I
  put_child child next store dirty s = record s {
    next_branch = next;
    branches =
        Map.insert child
          (record {
            store = store;
            open_nodes = [];
            active_pages = [];
            exclusive_pages = [];
            dirty_pages = dirty;
          })
          s.branches;
  }

  unfoldable pub fork : ForkableNodeStore S W I → ℕ → Step (State S W I) CacheError ℕ
  fork store source = do
    before ← branch_mut source
    guard (not (is_empty before.active_pages)) active_mappings
    child_store ← with_store_mut source store.fork_store
    b ← branch_mut source
    modify (
        put_branch source
          (record b { dirty_pages = (Dirty.fork b.dirty_pages).0; exclusive_pages = [] }))
    child ← gets (λ s. s.next_branch)
    next ← lift (ok_or (checked_add child 1) (invalid_mapping branch_identity_overflow))
    modify (put_child child next child_store (Dirty.fork b.dirty_pages).1)
    pure child

  unfoldable pub open_node :
      ForkableNodeStore S W I → ℕ → ℕ → Step (State S W I) CacheError (Unit {0})
  open_node store branch node = do
    b ← branch_mut branch
    modify (set_open branch node (count_of node b.open_nodes))
    (if count_of node b.open_nodes == 0
        then with_store_mut branch (store.on_open_node node)
        else pure tt)
    next ←
        lift
          (ok_or (checked_add (count_of node b.open_nodes) 1) (invalid_mapping open_count_overflow))
    modify (set_open branch node next)

  unfoldable pub close : ForkableNodeStore S W I → ℕ → ℕ → Step (State S W I) CacheError (Unit {0})
  close store branch node = do
    b ← branch_mut branch
    count ← lift (ok_or (Map.get node b.open_nodes) (node_not_open node))
    next ← lift (ok_or (checked_sub count 1) (invalid_mapping not_open))
    modify (set_open branch node next)
    (if next == 0 then with_store_mut branch (store.on_close_node node) else pure tt)

module _ {S W I : Type 0} ⦃o : Ord I⦄ (store : ForkableNodeStore S W I) where
  -- The inner loop of `remove_branch`: the identities that the branches have for one page.
  unfoldable pub probe_branches :
      PageKey → Map ℕ (CacheBranch S) → W → Set I → Map ℕ (CacheBranch S) × W × Set I
  probe_branches key [] world visible = ([], world, visible)
  probe_branches key ((id, b) ∷ branches) world visible =
      let (result, (store', world')) = store.page_identity key.0 key.1 (b.store, world) in
      let visible' : Set I = elim result [
        | ok identity ↦ Map.insert identity tt visible
        | err _ ↦ visible
      ] in
      let (branches', world'', visible'') = probe_branches key branches world' visible' in
      ((id, record b { store = store' }) ∷ branches', world'', visible'')

  unfoldable pub probe_pages :
      List PageKey → Map ℕ (CacheBranch S) → W → Set I → Map ℕ (CacheBranch S) × W × Set I
  unfolding probe_branches
  probe_pages [] branches world visible = (branches, world, visible)
  probe_pages (key ∷ known) branches world visible =
      let (branches', world', visible') = probe_branches key branches world visible in
      probe_pages known branches' world' visible'

  abbrev pub drop_unseen : State S W I → State S W I
  drop_unseen s =
      let (branches, world, visible) = probe_pages (keys s.known_pages) s.branches s.world [] in
      record s { branches = branches; world = world; pages = retain visible s.pages }

  unfoldable pub remove_branch : ℕ → Step (State S W I) CacheError (Unit {0})
  remove_branch branch = do
    b ← branch_mut branch
    guard (not (is_empty b.active_pages)) active_mappings
    modify (λ s. record s { branches = Map.remove branch s.branches })
    modify drop_unseen
