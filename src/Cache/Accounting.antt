-- ===== src/Cache/Accounting.antt =====
-- crates/minidox-cache/src/branching.rs: `SharedPageCache::page_accounting`.
use minidox.Prelude.{ℕ, Option, none, some, List, [], ◌∷◌, ok, err}
use minidox.Prelude.Order.{Ord, nat_ord, pair_ord}
use minidox.Prelude.Map
use minidox.Prelude.Map.{Map, keys}
use minidox.Prelude.Step.{Step, pure, ◌>>=◌}
use minidox.Accounting
use minidox.Accounting.{add_references}
use minidox.Cache.{CacheError}
use minidox.Cache.Dirty.{PageKey}
use minidox.Cache.Store.{ForkableNodeStore}
use minidox.Cache.State.{State, CacheBranch, put_branch, branch_mut}

pub record CachePageAccounting : Type 0 where
  pub resident_pages : ℕ
  pub shared_pages : ℕ

module _ {S W I : Type 0} ⦃o : Ord I⦄ (store : ForkableNodeStore S W I) where
  -- The inner loop: which cached pages a store shows. Pages without an identity are passed over.
  unfoldable pub pages_in_branch :
      List PageKey → Map I ℕ → S × W → Accounting.Set → (S × W) × Accounting.Set
  pages_in_branch [] pages s found = (s, found)
  pages_in_branch (key ∷ known) pages s found =
      let (result, s') = store.page_identity key.0 key.1 s in
      let cached : Option ℕ = elim result [ ok identity ↦ Map.get identity pages | err _ ↦ none ] in
      let found' : Accounting.Set = elim cached [
        | none ↦ found
        | some page ↦ Map.insert page tt found
      ] in
      pages_in_branch known pages s' found'

  -- The pages that one branch shows, with the changes of its store.
  unfoldable pub branch_pages : ℕ → CacheBranch S → State S W I → Accounting.Set × State S W I
  unfolding pages_in_branch
  branch_pages branch b s =
      let ((store', world), found) =
        pages_in_branch (keys s.known_pages) s.pages (b.store, s.world) [] in
      (found, record (put_branch branch (record b { store = store' }) s) { world = world })

  unfoldable pub count_branches : List ℕ → Map ℕ ℕ → Step (State S W I) CacheError (Map ℕ ℕ)
  unfolding branch_pages
  count_branches [] references = pure references
  count_branches (branch ∷ requested) references = branch_mut branch >>= (λ b s.
      let (found, s') = branch_pages branch b s in
      count_branches requested (add_references found references) s')

  unfoldable pub page_accounting : List ℕ → Step (State S W I) CacheError CachePageAccounting
  unfolding count_branches
  page_accounting requested = count_branches requested [] >>= (λ references. pure (record {
    resident_pages = Accounting.entries references;
    shared_pages = Accounting.shared references;
  }))
