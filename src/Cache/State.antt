-- ===== src/Cache/State.antt =====
-- crates/minidox-cache/src/branching.rs: `SharedPageCache`, its branches, and how they come and go.
-- The lock makes each method one step. An `Arc<CachePage>` is the identity of the page.
use minidox.Prelude.{
  ℕ, ◌+◌, Option, none, some, List, [], ◌∷◌, length, Result, ok, err, ok_or, map_err, checked_add,
  next_id,
}
use minidox.Prelude.Order.{nat_ord, pair_ord}
use minidox.Prelude.Map
use minidox.Prelude.Map.{Map, Set, contains_key, is_empty, keys}
use minidox.Prelude.Step.{Step}
use minidox.Io.{IoError}
use minidox.Cache.{
  CacheError, io, invalid_mapping, branch_not_found, no_branches, branch_identity_overflow,
}
use minidox.Cache.Dirty
use minidox.Cache.Dirty.{PageKey, DirtyBranch}
use minidox.Cache.Host.{Host}

pub record CacheBranch (S : Type 0) : Type 0 where
  pub store : S
  pub open_nodes : Map ℕ ℕ
  pub active_pages : Map ℕ ℕ
  pub exclusive_pages : Set PageKey
  pub dirty_pages : DirtyBranch

-- `SharedPageCache` with its `State`, and what lies outside of it.
pub record State (S W I : Type 0) : Type 0 where
  pub id : ℕ
  pub next_branch : ℕ
  pub branches : Map ℕ (CacheBranch S)
  pub pages : Map I ℕ
  pub known_pages : Set PageKey
  pub host : Host
  pub world : W

abbrev pub new_branch : {S : Type 0} → S → CacheBranch S
new_branch store = record {
  store = store;
  open_nodes = [];
  active_pages = [];
  exclusive_pages = [];
  dirty_pages = Dirty.new;
}

-- The count of a key in `open_nodes` or `active_pages`, 0 where it has no entry.
unfoldable pub count_of : ℕ → Map ℕ ℕ → ℕ
count_of key counts = elim (Map.get key counts) [ none ↦ 0 | some count ↦ count ]

-- The branches of the stores, under the identities from `index + 1` on.
unfoldable pub number_branches : {S : Type 0} → List S → ℕ → Map ℕ (CacheBranch S)
number_branches [] index = []
number_branches (store ∷ stores) index =
    Map.insert (index + 1) (new_branch store) (number_branches stores (index + 1))

unfoldable pub branch_ids : {S : Type 0} → List S → ℕ → List ℕ
branch_ids [] index = []
branch_ids (store ∷ stores) index = (index + 1) ∷ branch_ids stores (index + 1)

module _ {S W I : Type 0} where
  -- A cache with these branches and no pages, under the next cache identity.
  abbrev with_branches : Host → W → ℕ → Map ℕ (CacheBranch S) → State S W I
  with_branches host world next_branch branches = record {
    id = host.next_cache_id;
    next_branch = next_branch;
    branches = branches;
    pages = [];
    known_pages = [];
    host = record host { next_cache_id = next_id host.next_cache_id };
    world = world;
  }

  unfoldable pub new : S → Host → W → State S W I × ℕ
  new store host world = (with_branches host world 2 (Map.insert 1 (new_branch store) []), 1)

  unfoldable pub restore : List S → Host → W → Result CacheError (State S W I × List ℕ)
  unfolding number_branches branch_ids
  restore [] host world = err (invalid_mapping no_branches)
  restore (store ∷ stores) host world = elim (checked_add (length (store ∷ stores)) 1) [
    | none ↦ err (invalid_mapping branch_identity_overflow)
    | some next_branch ↦ ok (
      with_branches host world next_branch (number_branches (store ∷ stores) 0),
      branch_ids (store ∷ stores) 0,
    )
  ]

module _ {S W I : Type 0} where
  abbrev pub find_branch : ℕ → State S W I → Option (CacheBranch S)
  find_branch branch s = Map.get branch s.branches

  -- `branch_mut`, and the lookups that it spells out.
  unfoldable pub branch_mut : ℕ → Step (State S W I) CacheError (CacheBranch S)
  branch_mut branch s = (ok_or (find_branch branch s) (branch_not_found branch), s)

  -- The assignment through the `&mut` that `branch_mut` gave.
  abbrev pub put_branch : ℕ → CacheBranch S → State S W I → State S W I
  put_branch branch b s = record s { branches = Map.insert branch b s.branches }

  -- A method of the branch's store, with `?` on its error.
  unfoldable pub with_store_mut :
      {A : Type 0} → ℕ → Step (S × W) IoError A → Step (State S W I) CacheError A
  with_store_mut branch operation s = elim (find_branch branch s) [
    | none ↦ (err (branch_not_found branch), s)
    | some b ↦
        let (result, (store, world)) = operation (b.store, s.world) in
        (
          map_err io result,
          record (put_branch branch (record b { store = store }) s) { world = world },
        )
  ]

  -- A host operation, with `?` on its error.
  unfoldable pub on_host : {A : Type 0} → Step Host IoError A → Step (State S W I) CacheError A
  on_host operation s =
      let (result, host) = operation s.host in (map_err io result, record s { host = host })
