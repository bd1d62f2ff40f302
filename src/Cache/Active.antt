-- ===== src/Cache/Active.antt =====
-- The counts of active mappings: what the steps of `map_page` and `unmap` do to them.
use minidox.Prelude.{
  ℕ, ◌+◌, ◌≡◌, refl, ◌∙◌, ap, Bool, ◌&&◌, Option, none, some, [], ◌∷◌, if◌then◌else◌, ◌==◌, arith,
  Option-cases, inl, inr,
}
use minidox.Prelude.Order.{Ord, nat_ord, pair_ord}
use minidox.Prelude.Map
use minidox.Prelude.Map.{Map, get, get-insert, get-remove, contains_key}
use minidox.Prelude.Step.{pure}
use minidox.Prelude.Step.Hoare.{Hoare, and_then, pure_lem, modify_lem, gets_lem}
use minidox.Cache.Dirty.{PageKey}
use minidox.Cache.Store.{ForkableNodeStore}
use minidox.Cache.State.{CacheBranch, State, count_of, find_branch}
use minidox.Cache.Mapping.{
  DaxPageMapping, next_count, activate, deactivate, update_branch, fault_page, load_page, any_has,
  copy_page, own, drop_old,
}
use minidox.Cache.Steps.{StoresKeep, HostKeeps, with_store_mut_lem, on_host_lem}

-- How many mappings of a page a branch has, 0 where there is no such branch.
unfoldable pub active_in : {S : Type 0} → (branch page : ℕ) → Map ℕ (CacheBranch S) → ℕ
active_in branch page m = elim (get branch m) [ none ↦ 0 | some b ↦ count_of page b.active_pages ]

abbrev pub active : {S W I : Type 0} → (branch page : ℕ) → State S W I → ℕ
active branch page s = active_in branch page s.branches

-- The counts of `s` are those of `origin`.
pub record Same {S W I : Type 0} (origin s : State S W I) : Type 0 where
  pub counts : (branch page : ℕ) → active branch page s ≡ active branch page origin
  pub kept : (branch : ℕ) → contains_key branch s.branches ≡ contains_key branch origin.branches
  pub same_cache : s.id ≡ origin.id

-- A count that is raised or not.
abbrev pub raised : Bool → ℕ → ℕ
raised once count = if once then next_count count else count

-- The counts of `s` are those of `origin`, and one more for one page of one branch.
pub record OneMore {S W I : Type 0} (origin : State S W I) (at page : ℕ) (s : State S W I)
    : Type 0 where
  pub counts :
      (branch p : ℕ)
      → active branch p s ≡ raised (branch == at && p == page) (active branch p origin)
  pub kept : (branch : ℕ) → contains_key branch s.branches ≡ contains_key branch origin.branches
  pub same_cache : s.id ≡ origin.id

module _ {S : Type 0} where
  active_in-put :
      (branch : ℕ) (b c : CacheBranch S) (m : Map ℕ (CacheBranch S))
      → get branch m ≡ some b
      → ((page : ℕ) → count_of page c.active_pages ≡ count_of page b.active_pages)
      → (at page : ℕ) → active_in at page (Map.insert branch c m) ≡ active_in at page m
  unfolding active_in
  active_in-put branch b c m e h at page = ground (arith, get-insert branch at c m, h page)

  pub contains_key-put :
      (branch : ℕ) (b c : CacheBranch S) (m : Map ℕ (CacheBranch S))
      → get branch m ≡ some b
      → (at : ℕ) → contains_key at (Map.insert branch c m) ≡ contains_key at m
  contains_key-put branch b c m e at = ground (arith, get-insert branch at c m)

  pub active_in-activate :
      (branch page : ℕ) (b : CacheBranch S) (m : Map ℕ (CacheBranch S))
      → get branch m ≡ some b
      → (at p : ℕ)
      → active_in at p (Map.insert branch (activate page b) m)
        ≡ raised (at == branch && p == page) (active_in at p m)
  unfolding active_in count_of
  active_in-activate branch page b m e at p = ground (
    arith,
    get-insert branch at (activate page b) m,
    get-insert page p (next_count (count_of page b.active_pages)) b.active_pages,
  )

  pub active_in-deactivate :
      (mapping : DaxPageMapping) (branch count : ℕ) (b : CacheBranch S) (m : Map ℕ (CacheBranch S))
      → get branch m ≡ some b
      → get mapping.page b.active_pages ≡ some (count + 1)
      → (at p : ℕ)
      → active_in at p (Map.insert branch (deactivate mapping count b) m)
          + (if at == branch && p == mapping.page then 1 else 0)
        ≡ active_in at p m
  unfolding active_in count_of
  active_in-deactivate mapping branch count b m e c at p = ground (
    arith,
    get-insert branch at (deactivate mapping count b) m,
    get-insert mapping.page p count b.active_pages,
    get-remove mapping.page p b.active_pages,
  )

module _ {S W I : Type 0} {origin : State S W I} where
  pub Same-StoresKeep : StoresKeep (Same origin)
  Same-StoresKeep = record {
    stores = λ s branch b store world e p. record {
      counts = λ at page.
          active_in-put branch b (record b { store = store }) s.branches e (λ _. refl) at page
          ∙ p.counts at page;
      kept =
          λ at. contains_key-put branch b (record b { store = store }) s.branches e at ∙ p.kept at;
      same_cache = p.same_cache;
    };
  }

  pub Same-HostKeeps : HostKeeps (Same origin)
  Same-HostKeeps = record {
    hosts = λ s host p. record { counts = p.counts; kept = p.kept; same_cache = p.same_cache };
  }

  -- A change of a branch that leaves its counts.
  pub update_branch-Same :
      (branch : ℕ) (f : CacheBranch S → CacheBranch S) (s : State S W I)
      → ((b : CacheBranch S) (page : ℕ)
          → count_of page (f b).active_pages ≡ count_of page b.active_pages)
      → Same origin s
      → Same origin (update_branch branch f s)
  unfolding update_branch
  update_branch-Same branch f s h p = elim (Option-cases (find_branch branch s)) [
    | inl e ↦ rw (update_branch, e) p
    | inr (b, e) ↦
        rw (update_branch, e)
          (record {
            counts = λ at page.
                active_in-put branch b (f b) s.branches e (h b) at page ∙ p.counts at page;
            kept = λ at. contains_key-put branch b (f b) s.branches e at ∙ p.kept at;
            same_cache = p.same_cache;
          })
  ]

  pub update_branch-OneMore :
      (branch page : ℕ) (b : CacheBranch S) (s : State S W I)
      → find_branch branch s ≡ some b
      → Same origin s
      → OneMore origin branch page (update_branch branch (activate page) s)
  unfolding update_branch
  update_branch-OneMore branch page b s e p =
      rw (update_branch, e)
        (record {
          counts = λ at q.
              active_in-activate branch page b s.branches e at q
              ∙ ap (raised (at == branch && q == page)) (p.counts at q);
          kept = λ at. contains_key-put branch b (activate page b) s.branches e at ∙ p.kept at;
          same_cache = p.same_cache;
        })

module _ {S W I : Type 0} ⦃o : Ord I⦄ (store : ForkableNodeStore S W I) where
  active_in-any_has :
      (identity : I) (key : PageKey) (m : Map ℕ (CacheBranch S)) (world : W) (at page : ℕ)
      → active_in at page (any_has store identity key m world).1 ≡ active_in at page m
  unfolding any_has active_in get
  active_in-any_has identity key [] world at page = refl
  active_in-any_has identity key ((id, b) ∷ m) world at page =
      let r = store.page_identity key.0 key.1 (b.store, world) in
      ground (arith, active_in-any_has identity key m r.1.1 at page)

  contains_key-any_has :
      (identity : I) (key : PageKey) (m : Map ℕ (CacheBranch S)) (world : W) (at : ℕ)
      → contains_key at (any_has store identity key m world).1 ≡ contains_key at m
  unfolding any_has get
  contains_key-any_has identity key [] world at = refl
  contains_key-any_has identity key ((id, b) ∷ m) world at =
      let r = store.page_identity key.0 key.1 (b.store, world) in
      ground (arith, contains_key-any_has identity key m r.1.1 at)

  pub drop_old-Same :
      {origin : State S W I} (identity : I) (key : PageKey) (s : State S W I)
      → Same origin s
      → Same origin (drop_old store identity key s)
  drop_old-Same identity key s p = record {
    counts =
        λ at page. active_in-any_has identity key s.branches s.world at page ∙ p.counts at page;
    kept = λ at. contains_key-any_has identity key s.branches s.world at ∙ p.kept at;
    same_cache = p.same_cache;
  }

  pub copy_page-Same :
      {origin : State S W I} (branch : ℕ) (key : PageKey) (identity : I) (page : ℕ)
      → Hoare
          (Same origin)
          (copy_page store branch key identity page)
          (λ _. Same origin)
          (Same origin)
  unfolding copy_page
  copy_page-Same branch key identity page = and_then (on_host_lem _ Same-HostKeeps) λ new_page.
      and_then (with_store_mut_lem branch _ Same-StoresKeep) λ new_identity.
        and_then
          (modify_lem _
            λ s p. record { counts = p.counts; kept = p.kept; same_cache = p.same_cache })
          λ _. and_then (modify_lem _ λ s p. drop_old-Same identity key s p) λ _.
            and_then
              (modify_lem _ λ s p. update_branch-Same branch (own store key) s (λ b page. refl) p)
              λ _. pure_lem _ λ s p. p

  pub load_page-Same :
      {origin : State S W I} (branch : ℕ) (identity : I) (key : PageKey)
      → Hoare (Same origin) (load_page store branch identity key) (λ _. Same origin) (Same origin)
  unfolding load_page fault_page
  load_page-Same {origin} branch identity key =
      and_then (gets_lem _ {Q = λ _. Same origin} λ s p. p) by_cached
    where
      by_cached :
          (cached : Option ℕ)
          → Hoare
              (Same origin)
              (elim cached [ none ↦ fault_page store branch identity key | some page ↦ pure page ])
              (λ _. Same origin)
              (Same origin)
      by_cached (some page) = pure_lem _ λ s p. p
      by_cached none = and_then (with_store_mut_lem branch _ Same-StoresKeep) λ bytes.
          and_then (on_host_lem _ Same-HostKeeps) λ page.
            and_then
              (modify_lem _
                λ s p. record { counts = p.counts; kept = p.kept; same_cache = p.same_cache })
              λ _. pure_lem _ λ s p. p
