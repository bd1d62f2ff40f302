-- ===== src/Cache/Sync.antt =====
-- What a sync does to the dirty marks.
use minidox.Prelude.{
  ℕ, ◌≡◌, refl, ◌∙◌, Bool, false, not, ◌&&◌, ◌||◌, none, some, List, [], ◌∷◌, Result, ok, err, ◌==◌,
  leb, arith, Option-cases, inl, inr,
}
use minidox.Prelude.Order.{Ord, nat_ord, pair_ord, same}
use minidox.Prelude.Map.{get-insert}
use minidox.Prelude.Step.{◌>>=◌}
use minidox.Prelude.Step.Hoare.{
  Hoare, Post, and_then, pure_lem, guard_lem, modify_lem, gets_lem, lift_lem, weaken, ite_lem,
  ok_leaves,
}
use minidox.Overlay.Laws.{Layered, find-write}
use minidox.Cache.{CacheError}
use minidox.Cache.Dirty
use minidox.Cache.Dirty.{PageKey, DirtyBranch}
use minidox.Cache.Dirty.Laws.{is_dirty, listed, listed-pages, listed-pages_for_node}
use minidox.Cache.Store.{ForkableNodeStore}
use minidox.Cache.State.{branch_mut, CacheBranch, State, find_branch}
use minidox.Cache.Mapping.{update_branch}
use minidox.Cache.Access.{clean, write_back, sync_page, sync_loop, sync_pages, sync, sync_all}
use minidox.Cache.Steps.{
  StoresKeep, HostKeeps, with_store, branch_mut_lem, with_store_mut_lem, on_host_lem,
}

-- Whether a page of a branch waits for a sync.
unfoldable pub dirty : {S W I : Type 0} → (branch : ℕ) → PageKey → State S W I → Bool
dirty branch key s = elim (find_branch branch s) [
  | none ↦ false
  | some b ↦ is_dirty key b.dirty_pages
]

-- The marks of `s` are those of `origin`, with the pages of `done` clean in one branch.
pub record Cleaned {S W I : Type 0} (origin : State S W I) (branch : ℕ) (done : List PageKey)
    (s : State S W I) : Type 0 where
  pub marks :
      (at : ℕ) (key : PageKey)
      → dirty at key s ≡ (dirty at key origin && not (at == branch && listed key done))

-- Errors may leave anything.
abbrev pub Any : {S W I : Type 0} → State S W I → Type 0
Any s = Unit {0}

is_dirty-mark_clean :
    (k key : PageKey) (b : DirtyBranch)
    → is_dirty key (Dirty.mark_clean k b) ≡ (is_dirty key b && not (same key k))
unfolding is_dirty
is_dirty-mark_clean k key b = ground (arith, find-write {K = PageKey} k key false b)

-- The pages of a list, one after the other, put before those already done.
abbrev append_reversed : List PageKey → List PageKey → List PageKey
append_reversed [] done = done
append_reversed (k ∷ keys) done = append_reversed keys (k ∷ done)

listed-append_reversed :
    (keys done : List PageKey) (key : PageKey)
    → listed key (append_reversed keys done) ≡ (listed key keys || listed key done)
listed-append_reversed [] done key = refl
listed-append_reversed (k ∷ keys) done key =
    ground (arith, listed-append_reversed keys (k ∷ done) key)

module _ {S W I : Type 0} where
  dirty-clean :
      (branch : ℕ) (k : PageKey) (s : State S W I) (at : ℕ) (key : PageKey)
      → dirty at key (update_branch branch (clean k) s)
        ≡ (dirty at key s && not (at == branch && same key k))
  unfolding dirty update_branch
  dirty-clean branch k s at key = elim (Option-cases (find_branch branch s)) [
    | inl e ↦ rw (update_branch, e) (ground arith)
    | inr (b, e) ↦
        rw (update_branch, e)
          (ground (
            arith,
            get-insert branch at (clean k b) s.branches,
            is_dirty-mark_clean k key b.dirty_pages,
          ))
  ]

  dirty-store :
      (branch : ℕ) (b : CacheBranch S) (store : S) (world : W) (s : State S W I)
      → find_branch branch s ≡ some b
      → (at : ℕ) (key : PageKey) → dirty at key (with_store branch b store world s) ≡ dirty at key s
  unfolding dirty
  dirty-store branch b store world s e at key =
      ground (arith, get-insert branch at (record b { store = store }) s.branches)

module _ {S W I : Type 0} ⦃o : Ord I⦄ (store : ForkableNodeStore S W I) {origin : State S W I}
    (branch : ℕ) where
  Cleaned-StoresKeep : {done : List PageKey} → StoresKeep (Cleaned origin branch done)
  Cleaned-StoresKeep = record {
    stores = λ s at b store world e p. record {
      marks = λ other key. dirty-store at b store world s e other key ∙ p.marks other key;
    };
  }

  Cleaned-HostKeeps : {done : List PageKey} → HostKeeps (Cleaned origin branch done)
  unfolding dirty
  Cleaned-HostKeeps = record { hosts = λ s host p. record { marks = p.marks } }

  clean-Cleaned :
      (done : List PageKey) (k : PageKey) (s : State S W I)
      → Cleaned origin branch done s
      → Cleaned origin branch (k ∷ done) (update_branch branch (clean k) s)
  clean-Cleaned done k s p = record {
    marks = λ at key. ground (arith, dirty-clean branch k s at key, p.marks at key);
  }

  write_back-Cleaned :
      (done : List PageKey) (k : PageKey) (file_len : ℕ)
      → Hoare
          (Cleaned origin branch done)
          (write_back store branch k file_len)
          (λ _. Cleaned origin branch (k ∷ done))
          (Cleaned origin branch done)
  unfolding write_back
  write_back-Cleaned done k file_len =
      and_then (with_store_mut_lem branch _ Cleaned-StoresKeep) λ identity.
        and_then (gets_lem _ {Q = λ _. Cleaned origin branch done} λ s p. p) λ cached.
          and_then (lift_lem _ {Q = λ _. Cleaned origin branch done} (λ s a e p. p) λ s p. p)
            λ page. and_then (on_host_lem _ Cleaned-HostKeeps) λ bytes.
              and_then (with_store_mut_lem branch _ Cleaned-StoresKeep) λ written.
                and_then (guard_lem _ _ {Q = Cleaned origin branch done} (λ s _ p. p) λ s _ p. p)
                  λ _. modify_lem _ (λ s p. clean-Cleaned done k s p)

  sync_page-Cleaned :
      (done : List PageKey) (k : PageKey)
      → Hoare
          (Cleaned origin branch done)
          (sync_page store branch k)
          (λ _. Cleaned origin branch (k ∷ done))
          (Cleaned origin branch done)
  unfolding sync_page
  sync_page-Cleaned done k = and_then (with_store_mut_lem branch _ Cleaned-StoresKeep) λ file_len.
      ite_lem (leb file_len k.1) (modify_lem _ λ s p. clean-Cleaned done k s p)
        (write_back-Cleaned done k file_len)

  sync_loop-Cleaned :
      (keys done : List PageKey)
      → Hoare
          (Cleaned origin branch done)
          (sync_loop store branch keys)
          (λ _. Cleaned origin branch (append_reversed keys done))
          Any
  unfolding sync_loop
  sync_loop-Cleaned [] done = pure_lem _ λ s p. p
  sync_loop-Cleaned (k ∷ keys) done =
      and_then (weaken (sync_page-Cleaned done k) (λ a s p. p) (λ s p. tt))
        λ _. sync_loop-Cleaned keys (k ∷ done)

  sync_pages-Cleaned :
      (keys : List PageKey)
      → Hoare
          (λ t. t ≡ origin)
          (sync_pages store branch keys)
          (λ _. Cleaned origin branch (append_reversed keys []))
          Any
  unfolding sync_pages
  sync_pages-Cleaned keys =
      and_then
        (weaken (branch_mut_lem branch)
          (λ b t p. record { marks = λ at key. rw p.0 (ground arith) }) (λ t p. tt))
        λ b. sync_loop-Cleaned keys []

-- The state after a sync of listed pages of the branch that was found.
SyncedBy :
    {S W I : Type 0} → (CacheBranch S → List PageKey) → ℕ → State S W I → State S W I → Type 0
SyncedBy {S} pages branch s t =
    (b : CacheBranch S) × (find_branch branch s ≡ some b)
    × Cleaned s branch (append_reversed (pages b) []) t

module _ {S W I : Type 0} ⦃o : Ord I⦄ (store : ForkableNodeStore S W I) (s : State S W I)
    (branch : ℕ) where
  synced :
      (pages : CacheBranch S → List PageKey)
      → Hoare
          (λ t. t ≡ s)
          (branch_mut branch >>= (λ b. sync_pages store branch (pages b)))
          (λ _. SyncedBy pages branch s)
          Any
  unfolding SyncedBy
  synced pages = and_then (weaken (branch_mut_lem branch) (λ b t p. p) (λ t p. tt)) λ b. record {
    run = λ t p.
        by_result b (rw p.0 at p.1) (sync_pages store branch (pages b) t)
          ((sync_pages-Cleaned store branch (pages b)).run t p.0);
  }
    where
      by_result :
          (b : CacheBranch S)
          → find_branch branch s ≡ some b
          → (r : Result CacheError (Unit {0}) × State S W I)
          → Post (λ _. Cleaned s branch (append_reversed (pages b) [])) Any r
          → Post (λ _. SyncedBy pages branch s) Any r
      by_result b e (ok u, t) q = (b, e, q)
      by_result b e (err x, t) q = tt

  -- A successful sync of a node, of a branch whose dirty marks lie in sorted maps, cleans the
  -- pages of the node in the branch and leaves every other mark of every branch.
  pub dirty-sync :
      (node : ℕ)
      → ((b : CacheBranch S) → find_branch branch s ≡ some b → Layered b.dirty_pages)
      → (sync store branch node s).0 ≡ ok tt
      → (at : ℕ) (key : PageKey)
      → dirty at key (sync store branch node s).1
        ≡ (dirty at key s && not (at == branch && key.0 == node))
  unfolding sync SyncedBy dirty
  dirty-sync node sorted done at key =
      let (b, e, q) =
        ok_leaves (synced (λ b. Dirty.pages_for_node node b.dirty_pages)) s tt refl done in
      ground (
        arith,
        q.marks at key,
        listed-append_reversed (Dirty.pages_for_node node b.dirty_pages) [] key,
        listed-pages_for_node node b.dirty_pages key (sorted b e),
      )

  -- A successful sync of a whole branch, whose dirty marks lie in sorted maps, leaves no page of
  -- it dirty and every mark of every other branch.
  pub dirty-sync_all :
      ((b : CacheBranch S) → find_branch branch s ≡ some b → Layered b.dirty_pages)
      → (sync_all store branch s).0 ≡ ok tt
      → (at : ℕ) (key : PageKey)
      → dirty at key (sync_all store branch s).1 ≡ (dirty at key s && not (at == branch))
  unfolding sync_all SyncedBy dirty
  dirty-sync_all sorted done at key =
      let (b, e, q) = ok_leaves (synced (λ b. Dirty.pages b.dirty_pages)) s tt refl done in
      ground (
        arith,
        q.marks at key,
        listed-append_reversed (Dirty.pages b.dirty_pages) [] key,
        listed-pages b.dirty_pages key (sorted b e),
      )
