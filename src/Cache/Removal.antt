-- ===== src/Cache/Removal.antt =====
-- What the removal of a cache branch does to the others.
use minidox.Prelude.{
  ℕ, Bool, List, [], ◌∷◌, ◌≡◌, refl, ◌∙◌, true, false, some, none, ok, err, arith, if◌then◌else◌,
  ◌==◌,
}
use minidox.Prelude.Order.{Ord, nat_ord, pair_ord}
use minidox.Prelude.Map
use minidox.Prelude.Map.{Map, Set, get, get-remove, is_empty, keys}
use minidox.Prelude.Step.{◌>>=◌, guard, modify}
use minidox.Cache.Dirty.{PageKey}
use minidox.Cache.Dirty.Laws.{is_dirty}
use minidox.Cache.Store.{ForkableNodeStore}
use minidox.Cache.State.{CacheBranch, State, find_branch, branch_mut}
use minidox.Cache.Branches.{probe_branches, probe_pages, remove_branch}
use minidox.Cache.Active.{active, active_in}
use minidox.Cache.Sync.{dirty}

-- The dirty mark of a page of a branch.
marked_in : {S : Type 0} → (branch : ℕ) → PageKey → Map ℕ (CacheBranch S) → Bool
marked_in branch key m = elim (get branch m) [ none ↦ false | some b ↦ is_dirty key b.dirty_pages ]

-- The branches differ in their stores alone.
record Alike {S : Type 0} (origin m : Map ℕ (CacheBranch S)) : Type 0 where
  marks : (at : ℕ) (key : PageKey) → marked_in at key m ≡ marked_in at key origin
  counts : (at page : ℕ) → active_in at page m ≡ active_in at page origin

module _ {S W I : Type 0} ⦃o : Ord I⦄ (store : ForkableNodeStore S W I) where
  probe_branches-Alike :
      (key : PageKey) (m : Map ℕ (CacheBranch S)) (world : W) (visible : Set I)
      → Alike m (probe_branches store key m world visible).0
  unfolding probe_branches marked_in active_in get
  probe_branches-Alike key [] world visible = record {
    marks = λ at k. refl;
    counts = λ at page. refl;
  }
  probe_branches-Alike key ((id, b) ∷ m) world visible =
      let seen = store.page_identity key.0 key.1 (b.store, world) in
      let more : Set I = elim seen.0 [
        | ok identity ↦ Map.insert identity tt visible
        | err _ ↦ visible
      ] in
      let rest = probe_branches-Alike key m seen.1.1 more in
      record {
        marks = λ at k. ground (arith, rest.marks at k);
        counts = λ at page. ground (arith, rest.counts at page);
      }

  probe_pages-Alike :
      (known : List PageKey) (m : Map ℕ (CacheBranch S)) (world : W) (visible : Set I)
      → Alike m (probe_pages store known m world visible).0
  unfolding probe_pages
  probe_pages-Alike [] m world visible = record { marks = λ at k. refl; counts = λ at page. refl }
  probe_pages-Alike (key ∷ known) m world visible =
      let first = probe_branches store key m world visible in
      let one = probe_branches-Alike key m world visible in
      let rest = probe_pages-Alike known first.0 first.1 first.2 in
      record {
        marks = λ at k. rest.marks at k ∙ one.marks at k;
        counts = λ at page. rest.counts at page ∙ one.counts at page;
      }

  -- The removal of a branch without active mappings succeeds, and leaves it no dirty mark and no
  -- mapping, and every other branch its dirty marks and its counts of mappings, whatever the
  -- stores answer.
  pub marks-remove_branch :
      (branch : ℕ) (b : CacheBranch S) (s : State S W I)
      → find_branch branch s ≡ some b
      → is_empty b.active_pages ≡ true
      → ((remove_branch store branch s).0 ≡ ok tt)
        × ((at : ℕ) (key : PageKey)
            → dirty at key (remove_branch store branch s).1
              ≡ (if at == branch then false else dirty at key s))
        × ((at page : ℕ)
            → active at page (remove_branch store branch s).1
              ≡ (if at == branch then 0 else active at page s))
  unfolding remove_branch ◌>>=◌ guard modify branch_mut dirty active_in marked_in
  marks-remove_branch branch b s found idle =
      let m = Map.remove branch s.branches in
      let kept = probe_pages-Alike (keys s.known_pages) m s.world [] in
      (
        rw (found, idle, guard) refl,
        λ at key.
            rw (found, idle, guard)
              (kept.marks at key ∙ ground (arith, get-remove branch at s.branches)),
        λ at page.
            rw (found, idle, guard)
              (kept.counts at page ∙ ground (arith, get-remove branch at s.branches)),
      )
