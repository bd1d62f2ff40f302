-- ===== src/Cache/Forks.antt =====
-- What a fork of a cache branch does.
use minidox.Prelude.{ℕ, [], ◌≡◌, refl, ◌∙◌, some, ok, arith, if◌then◌else◌, ◌==◌}
use minidox.Prelude.Order.{nat_ord, pair_ord}
use minidox.Prelude.Map.{get, get-insert}
use minidox.Prelude.Step.Hoare.{
  Hoare, and_then, pure_lem, guard_lem, modify_lem, gets_lem, lift_lem, weaken, ok_leaves,
}
use minidox.Overlay.Laws.{find-fork_source, find-fork_child}
use minidox.Cache.Dirty
use minidox.Cache.Dirty.{PageKey, DirtyBranch}
use minidox.Cache.Dirty.Laws.{is_dirty}
use minidox.Cache.Store.{ForkableNodeStore}
use minidox.Cache.State.{CacheBranch, State, count_of, find_branch, put_branch}
use minidox.Cache.Branches.{fork, put_child}
use minidox.Cache.Steps.{StoresKeep, branch_mut_lem, with_store_mut_lem}
use minidox.Cache.Active.{active, active_in}
use minidox.Cache.Sync.{dirty, Any}

-- Nothing but the stores differs from `origin`.
record Kept {S W I : Type 0} (origin s : State S W I) : Type 0 where
  marks : (at : ℕ) (key : PageKey) → dirty at key s ≡ dirty at key origin
  counts : (at page : ℕ) → active at page s ≡ active at page origin
  next : s.next_branch ≡ origin.next_branch

-- What a fork leaves, told of the child and the state.
record Forked {S W I : Type 0} (origin : State S W I) (source child : ℕ) (s : State S W I)
    : Type 0 where
  named : child ≡ origin.next_branch
  marks :
      (at : ℕ) (key : PageKey)
      → dirty at key s ≡ (if at == child then dirty source key origin else dirty at key origin)
  counts : (at page : ℕ) → active at page s ≡ (if at == child then 0 else active at page origin)

-- The source has been forked: the child is to have the marks `d`.
record Split {S W I : Type 0} (origin : State S W I) (source : ℕ) (d : DirtyBranch)
    (s : State S W I) : Type 0 where
  kept : Kept origin s
  inherited : (key : PageKey) → is_dirty key d ≡ dirty source key origin

is_dirty-fork :
    (b : DirtyBranch) (key : PageKey)
    → (is_dirty key (Dirty.fork b).0 ≡ is_dirty key b)
      × (is_dirty key (Dirty.fork b).1 ≡ is_dirty key b)
unfolding is_dirty
is_dirty-fork b key = (
  ground (arith, find-fork_source {K = PageKey} b key),
  ground (arith, find-fork_child {K = PageKey} b key),
)

module _ {S W I : Type 0} {origin : State S W I} where
  Kept-put :
      (branch : ℕ) (b c : CacheBranch S) (s : State S W I)
      → find_branch branch s ≡ some b
      → ((key : PageKey) → is_dirty key c.dirty_pages ≡ is_dirty key b.dirty_pages)
      → c.active_pages ≡ b.active_pages
      → Kept origin s
      → Kept origin (put_branch branch c s)
  unfolding dirty active_in
  Kept-put branch b c s e marks same p = record {
    marks = λ at key. ground (arith, get-insert branch at c s.branches, marks key, p.marks at key);
    counts = λ at page. ground (arith, get-insert branch at c s.branches, p.counts at page);
    next = p.next;
  }

  Kept-world :
      (s : State S W I) (world : W) → Kept origin s → Kept origin (record s { world = world })
  unfolding dirty
  Kept-world s world p = record { marks = p.marks; counts = p.counts; next = p.next }

  Kept-StoresKeep : StoresKeep (Kept origin)
  Kept-StoresKeep = record {
    stores = λ s branch b store world e p.
        Kept-world _ world
          (Kept-put branch b (record b { store = store }) s e (λ key. refl) refl p);
  }

  put_source-Split :
      (source : ℕ) (b : CacheBranch S) (s : State S W I)
      → find_branch source s ≡ some b
      → Kept origin s
      → Split origin source (Dirty.fork b.dirty_pages).1 (
          put_branch source
            (record b { dirty_pages = (Dirty.fork b.dirty_pages).0; exclusive_pages = [] })
            s)
  unfolding dirty
  put_source-Split source b s e p = record {
    kept =
        Kept-put source b
          (record b { dirty_pages = (Dirty.fork b.dirty_pages).0; exclusive_pages = [] }) s e
          (λ key. (is_dirty-fork b.dirty_pages key).0) refl p;
    inherited = λ key. (is_dirty-fork b.dirty_pages key).1 ∙ ground (arith, p.marks source key);
  }

  put_child-Forked :
      (source child next : ℕ) (store : S) (d : DirtyBranch) (s : State S W I)
      → child ≡ origin.next_branch
      → Split origin source d s
      → Forked origin source child (put_child child next store d s)
  unfolding dirty active_in count_of get
  put_child-Forked source child next store d s named p =
      let b : CacheBranch S = record {
        store = store;
        open_nodes = [];
        active_pages = [];
        exclusive_pages = [];
        dirty_pages = d;
      } in
      record {
        named = named;
        marks = λ at key.
            ground (arith, get-insert child at b s.branches, p.inherited key, p.kept.marks at key);
        counts = λ at page. ground (arith, get-insert child at b s.branches, p.kept.counts at page);
      }

  fork-Forked :
      (store : ForkableNodeStore S W I) (source : ℕ)
      → Hoare (Kept origin) (fork store source) (Forked origin source) Any
  unfolding fork
  fork-Forked store source =
      and_then (weaken (branch_mut_lem source) (λ b s p. p.0) (λ s p. tt)) λ before.
        and_then (guard_lem _ _ {Q = Kept origin} (λ s _ p. tt) λ s _ p. p) λ _.
          and_then (weaken (with_store_mut_lem source _ Kept-StoresKeep) (λ a s p. p) (λ s p. tt))
            λ child_store. and_then (weaken (branch_mut_lem source) (λ b s p. p) (λ s p. tt)) λ b.
              and_then (modify_lem _ λ s p. put_source-Split source b s p.1 p.0) λ _.
                and_then
                  (gets_lem _
                    {Q = λ child s.
                      (child ≡ origin.next_branch)
                      × Split origin source (Dirty.fork b.dirty_pages).1 s}
                    λ s p. (p.kept.next, p))
                  λ child.
                    and_then
                      (lift_lem _
                        {Q = λ _ s.
                          (child ≡ origin.next_branch)
                          × Split origin source (Dirty.fork b.dirty_pages).1 s}
                        (λ s a _ p. p) λ s p. tt)
                      λ next.
                        and_then
                          (modify_lem _ λ s p.
                            put_child-Forked source child next child_store
                              (Dirty.fork b.dirty_pages).1 s p.0 p.1)
                          λ _. pure_lem _ λ s p. p

module _ {S W I : Type 0} (store : ForkableNodeStore S W I) where
  -- A successful fork answers with the next branch identity; the child has the dirty marks of its
  -- source and no mapping, and every other branch keeps its marks and mappings.
  pub marks-fork :
      (source child : ℕ) (s : State S W I)
      → (fork store source s).0 ≡ ok child
      → (child ≡ s.next_branch)
        × ((at : ℕ) (key : PageKey)
            → dirty at key (fork store source s).1
              ≡ (if at == child then dirty source key s else dirty at key s))
        × ((at page : ℕ)
            → active at page (fork store source s).1
              ≡ (if at == child then 0 else active at page s))
  marks-fork source child s done =
      let f =
        ok_leaves (fork-Forked {origin = s} store source) s child
          (record { marks = λ at key. refl; counts = λ at page. refl; next = refl }) done in
      (f.named, f.marks, f.counts)
