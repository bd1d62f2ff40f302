-- ===== src/Overlay/Laws.antt =====
-- What a branch shows, before and after a fork or a write, and as one map.
use minidox.Prelude.{◌≡◌, refl, ◌∙◌, Option, none, some, [], ◌∷◌, if◌then◌else◌, arith}
use minidox.Prelude.Order.{Ord, same}
use minidox.Prelude.Map.{Map, get, or_insert_all, or_else, get-insert, get-or_insert_all}
use minidox.Prelude.Map.Sorted.{IsSorted, insert-IsSorted, get-extend}
use minidox.Overlay.{
  Generation, first, over, Branch, fork, find_in, find, write, collect, visible, layers,
  visible_layers,
}

or_else_assoc {ℓ} :
    {V : Type ℓ} (a b c : Option V) → or_else (or_else a b) c ≡ or_else a (or_else b c)
or_else_assoc none b c = refl
or_else_assoc (some a) b c = refl

module _ {ℓ κ} {K : Type ℓ} {V : Type κ} ⦃o : Ord K⦄ where
  pub find-fork_source : (b : Branch K V) (k : K) → find (fork b).0 k ≡ find b k
  unfolding find fork get
  find-fork_source b k = by_writes b.writes refl
    where
      by_writes : (m : Map K V) → b.writes ≡ m → find (fork b).0 k ≡ find b k
      by_writes [] e = rw e refl
      by_writes (x ∷ m) e = rw e refl

  -- The child shows what the source shows.
  pub find-fork_child : (b : Branch K V) (k : K) → find (fork b).1 k ≡ find b k
  unfolding fork
  find-fork_child b k = find-fork_source b k

  pub find-write :
      (k j : K) (v : V) (b : Branch K V)
      → find (write k v b) j ≡ (if same j k then some v else find b j)
  unfolding find write
  find-write k j v b = ground (arith, get-insert k j v b.writes)

  get-collect :
      (g : Generation K V) (m : Map K V) (k : K)
      → get k (collect g m) ≡ or_else (get k m) (find_in g k)
  unfolding collect find_in
  get-collect (first n) m k = get-or_insert_all n m k
  get-collect (over g n) m k =
      get-collect g (or_insert_all n m) k
      ∙ rw (get-or_insert_all n m k) (or_else_assoc (get k m) (get k n) (find_in g k))

  pub get-visible : (b : Branch K V) (k : K) → get k (visible b) ≡ find b k
  unfolding visible find
  get-visible b k = get-collect b.base b.writes k

  -- Every layer is a sorted map.
  abbrev pub LayeredIn : Generation K V → Type 0
  LayeredIn (first m) = IsSorted m
  LayeredIn (over g m) = LayeredIn g × IsSorted m

  pub record Layered (b : Branch K V) : Type 0 where
    pub base_sorted : LayeredIn b.base
    pub writes_sorted : IsSorted b.writes

  get-layers : (g : Generation K V) (k : K) → LayeredIn g → get k (layers g []) ≡ find_in g k
  unfolding layers find_in get
  get-layers (first n) k s = get-extend n [] k s ∙ ground arith
  get-layers (over g n) k s = get-extend n (layers g []) k s.1 ∙ rw (get-layers g k s.0) refl

  pub get-visible_layers :
      (b : Branch K V) (k : K) → Layered b → get k (visible_layers b) ≡ find b k
  unfolding visible_layers find
  get-visible_layers b k s =
      get-extend b.writes (layers b.base []) k s.writes_sorted
      ∙ rw (get-layers b.base k s.base_sorted) refl

  pub fork-Layered : (b : Branch K V) → Layered b → Layered (fork b).0
  unfolding fork
  fork-Layered b s = by_writes b.writes refl
    where
      by_writes : (m : Map K V) → b.writes ≡ m → Layered (fork b).0
      by_writes [] e = rw (e, fork) (record { base_sorted = s.base_sorted; writes_sorted = tt })
      by_writes (x ∷ m) e =
          rw (e, fork)
            (record { base_sorted = (s.base_sorted, rw e at s.writes_sorted); writes_sorted = tt })

  pub write-Layered : (k : K) (v : V) (b : Branch K V) → Layered b → Layered (write k v b)
  unfolding write
  write-Layered k v b s = record {
    base_sorted = s.base_sorted;
    writes_sorted = insert-IsSorted k v b.writes s.writes_sorted;
  }
