-- ===== src/Cache/Dirty/Laws.antt =====
-- Which pages a branch lists as dirty, against the newest mark of each.
use minidox.Prelude.{
  ℕ, ◌≡◌, refl, ◌∙◌, Bool, true, false, ◌&&◌, ◌||◌, none, some, List, [], ◌∷◌, if◌then◌else◌, ◌==◌,
  arith,
}
use minidox.Prelude.Order.{nat_ord, pair_ord, same}
use minidox.Prelude.Map.{
  Map, get, insert, or_insert, or_else, get-insert, get-or_insert, eq_of_same,
}
use minidox.Prelude.Map.Sorted.{
  IsSorted, insert-IsSorted, or_insert-IsSorted, or_insert_all-IsSorted, get-Above,
}
use minidox.Overlay.{first, over, find, find_in, visible, collect}
use minidox.Overlay.Laws.{Layered, get-visible}
use minidox.Cache.Dirty.{
  PageKey, DirtyGeneration, DirtyBranch, node_changes, node_entries, node_collect, dirty_keys,
  pages_for_node, pages,
}

-- Whether the newest mark of a page is `true`.
unfoldable pub is_dirty : PageKey → DirtyBranch → Bool
is_dirty key b = elim (find b key) [ none ↦ false | some dirty ↦ dirty ]

abbrev pub listed : PageKey → List PageKey → Bool
listed key [] = false
listed key (k ∷ keys) = same key k || listed key keys

marked : PageKey → Map PageKey Bool → Bool
marked key m = elim (get key m) [ none ↦ false | some dirty ↦ dirty ]

listed-dirty_keys :
    (m : Map PageKey Bool) (key : PageKey) → IsSorted m → listed key (dirty_keys m) ≡ marked key m
unfolding dirty_keys marked get
listed-dirty_keys [] key s = refl
listed-dirty_keys ((k, dirty) ∷ m) key s = ground (
  arith,
  listed-dirty_keys m key s.1,
  get-Above {V = Bool} k m s.0,
  eq_of_same {K = PageKey} key k,
)

get-node_changes :
    (node : ℕ) (m v : Map PageKey Bool) (key : PageKey)
    → IsSorted m
    → get key (node_changes node m v)
      ≡ (if key.0 == node then or_else (get key m) (get key v) else get key v)
unfolding node_changes get
get-node_changes node [] v key s = ground arith
get-node_changes node ((k, dirty) ∷ m) v key s = ground (
  arith,
  get-node_changes node m (insert k dirty v) key s.1,
  get-node_changes node m v key s.1,
  get-insert {K = PageKey} k key dirty v,
  get-Above {V = Bool} k m s.0,
  eq_of_same {K = PageKey} key k,
)

node_changes-IsSorted :
    (node : ℕ) (m v : Map PageKey Bool) → IsSorted v → IsSorted (node_changes node m v)
unfolding node_changes
node_changes-IsSorted node [] v s = s
node_changes-IsSorted node ((k, dirty) ∷ m) v s =
    node_changes-IsSorted node m (if k.0 == node then insert k dirty v else v)
      (by_node (k.0 == node))
  where
    by_node : (b : Bool) → IsSorted (if b then insert k dirty v else v)
    by_node true = insert-IsSorted k dirty v s
    by_node false = s

get-node_entries :
    (node : ℕ) (m v : Map PageKey Bool) (key : PageKey)
    → get key (node_entries node m v)
      ≡ (if key.0 == node then or_else (get key v) (get key m) else get key v)
unfolding node_entries get
get-node_entries node [] v key = ground arith
get-node_entries node ((k, dirty) ∷ m) v key = ground (
  arith,
  get-node_entries node m (or_insert k dirty v) key,
  get-node_entries node m v key,
  get-or_insert {K = PageKey} k key dirty v,
  eq_of_same {K = PageKey} key k,
)

node_entries-IsSorted :
    (node : ℕ) (m v : Map PageKey Bool) → IsSorted v → IsSorted (node_entries node m v)
unfolding node_entries
node_entries-IsSorted node [] v s = s
node_entries-IsSorted node ((k, dirty) ∷ m) v s =
    node_entries-IsSorted node m (if k.0 == node then or_insert k dirty v else v)
      (by_node (k.0 == node))
  where
    by_node : (b : Bool) → IsSorted (if b then or_insert k dirty v else v)
    by_node true = or_insert-IsSorted k dirty v s
    by_node false = s

get-node_collect :
    (node : ℕ) (g : DirtyGeneration) (v : Map PageKey Bool) (key : PageKey)
    → get key (node_collect node g v)
      ≡ (if key.0 == node then or_else (get key v) (find_in g key) else get key v)
unfolding node_collect find_in
get-node_collect node (first m) v key = get-node_entries node m v key
get-node_collect node (over g m) v key =
    ground
      (arith, get-node_collect node g (node_entries node m v) key, get-node_entries node m v key)

node_collect-IsSorted :
    (node : ℕ) (g : DirtyGeneration) (v : Map PageKey Bool)
    → IsSorted v
    → IsSorted (node_collect node g v)
unfolding node_collect
node_collect-IsSorted node (first m) v s = node_entries-IsSorted node m v s
node_collect-IsSorted node (over g m) v s =
    node_collect-IsSorted node g (node_entries node m v) (node_entries-IsSorted node m v s)

-- For a branch of sorted maps, the list of dirty pages of a node holds exactly the pages of the
-- node whose newest mark is dirty.
pub listed-pages_for_node :
    (node : ℕ) (b : DirtyBranch) (key : PageKey)
    → Layered b
    → listed key (pages_for_node node b) ≡ (key.0 == node && is_dirty key b)
unfolding pages_for_node is_dirty find marked get
listed-pages_for_node node b key s =
    listed-dirty_keys (node_collect node b.base (node_changes node b.writes [])) key (
      node_collect-IsSorted node b.base (node_changes node b.writes [])
        (node_changes-IsSorted node b.writes [] tt))
    ∙ ground (
      arith,
      get-node_collect node b.base (node_changes node b.writes []) key,
      get-node_changes node b.writes [] key s.writes_sorted,
    )

collect-IsSorted :
    (g : DirtyGeneration) (v : Map PageKey Bool) → IsSorted v → IsSorted (collect g v)
unfolding collect
collect-IsSorted (first m) v s = or_insert_all-IsSorted m v s
collect-IsSorted (over g m) v s = collect-IsSorted g _ (or_insert_all-IsSorted m v s)

-- For a branch of sorted maps, the list of dirty pages holds exactly the pages whose newest mark
-- is dirty.
pub listed-pages :
    (b : DirtyBranch) (key : PageKey) → Layered b → listed key (pages b) ≡ is_dirty key b
unfolding pages is_dirty marked visible
listed-pages b key s =
    listed-dirty_keys (collect b.base b.writes) key
      (collect-IsSorted b.base b.writes s.writes_sorted)
    ∙ ground (arith, get-visible b key)
