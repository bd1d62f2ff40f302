-- ===== src/Cache/Dirty.antt =====
-- crates/minidox-cache/src/branching.rs: `DirtyGeneration` and `DirtyBranch`, the pages of each
-- branch that wait for a sync.
pub mod Laws
use minidox.Prelude.{ℕ, Bool, true, false, List, [], ◌∷◌, if◌then◌else◌, ◌==◌}
use minidox.Prelude.Order.{nat_ord, pair_ord}
use minidox.Prelude.Map.{Map, insert, or_insert}
use minidox.Overlay
use minidox.Overlay.{Generation, first, over, Branch}

-- (node, offset)
abbrev pub PageKey : Type 0
PageKey = ℕ × ℕ

abbrev pub DirtyGeneration : Type 0
DirtyGeneration = Generation PageKey Bool

abbrev pub DirtyBranch : Type 0
DirtyBranch = Branch PageKey Bool

abbrev pub new : DirtyBranch
new = Overlay.empty

abbrev pub fork : DirtyBranch → DirtyBranch × DirtyBranch
fork b = Overlay.fork b

abbrev pub mark_dirty : PageKey → DirtyBranch → DirtyBranch
mark_dirty key b = Overlay.write key true b

abbrev pub mark_clean : PageKey → DirtyBranch → DirtyBranch
mark_clean key b = Overlay.write key false b

-- `visible.insert(key, dirty)` for the changes of one node.
unfoldable pub node_changes : ℕ → Map PageKey Bool → Map PageKey Bool → Map PageKey Bool
node_changes node [] visible = visible
node_changes node ((key, dirty) ∷ changes) visible =
    node_changes node changes (if key.0 == node then insert key dirty visible else visible)

-- `visible.entry(key).or_insert(dirty)` for the changes of one node.
unfoldable pub node_entries : ℕ → Map PageKey Bool → Map PageKey Bool → Map PageKey Bool
node_entries node [] visible = visible
node_entries node ((key, dirty) ∷ changes) visible =
    node_entries node changes (if key.0 == node then or_insert key dirty visible else visible)

unfoldable pub node_collect : ℕ → DirtyGeneration → Map PageKey Bool → Map PageKey Bool
unfolding node_entries
node_collect node (first changes) visible = node_entries node changes visible
node_collect node (over parent changes) visible =
    node_collect node parent (node_entries node changes visible)

-- `filter_map(|(key, dirty)| dirty.then_some(key))`
unfoldable pub dirty_keys : Map PageKey Bool → List PageKey
dirty_keys [] = []
dirty_keys ((key, dirty) ∷ visible) = if dirty then key ∷ dirty_keys visible else dirty_keys visible

unfoldable pub pages_for_node : ℕ → DirtyBranch → List PageKey
unfolding node_changes node_collect dirty_keys
pages_for_node node b = dirty_keys (node_collect node b.base (node_changes node b.writes []))

unfoldable pub pages : DirtyBranch → List PageKey
unfolding dirty_keys
pages b = dirty_keys (Overlay.visible b)
