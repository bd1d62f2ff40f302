-- ===== src/Overlay.antt =====
-- Copy-on-write branches over immutable generations: the structure that
-- crates/minidox-fork/src/lib.rs (`PageGeneration`, `PageBranch`) spells out, and that `DirtyBranch`
-- of crates/minidox-cache and `CowDisk` of crates/minidox-redoxfs repeat. A generation behind an
-- `Arc` never changes, so sharing it is having it.
pub mod Laws
use minidox.Prelude.{Bool, Option, none, some, [], if◌then◌else◌}
use minidox.Prelude.Order.{Ord}
use minidox.Prelude.Map.{Map, get, insert, or_insert_all, extend, is_empty, or_else}

-- `parent: None`, and `parent: Some(parent)`.
pub data Generation {ℓ κ} (K : Type ℓ) (V : Type κ) : Type (ℓ ⊔ κ) where
  first : Map K V → Generation K V
  over : Generation K V → Map K V → Generation K V

pub record Branch {ℓ κ} (K : Type ℓ) (V : Type κ) : Type (ℓ ⊔ κ) where
  pub base : Generation K V
  pub writes : Map K V

module _ {ℓ κ} {K : Type ℓ} {V : Type κ} where
  abbrev pub empty : Branch K V
  empty = record { base = first []; writes = [] }

  -- The source branch after the fork, and the child.
  unfoldable pub fork : Branch K V → Branch K V × Branch K V
  fork b =
      let base' = if is_empty b.writes then b.base else over b.base b.writes in
      (record { base = base'; writes = [] }, record { base = base'; writes = [] })

module _ {ℓ κ} {K : Type ℓ} {V : Type κ} ⦃o : Ord K⦄ where
  unfoldable pub find_in : Generation K V → K → Option V
  find_in (first m) k = get k m
  find_in (over parent m) k = or_else (get k m) (find_in parent k)

  unfoldable pub find : Branch K V → K → Option V
  unfolding find_in
  find b k = or_else (get k b.writes) (find_in b.base k)

  unfoldable pub write : K → V → Branch K V → Branch K V
  write k v b = record b { writes = insert k v b.writes }

  -- The walk from a generation up to the first one, by `entry(key).or_insert(value)`.
  unfoldable pub collect : Generation K V → Map K V → Map K V
  collect (first m) visible = or_insert_all m visible
  collect (over parent m) visible = collect parent (or_insert_all m visible)

  -- All that the branch shows, newest first.
  unfoldable pub visible : Branch K V → Map K V
  unfolding collect
  visible b = collect b.base b.writes

  -- The same from the first generation down, by `extend`.
  unfoldable pub layers : Generation K V → Map K V → Map K V
  layers (first m) into = extend m into
  layers (over parent m) into = extend m (layers parent into)

  unfoldable pub visible_layers : Branch K V → Map K V
  unfolding layers
  visible_layers b = extend b.writes (layers b.base [])
