-- ===== src/Vmm/Dax/Mapping.antt =====
-- crates/minidox-vmm/src/virtiofs.rs: `remove_offset`, `activate_offsets`, `suspend_mappings` and
-- `resume_mappings`.
use minidox.Prelude.{
  ℕ, ◌+◌, ◌%◌, Bool, true, false, none, some, List, [], ◌∷◌, Result, ok, err, if◌then◌else◌, ltb,
  leb, u64_mod,
}
use minidox.Prelude.Order.{Ord, nat_ord}
use minidox.Prelude.Map
use minidox.Prelude.Map.{Map, contains_key, keys}
use minidox.Prelude.Step.{Step, pure, fail, gets, modify, guard, attempt, ◌>>=◌, ◌>>◌}
use minidox.Cache.{MapFlags, page_size}
use minidox.Cache.Store.{ForkableNodeStore}
use minidox.Cache.State.{with_store_mut}
use minidox.Cache.Mapping.{DaxPageMapping, map_page, unmap}
use minidox.Vmm.{Error, io, panicked}
use minidox.Vmm.Dax.{
  MappingSpec, VirtioFs, Machine, enoent, einval, mmap, on_cache, put_fs, the_window,
}

abbrev pub deactivate : ℕ → VirtioFs → VirtioFs
deactivate offset fs = record fs { active = Map.remove offset fs.active }

abbrev pub set_active : ℕ → DaxPageMapping → VirtioFs → VirtioFs
set_active offset mapping fs = record fs { active = Map.insert offset mapping fs.active }

abbrev pub drop_spec : ℕ → VirtioFs → VirtioFs
drop_spec offset fs = record fs { specs = Map.remove offset fs.specs }

-- `MapFlags::READ | MapFlags::WRITE` or `MapFlags::READ`
abbrev pub flags_of : MappingSpec → MapFlags
flags_of spec = record { read = true; write = spec.writable }

module _ {S W I : Type 0} where
  -- `state.cache.unmap(state.branch, mapping).map_err(cache_io_error)?`
  unfoldable pub release_mapping : DaxPageMapping → Step (Machine S W I) Error (Unit {0})
  release_mapping mapping = gets (λ m. m.fs.branch) >>= (λ branch. on_cache (unmap branch mapping))

  -- The branch of `remove_offset` for an active mapping.
  unfoldable pub remove_active : ℕ → DaxPageMapping → Step (Machine S W I) Error (Unit {0})
  remove_active offset mapping = do
    modify (put_fs (deactivate offset))
    the_window
    mapped ← attempt (mmap (Map.remove offset))
    elim mapped [
      | err error ↦ modify (put_fs (set_active offset mapping)) >> fail (io error)
      | ok _ ↦ release_mapping mapping
    ]

  unfoldable pub remove_offset : ℕ → (remove_spec : Bool) → Step (Machine S W I) Error (Unit {0})
  unfolding remove_active
  remove_offset offset remove_spec = do
    active ← gets (λ m. Map.get offset m.fs.active)
    known ← gets (λ m. contains_key offset m.fs.specs)
    elim active [
      | some mapping ↦ remove_active offset mapping
      | none ↦ if known then pure tt else fail (io enoent)
    ]
    (if remove_spec then modify (put_fs (drop_spec offset)) else pure tt)

  -- The loops of `suspend_mappings` and `remove_mapping`: `?` stops at the first error.
  unfoldable pub remove_offsets :
      List ℕ → (remove_spec : Bool) → Step (Machine S W I) Error (Unit {0})
  unfolding remove_offset
  remove_offsets [] remove_spec = pure tt
  remove_offsets (offset ∷ offsets) remove_spec =
      remove_offset offset remove_spec >> remove_offsets offsets remove_spec

  unfoldable pub suspend_mappings : Step (Machine S W I) Error (Unit {0})
  unfolding remove_offsets
  suspend_mappings = gets (λ m. keys m.fs.active) >>= (λ offsets. remove_offsets offsets false)

  -- `let _ = remove_offset(..)` over the activated offsets, the newest first.
  unfoldable pub roll_back : List ℕ → Machine S W I → Machine S W I
  unfolding remove_offset
  roll_back [] m = m
  roll_back (offset ∷ offsets) m = roll_back offsets (remove_offset offset false m).1

module _ {S W I : Type 0} ⦃o : Ord I⦄ (store : ForkableNodeStore S W I) where
  -- The page is mapped in the cache: it goes into the window, or back to the cache.
  unfoldable pub show_mapping : ℕ → DaxPageMapping → Step (Machine S W I) Error Bool
  show_mapping offset mapping = do
    mapped ← attempt (mmap (Map.insert offset mapping.page))
    elim mapped [
      | err error ↦ release_mapping mapping >> fail (io error)
      | ok _ ↦ modify (put_fs (set_active offset mapping)) >> pure true
    ]

  -- The closure of `activate_offsets`.
  unfoldable pub activate_offset :
      (window_len offset : ℕ) → MappingSpec → Step (Machine S W I) Error Bool
  unfolding show_mapping
  activate_offset window_len offset spec = do
    guard (ltb window_len ((offset + page_size) % u64_mod)) (io einval)
    branch ← gets (λ m. m.fs.branch)
    len ← on_cache (with_store_mut branch (store.len spec.inode))
    (if leb len spec.file_offset then pure false else do
      mapping ← on_cache (map_page store branch spec.inode spec.file_offset (flags_of spec))
      show_mapping offset mapping)

  -- What the loop does with the result of the closure.
  unfoldable pub after_offset :
      (rest : List ℕ → Step (Machine S W I) Error (Unit {0}))
      → ℕ
      → List ℕ
      → Result Error Bool × Machine S W I
      → Result Error (Unit {0}) × Machine S W I
  unfolding roll_back
  after_offset rest offset activated (ok true, m) = rest (offset ∷ activated) m
  after_offset rest offset activated (ok false, m) = rest activated m
  after_offset rest offset activated (err panicked, m) = (err panicked, m)
  after_offset rest offset activated (err error, m) = (err error, roll_back activated m)

  -- `activated` holds the newest offset first.
  unfoldable pub activate_loop :
      (window_len : ℕ) → List ℕ → (activated : List ℕ) → Step (Machine S W I) Error (Unit {0})
  unfolding activate_offset after_offset
  activate_loop window_len [] activated m = (ok tt, m)
  activate_loop window_len (offset ∷ offsets) activated m =
      let rest = activate_loop window_len offsets in
      elim (contains_key offset m.fs.active) [
        | true ↦ rest activated m
        | false ↦ elim (Map.get offset m.fs.specs) [
          | none ↦ (err panicked, m)
          | some spec ↦
              after_offset rest offset activated (activate_offset window_len offset spec m)
        ]
      ]

  unfoldable pub activate_offsets : List ℕ → Step (Machine S W I) Error (Unit {0})
  unfolding activate_loop
  activate_offsets [] = pure tt
  activate_offsets (offset ∷ offsets) =
      the_window >>= (λ window. activate_loop window.1 (offset ∷ offsets) [])

  unfoldable pub resume_mappings : Step (Machine S W I) Error (Unit {0})
  unfolding activate_offsets
  resume_mappings = gets (λ m. keys m.fs.specs) >>= activate_offsets
