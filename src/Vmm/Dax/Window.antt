-- ===== src/Vmm/Dax/Window.antt =====
-- crates/minidox-vmm/src/virtiofs.rs: `attach_dax_window`, `detach_dax_window`, `setup_mapping` and
-- `remove_mapping` of `InProcessFsBackend for VirtioFsBranch`. The lock makes each one step.
use minidox.Prelude.{
  ℕ, zero, suc, ◌+◌, ◌-◌, ◌^◌, ◌/◌, ◌%◌, Bool, true, false, not, ◌&&◌, ◌||◌, Option, none, some,
  List, [], ◌∷◌, map, Result, ok, err, ok_or, checked_add, if◌then◌else◌, ◌==◌, ltb, leb, u64_mod,
}
use minidox.Prelude.Order.{Ord, nat_ord}
use minidox.Prelude.Map
use minidox.Prelude.Map.{Map}
use minidox.Prelude.Step.{Step, pure, fail, lift, gets, modify, guard, ◌>>=◌, ◌>>◌}
use minidox.Io.{already_exists}
use minidox.Cache.{page_size}
use minidox.Cache.Store.{ForkableNodeStore}
use minidox.Vmm.{Error, io, catch}
use minidox.Vmm.Dax.{MappingSpec, VirtioFs, Machine, ebusy, einval, eoverflow, put_fs, the_window}
use minidox.Vmm.Dax.Mapping.{
  drop_spec, remove_offsets, suspend_mappings, activate_offsets, resume_mappings,
}

-- `inode.try_into()`, into 32 bits.
abbrev pub node_id : ℕ → Result Error ℕ
node_id inode = if ltb inode (2 ^ 32) then ok inode else err (io eoverflow)

-- The number of rounds of `(0..len).step_by(PAGE_SIZE)`.
abbrev pub rounds : ℕ → ℕ
rounds len = (len + (page_size - 1)) / page_size

-- The offsets of so many pages.
unfoldable pub page_offsets : (count offset : ℕ) → List ℕ
page_offsets zero offset = []
page_offsets (suc count) offset = offset ∷ page_offsets count (offset + page_size)

-- The specs of so many pages of a file.
unfoldable pub add_specs : (count offset : ℕ) → MappingSpec → Map ℕ MappingSpec → Map ℕ MappingSpec
add_specs zero offset spec specs = specs
add_specs (suc count) offset spec specs =
    add_specs count (offset + page_size)
      (record spec { file_offset = spec.file_offset + page_size }) (Map.insert offset spec specs)

-- `for offset in inserted { state.specs.remove(&offset); }`
unfoldable pub drop_specs : List ℕ → VirtioFs → VirtioFs
drop_specs [] fs = fs
drop_specs (offset ∷ offsets) fs = drop_specs offsets (drop_spec offset fs)

-- `specs.range(..end).any(..)`
unfoldable pub overlaps : (window_offset end : ℕ) → Map ℕ MappingSpec → Bool
overlaps window_offset end [] = false
overlaps window_offset end ((offset, spec) ∷ specs) =
    (ltb offset end
      && (leb window_offset offset || ltb window_offset ((offset + page_size) % u64_mod)))
    || overlaps window_offset end specs

abbrev pub filter_end : ℕ → Option ℕ → Option ℕ
filter_end window_len none = none
filter_end window_len (some end) = if leb end window_len then some end else none

abbrev pub put_window : Option (ℕ × ℕ) → VirtioFs → VirtioFs
put_window window fs = record fs { window = window }

abbrev pub is_window : (host_address len : ℕ) → Option (ℕ × ℕ) → Bool
is_window host_address len none = false
is_window host_address len (some window) = window.0 == host_address && window.1 == len

module _ {S W I : Type 0} where
  unfoldable pub remove_mapping : (window_offset len : ℕ) → Step (Machine S W I) Error (Unit {0})
  remove_mapping window_offset len = do
    guard (len == 0 || not (window_offset % page_size == 0) || not (len % page_size == 0))
        (io einval)
    remove_offsets (map (λ offset. offset % u64_mod) (page_offsets (rounds len) window_offset)) true

  unfoldable pub detach_dax_window : (host_address len : ℕ) → Step (Machine S W I) Error (Unit {0})
  detach_dax_window host_address len = do
    window ← gets (λ m. m.fs.window)
    (if is_window host_address len window
        then suspend_mappings >> modify (put_fs (put_window none))
        else pure tt)

  -- What `setup_mapping` does with the result of `activate_offsets`.
  unfoldable pub after_setup :
      List ℕ → Result Error (Unit {0}) → Step (Machine S W I) Error (Unit {0})
  after_setup inserted (ok u) = pure tt
  after_setup inserted (err error) = modify (put_fs (drop_specs inserted)) >> fail error

  -- What `attach_dax_window` does with the result of `resume_mappings`.
  unfoldable pub after_attach : Result Error (Unit {0}) → Step (Machine S W I) Error (Unit {0})
  after_attach (ok u) = pure tt
  after_attach (err error) = modify (put_fs (put_window none)) >> fail error

module _ {S W I : Type 0} ⦃o : Ord I⦄ (store : ForkableNodeStore S W I) where
  unfoldable pub setup_mapping :
      (inode file_offset len : ℕ) (writable : Bool) (window_offset : ℕ)
      → Step (Machine S W I) Error (Unit {0})
  unfolding after_setup
  setup_mapping inode file_offset len writable window_offset = do
    guard
        (len == 0
          || not (file_offset % page_size == 0)
          || not (window_offset % page_size == 0)
          || not (len % page_size == 0))
        (io einval)
    window ← the_window
    end ← lift (ok_or (filter_end window.1 (checked_add window_offset len)) (io einval))
    file_end ← lift (ok_or (checked_add file_offset len) (io einval))
    specs ← gets (λ m. m.fs.specs)
    guard (overlaps window_offset end specs) (io ebusy)
    node ← lift (node_id inode)
    let spec : MappingSpec = record { inode = node; file_offset = file_offset; writable = writable }
    modify (put_fs (λ fs. record fs { specs = add_specs (rounds len) window_offset spec fs.specs }))
    activated ← catch (activate_offsets store (page_offsets (rounds len) window_offset))
    after_setup (page_offsets (rounds len) window_offset) activated

  -- A fresh window shows zeros.
  unfoldable pub attach_dax_window : (host_address len : ℕ) → Step (Machine S W I) Error (Unit {0})
  unfolding after_attach
  attach_dax_window host_address len = do
    window ← gets (λ m. m.fs.window)
    guard (elim window [ none ↦ false | some w ↦ true ]) (io already_exists)
    modify (λ m. record (put_fs (put_window (some (host_address, len))) m) { shown = [] })
    resumed ← catch (resume_mappings store)
    after_attach resumed
