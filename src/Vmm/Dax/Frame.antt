-- ===== src/Vmm/Dax/Frame.antt =====
-- What activation, its roll back and suspension leave of a branch: its specs, its window, its names.
use minidox.Prelude.{
  ℕ, ◌≡◌, refl, ◌∙◌, Bool, true, false, Option, none, some, List, [], ◌∷◌, Result, ok, err, ok_or,
  if◌then◌else◌, leb, Option-cases, inl, inr,
}
use minidox.Prelude.Order.{Ord, nat_ord}
use minidox.Prelude.Map
use minidox.Prelude.Map.{Map, get, contains_key, keys}
use minidox.Prelude.Step.{Step, pure, fail, modify, ◌>>◌}
use minidox.Prelude.Step.Hoare.{
  Hoare, Post, and_then, pure_lem, fail_lem, guard_lem, gets_lem, modify_lem, ite_lem,
}
use minidox.Io.{IoError}
use minidox.Cache.Store.{ForkableNodeStore}
use minidox.Cache.State.{with_store_mut}
use minidox.Cache.Mapping.{DaxPageMapping, map_page, unmap}
use minidox.Vmm.{Error, io, panicked}
use minidox.Vmm.Dax.{MappingSpec, VirtioFs, Machine, enoent, enodev, put_fs, the_window}
use minidox.Vmm.Dax.Mapping.{
  set_active, flags_of, release_mapping, remove_active, remove_offset, remove_offsets,
  suspend_mappings, roll_back, show_mapping, activate_offset, after_offset, activate_loop,
  activate_offsets, resume_mappings,
}
use minidox.Vmm.Dax.Steps.{On, mmap_lem, on_cache_lem}

-- The machine has a branch like `before`, but for what is mapped.
pub record Framed {S W I : Type 0} (before : VirtioFs) (m : Machine S W I) : Type 0 where
  pub same_specs : m.fs.specs ≡ before.specs
  pub same_window : m.fs.window ≡ before.window
  pub same_branch : m.fs.branch ≡ before.branch
  pub same_lineage : m.fs.lineage ≡ before.lineage

module _ {S W I : Type 0} (before : VirtioFs) where
  abbrev pub Like : Machine S W I → Type 0
  Like m = Framed before m

  pub framed_as :
      (m n : Machine S W I)
      → n.fs.specs ≡ m.fs.specs
      → n.fs.window ≡ m.fs.window
      → n.fs.branch ≡ m.fs.branch
      → n.fs.lineage ≡ m.fs.lineage
      → Like m
      → Like n
  framed_as m n a b c d p = record {
    same_specs = a ∙ p.same_specs;
    same_window = b ∙ p.same_window;
    same_branch = c ∙ p.same_branch;
    same_lineage = d ∙ p.same_lineage;
  }

  pub the_window-Framed : Hoare Like the_window (λ _. Like) Like
  unfolding the_window
  the_window-Framed = record { run = λ m p. by_window m p m.fs.window }
    where
      by_window :
          (m : Machine S W I)
          → Like m
          → (window : Option (ℕ × ℕ)) → Post (λ _. Like) Like (ok_or window (io enodev), m)
      by_window m p none = p
      by_window m p (some window) = p

  release_mapping-Framed :
      (mapping : DaxPageMapping) → Hoare Like (release_mapping mapping) (λ _. Like) Like
  unfolding release_mapping
  release_mapping-Framed mapping =
      and_then (gets_lem _ {Q = λ _. Like} λ m p. p) λ branch.
        on_cache_lem (unmap branch mapping) λ m cache p. framed_as m _ refl refl refl refl p

  set_active-Framed :
      (offset : ℕ) (mapping : DaxPageMapping)
      → Hoare {E = Error} Like (modify (put_fs (set_active offset mapping))) (λ _. Like) Like
  set_active-Framed offset mapping = modify_lem _ λ m p. framed_as m _ refl refl refl refl p

  remove_active-Framed :
      (offset : ℕ) (mapping : DaxPageMapping)
      → Hoare Like (remove_active offset mapping) (λ _. Like) Like
  unfolding remove_active
  remove_active-Framed offset mapping =
      and_then (modify_lem _ {Q = Like} λ m p. framed_as m _ refl refl refl refl p) λ _.
        and_then the_window-Framed λ _.
          and_then
            (mmap_lem {Q = Like} {R = Like} (Map.remove offset)
              (λ m faults p. framed_as m _ refl refl refl refl p)
              (λ m faults p. framed_as m _ refl refl refl refl p))
            by_mapped
    where
      by_mapped :
          (mapped : Result IoError (Unit {0}))
          → Hoare {T = Machine S W I} {E = Error}
              (On Like Like mapped)
              (elim mapped [
                | err error ↦ modify (put_fs (set_active offset mapping)) >> fail (io error)
                | ok _ ↦ release_mapping mapping
              ])
              (λ _. Like)
              Like
      by_mapped (ok u) = release_mapping-Framed mapping
      by_mapped (err e) = and_then (set_active-Framed offset mapping) λ _. fail_lem _ λ m p. p

  remove_offset-Framed : (offset : ℕ) → Hoare Like (remove_offset offset false) (λ _. Like) Like
  unfolding remove_offset
  remove_offset-Framed offset = and_then (gets_lem _ {Q = λ _. Like} λ m p. p) λ active.
      and_then (gets_lem _ {Q = λ _. Like} λ m p. p)
        λ known. and_then (by_active active known) λ _. pure_lem _ λ m p. p
    where
      by_active :
          (active : Option DaxPageMapping) (known : Bool)
          → Hoare {T = Machine S W I} {E = Error} Like
              (elim active [
                | some mapping ↦ remove_active offset mapping
                | none ↦ if known then pure tt else fail (io enoent)
              ])
              (λ _. Like)
              Like
      by_active (some mapping) known = remove_active-Framed offset mapping
      by_active none known = ite_lem known (pure_lem _ λ m p. p) (fail_lem _ λ m p. p)

  remove_offsets-Framed :
      (offsets : List ℕ) → Hoare Like (remove_offsets offsets false) (λ _. Like) Like
  unfolding remove_offsets
  remove_offsets-Framed [] = pure_lem _ λ m p. p
  remove_offsets-Framed (offset ∷ offsets) =
      and_then (remove_offset-Framed offset) λ _. remove_offsets-Framed offsets

  pub suspend_mappings-Framed : Hoare Like suspend_mappings (λ _. Like) Like
  unfolding suspend_mappings
  suspend_mappings-Framed = and_then (gets_lem _ {Q = λ _. Like} λ m p. p) remove_offsets-Framed

  after_remove : (r : Result Error (Unit {0}) × Machine S W I) → Post (λ _. Like) Like r → Like r.1
  after_remove (ok u, m) p = p
  after_remove (err e, m) p = p

  roll_back-Framed : (offsets : List ℕ) (m : Machine S W I) → Like m → Like (roll_back offsets m)
  unfolding roll_back
  roll_back-Framed [] m p = p
  roll_back-Framed (offset ∷ offsets) m p =
      roll_back-Framed offsets (remove_offset offset false m).1
        (after_remove (remove_offset offset false m) ((remove_offset-Framed offset).run m p))

module _ {S W I : Type 0} ⦃o : Ord I⦄ (store : ForkableNodeStore S W I) (before : VirtioFs) where
  show_mapping-Framed :
      (offset : ℕ) (mapping : DaxPageMapping)
      → Hoare (Like before) (show_mapping store offset mapping) (λ _. Like before) (Like before)
  unfolding show_mapping
  show_mapping-Framed offset mapping =
      and_then
        (mmap_lem {Q = Like before} {R = Like before} (Map.insert offset mapping.page)
          (λ m faults p. framed_as before m _ refl refl refl refl p)
          (λ m faults p. framed_as before m _ refl refl refl refl p))
        by_mapped
    where
      by_mapped :
          (mapped : Result IoError (Unit {0}))
          → Hoare {T = Machine S W I} {E = Error}
              (On {S = S} {W = W} {I = I} (Like before) (Like before) mapped)
              (elim mapped [
                | err error ↦ release_mapping mapping >> fail (io error)
                | ok _ ↦ modify (put_fs (set_active offset mapping)) >> pure true
              ])
              (λ _. Like before)
              (Like before)
      by_mapped (ok u) = and_then (set_active-Framed before offset mapping) λ _. pure_lem _ λ m p. p
      by_mapped (err e) = and_then (release_mapping-Framed before mapping) λ _. fail_lem _ λ m p. p

  pub activate_offset-Framed :
      (window_len offset : ℕ) (spec : MappingSpec)
      → Hoare
          (Like before)
          (activate_offset store window_len offset spec)
          (λ _. Like before)
          (Like before)
  unfolding activate_offset
  activate_offset-Framed window_len offset spec =
      and_then (guard_lem _ _ {Q = Like before} (λ m _ p. p) λ m _ p. p) λ _.
        and_then (gets_lem _ {Q = λ _. Like before} λ m p. p) λ branch.
          and_then
            (on_cache_lem (with_store_mut branch (store.len spec.inode))
              λ m cache p. framed_as before m _ refl refl refl refl p)
            λ len. ite_lem (leb len spec.file_offset) (pure_lem _ λ m p. p) (
              and_then
                (on_cache_lem (map_page store branch spec.inode spec.file_offset (flags_of spec))
                  λ m cache p. framed_as before m _ refl refl refl refl p)
                λ mapping. show_mapping-Framed offset mapping)

  after_offset-Framed :
      (rest : List ℕ → Step (Machine S W I) Error (Unit {0})) (offset : ℕ) (activated : List ℕ)
      (r : Result Error Bool × Machine S W I)
      → ((activated : List ℕ)
          → Hoare (Like before) (rest activated) (λ _. Like before) (Like before))
      → Post (λ _. Like before) (Like before) r
      → Post
          (λ (_ : Unit {0}). Like before)
          (Like before)
          (after_offset store rest offset activated r)
  unfolding after_offset
  after_offset-Framed rest offset activated (ok true, m) h p = (h (offset ∷ activated)).run m p
  after_offset-Framed rest offset activated (ok false, m) h p = (h activated).run m p
  after_offset-Framed rest offset activated (err panicked, m) h p = p
  after_offset-Framed rest offset activated (err (Error.io e), m) h p =
      roll_back-Framed before activated m p
  after_offset-Framed rest offset activated (err Error.backend, m) h p =
      roll_back-Framed before activated m p
  after_offset-Framed rest offset activated (err Error.worker_panicked, m) h p =
      roll_back-Framed before activated m p
  after_offset-Framed rest offset activated (err (Error.invalid_ram_size n), m) h p =
      roll_back-Framed before activated m p
  after_offset-Framed rest offset activated (err (Error.ram_range a b), m) h p =
      roll_back-Framed before activated m p
  after_offset-Framed rest offset activated (err (Error.invalid_dirty_page a b), m) h p =
      roll_back-Framed before activated m p

  activate_loop-Framed :
      (window_len : ℕ) (offsets activated : List ℕ)
      → Hoare
          (Like before)
          (activate_loop store window_len offsets activated)
          (λ _. Like before)
          (Like before)
  unfolding activate_loop
  activate_loop-Framed window_len [] activated = record { run = λ m p. p }
  activate_loop-Framed window_len (offset ∷ offsets) activated = record {
    run = λ m p. elim (Option-cases (get offset m.fs.active)) [
      | inr (mapping, e) ↦
          rw (activate_loop, e) ((activate_loop-Framed window_len offsets activated).run m p)
      | inl e ↦ elim (Option-cases (get offset m.fs.specs)) [
        | inl f ↦ rw (activate_loop, e, f) p
        | inr (spec, f) ↦
            rw (activate_loop, e, f)
              (after_offset-Framed (activate_loop store window_len offsets) offset activated
                (activate_offset store window_len offset spec m)
                (activate_loop-Framed window_len offsets)
                ((activate_offset-Framed window_len offset spec).run m p))
      ]
    ];
  }

  pub activate_offsets-Framed :
      (offsets : List ℕ)
      → Hoare (Like before) (activate_offsets store offsets) (λ _. Like before) (Like before)
  unfolding activate_offsets
  activate_offsets-Framed [] = pure_lem _ λ m p. p
  activate_offsets-Framed (offset ∷ offsets) =
      and_then (the_window-Framed before)
        λ window. activate_loop-Framed window.1 (offset ∷ offsets) []

  pub resume_mappings-Framed :
      Hoare (Like before) (resume_mappings store) (λ _. Like before) (Like before)
  unfolding resume_mappings
  resume_mappings-Framed =
      and_then (gets_lem _ {Q = λ _. Like before} λ m p. p) activate_offsets-Framed
