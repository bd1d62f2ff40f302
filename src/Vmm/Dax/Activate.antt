-- ===== src/Vmm/Dax/Activate.antt =====
-- `activate_offsets`, failing or not, keeps what holds of a window.
use minidox.Prelude.{
  ℕ, ◌+◌, ◌≡◌, Bool, true, false, none, length, List, [], ◌∷◌, Result, ok, err, arith, Option-cases,
  inl, inr, leb,
}
use minidox.Prelude.Order.{Ord, nat_ord}
use minidox.Prelude.Map
use minidox.Prelude.Map.{get, contains_key, keys, get-insert}
use minidox.Prelude.Step.{Step, pure, fail, modify, ◌>>◌}
use minidox.Prelude.Step.Hoare.{
  Hoare, Post, both, and_then, pure_lem, fail_lem, guard_lem, gets_lem, modify_lem, ite_lem,
}
use minidox.Io.{IoError}
use minidox.Cache.Store.{ForkableNodeStore}
use minidox.Cache.State.{State, with_store_mut}
use minidox.Cache.Mapping.{DaxPageMapping, map_page}
use minidox.Cache.Active.{Same, Same-StoresKeep}
use minidox.Cache.Balance.{Made, map_page-Made}
use minidox.Cache.Steps.{with_store_mut_lem}
use minidox.Cache.Uses.{Same-refl}
use minidox.Vmm.{Error, io, panicked}
use minidox.Vmm.Dax.{MappingSpec, Machine, put_fs}
use minidox.Vmm.Dax.Mapping.{
  set_active, flags_of, release_mapping, show_mapping, activate_offset, after_offset, activate_loop,
  activate_offsets, resume_mappings,
}
use minidox.Vmm.Dax.Uses.{more, HasRoom, Holding, Valid-Same, Holding-Valid}
use minidox.Vmm.Dax.Steps.{on_cache_by, On, mmap_lem}
use minidox.Vmm.Dax.Remove.{
  Sound, Attached, the_window_lem, the_window_keeps, Valid-faults, release_lem, roll_back-Valid,
}

module _ {S W I : Type 0} ⦃o : Ord I⦄ (store : ForkableNodeStore S W I) (branch : ℕ)
    (base : ℕ → ℕ → ℕ) where
  -- The offset is free, and there is a window.
  abbrev Ready : ℕ → Machine S W I → Type 0
  Ready offset m = Attached branch base m × (get offset m.fs.active ≡ none)

  -- The counts have room for so many mappings.
  abbrev Roomy : ℕ → Machine S W I → Type 0
  Roomy mappings m = Attached branch base m × HasRoom branch mappings m

  abbrev Held : ℕ → ℕ → DaxPageMapping → Machine S W I → Type 0
  Held mappings offset mapping m = Holding branch base offset mapping m × HasRoom branch mappings m

  show_mapping-Valid :
      (offset mappings : ℕ) (mapping : DaxPageMapping)
      → Hoare
          (Held mappings offset mapping)
          (show_mapping store offset mapping)
          (λ _. Roomy mappings)
          (Sound branch base)
  unfolding show_mapping
  show_mapping-Valid offset mappings mapping =
      and_then
        (mmap_lem {Q = λ m. Roomy mappings (put_fs (set_active offset mapping) m)}
          {R = Holding branch base offset mapping} (Map.insert offset mapping.page)
          (λ m faults p. ((Holding-Valid branch offset mapping m faults p.0, p.0.there), p.1))
          (λ m faults p. record {
            rest = Valid-faults branch (more branch base mapping) m faults p.0.rest;
            of_cache = p.0.of_cache;
            of_mapping = p.0.of_mapping;
            free = p.0.free;
            there = p.0.there;
          }))
        by_mapped
    where
      by_mapped :
          (mapped : Result IoError (Unit {0}))
          → Hoare {T = Machine S W I} {E = Error}
              (On {S = S} {W = W} {I = I}
                (λ m. Roomy mappings (put_fs (set_active offset mapping) m))
                (Holding branch base offset mapping)
                mapped)
              (elim mapped [
                | err error ↦ release_mapping mapping >> fail (io error)
                | ok _ ↦ modify (put_fs (set_active offset mapping)) >> pure true
              ])
              (λ _. Roomy mappings)
              (Sound branch base)
      by_mapped (ok u) =
          and_then (modify_lem _ {Q = Roomy mappings} λ m p. p) λ _. pure_lem _ λ m p. p
      by_mapped (err e) = and_then (release_lem branch base offset mapping) λ _. fail_lem _ λ m p. p

  Holding-Made :
      (offset b : ℕ) (m : Machine S W I) (mapping : DaxPageMapping) (cache : State S W I)
      → Ready offset m
      → b ≡ branch
      → HasRoom branch 1 m
      → Made m.cache b mapping cache
      → Holding branch base offset mapping (record m { cache = cache })
  Holding-Made offset b m mapping cache p e room made = record {
    rest = record {
      of_branch = p.0.0.of_branch;
      counts =
          λ at page. ground (arith, made.one_more.counts at page, p.0.0.counts at page, room page);
      own = λ at one h. ground (arith, p.0.0.own at one, made.one_more.same_cache);
      shows = p.0.0.shows;
      attached = p.0.0.attached;
      sorted = p.0.0.sorted;
    };
    of_cache = ground (arith, made.of_cache, made.one_more.same_cache);
    of_mapping = ground (arith, made.of_branch);
    free = p.1;
    there = p.0.1;
  }

  Held-Made :
      (offset b mappings : ℕ) (m : Machine S W I) (mapping : DaxPageMapping) (cache : State S W I)
      → Ready offset m
      → b ≡ branch
      → HasRoom branch (mappings + 1) m
      → Made m.cache b mapping cache
      → Held mappings offset mapping (record m { cache = cache })
  Held-Made offset b mappings m mapping cache p e room made = (
    Holding-Made offset b m mapping cache p e (λ page. omega (arith, room page)) made,
    λ page. ground (arith, made.one_more.counts branch page, room page),
  )

  abbrev Waiting : ℕ → ℕ → ℕ → Machine S W I → Type 0
  Waiting offset mappings b m = (Ready offset m × HasRoom branch (mappings + 1) m) × (b ≡ branch)

  activate_offset-Valid :
      (window_len offset mappings : ℕ) (spec : MappingSpec)
      → Hoare
          (λ m. Ready offset m × HasRoom branch (mappings + 1) m)
          (activate_offset store window_len offset spec)
          (λ _. Roomy mappings)
          (Sound branch base)
  unfolding activate_offset
  activate_offset-Valid window_len offset mappings spec =
      and_then
        (guard_lem _ _ {Q = λ m. Ready offset m × HasRoom branch (mappings + 1) m}
          (λ m _ p. p.0.0.0) λ m _ p. p)
        λ _. and_then (gets_lem _ {Q = Waiting offset mappings} λ m p. (p, p.0.0.0.of_branch)) λ b.
          and_then
            (on_cache_by (with_store_mut b (store.len spec.inode)) (λ s _. Same s) Same
              {R = λ _. Waiting offset mappings b}
              (λ cache. (with_store_mut_lem b _ Same-StoresKeep).run cache (Same-refl cache))
              (λ m len cache p q. (
                (
                  ((Valid-Same branch m cache q p.0.0.0.0, p.0.0.0.1), p.0.0.1),
                  λ page. ground (arith, q.counts branch page, p.0.1 page),
                ),
                p.1,
              ))
              (λ m cache p q. Valid-Same branch m cache q p.0.0.0.0))
            λ len.
              ite_lem (leb len spec.file_offset)
                (pure_lem _ λ m p. (p.0.0.0, λ page. omega (arith, p.0.1 page)))
                (and_then
                  (on_cache_by (map_page store b spec.inode spec.file_offset (flags_of spec))
                    (λ s. Made s b) Same {R = Held mappings offset}
                    (λ cache.
                      (map_page-Made store b spec.inode spec.file_offset (flags_of spec)).run cache
                        (Same-refl cache))
                    (λ m mapping cache p made.
                      Held-Made offset b mappings m mapping cache p.0.0 p.1 p.0.1 made)
                    (λ m cache p q. Valid-Same branch m cache q p.0.0.0.0))
                  λ mapping. show_mapping-Valid offset mappings mapping)

  after_offset-Valid :
      (rest : List ℕ → Step (Machine S W I) Error (Unit {0})) (offset : ℕ) (activated : List ℕ)
      (mappings : ℕ) (r : Result Error Bool × Machine S W I)
      → ((activated : List ℕ)
          → Hoare (Roomy mappings) (rest activated) (λ _. Sound branch base) (Sound branch base))
      → Post (λ _. Roomy mappings) (Sound branch base) r
      → Post
          (λ (_ : Unit {0}). Sound branch base)
          (Sound branch base)
          (after_offset store rest offset activated r)
  unfolding after_offset
  after_offset-Valid rest offset activated mappings (ok true, m) h p =
      (h (offset ∷ activated)).run m p
  after_offset-Valid rest offset activated mappings (ok false, m) h p = (h activated).run m p
  after_offset-Valid rest offset activated mappings (err panicked, m) h p = p
  after_offset-Valid rest offset activated mappings (err (Error.io e), m) h p =
      roll_back-Valid branch base activated m p
  after_offset-Valid rest offset activated mappings (err Error.backend, m) h p =
      roll_back-Valid branch base activated m p
  after_offset-Valid rest offset activated mappings (err Error.worker_panicked, m) h p =
      roll_back-Valid branch base activated m p
  after_offset-Valid rest offset activated mappings (err (Error.invalid_ram_size n), m) h p =
      roll_back-Valid branch base activated m p
  after_offset-Valid rest offset activated mappings (err (Error.ram_range a b), m) h p =
      roll_back-Valid branch base activated m p
  after_offset-Valid rest offset activated mappings (err (Error.invalid_dirty_page a b), m) h p =
      roll_back-Valid branch base activated m p

  activate_loop-Valid :
      (window_len : ℕ) (offsets activated : List ℕ)
      → Hoare
          (Roomy (length offsets))
          (activate_loop store window_len offsets activated)
          (λ _. Sound branch base)
          (Sound branch base)
  unfolding activate_loop
  activate_loop-Valid window_len [] activated = record { run = λ m p. p.0.0 }
  activate_loop-Valid window_len (offset ∷ offsets) activated = record {
    run = λ m p. elim (Option-cases (get offset m.fs.active)) [
      | inr (mapping, e) ↦
          rw (activate_loop, e)
            ((activate_loop-Valid window_len offsets activated).run m
              (p.0, λ page. omega (arith, p.1 page)))
      | inl e ↦ elim (Option-cases (get offset m.fs.specs)) [
        | inl f ↦ rw (activate_loop, e, f) p.0.0
        | inr (spec, f) ↦
            rw (activate_loop, e, f)
              (after_offset-Valid (activate_loop store window_len offsets) offset activated
                (length offsets) (activate_offset store window_len offset spec m)
                (activate_loop-Valid window_len offsets)
                ((activate_offset-Valid window_len offset (length offsets) spec).run m
                  ((p.0, e), λ page. omega (arith, p.1 page))))
      ]
    ];
  }

  pub activate_offsets-Valid :
      (offsets : List ℕ)
      → Hoare
          (λ m. Sound branch base m × HasRoom branch (length offsets) m)
          (activate_offsets store offsets)
          (λ _. Sound branch base)
          (Sound branch base)
  unfolding activate_offsets
  activate_offsets-Valid [] = pure_lem _ λ m p. p.0
  activate_offsets-Valid (offset ∷ offsets) =
      and_then
        (both (the_window_lem branch base)
          (the_window_keeps {P = HasRoom branch (length (offset ∷ offsets))}))
        λ window. activate_loop-Valid window.1 (offset ∷ offsets) []

  pub resume_mappings-Valid :
      Hoare
        (λ m. Sound branch base m × HasRoom branch (length (keys m.fs.specs)) m)
        (resume_mappings store)
        (λ _. Sound branch base)
        (Sound branch base)
  unfolding resume_mappings
  resume_mappings-Valid =
      and_then
        (gets_lem _ {Q = λ offsets m. Sound branch base m × HasRoom branch (length offsets) m}
          λ m p. p)
        activate_offsets-Valid
