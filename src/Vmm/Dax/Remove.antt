-- ===== src/Vmm/Dax/Remove.antt =====
-- `remove_offset` and its loops, failing or not, keep what holds of a window.
use minidox.Prelude.{
  ℕ, ◌≡◌, refl, sym, subst, Bool, true, false, Option, none, some, List, [], ◌∷◌, Result, ok, err,
  map_err, ok_or, if◌then◌else◌, arith,
}
use minidox.Prelude.Order.{nat_ord}
use minidox.Prelude.Map
use minidox.Prelude.Map.{get, contains_key, keys, get-insert}
use minidox.Prelude.Step.{pure, fail, gets, modify, ◌>>=◌, ◌>>◌}
use minidox.Prelude.Step.Hoare.{
  Hoare, Post, and_then, pure_lem, fail_lem, gets_lem, modify_lem, ite_lem,
}
use minidox.Io.{IoError}
use minidox.Cache.{CacheError}
use minidox.Cache.State.{State}
use minidox.Cache.Mapping.{DaxPageMapping, unmap}
use minidox.Vmm.{Error, io}
use minidox.Vmm.Dax.{
  MappingSpec, Machine, enoent, enodev, on_cache, put_fs, the_window, cache_io_error,
}
use minidox.Vmm.Dax.Mapping.{
  set_active, release_mapping, remove_active, remove_offset, remove_offsets, suspend_mappings,
  roll_back,
}
use minidox.Vmm.Dax.Uses.{
  is_some, Valid, Holding, Taken, deactivate-Taken, Taken-Holding, Holding-unmap,
}
use minidox.Vmm.Dax.Steps.{On, mmap_lem, window_lem}

module _ {S W I : Type 0} {P : Machine S W I → Type 0} where
  pub the_window_keeps : Hoare P the_window (λ _. P) P
  unfolding the_window
  the_window_keeps = record { run = λ m p. by_window m p m.fs.window }
    where
      by_window :
          (m : Machine S W I)
          → P m
          → (window : Option (ℕ × ℕ)) → Post (λ _. P) P (ok_or window (io enodev), m)
      by_window m p none = p
      by_window m p (some window) = p

module _ {S W I : Type 0} (branch : ℕ) (base : ℕ → ℕ → ℕ) where
  abbrev pub Sound : Machine S W I → Type 0
  Sound m = Valid branch base m

  -- There is a window.
  abbrev pub Attached : Machine S W I → Type 0
  Attached m = Valid branch base m × (is_some m.fs.window ≡ true)

  pub the_window_lem : Hoare Sound the_window (λ _. Attached) Sound
  unfolding the_window
  the_window_lem = record { run = λ m p. by_window m p m.fs.window refl }
    where
      by_window :
          (m : Machine S W I)
          → Sound m
          → (window : Option (ℕ × ℕ)) → m.fs.window ≡ window
          → Post (λ _. Attached) Sound (ok_or window (io enodev), m)
      by_window m p none e = p
      by_window m p (some window) e = (p, ground arith)

  pub Valid-faults :
      (m : Machine S W I) (faults : List (Option IoError))
      → Sound m
      → Sound (record m { faults = faults })
  Valid-faults m faults p = record {
    of_branch = p.of_branch;
    counts = p.counts;
    own = p.own;
    shows = p.shows;
    attached = p.attached;
    sorted = p.sorted;
  }

  pub Valid-specs :
      (m : Machine S W I) (specs : Map.Map ℕ MappingSpec)
      → Sound m
      → Sound (put_fs (λ fs. record fs { specs = specs }) m)
  Valid-specs m specs p = record {
    of_branch = p.of_branch;
    counts = p.counts;
    own = p.own;
    shows = p.shows;
    attached = p.attached;
    sorted = p.sorted;
  }

  pub release_lem :
      (offset : ℕ) (mapping : DaxPageMapping)
      → Hoare (Holding branch base offset mapping) (release_mapping mapping) (λ _. Sound) Sound
  unfolding release_mapping ◌>>=◌ gets on_cache
  release_lem offset mapping = record {
    run = λ m p.
        let q = Holding-unmap branch offset mapping m p in
        subst
          (λ b.
            Post (λ (_ : Unit {0}). Sound) Sound
              (
                map_err cache_io_error (unmap b mapping m.cache).0,
                record m { cache = (unmap b mapping m.cache).1 },
              ))
          (sym p.rest.of_branch) (by_result m (unmap branch mapping m.cache) q.1);
  }
    where
      by_result :
          (m : Machine S W I) (r : Result CacheError (Unit {0}) × State S W I)
          → Sound (record m { cache = r.1 })
          → Post
              (λ (_ : Unit {0}). Sound)
              Sound
              (map_err cache_io_error r.0, record m { cache = r.1 })
      by_result m (ok u, cache) p = p
      by_result m (err e, cache) p = p

  remove_active-Valid :
      (offset : ℕ) (mapping : DaxPageMapping)
      → Hoare
          (λ m. Valid branch base m × (get offset m.fs.active ≡ some mapping))
          (remove_active offset mapping)
          (λ _. Sound)
          Sound
  unfolding remove_active
  remove_active-Valid offset mapping =
      and_then
        (modify_lem _ {Q = Taken branch base offset mapping}
          λ m p. deactivate-Taken branch offset mapping m p.1 p.0)
        λ _. and_then (window_lem λ m p. p.back.attached offset mapping (found m)) λ _.
          and_then
            (mmap_lem {Q = Holding branch base offset mapping}
              {R = λ m. Sound (put_fs (set_active offset mapping) m)} (Map.remove offset)
              (λ m faults p. Taken-Holding branch offset mapping m faults p)
              (λ m faults p. Valid-faults _ faults p.back))
            by_mapped
    where
      found :
          (m : Machine S W I) → get offset (Map.insert offset mapping m.fs.active) ≡ some mapping
      found m = ground (arith, get-insert offset offset mapping m.fs.active)

      by_mapped :
          (mapped : Result IoError (Unit {0}))
          → Hoare
              (On
                (Holding branch base offset mapping)
                (λ m. Sound (put_fs (set_active offset mapping) m))
                mapped)
              (elim mapped [
                | err error ↦ modify (put_fs (set_active offset mapping)) >> fail (io error)
                | ok _ ↦ release_mapping mapping
              ])
              (λ _. Sound)
              Sound
      by_mapped (ok u) = release_lem offset mapping
      by_mapped (err e) = and_then (modify_lem _ {Q = Sound} λ m p. p) λ _. fail_lem _ λ m p. p

  pub remove_offset-Valid :
      (offset : ℕ) (remove_spec : Bool)
      → Hoare Sound (remove_offset offset remove_spec) (λ _. Sound) Sound
  unfolding remove_offset
  remove_offset-Valid offset remove_spec =
      and_then
        (gets_lem _ {Q = λ active m. Sound m × (get offset m.fs.active ≡ active)} λ m p. (p, refl))
        λ active.
          and_then
            (gets_lem _ {Q = λ known m. Sound m × (get offset m.fs.active ≡ active)} λ m p. p)
            λ known.
              and_then (by_active active known) λ _.
                ite_lem remove_spec (modify_lem _ λ m p. Valid-specs m _ p) (pure_lem _ λ m p. p)
    where
      by_active :
          (active : Option DaxPageMapping) (known : Bool)
          → Hoare
              (λ m. Sound m × (get offset m.fs.active ≡ active))
              (elim active [
                | some mapping ↦ remove_active offset mapping
                | none ↦ if known then pure tt else fail (io enoent)
              ])
              (λ _. Sound)
              Sound
      by_active (some mapping) known = remove_active-Valid offset mapping
      by_active none known = ite_lem known (pure_lem _ λ m p. p.0) (fail_lem _ λ m p. p.0)

  pub remove_offsets-Valid :
      (offsets : List ℕ) (remove_spec : Bool)
      → Hoare Sound (remove_offsets offsets remove_spec) (λ _. Sound) Sound
  unfolding remove_offsets
  remove_offsets-Valid [] remove_spec = pure_lem _ λ m p. p
  remove_offsets-Valid (offset ∷ offsets) remove_spec =
      and_then (remove_offset-Valid offset remove_spec)
        λ _. remove_offsets-Valid offsets remove_spec

  pub suspend_mappings-Valid : Hoare Sound suspend_mappings (λ _. Sound) Sound
  unfolding suspend_mappings
  suspend_mappings-Valid =
      and_then (gets_lem _ {Q = λ _. Sound} λ m p. p) λ offsets. remove_offsets-Valid offsets false

  pub either : (r : Result Error (Unit {0}) × Machine S W I) → Post (λ _. Sound) Sound r → Sound r.1
  either (ok u, m) p = p
  either (err e, m) p = p

  pub roll_back-Valid :
      (offsets : List ℕ) (m : Machine S W I) → Sound m → Sound (roll_back offsets m)
  unfolding roll_back
  roll_back-Valid [] m p = p
  roll_back-Valid (offset ∷ offsets) m p =
      roll_back-Valid offsets (remove_offset offset false m).1
        (either (remove_offset offset false m) ((remove_offset-Valid offset false).run m p))
