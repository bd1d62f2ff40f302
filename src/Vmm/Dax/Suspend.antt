-- ===== src/Vmm/Dax/Suspend.antt =====
-- A suspension that succeeds leaves nothing mapped.
use minidox.Prelude.{
  ℕ, ◌≡◌, refl, ◌∙◌, ok_or, Bool, false, ◌||◌, Option, none, some, List, [], ◌∷◌, Result, ok, err,
  if◌then◌else◌, ◌==◌, arith,
}
use minidox.Prelude.Order.{nat_ord}
use minidox.Prelude.Map
use minidox.Prelude.Map.{Map, get, get-remove, keys}
use minidox.Prelude.Step.{pure, fail, modify, ◌>>◌}
use minidox.Prelude.Step.Hoare.{
  Hoare, Post, and_then, pure_lem, fail_lem, gets_lem, modify_lem, ite_lem, weaken, strengthen,
  ok_leaves,
}
use minidox.Io.{IoError}
use minidox.Cache.Mapping.{DaxPageMapping, unmap}
use minidox.Cache.Active.{active}
use minidox.Vmm.{Error, io}
use minidox.Vmm.Dax.{Machine, enoent, enodev, put_fs, the_window}
use minidox.Vmm.Dax.Mapping.{
  set_active, release_mapping, remove_active, remove_offset, remove_offsets, suspend_mappings,
}
use minidox.Vmm.Dax.Uses.{uses, Valid}
use minidox.Vmm.Dax.Steps.{On, mmap_lem, on_cache_lem}
use minidox.Vmm.Dax.Remove.{suspend_mappings-Valid}

abbrev pub among : ℕ → List ℕ → Bool
among at [] = false
among at (offset ∷ offsets) = at == offset || among at offsets

-- The keys of a map are all of them.
get-among : (at : ℕ) (m : Map ℕ DaxPageMapping) → among at (keys m) ≡ false → get at m ≡ none
unfolding get keys
get-among at [] h = refl
get-among at ((k, v) ∷ m) h = ground (arith, get-among at m)

empty_of_none : (m : Map ℕ DaxPageMapping) → ((at : ℕ) → get at m ≡ none) → m ≡ []
unfolding get
empty_of_none [] h = refl
empty_of_none ((k, v) ∷ m) h = absurd (ground (arith, h k))

module _ {S W I : Type 0} where
  -- Nothing is mapped but at some of these offsets.
  abbrev Only : List ℕ → Machine S W I → Type 0
  Only offsets m = (at : ℕ) → among at offsets ≡ false → get at m.fs.active ≡ none

  abbrev pub Any : Machine S W I → Type 0
  Any m = Unit {0}

  Any-window : {P : Machine S W I → Type 0} → Hoare P the_window (λ _. P) Any
  unfolding the_window
  Any-window {P} = record { run = λ m p. by_window m p m.fs.window }
    where
      by_window :
          (m : Machine S W I)
          → P m
          → (window : Option (ℕ × ℕ)) → Post (λ _. P) Any (ok_or window (io enodev), m)
      by_window m p none = tt
      by_window m p (some window) = p

  remove_active-Only :
      (offset : ℕ) (mapping : DaxPageMapping) (offsets : List ℕ)
      → Hoare (Only (offset ∷ offsets)) (remove_active offset mapping) (λ _. Only offsets) Any
  unfolding remove_active release_mapping
  remove_active-Only offset mapping offsets =
      and_then
        (modify_lem _ {Q = Only offsets}
          λ m p at h. ground (arith, p at, get-remove offset at m.fs.active))
        λ _. and_then Any-window λ _.
          and_then
            (mmap_lem {Q = Only offsets} {R = Any} (Map.remove offset) (λ m faults p. p)
              (λ m faults p. tt))
            by_mapped
    where
      by_mapped :
          (mapped : Result IoError (Unit {0}))
          → Hoare {T = Machine S W I} {E = Error}
              (On (Only offsets) Any mapped)
              (elim mapped [
                | err error ↦ modify (put_fs (set_active offset mapping)) >> fail (io error)
                | ok _ ↦ release_mapping mapping
              ])
              (λ _. Only offsets)
              Any
      by_mapped (ok u) = and_then (gets_lem _ {Q = λ _. Only offsets} λ m p. p) λ branch.
          weaken (on_cache_lem (unmap branch mapping) (λ m cache p. p)) (λ _ m p. p) (λ m p. tt)
      by_mapped (err e) = and_then (modify_lem _ {Q = Any} λ m p. tt) λ _. fail_lem _ λ m p. tt

  remove_offset-Only :
      (offset : ℕ) (offsets : List ℕ)
      → Hoare (Only (offset ∷ offsets)) (remove_offset offset false) (λ _. Only offsets) Any
  unfolding remove_offset
  remove_offset-Only offset offsets =
      and_then
        (gets_lem _ {Q = λ active m. Only (offset ∷ offsets) m × (get offset m.fs.active ≡ active)}
          λ m p. (p, refl))
        λ active.
          and_then
            (gets_lem _
              {Q = λ known m. Only (offset ∷ offsets) m × (get offset m.fs.active ≡ active)}
              λ m p. p)
            λ known. and_then (by_active active known) λ _. pure_lem _ λ m p. p
    where
      by_active :
          (active : Option DaxPageMapping) (known : Bool)
          → Hoare {T = Machine S W I} {E = Error}
              (λ m. Only (offset ∷ offsets) m × (get offset m.fs.active ≡ active))
              (elim active [
                | some mapping ↦ remove_active offset mapping
                | none ↦ if known then pure tt else fail (io enoent)
              ])
              (λ _. Only offsets)
              Any
      by_active (some mapping) known =
          strengthen (remove_active-Only offset mapping offsets) λ m p. p.0
      by_active none known =
          ite_lem known (pure_lem _ λ m p at h. ground (arith, p.0 at)) (fail_lem _ λ m p. tt)

  remove_offsets-Only :
      (offsets : List ℕ) → Hoare (Only offsets) (remove_offsets offsets false) (λ _. Only []) Any
  unfolding remove_offsets
  remove_offsets-Only [] = pure_lem _ λ m p. p
  remove_offsets-Only (offset ∷ offsets) =
      and_then (remove_offset-Only offset offsets) λ _. remove_offsets-Only offsets

  pub suspend_mappings-Idle :
      Hoare {T = Machine S W I} Any suspend_mappings (λ _ m. m.fs.active ≡ []) Any
  unfolding suspend_mappings
  suspend_mappings-Idle =
      and_then (gets_lem _ {Q = Only} λ m p at h. get-among at m.fs.active h) λ offsets.
        weaken (remove_offsets-Only offsets) (λ _ m p. empty_of_none m.fs.active λ at. p at refl)
          λ m p. tt

module _ {S W I : Type 0} (branch : ℕ) (base : ℕ → ℕ → ℕ) where
  -- A successful suspension of a window that is valid leaves it blank, leaves no mapping active,
  -- and gives back to the cache every count beyond those of the rest of the system.
  pub idle-suspend_mappings :
      (m : Machine S W I)
      → Valid branch base m
      → (suspend_mappings m).0 ≡ ok tt
      → ((offset : ℕ) → get offset (suspend_mappings m).1.shown ≡ none)
        × ((at page : ℕ) → active at page (suspend_mappings m).1.cache ≡ base at page)
        × ((suspend_mappings m).1.fs.active ≡ [])
  unfolding uses get
  idle-suspend_mappings m p done =
      let q = ok_leaves (suspend_mappings-Valid branch base) m tt p done in
      let e = ok_leaves suspend_mappings-Idle m tt tt done in
      (λ offset. q.shows offset ∙ rw e refl, λ at page. q.counts at page ∙ rw e (ground arith), e)
