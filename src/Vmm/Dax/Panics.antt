-- ===== src/Vmm/Dax/Panics.antt =====
-- The activation of offsets that have specs does not panic.
use minidox.Prelude.{
  ℕ, ◌≡◌, ◌≢◌, refl, ap, Bool, true, false, Option, none, some, List, [], ◌∷◌, Result, ok, err,
  ok_or, map_err, if◌then◌else◌, leb, arith, Option-cases, inl, inr,
}
use minidox.Prelude.Order.{Ord, nat_ord}
use minidox.Prelude.Map
use minidox.Prelude.Map.{get, contains_key}
use minidox.Prelude.Step.{Step, pure, fail, gets, modify, guard, attempt, continue, ◌>>=◌, ◌>>◌}
use minidox.Prelude.Step.Hoare.{Post}
use minidox.Io.{IoError}
use minidox.Cache.{CacheError}
use minidox.Cache.Store.{ForkableNodeStore}
use minidox.Cache.State.{State, with_store_mut}
use minidox.Cache.Mapping.{DaxPageMapping, map_page, unmap}
use minidox.Vmm.{Error, io, panicked}
use minidox.Vmm.Dax.{
  MappingSpec, VirtioFs, Machine, cache_io_error, on_cache, mmap, put_fs, the_window, einval,
  enodev,
}
use minidox.Vmm.Dax.Mapping.{
  set_active, flags_of, release_mapping, show_mapping, activate_offset, after_offset, activate_loop,
  activate_offsets,
}
use minidox.Vmm.Dax.Frame.{Framed, Like, activate_offset-Framed}

-- A method that panics from no state.
record Calm {T A : Type 0} (m : Step T Error A) : Type 0 where
  never : (t : T) → (m t).0 ≢ err panicked

module _ {T : Type 0} where
  bind-Calm :
      {A B : Type 0} {m : Step T Error A} {f : A → Step T Error B}
      → Calm m
      → ((a : A) → Calm (f a))
      → Calm (m >>= f)
  unfolding ◌>>=◌
  bind-Calm {A} {B} {m} {f} h k = record { never = λ t. by_result (m t) (h.never t) }
    where
      by_result : (r : Result Error A × T) → r.0 ≢ err panicked → (continue r f).0 ≢ err panicked
      by_result (ok a, t) n = (k a).never t
      by_result (err e, t) n = λ h. n (ground arith)

  ok-Calm :
      {A : Type 0} {m : Step T Error A} (value : T → A)
      → ((t : T) → (m t).0 ≡ ok (value t))
      → Calm m
  ok-Calm value h = record { never = λ t e. absurd (ground (arith, h t)) }

  guard-Calm : (b : Bool) (e : IoError) → Calm {T = T} (guard b (io e))
  unfolding guard fail pure
  guard-Calm true e = record { never = λ t h. absurd (ground arith) }
  guard-Calm false e = record { never = λ t h. absurd (ground arith) }

  ite-Calm :
      {A : Type 0} {m n : Step T Error A} (b : Bool) → Calm m → Calm n → Calm (if b then m else n)
  ite-Calm true h k = h
  ite-Calm false h k = k

  fail-Calm : {A : Type 0} (e : IoError) → Calm {T = T} {A = A} (fail (io e))
  unfolding fail
  fail-Calm e = record { never = λ t h. absurd (ground arith) }

module _ {S W I : Type 0} where
  on_cache-Calm :
      {A : Type 0} (operation : Step (State S W I) CacheError A)
      → Calm {T = Machine S W I} (on_cache operation)
  unfolding on_cache cache_io_error
  on_cache-Calm {A} operation = record { never = λ m. by_result (operation m.cache).0 }
    where
      by_result : (r : Result CacheError A) → map_err cache_io_error r ≢ err panicked
      by_result (ok a) h = absurd (ground arith)
      by_result (err (CacheError.io e)) h = absurd (ground arith)
      by_result (err (CacheError.invalid_mapping e)) h = absurd (ground arith)
      by_result (err (CacheError.node_not_open e)) h = absurd (ground arith)
      by_result (err (CacheError.branch_not_found e)) h = absurd (ground arith)
      by_result (err CacheError.stale_mapping) h = absurd (ground arith)
      by_result (err CacheError.active_mappings) h = absurd (ground arith)
      by_result (err CacheError.page_busy) h = absurd (ground arith)

  release-Calm : (mapping : DaxPageMapping) → Calm {T = Machine S W I} (release_mapping mapping)
  unfolding release_mapping gets
  release-Calm mapping =
      bind-Calm (ok-Calm (λ m. m.fs.branch) λ m. refl)
        λ branch. on_cache-Calm (unmap branch mapping)

-- Every offset has a spec.
abbrev pub Specified : List ℕ → VirtioFs → Type 0
Specified [] before = Unit {0}
Specified (offset ∷ offsets) before =
    (contains_key offset before.specs ≡ true) × Specified offsets before

module _ {S W I : Type 0} ⦃o : Ord I⦄ (store : ForkableNodeStore S W I) where
  show-Calm : (offset : ℕ) (mapping : DaxPageMapping) → Calm (show_mapping store offset mapping)
  unfolding show_mapping attempt modify pure
  show-Calm offset mapping =
      bind-Calm (ok-Calm (λ m. (mmap (Map.insert offset mapping.page) m).0) λ m. refl) by_mapped
    where
      by_mapped :
          (mapped : Result IoError (Unit {0}))
          → Calm {T = Machine S W I} (elim mapped [
            | err error ↦ release_mapping mapping >> fail (io error)
            | ok _ ↦ modify (put_fs (set_active offset mapping)) >> pure true
          ])
      by_mapped (ok u) = bind-Calm (ok-Calm (λ m. tt) λ m. refl) λ _. ok-Calm (λ m. true) λ m. refl
      by_mapped (err e) = bind-Calm (release-Calm mapping) λ _. fail-Calm e

  activate_offset-Calm :
      (window_len offset : ℕ) (spec : MappingSpec)
      → Calm (activate_offset store window_len offset spec)
  unfolding activate_offset gets pure
  activate_offset-Calm window_len offset spec = bind-Calm (guard-Calm _ einval) λ _.
      bind-Calm (ok-Calm (λ m. m.fs.branch) λ m. refl) λ branch.
        bind-Calm (on_cache-Calm (with_store_mut branch (store.len spec.inode))) λ len.
          ite-Calm (leb len spec.file_offset) (ok-Calm (λ m. false) λ m. refl) (
            bind-Calm
              (on_cache-Calm (map_page store branch spec.inode spec.file_offset (flags_of spec)))
              λ mapping. show-Calm offset mapping)

  after_offset_calm :
      (before : VirtioFs) (rest : List ℕ → Step (Machine S W I) Error (Unit {0})) (offset : ℕ)
      (activated : List ℕ) (r : Result Error Bool × Machine S W I)
      → ((activated : List ℕ) (m : Machine S W I)
          → Framed before m
          → (rest activated m).0 ≢ err panicked)
      → r.0 ≢ err panicked
      → Post (λ _. Like before) (Like before) r
      → (after_offset store rest offset activated r).0 ≢ err panicked
  unfolding after_offset
  after_offset_calm before rest offset activated (ok true, m) h n p = h (offset ∷ activated) m p
  after_offset_calm before rest offset activated (ok false, m) h n p = h activated m p
  after_offset_calm before rest offset activated (err panicked, m) h n p = λ e. n refl
  after_offset_calm before rest offset activated (err (Error.io e), m) h n p =
      λ e. absurd (ground arith)
  after_offset_calm before rest offset activated (err Error.backend, m) h n p =
      λ e. absurd (ground arith)
  after_offset_calm before rest offset activated (err Error.worker_panicked, m) h n p =
      λ e. absurd (ground arith)
  after_offset_calm before rest offset activated (err (Error.invalid_ram_size a), m) h n p =
      λ e. absurd (ground arith)
  after_offset_calm before rest offset activated (err (Error.ram_range a b), m) h n p =
      λ e. absurd (ground arith)
  after_offset_calm before rest offset activated (err (Error.invalid_dirty_page a b), m) h n p =
      λ e. absurd (ground arith)

  activate_loop_calm :
      (before : VirtioFs) (window_len : ℕ) (offsets activated : List ℕ) (m : Machine S W I)
      → Specified offsets before
      → Framed before m
      → (activate_loop store window_len offsets activated m).0 ≢ err panicked
  unfolding activate_loop
  activate_loop_calm before window_len [] activated m s p = λ e. absurd (ground arith)
  activate_loop_calm before window_len (offset ∷ offsets) activated m s p =
      elim (Option-cases (get offset m.fs.active)) [
        | inr (mapping, e) ↦
            rw (activate_loop, e) (activate_loop_calm before window_len offsets activated m s.1 p)
        | inl e ↦ elim (Option-cases (get offset m.fs.specs)) [
          | inl f ↦
              absurd (ground (arith, s.0, ap (λ specs. contains_key offset specs) p.same_specs))
          | inr (spec, f) ↦
              rw (activate_loop, e, f)
                (after_offset_calm before (activate_loop store window_len offsets) offset activated
                  (activate_offset store window_len offset spec m)
                  (λ activated n q. activate_loop_calm before window_len offsets activated n s.1 q)
                  ((activate_offset-Calm window_len offset spec).never m)
                  ((activate_offset-Framed store before window_len offset spec).run m p))
        ]
      ]

  -- The index of a spec that the loop reads is there.
  pub activate_offsets-ne-panicked :
      (before : VirtioFs) (offsets : List ℕ) (m : Machine S W I)
      → Specified offsets before
      → Framed before m
      → (activate_offsets store offsets m).0 ≢ err panicked
  unfolding activate_offsets pure ◌>>=◌ the_window
  activate_offsets-ne-panicked before [] m s p = λ e. absurd (ground arith)
  activate_offsets-ne-panicked before (offset ∷ offsets) m s p = by_window m.fs.window
    where
      by_window :
          (window : Option (ℕ × ℕ))
          → (continue {T = Machine S W I}
              (ok_or window (io enodev), m)
              (λ w. activate_loop store w.1 (offset ∷ offsets) [])).0
            ≢ err panicked
      by_window none = λ h. absurd (ground arith)
      by_window (some window) = activate_loop_calm before window.1 (offset ∷ offsets) [] m s p
