-- ===== src/Vmm/Dax/Balance.antt =====
-- The operations of the guest on its DAX window: what holds of the window after each.
use minidox.Prelude.{
  ℕ, ◌≡◌, refl, Bool, true, false, Option, none, some, List, [], ◌∷◌, Result, ok, err, arith,
  Option-cases, inl, inr, length,
}
use minidox.Prelude.Order.{Ord, nat_ord}
use minidox.Prelude.Map.{get, keys}
use minidox.Prelude.Step.{Step}
use minidox.Prelude.Step.Hoare.{
  Hoare, Post, weaken, strengthen, both, and_then, pure_lem, fail_lem, guard_lem, gets_lem,
  modify_lem, lift_lem, ite_lem, ok_leaves,
}
use minidox.Cache.Store.{ForkableNodeStore}
use minidox.Vmm.{Error, panicked, catch}
use minidox.Vmm.Dax.{Machine, put_fs}
use minidox.Vmm.Dax.Mapping.{drop_spec}
use minidox.Vmm.Dax.Uses.{is_some, HasRoom, Valid}
use minidox.Vmm.Dax.Remove.{
  Sound, Valid-specs, remove_offsets-Valid, suspend_mappings-Valid, the_window_keeps, either,
}
use minidox.Vmm.Dax.Activate.{activate_offsets-Valid, resume_mappings-Valid}
use minidox.Vmm.Dax.Suspend.{suspend_mappings-Idle, Any}
use minidox.Vmm.Dax.Window.{
  page_offsets, rounds, drop_specs, put_window, is_window, remove_mapping, detach_dax_window,
  after_setup, after_attach, setup_mapping, attach_dax_window,
}

module _ {T : Type 0} where
  abbrev pub Caught : {A : Type 0} → (A → T → Type 0) → (T → Type 0) → Result Error A → T → Type 0
  Caught Q X (ok a) = Q a
  Caught Q X (err e) = X

  pub catch_lem :
      {A : Type 0} {P X : T → Type 0} {Q : A → T → Type 0} {m : Step T Error A}
      → Hoare P m Q X
      → Hoare P (catch m) (Caught Q X) X
  unfolding catch
  catch_lem {A} {P} {X} {Q} {m} h = record { run = λ t p. by_result (m t) (h.run t p) }
    where
      by_result : (r : Result Error A × T) → Post Q X r → Post (Caught Q X) X (catch (λ _. r) r.1)
      by_result (ok a, t) q = q
      by_result (err panicked, t) x = x
      by_result (err (Error.io e), t) x = x
      by_result (err Error.backend, t) x = x
      by_result (err Error.worker_panicked, t) x = x
      by_result (err (Error.invalid_ram_size n), t) x = x
      by_result (err (Error.ram_range a b), t) x = x
      by_result (err (Error.invalid_dirty_page a b), t) x = x

module _ {S W I : Type 0} (branch : ℕ) (base : ℕ → ℕ → ℕ) where
  drop_specs-Valid :
      (offsets : List ℕ) (m : Machine S W I)
      → Valid branch base m
      → Valid branch base (put_fs (drop_specs offsets) m)
  unfolding drop_specs
  drop_specs-Valid [] m p = p
  drop_specs-Valid (offset ∷ offsets) m p =
      drop_specs-Valid offsets (put_fs (drop_spec offset) m) (Valid-specs branch base m _ p)

  remove_mapping-Keeps :
      (window_offset len : ℕ)
      → Hoare {T = Machine S W I}
          (Sound branch base)
          (remove_mapping window_offset len)
          (λ _. Sound branch base)
          (Sound branch base)
  unfolding remove_mapping
  remove_mapping-Keeps window_offset len =
      and_then (guard_lem _ _ {Q = Sound branch base} (λ m _ p. p) λ m _ p. p)
        λ _. remove_offsets-Valid branch base _ true

  -- A removal of mappings, failing or not, keeps the window valid.
  pub remove_mapping-Valid :
      (window_offset len : ℕ) (m : Machine S W I)
      → Valid branch base m
      → Valid branch base (remove_mapping window_offset len m).1
  remove_mapping-Valid window_offset len m p =
      either branch base (remove_mapping window_offset len m)
        ((remove_mapping-Keeps window_offset len).run m p)

  -- Nothing is mapped.
  abbrev pub Idle : Machine S W I → Type 0
  Idle m = (at : ℕ) → get at m.fs.active ≡ none

  put_window-Valid :
      (window : Option (ℕ × ℕ)) (m : Machine S W I)
      → Idle m
      → Valid branch base m
      → Valid branch base (put_fs (put_window window) m)
  put_window-Valid window m idle p = record {
    of_branch = p.of_branch;
    counts = p.counts;
    own = p.own;
    shows = p.shows;
    attached = λ offset mapping e. absurd (ground (arith, idle offset));
    sorted = p.sorted;
  }

  detach_dax_window-Keeps :
      (host_address len : ℕ)
      → Hoare {T = Machine S W I}
          (Sound branch base)
          (detach_dax_window host_address len)
          (λ _. Sound branch base)
          (Sound branch base)
  unfolding detach_dax_window get
  detach_dax_window-Keeps host_address len =
      and_then (gets_lem _ {Q = λ _. Sound branch base} λ m p. p) λ window.
        ite_lem (is_window host_address len window)
          (and_then
            (strengthen (both (suspend_mappings-Valid branch base) suspend_mappings-Idle)
              λ m p. (p, tt))
            λ _. modify_lem _ λ m p. put_window-Valid none m (λ at. rw (p.1) refl) p.0)
          (pure_lem _ λ m p. p)

  -- A detachment of the window, failing or not, keeps the window valid.
  pub detach_dax_window-Valid :
      (host_address len : ℕ) (m : Machine S W I)
      → Valid branch base m
      → Valid branch base (detach_dax_window host_address len m).1
  detach_dax_window-Valid host_address len m p =
      either branch base (detach_dax_window host_address len m)
        ((detach_dax_window-Keeps host_address len).run m p)

module _ {S W I : Type 0} ⦃o : Ord I⦄ (store : ForkableNodeStore S W I) (branch : ℕ)
    (base : ℕ → ℕ → ℕ) where
  abbrev Roomy : (mappings : ℕ) → Machine S W I → Type 0
  Roomy mappings m = Valid branch base m × HasRoom branch mappings m

  setup_mapping-Keeps :
      (inode file_offset len : ℕ) (writable : Bool) (window_offset : ℕ)
      → Hoare
          (Roomy (length (page_offsets (rounds len) window_offset)))
          (setup_mapping store inode file_offset len writable window_offset)
          (λ _. Sound branch base)
          (Sound branch base)
  unfolding setup_mapping
  setup_mapping-Keeps inode file_offset len writable window_offset =
      and_then (guard_lem _ _ {Q = Roomy mappings} (λ m _ p. p.0) λ m _ p. p) λ _.
        and_then (both the_window_keeps (the_window_keeps {P = HasRoom branch mappings})) λ window.
          and_then (lift_lem _ {Q = λ _. Roomy mappings} (λ m a e p. p) (λ m p. p.0)) λ end.
            and_then (lift_lem _ {Q = λ _. Roomy mappings} (λ m a e p. p) (λ m p. p.0)) λ file_end.
              and_then (gets_lem _ {Q = λ _. Roomy mappings} λ m p. p) λ specs.
                and_then (guard_lem _ _ {Q = Roomy mappings} (λ m _ p. p.0) λ m _ p. p) λ _.
                  and_then (lift_lem _ {Q = λ _. Roomy mappings} (λ m a e p. p) (λ m p. p.0))
                    λ node.
                      and_then
                        (modify_lem _ {Q = Roomy mappings}
                          λ m p. (Valid-specs branch base m _ p.0, p.1))
                        λ _.
                          and_then (catch_lem (activate_offsets-Valid store branch base _))
                            (after _)
    where
      mappings : ℕ
      mappings = length (page_offsets (rounds len) window_offset)

      after :
          (inserted : List ℕ) (activated : Result Error (Unit {0}))
          → Hoare
              (Caught (λ _. Sound branch base) (Sound branch base) activated)
              (after_setup {S = S} {W = W} {I = I} inserted activated)
              (λ _. Sound branch base)
              (Sound branch base)
      after inserted (ok u) = pure_lem _ λ m p. p
      after inserted (err e) =
          and_then
            (modify_lem _ {Q = Sound branch base} λ m p. drop_specs-Valid branch base inserted m p)
            λ _. fail_lem _ λ m p. p

  pub setup_mapping-Valid :
      (inode file_offset len : ℕ) (writable : Bool) (window_offset : ℕ) (m : Machine S W I)
      → Valid branch base m
      → HasRoom branch (length (page_offsets (rounds len) window_offset)) m
      → Valid branch base (setup_mapping store inode file_offset len writable window_offset m).1
  setup_mapping-Valid inode file_offset len writable window_offset m p room =
      either branch base (setup_mapping store inode file_offset len writable window_offset m)
        ((setup_mapping-Keeps inode file_offset len writable window_offset).run m (p, room))

  attach_dax_window-Keeps :
      (host_address len : ℕ)
      → Hoare
          (λ m. Roomy (length (keys m.fs.specs)) m)
          (attach_dax_window store host_address len)
          (λ _. Sound branch base)
          Any
  unfolding attach_dax_window get
  attach_dax_window-Keeps host_address len =
      and_then
        (gets_lem _ {Q = λ window m. Roomy (length (keys m.fs.specs)) m × (m.fs.window ≡ window)}
          λ m p. (p, refl))
        λ window.
          and_then
            (guard_lem _ _
              {Q = λ m. Roomy (length (keys m.fs.specs)) m × (is_some m.fs.window ≡ false)}
              (λ m _ p. tt) λ m e p. (p.0, ground (arith, p.1)))
            λ _.
              and_then
                (modify_lem _ {Q = λ m. Roomy (length (keys m.fs.specs)) m}
                  λ m p. (fresh m p.0.0 p.1, p.0.1))
                λ _.
                  and_then
                    (weaken (catch_lem (resume_mappings-Valid store branch base)) (λ _ m p. p)
                      (λ m p. tt))
                    after
    where
      fresh :
          (m : Machine S W I)
          → Valid branch base m
          → is_some m.fs.window ≡ false
          → Valid branch base
              (record (put_fs (put_window (some (host_address, len))) m) { shown = [] })
      fresh m p none_yet = record {
        of_branch = p.of_branch;
        counts = p.counts;
        own = p.own;
        shows = λ offset. elim (Option-cases (get offset m.fs.active)) [
          | inl e ↦ rw e refl
          | inr (mapping, e) ↦ absurd (ground (arith, p.attached offset mapping e))
        ];
        attached = λ offset mapping e. refl;
        sorted = p.sorted;
      }

      after :
          (resumed : Result Error (Unit {0}))
          → Hoare
              (Caught (λ _. Sound branch base) (Sound branch base) resumed)
              (after_attach {S = S} {W = W} {I = I} resumed)
              (λ _. Sound branch base)
              Any
      after (ok u) = pure_lem _ λ m p. p
      after (err e) = and_then (modify_lem _ {Q = Any} λ m p. tt) λ _. fail_lem _ λ m p. tt

  -- An attachment of a window that succeeds keeps it valid.
  pub attach_dax_window-Valid :
      (host_address len : ℕ) (m : Machine S W I)
      → Valid branch base m
      → HasRoom branch (length (keys m.fs.specs)) m
      → (attach_dax_window store host_address len m).0 ≡ ok tt
      → Valid branch base (attach_dax_window store host_address len m).1
  attach_dax_window-Valid host_address len m p room done =
      ok_leaves (attach_dax_window-Keeps host_address len) m tt (p, room) done
