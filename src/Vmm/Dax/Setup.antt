-- ===== src/Vmm/Dax/Setup.antt =====
-- The specs of a window after `setup_mapping`, whether it succeeds or not.
use minidox.Prelude.{
  ℕ, ◌+◌, ◌-◌, ◌%◌, ◌≡◌, ◌≢◌, refl, sym, ◌∙◌, ap, Bool, true, false, Option, none, some, List,
  Result, ok, err, ok_or, checked_add, if◌then◌else◌, arith,
}
use minidox.Prelude.Order.{Ord, nat_ord}
use minidox.Prelude.Map.{Map, get}
use minidox.Prelude.Step.{Step}
use minidox.Prelude.Step.Hoare.{
  Hoare, Post, and_then, pure_lem, fail_lem, guard_lem, gets_lem, modify_lem, lift_lem, framed,
  weaken,
}
use minidox.Cache.{page_size}
use minidox.Cache.Store.{ForkableNodeStore}
use minidox.Vmm.{Error, io, panicked, catch}
use minidox.Vmm.Dax.{MappingSpec, VirtioFs, Machine, einval, put_fs}
use minidox.Vmm.Dax.Window.{
  rounds, page_offsets, add_specs, drop_specs, overlaps, filter_end, after_setup, setup_mapping,
}
use minidox.Vmm.Dax.Suspend.{among}
use minidox.Vmm.Dax.Balance.{Caught}
use minidox.Vmm.Dax.Frame.{Framed, Like, the_window-Framed, activate_offsets-Framed}
use minidox.Vmm.Dax.Panics.{activate_offsets-ne-panicked}
use minidox.Vmm.Dax.Specs.{
  among-page_offsets, spec_at, get-add_specs, get-drop_specs, overlaps-none, add_specs-Specified,
}

module _ {T : Type 0} where
  -- A call that does not panic is caught whatever it does.
  catch_calm :
      {A : Type 0} {P X Y : T → Type 0} {Q : A → T → Type 0} {m : Step T Error A}
      → Hoare P m Q X
      → ((t : T) → P t → (m t).0 ≢ err panicked)
      → Hoare P (catch m) (Caught Q X) Y
  unfolding catch
  catch_calm {A} {P} {X} {Y} {Q} {m} h n = record {
    run = λ t p. by_result (m t) (n t p) (h.run t p);
  }
    where
      by_result :
          (r : Result Error A × T)
          → r.0 ≢ err panicked
          → Post Q X r
          → Post (Caught Q X) Y (catch (λ _. r) r.1)
      by_result (ok a, t) n q = q
      by_result (err panicked, t) n x = absurd (n refl)
      by_result (err (Error.io e), t) n x = x
      by_result (err Error.backend, t) n x = x
      by_result (err Error.worker_panicked, t) n x = x
      by_result (err (Error.invalid_ram_size a), t) n x = x
      by_result (err (Error.ram_range a b), t) n x = x
      by_result (err (Error.invalid_dirty_page a b), t) n x = x

module _ {S W I : Type 0} ⦃o : Ord I⦄ (store : ForkableNodeStore S W I) (before : VirtioFs)
    (inode file_offset len : ℕ) (writable : Bool) (window_offset : ℕ) where
  abbrev offsets : List ℕ
  offsets = page_offsets (rounds len) window_offset

  abbrev spec : MappingSpec
  spec = record { inode = inode; file_offset = file_offset; writable = writable }

  abbrev specified : VirtioFs
  specified = record before { specs = add_specs (rounds len) window_offset spec before.specs }

  -- The specs are those of `before`, at each offset.
  abbrev SameSpecs : Machine S W I → Type 0
  SameSpecs m = (at : ℕ) → get at m.fs.specs ≡ get at before.specs

  abbrev pub with_range : ℕ → Option MappingSpec
  with_range at =
      if among at offsets then some (spec_at spec (at - window_offset)) else get at before.specs

  abbrev Added : Machine S W I → Type 0
  Added m = (at : ℕ) → get at m.fs.specs ≡ with_range at

  -- The range has no spec yet.
  record Clear : Type 0 where
    clear : (at : ℕ) → among at offsets ≡ true → get at before.specs ≡ none

  Framed-SameSpecs : (m : Machine S W I) → Framed before m → SameSpecs m
  Framed-SameSpecs m p at = ap (λ specs. get at specs) p.same_specs

  Framed-Added : (m : Machine S W I) → Framed specified m → Added m
  Framed-Added m p at =
      ap (λ specs. get at specs) p.same_specs
      ∙ get-add_specs (rounds len) window_offset spec before.specs at

  Framed-dropped :
      (m : Machine S W I) → Framed specified m → Clear → SameSpecs (put_fs (drop_specs offsets) m)
  Framed-dropped m p c at =
      get-drop_specs offsets m.fs at ∙ ground (arith, Framed-Added m p at, c.clear at)

  Clear-of :
      (end window_len : ℕ)
      → len % page_size ≡ 0
      → filter_end window_len (checked_add window_offset len) ≡ some end
      → overlaps window_offset end before.specs ≡ false
      → Clear
  Clear-of end window_len whole fits free =
      let e : end ≡ window_offset + len = ground arith in
      record {
        clear = λ at h.
            let r = among-page_offsets (rounds len) window_offset at h in
            overlaps-none window_offset end at before.specs free r.0 (omega arith);
      }

  -- Nothing has changed, and the test of the pages has let them through.
  abbrev Whole : Machine S W I → Type 0
  Whole m = Framed before m × (len % page_size ≡ 0)

  after_setup-Specs :
      (activated : Result Error (Unit {0}))
      → Hoare
          (λ m. Caught (λ _. Like specified) (Like specified) activated m × Clear)
          (after_setup {S = S} {W = W} {I = I} offsets activated)
          (λ _. Added)
          SameSpecs
  unfolding after_setup
  after_setup-Specs (ok u) = pure_lem _ λ m p. Framed-Added m p.0
  after_setup-Specs (err e) =
      and_then (modify_lem _ {Q = SameSpecs} λ m p. Framed-dropped m p.0 p.1)
        λ _. fail_lem _ λ m p. p

  -- The range lies in the window.
  abbrev Fits : (window_len end : ℕ) → Machine S W I → Type 0
  Fits window_len end m =
      Whole m × (filter_end window_len (checked_add window_offset len) ≡ some end)

  add_node :
      (node : ℕ) (m : Machine S W I)
      → node ≡ inode
      → Framed before m
      → Framed specified (
          put_fs
            (λ fs. record fs {
              specs = add_specs (rounds len) window_offset (record spec { inode = node }) fs.specs;
            })
            m)
  add_node node m e p = record {
    same_specs =
        ap (λ n. add_specs (rounds len) window_offset (record spec { inode = n }) m.fs.specs) e
        ∙ ap (add_specs (rounds len) window_offset spec) p.same_specs;
    same_window = p.same_window;
    same_branch = p.same_branch;
    same_lineage = p.same_lineage;
  }

  setup_mapping-Specs :
      Hoare
        (Like before)
        (setup_mapping store inode file_offset len writable window_offset)
        (λ _. Added)
        SameSpecs
  unfolding setup_mapping
  setup_mapping-Specs =
      and_then
        (guard_lem _ _ {Q = Whole} (λ m _ p. Framed-SameSpecs m p) λ m e p. (p, ground arith))
        λ _.
          and_then
            (weaken (framed (the_window-Framed before)) (λ _ m p. p) (λ m p. Framed-SameSpecs m p))
            λ window.
              and_then
                (lift_lem _ {Q = Fits window.1} (λ m end e p. (p, ok_of _ end e))
                  (λ m p. Framed-SameSpecs m p.0))
                λ end.
                  and_then
                    (lift_lem _ {Q = λ _. Fits window.1 end} (λ m a e p. p)
                      (λ m p. Framed-SameSpecs m p.0.0))
                    λ file_end.
                      and_then
                        (gets_lem _ {Q = λ specs m. Fits window.1 end m × (specs ≡ before.specs)}
                          λ m p. (p, p.0.0.same_specs))
                        λ specs.
                          and_then
                            (guard_lem _ _ {Q = λ m. Framed before m × Clear}
                              (λ m _ p. Framed-SameSpecs m p.0.0.0)
                              λ m free p. (
                                p.0.0.0,
                                Clear-of end window.1 p.0.0.1 p.0.1
                                    (ap (overlaps window_offset end) (sym p.1) ∙ free),
                              ))
                            λ _.
                              and_then
                                (lift_lem _
                                  {Q = λ node m. (Framed before m × Clear) × (node ≡ inode)}
                                  (λ m node e p. (p, ground arith)) (λ m p. Framed-SameSpecs m p.0))
                                λ node.
                                  and_then
                                    (modify_lem _ {Q = λ m. Framed specified m × Clear}
                                      λ m p. (add_node node m p.1 p.0.0, p.0.1))
                                    λ _.
                                      and_then
                                        (framed (
                                          catch_calm
                                            (activate_offsets-Framed store specified offsets)
                                            λ m p.
                                              activate_offsets-ne-panicked store specified offsets m
                                                (add_specs-Specified (rounds len) window_offset spec
                                                  before)
                                                p))
                                        after_setup-Specs
    where
      ok_of : (a : Option ℕ) (end : ℕ) → ok_or a (io einval) ≡ ok end → a ≡ some end
      ok_of none end e = absurd (ground arith)
      ok_of (some b) end e = ground arith

-- What `setup_mapping` is to leave at an offset of the table of ranges: on success each page of the
-- range has the page of the file at the same distance.
abbrev pub specs_after :
    Result Error (Unit {0})
    → (inode file_offset len : ℕ) (writable : Bool) (window_offset at : ℕ) → Map ℕ MappingSpec
    → Option MappingSpec
specs_after (ok u) inode file_offset len writable window_offset at specs =
    if among at (page_offsets (rounds len) window_offset)
    then some (record {
      inode = inode;
      file_offset = file_offset + (at - window_offset);
      writable = writable;
    })
    else get at specs
specs_after (err e) inode file_offset len writable window_offset at specs = get at specs

module _ {S W I : Type 0} ⦃o : Ord I⦄ (store : ForkableNodeStore S W I) where
  -- In the table of ranges, specs, a setup that succeeds sets the entry of each page of its range
  -- of the window to the inode and the file offset at the same distance, and leaves every other
  -- entry; one that fails leaves every entry as it was.
  pub specs-setup_mapping :
      (inode file_offset len : ℕ) (writable : Bool) (window_offset : ℕ) (m : Machine S W I) (at : ℕ)
      → get at (setup_mapping store inode file_offset len writable window_offset m).1.fs.specs
        ≡ specs_after
            (setup_mapping store inode file_offset len writable window_offset m).0
            inode
            file_offset
            len
            writable
            window_offset
            at
            m.fs.specs
  specs-setup_mapping inode file_offset len writable window_offset m at =
      by_result (setup_mapping store inode file_offset len writable window_offset m) (
        (setup_mapping-Specs store m.fs inode file_offset len writable window_offset).run m
          (record {
            same_specs = refl;
            same_window = refl;
            same_branch = refl;
            same_lineage = refl;
          }))
    where
      by_result :
          (r : Result Error (Unit {0}) × Machine S W I)
          → Post
              (λ _. Added store m.fs inode file_offset len writable window_offset)
              (SameSpecs store m.fs inode file_offset len writable window_offset)
              r
          → get at r.1.fs.specs
            ≡ specs_after r.0 inode file_offset len writable window_offset at m.fs.specs
      by_result (ok u, n) p = p at
      by_result (err e, n) p = p at
