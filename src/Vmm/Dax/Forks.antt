-- ===== src/Vmm/Dax/Forks.antt =====
-- What a fork of a branch and a restore of its snapshot carry over.
use minidox.Prelude.{ℕ, ◌≡◌, refl, ◌∙◌, Option, none, some, List, [], ◌∷◌, Result, ok, err}
use minidox.Prelude.Order.{Ord, nat_ord}
use minidox.Prelude.Map
use minidox.Prelude.Map.{Map, get, extend, or_else, keys}
use minidox.Prelude.Map.Sorted.{IsSorted, get-extend}
use minidox.Prelude.Step.{Step}
use minidox.Prelude.Step.Hoare.{
  Hoare, Post, and_then, pure_lem, gets_lem, lift_lem, weaken, framed, ok_leaves,
}
use minidox.Cache.{CacheError}
use minidox.Cache.Store.{ForkableNodeStore}
use minidox.Cache.State.{State}
use minidox.Cache.Branches
use minidox.Vmm.{Error, with_backend}
use minidox.Vmm.Dax.{MappingSpec, VirtioFs, Machine, on_cache}
use minidox.Vmm.Dax.Steps.{on_cache_lem, on_cache_by}
use minidox.Vmm.Dax.Frame.{Framed, Like, framed_as, suspend_mappings-Framed, resume_mappings-Framed}
use minidox.Vmm.Dax.Balance.{Caught, catch_lem}
use minidox.Vmm.Dax.Suspend.{Any}
use minidox.Vmm.Dax.Branch.{durable_specs, collect_specs, inodes_of, open_all, from_parts, fork}

collect-durable :
    (specs into : Map ℕ MappingSpec) → collect_specs (durable_specs specs) into ≡ extend specs into
unfolding collect_specs durable_specs extend
collect-durable [] into = refl
collect-durable ((offset, spec) ∷ specs) into = collect-durable specs (Map.insert offset spec into)

or_else-none : {A : Type 0} (a : Option A) → or_else a none ≡ a
or_else-none none = refl
or_else-none (some a) = refl

-- The mapped ranges that a restore collects from a snapshot are those that the snapshot was made
-- of, at every offset, if these are sorted.
pub collect_specs-durable_specs :
    (specs : Map ℕ MappingSpec)
    → IsSorted specs
    → (offset : ℕ) → get offset (collect_specs (durable_specs specs) []) ≡ get offset specs
unfolding get
collect_specs-durable_specs specs s offset =
    rw (collect-durable specs []) (get-extend specs [] offset s ∙ or_else-none (get offset specs))

module _ {T : Type 0} where
  pub with_backend_lem :
      {A : Type 0} {P X : T → Type 0} {Q : A → T → Type 0} {m : Step T Error A}
      → Hoare P m Q X
      → Hoare P (with_backend m) Q X
  unfolding with_backend
  with_backend_lem {A} {P} {X} {Q} {m} h = record { run = λ t p. by_result (m t) (h.run t p) }
    where
      by_result : (r : Result Error A × T) → Post Q X r → Post Q X (with_backend (λ _. r) r.1)
      by_result (ok a, t) q = q
      by_result (err e, t) x = x

-- A branch with these specs that no window shows.
pub record IsNew (lineage : ℕ) (specs : Map ℕ MappingSpec) (fs : VirtioFs) : Type 0 where
  pub lineage_of : fs.lineage ≡ lineage
  pub specs_of : fs.specs ≡ specs
  pub no_window : fs.window ≡ none
  pub nothing_active : fs.active ≡ []

module _ {S W I : Type 0} ⦃o : Ord I⦄ (store : ForkableNodeStore S W I) where
  abbrev AnyState : State S W I → Type 0
  AnyState s = Unit {0}

  open_all-Any :
      (branch : ℕ) (inodes : List ℕ)
      → Hoare AnyState (open_all store branch inodes) (λ _. AnyState) AnyState
  open_all-Any branch inodes = record { run = λ s p. by_result (open_all store branch inodes s) }
    where
      by_result : (r : Result CacheError (Unit {0}) × State S W I) → Post (λ _. AnyState) AnyState r
      by_result (ok u, s) = tt
      by_result (err e, s) = tt

  from_parts-IsNew :
      (lineage branch : ℕ) (specs : Map ℕ MappingSpec)
      → Hoare AnyState
          (from_parts store lineage branch specs)
          (λ fs _. IsNew lineage specs fs)
          AnyState
  unfolding from_parts
  from_parts-IsNew lineage branch specs =
      and_then (open_all-Any branch (keys (inodes_of specs))) λ _. pure_lem _ λ s p. record {
        lineage_of = refl;
        specs_of = refl;
        no_window = refl;
        nothing_active = refl;
      }

  -- A copy of the branch has its names and specs.
  record IsCopy (before fs : VirtioFs) : Type 0 where
    copied_specs : fs.specs ≡ before.specs
    copied_lineage : fs.lineage ≡ before.lineage

  Any-error :
      {A : Type 0} {P X : Machine S W I → Type 0} {Q : A → Machine S W I → Type 0}
      {m : Step (Machine S W I) Error A}
      → Hoare P m Q X
      → Hoare P m Q Any
  Any-error h = weaken h (λ _ m q. q) (λ m x. tt)

  caught :
      (before : VirtioFs) {A : Type 0} (r : Result Error A) (m : Machine S W I)
      → Caught (λ _. Like before) (Like before) r m
      → Framed before m
  caught before (ok a) m p = p
  caught before (err e) m p = p

  -- The last step of `fork`.
  child-IsNew :
      (before fs : VirtioFs) (branch : ℕ)
      → Hoare
          (λ m. Framed before m × IsCopy before fs)
          (with_backend (on_cache (from_parts store fs.lineage branch fs.specs)))
          (λ child m. IsNew before.lineage before.specs child × Framed before m)
          Any
  child-IsNew before fs branch = with_backend_lem (
      on_cache_by (from_parts store fs.lineage branch fs.specs)
        (λ _ child _. IsNew fs.lineage fs.specs child) (λ _ _. Unit {0})
        (λ cache. (from_parts-IsNew fs.lineage branch fs.specs).run cache tt)
        (λ m child cache p q. (
          record {
            lineage_of = q.lineage_of ∙ p.1.copied_lineage;
            specs_of = q.specs_of ∙ p.1.copied_specs;
            no_window = q.no_window;
            nothing_active = q.nothing_active;
          },
          framed_as before m _ refl refl refl refl p.0,
        ))
        (λ m cache p q. tt))

  fork-IsNew :
      (before : VirtioFs)
      → Hoare
          (Like before)
          (fork store)
          (λ child m. IsNew before.lineage before.specs child × Framed before m)
          Any
  unfolding fork
  fork-IsNew before = and_then (Any-error (with_backend_lem (suspend_mappings-Framed before))) λ _.
      and_then (gets_lem _ {Q = λ _. Like before} λ m p. p) λ branch.
        and_then
          (Any-error (
            catch_lem (
              with_backend_lem (
                on_cache_lem (Branches.fork store branch)
                  λ m cache p. framed_as before m _ refl refl refl refl p))))
          λ child.
            and_then
              (gets_lem _ {Q = λ fs m. Framed before m × IsCopy before fs} λ m p.
                let q = caught before child m p in
                (q, record { copied_specs = q.same_specs; copied_lineage = q.same_lineage }))
              λ fs.
                and_then
                  (Any-error
                    (framed (catch_lem (with_backend_lem (resume_mappings-Framed store before)))))
                  λ resumed.
                    and_then
                      (lift_lem child {Q = λ _ m. Framed before m × IsCopy before fs}
                        (λ m a e p. (caught before resumed m p.0, p.1)) (λ m p. tt))
                      λ child_branch.
                        and_then
                          (lift_lem resumed {Q = λ _ m. Framed before m × IsCopy before fs}
                            (λ m a e p. p) (λ m p. tt))
                          λ _. child-IsNew before fs child_branch

  -- The child of a successful fork of a filesystem branch has the lineage and the mapped ranges
  -- of its source, no window and nothing active, and the source keeps its ranges, window, branch
  -- and lineage.
  pub specs-fork :
      (m : Machine S W I) (child : VirtioFs)
      → (fork store m).0 ≡ ok child
      → IsNew m.fs.lineage m.fs.specs child × Framed m.fs (fork store m).1
  specs-fork m child done =
      ok_leaves (fork-IsNew m.fs) m child
        (record { same_specs = refl; same_window = refl; same_branch = refl; same_lineage = refl })
        done
