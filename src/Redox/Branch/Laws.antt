-- ===== src/Redox/Branch/Laws.antt =====
-- Page identities of the store that a RedoxFS branch is, after a fork of it.
use minidox.Prelude.{ℕ, ◌≡◌, refl, ◌∙◌, Result, ok, err}
use minidox.Prelude.Step.{Step}
use minidox.Prelude.Step.Hoare.{Hoare, Post, and_then, pure_lem, lift_lem, ok_leaves}
use minidox.Io.{IoError}
use minidox.Redox.Identity
use minidox.Redox.Identity.{IdentityBranch, Counters}
use minidox.Redox.Identity.Laws.{page_identity-fork}
use minidox.Redox.Branch.{
  page_identity, FileSystem, RedoxBranch, on_fs, fork_identities, fork, store,
}

-- An identity branch names every page as `origin` does.
record Alike (origin b : IdentityBranch) : Type 0 where
  same_pages :
      (node offset : ℕ)
      → Identity.page_identity b node offset ≡ Identity.page_identity origin node offset

record BranchAlike {F : Type 0} (origin : IdentityBranch) (s : RedoxBranch F × Counters)
    : Type 0 where
  alike : Alike origin s.0.identities

-- The child as well as the source.
record BothAlike {F : Type 0} (origin child : IdentityBranch) (s : RedoxBranch F × Counters)
    : Type 0 where
  child_alike : Alike origin child
  source_alike : Alike origin s.0.identities

abbrev Any : {F : Type 0} → RedoxBranch F × Counters → Type 0
Any s = Unit {0}

module _ {F D : Type 0} (system : FileSystem F D) (origin : IdentityBranch) where
  on_fs_lem :
      {A : Type 0} (operation : Step F IoError A)
      → Hoare (BranchAlike origin) (on_fs system operation) (λ _. BranchAlike origin) Any
  unfolding on_fs
  on_fs_lem {A} operation = record { run = λ s p. by_result s p (operation s.0.fs) }
    where
      by_result :
          (s : RedoxBranch F × Counters)
          → BranchAlike origin s
          → (r : Result IoError A × F)
          → Post {T = RedoxBranch F × Counters} {A = A}
              (λ _. BranchAlike origin)
              Any
              (r.0, (record s.0 { fs = r.1 }, s.1))
      by_result s p (ok a, fs) = record { alike = p.alike }
      by_result s p (err e, fs) = tt

  fork_identities-BothAlike :
      Hoare (BranchAlike origin) (fork_identities system) (BothAlike origin) Any
  unfolding fork_identities
  fork_identities-BothAlike = record {
    run = λ s p. record {
      child_alike = record {
        same_pages = λ node offset.
            (page_identity-fork s.0.identities node offset).1 ∙ p.alike.same_pages node offset;
      };
      source_alike = record {
        same_pages = λ node offset.
            (page_identity-fork s.0.identities node offset).0 ∙ p.alike.same_pages node offset;
      };
    };
  }

  fork-BothAlike :
      Hoare (BranchAlike origin) (fork system) (λ child. BothAlike origin child.identities) Any
  unfolding fork
  fork-BothAlike = and_then (on_fs_lem system.fork_disk) λ child_disk.
      and_then fork_identities-BothAlike λ child_identities.
        and_then
          (lift_lem _ {Q = λ _. BothAlike origin child_identities} (λ s a e p. p) (λ s p. tt))
          λ child. pure_lem _ λ s p. p

module _ {F D : Type 0} (system : FileSystem F D) (b : RedoxBranch F) (c : Counters) where
  -- When the fork of a RedoxFS branch succeeds, the child and the source both give every page the
  -- identity that the branch gave it.
  pub page_identity-fork_store :
      (child : RedoxBranch F) (node offset : ℕ)
      → ((store system).fork_store (b, c)).0 ≡ ok child
      → (((store system).page_identity node offset
            (child, ((store system).fork_store (b, c)).1.1)).0
          ≡ ((store system).page_identity node offset (b, c)).0)
        × (((store system).page_identity node offset ((store system).fork_store (b, c)).1).0
            ≡ ((store system).page_identity node offset (b, c)).0)
  unfolding page_identity
  page_identity-fork_store child node offset done =
      let q =
        ok_leaves (fork-BothAlike system b.identities) (b, c) child
          (record { alike = record { same_pages = λ node offset. refl } }) done in
      (q.child_alike.same_pages node offset, q.source_alike.same_pages node offset)
