-- ===== src/Redox/Branch/Tests.antt =====
-- A branch over a file system that always works.
use minidox.Prelude.{ℕ, ◌≡◌, refl, ok, length, replicate, ◌∷◌, [], arith}
use minidox.Prelude.Step.{◌>>=◌, lift, pure}
use minidox.Redox.Identity
use minidox.Redox.Identity.{IdentityBranch, Counters, version_of}
use minidox.Redox.Branch.{FileSystem, RedoxBranch, on_fs, fork_identities, fork, store, write}
use minidox.Redox.Branch.Laws.{page_identity-fork_store}
use minidox.Redox.Branch.Versions.{version_of-write}

abbrev system : FileSystem ℕ ℕ
system = record {
  len = λ node s. (ok 8192, s);
  read_node = λ node offset count s. (ok (replicate count 7), s);
  write_node = λ node offset bytes s. (ok (length bytes), s);
  on_open_node = λ node s. (ok tt, s);
  on_close_node = λ node s. (ok tt, s);
  create_node = λ name size s. (ok 5, s);
  fork_disk = λ s. (ok s, s);
  open_disk = λ d. ok d;
}

abbrev counters : Counters
counters = record { next_object = 2; next_version = 1 }

abbrev branch : RedoxBranch ℕ
branch = record { fs = 0; identities = (Identity.create_file 5 Identity.new counters).0 }

abbrev forked_branch : RedoxBranch ℕ
forked_branch = record { fs = 0; identities = (Identity.fork branch.identities).1 }

forks : (fork system (branch, counters)).0 ≡ ok forked_branch
unfolding fork on_fs fork_identities ◌>>=◌ lift pure
forks = refl

page_identity-fork_store_example :
    (((store system).page_identity 5 4096
        (forked_branch, ((store system).fork_store (branch, counters)).1.1)).0
      ≡ ((store system).page_identity 5 4096 (branch, counters)).0)
    × (((store system).page_identity 5 4096 ((store system).fork_store (branch, counters)).1).0
        ≡ ((store system).page_identity 5 4096 (branch, counters)).0)
page_identity-fork_store_example =
    page_identity-fork_store system branch counters forked_branch 5 4096 forks

version_of-write_example :
    ((write system 5 4095 (1 ∷ 2 ∷ []) (branch, counters)).0 ≡ ok 2)
    × (version_of (write system 5 4095 (1 ∷ 2 ∷ []) (branch, counters)).1.0.identities (5, 1) ≡ 2)
version_of-write_example =
    version_of-write system branch counters 5 4095 (1 ∷ 2 ∷ []) 2 refl (ground arith) (ground arith)
      (ground arith) 5 1
