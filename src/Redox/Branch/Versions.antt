-- ===== src/Redox/Branch/Versions.antt =====
-- Page versions of a RedoxFS branch after a write to it.
use minidox.Prelude.{
  ℕ, ◌+◌, ◌-◌, ◌/◌, ◌<◌, ◌≡◌, refl, false, ◌&&◌, u64_mod, ok, List, if◌then◌else◌, ◌==◌, leb, arith,
  lt→ltb,
}
use minidox.Prelude.Step.{◌>>=◌, pure}
use minidox.Redox.Identity.{IdentityBranch, Counters, page_size, record_write, version_of}
use minidox.Redox.Identity.Versions.{version_of-record_write}
use minidox.Redox.Branch.{FileSystem, RedoxBranch, on_fs, on_identities, write}

record_write_ok :
    (node offset len : ℕ) (b : IdentityBranch) (c : Counters)
    → 0 < len
    → offset + len < u64_mod
    → (record_write node offset len b c).0 ≡ ok tt
unfolding record_write
record_write_ok node offset len b c some_bytes fits =
    let e : (len == 0) ≡ false = ground arith in rw (record_write, e, lt→ltb _ _ fits) refl

module _ {F D : Type 0} (system : FileSystem F D) (b : RedoxBranch F) (c : Counters) where
  -- What `write` leaves, once the file system has written.
  write_after :
      (node offset : ℕ) (bytes : List ℕ) (written : ℕ)
      → (system.write_node node offset bytes b.fs).0 ≡ ok written
      → (record_write node offset written b.identities c).0 ≡ ok tt
      → (((write system node offset bytes (b, c)).0 ≡ ok written)
          × ((write system node offset bytes (b, c)).1.0.identities
              ≡ (record_write node offset written b.identities c).1))
  unfolding write on_fs on_identities ◌>>=◌ pure
  write_after node offset bytes written wrote recorded =
      (rw (wrote, recorded) refl, rw (wrote, recorded) refl)

  -- When the file system wrote some bytes, all below 2^64 and with room in the version counter,
  -- the write of a RedoxFS branch answers their number, gives the pages of the bytes that were
  -- written the next versions in order, and leaves the version of every other page.
  pub version_of-write :
      (node offset : ℕ) (bytes : List ℕ) (written : ℕ)
      → (system.write_node node offset bytes b.fs).0 ≡ ok written
      → 0 < written
      → offset + written < u64_mod
      → c.next_version + offset + written < u64_mod
      → (n p : ℕ)
      → (((write system node offset bytes (b, c)).0 ≡ ok written)
          × (version_of (write system node offset bytes (b, c)).1.0.identities (n, p) ≡ (
              if n == node
                && (leb (offset / page_size) p && leb p ((offset + written - 1) / page_size))
              then c.next_version + (p - offset / page_size)
              else version_of b.identities (n, p))))
  version_of-write node offset bytes written wrote some_bytes fits room n p =
      let after =
        write_after node offset bytes written wrote
          (record_write_ok node offset written b.identities c some_bytes fits) in
      (
        after.0,
        rw (after.1)
            (version_of-record_write node offset written b.identities c some_bytes fits room n p),
      )
