-- ===== src/Cache/Steps.antt =====
-- What the small steps of `SharedPageCache` keep: lookups of a branch, methods of its store, and
-- host operations.
use minidox.Prelude.{
  ℕ, ◌≡◌, refl, Option, none, some, Result, ok, err, ok_or, map_err, Option-cases, inl, inr,
}
use minidox.Prelude.Order.{nat_ord}
use minidox.Prelude.Step.{Step}
use minidox.Prelude.Step.Hoare.{Hoare, Post}
use minidox.Io.{IoError}
use minidox.Cache.{CacheError, io}
use minidox.Cache.Host.{Host}
use minidox.Cache.State.{
  CacheBranch, State, find_branch, branch_mut, put_branch, with_store_mut, on_host,
}

module _ {S W I : Type 0} where
  -- The state after a method of a branch's store.
  abbrev pub with_store : ℕ → CacheBranch S → S → W → State S W I → State S W I
  with_store branch b store world s = record (put_branch branch (record b { store = store }) s) {
    world = world;
  }

  -- Methods of the stores keep `P`, and host operations do.
  pub record StoresKeep (P : State S W I → Type 0) : Type 0 where
    pub stores :
        (s : State S W I) (branch : ℕ) (b : CacheBranch S) (store : S) (world : W)
        → find_branch branch s ≡ some b
        → P s
        → P (with_store branch b store world s)

  pub record HostKeeps (P : State S W I → Type 0) : Type 0 where
    pub hosts : (s : State S W I) (host : Host) → P s → P (record s { host = host })

  module _ {P : State S W I → Type 0} where
    pub branch_mut_lem :
        (branch : ℕ) → Hoare P (branch_mut branch) (λ b s. P s × (find_branch branch s ≡ some b)) P
    unfolding branch_mut
    branch_mut_lem branch = record { run = λ s p. found s p (find_branch branch s) refl }
      where
        found :
            (s : State S W I)
            → P s
            → (o : Option (CacheBranch S)) → find_branch branch s ≡ o
            → Post
                (λ b s. P s × (find_branch branch s ≡ some b))
                P
                (ok_or o (CacheError.branch_not_found branch), s)
        found s p none e = p
        found s p (some b) e = (p, e)

    pub with_store_mut_lem :
        {A : Type 0} (branch : ℕ) (operation : Step (S × W) IoError A)
        → StoresKeep P
        → Hoare P (with_store_mut branch operation) (λ _. P) P
    unfolding with_store_mut
    with_store_mut_lem {A} branch operation k = record {
      run = λ s p. elim (Option-cases (find_branch branch s)) [
        | inl e ↦ rw (with_store_mut, e) p
        | inr (b, e) ↦ rw (with_store_mut, e) (by_result s p b e (operation (b.store, s.world)))
      ];
    }
      where
        by_result :
            (s : State S W I)
            → P s
            → (b : CacheBranch S) → find_branch branch s ≡ some b
            → (r : Result IoError A × (S × W))
            → Post {A = A} (λ _. P) P (map_err io r.0, with_store branch b r.1.0 r.1.1 s)
        by_result s p b e (ok a, (store, world)) = k.stores s branch b store world e p
        by_result s p b e (err x, (store, world)) = k.stores s branch b store world e p

    pub on_host_lem :
        {A : Type 0} (operation : Step Host IoError A)
        → HostKeeps P
        → Hoare P (on_host operation) (λ _. P) P
    unfolding on_host
    on_host_lem {A} operation k = record { run = λ s p. by_result s p (operation s.host) }
      where
        by_result :
            (s : State S W I)
            → P s
            → (r : Result IoError A × Host)
            → Post {A = A} (λ _. P) P (map_err io r.0, record s { host = r.1 })
        by_result s p (ok a, host) = k.hosts s host p
        by_result s p (err e, host) = k.hosts s host p

  -- What a host operation does to the host tells what it does to the cache.
  pub on_host_by :
      {A : Type 0} {operation : Step Host IoError A} {Q : Host → A → Host → Type 0}
      {X : Host → Host → Type 0} {P Y : State S W I → Type 0} {R : A → State S W I → Type 0}
      → ((before : Host) → Hoare (λ h. h ≡ before) operation (Q before) (X before))
      → ((s : State S W I) (a : A) (host : Host)
          → P s
          → Q s.host a host
          → R a (record s { host = host }))
      → ((s : State S W I) (host : Host) → P s → X s.host host → Y (record s { host = host }))
      → Hoare P (on_host operation) R Y
  unfolding on_host
  on_host_by {A} {operation} {Q} {X} {P} {Y} {R} h k l = record {
    run = λ s p. by_result s p (operation s.host) ((h s.host).run s.host refl);
  }
    where
      by_result :
          (s : State S W I)
          → P s
          → (r : Result IoError A × Host) → Post (Q s.host) (X s.host) r
          → Post R Y (map_err io r.0, record s { host = r.1 })
      by_result s p (ok a, host) q = k s a host p q
      by_result s p (err e, host) x = l s host p x
