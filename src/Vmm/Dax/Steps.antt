-- ===== src/Vmm/Dax/Steps.antt =====
-- Rules for the calls that the window code makes of the cache and of the host.
use minidox.Prelude.{
  ℕ, ◌≡◌, true, Option, none, some, List, [], ◌∷◌, Result, ok, err, map_err, ok_or, arith,
}
use minidox.Prelude.Order.{nat_ord}
use minidox.Prelude.Map
use minidox.Prelude.Map.{get, contains_key, keys, get-insert}
use minidox.Prelude.Step.{Step, attempt}
use minidox.Prelude.Step.Hoare.{Hoare, Post}
use minidox.Io.{IoError}
use minidox.Cache.{CacheError}
use minidox.Cache.State.{State}
use minidox.Vmm.{Error, io}
use minidox.Vmm.Dax.{Machine, enodev, mmap, on_cache, the_window, cache_io_error}
use minidox.Vmm.Dax.Uses.{is_some}

module _ {S W I : Type 0} where
  -- What a call of the cache does to the cache tells what it does to the machine.
  pub on_cache_by :
      {A : Type 0} (operation : Step (State S W I) CacheError A)
      (Q : State S W I → A → State S W I → Type 0) (X : State S W I → State S W I → Type 0)
      {P Y : Machine S W I → Type 0} {R : A → Machine S W I → Type 0}
      → ((cache : State S W I) → Post (Q cache) (X cache) (operation cache))
      → ((m : Machine S W I) (a : A) (cache : State S W I)
          → P m
          → Q m.cache a cache
          → R a (record m { cache = cache }))
      → ((m : Machine S W I) (cache : State S W I)
          → P m
          → X m.cache cache
          → Y (record m { cache = cache }))
      → Hoare P (on_cache operation) R Y
  unfolding on_cache
  on_cache_by {A} operation Q X {P} {Y} {R} h k l = record {
    run = λ m p. by_result m p (operation m.cache) (h m.cache);
  }
    where
      by_result :
          (m : Machine S W I)
          → P m
          → (r : Result CacheError A × State S W I) → Post (Q m.cache) (X m.cache) r
          → Post R Y (map_err cache_io_error r.0, record m { cache = r.1 })
      by_result m p (ok a, cache) q = k m a cache p q
      by_result m p (err e, cache) x = l m cache p x

  abbrev pub On :
      (Q R : Machine S W I → Type 0) → Result IoError (Unit {0}) → Machine S W I → Type 0
  On Q R (ok u) = Q
  On Q R (err e) = R

  pub mmap_lem :
      {P Q R X : Machine S W I → Type 0} (change : Map.Map ℕ ℕ → Map.Map ℕ ℕ)
      → ((m : Machine S W I) (faults : List (Option IoError))
          → P m
          → Q (record m { shown = change m.shown; faults = faults }))
      → ((m : Machine S W I) (faults : List (Option IoError))
          → P m
          → R (record m { faults = faults }))
      → Hoare P (attempt {F = Error} (mmap change)) (On Q R) X
  unfolding mmap attempt
  mmap_lem {P} {Q} {R} {X} change k l = record { run = λ m p. by_faults m p m.faults }
    where
      by_faults :
          (m : Machine S W I)
          → P m
          → (faults : List (Option IoError))
          → Post (On Q R) X (attempt {F = Error} (mmap change) (record m { faults = faults }))
      by_faults m p [] = k m [] p
      by_faults m p (none ∷ faults) = k m faults p
      by_faults m p (some e ∷ faults) = l m faults p

  pub window_lem :
      {P X : Machine S W I → Type 0}
      → ((m : Machine S W I) → P m → is_some m.fs.window ≡ true)
      → Hoare P the_window (λ _. P) X
  unfolding the_window
  window_lem {P} {X} h = record { run = λ m p. by_window m p m.fs.window (h m p) }
    where
      by_window :
          (m : Machine S W I)
          → P m
          → (window : Option (ℕ × ℕ)) → is_some window ≡ true
          → Post (λ _. P) X (ok_or window (io enodev), m)
      by_window m p none e = absurd (ground arith)
      by_window m p (some window) e = p

  -- What depends on no more than the branch and the window is kept by a call of the cache.
  pub on_cache_lem :
      {A : Type 0} {P : Machine S W I → Type 0} (operation : Step (State S W I) CacheError A)
      → ((m : Machine S W I) (cache : State S W I) → P m → P (record m { cache = cache }))
      → Hoare P (on_cache operation) (λ _. P) P
  unfolding on_cache
  on_cache_lem {A} {P} operation keep = record { run = λ m p. by_result m p (operation m.cache) }
    where
      by_result :
          (m : Machine S W I)
          → P m
          → (r : Result CacheError A × State S W I)
          → Post {A = A} (λ _. P) P (map_err cache_io_error r.0, record m { cache = r.1 })
      by_result m p (ok a, cache) = keep m cache p
      by_result m p (err e, cache) = keep m cache p
