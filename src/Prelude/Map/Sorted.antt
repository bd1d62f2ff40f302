-- ===== src/Prelude/Map/Sorted.antt =====
-- The order of a map's entries: every operation keeps it, and keys stand once.
use Prim.Native.Nat.Ordering.{lt}
use mathlib.Core.Path.{◌≡◌, refl, ◌∙◌}
use mathlib.Core.List.{[], ◌∷◌}
use mathlib.Core.Option.{none}
use native.Mathlib.Omega.{arith}
use minidox.Prelude.Order.{Ord}
use minidox.Prelude.Map.{
  Map, get, insert, remove, or_insert, or_insert_all, extend, or_else, get-insert,
}

module _ {ℓ κ} {K : Type ℓ} {V : Type κ} ⦃o : Ord K⦄ where
  -- every key of the map comes after `k`
  abbrev pub Above : K → Map K V → Type 0
  Above k [] = Unit {0}
  Above k ((j, v) ∷ m) = (o.cmp k j ≡ lt) × Above k m

  abbrev pub IsSorted : Map K V → Type 0
  IsSorted [] = Unit {0}
  IsSorted ((k, v) ∷ m) = Above k m × IsSorted m

  Above-below : (k j : K) (m : Map K V) → o.cmp k j ≡ lt → Above j m → Above k m
  Above-below k j [] h a = tt
  Above-below k j ((i, w) ∷ m) h a = (o.lt_trans k j i h a.0, Above-below k j m h a.1)

  Above-insert :
      (i k : K) (v : V) (m : Map K V) → o.cmp i k ≡ lt → Above i m → Above i (insert k v m)
  unfolding insert
  Above-insert i k v [] h a = (h, tt)
  Above-insert i k v ((j, w) ∷ m) h a = ground (arith, Above-insert i k v m, o.eq_of_cmp k j)

  Above-remove : (i k : K) (m : Map K V) → Above i m → Above i (remove k m)
  unfolding remove
  Above-remove i k [] a = tt
  Above-remove i k ((j, w) ∷ m) a = ground (arith, Above-remove i k m)

  pub insert-IsSorted : (k : K) (v : V) (m : Map K V) → IsSorted m → IsSorted (insert k v m)
  unfolding insert
  insert-IsSorted k v [] s = (tt, tt)
  insert-IsSorted k v ((j, w) ∷ m) s = ground (
    arith,
    insert-IsSorted k v m,
    Above-insert j k v m,
    Above-below k j m,
    o.eq_of_cmp k j,
    o.lt_of_gt k j,
  )

  pub remove-IsSorted : (k : K) (m : Map K V) → IsSorted m → IsSorted (remove k m)
  unfolding remove
  remove-IsSorted k [] s = tt
  remove-IsSorted k ((j, w) ∷ m) s = ground (arith, remove-IsSorted k m, Above-remove j k m)

  pub or_insert-IsSorted : (k : K) (v : V) (m : Map K V) → IsSorted m → IsSorted (or_insert k v m)
  unfolding or_insert
  or_insert-IsSorted k v m s = ground (arith, insert-IsSorted k v m)

  pub or_insert_all-IsSorted : (n m : Map K V) → IsSorted m → IsSorted (or_insert_all n m)
  unfolding or_insert_all
  or_insert_all-IsSorted [] m s = s
  or_insert_all-IsSorted ((k, v) ∷ n) m s =
      or_insert_all-IsSorted n (or_insert k v m) (or_insert-IsSorted k v m s)

  pub extend-IsSorted : (n m : Map K V) → IsSorted m → IsSorted (extend n m)
  unfolding extend
  extend-IsSorted [] m s = s
  extend-IsSorted ((k, v) ∷ n) m s = extend-IsSorted n (insert k v m) (insert-IsSorted k v m s)

  pub get-Above : (k : K) (m : Map K V) → Above k m → get k m ≡ none
  unfolding get
  get-Above k [] a = refl
  get-Above k ((j, v) ∷ m) a = ground (arith, get-Above k m)

  -- `extend` by a sorted map overrides.
  pub get-extend :
      (n m : Map K V) (j : K) → IsSorted n → get j (extend n m) ≡ or_else (get j n) (get j m)
  unfolding get extend
  get-extend [] m j s = refl
  get-extend ((k, v) ∷ n) m j s =
      get-extend n (insert k v m) j s.1
      ∙ ground (arith, get-insert k j v m, get-Above k n s.0, o.eq_of_cmp j k)
