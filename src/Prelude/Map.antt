-- ===== src/Prelude/Map.antt =====
-- `BTreeMap` and `BTreeSet`: association lists whose entries stand in the order of the keys.
pub mod Sorted
use Prim.Native.Nat.Ordering.{lt, eq, gt}
use mathlib.Core.Path.{◌≡◌, refl, ◌∙◌}
use mathlib.Core.Bool.{Bool, true, false}
use mathlib.Core.List.{List, [], ◌∷◌}
use mathlib.Core.Option.{Option, none, some}
use native.Mathlib.Omega.{arith}
use minidox.Prelude.Tests.{if◌then◌else◌}
use minidox.Prelude.Order.{Ord, same}

abbrev pub Map {ℓ κ} : Type ℓ → Type κ → Type (ℓ ⊔ κ)
Map K V = List (K × V)

module _ {ℓ} {K : Type ℓ} ⦃o : Ord K⦄ where
  pub same_refl : (k : K) → same k k ≡ true
  same_refl k = ground (arith, o.cmp_refl k)

  pub eq_of_same : (k j : K) → same k j ≡ true → k ≡ j
  eq_of_same k j h = ground (arith, o.eq_of_cmp k j)

-- `a.or(b)` on options: the first that is `some`.
abbrev pub or_else {ℓ} : {V : Type ℓ} → Option V → Option V → Option V
or_else none b = b
or_else (some a) b = some a

module _ {ℓ κ} {K : Type ℓ} {V : Type κ} where
  abbrev pub is_empty : Map K V → Bool
  is_empty [] = true
  is_empty (e ∷ m) = false

  unfoldable pub keys : Map K V → List K
  keys [] = []
  keys ((k, v) ∷ m) = k ∷ keys m

  unfoldable pub values : Map K V → List V
  values [] = []
  values ((k, v) ∷ m) = v ∷ values m

module _ {ℓ κ} {K : Type ℓ} {V : Type κ} ⦃o : Ord K⦄ where
  unfoldable pub get : K → Map K V → Option V
  get k [] = none
  get k ((j, v) ∷ m) = if same k j then some v else get k m

  unfoldable pub insert : K → V → Map K V → Map K V
  insert k v [] = (k, v) ∷ []
  insert k v ((j, w) ∷ m) = elim (o.cmp k j) [
    | lt ↦ (k, v) ∷ (j, w) ∷ m
    | eq ↦ (k, v) ∷ m
    | gt ↦ (j, w) ∷ insert k v m
  ]

  unfoldable pub remove : K → Map K V → Map K V
  remove k [] = []
  remove k ((j, w) ∷ m) = if same k j then remove k m else (j, w) ∷ remove k m

  -- `map.entry(k).or_insert(v)`.
  unfoldable pub or_insert : K → V → Map K V → Map K V
  unfolding get insert
  or_insert k v m = elim (get k m) [ none ↦ insert k v m | some _ ↦ m ]

  -- A loop of `entry(k).or_insert(v)` over the entries of `n`, into `m`.
  unfoldable pub or_insert_all : Map K V → Map K V → Map K V
  or_insert_all [] m = m
  or_insert_all ((k, v) ∷ n) m = or_insert_all n (or_insert k v m)

  -- `m.extend(n)`.
  unfoldable pub extend : Map K V → Map K V → Map K V
  extend [] m = m
  extend ((k, v) ∷ n) m = extend n (insert k v m)

  abbrev pub contains_key : K → Map K V → Bool
  contains_key k m = elim (get k m) [ none ↦ false | some _ ↦ true ]

  pub get-insert :
      (k j : K) (v : V) (m : Map K V)
      → get j (insert k v m) ≡ (if same j k then some v else get j m)
  unfolding get insert
  get-insert k j v [] = refl
  get-insert k j v ((i, w) ∷ m) =
      ground
        (arith, get-insert k j v m, o.eq_of_cmp k i, o.eq_of_cmp j i, o.eq_of_cmp j k, o.cmp_refl j)

  pub get-remove :
      (k j : K) (m : Map K V) → get j (remove k m) ≡ (if same j k then none else get j m)
  unfolding get remove
  get-remove k j [] = ground arith
  get-remove k j ((i, w) ∷ m) =
      ground
        (arith, get-remove k j m, o.eq_of_cmp k i, o.eq_of_cmp j i, o.eq_of_cmp j k, o.cmp_refl j)

  pub get-or_insert :
      (k j : K) (v : V) (m : Map K V)
      → get j (or_insert k v m) ≡ or_else (get j m) (if same j k then some v else none)
  unfolding or_insert
  get-or_insert k j v m = ground (arith, get-insert k j v m, o.eq_of_cmp j k)

  pub get-or_insert_all :
      (n m : Map K V) (j : K) → get j (or_insert_all n m) ≡ or_else (get j m) (get j n)
  unfolding or_insert_all get
  get-or_insert_all [] m j = ground arith
  get-or_insert_all ((k, v) ∷ n) m j =
      get-or_insert_all n (or_insert k v m) j ∙ ground (arith, get-or_insert k j v m)

-- `BTreeSet`.
abbrev pub Set {ℓ} : Type ℓ → Type ℓ
Set K = Map K (Unit {0})
