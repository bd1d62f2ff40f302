-- ===== src/Prelude/Order.antt =====
-- What the ordered maps ask of their keys.
use Prim.Native.Nat.{ℕ, compare, Ordering}
use Prim.Native.Nat.Ordering.{lt, eq, gt}
use mathlib.Core.Path.{◌≡◌, refl}
use mathlib.Core.List.{List, [], ◌∷◌}
use mathlib.Core.Bool.{Bool, true, false}
use native.Mathlib.Omega.{arith}

-- A total order of the keys, whose `cmp` answers `eq` on equal keys alone.
pub record Ord {ℓ} (Key : Type ℓ) : Type ℓ where
  pub cmp : Key → Key → Ordering
  pub lt_trans : (x y z : Key) → cmp x y ≡ lt → cmp y z ≡ lt → cmp x z ≡ lt
  pub lt_of_gt : (x y : Key) → cmp x y ≡ gt → cmp y x ≡ lt
  pub cmp_refl : (x : Key) → cmp x x ≡ eq
  pub eq_of_cmp : (x y : Key) → cmp x y ≡ eq → x ≡ y

-- `a == b` on keys.
abbrev pub same {ℓ} : {K : Type ℓ} ⦃o : Ord K⦄ → K → K → Bool
same ⦃o⦄ a b = elim (o.cmp a b) [ eq ↦ true | _ ↦ false ]

pub nat_refl : (a : ℕ) → compare a a ≡ eq
nat_refl a = ground arith

pub nat_eq : (a b : ℕ) → compare a b ≡ eq → a ≡ b
nat_eq a b h = ground arith

pub nat_flip : (a b : ℕ) → compare a b ≡ gt → compare b a ≡ lt
nat_flip a b h = ground arith

pub nat_trans : (a b c : ℕ) → compare a b ≡ lt → compare b c ≡ lt → compare a c ≡ lt
nat_trans a b c h k = ground arith

instance abbrev pub nat_ord : Ord ℕ
nat_ord = record {
  cmp = compare;
  cmp_refl = nat_refl;
  eq_of_cmp = nat_eq;
  lt_of_gt = nat_flip;
  lt_trans = nat_trans;
}

-- The second result counts where the first is `eq`.
abbrev pub then_with : Ordering → Ordering → Ordering
then_with eq b = b
then_with a _ = a

module _ {ℓ κ} {A : Type ℓ} {B : Type κ} ⦃a : Ord A⦄ ⦃b : Ord B⦄ where
  abbrev pub pair_cmp : A × B → A × B → Ordering
  pair_cmp x y = then_with (a.cmp x.0 y.0) (b.cmp x.1 y.1)

  pub pair_refl : (x : A × B) → pair_cmp x x ≡ eq
  pair_refl x = ground (arith, a.cmp_refl x.0, b.cmp_refl x.1)

  pub pair_eq : (x y : A × B) → pair_cmp x y ≡ eq → x ≡ y
  pair_eq x y h = ground (arith, a.eq_of_cmp x.0 y.0, b.eq_of_cmp x.1 y.1)

  pub pair_flip : (x y : A × B) → pair_cmp x y ≡ gt → pair_cmp y x ≡ lt
  pair_flip x y h =
      ground (arith, a.eq_of_cmp x.0 y.0, a.cmp_refl x.0, a.lt_of_gt x.0 y.0, b.lt_of_gt x.1 y.1)

  pub pair_trans : (x y z : A × B) → pair_cmp x y ≡ lt → pair_cmp y z ≡ lt → pair_cmp x z ≡ lt
  pair_trans x y z h k = ground (
    arith,
    a.eq_of_cmp x.0 y.0,
    a.eq_of_cmp y.0 z.0,
    a.lt_trans x.0 y.0 z.0,
    b.lt_trans x.1 y.1 z.1,
  )

  instance abbrev pub pair_ord : Ord (A × B)
  pair_ord = record {
    cmp = pair_cmp;
    cmp_refl = pair_refl;
    eq_of_cmp = pair_eq;
    lt_of_gt = pair_flip;
    lt_trans = pair_trans;
  }

-- Strings compare as their bytes do.
abbrev pub list_cmp : List ℕ → List ℕ → Ordering
list_cmp [] [] = eq
list_cmp [] (y ∷ ys) = lt
list_cmp (x ∷ xs) [] = gt
list_cmp (x ∷ xs) (y ∷ ys) = then_with (compare x y) (list_cmp xs ys)

pub list_refl : (xs : List ℕ) → list_cmp xs xs ≡ eq
list_refl [] = refl
list_refl (x ∷ xs) = ground (arith, list_refl xs)

pub list_eq : (xs ys : List ℕ) → list_cmp xs ys ≡ eq → xs ≡ ys
list_eq [] [] h = refl
list_eq [] (y ∷ ys) h = ground arith
list_eq (x ∷ xs) [] h = ground arith
list_eq (x ∷ xs) (y ∷ ys) h = ground (arith, list_eq xs ys)

pub list_flip : (xs ys : List ℕ) → list_cmp xs ys ≡ gt → list_cmp ys xs ≡ lt
list_flip [] [] h = ground arith
list_flip [] (y ∷ ys) h = ground arith
list_flip (x ∷ xs) [] h = refl
list_flip (x ∷ xs) (y ∷ ys) h = ground (arith, list_flip xs ys)

pub list_trans :
    (xs ys zs : List ℕ) → list_cmp xs ys ≡ lt → list_cmp ys zs ≡ lt → list_cmp xs zs ≡ lt
list_trans [] [] zs h k = ground arith
list_trans [] (y ∷ ys) [] h k = ground arith
list_trans [] (y ∷ ys) (z ∷ zs) h k = refl
list_trans (x ∷ xs) [] zs h k = ground arith
list_trans (x ∷ xs) (y ∷ ys) [] h k = ground arith
list_trans (x ∷ xs) (y ∷ ys) (z ∷ zs) h k = ground (arith, list_trans xs ys zs)

instance abbrev pub bytes_ord : Ord (List ℕ)
bytes_ord = record {
  cmp = list_cmp;
  cmp_refl = list_refl;
  eq_of_cmp = list_eq;
  lt_of_gt = list_flip;
  lt_trans = list_trans;
}
