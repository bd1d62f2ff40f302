-- ===== src/Prelude/Lists.antt =====
-- Byte vectors: lists measured and indexed by native numbers, slices and `copy_from_slice`.
use Prim.Native.Nat.{ℕ, zero, suc, ◌+◌, ◌-◌, ◌≤◌, ◌<◌, min}
use mathlib.Core.Path.{◌≡◌, refl, ap, ap₂, ◌∙◌}
use mathlib.Core.Bool.{◌&&◌}
use mathlib.Core.List.{List, [], ◌∷◌, ◌++◌}
use mathlib.Core.Option.{Option, none, some}
use native.Mathlib.Omega.{arith}
use minidox.Prelude.Tests.{ltb, leb, if◌then◌else◌}

module _ {ℓ} {A : Type ℓ} where
  abbrev pub length : List A → ℕ
  length [] = 0
  length (x ∷ xs) = suc (length xs)

  abbrev pub get_elem? : List A → ℕ → Option A
  get_elem? [] i = none
  get_elem? (x ∷ xs) zero = some x
  get_elem? (x ∷ xs) (suc i) = get_elem? xs i

  abbrev pub get_or : List A → ℕ → A → A
  get_or [] i d = d
  get_or (x ∷ xs) zero d = x
  get_or (x ∷ xs) (suc i) d = get_or xs i d

  abbrev pub take : ℕ → List A → List A
  take zero xs = []
  take (suc n) [] = []
  take (suc n) (x ∷ xs) = x ∷ take n xs

  abbrev pub drop : ℕ → List A → List A
  drop zero xs = xs
  drop (suc n) [] = []
  drop (suc n) (x ∷ xs) = drop n xs

  abbrev pub replicate : ℕ → A → List A
  replicate zero a = []
  replicate (suc n) a = a ∷ replicate n a

  -- A write out of bounds changes nothing.
  abbrev pub set : List A → ℕ → A → List A
  set [] i v = []
  set (x ∷ xs) zero v = v ∷ xs
  set (x ∷ xs) (suc i) v = x ∷ set xs i v

  pub length-append : (xs ys : List A) → length (xs ++ ys) ≡ length xs + length ys
  length-append [] ys = omega arith
  length-append (x ∷ xs) ys = omega (arith, length-append xs ys)

  pub length-take : (n : ℕ) (xs : List A) → length (take n xs) ≡ min n (length xs)
  length-take zero xs = omega arith
  length-take (suc n) [] = omega arith
  length-take (suc n) (x ∷ xs) = omega (arith, length-take n xs)

  pub length-drop : (n : ℕ) (xs : List A) → length (drop n xs) ≡ length xs - n
  length-drop zero xs = omega arith
  length-drop (suc n) [] = omega arith
  length-drop (suc n) (x ∷ xs) = omega (arith, length-drop n xs)

  pub length-replicate : (n : ℕ) (a : A) → length (replicate n a) ≡ n
  length-replicate zero a = refl
  length-replicate (suc n) a = ap suc (length-replicate n a)

  pub get_or-append :
      (xs ys : List A) (i : ℕ) (d : A)
      → get_or (xs ++ ys) i d
        ≡ (if ltb i (length xs) then get_or xs i d else get_or ys (i - length xs) d)
  get_or-append [] ys i d = let e : i - 0 ≡ i = omega arith in rw e (ground arith)
  get_or-append (x ∷ xs) ys zero d = ground arith
  get_or-append (x ∷ xs) ys (suc i) d =
      let e : suc i - suc (length xs) ≡ i - length xs = omega arith in
      rw e (ground (arith, get_or-append xs ys i d))

  pub get_or-take :
      (n : ℕ) (xs : List A) (i : ℕ) (d : A) → i < n → get_or (take n xs) i d ≡ get_or xs i d
  get_or-take zero xs i d h = absurd (omega arith)
  get_or-take (suc n) [] i d h = refl
  get_or-take (suc n) (x ∷ xs) zero d h = refl
  get_or-take (suc n) (x ∷ xs) (suc i) d h = get_or-take n xs i d (omega arith)

  pub get_or-drop :
      (n : ℕ) (xs : List A) (i : ℕ) (d : A) → get_or (drop n xs) i d ≡ get_or xs (n + i) d
  get_or-drop zero xs i d = let e : 0 + i ≡ i = omega arith in rw e refl
  get_or-drop (suc n) [] i d = refl
  get_or-drop (suc n) (x ∷ xs) i d =
      let e : suc n + i ≡ suc (n + i) = omega arith in rw e (get_or-drop n xs i d)

  pub get_or-replicate : (n : ℕ) (a : A) (i : ℕ) → get_or (replicate n a) i a ≡ a
  get_or-replicate zero a i = refl
  get_or-replicate (suc n) a zero = refl
  get_or-replicate (suc n) a (suc i) = get_or-replicate n a i

  -- Lists of one length that agree at each index are equal.
  pub get_or_ext :
      (xs ys : List A) (d : A)
      → length xs ≡ length ys
      → ((i : ℕ) → i < length xs → get_or xs i d ≡ get_or ys i d)
      → xs ≡ ys
  get_or_ext [] [] d e h = refl
  get_or_ext [] (y ∷ ys) d e h = absurd (omega arith)
  get_or_ext (x ∷ xs) [] d e h = absurd (omega arith)
  get_or_ext (x ∷ xs) (y ∷ ys) d e h =
      ap₂ ◌∷◌ (h 0 (omega arith))
        (get_or_ext xs ys d (omega arith) (λ i lt. h (suc i) (omega arith)))

  -- `&xs[start..start + count]`, for a range inside `xs`.
  abbrev pub slice : List A → ℕ → ℕ → List A
  slice xs start count = take count (drop start xs)

  -- `xs[start..start + src.len()].copy_from_slice(src)`, for a range inside `xs`.
  unfoldable pub copy_from_slice : List A → ℕ → List A → List A
  copy_from_slice xs start src = take start xs ++ (src ++ drop (start + length src) xs)

  pub length-slice :
      (xs : List A) (start count : ℕ)
      → start + count ≤ length xs
      → length (slice xs start count) ≡ count
  length-slice xs start count h =
      omega (arith, length-take count (drop start xs), length-drop start xs)

  pub get_or-slice :
      (xs : List A) (start count i : ℕ) (d : A)
      → i < count
      → get_or (slice xs start count) i d ≡ get_or xs (start + i) d
  get_or-slice xs start count i d h =
      get_or-take count (drop start xs) i d h ∙ get_or-drop start xs i d

  pub length-copy_from_slice :
      (xs : List A) (start : ℕ) (src : List A)
      → start + length src ≤ length xs
      → length (copy_from_slice xs start src) ≡ length xs
  unfolding copy_from_slice
  length-copy_from_slice xs start src h =
      length-append (take start xs) (src ++ drop (start + length src) xs)
      ∙ omega (
        arith,
        length-append src (drop (start + length src) xs),
        length-take start xs,
        length-drop (start + length src) xs,
      )

-- A copy replaces the bytes of its range and no others.
pub get_or-copy_from_slice :
    (xs : List ℕ) (start : ℕ) (src : List ℕ) (i d : ℕ)
    → start + length src ≤ length xs
    → get_or (copy_from_slice xs start src) i d ≡ (
        if leb start i && ltb i (start + length src)
        then get_or src (i - start) d
        else get_or xs i d)
unfolding copy_from_slice
get_or-copy_from_slice xs start src i d h =
    let rest = drop (start + length src) xs in
    let front : length (take start xs) ≡ start = omega (arith, length-take start xs) in
    let below : i < start → get_or (take start xs) i d ≡ get_or xs i d = get_or-take start xs i d in
    let above : start + length src ≤ i → get_or rest (i - start - length src) d ≡ get_or xs i d =
      λ le.
        let e : start + length src + (i - start - length src) ≡ i = omega arith in
        get_or-drop (start + length src) xs (i - start - length src) d
        ∙ ap (λ k. get_or xs k d) e in
    get_or-append (take start xs) (src ++ rest) i d
    ∙ rw (front, get_or-append src rest (i - start) d) (ground arith)
