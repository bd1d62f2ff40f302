-- ===== src/Accounting/Laws.antt =====
-- The counts of the accounting, and the bound of its shared pages.
use minidox.Prelude.{
  ℕ, ◌+◌, ◌≤◌, ◌<◌, ◌≡◌, refl, ◌∙◌, ◌≢◌, false, none, List, [], ◌∷◌, if◌then◌else◌, ◌==◌, ◌||◌,
  arith, Bool-cases, inl, inr,
}
use minidox.Prelude.Order.{nat_ord}
use minidox.Prelude.Map.{Map, get, insert, remove, same_refl, get-insert, get-remove}
use minidox.Prelude.Map.Sorted.{IsSorted, get-Above, insert-IsSorted}
use minidox.Accounting.{
  Set, contains, set_extend, count_of, add_reference, add_references, count_branches, shared,
  entries, member, branches_showing,
}

pub contains-insert : (id j : ℕ) (s : Set) → contains j (insert id tt s) ≡ (j == id || contains j s)
unfolding contains
contains-insert id j s = ground (arith, get-insert id j tt s)

pub contains-nil : (j : ℕ) → contains j [] ≡ false
unfolding contains get
contains-nil j = refl

pub contains-set_extend :
    (ids : List ℕ) (s : Set) (j : ℕ)
    → contains j (set_extend ids s) ≡ (member j ids || contains j s)
unfolding set_extend
contains-set_extend [] s j = refl
contains-set_extend (id ∷ ids) s j =
    contains-set_extend ids (insert id tt s) j ∙ ground (arith, contains-insert id j s)

set_extend-IsSorted : (ids : List ℕ) (s : Set) → IsSorted s → IsSorted (set_extend ids s)
unfolding set_extend
set_extend-IsSorted [] s h = h
set_extend-IsSorted (id ∷ ids) s h =
    set_extend-IsSorted ids (insert id tt s) (insert-IsSorted id tt s h)

pub count_of-add_reference :
    (id j : ℕ) (m : Map ℕ ℕ)
    → count_of j (add_reference id m) ≡ (if j == id then 1 else 0) + count_of j m
unfolding count_of add_reference
count_of-add_reference id j m = ground (arith, get-insert id j (count_of id m + 1) m)

count_of-add_references :
    (s : Set) (m : Map ℕ ℕ) (j : ℕ)
    → IsSorted s
    → count_of j (add_references s m) ≡ (if contains j s then 1 else 0) + count_of j m
unfolding add_references contains get
count_of-add_references [] m j h = omega arith
count_of-add_references ((id, u) ∷ s) m j h =
    count_of-add_references s (add_reference id m) j h.1
    ∙ ground (arith, count_of-add_reference id j m, get-Above id s h.0)

-- Each identity is counted once for each branch that shows it, however often that branch does.
pub count_of-count_branches :
    (branches : List (List ℕ)) (m : Map ℕ ℕ) (j : ℕ)
    → count_of j (count_branches branches m) ≡ branches_showing j branches + count_of j m
unfolding count_branches
count_of-count_branches [] m j = omega arith
count_of-count_branches (ids ∷ branches) m j =
    count_of-count_branches branches (add_references (set_extend ids []) m) j
    ∙ ground (
      arith,
      count_of-add_references (set_extend ids []) m j (set_extend-IsSorted ids [] tt),
      contains-set_extend ids [] j,
      contains-nil j,
    )

-- Removing a key that stands in a map makes it shorter.
entries-remove_le : {V : Type 0} (k : ℕ) (m : Map ℕ V) → entries (remove k m) ≤ entries m
unfolding remove
entries-remove_le k [] = omega arith
entries-remove_le k ((j, w) ∷ m) = ground (arith, entries-remove_le k m)

entries-remove :
    {V : Type 0} (k : ℕ) (m : Map ℕ V) → get k m ≢ none → entries (remove k m) < entries m
unfolding get remove
entries-remove k [] e = absurd (e refl)
entries-remove k ((j, w) ∷ m) e = elim (Bool-cases (k == j)) [
  | inl hit ↦ rw hit (omega (arith, entries-remove_le k m))
  | inr miss ↦ rw miss (omega (arith, entries-remove k m (rw miss at e)))
]

-- A map with no more keys than another has no more entries.
pub entries-subset :
    {V W : Type 0} (m : Map ℕ V) (n : Map ℕ W)
    → IsSorted m
    → ((k : ℕ) → get k m ≢ none → get k n ≢ none)
    → entries m ≤ entries n
unfolding get
entries-subset [] n s h = omega arith
entries-subset ((k, v) ∷ m) n s h =
    let here : get k n ≢ none = h k (λ e. ground (arith, same_refl k)) in
    omega (
      arith,
      entries-remove k n here,
      entries-subset m (remove k n) s.1
          (λ j in_m e. ground (arith, get-remove k j n, h j, get-Above k m s.0)),
    )

pub shared-le-entries : (m : Map ℕ ℕ) → shared m ≤ entries m
unfolding shared
shared-le-entries [] = omega arith
shared-le-entries ((id, n) ∷ m) = ground (arith, shared-le-entries m)
