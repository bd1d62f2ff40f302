-- ===== src/Accounting.antt =====
-- Page accounting as every crate does it: a `BTreeMap` from a page identity to the number of
-- branches that show it, `*references.entry(id).or_default() += 1`, and the number of counts
-- above one. Used for crates/minidox-fork, minidox-cache and minidox-redoxfs.
pub mod Laws
use minidox.Prelude.{
  ℕ, suc, ◌+◌, Bool, true, false, Option, none, some, List, [], ◌∷◌, if◌then◌else◌, ltb, ◌==◌, ◌||◌,
}
use minidox.Prelude.Order.{nat_ord}
use minidox.Prelude.Map
use minidox.Prelude.Map.{Map, get, insert, keys}

abbrev pub Set : Type 0
Set = Map ℕ (Unit {0})

unfoldable pub contains : ℕ → Set → Bool
unfolding get
contains id s = elim (get id s) [ none ↦ false | some _ ↦ true ]

-- `set.extend(ids)`, and with the empty set `ids.collect()`.
unfoldable pub set_extend : List ℕ → Set → Set
unfolding insert
set_extend [] s = s
set_extend (id ∷ ids) s = set_extend ids (insert id tt s)

-- The count of an identity, 0 where it has no entry.
unfoldable pub count_of : ℕ → Map ℕ ℕ → ℕ
unfolding get
count_of id references = elim (get id references) [ none ↦ 0 | some n ↦ n ]

unfoldable pub add_reference : ℕ → Map ℕ ℕ → Map ℕ ℕ
unfolding count_of insert
add_reference id references = insert id (count_of id references + 1) references

-- `for id in branch_ids { add_reference }`
unfoldable pub add_references : Set → Map ℕ ℕ → Map ℕ ℕ
unfolding add_reference
add_references [] references = references
add_references ((id, u) ∷ ids) references = add_references ids (add_reference id references)

-- One round for each branch, given by the identities that it shows.
unfoldable pub count_branches : List (List ℕ) → Map ℕ ℕ → Map ℕ ℕ
unfolding add_references set_extend
count_branches [] references = references
count_branches (ids ∷ branches) references =
    count_branches branches (add_references (set_extend ids []) references)

-- `references.values().filter(|&&count| count > 1).count()`
unfoldable pub shared : Map ℕ ℕ → ℕ
shared [] = 0
shared ((id, n) ∷ references) = (if ltb 1 n then 1 else 0) + shared references

abbrev pub entries {ℓ κ} : {K : Type ℓ} {V : Type κ} → Map K V → ℕ
entries [] = 0
entries (e ∷ m) = suc (entries m)

-- The specification: how many of the branches show an identity.
abbrev pub member : ℕ → List ℕ → Bool
member id [] = false
member id (x ∷ xs) = id == x || member id xs

abbrev pub branches_showing : ℕ → List (List ℕ) → ℕ
branches_showing id [] = 0
branches_showing id (ids ∷ branches) =
    (if member id ids then 1 else 0) + branches_showing id branches
