-- ===== src/Fork/Accounting/Laws.antt =====
-- What the accounting of a forest counts.
use minidox.Prelude.{
  ℕ, ◌+◌, ◌≤◌, ◌≡◌, refl, ◌∙◌, ◌≢◌, true, none, List, [], ◌∷◌, if◌then◌else◌, ◌==◌, ◌||◌, ◌&&◌, not,
  arith, Bool-cases, inl, inr, ◌⊎◌, map,
}
use minidox.Prelude.Order.{bytes_ord, nat_ord, pair_ord}
use minidox.Prelude.Map.{Map, get, insert, or_insert, or_insert_all, get-insert}
use minidox.Prelude.Map.Sorted.{IsSorted, insert-IsSorted}
use minidox.Overlay.{first, over, collect, visible}
use minidox.Accounting.{
  Set, contains, set_extend, count_of, add_reference, member, branches_showing,
}
use minidox.Accounting.Laws.{
  contains-insert, contains-set_extend, count_of-add_reference, entries-subset, shared-le-entries,
  contains-nil,
}
use minidox.Fork.{Page, FilePage, PageBranch, PageGeneration}
use minidox.Fork.Accounting.{
  page_ids, visible_pages, generation_ids, add_retained_page_ids, count_vm, account_loop,
  account_pages,
}

count_of-count_vm :
    (ids : List ℕ) (seen : Set) (m : Map ℕ ℕ) (j : ℕ)
    → count_of j (count_vm ids seen m)
      ≡ (if member j ids && not (contains j seen) then 1 else 0) + count_of j m
unfolding count_vm
count_of-count_vm [] seen m j = omega arith
count_of-count_vm (id ∷ ids) seen m j = ground (
  arith,
  count_of-count_vm ids seen m j,
  count_of-count_vm ids (insert id tt seen) (add_reference id m) j,
  contains-insert id j seen,
  count_of-add_reference id j m,
)

-- The identities of the pages that a branch shows.
abbrev pub shown_ids : PageBranch → List ℕ
shown_ids b = page_ids (visible_pages b)

-- The accounting loop raises the count of a page identity by the number of branches that show a
-- page of it.
pub count_of-account_loop :
    (branches : List PageBranch) (resident : Set) (m : Map ℕ ℕ) (j : ℕ)
    → count_of j (account_loop branches resident m).1
      ≡ branches_showing j (map shown_ids branches) + count_of j m
unfolding account_loop
count_of-account_loop [] resident m j = omega arith
count_of-account_loop (b ∷ branches) resident m j =
    count_of-account_loop branches (add_retained_page_ids b resident) (count_vm (shown_ids b) [] m)
      j
    ∙ ground (arith, count_of-count_vm (shown_ids b) [] m j, contains-nil j)

-- Every page that a branch shows is one that it retains.
member-insert :
    (k : FilePage) (p : Page) (m : Map FilePage Page) (j : ℕ)
    → member j (page_ids (insert k p m)) ≡ true
    → (j == p.id || member j (page_ids m)) ≡ true
unfolding insert page_ids
member-insert k p [] j h = ground arith
member-insert k p ((i, q) ∷ m) j h = ground (arith, member-insert k p m j)

member-or_insert_all :
    (n m : Map FilePage Page) (j : ℕ)
    → member j (page_ids (or_insert_all n m)) ≡ true
    → (member j (page_ids n) || member j (page_ids m)) ≡ true
unfolding or_insert_all or_insert page_ids
member-or_insert_all [] m j h = h
member-or_insert_all ((k, p) ∷ n) m j h =
    ground (arith, member-or_insert_all n (or_insert k p m) j h, member-insert k p m j)

contains-generation_ids :
    (g : PageGeneration) (s : Set) (j : ℕ)
    → contains j s ≡ true
    → contains j (generation_ids g s) ≡ true
unfolding generation_ids
contains-generation_ids (first n) s j h = ground (arith, contains-set_extend (page_ids n) s j)
contains-generation_ids (over g n) s j h =
    contains-generation_ids g (set_extend (page_ids n) s) j
      (ground (arith, contains-set_extend (page_ids n) s j))

retains-collect :
    (g : PageGeneration) (m : Map FilePage Page) (s : Set) (j : ℕ)
    → (member j (page_ids m) ≡ true → contains j s ≡ true)
    → member j (page_ids (collect g m)) ≡ true
    → contains j (generation_ids g s) ≡ true
unfolding collect generation_ids
retains-collect (first n) m s j h visible =
    ground (arith, contains-set_extend (page_ids n) s j, member-or_insert_all n m j visible)
retains-collect (over g n) m s j h visible =
    retains-collect g (or_insert_all n m) (set_extend (page_ids n) s) j
      (λ here.
        ground (arith, contains-set_extend (page_ids n) s j, member-or_insert_all n m j here))
      visible

retains-shown :
    (b : PageBranch) (s : Set) (j : ℕ)
    → member j (shown_ids b) ≡ true
    → contains j (add_retained_page_ids b s) ≡ true
unfolding visible_pages visible add_retained_page_ids
retains-shown b s j h =
    retains-collect b.base b.writes (set_extend (page_ids b.writes) s) j
      (λ here. ground (arith, contains-set_extend (page_ids b.writes) s j)) h

retains-before :
    (b : PageBranch) (s : Set) (j : ℕ)
    → contains j s ≡ true
    → contains j (add_retained_page_ids b s) ≡ true
unfolding add_retained_page_ids
retains-before b s j h =
    contains-generation_ids b.base (set_extend (page_ids b.writes) s) j
      (ground (arith, contains-set_extend (page_ids b.writes) s j))

-- Only the given identities get an entry.
get-count_vm :
    (ids : List ℕ) (seen : Set) (m : Map ℕ ℕ) (j : ℕ)
    → get j (count_vm ids seen m) ≢ none
    → (member j ids ≡ true) ⊎ (get j m ≢ none)
unfolding count_vm add_reference
get-count_vm [] seen m j h = inr h
get-count_vm (id ∷ ids) seen m j h = elim (Bool-cases (contains id seen)) [
  | inl old ↦ elim (get-count_vm ids seen m j (rw (old, count_vm) at h)) [
    | inl here ↦ inl (ground arith)
    | inr before ↦ inr before
  ]
  | inr new ↦
      elim (get-count_vm ids (insert id tt seen) (add_reference id m) j (rw (new, count_vm) at h)) [
        | inl here ↦ inl (ground arith)
        | inr before ↦ elim (Bool-cases (j == id)) [
          | inl hit ↦ inl (rw hit refl)
          | inr miss ↦ inr (rw (get-insert id j (count_of id m + 1) m, miss) at before)
        ]
      ]
]

count_vm-IsSorted :
    (ids : List ℕ) (seen : Set) (m : Map ℕ ℕ) → IsSorted m → IsSorted (count_vm ids seen m)
unfolding count_vm add_reference
count_vm-IsSorted [] seen m s = s
count_vm-IsSorted (id ∷ ids) seen m s = elim (Bool-cases (contains id seen)) [
  | inl old ↦ rw (old, count_vm) (count_vm-IsSorted ids seen m s)
  | inr new ↦
      rw (new, count_vm)
        (count_vm-IsSorted ids (insert id tt seen) (add_reference id m)
          (insert-IsSorted id (count_of id m + 1) m s))
]

-- What the loop keeps: every counted page is resident.
record Counted (resident : Set) (references : Map ℕ ℕ) : Type 0 where
  sorted : IsSorted references
  retained : (j : ℕ) → get j references ≢ none → contains j resident ≡ true

account_loop-Counted :
    (branches : List PageBranch) (resident : Set) (m : Map ℕ ℕ)
    → Counted resident m
    → Counted (account_loop branches resident m).0 (account_loop branches resident m).1
unfolding account_loop
account_loop-Counted [] resident m c = c
account_loop-Counted (b ∷ branches) resident m c =
    account_loop-Counted branches (add_retained_page_ids b resident) (count_vm (shown_ids b) [] m)
      (record {
        sorted = count_vm-IsSorted (shown_ids b) [] m c.sorted;
        retained = λ j h. elim (get-count_vm (shown_ids b) [] m j h) [
          | inl here ↦ retains-shown b resident j here
          | inr before ↦ retains-before b resident j (c.retained j before)
        ];
      })

Counted-nil : Counted [] []
unfolding get
Counted-nil = record { sorted = tt; retained = λ j h. absurd (h refl) }

-- The accounting never reports more shared pages than resident ones.
pub shared-le-resident :
    (branches : List PageBranch)
    → (account_pages branches).shared_pages ≤ (account_pages branches).resident_pages
unfolding account_pages contains
shared-le-resident branches =
    let c = account_loop-Counted branches [] [] Counted-nil in
    let (resident, references) = account_loop branches [] [] in
    omega (
      arith,
      shared-le-entries references,
      entries-subset references resident c.sorted (λ j h e. ground (arith, c.retained j h)),
    )
