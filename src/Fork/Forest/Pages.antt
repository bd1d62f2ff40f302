-- ===== src/Fork/Forest/Pages.antt =====
-- The pages of a forest: identities below the counter, one page to an identity, whole contents.
use minidox.Prelude.{
  ℕ, zero, suc, ◌+◌, ◌-◌, ◌<◌, ◌≡◌, refl, ◌∙◌, sym, ap, ◌⊎◌, inl, inr, List, some, arith, length,
  u64_mod, slice, copy_from_slice, ◌/◌, ◌%◌, Bool-cases, ltb,
}
use minidox.Prelude.Order.{bytes_ord, nat_ord, pair_ord, same}
use minidox.Overlay
use minidox.Overlay.Laws.{find-write}
use minidox.Fork.{
  Page, PageBranch, FilePage, page_size, count_at, contents, write_page, write_loop, write,
}
use minidox.Fork.Bytes.Write.{write_loop_cases}
use minidox.Fork.Forest.{new}

-- `page` is shown by the branch.
pub data InBranch (b : PageBranch) (page : Page) : Type 0 where
  at : (key : FilePage) → Overlay.find b key ≡ some page → InBranch b page

-- The pages of a set, which the identities below `next` tell apart.
pub record Distinct (next : ℕ) (P : Page → Type 0) : Type 0 where
  pub below : (p : Page) → P p → p.id < next
  pub unique : (p q : Page) → P p → P q → p.id ≡ q.id → p ≡ q

-- The pages of a branch and of a set beside it.
abbrev pub With : (Page → Type 0) → PageBranch → Page → Type 0
With P b page = P page ⊎ InBranch b page

pub Distinct-sub :
    {next : ℕ} {P Q : Page → Type 0} → ((p : Page) → Q p → P p) → Distinct next P → Distinct next Q
Distinct-sub sub d = record {
  below = λ p h. d.below p (sub p h);
  unique = λ p q hp hq. d.unique p q (sub p hp) (sub q hq);
}

-- The page that a round of `write` makes.
abbrev new_page :
    (path : List ℕ) (offset end : ℕ) (bytes : List ℕ) (cursor id : ℕ) → PageBranch → Page
new_page path offset end bytes cursor id b = record {
  id = id;
  bytes =
      copy_from_slice (contents b (path, cursor / page_size)) (cursor % page_size)
        (slice bytes (cursor - offset) (count_at cursor end));
}

InBranch-write_page :
    (path : List ℕ) (offset end : ℕ) (bytes : List ℕ) (cursor id : ℕ) (b : PageBranch) (p : Page)
    → InBranch (write_page path offset end bytes cursor id b) p
    → InBranch b p ⊎ (p ≡ new_page path offset end bytes cursor id b)
unfolding write_page
InBranch-write_page path offset end bytes cursor id b p (at key e) =
    let written : FilePage = (path, cursor / page_size) in
    let new = new_page path offset end bytes cursor id b in
    elim (Bool-cases (same key written)) [
      | inl hit ↦ inr (cc (e, rw hit at (find-write written key new b)))
      | inr miss ↦ inl (at key (cc (e, rw miss at (find-write written key new b))))
    ]

-- A page of the set and the branch after a round was there before, or is the new one.
old_or_new :
    (P : Page → Type 0) (path : List ℕ) (offset end : ℕ) (bytes : List ℕ) (cursor id : ℕ)
    (b : PageBranch) (p : Page)
    → With P (write_page path offset end bytes cursor id b) p
    → With P b p ⊎ (p ≡ new_page path offset end bytes cursor id b)
old_or_new P path offset end bytes cursor id b p (inl h) = inl (inl h)
old_or_new P path offset end bytes cursor id b p (inr h) =
    elim (InBranch-write_page path offset end bytes cursor id b p h) [
      | inl old ↦ inl (inr old)
      | inr new ↦ inr new
    ]

-- One more page, with the next identity, keeps the identities apart.
Distinct-new :
    {id : ℕ} {P Q : Page → Type 0} (new : Page)
    → new.id ≡ id
    → ((p : Page) → Q p → P p ⊎ (p ≡ new))
    → Distinct id P
    → Distinct (id + 1) Q
Distinct-new {id} {P} {Q} new e split d = record {
  below = λ p h. below p (split p h);
  unique = λ p q hp hq. unique p q (split p hp) (split q hq);
}
  where
    below : (p : Page) → P p ⊎ (p ≡ new) → p.id < id + 1
    below p (inl h) = omega (arith, d.below p h)
    below p (inr n) = omega (arith, ap (λ (x : Page). x.id) n)

    unique : (p q : Page) → P p ⊎ (p ≡ new) → P q ⊎ (q ≡ new) → p.id ≡ q.id → p ≡ q
    unique p q (inl hp) (inl hq) same_id = d.unique p q hp hq same_id
    unique p q (inl hp) (inr nq) same_id =
        absurd (omega (arith, d.below p hp, ap (λ (x : Page). x.id) nq))
    unique p q (inr np) (inl hq) same_id =
        absurd (omega (arith, d.below q hq, ap (λ (x : Page). x.id) np))
    unique p q (inr np) (inr nq) same_id = np ∙ sym nq

write_page-Distinct :
    (P : Page → Type 0) (path : List ℕ) (offset end : ℕ) (bytes : List ℕ) (cursor id : ℕ)
    (b : PageBranch)
    → Distinct id (With P b)
    → Distinct (id + 1) (With P (write_page path offset end bytes cursor id b))
write_page-Distinct P path offset end bytes cursor id b d =
    Distinct-new (new_page path offset end bytes cursor id b) refl
      (old_or_new P path offset end bytes cursor id b) d

write_loop-Distinct :
    (P : Page → Type 0) (fuel : ℕ) (path : List ℕ) (offset end : ℕ) (bytes : List ℕ) (cursor id : ℕ)
    (b : PageBranch)
    → Distinct id (With P b)
    → Distinct
        (write_loop fuel path offset end bytes cursor id b).1
        (With P (write_loop fuel path offset end bytes cursor id b).2)
unfolding write_loop
write_loop-Distinct P zero path offset end bytes cursor id b d = d
write_loop-Distinct P (suc fuel) path offset end bytes cursor id b d =
    write_loop_cases (λ r. Distinct r.1 (With P r.2)) fuel path offset end bytes cursor id b
      (λ _. d) (λ _ _. d)
      (λ more room.
        write_loop-Distinct P fuel path offset end bytes (cursor + count_at cursor end) (id + 1)
          (write_page path offset end bytes cursor id b)
          (write_page-Distinct P path offset end bytes cursor id b d))

pub write-Distinct :
    (P : Page → Type 0) (next : ℕ) (path : List ℕ) (offset : ℕ) (bytes : List ℕ) (b : PageBranch)
    → Distinct next (With P b)
    → Distinct (write next path offset bytes b).1 (With P (write next path offset bytes b).2)
unfolding write
write-Distinct P next path offset bytes b d =
    elim (Bool-cases (ltb (offset + length bytes) u64_mod)) [
      | inl fits ↦
          rw (write, fits)
            (write_loop-Distinct P (length bytes) path offset (offset + length bytes) bytes offset
              next b d)
      | inr over ↦ rw (write, over) d
    ]
