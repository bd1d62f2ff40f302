-- ===== src/Cache/Table.antt =====
-- The table of cached pages: its invariant, and the steps of `map_page` on it.
use minidox.Prelude.{
  ℕ, ◌+◌, ◌≤◌, ◌<◌, ◌≡◌, ◌≢◌, ◌∙◌, Bool, false, none, some, arith, u64_mod, Option-cases, inl, inr,
}
use minidox.Prelude.Order.{Ord, nat_ord, pair_ord}
use minidox.Prelude.Map.{Map, get, get-insert, get-remove, contains_key, eq_of_same}
use minidox.Cache.Dirty.{PageKey}
use minidox.Cache.Host.{Host, bytes_of}
use minidox.Cache.Host.Laws.{SamePages, NewPage}
use minidox.Cache.Store.{ForkableNodeStore}
use minidox.Cache.State.{CacheBranch, State, find_branch}
use minidox.Cache.Mapping.{update_branch, put_page, drop_old}

-- Whether a branch has a page of its own under a key.
unfoldable pub owns : {S W I : Type 0} → (branch : ℕ) → PageKey → State S W I → Bool
owns branch key s = elim (find_branch branch s) [
  | none ↦ false
  | some b ↦ contains_key key b.exclusive_pages
]

-- Cached pages have been made, and each stands under one identity.
pub record PagesValid {S W I : Type 0} ⦃o : Ord I⦄ (s : State S W I) : Type 0 where
  pub below : (i : I) (page : ℕ) → get i s.pages ≡ some page → page < s.host.next_page_id
  pub unique : (i j : I) (page : ℕ) → get i s.pages ≡ some page → get j s.pages ≡ some page → i ≡ j

-- `n` more pages can be made, and the pages of `origin` have the bytes that they had.
pub record Table {S W I : Type 0} ⦃o : Ord I⦄ (origin : State S W I) (n : ℕ) (s : State S W I)
    : Type 0 where
  pub valid : PagesValid s
  pub room : s.host.next_page_id + n < u64_mod
  pub grown : origin.host.next_page_id ≤ s.host.next_page_id
  pub bytes :
      (page : ℕ)
      → page < origin.host.next_page_id
      → bytes_of page s.host ≡ bytes_of page origin.host

-- A page that was made since `origin` and stands under no identity yet.
pub record Fresh {S W I : Type 0} ⦃o : Ord I⦄ (origin : State S W I) (page : ℕ) (s : State S W I)
    : Type 0 where
  pub made : page < s.host.next_page_id
  pub since : origin.host.next_page_id ≤ page
  pub unbound : (i : I) → get i s.pages ≢ some page

module _ {S W I : Type 0} ⦃o : Ord I⦄ {origin : State S W I} where
  pub Table-less : (n m : ℕ) (s : State S W I) → m ≤ n → Table origin n s → Table origin m s
  Table-less n m s le p = record {
    valid = p.valid;
    room = omega (arith, p.room);
    grown = p.grown;
    bytes = p.bytes;
  }

  -- The table does not depend on the branches.
  pub Table-branches :
      (n : ℕ) (s : State S W I) (branches : Map ℕ (CacheBranch S)) (world : W)
      → Table origin n s
      → Table origin n (record s { branches = branches; world = world })
  Table-branches n s branches world p = record {
    valid = record { below = p.valid.below; unique = p.valid.unique };
    room = p.room;
    grown = p.grown;
    bytes = p.bytes;
  }

  pub update_branch-Table :
      (n branch : ℕ) (f : CacheBranch S → CacheBranch S) (s : State S W I)
      → Table origin n s
      → Table origin n (update_branch branch f s)
  unfolding update_branch
  update_branch-Table n branch f s p = elim (Option-cases (find_branch branch s)) [
    | inl e ↦ rw (update_branch, e) p
    | inr (b, e) ↦ rw (update_branch, e) (Table-branches n s _ s.world p)
  ]

  -- The host made a page.
  pub NewPage-Table :
      (n page : ℕ) (s : State S W I) (host : Host)
      → Table origin (n + 1) s
      → NewPage s.host page host
      → Table origin n (record s { host = host }) × Fresh origin page (record s { host = host })
  NewPage-Table n page s host p q =
      let room = p.room in
      let next : host.next_page_id ≡ s.host.next_page_id + 1 = q.next ∙ omega arith in
      (
        record {
          valid = record {
            below = λ i old e. omega (arith, p.valid.below i old e);
            unique = p.valid.unique;
          };
          room = omega arith;
          grown = omega (arith, p.grown);
          bytes = λ old lt.
              q.bytes old (λ e. absurd (omega (arith, q.named, p.grown))) ∙ p.bytes old lt;
        },
        record {
          made = omega (arith, q.named);
          since = omega (arith, q.named, p.grown);
          unbound = λ i e. absurd (omega (arith, q.named, p.valid.below i page e));
        },
      )

  pub SamePages-Table :
      (n : ℕ) (s : State S W I) (host : Host)
      → Table origin n s
      → SamePages s.host host
      → Table origin n (record s { host = host })
  SamePages-Table n s host p q =
      let next = q.next in
      record {
        valid = record {
          below = λ i old e. omega (arith, p.valid.below i old e);
          unique = p.valid.unique;
        };
        room = omega (arith, p.room);
        grown = omega (arith, p.grown);
        bytes = λ old lt. q.bytes old ∙ p.bytes old lt;
      }

module _ {S W I : Type 0} ⦃o : Ord I⦄ (store : ForkableNodeStore S W I) {origin : State S W I} where
  -- A fresh page comes under an identity.
  pub put_page-Table :
      (n : ℕ) (identity : I) (page : ℕ) (s : State S W I)
      → Table origin n s
      → Fresh origin page s
      → Table origin n (put_page store identity page s)
  put_page-Table n identity page s p f = record {
    valid = record {
      below = λ i old e.
          ground (arith, get-insert identity i page s.pages, p.valid.below i old, f.made);
      unique = λ i j old e d. ground (
        arith,
        get-insert identity i page s.pages,
        get-insert identity j page s.pages,
        p.valid.unique i j old,
        f.unbound i,
        f.unbound j,
        eq_of_same i identity,
        eq_of_same j identity,
      );
    };
    room = p.room;
    grown = p.grown;
    bytes = p.bytes;
  }

  pub drop_old-Table :
      (n : ℕ) (identity : I) (key : PageKey) (s : State S W I)
      → Table origin n s
      → Table origin n (drop_old store identity key s)
  drop_old-Table n identity key s p = record {
    valid = record {
      below = λ i old e. ground (arith, get-remove identity i s.pages, p.valid.below i old);
      unique = λ i j old e d. ground (
        arith,
        get-remove identity i s.pages,
        get-remove identity j s.pages,
        p.valid.unique i j old,
      );
    };
    room = p.room;
    grown = p.grown;
    bytes = p.bytes;
  }
