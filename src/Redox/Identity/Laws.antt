-- ===== src/Redox/Identity/Laws.antt =====
-- Page identities after a fork, and what the durable copy of a branch lists.
use minidox.Prelude.{ℕ, ◌≡◌, refl, ◌∙◌, [], arith}
use minidox.Prelude.Order.{nat_ord, pair_ord}
use minidox.Prelude.Map.{get, or_else}
use minidox.Prelude.Map.Sorted.{IsSorted, get-extend}
use minidox.Redox.Identity.{
  PageKey, IdentityGeneration, first, over, file, page_version, generation_files, generation_pages,
  IdentityBranch, fork, object_of, page_identity, visible_files, visible_pages,
}

-- Neither side of a fork sees another page identity than the branch did before.
pub page_identity-fork :
    (b : IdentityBranch) (node offset : ℕ)
    → (page_identity (fork b).0 node offset ≡ page_identity b node offset)
      × (page_identity (fork b).1 node offset ≡ page_identity b node offset)
unfolding fork page_identity get
page_identity-fork b node offset = ground arith

-- Every layer of a branch is a sorted map.
abbrev pub LayeredIn : IdentityGeneration → Type 0
LayeredIn (first files pages) = IsSorted files × IsSorted pages
LayeredIn (over parent files pages) = LayeredIn parent × IsSorted files × IsSorted pages

pub record Layered (b : IdentityBranch) : Type 0 where
  pub base_sorted : LayeredIn b.base
  pub files_sorted : IsSorted b.files
  pub pages_sorted : IsSorted b.pages

get-generation_files :
    (g : IdentityGeneration) (node : ℕ)
    → LayeredIn g
    → get node (generation_files g []) ≡ file g node
unfolding generation_files file get
get-generation_files (first files pages) node s = get-extend files [] node s.0 ∙ ground arith
get-generation_files (over parent files pages) node s =
    get-extend files (generation_files parent []) node s.1
    ∙ rw (get-generation_files parent node s.0) refl

get-generation_pages :
    (g : IdentityGeneration) (key : PageKey)
    → LayeredIn g
    → get key (generation_pages g []) ≡ page_version g key
unfolding generation_pages page_version get
get-generation_pages (first files pages) key s = get-extend pages [] key s.1 ∙ ground arith
get-generation_pages (over parent files pages) key s =
    get-extend pages (generation_pages parent []) key s.2
    ∙ rw (get-generation_pages parent key s.0) refl

pub get-visible_files :
    (b : IdentityBranch) (node : ℕ) → Layered b → get node (visible_files b) ≡ object_of b node
unfolding visible_files object_of
get-visible_files b node s =
    get-extend b.files (generation_files b.base []) node s.files_sorted
    ∙ rw (get-generation_files b.base node s.base_sorted) refl

pub get-visible_pages :
    (b : IdentityBranch) (key : PageKey)
    → Layered b
    → get key (visible_pages b) ≡ or_else (get key b.pages) (page_version b.base key)
unfolding visible_pages
get-visible_pages b key s =
    get-extend b.pages (generation_pages b.base []) key s.pages_sorted
    ∙ rw (get-generation_pages b.base key s.base_sorted) refl
