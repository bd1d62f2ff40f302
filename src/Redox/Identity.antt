-- ===== src/Redox/Identity.antt =====
-- crates/minidox-redoxfs/src/branching.rs: which file object and which page version a branch sees.
-- The process-wide counters are passed along.
pub mod Laws
pub mod Versions
use minidox.Prelude.{
  ℕ, zero, suc, ◌+◌, ◌-◌, ◌/◌, Bool, true, false, ◌&&◌, Option, none, some, List, [], ◌∷◌, Result,
  ok, err, ok_or, ◌>>=◌, checked_add, next_id, if◌then◌else◌, ◌==◌, map,
}
use minidox.Prelude.Order.{nat_ord, pair_ord}
use minidox.Prelude.Map.{Map, get, insert, extend, is_empty, or_else}
use minidox.Io.{IoError, eio}

abbrev pub page_size : ℕ
page_size = 4096

-- (node, page number)
abbrev pub PageKey : Type 0
PageKey = ℕ × ℕ

pub record RedoxPageIdentity : Type 0 where
  pub object : ℕ
  pub page : ℕ
  pub version : ℕ

-- `NEXT_FILE_OBJECT_ID` and `NEXT_PAGE_VERSION`.
pub record Counters : Type 0 where
  pub next_object : ℕ
  pub next_version : ℕ

-- `parent: None` and `parent: Some(parent)`, with the maps `files` and `pages`.
pub data IdentityGeneration : Type 0 where
  first : Map ℕ ℕ → Map PageKey ℕ → IdentityGeneration
  over : IdentityGeneration → Map ℕ ℕ → Map PageKey ℕ → IdentityGeneration

unfoldable pub file : IdentityGeneration → ℕ → Option ℕ
file (first files pages) node = get node files
file (over parent files pages) node = or_else (get node files) (file parent node)

unfoldable pub page_version : IdentityGeneration → PageKey → Option ℕ
page_version (first files pages) key = get key pages
page_version (over parent files pages) key = or_else (get key pages) (page_version parent key)

unfoldable pub generation_files : IdentityGeneration → Map ℕ ℕ → Map ℕ ℕ
generation_files (first files pages) into = extend files into
generation_files (over parent files pages) into = extend files (generation_files parent into)

unfoldable pub generation_pages : IdentityGeneration → Map PageKey ℕ → Map PageKey ℕ
generation_pages (first files pages) into = extend pages into
generation_pages (over parent files pages) into = extend pages (generation_pages parent into)

pub record IdentityBranch : Type 0 where
  pub base : IdentityGeneration
  pub files : Map ℕ ℕ
  pub pages : Map PageKey ℕ

abbrev pub new : IdentityBranch
new = record { base = first [] []; files = []; pages = [] }

-- The source after the fork, and the child.
unfoldable pub fork : IdentityBranch → IdentityBranch × IdentityBranch
fork b =
    let base' =
      if is_empty b.files && is_empty b.pages then b.base else over b.base b.files b.pages in
    (
      record { base = base'; files = []; pages = [] },
      record { base = base'; files = []; pages = [] },
    )

unfoldable pub create_file : ℕ → IdentityBranch → Counters → IdentityBranch × Counters
create_file node b c = (
  record b { files = insert node c.next_object b.files },
  record c { next_object = next_id c.next_object },
)

unfoldable pub object_of : IdentityBranch → ℕ → Option ℕ
unfolding file
object_of b node = or_else (get node b.files) (file b.base node)

-- `unwrap_or(0)`: a page that was never written has version 0.
unfoldable pub version_of : IdentityBranch → PageKey → ℕ
unfolding page_version
version_of b key = elim (or_else (get key b.pages) (page_version b.base key)) [
  | none ↦ 0
  | some v ↦ v
]

unfoldable pub page_identity : IdentityBranch → (node offset : ℕ) → Result IoError RedoxPageIdentity
unfolding object_of version_of
page_identity b node offset = do
  object ← ok_or (object_of b node) eio
  ok (record {
    object = object;
    page = offset / page_size;
    version = version_of b (node, offset / page_size);
  })

-- A new version for one page.
unfoldable pub new_version : (node page : ℕ) → IdentityBranch → Counters → IdentityBranch × Counters
new_version node page b c = (
  record b { pages = insert (node, page) c.next_version b.pages },
  record c { next_version = next_id c.next_version },
)

-- `for page in first..=last`, with the number of pages as the bound of the recursion.
unfoldable pub new_versions :
    ℕ → (node page : ℕ) → IdentityBranch → Counters → IdentityBranch × Counters
unfolding new_version
new_versions zero node page b c = (b, c)
new_versions (suc more) node page b c =
    let (b', c') = new_version node page b c in new_versions more node (page + 1) b' c'

unfoldable pub record_write :
    (node offset len : ℕ)
    → IdentityBranch
    → Counters
    → Result IoError (Unit {0}) × IdentityBranch × Counters
unfolding new_versions
record_write node offset len b c =
    if len == 0 then (ok tt, b, c) else elim (checked_add offset len) [
      | none ↦ (err eio, b, c)
      | some end ↦
          let first_page = offset / page_size in
          let (b', c') =
            new_versions ((end - 1) / page_size - first_page + 1) node first_page b c in
          (ok tt, b', c')
    ]

unfoldable pub prepare_page_write :
    (node offset : ℕ)
    → IdentityBranch
    → Counters
    → Result IoError RedoxPageIdentity × IdentityBranch × Counters
unfolding new_version page_identity
prepare_page_write node offset b c =
    let (b', c') = new_version node (offset / page_size) b c in
    (page_identity b' node offset, b', c')

unfoldable pub visible_files : IdentityBranch → Map ℕ ℕ
unfolding generation_files
visible_files b = extend b.files (generation_files b.base [])

unfoldable pub visible_pages : IdentityBranch → Map PageKey ℕ
unfolding generation_pages
visible_pages b = extend b.pages (generation_pages b.base [])

-- The branch that `RedoxBranch::restore_lineage` builds from the entries that
-- `RedoxBranch::durable_state` wrote down.
unfoldable pub restored : (files : Map ℕ ℕ) (pages : Map PageKey ℕ) → IdentityBranch
restored files pages = record {
  base = first [] [];
  files = extend files [];
  pages = extend pages [];
}
