-- ===== src/Redox/Identity/Versions.antt =====
-- Page versions after writes, and page identities after a restore.
use minidox.Io.{eio}
use minidox.Prelude.{
  ok, ok_or, ◌>>=◌, ℕ, zero, suc, ◌+◌, ◌-◌, ◌/◌, ◌<◌, ◌≡◌, refl, ◌∙◌, false, ◌&&◌, [], u64_mod,
  if◌then◌else◌, ◌==◌, leb, ltb, arith, lt→ltb,
}
use minidox.Prelude.Order.{nat_ord, pair_ord, same}
use minidox.Prelude.Map.{same_refl, get, get-insert}
use minidox.Prelude.Map.Sorted.{IsSorted, extend-IsSorted, get-extend}
use minidox.Redox.Identity.{
  page_size, PageKey, Counters, IdentityGeneration, first, over, IdentityBranch, object_of,
  version_of, page_identity, new_version, new_versions, record_write, prepare_page_write,
  visible_files, visible_pages, restored, generation_files, generation_pages, file, page_version,
}
use minidox.Redox.Identity.Laws.{Layered, get-visible_files, get-visible_pages}

version_of-new_version :
    (node page : ℕ) (b : IdentityBranch) (c : Counters) (key : PageKey)
    → version_of (new_version node page b c).0 key
      ≡ (if same key (node, page) then c.next_version else version_of b key)
unfolding new_version version_of
version_of-new_version node page b c key =
    ground (arith, get-insert {K = PageKey} (node, page) key c.next_version b.pages)

next_version-new_version :
    (node page : ℕ) (b : IdentityBranch) (c : Counters)
    → c.next_version + 1 < u64_mod
    → (new_version node page b c).1.next_version ≡ c.next_version + 1
unfolding new_version
next_version-new_version node page b c room = ground arith

object_of-new_version :
    (node page : ℕ) (b : IdentityBranch) (c : Counters) (n : ℕ)
    → object_of (new_version node page b c).0 n ≡ object_of b n
unfolding new_version object_of
object_of-new_version node page b c n = refl

version_of-new_versions :
    (count node page : ℕ) (b : IdentityBranch) (c : Counters) (n p : ℕ)
    → c.next_version + count < u64_mod
    → version_of (new_versions count node page b c).0 (n, p) ≡ (
        if n == node && (leb page p && ltb p (page + count))
        then c.next_version + (p - page)
        else version_of b (n, p))
unfolding new_versions
version_of-new_versions zero node page b c n p room = ground arith
version_of-new_versions (suc more) node page b c n p room =
    let b' = (new_version node page b c).0 in
    let c' = (new_version node page b c).1 in
    let next : c'.next_version ≡ c.next_version + 1 =
      next_version-new_version node page b c (omega arith) in
    version_of-new_versions more node (page + 1) b' c' n p (omega arith)
    ∙ rw (next, version_of-new_version node page b c (n, p)) (ground arith)

-- A record of a non-empty write below 2^64, counter included, gives the pages of its range the
-- next versions in order and leaves every other version.
pub version_of-record_write :
    (node offset len : ℕ) (b : IdentityBranch) (c : Counters)
    → 0 < len
    → offset + len < u64_mod
    → c.next_version + offset + len < u64_mod
    → (n p : ℕ)
    → version_of (record_write node offset len b c).1 (n, p) ≡ (
        if n == node && (leb (offset / page_size) p && leb p ((offset + len - 1) / page_size))
        then c.next_version + (p - offset / page_size)
        else version_of b (n, p))
unfolding record_write
version_of-record_write node offset len b c some_bytes fits room n p =
    let first_page = offset / page_size in
    let last = (offset + len - 1) / page_size in
    let e : (len == 0) ≡ false = ground arith in
    rw (record_write, e, lt→ltb _ _ fits)
      (version_of-new_versions (last - first_page + 1) node first_page b c n p (omega arith)
        ∙ ground arith)

-- `prepare_page_write` answers with the next version of the page, or fails where the branch has
-- no file, and leaves the version of every other page.
pub version_of-prepare_page_write :
    (node offset : ℕ) (b : IdentityBranch) (c : Counters) (key : PageKey)
    → ((prepare_page_write node offset b c).0 ≡ (do
      object ← ok_or (object_of b node) eio
      ok (record { object = object; page = offset / page_size; version = c.next_version })))
      × (version_of (prepare_page_write node offset b c).1 key
          ≡ (if same key (node, offset / page_size) then c.next_version else version_of b key))
unfolding prepare_page_write page_identity
version_of-prepare_page_write node offset b c key =
    let page : PageKey = (node, offset / page_size) in
    (
      rw
          (
            page_identity,
            version_of-new_version node (offset / page_size) b c page,
            same_refl page,
            object_of-new_version node (offset / page_size) b c node,
          )
          refl,
      version_of-new_version node (offset / page_size) b c key,
    )

generation_files-IsSorted : (g : IdentityGeneration) → IsSorted (generation_files g [])
unfolding generation_files
generation_files-IsSorted (first files pages) = extend-IsSorted files [] tt
generation_files-IsSorted (over g files pages) =
    extend-IsSorted files (generation_files g []) (generation_files-IsSorted g)

generation_pages-IsSorted : (g : IdentityGeneration) → IsSorted (generation_pages g [])
unfolding generation_pages
generation_pages-IsSorted (first files pages) = extend-IsSorted pages [] tt
generation_pages-IsSorted (over g files pages) =
    extend-IsSorted pages (generation_pages g []) (generation_pages-IsSorted g)

visible_files-IsSorted : (b : IdentityBranch) → IsSorted (visible_files b)
unfolding visible_files
visible_files-IsSorted b =
    extend-IsSorted b.files (generation_files b.base []) (generation_files-IsSorted b.base)

visible_pages-IsSorted : (b : IdentityBranch) → IsSorted (visible_pages b)
unfolding visible_pages
visible_pages-IsSorted b =
    extend-IsSorted b.pages (generation_pages b.base []) (generation_pages-IsSorted b.base)

object_of-restored :
    (b : IdentityBranch) (node : ℕ)
    → Layered b
    → object_of (restored (visible_files b) (visible_pages b)) node ≡ object_of b node
unfolding restored object_of file get
object_of-restored b node s = ground (
  arith,
  get-extend {K = ℕ} (visible_files b) [] node (visible_files-IsSorted b),
  get-visible_files b node s,
)

version_of-restored :
    (b : IdentityBranch) (key : PageKey)
    → Layered b
    → version_of (restored (visible_files b) (visible_pages b)) key ≡ version_of b key
unfolding restored version_of page_version get
version_of-restored b key s = ground (
  arith,
  get-extend {K = PageKey} (visible_pages b) [] key (visible_pages-IsSorted b),
  get-visible_pages b key s,
)

-- A branch with sorted maps that is restored from the files and pages it shows gives every page
-- the identity it had.
pub page_identity-restored :
    (b : IdentityBranch) (node offset : ℕ)
    → Layered b
    → page_identity (restored (visible_files b) (visible_pages b)) node offset
      ≡ page_identity b node offset
unfolding page_identity
page_identity-restored b node offset s =
    rw
      (
        page_identity,
        object_of-restored b node s,
        version_of-restored b (node, offset / page_size) s,
      )
      refl
