-- ===== src/Fork/Bytes/Round.antt =====
-- One round of `write`, byte by byte.
use minidox.Prelude.{
  ℕ, ◌+◌, ◌-◌, ◌/◌, ◌%◌, ◌≤◌, ◌<◌, ◌≡◌, ◌∙◌, ◌&&◌, List, length, get_or, slice, copy_from_slice,
  arith, ltb, leb, if◌then◌else◌, ◌==◌, length-slice, get_or-slice, length-copy_from_slice,
  get_or-copy_from_slice, get_or-replicate, length-replicate,
}
use minidox.Prelude.Order.{bytes_ord, nat_ord, pair_ord, same}
use minidox.Prelude.Map.{eq_of_same}
use minidox.Overlay
use minidox.Overlay.Laws.{find-write}
use minidox.Fork.{PageBranch, FilePage, page_size, count_at, contents, write_page}
use minidox.Fork.Bytes.{byte_in, byte_at, IsWhole, covers}

-- The contents that a write starts from are a whole page, and show what the branch shows.
length-contents :
    (b : PageBranch) (path : List ℕ) (n : ℕ) → IsWhole b → length (contents b (path, n)) ≡ page_size
unfolding contents
length-contents b path n w = ground (arith, w.at path n, length-replicate {A = ℕ} page_size 0)

get_or-contents :
    (b : PageBranch) (path : List ℕ) (n i : ℕ)
    → get_or (contents b (path, n)) i 0 ≡ byte_in (Overlay.find b (path, n)) i
unfolding contents
get_or-contents b path n i = ground (arith, get_or-replicate {A = ℕ} page_size 0 i)

module _ (path : List ℕ) (offset end : ℕ) (bytes : List ℕ) (cursor id : ℕ) (b : PageBranch)
    (sized : offset + length bytes ≡ end) (started : offset ≤ cursor) (more : cursor < end)
    (whole : IsWhole b) where
  length_source : length (slice bytes (cursor - offset) (count_at cursor end)) ≡ count_at cursor end
  length_source = length-slice bytes (cursor - offset) (count_at cursor end) (omega arith)

  length_target :
      cursor % page_size + length (slice bytes (cursor - offset) (count_at cursor end))
      ≤ length (contents b (path, cursor / page_size))
  length_target = omega (arith, length_source, length-contents b path (cursor / page_size) whole)

  -- The page after one round, byte by byte.
  page_byte :
      (i : ℕ)
      → get_or
          (copy_from_slice
            (contents b (path, cursor / page_size))
            (cursor % page_size)
            (slice bytes (cursor - offset) (count_at cursor end)))
          i
          0
        ≡ (if leb (cursor % page_size) i && ltb i (cursor % page_size + count_at cursor end)
            then get_or bytes (cursor - offset + (i - cursor % page_size)) 0
            else byte_in (Overlay.find b (path, cursor / page_size)) i)
  page_byte i =
      get_or-copy_from_slice (contents b (path, cursor / page_size)) (cursor % page_size)
        (slice bytes (cursor - offset) (count_at cursor end)) i 0 length_target
      ∙ rw (length_source, get_or-contents b path (cursor / page_size) i)
          (ground (
            arith,
            get_or-slice bytes (cursor - offset) (count_at cursor end) (i - cursor % page_size) 0,
          ))

  -- The page of an address after one round.
  find-write_page :
      (file : List ℕ) (n i : ℕ)
      → byte_in (Overlay.find (write_page path offset end bytes cursor id b) (file, n)) i ≡ (
          if same file path && n == cursor / page_size
          then get_or
              (copy_from_slice
                (contents b (path, cursor / page_size))
                (cursor % page_size)
                (slice bytes (cursor - offset) (count_at cursor end)))
              i
              0
          else byte_in (Overlay.find b (file, n)) i)
  unfolding write_page
  find-write_page file n i =
      rw (find-write {K = FilePage} (path, cursor / page_size) (file, n)) (ground arith)

  pub byte_at-write_page :
      (file : List ℕ) (a : ℕ)
      → byte_at (write_page path offset end bytes cursor id b) file a ≡ (
          if covers path cursor (cursor + count_at cursor end) file a
          then get_or bytes (a - offset) 0
          else byte_at b file a)
  unfolding byte_at
  byte_at-write_page file a =
      find-write_page file (a / page_size) (a % page_size)
      ∙ rw (page_byte (a % page_size)) (ground (arith, eq_of_same file path))

  -- A round leaves whole pages.
  pub write_page-IsWhole : IsWhole (write_page path offset end bytes cursor id b)
  unfolding write_page
  write_page-IsWhole = record {
    at = λ file n. rw (find-write {K = FilePage} (path, cursor / page_size) (file, n)) (
        ground (
          arith,
          whole.at file n,
          length-contents b path (cursor / page_size) whole,
          length-copy_from_slice (contents b (path, cursor / page_size)) (cursor % page_size)
              (slice bytes (cursor - offset) (count_at cursor end)) length_target,
        ));
  }
