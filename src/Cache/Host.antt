-- ===== src/Cache/Host.antt =====
-- The host that the caches live on: the process-wide counters of crates/minidox-cache, the contents
-- of the temporary files behind the pages, and which of the next file operations fail.
pub mod Laws
use minidox.Prelude.{
  ℕ, ◌+◌, ◌-◌, Option, none, some, List, [], ◌∷◌, ◌++◌, Result, ok, err, length, replicate, slice,
  copy_from_slice, leb, if◌then◌else◌, next_id,
}
use minidox.Prelude.Order.{nat_ord}
use minidox.Prelude.Map
use minidox.Prelude.Map.{Map}
use minidox.Prelude.Step.{Step, pure, fail, lift, gets, modify, ◌>>=◌, ◌>>◌}
use minidox.Io.{IoError, unexpected_eof}
use minidox.Cache.{page_size}

pub record Host : Type 0 where
  -- `NEXT_CACHE_ID` and `NEXT_PAGE_ID`
  pub next_cache_id : ℕ
  pub next_page_id : ℕ
  -- by page identity
  pub contents : Map ℕ (List ℕ)
  -- The outcomes of the coming file operations; those beyond the list succeed.
  pub faults : List (Option IoError)

-- One call of the operating system, which may fail.
unfoldable pub system_call : Step Host IoError (Unit {0})
system_call h = elim h.faults [
  | [] ↦ (ok tt, h)
  | none ∷ faults ↦ (ok tt, record h { faults = faults })
  | some e ∷ faults ↦ (err e, record h { faults = faults })
]

-- What `read_exact_at` finds in a file.
abbrev pub stored : List ℕ → (offset count : ℕ) → Result IoError (List ℕ)
stored bytes offset count =
    if leb (offset + count) (length bytes)
    then ok (slice bytes offset count)
    else err unexpected_eof

abbrev pub bytes_of : ℕ → Host → List ℕ
bytes_of page h = elim (Map.get page h.contents) [ none ↦ [] | some bytes ↦ bytes ]

unfoldable pub read_exact_at : (page offset count : ℕ) → Step Host IoError (List ℕ)
read_exact_at page offset count = do
  system_call
  bytes ← gets (bytes_of page)
  lift (stored bytes offset count)

-- A write past the end makes the file longer, with zeros in between.
abbrev pub written_at : List ℕ → ℕ → List ℕ → List ℕ
written_at file offset bytes =
    copy_from_slice (file ++ replicate (offset + length bytes - length file) 0) offset bytes

unfoldable pub write_all_at : (page : ℕ) (offset : ℕ) → List ℕ → Step Host IoError (Unit {0})
write_all_at page offset bytes = do
  system_call
  modify (λ h. record h {
    contents = Map.insert page (written_at (bytes_of page h) offset bytes) h.contents;
  })

-- A new page: `tempfile`, `set_len`, and the write of all its bytes come before the identity.
unfoldable pub from_bytes : List ℕ → Step Host IoError ℕ
from_bytes bytes = do
  system_call
  system_call
  system_call
  page ← gets (λ h. h.next_page_id)
  modify (λ h. record h {
    next_page_id = next_id h.next_page_id;
    contents = Map.insert page (written_at (replicate page_size 0) 0 bytes) h.contents;
  })
  pure page

unfoldable pub duplicate : ℕ → Step Host IoError ℕ
duplicate page = do bytes ← read_exact_at page 0 page_size; from_bytes bytes
