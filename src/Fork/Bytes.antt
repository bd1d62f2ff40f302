-- ===== src/Fork/Bytes.antt =====
-- A page branch as a function from addresses to bytes: what `write` changes and `read` returns.
pub mod Round
pub mod Write
pub mod Read
use minidox.Prelude.{
  ℕ, ◌/◌, ◌%◌, ◌+◌, ◌≤◌, ◌<◌, ◌≡◌, refl, Option, none, some, List, length, get_or, arith, Bool,
  ◌&&◌, leb, ltb,
}
use minidox.Prelude.Order.{bytes_ord, nat_ord, pair_ord, same}
use minidox.Overlay
use minidox.Fork.{Page, PageBranch, page_size}

-- A byte of a page; the bytes of a page that was never written are 0.
abbrev pub byte_in : Option Page → ℕ → ℕ
byte_in none i = 0
byte_in (some page) i = get_or page.bytes i 0

-- The byte that a branch shows at an address of a file.
unfoldable pub byte_at : PageBranch → List ℕ → ℕ → ℕ
byte_at b path a = byte_in (Overlay.find b (path, a / page_size)) (a % page_size)

-- Pages are whole.
abbrev pub WholePage : Option Page → Type 0
WholePage none = Unit {0}
WholePage (some page) = length page.bytes ≡ page_size

pub record IsWhole (b : PageBranch) : Type 0 where
  pub at : (path : List ℕ) (page : ℕ) → WholePage (Overlay.find b (path, page))

-- Whether an address of `file` lies in the range from `start` to `end` of `path`.
abbrev pub covers : (path : List ℕ) (start end : ℕ) (file : List ℕ) (a : ℕ) → Bool
covers path start end file a = same file path && (leb start a && ltb a end)
