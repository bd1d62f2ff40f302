-- ===== src/Vmm/Ram/Entries.antt =====
-- `replace_pages` and `key_set`, entry by entry.
use minidox.Prelude.{
  ℕ, zero, suc, ◌≡◌, refl, ◌∙◌, ap, Option, none, some, List, [], ◌∷◌, if◌then◌else◌, ◌==◌, length,
  get_elem?, set, arith,
}
use minidox.Prelude.Order.{nat_ord, pair_ord}
use minidox.Prelude.Map.{Map, get, contains_key, get-insert}
use minidox.Prelude.Map.Sorted.{IsSorted, get-Above}
use minidox.Vmm.Ram.{RamPage}
use minidox.Vmm.Ram.Fork.{replace_pages, key_set}

-- What replaces the entries of `pages`.
abbrev pub or_entry : Option RamPage → Option RamPage → Option RamPage
or_entry none old = old
or_entry (some page) none = none
or_entry (some page) (some old) = some page

get_elem?-set :
    (xs : List RamPage) (i j : ℕ) (page : RamPage)
    → get_elem? (set xs i page) j
      ≡ (if j == i then or_entry (some page) (get_elem? xs j) else get_elem? xs j)
get_elem?-set [] i j page = ground arith
get_elem?-set (x ∷ xs) zero zero page = refl
get_elem?-set (x ∷ xs) zero (suc j) page = ground arith
get_elem?-set (x ∷ xs) (suc i) zero page = ground arith
get_elem?-set (x ∷ xs) (suc i) (suc j) page = get_elem?-set xs i j page ∙ ground arith

pub get_elem?-replace_pages :
    (prepared : Map ℕ RamPage) (pages : List RamPage) (i : ℕ)
    → IsSorted prepared
    → get_elem? (replace_pages prepared pages) i ≡ or_entry (get i prepared) (get_elem? pages i)
unfolding replace_pages get
get_elem?-replace_pages [] pages i s = refl
get_elem?-replace_pages ((index, page) ∷ prepared) pages i s =
    get_elem?-replace_pages prepared (set pages index page) i s.1
    ∙ ground (arith, get_elem?-set pages index i page, get-Above index prepared s.0)

pub length-replace_pages :
    (prepared : Map ℕ RamPage) (pages : List RamPage)
    → length (replace_pages prepared pages) ≡ length pages
unfolding replace_pages
length-replace_pages [] pages = refl
length-replace_pages ((index, page) ∷ prepared) pages =
    length-replace_pages prepared (set pages index page) ∙ length-set pages index page
  where
    length-set : (xs : List RamPage) (i : ℕ) (p : RamPage) → length (set xs i p) ≡ length xs
    length-set [] i p = refl
    length-set (x ∷ xs) zero p = refl
    length-set (x ∷ xs) (suc i) p = ap suc (length-set xs i p)

pub contains_key-key_set :
    (prepared : Map ℕ RamPage) (i : ℕ) → contains_key i (key_set prepared) ≡ contains_key i prepared
unfolding key_set get
contains_key-key_set [] i = refl
contains_key-key_set ((index, page) ∷ prepared) i =
    ground (arith, get-insert index i tt (key_set prepared), contains_key-key_set prepared i)
