-- ===== src/Vmm/Ram/Seal.antt =====
-- What holds of a memory between two forks, and its first fork, which seals the files that it has.
use minidox.Prelude.{
  ℕ, Option, ◌<◌, ◌≡◌, refl, ◌∙◌, ap, sym, subst, true, false, none, some, List, [], ◌∷◌, length,
  get_elem?, arith,
}
use minidox.Prelude.Order.{nat_ord, pair_ord}
use minidox.Prelude.Map
use minidox.Prelude.Map.{Map, Set, get, keys, contains_key, get-insert, same_refl, eq_of_same}
use minidox.Prelude.Step.Hoare.{Hoare, and_then, pure_lem, modify_lem, strengthen}
use minidox.Vmm.Ram.{RamPage, RamHost, KvmGuestRam, Ram, file_page, page_bytes}
use minidox.Vmm.Ram.Fork.{copy_page_to, copy_back, discard_private_pages, finish_seal}
use minidox.Vmm.Ram.Runs.{Any, backing_of, among, system_call_lem, copy_calls_lem, page_at_lem}

-- Each page maps what its entry says, privately; the entries lie in generations that are taken; and
-- the entries of a memory that was never forked lie apart.
pub record IsValid (r : KvmGuestRam) (h : RamHost) : Type 0 where
  pub backed : (index : ℕ) → get index r.mapped ≡ backing_of (get_elem? r.pages index)
  pub private_map : r.is_private ≡ true
  pub old :
      (index : ℕ) (page : RamPage)
      → get_elem? r.pages index ≡ some page
      → page.generation < h.next_generation_id
  pub apart :
      r.sealed ≡ false
      → (i j : ℕ) (p q : RamPage) → get_elem? r.pages i ≡ some p
      → get_elem? r.pages j ≡ some q
      → p.generation ≡ q.generation
      → p.offset ≡ q.offset
      → i ≡ j

-- Only pages of the set have private copies.
pub record Covers (dirty : Set ℕ) (r : KvmGuestRam) : Type 0 where
  pub clean : (index : ℕ) → contains_key index dirty ≡ false → get index r.copies ≡ none

-- The files hold what the memory of `r` held, page by page, and the memory maps them.
pub record Saved (r : KvmGuestRam) (h : RamHost) (m : Ram) : Type 0 where
  pub stored :
      (index : ℕ) (page : RamPage)
      → get_elem? m.0.pages index ≡ some page
      → file_page m.1 page.generation page.offset ≡ page_bytes r h index
  pub maps : (index : ℕ) → get index m.0.mapped ≡ backing_of (get_elem? m.0.pages index)
  pub bare : (index : ℕ) → get index m.0.copies ≡ none
  pub taken :
      (index : ℕ) (page : RamPage)
      → get_elem? m.0.pages index ≡ some page
      → page.generation < m.1.next_generation_id
  pub kept_private : m.0.is_private ≡ true
  pub same_length : length m.0.pages ≡ length r.pages

pub among-keys {ℓ} :
    {V : Type ℓ} (index : ℕ) (m : Map ℕ V) → among index (keys m) ≡ contains_key index m
unfolding keys get
among-keys index [] = refl
among-keys index ((k, v) ∷ m) = ground (arith, among-keys index m)

pub page_bytes_lem :
    (r : KvmGuestRam) (h : RamHost) (index : ℕ) (page : RamPage)
    → get index r.mapped ≡ backing_of (get_elem? r.pages index)
    → get_elem? r.pages index ≡ some page
    → page_bytes r h index ≡ elim (get index r.copies) [
      | some bytes ↦ bytes
      | none ↦ file_page h page.generation page.offset
    ]
unfolding page_bytes
page_bytes_lem r h index page e f = ground arith

module _ (r : KvmGuestRam) (h : RamHost) (v : IsValid r h) where
  -- The loop of copies has these pages left.
  record Writing (todo : List ℕ) (m : Ram) : Type 0 where
    same_memory : m.0 ≡ r
    same_generation : m.1.next_generation_id ≡ h.next_generation_id
    same_bytes :
        (index : ℕ) (page : RamPage)
        → get_elem? r.pages index ≡ some page
        → page_bytes r m.1 index ≡ page_bytes r h index
    written :
        (index : ℕ) (page : RamPage)
        → get_elem? r.pages index ≡ some page
        → among index todo ≡ false
        → file_page m.1 page.generation page.offset ≡ page_bytes r h index

  Writing-copy :
      (unsealed : r.sealed ≡ false) (index : ℕ) (page : RamPage) (todo : List ℕ) (m : Ram)
      → get_elem? r.pages index ≡ some page
      → Writing (index ∷ todo) m
      → Writing todo (
        m.0,
        record m.1 {
          files = Map.insert (page.generation, page.offset) (page_bytes r m.1 index) m.1.files;
        },
      )
  Writing-copy unsealed index page todo m e p =
      let bytes = page_bytes r m.1 index in
      let h' : RamHost = record m.1 {
        files = Map.insert (page.generation, page.offset) bytes m.1.files;
      } in
      let at = λ (other : RamPage).
        get-insert (page.generation, page.offset) (other.generation, other.offset) bytes
          m.1.files in
      record {
        same_memory = p.same_memory;
        same_generation = p.same_generation;
        same_bytes = λ i other f.
            page_bytes_lem r h' i other (v.backed i) f
            ∙ ground (
              arith,
              at other,
              v.apart unsealed i index other page f e,
              page_bytes_lem r m.1 i other (v.backed i) f,
              p.same_bytes i other f,
              p.same_bytes index page e,
            );
        written = λ i other f free. ground (
          arith,
          at other,
          v.apart unsealed i index other page f e,
          p.same_bytes index page e,
          p.written i other f,
        );
      }

  Writing-faults :
      (todo : List ℕ) (m : Ram) (faults : List (Option ℕ))
      → Writing todo m
      → Writing todo (m.0, record m.1 { faults = faults })
  Writing-faults todo m faults p = record {
    same_memory = p.same_memory;
    same_generation = p.same_generation;
    same_bytes = λ i page e.
        page_bytes_lem r (record m.1 { faults = faults }) i page (v.backed i) e
        ∙ ground (arith, page_bytes_lem r m.1 i page (v.backed i) e, p.same_bytes i page e);
    written = p.written;
  }

  copy_back-Writing :
      r.sealed ≡ false
      → (todo : List ℕ) → Hoare (Writing todo) (copy_back todo) (λ _. Writing []) Any
  unfolding copy_back copy_page_to
  copy_back-Writing unsealed [] = pure_lem _ λ m p. p
  copy_back-Writing unsealed (index ∷ todo) = and_then (page_at_lem index) λ page.
      and_then
        (and_then
          (copy_calls_lem
            {P = λ m. Writing (index ∷ todo) m × (get_elem? m.0.pages index ≡ some page)} index
            page.generation page.offset
            λ m faults p. (Writing-faults (index ∷ todo) m faults p.0, p.1))
          λ _. modify_lem _ {Q = Writing todo} λ m p. copied page m p.0 p.1)
        λ _. copy_back-Writing unsealed todo
    where
      copied :
          (page : RamPage) (m : Ram)
          → Writing (index ∷ todo) m
          → get_elem? m.0.pages index ≡ some page
          → Writing todo (
            m.0,
            record m.1 {
              files =
                  Map.insert (page.generation, page.offset) (page_bytes m.0 m.1 index) m.1.files;
            },
          )
      copied page m p e =
          let here : get_elem? r.pages index ≡ some page =
            ap (λ q. get_elem? q.pages index) (sym p.same_memory) ∙ e in
          subst
            (λ q. Writing todo (
              m.0,
              record m.1 {
                files =
                    Map.insert (page.generation, page.offset) (page_bytes q m.1 index) m.1.files;
              },
            ))
            (sym p.same_memory) (Writing-copy unsealed index page todo m here p)

  start-Writing :
      (dirty : Set ℕ) (h' : RamHost)
      → Covers dirty r
      → h'.files ≡ h.files
      → h'.next_generation_id ≡ h.next_generation_id
      → Writing (keys dirty) (r, h')
  start-Writing dirty h' c same_files same_generation = record {
    same_memory = refl;
    same_generation = same_generation;
    same_bytes = λ i page e.
        let found = ap (λ files. get (page.generation, page.offset) files) same_files in
        page_bytes_lem r h' i page (v.backed i) e
        ∙ ground (arith, found, page_bytes_lem r h i page (v.backed i) e);
    written = λ i page e free.
        rw same_files
          (ground (arith, page_bytes_lem r h i page (v.backed i) e, c.clean i, among-keys i dirty));
  }

  -- The copies are dropped.
  bare-Saved :
      (m : Ram) → Writing [] m → Saved r h (record m.0 { copies = []; is_private = true }, m.1)
  unfolding get
  bare-Saved m p = record {
    stored =
        λ i page e. p.written i page (ap (λ q. get_elem? q.pages i) (sym p.same_memory) ∙ e) refl;
    maps = λ i. rw p.same_memory (v.backed i);
    bare = λ i. refl;
    taken = λ i page e. ground (
      arith,
      v.old i page (ap (λ q. get_elem? q.pages i) (sym p.same_memory) ∙ e),
      p.same_generation,
    );
    kept_private = refl;
    same_length = ap (λ q. length q.pages) p.same_memory;
  }

  pub finish_seal-Saved :
      r.sealed ≡ false
      → (dirty : Set ℕ) → Covers dirty r
      → Hoare
          (λ m. (m.0 ≡ r) × (m.1.files ≡ h.files) × (m.1.next_generation_id ≡ h.next_generation_id))
          (finish_seal dirty)
          (λ _. Saved r h)
          Any
  unfolding finish_seal discard_private_pages
  finish_seal-Saved unsealed dirty c =
      strengthen
        (and_then (copy_back-Writing unsealed (keys dirty)) λ _.
          and_then
            (and_then (system_call_lem {P = Writing []} λ m faults p. Writing-faults [] m faults p)
              λ _.
                modify_lem _ {Q = λ m. Saved r h (record m.0 { is_private = true }, m.1)}
                  λ m p. bare-Saved m p)
            λ _. modify_lem _ λ m p. p)
        λ m p.
          subst (λ q. Writing (keys dirty) (q, m.1)) (sym p.0) (start-Writing dirty m.1 c p.1 p.2)
