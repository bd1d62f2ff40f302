-- ===== src/Vmm/Ram/Bytes.antt =====
-- `read` and `write` of a valid memory, byte by byte.
use minidox.Prelude.{
  ℕ, zero, suc, ◌+◌, ◌*◌, ◌-◌, ◌/◌, ◌%◌, ◌≤◌, ◌<◌, ◌≡◌, refl, ◌∙◌, ap, sym, subst, ◌&&◌, List, [],
  ◌∷◌, if◌then◌else◌, ◌==◌, ltb, leb, length, get_elem?, get_or, set, arith,
}
use minidox.Prelude.Order.{nat_ord, pair_ord}
use minidox.Prelude.Map
use minidox.Prelude.Map.{Map, Set, get, get-insert}
use minidox.Vmm.Ram.{
  RamHost, KvmGuestRam, Ram, page_bytes, ram_page_size, store_page, load_byte, store_byte,
  load_bytes, store_bytes,
}
use minidox.Vmm.Ram.Children.{get_elem?-some}
use minidox.Vmm.Ram.Runs.{backing_of}
use minidox.Vmm.Ram.Seal.{IsValid}

-- The pages fill the memory, and hold whole pages.
pub record IsWhole (r : KvmGuestRam) (h : RamHost) : Type 0 where
  pub sized : r.len ≡ length r.pages * ram_page_size
  pub whole : (index : ℕ) → index < length r.pages → length (page_bytes r h index) ≡ ram_page_size

length-set : (xs : List ℕ) (i x : ℕ) → length (set xs i x) ≡ length xs
length-set [] i x = refl
length-set (y ∷ xs) zero x = refl
length-set (y ∷ xs) (suc i) x = ap suc (length-set xs i x)

get_or-set :
    (xs : List ℕ) (i j x d : ℕ)
    → i < length xs
    → get_or (set xs i x) j d ≡ (if j == i then x else get_or xs j d)
get_or-set [] i j x d below = absurd (omega arith)
get_or-set (y ∷ xs) zero zero x d below = refl
get_or-set (y ∷ xs) zero (suc j) x d below = ground arith
get_or-set (y ∷ xs) (suc i) zero x d below = ground arith
get_or-set (y ∷ xs) (suc i) (suc j) x d below = get_or-set xs i j x d (omega arith) ∙ ground arith

pub get_or-cons :
    (x : ℕ) (xs : List ℕ) (i : ℕ)
    → get_or (x ∷ xs) i 0 ≡ (if i == 0 then x else get_or xs (i - 1) 0)
get_or-cons x xs zero = refl
get_or-cons x xs (suc i) =
    let e : i ≡ suc i - 1 = omega arith in ground (arith, ap (λ j. get_or xs j 0) e)

-- One byte before a range of bytes.
one_more :
    (address at value other : ℕ) (bytes : List ℕ)
    → (if leb (address + 1) at && ltb at (address + 1 + length bytes)
        then get_or bytes (at - (address + 1)) 0
        else (if at == address then value else other))
      ≡ (if leb address at && ltb at (address + suc (length bytes))
          then get_or (value ∷ bytes) (at - address) 0
          else other)
one_more address at value other bytes =
    let e : at - address - 1 ≡ at - (address + 1) = omega arith in
    ground (arith, get_or-cons value bytes (at - address), ap (λ i. get_or bytes i 0) e)

-- The private copy that a store makes.
abbrev pub copied : ℕ → List ℕ → Ram → Ram
copied index bytes m = (record m.0 { copies = Map.insert index bytes m.0.copies }, m.1)

module _ (r : KvmGuestRam) (h : RamHost) (v : IsValid r h) where
  -- Stores have changed private copies at most.
  pub record Stored (m : Ram) : Type 0 where
    pub same_memory : record m.0 { copies = r.copies } ≡ r
    pub same_host : m.1 ≡ h
    pub still_whole :
        (index : ℕ) → index < length r.pages → length (page_bytes m.0 m.1 index) ≡ ram_page_size

  store_page-copied :
      (index : ℕ) (bytes : List ℕ) (m : Ram)
      → index < length r.pages
      → Stored m
      → store_page index bytes m ≡ copied index bytes m
  unfolding store_page
  store_page-copied index bytes m below p =
      let (page, e) = get_elem?-some r.pages index below in
      let maps : get index m.0.mapped ≡ backing_of (get_elem? r.pages index) =
        ap (λ q. get index q.mapped) p.same_memory ∙ v.backed index in
      ground arith

  page_bytes-copied :
      (index at : ℕ) (bytes : List ℕ) (m : Ram)
      → page_bytes (copied index bytes m).0 m.1 at
        ≡ (if at == index then bytes else page_bytes m.0 m.1 at)
  unfolding page_bytes
  page_bytes-copied index at bytes m = ground (arith, get-insert index at bytes m.0.copies)

  abbrev pub after_byte : (address value : ℕ) → Ram → List ℕ
  after_byte address value m =
      set (page_bytes m.0 m.1 (address / ram_page_size)) (address % ram_page_size) value

  pub store_byte-copied :
      (address value : ℕ) (m : Ram)
      → address < length r.pages * ram_page_size
      → Stored m
      → store_byte address value m ≡ copied (address / ram_page_size) (after_byte address value m) m
  unfolding store_byte
  store_byte-copied address value m below p =
      store_page-copied (address / ram_page_size) (after_byte address value m) m (omega arith) p

  pub store_byte-Stored :
      (address value : ℕ) (m : Ram)
      → address < length r.pages * ram_page_size
      → Stored m
      → Stored (store_byte address value m)
  store_byte-Stored address value m below p =
      subst Stored (sym (store_byte-copied address value m below p)) (record {
        same_memory = p.same_memory;
        same_host = p.same_host;
        still_whole = λ index here.
            ap length
              (page_bytes-copied (address / ram_page_size) index (after_byte address value m) m)
            ∙ ground (
              arith,
              p.still_whole index here,
              length-set (page_bytes m.0 m.1 index) (address % ram_page_size) value,
            );
      })

  load_byte-store_byte :
      (address value at : ℕ) (m : Ram)
      → address < length r.pages * ram_page_size
      → Stored m
      → load_byte at (store_byte address value m)
        ≡ (if at == address then value else load_byte at m)
  unfolding load_byte
  load_byte-store_byte address value at m below p =
      ap (λ n. get_or (page_bytes n.0 n.1 (at / ram_page_size)) (at % ram_page_size) 0)
        (store_byte-copied address value m below p)
      ∙ ap (λ bytes. get_or bytes (at % ram_page_size) 0)
          (page_bytes-copied (address / ram_page_size) (at / ram_page_size)
            (after_byte address value m) m)
      ∙ ground (
        arith,
        get_or-set (page_bytes m.0 m.1 (address / ram_page_size)) (address % ram_page_size)
            (at % ram_page_size) value 0,
        p.still_whole (address / ram_page_size),
      )

  pub store_bytes-Stored :
      (address : ℕ) (bytes : List ℕ) (m : Ram)
      → address + length bytes ≤ length r.pages * ram_page_size
      → Stored m
      → Stored (store_bytes address bytes m)
  unfolding store_bytes
  store_bytes-Stored address [] m below p = p
  store_bytes-Stored address (value ∷ bytes) m below p =
      store_bytes-Stored (address + 1) bytes (store_byte address value m) (omega arith)
        (store_byte-Stored address value m (omega arith) p)

  pub load_byte-store_bytes :
      (address : ℕ) (bytes : List ℕ) (at : ℕ) (m : Ram)
      → address + length bytes ≤ length r.pages * ram_page_size
      → Stored m
      → load_byte at (store_bytes address bytes m) ≡ (
          if leb address at && ltb at (address + length bytes)
          then get_or bytes (at - address) 0
          else load_byte at m)
  unfolding store_bytes
  load_byte-store_bytes address [] at m below p = ground arith
  load_byte-store_bytes address (value ∷ bytes) at m below p =
      load_byte-store_bytes (address + 1) bytes at (store_byte address value m) (omega arith)
        (store_byte-Stored address value m (omega arith) p)
      ∙ ap
          (λ x.
            if leb (address + 1) at && ltb at (address + 1 + length bytes)
            then get_or bytes (at - (address + 1)) 0
            else x)
          (load_byte-store_byte address value at m (omega arith) p)
      ∙ one_more address at value (load_byte at m) bytes

pub length-load_bytes : (count address : ℕ) (m : Ram) → length (load_bytes count address m) ≡ count
unfolding load_bytes
length-load_bytes zero address m = refl
length-load_bytes (suc count) address m = ap suc (length-load_bytes count (address + 1) m)

pub get_or-load_bytes :
    (count address i : ℕ) (m : Ram)
    → i < count
    → get_or (load_bytes count address m) i 0 ≡ load_byte (address + i) m
unfolding load_bytes
get_or-load_bytes zero address i m below = absurd (omega arith)
get_or-load_bytes (suc count) address zero m below =
    ap (λ at. load_byte at m) (let e : address ≡ address + 0 = omega arith in e)
get_or-load_bytes (suc count) address (suc i) m below =
    get_or-load_bytes count (address + 1) i m (omega arith)
    ∙ ap (λ at. load_byte at m) (let e : address + 1 + i ≡ address + suc i = omega arith in e)
