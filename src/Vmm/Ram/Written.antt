-- ===== src/Vmm/Ram/Written.antt =====
-- `write` and the reads after it; the pages that it marks for the next fork.
use minidox.Prelude.{
  ℕ, ◌+◌, ◌*◌, ◌-◌, ◌/◌, ◌≤◌, ◌<◌, ◌≡◌, refl, ◌∙◌, ap, sym, subst, Bool, true, false, ◌&&◌, List,
  [], ◌∷◌, if◌then◌else◌, ◌==◌, ltb, leb, length, get_or, arith, Bool-cases, ◌⊎◌, inl, inr, u64_mod,
}
use minidox.Prelude.Order.{nat_ord, pair_ord}
use minidox.Prelude.Map.{Set, get, contains_key, get-insert}
use minidox.Prelude.Step.{pure, modify}
use minidox.Prelude.Step.Hoare.{Hoare, and_then, pure_lem, modify_lem}
use minidox.Vmm.{Error}
use minidox.Vmm.Ram.{
  RamHost, KvmGuestRam, Ram, page_bytes, ram_page_size, load_byte, store_byte, store_bytes,
  mark_host, write,
}
use minidox.Vmm.Ram.Seal.{IsValid}
use minidox.Vmm.Ram.Bytes.{
  IsWhole, Stored, after_byte, store_byte-copied, store_bytes-Stored, store_byte-Stored,
  load_byte-store_bytes,
}
use minidox.Vmm.Ram.Marks.{checked_range_lem, contains_key-mark_host}

store_bytes-empty :
    (address : ℕ) (bytes : List ℕ) (m : Ram)
    → (length bytes == 0) ≡ true
    → store_bytes address bytes m ≡ m
unfolding store_bytes
store_bytes-empty address [] m e = refl
store_bytes-empty address (value ∷ bytes) m e = absurd (ground arith)

module _ (r : KvmGuestRam) (h : RamHost) (v : IsValid r h) where
  copies-store_byte :
      (address value : ℕ) (m : Ram) (index : ℕ)
      → address < length r.pages * ram_page_size
      → Stored r h v m
      → (index < address / ram_page_size) ⊎ (address < index * ram_page_size)
      → get index (store_byte address value m).0.copies ≡ get index m.0.copies
  copies-store_byte address value m index below p away =
      ap (λ n. get index n.0.copies) (store_byte-copied r h v address value m below p)
      ∙ get-insert (address / ram_page_size) index (after_byte r h v address value m) m.0.copies
      ∙ elim away [ inl a ↦ ground arith | inr b ↦ ground arith ]

  copies-store_bytes :
      (address : ℕ) (bytes : List ℕ) (m : Ram) (index : ℕ)
      → address + length bytes ≤ length r.pages * ram_page_size
      → Stored r h v m
      → (index < address / ram_page_size) ⊎ (address + length bytes ≤ index * ram_page_size)
      → get index (store_bytes address bytes m).0.copies ≡ get index m.0.copies
  unfolding store_bytes
  copies-store_bytes address [] m index below p away = refl
  copies-store_bytes address (value ∷ bytes) m index below p away =
      copies-store_bytes (address + 1) bytes (store_byte address value m) index (omega arith)
        (store_byte-Stored r h v address value m (omega arith) p)
        (elim away [ inl a ↦ inl (omega arith) | inr b ↦ inr (omega arith) ])
      ∙ copies-store_byte address value m index (omega arith) p
          (elim away [ inl a ↦ inl a | inr b ↦ inr (omega arith) ])

  module _ (w : IsWhole r h) (offset : ℕ) (bytes : List ℕ) where
    -- What a write leaves: the bytes in their places, and their pages marked.
    pub record Wrote (m : Ram) : Type 0 where
      pub stored : Stored r h v (record m.0 { host_dirty = r.host_dirty }, m.1)
      pub loads :
          (at : ℕ)
          → load_byte at m ≡ (
              if leb offset at && ltb at (offset + length bytes)
              then get_or bytes (at - offset) 0
              else load_byte at (r, h))
      pub marks :
          (index : ℕ)
          → contains_key index m.0.host_dirty ≡ false
          → get index m.0.copies ≡ get index r.copies
      pub fits : (offset + length bytes ≤ r.len) × (offset + length bytes < u64_mod)
      pub keeps :
          (index : ℕ)
          → contains_key index r.host_dirty ≡ true
          → contains_key index m.0.host_dirty ≡ true

    record StoredBytes (m : Ram) : Type 0 where
      stores : m ≡ store_bytes offset bytes (r, h)
      below : offset + length bytes ≤ length r.pages * ram_page_size
      small : offset + length bytes < u64_mod

    start-Stored : Stored r h v (r, h)
    start-Stored = record { same_memory = refl; same_host = refl; still_whole = w.whole }

    StoredBytes-Stored : (m : Ram) → StoredBytes m → Stored r h v m
    StoredBytes-Stored m p =
        subst (Stored r h v) (sym p.stores)
          (store_bytes-Stored r h v offset bytes (r, h) p.below start-Stored)

    StoredBytes-copies :
        (m : Ram) (index : ℕ)
        → StoredBytes m
        → (index < offset / ram_page_size) ⊎ (offset + length bytes ≤ index * ram_page_size)
        → get index m.0.copies ≡ get index r.copies
    StoredBytes-copies m index p away =
        ap (λ n. get index n.0.copies) p.stores
        ∙ copies-store_bytes offset bytes (r, h) index p.below start-Stored away

    -- Whatever is marked.
    StoredBytes-Wrote :
        (m : Ram) (dirty : Set ℕ)
        → StoredBytes m
        → ((index : ℕ)
            → contains_key index dirty ≡ false
            → get index m.0.copies ≡ get index r.copies)
        → ((index : ℕ) → contains_key index m.0.host_dirty ≡ true → contains_key index dirty ≡ true)
        → Wrote (record m.0 { host_dirty = dirty }, m.1)
    unfolding page_bytes load_byte
    StoredBytes-Wrote m dirty p marks more =
        let q = StoredBytes-Stored m p in
        let same_dirty : m.0.host_dirty ≡ r.host_dirty = ap (λ n. n.host_dirty) q.same_memory in
        record {
          stored = record {
            same_memory =
                ap {A = KvmGuestRam} (λ n. record n { host_dirty = r.host_dirty }) q.same_memory;
            same_host = q.same_host;
            still_whole = q.still_whole;
          };
          loads = λ at.
              ap (load_byte at) p.stores
              ∙ load_byte-store_bytes r h v offset bytes at (r, h) p.below start-Stored;
          marks = marks;
          fits = (ground (arith, p.below, w.sized), p.small);
          keeps = λ index e. more index (ap (contains_key index) same_dirty ∙ e);
        }

    marked_pages :
        (end index : ℕ) (dirty : Set ℕ)
        → end ≡ offset + length bytes
        → (length bytes == 0) ≡ false
        → contains_key index (
            mark_host
              ((end - 1) / ram_page_size - offset / ram_page_size + 1)
              (offset / ram_page_size)
              dirty)
          ≡ false
        → (index < offset / ram_page_size) ⊎ (offset + length bytes ≤ index * ram_page_size)
    marked_pages end index dirty e some_bytes f =
        let first = offset / ram_page_size in
        let count = (end - 1) / ram_page_size - offset / ram_page_size + 1 in
        let marks = contains_key-mark_host count first index dirty in
        elim (Bool-cases (ltb index first)) [
          | inl below ↦ inl (ground arith)
          | inr above ↦
              let beyond : first + count ≤ index = ground arith in
              let positive : 0 < length bytes = ground arith in
              inr (omega (arith, e, beyond, positive))
        ]

    pub write-Wrote : Hoare (λ m. m ≡ (r, h)) (write offset bytes) (λ _. Wrote) (λ m. m ≡ (r, h))
    unfolding write
    write-Wrote = and_then (checked_range_lem (r, h) offset (length bytes)) λ end.
        and_then
          (modify_lem (store_bytes offset bytes)
            {Q = λ m. StoredBytes m × (end ≡ offset + length bytes)}
            λ m p. (
              record {
                stores = ap (store_bytes offset bytes) p.0;
                below = ground (arith, p.1.0, p.1.1.0, w.sized);
                small = p.1.1.1;
              },
              p.1.0,
            ))
          λ _. by_length end (length bytes == 0) refl
      where
        by_length :
            (end : ℕ) (b : Bool)
            → (length bytes == 0) ≡ b
            → Hoare {E = Error}
                (λ m. StoredBytes m × (end ≡ offset + length bytes))
                (if b
                  then pure tt
                  else modify (λ m. (
                    record m.0 {
                      host_dirty =
                          mark_host
                            ((end - 1) / ram_page_size - offset / ram_page_size + 1)
                            (offset / ram_page_size)
                            m.0.host_dirty;
                    },
                    m.1,
                  )))
                (λ _. Wrote)
                (λ m. m ≡ (r, h))
        by_length end true e = pure_lem tt λ m p.
            StoredBytes-Wrote m m.0.host_dirty p.0
              (λ index f.
                ap (λ n. get index n.0.copies)
                  (p.0.stores ∙ store_bytes-empty offset bytes (r, h) e))
              (λ index f. f)
        by_length end false e = modify_lem _ λ m p.
            StoredBytes-Wrote m
              (mark_host ((end - 1) / ram_page_size - offset / ram_page_size + 1)
                (offset / ram_page_size) m.0.host_dirty)
              p.0
              (λ index f.
                StoredBytes-copies m index p.0 (marked_pages end index m.0.host_dirty p.1 e f))
              (λ index f. ground (
                arith,
                contains_key-mark_host ((end - 1) / ram_page_size - offset / ram_page_size + 1)
                    (offset / ram_page_size) index m.0.host_dirty,
              ))
