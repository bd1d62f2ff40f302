-- ===== src/Vmm/Ram/Kept.antt =====
-- What a write to a valid memory leaves: the bytes, the invariant, and the marks for the next fork.
use minidox.Prelude.{
  ℕ, ◌+◌, ◌*◌, ◌-◌, ◌≤◌, ◌<◌, ◌≡◌, refl, ◌∙◌, ap, sym, subst, ◌&&◌, List, Result, ok, err,
  if◌then◌else◌, ltb, leb, length, get_elem?, get_or, arith, get_or_ext, u64_mod,
}
use minidox.Prelude.Order.{nat_ord}
use minidox.Prelude.Map.{get}
use minidox.Prelude.Step.{pure, lift, gets, guard, ◌>>=◌}
use minidox.Prelude.Step.Hoare.{Post, ok_leaves}
use minidox.Vmm.{Error}
use minidox.Vmm.Ram.{
  RamHost, KvmGuestRam, Ram, page_bytes, ram_page_size, load_byte, load_bytes, checked_range, read,
  write,
}
use minidox.Vmm.Ram.Fork.{collect}
use minidox.Vmm.Ram.Runs.{backing_of}
use minidox.Vmm.Ram.Seal.{IsValid, Covers}
use minidox.Vmm.Ram.Bytes.{IsWhole, length-load_bytes, get_or-load_bytes}
use minidox.Vmm.Ram.Written.{Wrote, write-Wrote}
use minidox.Vmm.Ram.Marks.{contains_key-collect}

read_lem :
    (offset len : ℕ) (m : Ram)
    → offset + len ≤ m.0.len
    → offset + len < u64_mod
    → (read offset len m).0 ≡ ok (load_bytes len offset m)
unfolding read checked_range lift gets guard pure ◌>>=◌
read_lem offset len m below small = ground arith

module _ (r : KvmGuestRam) (h : RamHost) (v : IsValid r h) (w : IsWhole r h) (offset : ℕ)
    (bytes : List ℕ) where
  Wrote-IsValid : (m : Ram) → Wrote r h v w offset bytes m → IsValid m.0 m.1 × IsWhole m.0 m.1
  unfolding page_bytes
  Wrote-IsValid m p =
      let same = p.stored.same_memory in
      let pages : m.0.pages ≡ r.pages = ap (λ q. q.pages) same in
      (
        record {
          backed = λ index.
              ap (λ q. get index q.mapped) same
              ∙ v.backed index
              ∙ ap (λ q. backing_of (get_elem? q index)) (sym pages);
          private_map = ap (λ q. q.is_private) same ∙ v.private_map;
          old = λ i page e. ground (
            arith,
            v.old i page (ap (λ xs. get_elem? xs i) (sym pages) ∙ e),
            ap (λ q. q.next_generation_id) p.stored.same_host,
          );
          apart = λ e i j a b f g.
              v.apart (ap (λ q. q.sealed) (sym same) ∙ e) i j a b
                (ap (λ xs. get_elem? xs i) (sym pages) ∙ f)
                (ap (λ xs. get_elem? xs j) (sym pages) ∙ g);
        },
        record {
          sized = ap (λ q. q.len) same ∙ w.sized ∙ ap (λ xs. length xs * ram_page_size) (sym pages);
          whole = λ i below. p.stored.still_whole i (ground (arith, below, ap length pages));
        },
      )

  Wrote-Covers :
      (pages : List ℕ) (m : Ram)
      → Covers (collect pages r.host_dirty) r
      → Wrote r h v w offset bytes m
      → Covers (collect pages m.0.host_dirty) m.0
  Wrote-Covers pages m c p = record {
    clean = λ i e.
        p.marks i (ground (arith, e, contains_key-collect pages i m.0.host_dirty))
        ∙ c.clean i (
            ground (
              arith,
              e,
              contains_key-collect pages i m.0.host_dirty,
              contains_key-collect pages i r.host_dirty,
              p.keeps i,
            ));
  }

  -- A write to a valid memory of whole pages, whatever its result, leaves it valid and its pages
  -- whole, and if its private copies were all in pages that are marked as written or among some
  -- others, they still are.
  pub write-IsValid :
      (pages : List ℕ)
      → Covers (collect pages r.host_dirty) r
      → let m = (write offset bytes (r, h)).1 in
        (IsValid m.0 m.1 × IsWhole m.0 m.1) × Covers (collect pages m.0.host_dirty) m.0
  write-IsValid pages c =
      by_result (write offset bytes (r, h)) ((write-Wrote r h v w offset bytes).run (r, h) refl)
    where
      by_result :
          (outcome : Result Error (Unit {0}) × Ram)
          → Post (λ _. Wrote r h v w offset bytes) (λ m. m ≡ (r, h)) outcome
          → (IsValid outcome.1.0 outcome.1.1 × IsWhole outcome.1.0 outcome.1.1)
            × Covers (collect pages outcome.1.0.host_dirty) outcome.1.0
      by_result (ok u, m) p = (Wrote-IsValid m p, Wrote-Covers pages m c p)
      by_result (err e, m) p =
          subst
            (λ n. (IsValid n.0 n.1 × IsWhole n.0 n.1) × Covers (collect pages n.0.host_dirty) n.0)
            (sym p) ((v, w), c)

  module _ (done : (write offset bytes (r, h)).0 ≡ ok tt) where
    wrote : Wrote r h v w offset bytes (write offset bytes (r, h)).1
    wrote = ok_leaves (write-Wrote r h v w offset bytes) (r, h) tt refl done

    -- After a successful write to a valid memory of whole pages, every address of the range reads
    -- the byte written to it, and every other address what it read before.
    pub load_byte-write :
        (at : ℕ)
        → load_byte at (write offset bytes (r, h)).1 ≡ (
            if leb offset at && ltb at (offset + length bytes)
            then get_or bytes (at - offset) 0
            else load_byte at (r, h))
    load_byte-write at = wrote.loads at

    -- After a successful write to a valid memory of whole pages, a read of the same range returns
    -- the bytes written.
    pub read-write_ram : (read offset (length bytes) (write offset bytes (r, h)).1).0 ≡ ok bytes
    read-write_ram =
        let m = (write offset bytes (r, h)).1 in
        let same_len : m.0.len ≡ r.len = ap (λ q. q.len) wrote.stored.same_memory in
        let same_bytes : load_bytes (length bytes) offset m ≡ bytes =
          get_or_ext (load_bytes (length bytes) offset m) bytes 0
            (length-load_bytes (length bytes) offset m)
            (λ i below.
              let near : i < length bytes =
                ground (arith, length-load_bytes (length bytes) offset m) in
              get_or-load_bytes (length bytes) offset i m near
              ∙ wrote.loads (offset + i)
              ∙ (let e : offset + i - offset ≡ i = omega arith in
                  ground (arith, near, ap (λ k. get_or bytes k 0) e))) in
        read_lem offset (length bytes) m (ground (arith, wrote.fits.0, same_len)) wrote.fits.1
        ∙ ap ok same_bytes
