-- ===== src/Fork/Bytes/Read.antt =====
-- `read`, against the bytes that the branch shows.
use minidox.Prelude.{
  ℕ, zero, suc, ◌+◌, ◌-◌, ◌/◌, ◌%◌, ◌≤◌, ◌<◌, ◌≡◌, refl, ◌∙◌, ap, ◌&&◌, none, some, List, [], ◌∷◌,
  length, get_or, replicate, slice, copy_from_slice, arith, ltb, leb, if◌then◌else◌, ok, err,
  u64_mod, Bool-cases, inl, inr, Option-cases, ltb→lt, ltb→le, length-slice, get_or-slice,
  length-copy_from_slice, get_or-copy_from_slice, length-replicate, get_or-replicate, get_or_ext,
}
use minidox.Prelude.Order.{bytes_ord, nat_ord, pair_ord}
use minidox.Prelude.Map.{same_refl}
use minidox.Overlay
use minidox.Fork.{
  Page, PageBranch, range_overflow, page_size, count_at, read_page, read_loop, read, write,
}
use minidox.Fork.Bytes.{byte_at, IsWhole}
use minidox.Fork.Bytes.Write.{byte_at-write, write-IsWhole, write_overflow}

-- What is known in the loop of `read`: the buffer has the length of the range, and is still zero
-- from the cursor on.
record InLoop (offset end cursor : ℕ) (result : List ℕ) : Type 0 where
  sized : offset + length result ≡ end
  started : offset ≤ cursor
  blank : (i : ℕ) → cursor ≤ offset + i → get_or result i 0 ≡ 0

-- The buffer `out` is `result` with the bytes of the addresses from `cursor` to `end` filled in.
record Filled (path : List ℕ) (offset end cursor : ℕ) (b : PageBranch) (result out : List ℕ)
    : Type 0 where
  length_kept : length out ≡ length result
  bytes :
      (i : ℕ)
      → get_or out i 0 ≡ (
          if leb cursor (offset + i) && ltb (offset + i) end
          then byte_at b path (offset + i)
          else get_or result i 0)

module _ (path : List ℕ) {offset end cursor : ℕ} (b : PageBranch) {result : List ℕ}
    (h : InLoop offset end cursor result) (more : cursor < end) (whole : IsWhole b) where
  -- One round: the buffer's part for this page shows the branch, and the rest is as before.
  round_blank :
      Overlay.find b (path, cursor / page_size) ≡ none
      → (i : ℕ)
      → get_or result i 0 ≡ (
          if leb cursor (offset + i) && ltb (offset + i) (cursor + count_at cursor end)
          then byte_at b path (offset + i)
          else get_or result i 0)
  unfolding byte_at
  round_blank e i = ground (arith, h.blank i)

  module _ (page : Page) (found : Overlay.find b (path, cursor / page_size) ≡ some page) where
    length_page : length page.bytes ≡ page_size
    length_page = ground (arith, whole.at path (cursor / page_size))

    length_source :
        length (slice page.bytes (cursor % page_size) (count_at cursor end)) ≡ count_at cursor end
    length_source =
        length-slice page.bytes (cursor % page_size) (count_at cursor end)
          (omega (arith, length_page))

    round_page :
        (i : ℕ)
        → get_or
            (copy_from_slice result
              (cursor - offset)
              (slice page.bytes (cursor % page_size) (count_at cursor end)))
            i
            0
          ≡ (if leb cursor (offset + i) && ltb (offset + i) (cursor + count_at cursor end)
              then byte_at b path (offset + i)
              else get_or result i 0)
    unfolding byte_at
    round_page i =
        get_or-copy_from_slice result (cursor - offset)
          (slice page.bytes (cursor % page_size) (count_at cursor end)) i 0
          (omega (arith, length_source, h.sized, h.started))
        ∙ rw length_source (
            ground (
              arith,
              h.started,
              get_or-slice page.bytes (cursor % page_size) (count_at cursor end)
                  (i - (cursor - offset)) 0,
            ))

  round :
      Filled path offset
        (cursor + count_at cursor end)
        cursor
        b
        result
        (read_page path offset end cursor b result)
  unfolding read_page
  round = elim (Option-cases (Overlay.find b (path, cursor / page_size))) [
    | inl e ↦ rw (read_page, e) (record { length_kept = refl; bytes = round_blank e })
    | inr (page, e) ↦
        rw (read_page, e)
          (record {
            length_kept =
                length-copy_from_slice result (cursor - offset)
                  (slice page.bytes (cursor % page_size) (count_at cursor end))
                  (omega (arith, length_source page e, h.sized, h.started));
            bytes = round_page page e;
          })
  ]

  round-InLoop :
      InLoop offset end (cursor + count_at cursor end) (read_page path offset end cursor b result)
  round-InLoop =
      let r = round in
      record {
        sized = omega (arith, r.length_kept, h.sized);
        started = omega (arith, h.started);
        blank = λ i past. r.bytes i ∙ ground (arith, h.blank i);
      }

  round-Filled :
      {out : List ℕ}
      → Filled path offset end
          (cursor + count_at cursor end)
          b
          (read_page path offset end cursor b result)
          out
      → Filled path offset end cursor b result out
  round-Filled f =
      let r = round in
      record {
        length_kept = f.length_kept ∙ r.length_kept;
        bytes = λ i. f.bytes i ∙ ground (arith, r.bytes i);
      }

read_loop-Filled :
    (fuel : ℕ) (path : List ℕ) (offset end cursor : ℕ) (b : PageBranch) (result : List ℕ)
    → IsWhole b
    → InLoop offset end cursor result
    → end ≤ cursor + fuel
    → Filled path offset end cursor b result (read_loop fuel path offset end cursor b result)
unfolding read_loop
read_loop-Filled zero path offset end cursor b result w h fits = record {
  length_kept = refl;
  bytes = λ i. ground arith;
}
read_loop-Filled (suc fuel) path offset end cursor b result w h fits =
    elim (Bool-cases (ltb cursor end)) [
      | inl more ↦
          let lt = ltb→lt _ _ more in
          rw (read_loop, more)
            (round-Filled path b h lt w (
              read_loop-Filled fuel path offset end (cursor + count_at cursor end) b
                (read_page path offset end cursor b result) w (round-InLoop path b h lt w)
                (omega arith)))
      | inr stop ↦ rw (read_loop, stop) (record { length_kept = refl; bytes = λ i. ground arith })
    ]

-- The bytes that a branch shows from an address on.
unfoldable pub shown : PageBranch → List ℕ → (start count : ℕ) → List ℕ
shown b path start zero = []
shown b path start (suc count) = byte_at b path start ∷ shown b path (start + 1) count

length-shown :
    (b : PageBranch) (path : List ℕ) (start count : ℕ) → length (shown b path start count) ≡ count
unfolding shown
length-shown b path start zero = refl
length-shown b path start (suc count) = ap suc (length-shown b path (start + 1) count)

get_or-shown :
    (b : PageBranch) (path : List ℕ) (start count i : ℕ)
    → i < count
    → get_or (shown b path start count) i 0 ≡ byte_at b path (start + i)
unfolding shown
get_or-shown b path start zero i h = absurd (omega arith)
get_or-shown b path start (suc count) zero h =
    ap (byte_at b path) {x = start} {y = start + 0} (omega arith)
get_or-shown b path start (suc count) (suc i) h =
    get_or-shown b path (start + 1) count i (omega arith)
    ∙ ap (byte_at b path) {x = start + 1 + i} {y = start + suc i} (omega arith)

module _ (path : List ℕ) (offset len : ℕ) (b : PageBranch) where
  -- A read of a branch with whole pages returns the bytes the branch shows, in full length, if
  -- the range ends below 2^64, and else RangeOverflow.
  pub read-shown :
      IsWhole b
      → read path offset len b
        ≡ (if ltb (offset + len) u64_mod then ok (shown b path offset len) else err range_overflow)
  unfolding read
  read-shown w = elim (Bool-cases (ltb (offset + len) u64_mod)) [
    | inl fits ↦
        rw (read, fits)
          (ap ok (
            filled (
              read_loop-Filled len path offset (offset + len) offset b (replicate len 0) w start
                (omega arith))))
    | inr over ↦ rw (read, over)
  ]
    where
      start : InLoop offset (offset + len) offset (replicate len 0)
      start = record {
        sized = omega (arith, length-replicate {A = ℕ} len 0);
        started = omega arith;
        blank = λ i _. get_or-replicate {A = ℕ} len 0 i;
      }

      filled :
          {out : List ℕ}
          → Filled path offset (offset + len) offset b (replicate len 0) out
          → out ≡ shown b path offset len
      filled {out} f =
          get_or_ext out (shown b path offset len) 0
            (omega (
              arith,
              f.length_kept,
              length-replicate {A = ℕ} len 0,
              length-shown b path offset len,
            ))
            (λ i lt.
              let small : i < len = omega (arith, f.length_kept, length-replicate {A = ℕ} len 0) in
              f.bytes i ∙ ground (arith, get_or-shown b path offset len i small))

-- After a successful write to a branch with whole pages, a read of the same range returns the
-- bytes written.
pub read-write :
    (next_page : ℕ) (path : List ℕ) (offset : ℕ) (bytes : List ℕ) (b : PageBranch)
    → IsWhole b
    → (write next_page path offset bytes b).0 ≡ ok tt
    → read path offset (length bytes) (write next_page path offset bytes b).2 ≡ ok bytes
read-write next_page path offset bytes b w done =
    elim (Bool-cases (ltb (offset + length bytes) u64_mod)) [
      | inl fits ↦
          read-shown path offset (length bytes) after
            (write-IsWhole next_page path offset bytes b w)
          ∙ rw fits (
              ap ok (
                get_or_ext (shown after path offset (length bytes)) bytes 0
                  (length-shown after path offset (length bytes)) same_byte))
      | inr over ↦
          absurd (cc (done, write_overflow next_page path offset bytes b (ltb→le _ _ over)))
    ]
  where
    after : PageBranch
    after = (write next_page path offset bytes b).2

    same_byte :
        (i : ℕ)
        → i < length (shown after path offset (length bytes))
        → get_or (shown after path offset (length bytes)) i 0 ≡ get_or bytes i 0
    same_byte i lt =
        let small : i < length bytes =
          omega (arith, length-shown after path offset (length bytes)) in
        let back : offset + i - offset ≡ i = omega arith in
        get_or-shown after path offset (length bytes) i small
        ∙ byte_at-write next_page path offset bytes b w done path (offset + i)
        ∙ rw (same_refl path, back) (ground arith)
