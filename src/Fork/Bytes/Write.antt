-- ===== src/Fork/Bytes/Write.antt =====
-- `write`, byte by byte, and its results.
use minidox.Prelude.{
  ℕ, zero, suc, ◌+◌, ◌-◌, ◌/◌, ◌≤◌, ◌<◌, ◌≡◌, refl, ◌∙◌, true, false, List, length, get_or, arith,
  ltb, if◌then◌else◌, Result, ok, err, u64_mod, Bool-cases, inl, inr, ltb→lt, ltb→le, lt→ltb,
  le→ltb,
}
use minidox.Prelude.Order.{bytes_ord, nat_ord, pair_ord}
use minidox.Fork.{
  PageBranch, Error, range_overflow, page_id_overflow, page_size, count_at, write_page, write_loop,
  write,
}
use minidox.Fork.Bytes.{byte_at, IsWhole, covers}
use minidox.Fork.Bytes.Round.{byte_at-write_page, write_page-IsWhole}

-- What is known of the parameters of a loop: the range is that of the bytes, and the cursor has
-- come from its start.
pub record InLoop (offset end : ℕ) (bytes : List ℕ) (cursor : ℕ) (b : PageBranch) : Type 0 where
  pub sized : offset + length bytes ≡ end
  pub started : offset ≤ cursor
  pub whole : IsWhole b

advance-InLoop :
    (path : List ℕ) {offset end : ℕ} {bytes : List ℕ} {cursor : ℕ} (id : ℕ) {b : PageBranch}
    → cursor < end
    → InLoop offset end bytes cursor b
    → InLoop offset end bytes
        (cursor + count_at cursor end)
        (write_page path offset end bytes cursor id b)
advance-InLoop path {offset} {end} {bytes} {cursor} id {b} more h = record {
  sized = h.sized;
  started = omega arith;
  whole = write_page-IsWhole path offset end bytes cursor id b h.sized h.started more h.whole;
}

pub write_loop_cases {ℓ} :
    (P : Result Error (Unit {0}) × ℕ × PageBranch → Type ℓ) (fuel : ℕ) (path : List ℕ)
    (offset end : ℕ) (bytes : List ℕ) (cursor id : ℕ) (b : PageBranch)
    → (end ≤ cursor → P (ok tt, id, b))
    → (cursor < end → u64_mod ≤ id + 1 → P (err page_id_overflow, id, b))
    → (cursor < end
        → id + 1 < u64_mod
        → P (
            write_loop fuel path offset end bytes
              (cursor + count_at cursor end)
              (id + 1)
              (write_page path offset end bytes cursor id b)))
    → P (write_loop (suc fuel) path offset end bytes cursor id b)
unfolding write_loop
write_loop_cases P fuel path offset end bytes cursor id b stop full round =
    elim (Bool-cases (ltb cursor end)) [
      | inl more ↦ elim (Bool-cases (ltb (id + 1) u64_mod)) [
        | inl room ↦ rw (write_loop, more, room) (round (ltb→lt _ _ more) (ltb→lt _ _ room))
        | inr none_left ↦
            rw (write_loop, more, none_left) (full (ltb→lt _ _ more) (ltb→le _ _ none_left))
      ]
      | inr done ↦ rw (write_loop, done) (stop (ltb→le _ _ done))
    ]

-- The pages that a range from `start` to `end` touches.
abbrev pub pages_touched : ℕ → ℕ → ℕ
pages_touched start end = if ltb start end then (end - 1) / page_size - start / page_size + 1 else 0

pages_touched-advance :
    (cursor end : ℕ)
    → cursor < end
    → pages_touched cursor end ≡ suc (pages_touched (cursor + count_at cursor end) end)
pages_touched-advance cursor end more = ground arith

-- What a write from `cursor` to `end` leaves.
pub record Wrote (path : List ℕ) (offset end : ℕ) (bytes : List ℕ) (cursor id : ℕ) (b : PageBranch)
    (r : Result Error (Unit {0}) × ℕ × PageBranch) : Type 0 where
  -- on success every byte is stored
  pub stored :
      r.0 ≡ ok tt
      → (file : List ℕ) (a : ℕ) → covers path cursor end file a ≡ true
      → byte_at r.2 file a ≡ get_or bytes (a - offset) 0
  -- on success and on failure no other byte changes
  pub kept :
      (file : List ℕ) (a : ℕ)
      → covers path cursor end file a ≡ false
      → byte_at r.2 file a ≡ byte_at b file a
  pub still_whole : IsWhole r.2
  -- the write fails exactly when the page identities run out, and else uses one for each page
  pub succeeds : id + pages_touched cursor end < u64_mod → r.0 ≡ ok tt
  pub fails : id < u64_mod → u64_mod ≤ id + pages_touched cursor end → r.0 ≡ err page_id_overflow
  pub counted : r.0 ≡ ok tt → r.1 ≡ id + pages_touched cursor end

write_loop-Wrote :
    (fuel : ℕ) (path : List ℕ) (offset end : ℕ) (bytes : List ℕ) (cursor id : ℕ) (b : PageBranch)
    → InLoop offset end bytes cursor b
    → end ≤ cursor + fuel
    → Wrote path offset end bytes cursor id b (write_loop fuel path offset end bytes cursor id b)
unfolding write_loop
write_loop-Wrote zero path offset end bytes cursor id b h fits = record {
  stored = λ done file a c. ground arith;
  kept = λ file a c. refl;
  still_whole = h.whole;
  succeeds = λ room. refl;
  fails = λ fresh full. ground arith;
  counted = λ done. ground arith;
}
write_loop-Wrote (suc fuel) path offset end bytes cursor id b h fits =
    write_loop_cases (Wrote path offset end bytes cursor id b) fuel path offset end bytes cursor id
      b
      (λ stop. record {
        stored = λ done file a c. ground arith;
        kept = λ file a c. refl;
        still_whole = h.whole;
        succeeds = λ room. refl;
        fails = λ fresh full. ground arith;
        counted = λ done. ground arith;
      })
      (λ more full. record {
        stored = λ done file a c. ground arith;
        kept = λ file a c. refl;
        still_whole = h.whole;
        succeeds = λ room. ground arith;
        fails = λ fresh _. refl;
        counted = λ done. ground arith;
      })
      (λ more room. rest more room (
        write_loop-Wrote fuel path offset end bytes (cursor + count_at cursor end) (id + 1)
          (write_page path offset end bytes cursor id b) (advance-InLoop path id more h)
          (omega arith)))
  where
    rest :
        {r : Result Error (Unit {0}) × ℕ × PageBranch}
        → cursor < end
        → id + 1 < u64_mod
        → Wrote path offset end bytes
            (cursor + count_at cursor end)
            (id + 1)
            (write_page path offset end bytes cursor id b)
            r
        → Wrote path offset end bytes cursor id b r
    rest {r} more fresh w = record {
      stored = λ done file a c. ground (
        arith,
        w.stored done file a,
        w.kept file a,
        byte_at-write_page path offset end bytes cursor id b h.sized h.started more h.whole file a,
      );
      kept = λ file a c. ground (
        arith,
        w.kept file a,
        byte_at-write_page path offset end bytes cursor id b h.sized h.started more h.whole file a,
      );
      still_whole = w.still_whole;
      succeeds = λ room. w.succeeds (omega (arith, pages_touched-advance cursor end more));
      fails = λ _ full. w.fails fresh (omega (arith, pages_touched-advance cursor end more));
      counted = λ done. w.counted done ∙ omega (arith, pages_touched-advance cursor end more);
    }

module _ (next_page : ℕ) (path : List ℕ) (offset : ℕ) (bytes : List ℕ) (b : PageBranch) where
  write-Wrote :
      IsWhole b
      → offset + length bytes < u64_mod
      → Wrote path offset
          (offset + length bytes)
          bytes
          offset
          next_page
          b
          (write next_page path offset bytes b)
  unfolding write
  write-Wrote w fits =
      rw (write, lt→ltb _ _ fits)
        (write_loop-Wrote (length bytes) path offset (offset + length bytes) bytes offset next_page
          b (record { sized = refl; started = omega arith; whole = w }) (omega arith))

  pub write_overflow :
      u64_mod ≤ offset + length bytes
      → write next_page path offset bytes b ≡ (err range_overflow, next_page, b)
  unfolding write
  write_overflow h = rw (write, le→ltb _ _ h)

  -- A write to a branch with whole pages, from a page counter below 2^64, succeeds, runs out of
  -- page identities or overflows its range exactly as the range end and the number of pages
  -- touched say.
  pub result-write :
      IsWhole b
      → next_page < u64_mod
      → (write next_page path offset bytes b).0 ≡ (
          if ltb (offset + length bytes) u64_mod
          then if ltb (next_page + pages_touched offset (offset + length bytes)) u64_mod
            then ok tt
            else err page_id_overflow
          else err range_overflow)
  result-write w fresh = elim (Bool-cases (ltb (offset + length bytes) u64_mod)) [
    | inl fits ↦ rw fits (by_room (write-Wrote w (ltb→lt _ _ fits)))
    | inr over ↦ rw (over, write_overflow (ltb→le _ _ over))
  ]
    where
      by_room :
          {r : Result Error (Unit {0}) × ℕ × PageBranch}
          → Wrote path offset (offset + length bytes) bytes offset next_page b r
          → r.0 ≡ (
              if ltb (next_page + pages_touched offset (offset + length bytes)) u64_mod
              then ok tt
              else err page_id_overflow)
      by_room t = ground (arith, t.succeeds, t.fails fresh)

  -- After a successful write of a page branch with whole pages, every address of the range shows
  -- the byte written to it, and every other address of every file what it showed before.
  pub byte_at-write :
      IsWhole b
      → (write next_page path offset bytes b).0 ≡ ok tt
      → (file : List ℕ) (a : ℕ)
      → byte_at (write next_page path offset bytes b).2 file a ≡ (
          if covers path offset (offset + length bytes) file a
          then get_or bytes (a - offset) 0
          else byte_at b file a)
  byte_at-write w done file a = elim (Bool-cases (ltb (offset + length bytes) u64_mod)) [
    | inl fits ↦
        let t = write-Wrote w (ltb→lt _ _ fits) in
        ground (arith, t.stored done file a, t.kept file a)
    | inr over ↦ absurd (cc (done, write_overflow (ltb→le _ _ over)))
  ]

  -- A write to a branch with whole pages changes no byte outside its range, also when it fails
  -- halfway.
  pub byte_at-write_outside :
      IsWhole b
      → (file : List ℕ) (a : ℕ) → covers path offset (offset + length bytes) file a ≡ false
      → byte_at (write next_page path offset bytes b).2 file a ≡ byte_at b file a
  byte_at-write_outside w file a out = elim (Bool-cases (ltb (offset + length bytes) u64_mod)) [
    | inl fits ↦ (write-Wrote w (ltb→lt _ _ fits)).kept file a out
    | inr over ↦ rw (write_overflow (ltb→le _ _ over))
  ]

  pub write-IsWhole : IsWhole b → IsWhole (write next_page path offset bytes b).2
  write-IsWhole w = elim (Bool-cases (ltb (offset + length bytes) u64_mod)) [
    | inl fits ↦ (write-Wrote w (ltb→lt _ _ fits)).still_whole
    | inr over ↦ rw (write_overflow (ltb→le _ _ over)) w
  ]
