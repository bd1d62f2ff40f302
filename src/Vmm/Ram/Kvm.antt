-- ===== src/Vmm/Ram/Kvm.antt =====
-- crates/minidox-vmm/src/ram.rs: `fork` and `seal_for_checkpoint`, which read KVM's log of written
-- pages, a bitmap in words of 64 bits. What `get_dirty_log` answers is an argument.
use minidox.Prelude.{
  ℕ, zero, suc, ◌+◌, ◌*◌, ◌-◌, ◌/◌, ◌%◌, ◌^◌, ◌≤◌, ◌<◌, ◌≡◌, ◌∙◌, ap, Bool, false, ◌&&◌, ◌||◌, List,
  [], ◌∷◌, Result, if◌then◌else◌, ◌==◌, ltb, leb, length, get_or, arith,
}
use native.Mathlib.Nat.{zero-div}
use minidox.Prelude.Order.{nat_ord}
use minidox.Prelude.Map
use minidox.Prelude.Map.{Map, Set, contains_key, get, get-insert}
use minidox.Prelude.Step.{Step, lift, gets, ◌>>=◌}
use minidox.Vmm.{Error}
use minidox.Vmm.Ram.{KvmGuestRam, Ram}
use minidox.Vmm.Ram.Bytes.{get_or-cons}
use minidox.Vmm.Ram.Fork.{fork_pages, seal_pages}

-- `word & (1_u64 << bit) != 0`
unfoldable pub bit_of : (word bit : ℕ) → Bool
bit_of word bit = (word / 2 ^ bit) % 2 == 1

-- One round of the loop over the bits of a word.
unfoldable pub mark_bit : (word_index word bit page_count : ℕ) → Set ℕ → Set ℕ
unfolding bit_of
mark_bit word_index word bit page_count dirty =
    if bit_of word bit
    then (if ltb (word_index * 64 + bit) page_count
        then Map.insert (word_index * 64 + bit) tt dirty
        else dirty)
    else dirty

-- The loop from a bit on, for so many bits.
unfoldable pub mark_bits : (count word_index word bit page_count : ℕ) → Set ℕ → Set ℕ
unfolding mark_bit
mark_bits zero word_index word bit page_count dirty = dirty
mark_bits (suc count) word_index word bit page_count dirty =
    mark_bits count word_index word (bit + 1) page_count
      (mark_bit word_index word bit page_count dirty)

-- The loop over the words, from the index of a word on.
unfoldable pub mark_words : List ℕ → (word_index page_count : ℕ) → Set ℕ → Set ℕ
unfolding mark_bits
mark_words [] word_index page_count dirty = dirty
mark_words (word ∷ bitmap) word_index page_count dirty =
    mark_words bitmap (word_index + 1) page_count (mark_bits 64 word_index word 0 page_count dirty)

unfoldable pub logged : List ℕ → KvmGuestRam → Set ℕ
unfolding mark_words
logged bitmap r = mark_words bitmap 0 (length r.pages) r.host_dirty

unfoldable pub fork : Result Error (List ℕ) → Step Ram Error KvmGuestRam
unfolding logged
fork dirty_log = do bitmap ← lift dirty_log; dirty ← gets (λ m. logged bitmap m.0); fork_pages dirty

unfoldable pub seal_for_checkpoint : Result Error (List ℕ) → Step Ram Error (Unit {0})
unfolding logged
seal_for_checkpoint dirty_log = do
  bitmap ← lift dirty_log
  dirty ← gets (λ m. logged bitmap m.0)
  seal_pages dirty

-- Whether a page is among those that a word logs from a bit on.
abbrev pub in_word : (count word_index word bit page_count page : ℕ) → Bool
in_word count word_index word bit page_count page =
    (leb (word_index * 64 + bit) page && ltb page (word_index * 64 + bit + count))
    && (ltb page page_count && bit_of word (page - word_index * 64))

bit_of-zero : (bit : ℕ) → bit_of 0 bit ≡ false
unfolding bit_of
bit_of-zero bit = let e : 0 / 2 ^ bit ≡ 0 = zero-div (2 ^ bit) in ground (arith, e)

contains_key-mark_bit :
    (word_index word bit page_count page : ℕ) (dirty : Set ℕ)
    → contains_key page (mark_bit word_index word bit page_count dirty)
      ≡ (in_word 1 word_index word bit page_count page || contains_key page dirty)
unfolding mark_bit
contains_key-mark_bit word_index word bit page_count page dirty =
    let here : page ≡ word_index * 64 + bit
        → bit_of word (page - word_index * 64) ≡ bit_of word bit =
      λ e. let f : page - word_index * 64 ≡ bit = omega (arith, e) in ap (bit_of word) f in
    ground (arith, here, get-insert (word_index * 64 + bit) page tt dirty)

contains_key-mark_bits :
    (count word_index word bit page_count page : ℕ) (dirty : Set ℕ)
    → contains_key page (mark_bits count word_index word bit page_count dirty)
      ≡ (in_word count word_index word bit page_count page || contains_key page dirty)
unfolding mark_bits
contains_key-mark_bits zero word_index word bit page_count page dirty = ground arith
contains_key-mark_bits (suc count) word_index word bit page_count page dirty =
    contains_key-mark_bits count word_index word (bit + 1) page_count page
      (mark_bit word_index word bit page_count dirty)
    ∙ ground (arith, contains_key-mark_bit word_index word bit page_count page dirty)

-- The bits of a word and those of the words that follow.
more_words :
    (word : ℕ) (bitmap : List ℕ) (word_index page_count page : ℕ) (old : Bool)
    → ((leb ((word_index + 1) * 64) page
          && (ltb page page_count
              && bit_of (get_or bitmap (page / 64 - (word_index + 1)) 0) (page % 64)))
        || (in_word 64 word_index word 0 page_count page || old))
      ≡ ((leb (word_index * 64) page
            && (ltb page page_count
                && bit_of (get_or (word ∷ bitmap) (page / 64 - word_index) 0) (page % 64)))
          || old)
more_words word bitmap word_index page_count page old =
    let here : word_index * 64 ≤ page
        → page < word_index * 64 + 64
        → bit_of word (page - word_index * 64) ≡ bit_of word (page % 64) =
      λ a b.
        let f : page - word_index * 64 ≡ page % 64 = omega (arith, a, b) in ap (bit_of word) f in
    let e : page / 64 - word_index - 1 ≡ page / 64 - (word_index + 1) = omega arith in
    let bits = λ (w : ℕ). bit_of w (page % 64) in
    ground (
      arith,
      here,
      ap bits (get_or-cons word bitmap (page / 64 - word_index)),
      ap (λ k. bits (get_or bitmap k 0)) e,
    )

pub contains_key-mark_words :
    (bitmap : List ℕ) (word_index page_count page : ℕ) (dirty : Set ℕ)
    → contains_key page (mark_words bitmap word_index page_count dirty) ≡ (
        (leb (word_index * 64) page
          && (ltb page page_count && bit_of (get_or bitmap (page / 64 - word_index) 0) (page % 64)))
        || contains_key page dirty)
unfolding mark_words
contains_key-mark_words [] word_index page_count page dirty =
    let none_of : bit_of 0 (page % 64) ≡ false = bit_of-zero (page % 64) in ground (arith, none_of)
contains_key-mark_words (word ∷ bitmap) word_index page_count page dirty =
    contains_key-mark_words bitmap (word_index + 1) page_count page
      (mark_bits 64 word_index word 0 page_count dirty)
    ∙ ap
        (λ b.
          (leb ((word_index + 1) * 64) page
            && (ltb page page_count
                && bit_of (get_or bitmap (page / 64 - (word_index + 1)) 0) (page % 64)))
          || b)
        (contains_key-mark_bits 64 word_index word 0 page_count page dirty)
    ∙ more_words word bitmap word_index page_count page (contains_key page dirty)

-- The pages that a fork or a checkpoint takes as written are those marked by the host and those
-- of the memory whose bit is set in the bitmap of KVM.
pub contains_key-logged :
    (bitmap : List ℕ) (r : KvmGuestRam) (page : ℕ)
    → contains_key page (logged bitmap r) ≡ (
        (ltb page (length r.pages) && bit_of (get_or bitmap (page / 64) 0) (page % 64))
        || contains_key page r.host_dirty)
unfolding logged
contains_key-logged bitmap r page =
    contains_key-mark_words bitmap 0 (length r.pages) page r.host_dirty ∙ ground arith
