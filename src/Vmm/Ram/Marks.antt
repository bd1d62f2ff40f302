-- ===== src/Vmm/Ram/Marks.antt =====
-- The bounds of `read` and `write`, and the sets of pages that a write marks and a fork takes.
use minidox.Prelude.{
  ℕ, zero, suc, ◌+◌, ◌≤◌, ◌<◌, ◌≡◌, refl, ◌∙◌, ap, ◌&&◌, ◌||◌, List, [], ◌∷◌, ok_or, checked_add,
  ltb, leb, arith, u64_mod,
}
use minidox.Prelude.Order.{nat_ord, pair_ord}
use minidox.Prelude.Map
use minidox.Prelude.Map.{Map, Set, get, contains_key, get-insert}
use minidox.Prelude.Step.Hoare.{Hoare, and_then, pure_lem, lift_lem, gets_lem, guard_lem}
use minidox.Vmm.{ram_range}
use minidox.Vmm.Ram.{Ram, checked_range, mark_host}
use minidox.Vmm.Ram.Fork.{collect}
use minidox.Vmm.Ram.Runs.{among}

pub checked_range_lem :
    (n : Ram) (offset len : ℕ)
    → Hoare
        (λ m. m ≡ n)
        (checked_range offset len)
        (λ end m. (m ≡ n) × ((end ≡ offset + len) × ((end ≤ n.0.len) × (offset + len < u64_mod))))
        (λ m. m ≡ n)
unfolding checked_range
checked_range_lem n offset len =
    and_then
      (lift_lem (ok_or (checked_add offset len) (ram_range offset len))
        {Q = λ end m. (m ≡ n) × ((end ≡ offset + len) × (offset + len < u64_mod))}
        (λ m end e p. (p, (ground arith, ground arith))) (λ m p. p))
      λ end.
        and_then
          (gets_lem _
            {Q = λ ram_len m.
              ((m ≡ n) × ((end ≡ offset + len) × (offset + len < u64_mod))) × (ram_len ≡ n.0.len)}
            λ m p. (p, ap (λ q. q.0.len) p.0))
          λ ram_len.
            and_then
              (guard_lem (ltb ram_len end) (ram_range offset len)
                {Q = λ m.
                  (m ≡ n) × ((end ≡ offset + len) × ((end ≤ n.0.len) × (offset + len < u64_mod)))}
                (λ m e p. p.0.0) (λ m e p. (p.0.0, (p.0.1.0, (ground arith, p.0.1.1)))))
              λ _. pure_lem end λ m p. p

pub contains_key-mark_host :
    (count first index : ℕ) (dirty : Set ℕ)
    → contains_key index (mark_host count first dirty)
      ≡ ((leb first index && ltb index (first + count)) || contains_key index dirty)
unfolding mark_host
contains_key-mark_host zero first index dirty = ground arith
contains_key-mark_host (suc count) first index dirty =
    contains_key-mark_host count (first + 1) index (Map.insert first tt dirty)
    ∙ ground (arith, get-insert first index tt dirty)

pub contains_key-collect :
    (pages : List ℕ) (index : ℕ) (dirty : Set ℕ)
    → contains_key index (collect pages dirty) ≡ (among index pages || contains_key index dirty)
unfolding collect
contains_key-collect [] index dirty = refl
contains_key-collect (page ∷ pages) index dirty =
    contains_key-collect pages index (Map.insert page tt dirty)
    ∙ ground (arith, get-insert page index tt dirty)
