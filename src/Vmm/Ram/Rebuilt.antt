-- ===== src/Vmm/Ram/Rebuilt.antt =====
-- The memories that `restore` makes of the durable copies of others.
use minidox.Prelude.{
  ℕ, zero, suc, ◌≡◌, refl, ◌∙◌, ap, sym, subst, true, Option, none, some, List, [], ◌∷◌, map,
  Result, ok, err, length, get_elem?, arith,
}
use minidox.Prelude.Order.{nat_ord, pair_ord}
use minidox.Prelude.Map.{Map, get}
use minidox.Prelude.Step.{Step, pure, ◌>>=◌}
use minidox.Prelude.Step.Hoare.{Hoare, Post, and_then, pure_lem, guard_lem, lift_lem, framed}
use minidox.Vmm.{Error}
use minidox.Vmm.Ram.{RamPage, RamHost, KvmGuestRam, Ram}
use minidox.Vmm.Ram.Mapping.{range, map_all_pages}
use minidox.Vmm.Ram.Fork.{reserved, on_memory, from_pages}
use minidox.Vmm.Ram.Runs.{Any, backing_of, among, Remapped, system_call_lem}
use minidox.Vmm.Ram.Replaced.{among-range}
use minidox.Vmm.Ram.Children.{get_elem?-none, map_all-Remapped}
use minidox.Vmm.Ram.Durable.{durable_state}
use minidox.Vmm.Ram.Restored.{Stand, Named, restores}
use minidox.Vmm.Ram.Restore.{restore_branches}

-- A memory that maps the pages of `r` afresh.
pub record IsRebuilt (r memory : KvmGuestRam) : Type 0 where
  pub same_len : memory.len ≡ r.len
  pub same_pages : memory.pages ≡ r.pages
  pub maps : (index : ℕ) → get index memory.mapped ≡ backing_of (get_elem? memory.pages index)
  pub bare : (index : ℕ) → get index memory.copies ≡ none
  pub is_sealed : memory.sealed ≡ true
  pub private_map : memory.is_private ≡ true

pub data Rebuilt : List KvmGuestRam → List KvmGuestRam → Type 0 where
  none_left : Rebuilt [] []
  one_more :
      {r memory : KvmGuestRam} {branches restored : List KvmGuestRam}
      → IsRebuilt r memory
      → Rebuilt branches restored
      → Rebuilt (r ∷ branches) (memory ∷ restored)

-- No file and no counter has changed.
pub record SameHost {R : Type 0} (h : RamHost) (m : R × RamHost) : Type 0 where
  pub files : m.1.files ≡ h.files
  pub generation : m.1.next_generation_id ≡ h.next_generation_id

module _ {R : Type 0} (h : RamHost) where
  abbrev Whatever : R × RamHost → Type 0
  Whatever m = Unit {0}

  Remapped-IsRebuilt :
      (r memory : KvmGuestRam) (m : R × RamHost) (h' : RamHost)
      → SameHost h m
      → Remapped
          (reserved r.len r.pages true)
          m.1
          (λ index. among index (range (length r.pages) 0))
          (memory, h')
      → SameHost h (m.0, h') × IsRebuilt r memory
  unfolding get
  Remapped-IsRebuilt r memory m h' p q =
      let pages = λ (i : ℕ). ap (λ xs. get_elem? xs i) q.same_pages in
      (
        record { files = q.same_files ∙ p.files; generation = q.same_generation ∙ p.generation },
        record {
          same_len = q.same_len;
          same_pages = q.same_pages;
          maps = λ i. ground (
            arith,
            q.shown i,
            among-range (length r.pages) 0 i,
            pages i,
            get_elem?-none r.pages i,
          );
          bare = λ i. ground (arith, q.bare i);
          is_sealed = q.same_sealed;
          private_map = q.same_private;
        },
      )

  from_pages-IsRebuilt :
      (r : KvmGuestRam)
      → Hoare
          (SameHost {R = R} h)
          (from_pages r.len r.pages)
          (λ memory m. SameHost h m × IsRebuilt r memory)
          Whatever
  unfolding from_pages on_memory ◌>>=◌
  from_pages-IsRebuilt r =
      and_then
        (system_call_lem {P = SameHost {R = R} h}
          λ m faults p. record { files = p.files; generation = p.generation })
        λ _. record {
          run = λ m p.
              by_outcome m p (map_all_pages true (reserved r.len r.pages true, m.1))
                (map_all-Remapped (reserved r.len r.pages true) m.1);
        }
    where
      by_outcome :
          (m : R × RamHost)
          → SameHost h m
          → (outcome : Result Error (Unit {0}) × Ram)
          → Post
              (λ _.
                Remapped
                  (reserved r.len r.pages true)
                  m.1
                  (λ index. among index (range (length r.pages) 0)))
              Any
              outcome
          → Post
              (λ memory m. SameHost h m × IsRebuilt r memory)
              Whatever
              (elim outcome.0 [ ok u ↦ ok outcome.1.0 | err error ↦ err error ], (m.0, outcome.1.1))
      by_outcome m p (ok u, n) q = Remapped-IsRebuilt r n.0 m n.1 p q
      by_outcome m p (err e, n) q = tt

  with_value :
      {A B : Type 0} {P : R × RamHost → Type 0} {Q : B → R × RamHost → Type 0}
      (f : A → Step (R × RamHost) Error B) (c : A)
      → Hoare P (f c) Q Whatever
      → (a : A) → Hoare (λ m. P m × (a ≡ c)) (f a) Q Whatever
  with_value {P} {Q} f c rule a = record {
    run = λ m p. subst (λ b. Post Q Whatever (f b m)) (sym p.1) (rule.run m p.0);
  }

  module _ (generation_len : ℕ → Option ℕ) (name : ℕ → RamPage) where
    pub restore_branches-Rebuilt :
        (branches : List KvmGuestRam) (known : Map ℕ RamPage)
        → Stand generation_len name branches
        → Named generation_len name known
        → Hoare
            (SameHost {R = R} h)
            (restore_branches generation_len (map durable_state branches) known)
            (λ restored m. SameHost h m × Rebuilt branches restored)
            Whatever
    unfolding restore_branches durable_state
    restore_branches-Rebuilt [] known s n = pure_lem _ λ m p. (p, none_left)
    restore_branches-Rebuilt (r ∷ branches) known s n =
        let (found, (named, e)) =
          restores generation_len name r.pages known (s.stands 0 r refl) n in
        let tail : Stand generation_len name branches = record {
          stands = λ i. s.stands (suc i);
          sized = λ i. s.sized (suc i);
        } in
        and_then (guard_lem _ _ {Q = SameHost {R = R} h} (λ m _ p. tt) λ m _ p. p) λ _.
          and_then
            (lift_lem _ {Q = λ a m. SameHost {R = R} h m × (a ≡ (r.pages, found))}
              (λ m a f p. (p, ground (arith, e))) (λ m p. tt))
            λ a.
              with_value
                (λ a. from_pages r.len a.0 >>= (λ memory.
                  restore_branches generation_len (map durable_state branches) a.1
                  >>= (λ restored. pure (memory ∷ restored))))
                (r.pages, found)
                (and_then (from_pages-IsRebuilt r) λ memory.
                  and_then (framed (restore_branches-Rebuilt branches found tail named))
                    λ restored. pure_lem _ λ m p. (p.0.0, one_more p.1 p.0.1))
                a

pub some_inj : {A : Type 0} {a b : A} → some a ≡ some b → a ≡ b
some_inj {A} {a} {b} e = cc e

pub Rebuilt-get_elem? :
    {branches restored : List KvmGuestRam} (i : ℕ) (r : KvmGuestRam)
    → Rebuilt branches restored
    → get_elem? branches i ≡ some r
    → (memory : KvmGuestRam) × ((get_elem? restored i ≡ some memory) × IsRebuilt r memory)
Rebuilt-get_elem? i r none_left e = absurd (ground arith)
Rebuilt-get_elem? zero r (one_more {memory} same rest) e =
    (memory, (refl, subst (λ q. IsRebuilt q memory) (some_inj e) same))
Rebuilt-get_elem? (suc i) r (one_more same rest) e = Rebuilt-get_elem? i r rest e
